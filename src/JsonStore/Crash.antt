-- ===== src/JsonStore/Crash.antt =====
-- The files of backend/jsonStore.js under writes of which any may crash, and the cell that they stand for.
use Prim.Native.String.{◌++◌ as join}
use vorliq.Common.{
  ℕ, zero, suc, String, ◌⊎◌, inl, inr, ◌++◌, true, ◌≡◌, refl, Option, none, some, List, [], ◌∷◌, ap,
  ◌∙◌,
}
use vorliq.JsonStore.Disk.{
  Disk, copy_backup, act, perform, tear, crash, replace_acts, backup_acts, write_acts, write,
  read_acts, safe_read,
}

pub data Command (V : Type 0) : Type 0 where
  put : V → Command V
  -- a write that crashes within the act that follows so many acts, with the text of that act
  put_crashed : V → ℕ → String → Command V
  read : V → Command V

-- What a command may make of the value of a cell.
pub data Becomes {V : Type 0} : Command V → V → V → Type 0 where
  is_put : {u v : V} → Becomes (put v) u v
  is_kept : {u v : V} {n : ℕ} {torn : String} → Becomes (put_crashed v n torn) u u
  is_replaced : {u v : V} {n : ℕ} {torn : String} → Becomes (put_crashed v n torn) u v
  is_read : {u v : V} → Becomes (read v) u u

pub data AllBecome {V : Type 0} : List (Command V) → V → V → Type 0 where
  stays : {u : V} → AllBecome [] u u
  goes :
      {c : Command V} {cs : List (Command V)} {u v w : V}
      → Becomes c u v
      → AllBecome cs v w
      → AllBecome (c ∷ cs) u w

module _ {V : Type 0} (parse : String → Option V) (to_text : V → String) where
  unfoldable pub run : Command V → Disk → Disk
  run (put v) d = write parse to_text true v d
  run (put_crashed v n torn) d = crash n torn (write_acts parse to_text true v d) d
  run (read fallback) d = (safe_read parse to_text fallback d).1

  unfoldable pub run_all : List (Command V) → Disk → Disk
  run_all [] d = d
  run_all (c ∷ cs) d = run_all cs (run c d)

  -- The file is there and holds the text of a value.
  pub record Holds (d : Disk) (v : V) : Type 0 where
    pub content : String
    pub there : d.main ≡ some content
    pub parsed : parse content ≡ some v

  -- A crash leaves the old content or the new one.
  crash-replace :
      (n : ℕ) (torn text : String) (d : Disk)
      → ((crash n torn (replace_acts text) d).main ≡ d.main)
        ⊎ ((crash n torn (replace_acts text) d).main ≡ some text)
  unfolding crash act tear
  crash-replace zero torn text d = inl refl
  crash-replace (suc zero) torn text d = inl refl
  crash-replace (suc (suc zero)) torn text d = inl refl
  crash-replace (suc (suc (suc n))) torn text d = inr refl

  crash-main :
      (n : ℕ) (torn text : String) (old : Option String) (d : Disk)
      → d.main ≡ old
      → ((crash n torn (backup_acts true old ++ replace_acts text) d).main ≡ old)
        ⊎ ((crash n torn (backup_acts true old ++ replace_acts text) d).main ≡ some text)
  unfolding crash act tear
  crash-main n torn text none d h = elim (crash-replace n torn text d) [
    | inl e ↦ inl (e ∙ h)
    | inr e ↦ inr e
  ]
  crash-main zero torn text (some s) d h = inl h
  crash-main (suc n) torn text (some s) d h = elim (crash-replace n torn text (act copy_backup d)) [
    | inl e ↦ inl (e ∙ h)
    | inr e ↦ inr e
  ]

  perform-main :
      (text : String) (old : Option String) (d : Disk)
      → (perform (backup_acts true old ++ replace_acts text) d).main ≡ some text
  unfolding perform act
  perform-main text none d = refl
  perform-main text (some s) d = refl

  read-Holds :
      (fallback v : V) (d : Disk) → Holds d v → read_acts parse to_text fallback d ≡ (v, [])
  unfolding read_acts
  read-Holds fallback v d h = rw (h.there, h.parsed) refl

  -- Each command makes of the value what it may.
  run-Becomes :
      ((v : V) → parse (join (to_text v) "\n") ≡ some v)
      → (c : Command V) (d : Disk) (u : V) → Holds d u
      → (v : V) × (Becomes c u v × Holds (run c d) v)
  unfolding run write write_acts safe_read perform
  run-Becomes round (put v) d u h = (
    v,
    (
      is_put,
      record {
        content = _;
        there = perform-main (join (to_text v) "\n") d.main d;
        parsed = round v;
      },
    ),
  )
  run-Becomes round (put_crashed v n torn) d u h =
      elim (crash-main n torn (join (to_text v) "\n") d.main d refl) [
        | inl e ↦
            (u, (is_kept, record { content = h.content; there = e ∙ h.there; parsed = h.parsed }))
        | inr e ↦ (v, (is_replaced, record { content = _; there = e; parsed = round v }))
      ]
  run-Becomes round (read fallback) d u h = (
    u,
    (
      is_read,
      record {
        content = h.content;
        there = ap (λ r. (perform r.1 d).main) (read-Holds fallback u d h) ∙ h.there;
        parsed = h.parsed;
      },
    ),
  )

  -- A file that holds a value behaves as a cell: after any writes, crashed writes and reads there is a
  -- value that the same commands may make of the value of a cell, where a crashed write is done wholly or
  -- not at all, and every read gives that value, if a text that was written is parsed as its value.
  pub run_all-AllBecome :
      ((v : V) → parse (join (to_text v) "\n") ≡ some v)
      → (cs : List (Command V)) (d : Disk) (u : V) → Holds d u
      → (v : V) × (AllBecome cs u v
          × (Holds (run_all cs d) v
              × ((fallback : V) → (safe_read parse to_text fallback (run_all cs d)).0 ≡ v)))
  unfolding run_all safe_read
  run_all-AllBecome round [] d u h =
      (u, (stays, (h, λ fallback. ap (λ r. r.0) (read-Holds fallback u d h))))
  run_all-AllBecome round (c ∷ cs) d u h =
      let (v, (b, k)) = run-Becomes round c d u h in
      let (w, (bs, rest)) = run_all-AllBecome round cs (run c d) v k in (w, (goes b bs, rest))
