-- ===== src/RateLimit/Window.antt =====
-- A counter counts the hits of its window, and of no other key or window.
use vorliq.Common.{
  ℕ, suc, ◌+◌, ◌<◌, String, Bool, ◌≡◌, refl, Option, none, some, List, [], ◌∷◌, arith, str_eq,
  eq_refl, leb, if◌then◌else◌, All, inl, inr, Bool-cases, ap, ◌∙◌, str_eq-eq,
}
use native.Mathlib.Nat.{add-zero, add-suc, suc-add}
use vorliq.Common.Dict
use vorliq.Common.Dict.{get-put, get-remove, get-revise}
use vorliq.RateLimit.{Counter, Counters, prune, full_key, record_hit, peek_hit}

-- A hit of some limiter: its namespace, key, window and time.
pub record Hit : Type 0 where
  pub space : String
  pub key : String
  pub window : ℕ
  pub now : ℕ

unfoldable pub hit : Counters → Hit → Counters
hit store h = (record_hit store h.space h.key h.window h.now).0

unfoldable pub hit_all : Counters → List Hit → Counters
hit_all store [] = store
hit_all store (h ∷ hs) = hit_all (hit store h) hs

-- The hits of a list that fall on one key.
unfoldable pub hits_on : String → List Hit → ℕ
hits_on key [] = 0
hits_on key (h ∷ hs) =
    if str_eq (full_key h.space h.key) key then suc (hits_on key hs) else hits_on key hs

pub get-prune :
    (store : Counters) (key : String) (c : Counter) (now : ℕ)
    → Dict.get store key ≡ some c
    → now < c.reset_at
    → Dict.get (prune store now) key ≡ some c
unfolding prune
get-prune store key c now found live = rw (get-revise, found) (ground arith)

pub get-hit :
    (store : Counters) (h : Hit) (key : String) (n until : ℕ)
    → Dict.get store key ≡ some (record { count = n; reset_at = until })
    → h.now < until
    → Dict.get (hit store h) key
      ≡ some (record {
        count = if str_eq (full_key h.space h.key) key then suc n else n;
        reset_at = until;
      })
unfolding hit record_hit
get-hit store h key n until found live =
    let kept = get-prune store key (record { count = n; reset_at = until }) h.now found live in
    elim (Bool-cases (str_eq (full_key h.space h.key) key)) [
      | inl same ↦ rw (get-put, same) (rw (str_eq-eq _ _ same, kept) (ground arith))
      | inr other ↦ rw (get-put, other) kept
    ]

abbrev at_count : ℕ → ℕ → Bool → Option Counter
at_count n until b = some (record { count = if b then suc n else n; reset_at = until })

pub get-hit_all :
    (hs : List Hit) (store : Counters) (key : String) (n until : ℕ)
    → Dict.get store key ≡ some (record { count = n; reset_at = until })
    → All (λ h. h.now < until) hs
    → Dict.get (hit_all store hs) key
      ≡ some (record { count = n + hits_on key hs; reset_at = until })
unfolding hit_all hits_on
get-hit_all [] store key n until found live = rw (found, add-zero)
get-hit_all (h ∷ hs) store key n until found (here, live) =
    elim (Bool-cases (str_eq (full_key h.space h.key) key)) [
      | inl same ↦
          rw (same, add-suc, ← suc-add)
            (get-hit_all hs (hit store h) key (suc n) until
              (get-hit store h key n until found here ∙ ap (at_count n until) same) live)
      | inr other ↦ rw other (
          get-hit_all hs (hit store h) key n until
            (get-hit store h key n until found here ∙ ap (at_count n until) other) live)
    ]

-- After the first hit of a key at `start`, in a store in which the key has no running counter, and
-- any hits of any limiters before the window is over, the counter of the key shows one more than
-- the hits on it, and the end of the window that the first hit began; from that end on it shows 0.
peek-hit_all :
    (store : Counters) (space key : String) (window start : ℕ) (hs : List Hit) (now : ℕ)
    → Dict.get (prune store start) (full_key space key) ≡ none
    → All (λ h. h.now < start + window) hs
    → peek_hit (hit_all (record_hit store space key window start).0 hs) space key now ≡ (
        if leb (start + window) now
        then record { count = 0; reset_at = 0 }
        else record { count = 1 + hits_on (full_key space key) hs; reset_at = start + window })
unfolding peek_hit record_hit
peek-hit_all store space key window start hs now fresh early =
    let first : Counter = record { count = 1; reset_at = start + window } in
    let held =
      get-hit_all hs (Dict.put (prune store start) (full_key space key) first) (full_key space key)
        1 (start + window) (rw (get-put, eq_refl) refl) early in
    rw fresh (rw held refl)
