-- ===== src/ResponseCache/World/Sound.antt =====
-- Answers come from the producers of their own key, and what is kept is good.
use vorliq.Common.{
  ℕ, zero, suc, ◌+◌, String, true, false, ◌||◌, ◌≡◌, refl, Option, none, some, List, [], ◌∷◌, arith,
  ◌⊎◌, inl, inr, ap, All, Bool-cases, Option-cases, str_eq, str_eq-eq, ltb,
}
use mathlib.Core.Path.{subst}
use mathlib.Core.Option.{some-injective}
use text.Mathlib.Text.{starts_with}
use vorliq.Common.Dict
use vorliq.Common.Dict.{get-put, get-revise, get-empty}
use vorliq.ResponseCache.{
  Cached, Cache, Answer, no_store, Produced, failed, returned, Begun, answered, waiting, Finished,
  sent, thrown, begin_found, begin_send, finish_send, fallback, status_of, is_ok, clear_cache,
}
use vorliq.ResponseCache.World.{
  Pending, Production, World, Event, arrive, come_back, clear, Out, nth, without, logged, arrived,
  came_back, run, run_all, start,
}

-- A producer of `key` came back with this status and body.
unfoldable pub Made : List Production → String → ℕ → String → Type 0
Made [] key status body = ⊥
Made (p ∷ log) key status body =
    (p ≡ record { key = key; status = status; body = body }) ⊎ Made log key status body

abbrev pub IsGood : List Production → String → Cached → Type 0
IsGood log key e = (is_ok e.status ≡ true) × Made log key e.status e.body

abbrev pub Kept : List Production → String → Option Cached → Type 0
Kept log key none = Unit
Kept log key (some e) = IsGood log key e

pub IsSound : World → Type 0
IsSound w =
    ((key : String) → Kept w.log key (Dict.get w.cache key))
    × All (λ p. Kept w.log p.key p.found) w.pending

Made-logged :
    (result : Produced) (made : String) (log : List Production) (key : String) (status : ℕ)
    (body : String)
    → Made log key status body
    → Made (logged made result log) key status body
unfolding logged Made
Made-logged failed made log key status body m = m
Made-logged (returned s b) made log key status body m = inr m

Kept-logged :
    (result : Produced) (made : String) (log : List Production) (key : String)
    (found : Option Cached)
    → Kept log key found
    → Kept (logged made result log) key found
Kept-logged result made log key none kept = tt
Kept-logged result made log key (some e) (ok, m) =
    (ok, Made-logged result made log key e.status e.body m)

Kept-All-logged :
    (result : Produced) (made : String) (log : List Production) (ps : List Pending)
    → All (λ p. Kept log p.key p.found) ps
    → All (λ p. Kept (logged made result log) p.key p.found) ps
Kept-All-logged result made log [] kept = tt
Kept-All-logged result made log (p ∷ ps) (k, kept) =
    (Kept-logged result made log p.key p.found k, Kept-All-logged result made log ps kept)

Kept-nth :
    (log : List Production) (ps : List Pending) (n : ℕ) (p : Pending)
    → All (λ p. Kept log p.key p.found) ps
    → nth ps n ≡ some p
    → Kept log p.key p.found
Kept-nth log [] n p kept found = ground arith
Kept-nth log (q ∷ ps) zero p (k, kept) found =
    subst (λ (r : Pending). Kept log r.key r.found) (some-injective _ _ found) k
Kept-nth log (q ∷ ps) (suc n) p (k, kept) found = Kept-nth log ps n p kept found

Kept-without :
    (log : List Production) (ps : List Pending) (n : ℕ)
    → All (λ p. Kept log p.key p.found) ps
    → All (λ p. Kept log p.key p.found) (without ps n)
Kept-without log [] n kept = tt
Kept-without log (p ∷ ps) zero (k, kept) = kept
Kept-without log (p ∷ ps) (suc n) (k, kept) = (k, Kept-without log ps n kept)

-- An answer to a request for `key`.
unfoldable pub IsRight : List Production → String → Finished → Type 0
IsRight log key thrown = Unit
IsRight log key (sent a) =
    Made log key a.status a.body
    × ((is_ok a.status ≡ true) ⊎ ((a.control ≡ no_store) × (a.stale ≡ false)))

fallback-IsRight :
    (log : List Production) (key : String) (found : Option Cached) (otherwise : Finished)
    → Kept log key found
    → IsRight log key otherwise
    → IsRight log key (fallback found otherwise)
unfolding IsRight
fallback-IsRight log key none otherwise kept right = right
fallback-IsRight log key (some e) otherwise (ok, m) right = (m, inl ok)

finish_send-IsRight :
    (log : List Production) (cache : Cache) (p : Pending) (result : Produced)
    → Kept log p.key p.found
    → IsRight
        (logged p.key result log)
        p.key
        (finish_send cache p.visibility p.key p.now p.ttl_ms p.found result).1
unfolding finish_send logged IsRight Made
finish_send-IsRight log cache p failed kept = fallback-IsRight log p.key p.found thrown kept tt
finish_send-IsRight log cache p (returned status body) kept =
    let log' : List Production =
      record { key = p.key; status = status_of status; body = body } ∷ log in
    elim (Bool-cases (is_ok (status_of status))) [
      | inl ok ↦ rw ok (inl refl, inl ok)
      | inr bad ↦ rw bad (
          fallback-IsRight log' p.key p.found
            (sent (record {
              status = status_of status;
              body = body;
              control = no_store;
              stale = false;
            }))
            (Kept-logged (returned status body) p.key log p.key p.found kept)
            (inl refl, inr (refl, refl)))
    ]

finish_send-Kept :
    (log : List Production) (cache : Cache) (p : Pending) (result : Produced)
    → ((key : String) → Kept log key (Dict.get cache key))
    → (key : String)
    → Kept
        (logged p.key result log)
        key
        (Dict.get (finish_send cache p.visibility p.key p.now p.ttl_ms p.found result).0 key)
unfolding finish_send logged Made
finish_send-Kept log cache p failed kept key = kept key
finish_send-Kept log cache p (returned status body) kept key =
    let e : Cached = record {
      status = status_of status;
      body = body;
      expires_at = p.now + p.ttl_ms;
    } in
    let old = Kept-logged (returned status body) p.key log key (Dict.get cache key) (kept key) in
    elim (Bool-cases (is_ok (status_of status))) [
      | inl ok ↦ elim (Bool-cases (str_eq p.key key)) [
        | inl same ↦ rw ok (
            rw (get-put, same)
              (
                ok,
                inl (
                    ap (λ k. record { key = k; status = status_of status; body = body })
                      (str_eq-eq p.key key same)),
              ))
        | inr other ↦ rw ok (rw (get-put, other) old)
      ]
      | inr bad ↦ rw bad old
    ]

clear_cache-Kept :
    (log : List Production) (cache : Cache) (prefix : String)
    → ((key : String) → Kept log key (Dict.get cache key))
    → (key : String) → Kept log key (Dict.get (clear_cache cache prefix) key)
unfolding clear_cache
clear_cache-Kept log cache prefix kept key = elim (Option-cases (Dict.get cache key)) [
  | inl free ↦ rw (get-revise, free) tt
  | inr (e, found) ↦
      let good : IsGood log key e = subst (Kept log key) found (kept key) in
      elim (Bool-cases (str_eq prefix "" || starts_with key prefix)) [
        | inl cut ↦ rw (get-revise, found) (rw cut tt)
        | inr stays ↦ rw (get-revise, found) (rw stays good)
      ]
]

abbrev pub Begins : List Production → String → Begun → Type 0
Begins log key (answered a) = IsRight log key (sent a)
Begins log key (waiting found) = Kept log key found

begin_found-Begins :
    (log : List Production) (visibility key : String) (now : ℕ) (found : Option Cached)
    → Kept log key found
    → Begins log key (begin_found visibility now found)
unfolding IsRight
begin_found-Begins log visibility key now none kept = tt
begin_found-Begins log visibility key now (some e) (ok, m) =
    elim (Bool-cases (ltb now e.expires_at)) [
      | inl fresh ↦ rw fresh (m, inl ok)
      | inr late ↦ rw late (ok, m)
    ]

-- The event keeps the world sound, and what goes out is right.
abbrev pub IsAnswered : World × Out → Type 0
IsAnswered (w, none) = IsSound w
IsAnswered (w, some (key, out)) = IsSound w × IsRight w.log key out

arrived-IsAnswered :
    (w : World) (p : Pending) (begun : Begun)
    → IsSound w
    → Begins w.log p.key begun
    → IsAnswered (arrived w p begun)
unfolding arrived IsSound
arrived-IsAnswered w p (answered a) sound right = (sound, right)
arrived-IsAnswered w p (waiting found) (kept, pending) k = (kept, (k, pending))

came_back-IsAnswered :
    (w : World) (n : ℕ) (result : Produced)
    → IsSound w
    → IsAnswered (came_back w n result (nth w.pending n))
unfolding came_back IsSound
came_back-IsAnswered w n result (kept, pending) = elim (Option-cases (nth w.pending n)) [
  | inl nothing ↦ rw nothing (kept, pending)
  | inr (p, found) ↦ rw found (
    (
      finish_send-Kept w.log w.cache p result kept,
      Kept-All-logged result p.key w.log (without w.pending n)
          (Kept-without w.log w.pending n pending),
    ),
    finish_send-IsRight w.log w.cache p result (Kept-nth w.log w.pending n p pending found),
  )
]

run-IsAnswered : (w : World) (e : Event) → IsSound w → IsAnswered (run w e)
unfolding run begin_send
run-IsAnswered w (arrive visibility key now ttl_ms) sound =
    arrived-IsAnswered w
      (record { visibility = visibility; key = key; now = now; ttl_ms = ttl_ms; found = none })
      (begin_send w.cache visibility key now) sound
      (begin_found-Begins w.log visibility key now (Dict.get w.cache key)
        (unfold IsSound in sound.0 key))
run-IsAnswered w (come_back n result) sound = came_back-IsAnswered w n result sound
run-IsAnswered w (clear prefix) sound =
    unfold IsSound in (clear_cache-Kept w.log w.cache prefix sound.0, sound.1)

IsAnswered-IsSound : (r : World × Out) → IsAnswered r → IsSound r.0
IsAnswered-IsSound (w, none) sound = sound
IsAnswered-IsSound (w, some (key, out)) (sound, right) = sound

run_all-IsSound : (w : World) (es : List Event) → IsSound w → IsSound (run_all w es)
unfolding run_all
run_all-IsSound w [] sound = sound
run_all-IsSound w (e ∷ es) sound =
    run_all-IsSound (run w e).0 es (IsAnswered-IsSound (run w e) (run-IsAnswered w e sound))

start-IsSound : IsSound start
unfolding IsSound start
start-IsSound = (λ key. rw get-empty tt, tt)

IsAnswered-IsRight :
    (r : World × Out) (key : String) (out : Finished)
    → IsAnswered r
    → r.1 ≡ some (key, out)
    → IsRight r.0.log key out
IsAnswered-IsRight (w, none) key out sound e = ground arith
IsAnswered-IsRight (w, some (k, o)) key out (sound, right) e =
    subst (λ (p : String × Finished). IsRight w.log p.0 p.1) (some-injective _ _ e) right

-- Whatever requests, producers and clearings there were, in whatever order the producers came back,
-- an answer to a request has the status and body that a producer for its key came back with, never
-- those of another key; and unless its status is 2xx it is not from the cache and may not be stored.
pub answers-IsRight :
    (es : List Event) (e : Event) (key : String) (a : Answer)
    → (run (run_all start es) e).1 ≡ some (key, sent a)
    → IsRight (run (run_all start es) e).0.log key (sent a)
answers-IsRight es e key a out =
    IsAnswered-IsRight (run (run_all start es) e) key (sent a)
      (run-IsAnswered (run_all start es) e (run_all-IsSound start es start-IsSound)) out
