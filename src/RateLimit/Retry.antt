-- ===== src/RateLimit/Retry.antt =====
-- A client of backend/middleware/rateLimits.js that is told to wait.
use vorliq.Common.{
  ℕ, ◌+◌, ◌*◌, ◌≤◌, ◌<◌, String, Bool, true, false, ◌≡◌, refl, Option, none, some, List, [], ◌∷◌,
  All, arith, leb, str_eq, if◌then◌else◌, eq_refl, Bool-cases, inl, inr,
}
use vorliq.Common.Dict
use vorliq.Common.Dict.{get-put, get-revise}
use vorliq.RateLimit.{Counter, Counters, prune, full_key, record_hit}
use vorliq.RateLimit.Window.{Hit, hit, hit_all, get-hit_all}
use vorliq.RateLimit.Limiters.{Limiter, next, limited, retry_after_seconds, cap, reply_to, serve}

-- The wait covers what is left of the window.
retry_after_seconds-covers :
    (reset window now : ℕ) → reset ≤ now + 1000 * retry_after_seconds (some reset) window now
unfolding retry_after_seconds
retry_after_seconds-covers reset window now = omega arith

-- A counter that is over by a time.
OverBy : ℕ → Option Counter → Type 0
OverBy until none = Unit {0}
OverBy until (some c) = c.reset_at ≤ until

prune-OverBy :
    (c : Option Counter) (until now : ℕ)
    → OverBy until c
    → OverBy until (elim c [ none ↦ none | some v ↦ (if leb v.reset_at now then none else some v) ])
unfolding OverBy
prune-OverBy none until now over = tt
prune-OverBy (some c) until now over = elim (Bool-cases (leb c.reset_at now)) [
  | inl past ↦ rw past tt
  | inr live ↦ rw live over
]

other-OverBy :
    (store : Counters) (h : Hit) (key : String) (until : ℕ)
    → str_eq (full_key h.space h.key) key ≡ false
    → OverBy until (Dict.get store key)
    → OverBy until (Dict.get (hit store h) key)
unfolding hit record_hit prune
other-OverBy store h key until other over =
    rw (get-put, other, get-revise) (prune-OverBy (Dict.get store key) until h.now over)

others-OverBy :
    (hs : List Hit) (store : Counters) (key : String) (until : ℕ)
    → All (λ h. str_eq (full_key h.space h.key) key ≡ false) hs
    → OverBy until (Dict.get store key)
    → OverBy until (Dict.get (hit_all store hs) key)
unfolding hit_all
others-OverBy [] store key until others over = over
others-OverBy (h ∷ hs) store key until (here, others) over =
    others-OverBy hs (hit store h) key until others (other-OverBy store h key until here over)

over-none :
    (c : Option Counter) (until now : ℕ)
    → OverBy until c
    → until ≤ now
    → elim c [ none ↦ none | some v ↦ (if leb v.reset_at now then none else some v) ] ≡ none
unfolding OverBy
over-none none until now over past = refl
over-none (some c) until now over past = ground (arith, over)

-- Once the counter is over, the next hit is the first of a new window.
serve-over :
    (admits : ℕ → ℕ → Bool) (relaxed : Bool) (l : Limiter) (store : Counters) (key : String)
    (until now : ℕ)
    → OverBy until (Dict.get store (full_key l.space key))
    → until ≤ now
    → admits (cap relaxed l.limit) 1 ≡ true
    → (serve admits relaxed l store key now).1 ≡ next
unfolding serve record_hit prune
serve-over admits relaxed l store key until now over past first =
    rw (get-revise, over-none (Dict.get store (full_key l.space key)) until now over past, first)
      refl

reply-limited :
    (admits : ℕ → ℕ → Bool) (relaxed : Bool) (l : Limiter) (counter : Counter) (now seconds : ℕ)
    → reply_to admits relaxed l counter now ≡ limited seconds
    → seconds ≡ retry_after_seconds (some counter.reset_at) l.window now
reply-limited admits relaxed l counter now seconds h = ground arith

get-record_hit :
    (store : Counters) (l : Limiter) (key : String) (now : ℕ)
    → Dict.get (record_hit store l.space key l.window now).0 (full_key l.space key)
      ≡ some (record_hit store l.space key l.window now).1
unfolding record_hit
get-record_hit store l key now = rw (get-put, eq_refl) refl

found-OverBy : (o : Option Counter) (c : Counter) → o ≡ some c → OverBy c.reset_at o
unfolding OverBy
found-OverBy none c h = tt
found-OverBy (some d) c h = ground arith

-- A request that is answered with a wait of some seconds, if it is made again after them, is let through,
-- whatever hits of any limiters come in between before the window is over, and of other keys after that,
-- if the limit admits a first hit.
pub serve-retry_after_seconds :
    (admits : ℕ → ℕ → Bool) (relaxed : Bool) (l : Limiter) (store : Counters) (key : String)
    (now seconds later : ℕ) (early late : List Hit)
    → (serve admits relaxed l store key now).1 ≡ limited seconds
    → All (λ h. h.now < (record_hit store l.space key l.window now).1.reset_at) early
    → All (λ h. str_eq (full_key h.space h.key) (full_key l.space key) ≡ false) late
    → now + 1000 * seconds ≤ later
    → admits (cap relaxed l.limit) 1 ≡ true
    → (serve admits relaxed l
        (hit_all (hit_all (serve admits relaxed l store key now).0 early) late)
        key
        later).1
      ≡ next
unfolding serve
serve-retry_after_seconds admits relaxed l store key now seconds later early late told before others
      waited first =
    let counter = (record_hit store l.space key l.window now).1 in
    let until = counter.reset_at in
    let held =
      get-hit_all early (record_hit store l.space key l.window now).0 (full_key l.space key)
        counter.count until (get-record_hit store l key now) before in
    let over =
      others-OverBy late (hit_all (record_hit store l.space key l.window now).0 early)
        (full_key l.space key) until others (found-OverBy _ _ held) in
    serve-over admits relaxed l
      (hit_all (hit_all (serve admits relaxed l store key now).0 early) late) key until later over
      (omega (
        arith,
        retry_after_seconds-covers until l.window now,
        reply-limited admits relaxed l counter now seconds told,
        waited,
      ))
      first
