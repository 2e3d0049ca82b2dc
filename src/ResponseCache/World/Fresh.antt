-- ===== src/ResponseCache/World/Fresh.antt =====
-- A value that a producer came back with, through the requests that come after it.
use text.Mathlib.Text.{starts_with}
use vorliq.Common.{
  ℕ, ◌+◌, ◌-◌, ◌/◌, String, Bool, true, false, not, ◌&&◌, ◌||◌, ◌≡◌, refl, Option, none, some, List,
  [], ◌∷◌, arith, str_eq, eq_refl, ltb, if◌then◌else◌, Bool-cases, inl, inr, ◌∙◌,
}
use vorliq.Common.Dict
use vorliq.Common.Dict.{get-put, get-revise}
use vorliq.ResponseCache.{
  Cached, Cache, Begun, Produced, failed, returned, answered, waiting, sent, max_age, begin_send,
  finish_send, status_of, is_ok, clear_cache,
}
use vorliq.ResponseCache.Laws.{came_good}
use vorliq.ResponseCache.World.{
  Pending, World, Event, arrive, come_back, clear, Out, nth, arrived, came_back, run, run_all,
}

-- An event that neither clears the key nor is a producer of the key that comes back with a 2xx status.
abbrev pub spares_pending : String → Produced → Option Pending → Bool
spares_pending key result none = true
spares_pending key result (some p) = not (str_eq p.key key) || not (came_good result)

abbrev pub spares : String → World → Event → Bool
spares key w (arrive visibility other now ttl_ms) = true
spares key w (come_back n result) = spares_pending key result (nth w.pending n)
spares key w (clear start) = not (str_eq start "" || starts_with key start)

unfoldable pub spares_all : String → World → List Event → Bool
spares_all key w [] = true
spares_all key w (e ∷ es) = spares key w e && spares_all key (run w e).0 es

get-finish_send :
    (cache : Cache) (p : Pending) (result : Produced) (key : String)
    → spares_pending key result (some p) ≡ true
    → Dict.get (finish_send cache p.visibility p.key p.now p.ttl_ms p.found result).0 key
      ≡ Dict.get cache key
unfolding finish_send
get-finish_send cache p failed key h = refl
get-finish_send cache p (returned status body) key h =
    elim (Bool-cases (is_ok (status_of status))) [
      | inl ok ↦
          let apart : str_eq p.key key ≡ false = ground arith in rw ok (rw (get-put, apart) refl)
      | inr bad ↦ rw bad refl
    ]

get-came_back :
    (w : World) (n : ℕ) (result : Produced) (p : Option Pending) (key : String)
    → spares_pending key result p ≡ true
    → Dict.get (came_back w n result p).0.cache key ≡ Dict.get w.cache key
unfolding came_back
get-came_back w n result none key h = refl
get-came_back w n result (some p) key h = get-finish_send w.cache p result key h

get-arrived :
    (w : World) (p : Pending) (b : Begun) (key : String)
    → Dict.get (arrived w p b).0.cache key ≡ Dict.get w.cache key
unfolding arrived
get-arrived w p (answered a) key = refl
get-arrived w p (waiting found) key = refl

get-run :
    (w : World) (event : Event) (key : String) (e : Cached)
    → spares key w event ≡ true
    → Dict.get w.cache key ≡ some e
    → Dict.get (run w event).0.cache key ≡ some e
unfolding run clear_cache
get-run w (arrive visibility other now ttl_ms) key e h kept =
    get-arrived w
      (record { visibility = visibility; key = other; now = now; ttl_ms = ttl_ms; found = none })
      (begin_send w.cache visibility other now) key
    ∙ kept
get-run w (come_back n result) key e h kept =
    get-came_back w n result (nth w.pending n) key h ∙ kept
get-run w (clear start) key e h kept = rw (get-revise, kept) (ground arith)

get-run_all :
    (es : List Event) (w : World) (key : String) (e : Cached)
    → spares_all key w es ≡ true
    → Dict.get w.cache key ≡ some e
    → Dict.get (run_all w es).cache key ≡ some e
unfolding run_all spares_all
get-run_all [] w key e h kept = kept
get-run_all (event ∷ es) w key e h kept =
    get-run_all es (run w event).0 key e (ground arith) (get-run w event key e (ground arith) kept)

get-come_back :
    (w : World) (n : ℕ) (p : Pending) (status : ℕ) (body : String)
    → nth w.pending n ≡ some p
    → is_ok (status_of status) ≡ true
    → Dict.get (run w (come_back n (returned status body))).0.cache p.key
      ≡ some (record { status = status_of status; body = body; expires_at = p.now + p.ttl_ms })
unfolding run came_back finish_send
get-come_back w n p status body waits ok = rw waits (rw ok (rw (get-put, eq_refl) refl))

-- What a request at the time `later` comes to in the world `w` while the cache holds `e` for its key:
-- before the end of e's lifetime it is answered at once, else its producer is called and has `e` to fall
-- back on.
abbrev pub served : World → String → String → ℕ → ℕ → Cached → World × Out
served w visibility key later ttl_ms e =
    if ltb later e.expires_at
    then (
      w,
      some (
        key,
        sent (record {
          status = e.status;
          body = e.body;
          control = max_age visibility ((e.expires_at - later) / 1000);
          stale = false;
        }),
      ),
    )
    else (
      record {
        cache = w.cache;
        pending =
            record {
              visibility = visibility;
              key = key;
              now = later;
              ttl_ms = ttl_ms;
              found = some e;
            }
            ∷ w.pending;
        log = w.log;
      },
      none,
    )

arrive-kept :
    (w : World) (visibility key : String) (later ttl_ms : ℕ) (e : Cached)
    → Dict.get w.cache key ≡ some e
    → run w (arrive visibility key later ttl_ms) ≡ served w visibility key later ttl_ms e
unfolding run begin_send arrived
arrive-kept w visibility key later ttl_ms e kept =
    rw kept (elim (Bool-cases (ltb later e.expires_at)) [ inl h ↦ rw h refl | inr h ↦ rw h refl ])

-- Let the producer of a request that was made at p.now come back with a 2xx status, and let any requests
-- and events follow that neither clear the key nor let another producer of the key come back with a 2xx
-- status. Then a request for the key before p.now + p.ttl_ms is answered at once with that value, the
-- whole seconds that are left and not as stale, and nothing else changes; a later one waits for its
-- producer, with that value to fall back on.
pub arrive-come_back :
    (w : World) (n : ℕ) (p : Pending) (status : ℕ) (body : String)
    → nth w.pending n ≡ some p
    → is_ok (status_of status) ≡ true
    → (es : List Event) → spares_all p.key (run w (come_back n (returned status body))).0 es ≡ true
    → (visibility : String) (later ttl_ms : ℕ)
    → run
        (run_all (run w (come_back n (returned status body))).0 es)
        (arrive visibility p.key later ttl_ms)
      ≡ served
          (run_all (run w (come_back n (returned status body))).0 es)
          visibility
          p.key
          later
          ttl_ms
          (record { status = status_of status; body = body; expires_at = p.now + p.ttl_ms })
arrive-come_back w n p status body waits ok es h visibility later ttl_ms =
    let after = (run w (come_back n (returned status body))).0 in
    let e : Cached = record {
      status = status_of status;
      body = body;
      expires_at = p.now + p.ttl_ms;
    } in
    arrive-kept (run_all after es) visibility p.key later ttl_ms e
      (get-run_all es after p.key e h (get-come_back w n p status body waits ok))
