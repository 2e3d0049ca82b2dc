-- ===== src/ResponseCache/World.antt =====
-- Requests whose producers overlap in any order: what is answered, and from where.
pub mod Sound
pub mod Fresh
use vorliq.Common.{
  ℕ, zero, suc, ◌+◌, String, Bool, true, false, ◌≡◌, refl, Option, none, some, List, [], ◌∷◌, arith,
  ◌⊎◌, inl, inr, sym, ap, ◌∙◌, All, Bool-cases, Option-cases, str_eq, str_eq-eq, ltb,
}
use vorliq.Common.Dict
use vorliq.Common.Dict.{get-put, get-revise, get-empty}
use vorliq.ResponseCache.{
  Cached, Cache, Answer, Control, no_store, max_age, Produced, failed, returned, Begun, answered,
  waiting, Finished, sent, thrown, begin_send, finish_send, fallback, stale_answer, status_of,
  is_ok, clear_cache,
}

-- A request whose producer runs.
pub record Pending : Type 0 where
  pub visibility : String
  pub key : String
  pub now : ℕ
  pub ttl_ms : ℕ
  pub found : Option Cached

-- A value that the producer of some request for `key` came back with.
pub record Production : Type 0 where
  pub key : String
  pub status : ℕ
  pub body : String

pub record World : Type 0 where
  pub cache : Cache
  pub pending : List Pending
  pub log : List Production

-- A request arrives; the producer of the n-th pending request comes back; the cache is cleared.
pub data Event : Type 0 where
  arrive : String → String → ℕ → ℕ → Event
  come_back : ℕ → Produced → Event
  clear : String → Event

-- An answer goes out for a key.
abbrev pub Out : Type 0
Out = Option (String × Finished)

abbrev pub nth : List Pending → ℕ → Option Pending
nth [] n = none
nth (p ∷ ps) zero = some p
nth (p ∷ ps) (suc n) = nth ps n

abbrev pub without : List Pending → ℕ → List Pending
without [] n = []
without (p ∷ ps) zero = ps
without (p ∷ ps) (suc n) = p ∷ without ps n

unfoldable pub logged : String → Produced → List Production → List Production
logged key failed log = log
logged key (returned status body) log =
    record { key = key; status = status_of status; body = body } ∷ log

unfoldable pub arrived : World → Pending → Begun → World × Out
arrived w p (answered a) = (w, some (p.key, sent a))
arrived w p (waiting found) = (
  record { cache = w.cache; pending = (record p { found = found }) ∷ w.pending; log = w.log },
  none,
)

unfoldable pub came_back : World → ℕ → Produced → Option Pending → World × Out
came_back w n result none = (w, none)
came_back w n result (some p) =
    let (cache, out) = finish_send w.cache p.visibility p.key p.now p.ttl_ms p.found result in
    (
      record { cache = cache; pending = without w.pending n; log = logged p.key result w.log },
      some (p.key, out),
    )

unfoldable pub run : World → Event → World × Out
run w (arrive visibility key now ttl_ms) =
    arrived w
      (record { visibility = visibility; key = key; now = now; ttl_ms = ttl_ms; found = none })
      (begin_send w.cache visibility key now)
run w (come_back n result) = came_back w n result (nth w.pending n)
run w (clear start) =
    (record { cache = clear_cache w.cache start; pending = w.pending; log = w.log }, none)

unfoldable pub run_all : World → List Event → World
run_all w [] = w
run_all w (e ∷ es) = run_all (run w e).0 es

unfoldable pub start : World
start = record { cache = Dict.empty; pending = []; log = [] }
