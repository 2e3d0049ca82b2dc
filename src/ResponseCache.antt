-- ===== src/ResponseCache.antt =====
-- backend/cache.js: the cache of JSON answers. `sendCachedJson` waits for its producer in the middle,
-- so it is two steps: `begin_send` up to the call of the producer, and `finish_send` after it, on the
-- cache as it is by then. Times and ages are milliseconds.
pub mod Laws
pub mod World
mod Tests
use Prim.Native.String.{◌++◌}
use text.Mathlib.Text.{starts_with}
use vorliq.Common.{
  ℕ, ◌+◌, ◌-◌, ◌/◌, String, Bool, true, false, ◌&&◌, ◌||◌, Option, none, some, str_eq, ltb, leb,
  ◌==◌, if◌then◌else◌,
}
use vorliq.Common.Dict
use vorliq.Common.Dict.{Dict}

-- An answer as it is kept: its status, its JSON text and the end of its life.
pub record Cached : Type 0 where
  pub status : ℕ
  pub body : String
  pub expires_at : ℕ

abbrev pub Cache : Type 0
Cache = Dict Cached

-- The Cache-Control header: `no-store`, or a visibility and a `max-age` in seconds.
pub data Control : Type 0 where
  no_store : Control
  max_age : String → ℕ → Control

pub record Answer : Type 0 where
  pub status : ℕ
  pub body : String
  pub control : Control
  -- X-Vorliq-Stale
  pub stale : Bool

-- What the producer did: it threw, or it came back with a status (0 where it has none) and a body.
pub data Produced : Type 0 where
  failed : Produced
  returned : ℕ → String → Produced

pub data Begun : Type 0 where
  answered : Answer → Begun
  -- The producer is called; the entry that was found is kept for later.
  waiting : Option Cached → Begun

pub data Finished : Type 0 where
  sent : Answer → Finished
  thrown : Finished

-- The query text is what URLSearchParams makes of the query.
unfoldable pub cache_key : String → String → String
cache_key name query = if str_eq query "" then name else name ++ ("?" ++ query)

abbrev pub cache_control : String → ℕ → Control
cache_control visibility ttl_ms = max_age visibility (ttl_ms / 1000)

abbrev pub begin_found : String → ℕ → Option Cached → Begun
begin_found visibility now none = waiting none
begin_found visibility now (some e) =
    if ltb now e.expires_at
    then answered (record {
      status = e.status;
      body = e.body;
      control = cache_control visibility (e.expires_at - now);
      stale = false;
    })
    else waiting (some e)

unfoldable pub begin_send : Cache → String → String → ℕ → Begun
begin_send cache visibility key now = begin_found visibility now (Dict.get cache key)

abbrev pub stale_answer : Cached → Answer
stale_answer e = record { status = e.status; body = e.body; control = no_store; stale = true }

-- `result.status || 200`
abbrev pub status_of : ℕ → ℕ
status_of status = if status == 0 then 200 else status

abbrev pub is_ok : ℕ → Bool
is_ok status = leb 200 status && ltb status 300

-- The answer when there is no good new value: the entry found before, if any.
abbrev pub fallback : Option Cached → Finished → Finished
fallback none otherwise = otherwise
fallback (some e) otherwise = sent (stale_answer e)

unfoldable pub finish_send :
    Cache → String → String → ℕ → ℕ → Option Cached → Produced → Cache × Finished
finish_send cache visibility key now ttl_ms found failed = (cache, fallback found thrown)
finish_send cache visibility key now ttl_ms found (returned status body) =
    if is_ok (status_of status)
    then (
      Dict.put cache key
          (record { status = status_of status; body = body; expires_at = now + ttl_ms }),
      sent (record {
        status = status_of status;
        body = body;
        control = cache_control visibility ttl_ms;
        stale = false;
      }),
    )
    else (
      cache,
      fallback found (
          sent
            (record { status = status_of status; body = body; control = no_store; stale = false })),
    )

unfoldable pub clear_cache : Cache → String → Cache
clear_cache cache start =
    Dict.revise (λ key e. if str_eq start "" || starts_with key start then none else some e) cache
