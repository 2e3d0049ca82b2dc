-- ===== src/ResponseCache/Laws.antt =====
-- A value that was found is a way out of every failure.
use vorliq.Common.{ℕ, String, Bool, true, false, not, ◌≡◌, refl, some, Bool-cases, inl, inr}
use vorliq.ResponseCache.{
  Cached, Cache, Answer, Produced, failed, returned, sent, stale_answer, cache_control, finish_send,
  status_of, is_ok,
}

abbrev pub came_good : Produced → Bool
came_good failed = false
came_good (returned status body) = is_ok (status_of status)

-- A request that found a value with a 2xx status is answered with a 2xx status, whatever becomes of
-- its producer, and it is stale exactly if the producer threw or came back with another status.
pub no_failure :
    (cache : Cache) (visibility key : String) (now ttl_ms : ℕ) (e : Cached) (result : Produced)
    → is_ok e.status ≡ true
    → (a : Answer) × (((finish_send cache visibility key now ttl_ms (some e) result).1 ≡ sent a)
        × ((is_ok a.status ≡ true) × (a.stale ≡ not (came_good result))))
unfolding finish_send
no_failure cache visibility key now ttl_ms e failed ok = (stale_answer e, (refl, (ok, refl)))
no_failure cache visibility key now ttl_ms e (returned status body) ok =
    elim (Bool-cases (is_ok (status_of status))) [
      | inl good ↦ rw good (
        record {
          status = status_of status;
          body = body;
          control = cache_control visibility ttl_ms;
          stale = false;
        },
        (refl, (good, refl)),
      )
      | inr bad ↦ rw bad (stale_answer e, (refl, (ok, refl)))
    ]
