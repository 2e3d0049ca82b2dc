-- ===== src/ResponseCache/Tests.antt =====
-- Runs of the cache of answers at concrete requests.
use vorliq.Common.{true, false, ◌≡◌, refl, none, some, List, [], ◌∷◌}
use vorliq.Common.Dict
use vorliq.ResponseCache.{
  Cached, Answer, max_age, returned, sent, begin_send, finish_send, clear_cache, is_ok,
}
use vorliq.ResponseCache.Laws.{no_failure}
use vorliq.ResponseCache.World.{
  Event, World, arrive, come_back, clear, run, run_all, start, arrived, came_back, logged,
}
use vorliq.ResponseCache.World.Fresh.{arrive-come_back, served, spares_all}
use vorliq.ResponseCache.World.Sound.{IsRight, answers-IsRight}

abbrev page : Answer
page = record { status = 200; body = "[1]"; control = max_age "public" 5; stale = false }

abbrev old : Cached
old = record { status = 200; body = "[0]"; expires_at = 500 }

no_failure_example :
    (a : Answer) × (((finish_send Dict.empty "public" "blocks" 1000 6000
          (some old)
          (returned 503 "busy")).1
        ≡ sent a)
      × ((is_ok a.status ≡ true) × (a.stale ≡ true)))
no_failure_example =
    no_failure Dict.empty "public" "blocks" 1000 6000 old (returned 503 "busy") refl

abbrev events : List Event
events =
    arrive "public" "blocks" 1000 6000
    ∷ arrive "private" "wallet" 1100 6000
    ∷ come_back 1 (returned 200 "[1]")
    ∷ clear "wal"
    ∷ come_back 0 (returned 200 "5")
    ∷ []

answers-IsRight_example :
    IsRight
      (run (run_all start events) (arrive "public" "blocks" 2000 6000)).0.log
      "blocks"
      (sent page)
answers-IsRight_example =
    answers-IsRight events (arrive "public" "blocks" 2000 6000) "blocks" page (
      unfold run_all run start arrived came_back logged begin_send finish_send clear_cache in
      unfold Dict.get Dict.put Dict.empty Dict.revise Dict.Assoc.assign Dict.Assoc.lookup
        Dict.Assoc.update_all in
      refl)

-- A slower producer of the same key, which fails, another key and a clearing of other keys follow.
abbrev asked : World
asked = run_all start (arrive "public" "blocks" 1000 6000 ∷ arrive "public" "blocks" 1100 6000 ∷ [])

abbrev others : List Event
others = come_back 0 (returned 503 "busy") ∷ arrive "private" "wallet" 1200 6000 ∷ clear "wal" ∷ []

abbrev made : World
made = (run asked (come_back 1 (returned 200 "[1]"))).0

arrive-come_back_example :
    run (run_all made others) (arrive "public" "blocks" 2000 6000)
    ≡ served
        (run_all made others)
        "public"
        "blocks"
        2000
        6000
        (record { status = 200; body = "[1]"; expires_at = 7000 })
arrive-come_back_example =
    arrive-come_back asked 1
      (record { visibility = "public"; key = "blocks"; now = 1000; ttl_ms = 6000; found = none })
      200 "[1]"
      (unfold run_all run start arrived begin_send in
        unfold Dict.get Dict.empty Dict.Assoc.lookup in refl)
      refl others
      (unfold spares_all run_all run start arrived came_back logged begin_send finish_send
          clear_cache in
        unfold Dict.get Dict.put Dict.empty Dict.revise Dict.Assoc.assign Dict.Assoc.lookup
          Dict.Assoc.update_all in
        refl)
      "public" 2000 6000
