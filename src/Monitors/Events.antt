-- ===== src/Monitors/Events.antt =====
-- The alerts file holds the last fifty alerts.
use mathlib.Core.List.{append-nil, append_assoc}
use vorliq.Common.{
  ℕ, zero, suc, ◌+◌, ◌-◌, ◌≤◌, String, Bool, ◌≡◌, refl, Option, none, some, List, [], ◌∷◌, ◌++◌,
  arith, length, length-drop, length-append, drop-drop, drop, ap, ◌∙◌, sym, ltb,
}
use vorliq.Monitors.{
  Monitor, Alert, State, max_alerts, last_alerts, record_alert, fire_or_resolve, check_chain,
  check_backend, check_disk, is_chain_bad, is_backend_bad, chain, backend, disk, one_gb,
}
use vorliq.Monitors.Edges.{Check, chain_check, backend_check, disk_check, run, run_all}

drop-append : (n : ℕ) (xs ys : List Alert) → n ≤ length xs → drop n (xs ++ ys) ≡ drop n xs ++ ys
drop-append zero xs ys h = refl
drop-append (suc n) [] ys h = ground arith
drop-append (suc n) (x ∷ xs) ys h = drop-append n xs ys (omega arith)

last_alerts-last_alerts :
    (xs ys : List Alert) → last_alerts (last_alerts xs ++ ys) ≡ last_alerts (xs ++ ys)
unfolding last_alerts
last_alerts-last_alerts xs ys =
    let k : ℕ = length xs - max_alerts in
    let more : ℕ = length (drop k xs ++ ys) - max_alerts in
    let count : k + more ≡ length (xs ++ ys) - max_alerts =
      rw (length-append, length-append, length-drop) (omega arith) in
    ap (drop more) (sym (drop-append k xs ys (omega arith)))
    ∙ drop-drop k more (xs ++ ys)
    ∙ ap (λ n. drop n (xs ++ ys)) count

last_alerts-short : (xs : List Alert) → length xs ≤ max_alerts → last_alerts xs ≡ xs
unfolding last_alerts
last_alerts-short xs short =
    let none_left : length xs - max_alerts ≡ 0 = omega arith in ap (λ n. drop n xs) none_left

length-last_alerts : (xs : List Alert) → length (last_alerts xs) ≤ max_alerts
unfolding last_alerts
length-last_alerts xs = rw length-drop (omega arith)

-- All alerts that a run records, oldest first.
abbrev one_alert : Option Alert → List Alert
one_alert none = []
one_alert (some a) = a ∷ []

unfoldable pub all_alerts : State → List Check → List Alert
all_alerts s [] = []
all_alerts s (c ∷ cs) = one_alert (run s c).1.recorded ++ all_alerts (run s c).0 cs

untouched : (s : State) → length s.events ≤ max_alerts → s.events ≡ last_alerts (s.events ++ [])
untouched s short = sym (ap last_alerts (append-nil s.events) ∙ last_alerts-short s.events short)

fire_or_resolve-events :
    (s : State) (m : Monitor) (bad : Bool) (severity : String) (now : ℕ)
    → length s.events ≤ max_alerts
    → (fire_or_resolve s m bad severity now).0.events
      ≡ last_alerts (s.events ++ one_alert (fire_or_resolve s m bad severity now).1.recorded)
unfolding fire_or_resolve record_alert
fire_or_resolve-events s m bad severity now short = ground (arith, untouched s short)

run-events :
    (s : State) (c : Check)
    → length s.events ≤ max_alerts
    → (run s c).0.events ≡ last_alerts (s.events ++ one_alert (run s c).1.recorded)
unfolding run check_chain check_backend check_disk
run-events s (chain_check none now) short = untouched s short
run-events s (chain_check (some h) now) short =
    fire_or_resolve-events s chain (is_chain_bad h) "critical" now short
run-events s (backend_check h now) short =
    fire_or_resolve-events s backend (is_backend_bad h) "critical" now short
run-events s (disk_check none now) short = untouched s short
run-events s (disk_check (some free) now) short =
    fire_or_resolve-events s disk (ltb free one_gb) "critical" now short

run-short :
    (s : State) (c : Check) → length s.events ≤ max_alerts → length (run s c).0.events ≤ max_alerts
run-short s c short =
    rw (run-events s c short) (length-last_alerts (s.events ++ one_alert (run s c).1.recorded))

-- After any checks, the alerts file holds the last fifty of the alerts that it held before and of
-- those that were recorded since, in the order in which they were. It held at most fifty before.
pub events-last_alerts :
    (cs : List Check) (s : State)
    → length s.events ≤ max_alerts
    → (run_all s cs).events ≡ last_alerts (s.events ++ all_alerts s cs)
unfolding run_all all_alerts
events-last_alerts [] s short = untouched s short
events-last_alerts (c ∷ cs) s short =
    events-last_alerts cs (run s c).0 (run-short s c short)
    ∙ ap (λ es. last_alerts (es ++ all_alerts (run s c).0 cs)) (run-events s c short)
    ∙ last_alerts-last_alerts (s.events ++ one_alert (run s c).1.recorded)
        (all_alerts (run s c).0 cs)
    ∙ ap last_alerts
        (append_assoc s.events (one_alert (run s c).1.recorded) (all_alerts (run s c).0 cs))
