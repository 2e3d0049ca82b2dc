-- ===== src/Monitors/Edges.antt =====
-- What the checks of a monitor record and deliver, beside what they find.
use vorliq.Common.{
  ℕ, String, Bool, true, false, not, ◌&&◌, ◌≡◌, refl, Option, none, some, List, [], ◌∷◌, ◌++◌,
  arith, if◌then◌else◌, ap, sym, ◌∙◌, ltb, leb, ◌||◌, str_eq,
}
use vorliq.Monitors.{
  Monitor, chain, backend, disk, same_monitor, Status, firing, resolved, Alert, State, Notice,
  fire_or_resolve, Health, is_chain_bad, is_backend_bad, check_chain, check_backend, check_disk,
  one_gb,
}

-- A check of one of the three kinds, with what it found and its time.
pub data Check : Type 0 where
  chain_check : Option Health → ℕ → Check
  backend_check : Option Health → ℕ → Check
  disk_check : Option ℕ → ℕ → Check

unfoldable pub run : State → Check → State × Notice
run s (chain_check h now) = check_chain s h now
run s (backend_check h now) = check_backend s h now
run s (disk_check free now) = check_disk s free now

unfoldable pub run_all : State → List Check → State
run_all s [] = s
run_all s (c ∷ cs) = run_all (run s c).0 cs

-- The conditions: transactions are stuck or the last block is older than ten minutes; Flask cannot
-- be reached, reports a degraded chain or a status other than "ok"; less than a gigabyte is free.
abbrev chain_is_dead : Health → Bool
chain_is_dead h = leb 1 h.stuck_pending_count || leb 601 h.last_block_age_seconds

abbrev backend_is_down : Option Health → Bool
backend_is_down none = true
backend_is_down (some h) =
    not (not (str_eq h.chain_health "degraded") && (str_eq h.status "" || str_eq h.status "ok"))

abbrev disk_is_full : ℕ → Bool
disk_is_full free = not (leb 1073741824 free)

-- Does a check of this kind find the condition of the monitor? A check that could not be made says
-- nothing.
unfoldable pub found : Monitor → Check → Option Bool
found chain (chain_check (some h) now) = some (chain_is_dead h)
found backend (backend_check h now) = some (backend_is_down h)
found disk (disk_check (some free) now) = some (disk_is_full free)
found m c = none

abbrev pub after : Bool → Option Bool → Bool
after bad none = bad
after bad (some b) = b

-- The alerts of a monitor whose condition held or not at first, given what its checks find.
abbrev pub edge : Bool → Option Bool → List Status
edge bad none = []
edge bad (some b) = if b && not bad then firing ∷ [] else if not b && bad then resolved ∷ [] else []

unfoldable pub edges : Monitor → Bool → List Check → List Status
edges m bad [] = []
edges m bad (c ∷ cs) = edge bad (found m c) ++ edges m (after bad (found m c)) cs

abbrev pub alert_of : Monitor → Option Alert → List Status
alert_of m none = []
alert_of m (some a) = if same_monitor a.monitor m then a.status ∷ [] else []

-- What is recorded for a monitor, and what is delivered, oldest first.
unfoldable pub all_recorded : Monitor → State → List Check → List Status
all_recorded m s [] = []
all_recorded m s (c ∷ cs) = alert_of m (run s c).1.recorded ++ all_recorded m (run s c).0 cs

unfoldable pub all_delivered : Monitor → State → List Check → List Status
all_delivered m s [] = []
all_delivered m s (c ∷ cs) = alert_of m (run s c).1.delivered ++ all_delivered m (run s c).0 cs

-- The edges at which the condition starts.
abbrev pub starts : List Status → List Status
starts [] = []
starts (firing ∷ es) = firing ∷ starts es
starts (resolved ∷ es) = starts es

starts-append : (xs ys : List Status) → starts (xs ++ ys) ≡ starts xs ++ starts ys
starts-append [] ys = refl
starts-append (firing ∷ xs) ys = ap (λ es. firing ∷ es) (starts-append xs ys)
starts-append (resolved ∷ xs) ys = starts-append xs ys

same_monitor_self : (m : Monitor) → same_monitor m m ≡ true
same_monitor_self chain = refl
same_monitor_self backend = refl
same_monitor_self disk = refl

-- What a check means for a monitor: an edge is recorded, and delivered where it is a start; the
-- state is what was found last.
abbrev IsEdge : Monitor → State → Option Bool → State × Notice → Type 0
IsEdge m s what r =
    (alert_of m r.1.recorded ≡ edge (s.is_bad m) what)
    × (alert_of m r.1.delivered ≡ starts (edge (s.is_bad m) what))
    × (r.0.is_bad m ≡ after (s.is_bad m) what)

fire_or_resolve_self :
    (s : State) (m : Monitor) (bad : Bool) (severity : String) (now : ℕ)
    → IsEdge m s (some bad) (fire_or_resolve s m bad severity now)
unfolding fire_or_resolve
fire_or_resolve_self s m bad severity now = ground (arith, same_monitor_self m)

fire_or_resolve_other :
    (s : State) (m other : Monitor) (bad : Bool) (severity : String) (now : ℕ)
    → same_monitor m other ≡ false
    → IsEdge other s none (fire_or_resolve s m bad severity now)
unfolding fire_or_resolve
fire_or_resolve_other s m other bad severity now differ = ground (arith, differ)

chain_is_dead_lem : (h : Health) → is_chain_bad h ≡ chain_is_dead h
chain_is_dead_lem h = ground arith

backend_is_down_lem : (h : Option Health) → is_backend_bad h ≡ backend_is_down h
backend_is_down_lem none = refl
backend_is_down_lem (some h) = ground arith

disk_is_full_lem : (free : ℕ) → ltb free one_gb ≡ disk_is_full free
disk_is_full_lem free = ground arith

run-IsEdge : (s : State) (c : Check) (m : Monitor) → IsEdge m s (found m c) (run s c)
unfolding run found check_chain check_backend check_disk
run-IsEdge s (chain_check none now) chain = (refl, refl, refl)
run-IsEdge s (chain_check none now) backend = (refl, refl, refl)
run-IsEdge s (chain_check none now) disk = (refl, refl, refl)
run-IsEdge s (chain_check (some h) now) chain =
    rw (← chain_is_dead_lem h) (fire_or_resolve_self s chain (is_chain_bad h) "critical" now)
run-IsEdge s (chain_check (some h) now) backend =
    fire_or_resolve_other s chain backend (is_chain_bad h) "critical" now refl
run-IsEdge s (chain_check (some h) now) disk =
    fire_or_resolve_other s chain disk (is_chain_bad h) "critical" now refl
run-IsEdge s (backend_check h now) chain =
    fire_or_resolve_other s backend chain (is_backend_bad h) "critical" now refl
run-IsEdge s (backend_check h now) backend =
    rw (← backend_is_down_lem h) (fire_or_resolve_self s backend (is_backend_bad h) "critical" now)
run-IsEdge s (backend_check h now) disk =
    fire_or_resolve_other s backend disk (is_backend_bad h) "critical" now refl
run-IsEdge s (disk_check none now) chain = (refl, refl, refl)
run-IsEdge s (disk_check none now) backend = (refl, refl, refl)
run-IsEdge s (disk_check none now) disk = (refl, refl, refl)
run-IsEdge s (disk_check (some free) now) chain =
    fire_or_resolve_other s disk chain (ltb free one_gb) "critical" now refl
run-IsEdge s (disk_check (some free) now) backend =
    fire_or_resolve_other s disk backend (ltb free one_gb) "critical" now refl
run-IsEdge s (disk_check (some free) now) disk =
    rw (← disk_is_full_lem free) (fire_or_resolve_self s disk (ltb free one_gb) "critical" now)

-- An alert is recorded for a monitor exactly at each edge of what its own checks find, one when its
-- condition starts and one when it ends, and of these exactly the ones at a start are delivered,
-- whatever the checks of the other monitors find in between.
pub alerts-edges :
    (m : Monitor) (s : State) (cs : List Check)
    → (all_recorded m s cs ≡ edges m (s.is_bad m) cs)
      × (all_delivered m s cs ≡ starts (edges m (s.is_bad m) cs))
unfolding all_recorded all_delivered edges
alerts-edges m s [] = (refl, refl)
alerts-edges m s (c ∷ cs) =
    let (kept, sent, next) = run-IsEdge s c m in
    let (recorded, delivered) = alerts-edges m (run s c).0 cs in
    let e = ap (λ bad. edges m bad cs) next in
    (
      ap (λ out. out ++ all_recorded m (run s c).0 cs) kept
          ∙ ap (λ rest. edge (s.is_bad m) (found m c) ++ rest) (recorded ∙ e),
      ap (λ out. out ++ all_delivered m (run s c).0 cs) sent
          ∙ ap (λ rest. starts (edge (s.is_bad m) (found m c)) ++ rest) (delivered ∙ ap starts e)
          ∙ sym (
              starts-append (edge (s.is_bad m) (found m c))
                (edges m (after (s.is_bad m) (found m c)) cs)),
    )
