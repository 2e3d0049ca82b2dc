-- ===== src/Monitors.antt =====
-- backend/monitors.js: alerts that are recorded when a condition starts and when it ends, and delivered
-- when it starts. The model is the state that the checks share, what they record and what they hand to
-- `deliverAlert`; the ways of delivery are not modelled, since they change nothing of it. Numbers of a
-- health report that are absent are 0.
pub mod Edges
pub mod Events
mod Tests
use vorliq.Common.{
  ℕ, zero, suc, ◌+◌, ◌-◌, ◌*◌, String, Bool, true, false, not, ◌&&◌, ◌||◌, Option, none, some, List,
  [], ◌∷◌, ◌++◌, str_eq, ltb, if◌then◌else◌, length, drop,
}

pub data Monitor : Type 0 where
  chain : Monitor
  backend : Monitor
  disk : Monitor

abbrev pub same_monitor : Monitor → Monitor → Bool
same_monitor chain chain = true
same_monitor backend backend = true
same_monitor disk disk = true
same_monitor m n = false

pub data Status : Type 0 where
  firing : Status
  resolved : Status

pub record Alert : Type 0 where
  pub monitor : Monitor
  pub severity : String
  pub status : Status
  pub created_at : ℕ

-- `monitorState`, true where it is "bad", and the events of the alerts file.
pub record State : Type 0 where
  pub is_bad : Monitor → Bool
  pub events : List Alert

abbrev pub max_alerts : ℕ
max_alerts = 50

abbrev pub one_gb : ℕ
one_gb = 1024 * 1024 * 1024

abbrev pub dead_chain_seconds : ℕ
dead_chain_seconds = 600

-- `(events || []).slice(-MAX_ALERTS)`
unfoldable pub last_alerts : List Alert → List Alert
last_alerts events = drop (length events - max_alerts) events

unfoldable pub record_alert : List Alert → Alert → List Alert
record_alert events alert = last_alerts (events ++ (alert ∷ []))

abbrev pub set_bad : (Monitor → Bool) → Monitor → Bool → Monitor → Bool
set_bad is_bad m bad other = if same_monitor m other then bad else is_bad other

-- The alert that a check puts into the alerts file, and the one that it hands to `deliverAlert`.
pub record Notice : Type 0 where
  pub recorded : Option Alert
  pub delivered : Option Alert

abbrev pub silent : Notice
silent = record { recorded = none; delivered = none }

unfoldable pub fire_or_resolve : State → Monitor → Bool → String → ℕ → State × Notice
fire_or_resolve s m bad severity now =
    let fired : Alert = record {
      monitor = m;
      severity = severity;
      status = firing;
      created_at = now;
    } in
    let recovered : Alert = record {
      monitor = m;
      severity = "info";
      status = resolved;
      created_at = now;
    } in
    if bad && not (s.is_bad m)
    then (
      record { is_bad = set_bad s.is_bad m true; events = record_alert s.events fired },
      record { recorded = some fired; delivered = some fired },
    )
    else if not bad && s.is_bad m
    then (
      record { is_bad = set_bad s.is_bad m false; events = record_alert s.events recovered },
      record { recorded = some recovered; delivered = none },
    )
    else (s, silent)

-- The report of Flask's /health: the numbers and texts that the checks read, "" where absent.
pub record Health : Type 0 where
  pub stuck_pending_count : ℕ
  pub last_block_age_seconds : ℕ
  pub status : String
  pub chain_health : String

abbrev pub is_chain_bad : Health → Bool
is_chain_bad h = ltb 0 h.stuck_pending_count || ltb dead_chain_seconds h.last_block_age_seconds

-- Nothing is done where Flask cannot be reached.
unfoldable pub check_chain : State → Option Health → ℕ → State × Notice
check_chain s none now = (s, silent)
check_chain s (some h) now = fire_or_resolve s chain (is_chain_bad h) "critical" now

abbrev pub is_backend_bad : Option Health → Bool
is_backend_bad none = true
is_backend_bad (some h) =
    str_eq h.chain_health "degraded" || not (str_eq h.status "") && not (str_eq h.status "ok")

unfoldable pub check_backend : State → Option Health → ℕ → State × Notice
check_backend s health now = fire_or_resolve s backend (is_backend_bad health) "critical" now

-- The free bytes, where the platform reports them.
unfoldable pub check_disk : State → Option ℕ → ℕ → State × Notice
check_disk s none now = (s, silent)
check_disk s (some free) now = fire_or_resolve s disk (ltb free one_gb) "critical" now

-- `events.slice(-limit).reverse()` at a limit above 0
reverse : List Alert → List Alert
reverse [] = []
reverse (a ∷ rest) = reverse rest ++ (a ∷ [])

unfoldable pub get_recent_alerts : State → ℕ → List Alert
unfolding reverse
get_recent_alerts s limit = reverse (drop (length s.events - limit) s.events)

-- `monitorState` and an empty alerts file.
abbrev pub initial : State
initial = record { is_bad = λ m. false; events = [] }
