-- ===== src/Monitors/Tests.antt =====
-- Runs of the monitors at concrete reports.
use vorliq.Common.{false, ◌≡◌, refl, none, some, List, [], ◌∷◌, ◌++◌, arith}
use vorliq.Monitors.{
  chain, Health, firing, resolved, initial, last_alerts, get_recent_alerts, fire_or_resolve,
  record_alert, check_chain, check_backend, check_disk,
}
use vorliq.Monitors.Edges.{
  Check, chain_check, backend_check, disk_check, run, run_all, found, all_recorded, all_delivered,
  starts, edges, alerts-edges,
}
use vorliq.Monitors.Events.{all_alerts, events-last_alerts}

abbrev healthy : Health
healthy = record {
  stuck_pending_count = 0;
  last_block_age_seconds = 30;
  status = "ok";
  chain_health = "healthy";
}

abbrev stuck : Health
stuck = record {
  stuck_pending_count = 2;
  last_block_age_seconds = 30;
  status = "ok";
  chain_health = "degraded";
}

-- The chain is stuck, then Flask is away, then all is well.
abbrev checks : List Check
checks =
    chain_check (some healthy) 1
    ∷ chain_check (some stuck) 2
    ∷ backend_check (some healthy) 3
    ∷ chain_check (some stuck) 4
    ∷ backend_check none 5
    ∷ chain_check none 6
    ∷ disk_check (some 2000000000) 7
    ∷ chain_check (some healthy) 8
    ∷ []

alerts-edges_example :
    (all_recorded chain initial checks ≡ edges chain false checks)
    × (all_delivered chain initial checks ≡ starts (edges chain false checks))
alerts-edges_example = alerts-edges chain initial checks

chain_edges : edges chain false checks ≡ firing ∷ resolved ∷ []
unfolding edges found
chain_edges = refl

events-last_alerts_example :
    (run_all initial checks).events ≡ last_alerts ([] ++ all_alerts initial checks)
events-last_alerts_example = events-last_alerts checks initial (omega arith)

newest_alert :
    get_recent_alerts (run_all initial checks) 1
    ≡ record { monitor = chain; severity = "info"; status = resolved; created_at = 8 } ∷ []
unfolding get_recent_alerts run_all run check_chain check_backend check_disk fire_or_resolve
    record_alert last_alerts
newest_alert = refl
