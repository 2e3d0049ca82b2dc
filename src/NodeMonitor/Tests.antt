-- ===== src/NodeMonitor/Tests.antt =====
-- A network with the trusted node and one that is forked, and the alert about it.
use vorliq.Common.{
  String, true, false, ◌≡◌, ◌↔◌, ◌||◌, refl, none, some, List, [], ◌∷◌, any, All, str_eq, arith,
}
use vorliq.Common.Text.{trim, trim_start, trim_end, is_space}
use vorliq.NodeLifecycle.{text, strip, cut}
use vorliq.NodeCompare.{synced, forked}
use vorliq.NodeMonitor.{
  Node, Comparison, state_unavailable, is_false, trusted_public_node, network_alerts,
  overall_status, critical_overall, ok_overall,
}
use vorliq.NodeMonitor.AlertState.{Item, Entry, alert_key, should_send, mark_alerted}
use vorliq.NodeMonitor.Sent.{entry_key, IsClean}
use vorliq.NodeMonitor.Quiet.{Step, update, run_all, mark_alerted-should_send}
use vorliq.NodeMonitor.Verdict.{is_lost, is_critical_node, overall_status-is_critical_node}

abbrev trusted_node : Node
trusted_node = record {
  node_url = "https://node.vorliq.org/";
  display_name = "Vorliq Public Node";
  sync_status = synced;
  lifecycle_status = "active";
  active = true;
  last_probe_status = "ok";
  operator_probe_match = none;
  snapshot_hash = "abc";
  signature_verified = true;
}

abbrev forked_node : Node
forked_node = record {
  node_url = "https://other.example";
  display_name = "Other";
  sync_status = forked;
  lifecycle_status = "active";
  active = true;
  last_probe_status = "ok";
  operator_probe_match = none;
  snapshot_hash = "abd";
  signature_verified = false;
}

abbrev comparison : Comparison
comparison = record {
  success = true;
  trusted_height_is_null = false;
  trusted_latest_hash = "abc";
  trusted_signature_verified = some true;
  trusted_node_url = "https://vorliq.org";
  nodes = trusted_node ∷ forked_node ∷ [];
}

abbrev url : String
url = "https://node.vorliq.org"

overall_status-is_critical_node_example :
    ((overall_status (network_alerts url comparison) ≡ critical_overall) ↔ (
      (state_unavailable comparison
        || is_false comparison.trusted_signature_verified
        || is_lost (trusted_public_node url comparison)
        || any is_critical_node comparison.nodes)
      ≡ true))
    × ((overall_status (network_alerts url comparison) ≡ ok_overall)
        ↔ (network_alerts url comparison ≡ []))
overall_status-is_critical_node_example = overall_status-is_critical_node url comparison

abbrev item : Item
item = record { code = "forked_node"; node_url = "https://other.example"; severity = "critical" }

abbrev entry : Entry
entry = record {
  code = "forked_node";
  node_url = "https://other.example";
  first_seen = 0;
  last_seen = 1000;
  count = 1;
  last_alerted_at = none;
  status = "critical";
}

abbrev key : String
key = alert_key "forked_node" "https://other.example"

-- The alert comes in again, goes away, and comes in once more.
abbrev steps : List Step
steps = update (item ∷ []) 2000 ∷ update [] 3000 ∷ update (item ∷ []) 4000 ∷ []

item-IsClean : IsClean "forked_node" "https://other.example"
unfolding text strip cut trim trim_start trim_end is_space
item-IsClean = record { clean_code = refl; clean_url = refl }

mark_alerted-should_send_example :
    All
      (λ e. str_eq (entry_key e) key ≡ true → should_send e 1801000 1800 3 ≡ false)
      (run_all (mark_alerted (entry ∷ []) key 1500) steps)
unfolding text strip cut trim trim_start trim_end is_space alert_key
mark_alerted-should_send_example =
    mark_alerted-should_send key 1500 1801000 1800 3 (entry ∷ []) steps (item-IsClean, tt) refl
      ((item-IsClean, tt), (tt, ((item-IsClean, tt), tt))) (omega arith) (omega arith)
