-- ===== src/NodeLifecycle/Tests.antt =====
-- Runs of the lifecycle at concrete nodes.
use vorliq.Common.{◌≡◌, refl, none, some, []}
use vorliq.Common.Text.{trim, lower_codes, lower_code, codes_eq}
use vorliq.NodeLifecycle.{
  Camel, no_camel, Node, Update, Options, normalize_status, text, strip, cut, classified_status,
  updated_node, apply_node_lifecycle,
}
use vorliq.NodeLifecycle.Laws.{classified-apply}

-- A node that is stored as archived under the second spelling.
abbrev camel : Camel
camel = record {
  lifecycle_status = "archived";
  lifecycle_reason = "";
  archived_at = "";
  archived_by = "";
  retired_at = "";
  retired_by = "";
  last_lifecycle_change = "";
}

abbrev node : Node
node = record {
  lifecycle_status = "";
  camel = camel;
  last_seen = some 1000;
  lifecycle_reason = "";
  archived_at = "";
  archived_by = "";
  retired_at = "";
  retired_by = "";
  last_lifecycle_change = "";
  lifecycle_history = [];
}

abbrev defaults : Options
defaults = record { active_window = none; stale_window = none }

abbrev update : Update
update = record {
  timestamp = "";
  status = " Active";
  reason = "back";
  changed_by = "";
  options = defaults;
}

abbrev back : Node
back = updated_node "2026-01-01" node update 1500 "active"

applied : apply_node_lifecycle "2026-01-01" node update 1500 ≡ some back
unfolding apply_node_lifecycle normalize_status text strip cut trim lower_codes codes_eq lower_code
applied = refl

-- The node was seen ten minutes ago and was made active, and is still shown as archived.
classified-apply_example : classified_status back 1600 defaults ≡ "archived"
unfolding normalize_status text strip cut trim lower_codes lower_code codes_eq
classified-apply_example = classified-apply "2026-01-01" node update 1500 back applied 1600 defaults

-- Without the second spelling it is shown as active.
abbrev plain : Node
plain = record node { camel = no_camel }

reactivated :
    classified_status (updated_node "2026-01-01" plain update 1500 "active") 1600 defaults
    ≡ "active"
unfolding classified_status updated_node normalize_status text strip cut trim lower_codes lower_code
    codes_eq
reactivated = refl
