-- ===== src/NodeMonitor.antt =====
-- backend/nodeMonitor.js: the alerts about the nodes of the network, without their texts.
pub mod Verdict
pub mod AlertState
pub mod Sent
pub mod Quiet
mod Tests
use Prim.Native.Char.{code}
use vorliq.Common.{
  ℕ, String, Bool, true, false, not, ◌&&◌, ◌||◌, Option, none, some, List, [], ◌∷◌, ◌++◌, str_eq,
  ltb, ◌==◌, length, filter, any, if◌then◌else◌,
}
use vorliq.Common.Text.{lower_codes, codes_eq}
use vorliq.NodeLifecycle.{text}
use vorliq.NodeCompare.{SyncStatus, synced, behind, ahead, forked, stale, unreachable, unknown}
use vorliq.Validation.Secret.{begins}

-- A compared node, as far as it is read.
pub record Node : Type 0 where
  pub node_url : String
  pub display_name : String
  pub sync_status : SyncStatus
  pub lifecycle_status : String
  pub active : Bool
  pub last_probe_status : String
  pub operator_probe_match : Option Bool
  pub snapshot_hash : String
  pub signature_verified : Bool

pub record Comparison : Type 0 where
  pub success : Bool
  -- `trusted_chain_height === null`, which a field that is not there is not
  pub trusted_height_is_null : Bool
  pub trusted_latest_hash : String
  pub trusted_signature_verified : Option Bool
  pub trusted_node_url : String
  pub nodes : List Node

pub data Severity : Type 0 where
  warning : Severity
  critical : Severity

pub record Alert : Type 0 where
  pub severity : Severity
  pub code_of : String
  pub node_url : Option String

-- .replace(/\/+$/, "")
unfoldable pub drop_slashes : String → String
drop_slashes String.[] = String.[]
drop_slashes (String.◌∷◌ c s) =
    let rest = drop_slashes s in
    if code c == b'/' && str_eq rest "" then String.[] else String.◌∷◌ c rest

-- The code points of normalizeUrl.
unfoldable pub normalize_url : String → List ℕ
normalize_url value = lower_codes (drop_slashes (text value 240))

-- /vorliq public node/i
unfoldable pub names_public_node : List ℕ → Bool
names_public_node [] = false
names_public_node (c ∷ cs) = begins "vorliq public node" (c ∷ cs) || names_public_node cs

unfoldable pub find_node : (Node → Bool) → List Node → Option Node
find_node test [] = none
find_node test (n ∷ nodes) = if test n then some n else find_node test nodes

abbrev pub or_node : Option Node → Option Node → Option Node
or_node none other = other
or_node (some n) other = some n

-- `configured` is the address that the options, the comparison or the environment give.
unfoldable pub trusted_public_node : String → Comparison → Option Node
trusted_public_node configured c =
    or_node
      (find_node (λ n. codes_eq (normalize_url n.node_url) (normalize_url configured)) c.nodes)
      (or_node (find_node (λ n. names_public_node (lower_codes n.display_name)) c.nodes) (
        find_node (λ n. codes_eq (normalize_url n.node_url) (normalize_url c.trusted_node_url))
          c.nodes))

abbrev pub alert : Severity → String → Option String → Alert
alert severity code_of node_url = record {
  severity = severity;
  code_of = code_of;
  node_url = node_url;
}

abbrev pub alert_if : Bool → Alert → List Alert
alert_if true a = a ∷ []
alert_if false a = []

abbrev pub is_forked : SyncStatus → Bool
is_forked forked = true
is_forked s = false

abbrev pub is_unreachable : SyncStatus → Bool
is_unreachable unreachable = true
is_unreachable s = false

abbrev pub is_stale : SyncStatus → Bool
is_stale stale = true
is_stale s = false

abbrev pub is_unknown : SyncStatus → Bool
is_unknown unknown = true
is_unknown s = false

abbrev pub is_behind : SyncStatus → Bool
is_behind behind = true
is_behind s = false

abbrev pub is_ahead : SyncStatus → Bool
is_ahead ahead = true
is_ahead s = false

abbrev pub is_false : Option Bool → Bool
is_false none = false
is_false (some b) = not b

abbrev pub state_unavailable : Comparison → Bool
state_unavailable c = not c.success || c.trusted_height_is_null || str_eq c.trusted_latest_hash ""

unfoldable pub trusted_alerts : Option Node → List Alert
trusted_alerts none = alert warning "trusted_public_node_missing" none ∷ []
trusted_alerts (some n) =
    alert_if (is_forked n.sync_status)
      (alert critical "trusted_public_node_forked" (some (text n.node_url 240)))
    ++ (alert_if (is_unreachable n.sync_status)
          (alert critical "trusted_public_node_unreachable" (some (text n.node_url 240)))
        ++ alert_if (is_stale n.sync_status || is_unknown n.sync_status)
            (alert warning "trusted_public_node_not_synced" (some (text n.node_url 240))))

abbrev pub is_trusted : Option Node → Node → Bool
is_trusted none n = false
is_trusted (some t) n = codes_eq (normalize_url n.node_url) (normalize_url t.node_url)

-- The warnings about a node, after the tests that end with a critical alert.
unfoldable pub node_warnings : Bool → Node → List Alert
node_warnings trusted n =
    let url = some (text n.node_url 240) in
    alert_if (is_stale n.sync_status && not trusted) (
      alert warning (if str_eq n.lifecycle_status "inactive" then "inactive_node" else "stale_node")
        url)
    ++ (alert_if (is_behind n.sync_status) (alert warning "behind_node" url)
        ++ (alert_if (is_ahead n.sync_status) (alert warning "ahead_node" url)
            ++ (alert_if (is_unreachable n.sync_status && not trusted)
                  (alert warning "unreachable_node" url)
                ++ alert_if
                    (not trusted
                      && n.active
                      && str_eq n.snapshot_hash ""
                      && not n.signature_verified)
                    (alert warning "node_snapshot_metadata_missing" url))))

unfoldable pub node_alerts : Bool → Node → List Alert
node_alerts trusted n =
    let url = some (text n.node_url 240) in
    if str_eq n.last_probe_status "claim_mismatch"
    then alert critical "node_probe_claim_mismatch" url ∷ []
    else if is_false n.operator_probe_match
    then alert critical "node_operator_claim_mismatch" url ∷ []
    else if n.active && is_forked n.sync_status
    then alert critical "active_forked_node" url ∷ []
    else node_warnings trusted n

unfoldable pub all_node_alerts : Option Node → List Node → List Alert
all_node_alerts trusted [] = []
all_node_alerts trusted (n ∷ nodes) =
    node_alerts (is_trusted trusted n) n ++ all_node_alerts trusted nodes

unfoldable pub network_alerts : String → Comparison → List Alert
network_alerts configured c =
    let trusted = trusted_public_node configured c in
    alert_if (state_unavailable c) (alert critical "trusted_state_unavailable" none)
    ++ (alert_if (is_false c.trusted_signature_verified)
          (alert critical "trusted_snapshot_signature_invalid" none)
        ++ (trusted_alerts trusted ++ all_node_alerts trusted c.nodes))

pub data Overall : Type 0 where
  ok_overall : Overall
  warning_overall : Overall
  critical_overall : Overall

abbrev pub is_critical : Severity → Bool
is_critical critical = true
is_critical warning = false

unfoldable pub warning_count : List Alert → ℕ
warning_count alerts = length (filter (λ a. not (is_critical a.severity)) alerts)

unfoldable pub critical_count : List Alert → ℕ
critical_count alerts = length (filter (λ a. is_critical a.severity) alerts)

unfoldable pub overall_status : List Alert → Overall
overall_status alerts =
    if ltb 0 (critical_count alerts)
    then critical_overall
    else if ltb 0 (warning_count alerts)
    then warning_overall
    else ok_overall
