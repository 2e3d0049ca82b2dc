-- ===== src/NodeMonitor/AlertState.antt =====
-- `updateAlertState`, `shouldSendOperatorAlert` and `markAlerted` of backend/nodeMonitor.js. Times are
-- milliseconds in place of the texts of dates.
use Prim.Native.String.{◌++◌ as join}
use vorliq.Common.{
  ℕ, ◌+◌, ◌-◌, ◌*◌, String, Bool, true, false, ◌&&◌, Option, none, some, List, [], ◌∷◌, ◌++◌, map,
  any, str_eq, ltb, leb, if◌then◌else◌,
}
use vorliq.NodeLifecycle.{text}

-- An alert as it comes in; "" where it names no node.
pub record Item : Type 0 where
  pub code : String
  pub node_url : String
  pub severity : String

pub record Entry : Type 0 where
  pub code : String
  pub node_url : String
  pub first_seen : ℕ
  pub last_seen : ℕ
  pub count : ℕ
  pub last_alerted_at : Option ℕ
  pub status : String

unfoldable pub alert_key : String → String → String
alert_key code node_url = join (text code 80) (join "|" (text node_url 240))

-- The last entry of a key, as the Map holds it.
unfoldable pub previous_of : List Entry → String → Option Entry
previous_of [] key = none
previous_of (e ∷ entries) key =
    let found = previous_of entries key in
    elim found [
      | none ↦ (if str_eq (alert_key e.code e.node_url) key then some e else none)
      | some later ↦ some later
    ]

abbrev pub or_warning : String → String
or_warning s = if str_eq s "" then "warning" else s

abbrev pub seen_again : Item → ℕ → Option Entry → Entry
seen_again a checked_at none = record {
  code = text a.code 80;
  node_url = text a.node_url 240;
  first_seen = checked_at;
  last_seen = checked_at;
  count = 1;
  last_alerted_at = none;
  status = or_warning (text a.severity 20);
}
seen_again a checked_at (some e) = record {
  code = text a.code 80;
  node_url = text a.node_url 240;
  first_seen = e.first_seen;
  last_seen = checked_at;
  count = e.count + 1;
  last_alerted_at = e.last_alerted_at;
  status = or_warning (text a.severity 20);
}

abbrev pub current_entry : List Entry → ℕ → Item → Entry
current_entry entries checked_at a =
    seen_again a checked_at (previous_of entries (alert_key a.code a.node_url))

abbrev pub recovered : ℕ → Entry → Entry
recovered checked_at e = record {
  code = text e.code 80;
  node_url = text e.node_url 240;
  first_seen = e.first_seen;
  last_seen = checked_at;
  count = e.count;
  last_alerted_at = e.last_alerted_at;
  status = "recovered";
}

abbrev pub is_current : List Item → Entry → Bool
is_current alerts e =
    any (λ a. str_eq (alert_key a.code a.node_url) (alert_key e.code e.node_url)) alerts

unfoldable pub recovered_entries : List Item → ℕ → List Entry → List Entry
recovered_entries alerts checked_at [] = []
recovered_entries alerts checked_at (e ∷ entries) =
    let rest = recovered_entries alerts checked_at entries in
    if is_current alerts e then rest else recovered checked_at e ∷ rest

unfoldable pub update_alert_state : List Entry → List Item → ℕ → List Entry
update_alert_state entries alerts checked_at =
    map (current_entry entries checked_at) alerts ++ recovered_entries alerts checked_at entries

abbrev pub is_due : Option ℕ → ℕ → ℕ → Bool
is_due none now suppression_seconds = true
is_due (some alerted) now suppression_seconds = leb (suppression_seconds * 1000) (now - alerted)

unfoldable pub should_send : Entry → ℕ → ℕ → ℕ → Bool
should_send e now suppression_seconds warning_threshold =
    if str_eq e.status "warning" && ltb e.count warning_threshold
    then false
    else is_due e.last_alerted_at now suppression_seconds

abbrev pub alerted : ℕ → Entry → Entry
alerted alerted_at e = record {
  code = e.code;
  node_url = e.node_url;
  first_seen = e.first_seen;
  last_seen = e.last_seen;
  count = e.count;
  last_alerted_at = some alerted_at;
  status = e.status;
}

unfoldable pub mark_alerted : List Entry → String → ℕ → List Entry
mark_alerted entries key alerted_at =
    map (λ e. if str_eq (alert_key e.code e.node_url) key then alerted alerted_at e else e) entries
