-- ===== src/NodeCompare.antt =====
-- backend/nodeCompare.js: how a node of the registry stands to the trusted chain, from the node that
-- `normalizedNode` (in NodeCompare.Raw) leaves on; a value that is null there is absent here, and
-- numbers are from 0. Times are seconds.
pub mod Verdict
pub mod Summary
pub mod Raw
mod Tests
use vorliq.Common.{
  ℕ, ◌+◌, ◌-◌, String, Bool, true, false, not, ◌&&◌, ◌||◌, Option, none, some, List, [], ◌∷◌,
  str_eq, ltb, leb, ◌==◌, if◌then◌else◌, length, filter,
}
use vorliq.Common.Int.{ℤ, sub_ℕ}

pub record Node : Type 0 where
  pub node_url : String
  pub last_seen : Option ℕ
  pub active : Option Bool
  pub chain_height : Option ℕ
  pub latest_block_hash : String
  pub chain_valid : Option Bool
  pub reachable : Option Bool
  pub last_diagnostics_status : String
  -- `latestHistoryValue(node, "status")`, "" where there is none
  pub last_history_status : String

-- What is trusted, with the clock and the windows that the comparison uses.
pub record Trusted : Type 0 where
  pub chain_height : Option ℕ
  pub latest_hash : String
  pub now_seconds : ℕ
  pub active_window : ℕ
  pub recent_window : ℕ

abbrev pub active_window_seconds : ℕ
active_window_seconds = 1800

abbrev pub recent_window_seconds : ℕ
recent_window_seconds = 21600

-- `last_seen >= now - window`, also where the difference is negative
abbrev pub seen_since : Option ℕ → ℕ → ℕ → Bool
seen_since none now window = false
seen_since (some at) now window = leb now (at + window)

abbrev pub flag_or : Option Bool → Bool → Bool
flag_or none otherwise = otherwise
flag_or (some b) otherwise = b

unfoldable pub active_from_last_seen : Node → Trusted → Bool
active_from_last_seen n t = flag_or n.active (seen_since n.last_seen t.now_seconds t.active_window)

unfoldable pub recently_seen : Node → Trusted → Bool
recently_seen n t = seen_since n.last_seen t.now_seconds t.recent_window

pub data SyncStatus : Type 0 where
  synced : SyncStatus
  behind : SyncStatus
  ahead : SyncStatus
  forked : SyncStatus
  stale : SyncStatus
  unreachable : SyncStatus
  unknown : SyncStatus

abbrev pub is_present {ℓ} : {A : Type ℓ} → Option A → Bool
is_present none = false
is_present (some a) = true

abbrev pub is_set : String → Bool
is_set s = not (str_eq s "")

abbrev pub is_false : Option Bool → Bool
is_false none = false
is_false (some b) = not b

abbrev pub is_true : Option Bool → Bool
is_true none = false
is_true (some b) = b

-- height !== null && trustedHeight !== null && height === trustedHeight
unfoldable pub same_height : Option ℕ → Option ℕ → Bool
same_height (some h) (some t) = h == t
same_height (some h) none = false
same_height none t = false

-- height < trustedHeight, where both are numbers
unfoldable pub below : Option ℕ → Option ℕ → Bool
below (some h) (some t) = ltb h t
below (some h) none = false
below none t = false

-- latestHash && trustedHash && latestHash === trustedHash
unfoldable pub same_latest_hash : Node → Trusted → Bool
same_latest_hash n t =
    is_set n.latest_block_hash && is_set t.latest_hash && str_eq n.latest_block_hash t.latest_hash

unfoldable pub is_other_hash : Node → Trusted → Bool
is_other_hash n t =
    is_set n.latest_block_hash
    && is_set t.latest_hash
    && not (str_eq n.latest_block_hash t.latest_hash)

unfoldable pub is_unreachable : Node → Bool
is_unreachable n =
    is_false n.reachable
    || str_eq n.last_diagnostics_status "unreachable"
    || str_eq n.last_history_status "offline"
    || is_false n.chain_valid && not (is_present n.chain_height) && not (is_set n.latest_block_hash)

-- `height === null || trustedHeight === null || !latestHash || !trustedHash || chainValid !== true`
unfoldable pub lacks_data : Node → Trusted → Bool
lacks_data n t =
    not (is_present n.chain_height)
    || not (is_present t.chain_height)
    || not (is_set n.latest_block_hash)
    || not (is_set t.latest_hash)
    || not (is_true n.chain_valid)

-- The comparisons at the end, when all that they need is there.
unfoldable pub compare_heights : Node → Trusted → SyncStatus
compare_heights n t =
    let active = active_from_last_seen n t in
    let same = same_height n.chain_height t.chain_height in
    if same && same_latest_hash n t && active
    then synced
    else if below n.chain_height t.chain_height
    then behind
    else if below t.chain_height n.chain_height
    then ahead
    else if same && not (same_latest_hash n t) && (active || recently_seen n t)
    then forked
    else unknown

unfoldable pub classify_sync_status : Node → Trusted → SyncStatus
classify_sync_status n t =
    let active = active_from_last_seen n t in
    if str_eq n.node_url ""
    then unknown
    else if same_height n.chain_height t.chain_height
        && is_other_hash n t
        && (active || recently_seen n t)
    then forked
    else if not active && is_present n.last_seen
    then stale
    else if is_unreachable n
    then unreachable
    else if lacks_data n t
    then unknown
    else compare_heights n t

pub data Risk : Type 0 where
  low : Risk
  warning : Risk
  high : Risk
  no_risk_known : Risk

-- The table `risk` of `statusDetails`.
abbrev pub risk_level : SyncStatus → Risk
risk_level synced = low
risk_level behind = warning
risk_level ahead = warning
risk_level forked = high
risk_level stale = warning
risk_level unreachable = warning
risk_level unknown = no_risk_known

-- `height !== null && trustedHeight !== null ? height - trustedHeight : null`
abbrev pub height_difference : Option ℕ → Option ℕ → Option ℤ
height_difference (some h) (some t) = some (sub_ℕ h t)
height_difference (some h) none = none
height_difference none t = none

-- What `compareNodeToTrustedState` says of a node, less the texts that it only passes on.
pub record Compared : Type 0 where
  pub node_url : String
  pub last_seen : Option ℕ
  pub active : Bool
  pub chain_height : Option ℕ
  pub latest_block_hash : String
  pub chain_valid : Bool
  pub reachable : Option Bool
  pub lifecycle_status : String
  pub sync_status : SyncStatus
  pub height_difference : Option ℤ
  pub risk : Risk
  pub same_latest_hash : Bool

unfoldable pub compare_node : Node → String → Trusted → Compared
compare_node n lifecycle t =
    let status = classify_sync_status n t in
    record {
      node_url = n.node_url;
      last_seen = n.last_seen;
      active = active_from_last_seen n t;
      chain_height = n.chain_height;
      latest_block_hash = n.latest_block_hash;
      chain_valid = is_true n.chain_valid;
      reachable = n.reachable;
      lifecycle_status = lifecycle;
      sync_status = status;
      height_difference = height_difference n.chain_height t.chain_height;
      risk = risk_level status;
      same_latest_hash = same_latest_hash n t;
    }
