-- ===== src/NodeCompare/Summary.antt =====
-- `summarizeNetworkSync`: the counts of the compared nodes and the status of the network.
use vorliq.Common.{
  ℕ, suc, ◌+◌, ◌<◌, String, Bool, true, false, not, ◌||◌, ◌≡◌, refl, List, [], ◌∷◌, arith, str_eq,
  ltb, ◌==◌, if◌then◌else◌, length, ◌↔◌,
}
use vorliq.NodeCompare.{
  Node, Trusted, SyncStatus, synced, forked, stale, behind, ahead, unreachable, unknown, Risk, low,
  warning, high, no_risk_known, risk_level, Compared, compare_node, classify_sync_status,
}

pub data Overall : Type 0 where
  high_risk : Overall
  warned : Overall
  all_synced : Overall
  not_known : Overall

pub record Summary : Type 0 where
  pub total_node_count : ℕ
  pub active_node_count : ℕ
  pub synced_count : ℕ
  pub behind_count : ℕ
  pub ahead_count : ℕ
  pub forked_count : ℕ
  pub stale_count : ℕ
  pub inactive_count : ℕ
  pub archived_count : ℕ
  pub retired_count : ℕ
  pub visible_public_count : ℕ
  pub unreachable_count : ℕ
  pub unknown_count : ℕ
  pub warning_count : ℕ
  pub high_risk_count : ℕ
  pub overall_status : Overall

abbrev pub same_status : SyncStatus → SyncStatus → Bool
same_status synced synced = true
same_status behind behind = true
same_status ahead ahead = true
same_status forked forked = true
same_status stale stale = true
same_status unreachable unreachable = true
same_status unknown unknown = true
same_status s t = false

abbrev pub same_risk : Risk → Risk → Bool
same_risk low low = true
same_risk warning warning = true
same_risk high high = true
same_risk no_risk_known no_risk_known = true
same_risk r s = false

abbrev pub count_if : (Compared → Bool) → List Compared → ℕ
count_if test [] = 0
count_if test (n ∷ ns) = if test n then suc (count_if test ns) else count_if test ns

abbrev pub in_status : SyncStatus → List Compared → ℕ
in_status s nodes = count_if (λ n. same_status n.sync_status s) nodes

abbrev pub at_risk : Risk → List Compared → ℕ
at_risk r nodes = count_if (λ n. same_risk n.risk r) nodes

-- `node.lifecycle_status || "inactive"`
abbrev pub lifecycle_of : Compared → String
lifecycle_of n = if str_eq n.lifecycle_status "" then "inactive" else n.lifecycle_status

abbrev pub is_public : Compared → Bool
is_public n = not (str_eq n.lifecycle_status "archived" || str_eq n.lifecycle_status "retired")

abbrev pub overall : ℕ → ℕ → ℕ → ℕ → Overall
overall high_risks warnings active synceds =
    if ltb 0 high_risks
    then high_risk
    else if ltb 0 warnings || active == 0
    then warned
    else if ltb 0 synceds
    then all_synced
    else not_known

unfoldable pub summarize_network_sync : List Compared → Summary
summarize_network_sync nodes = record {
  total_node_count = length nodes;
  active_node_count = count_if (λ n. n.active) nodes;
  synced_count = in_status synced nodes;
  behind_count = in_status behind nodes;
  ahead_count = in_status ahead nodes;
  forked_count = in_status forked nodes;
  stale_count = in_status stale nodes;
  inactive_count = count_if (λ n. str_eq (lifecycle_of n) "inactive") nodes;
  archived_count = count_if (λ n. str_eq (lifecycle_of n) "archived") nodes;
  retired_count = count_if (λ n. str_eq (lifecycle_of n) "retired") nodes;
  visible_public_count = count_if is_public nodes;
  unreachable_count = in_status unreachable nodes;
  unknown_count = in_status unknown nodes;
  warning_count = at_risk warning nodes;
  high_risk_count = at_risk high nodes;
  overall_status =
      overall (at_risk high nodes) (at_risk warning nodes) (count_if (λ n. n.active) nodes)
        (in_status synced nodes);
}

-- The network's list: every node with its lifecycle, compared to one trusted state.
unfoldable pub compare_all : List (Node × String) → Trusted → List Compared
compare_all [] t = []
compare_all ((n, lifecycle) ∷ ns) t = compare_node n lifecycle t ∷ compare_all ns t

-- The nodes in each of the seven states, and those whose state carries each risk.
count_statuses : List Compared → ℕ
count_statuses nodes =
    in_status synced nodes
    + in_status behind nodes
    + in_status ahead nodes
    + in_status forked nodes
    + in_status stale nodes
    + in_status unreachable nodes
    + in_status unknown nodes

warned_statuses : List Compared → ℕ
warned_statuses nodes =
    in_status behind nodes
    + in_status ahead nodes
    + in_status stale nodes
    + in_status unreachable nodes

-- What the counts of a list say about each other.
IsCounted : List Compared → Type 0
IsCounted nodes =
    (count_statuses nodes ≡ length nodes)
    × ((at_risk high nodes ≡ in_status forked nodes)
        × (at_risk warning nodes ≡ warned_statuses nodes))

IsCounted-next :
    (s : SyncStatus) (n : Compared) (nodes : List Compared)
    → IsCounted nodes
    → IsCounted ((record n { sync_status = s; risk = risk_level s }) ∷ nodes)
unfolding IsCounted count_statuses warned_statuses
IsCounted-next synced n nodes (all, (h, w)) = (omega arith, (omega arith, omega arith))
IsCounted-next behind n nodes (all, (h, w)) = (omega arith, (omega arith, omega arith))
IsCounted-next ahead n nodes (all, (h, w)) = (omega arith, (omega arith, omega arith))
IsCounted-next forked n nodes (all, (h, w)) = (omega arith, (omega arith, omega arith))
IsCounted-next stale n nodes (all, (h, w)) = (omega arith, (omega arith, omega arith))
IsCounted-next unreachable n nodes (all, (h, w)) = (omega arith, (omega arith, omega arith))
IsCounted-next unknown n nodes (all, (h, w)) = (omega arith, (omega arith, omega arith))

compare_all-IsCounted : (ns : List (Node × String)) (t : Trusted) → IsCounted (compare_all ns t)
unfolding compare_all compare_node
compare_all-IsCounted [] t = unfold IsCounted count_statuses warned_statuses in (refl, (refl, refl))
compare_all-IsCounted ((n, lifecycle) ∷ ns) t =
    IsCounted-next (classify_sync_status n t) (compare_node n lifecycle t) (compare_all ns t)
      (compare_all-IsCounted ns t)

-- What the counts of a summary say about each other, and its status about them.
pub IsConsistent : Summary → Type 0
IsConsistent s =
    (s.synced_count + s.behind_count + s.ahead_count + s.forked_count + s.stale_count
        + s.unreachable_count + s.unknown_count
      ≡ s.total_node_count)
    × ((s.high_risk_count ≡ s.forked_count)
        × ((s.warning_count ≡ s.behind_count + s.ahead_count + s.stale_count + s.unreachable_count)
            × ((s.overall_status ≡ high_risk) ↔ (0 < s.forked_count))))

-- In the summary of nodes that were compared to one trusted state, every node is in one of the seven
-- counts of states, the nodes of high risk are the forked ones, and those with a warning the ones that
-- are behind, ahead, stale or unreachable; the network is at high risk exactly if a node is forked.
summarize-IsConsistent :
    (ns : List (Node × String)) (t : Trusted)
    → IsConsistent (summarize_network_sync (compare_all ns t))
unfolding summarize_network_sync IsConsistent IsCounted count_statuses warned_statuses
summarize-IsConsistent ns t =
    let nodes = compare_all ns t in
    let (all, (risky, warned_ones)) = compare_all-IsCounted ns t in
    (all, (risky, (warned_ones, (λ h. ground (arith, risky), λ h. ground (arith, risky)))))
