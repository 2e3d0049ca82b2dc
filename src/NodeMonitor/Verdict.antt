-- ===== src/NodeMonitor/Verdict.antt =====
-- When the network is critical.
use vorliq.Common.{
  ◌+◌, String, Bool, true, false, ◌&&◌, ◌||◌, ◌≡◌, ◌↔◌, refl, Option, none, some, List, [], ◌∷◌,
  ◌++◌, arith, str_eq, ltb, length, any, ◌∙◌,
}
use mathlib.Core.Path.{subst}
use vorliq.NodeMonitor.{
  Node, Comparison, Alert, warning, critical, alert, alert_if, is_forked, is_unreachable, is_false,
  state_unavailable, trusted_alerts, trusted_public_node, is_trusted, node_warnings, node_alerts,
  all_node_alerts, network_alerts, is_critical, warning_count, critical_count, overall_status,
  critical_overall, ok_overall,
}

abbrev has_critical : List Alert → Bool
has_critical = any (λ a. is_critical a.severity)

any-append : (xs ys : List Alert) → has_critical (xs ++ ys) ≡ (has_critical xs || has_critical ys)
any-append [] ys = refl
any-append (a ∷ rest) ys = ground (arith, any-append rest ys)

critical_count-any : (xs : List Alert) → ltb 0 (critical_count xs) ≡ has_critical xs
unfolding critical_count
critical_count-any [] = refl
critical_count-any (a ∷ rest) = ground (arith, critical_count-any rest)

alarmed :
    (test : Bool) (code_of : String) (url : Option String)
    → has_critical (alert_if test (alert critical code_of url)) ≡ test
alarmed true code_of url = refl
alarmed false code_of url = refl

-- What makes a node critical: its data or its operator are not what it claims, or it is active and forked.
pub is_critical_node : Node → Bool
is_critical_node n =
    str_eq n.last_probe_status "claim_mismatch"
    || is_false n.operator_probe_match
    || n.active && is_forked n.sync_status

warned :
    (test : Bool) (code_of : String) (url : Option String)
    → has_critical (alert_if test (alert warning code_of url)) ≡ false
warned true code_of url = refl
warned false code_of url = refl

node_warnings-any : (trusted : Bool) (n : Node) → has_critical (node_warnings trusted n) ≡ false
unfolding node_warnings
node_warnings-any trusted n = simp (any-append, warned)

node_alerts-any :
    (trusted : Bool) (n : Node) → has_critical (node_alerts trusted n) ≡ is_critical_node n
unfolding node_alerts is_critical_node
node_alerts-any trusted n = ground (arith, node_warnings-any trusted n)

all_node_alerts-any :
    (trusted : Option Node) (nodes : List Node)
    → has_critical (all_node_alerts trusted nodes) ≡ any is_critical_node nodes
unfolding all_node_alerts
all_node_alerts-any trusted [] = refl
all_node_alerts-any trusted (n ∷ nodes) =
    any-append (node_alerts (is_trusted trusted n) n) (all_node_alerts trusted nodes)
    ∙ (rw (node_alerts-any (is_trusted trusted n) n, all_node_alerts-any trusted nodes) refl)

-- The trusted node is forked or cannot be reached.
abbrev pub is_lost : Option Node → Bool
is_lost none = false
is_lost (some n) = is_forked n.sync_status || is_unreachable n.sync_status

trusted_alerts-any : (n : Option Node) → has_critical (trusted_alerts n) ≡ is_lost n
unfolding trusted_alerts
trusted_alerts-any none = refl
trusted_alerts-any (some n) = simp (any-append, warned, alarmed) (ground arith)

right_nested : (a b c d : Bool) → (a || (b || (c || d))) ≡ (a || b || c || d)
right_nested a b c d = ground arith

network_alerts-any :
    (configured : String) (c : Comparison)
    → has_critical (network_alerts configured c) ≡ (
        state_unavailable c
        || is_false c.trusted_signature_verified
        || is_lost (trusted_public_node configured c)
        || any is_critical_node c.nodes)
unfolding network_alerts
network_alerts-any configured c =
    simp (any-append, alarmed, trusted_alerts-any, all_node_alerts-any)
      (right_nested (state_unavailable c) (is_false c.trusted_signature_verified)
        (is_lost (trusted_public_node configured c)) (any is_critical_node c.nodes))

count-length : (xs : List Alert) → critical_count xs + warning_count xs ≡ length xs
unfolding critical_count warning_count
count-length [] = omega arith
count-length (a ∷ rest) = ground (arith, count-length rest)

nil-length : (xs : List Alert) → length xs ≡ 0 → xs ≡ []
nil-length [] h = refl
nil-length (a ∷ rest) h = ground arith

critical_iff : (xs : List Alert) → (overall_status xs ≡ critical_overall) ↔ (has_critical xs ≡ true)
unfolding overall_status
critical_iff xs =
    (λ h. ground (arith, critical_count-any xs), λ h. ground (arith, critical_count-any xs))

ok_iff : (xs : List Alert) → (overall_status xs ≡ ok_overall) ↔ (xs ≡ [])
unfolding overall_status
ok_iff xs = (
  λ h. nil-length xs (ground (arith, count-length xs)),
  λ h. rw h (unfold critical_count warning_count in refl),
)

-- The network is critical exactly if the trusted state cannot be told, the trusted signature is known not
-- to verify, the trusted node is forked or cannot be reached, or some node is critical: its data or its
-- operator are not what it claims, or it is active and forked. It is right exactly if there is no alert.
pub overall_status-is_critical_node :
    (configured : String) (c : Comparison)
    → (let alerts = network_alerts configured c in
        ((overall_status alerts ≡ critical_overall) ↔ (
          (state_unavailable c
            || is_false c.trusted_signature_verified
            || is_lost (trusted_public_node configured c)
            || any is_critical_node c.nodes)
          ≡ true))
        × ((overall_status alerts ≡ ok_overall) ↔ (alerts ≡ [])))
overall_status-is_critical_node configured c = (
  subst (λ b. (overall_status (network_alerts configured c) ≡ critical_overall) ↔ (b ≡ true))
      (network_alerts-any configured c) (critical_iff (network_alerts configured c)),
  ok_iff (network_alerts configured c),
)
