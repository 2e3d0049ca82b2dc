-- ===== src/Client/Table.antt =====
-- The page's table of actions beside the gateway's table of routes.
use Prim.Native.String.{◌++◌ as join}
use vorliq.Common.{
  String, Bool, true, false, not, ◌&&◌, ◌≡◌, refl, Option, none, some, List, [], ◌∷◌, arith, str_eq,
  eq_iff, ap, Bool-cases, inl, inr,
}
use vorliq.Common.Text.{codes, one_of, all_codes, is_space}
use vorliq.Common.Trim.{not_space}
use vorliq.Auth.Signed.Routes.{RouteConfig, route_config, override_fields}
use vorliq.Client.Authority.{ActionConfig, authority_actions, find_action, action_config}
use vorliq.Client.Hex.{IsSolid}

-- The path as the page's API client completes it.
abbrev pub api_path : String → String
api_path path = join "/api" path

abbrev names_match : String → List String → Bool
names_match actor (snake ∷ camel ∷ []) = str_eq snake actor && not (str_eq camel actor)
names_match actor names = false

abbrev row_match : String → ActionConfig → Option RouteConfig → Bool
row_match action c none = false
row_match action c (some route) =
    str_eq route.action action && names_match c.actor_field route.actor_fields

unfoldable matches : String × ActionConfig → Bool
matches (action, c) =
    row_match action c (route_config (api_path c.path))
    && (not (str_eq c.actor_field "authorization")
        && (not (one_of override_fields c.actor_field) && all_codes not_space (codes action)))

unfoldable all_match : List (String × ActionConfig) → Bool
unfolding matches
all_match [] = true
all_match (row ∷ rows) = matches row && all_match rows

actions-match : all_match authority_actions ≡ true
unfolding all_match authority_actions route_config all_codes is_space
actions-match = refl

and_true : (a b : Bool) → (a && b) ≡ true → (a ≡ true) × (b ≡ true)
and_true a b h = (ground arith, ground arith)

find_action-matches :
    (action : String) (rows : List (String × ActionConfig)) {c : ActionConfig}
    → all_match rows ≡ true
    → find_action action rows ≡ some c
    → matches (action, c) ≡ true
find_action-matches action [] h found = absurd (unfold find_action in ground arith)
find_action-matches action ((a, config) ∷ rest) {c} h found =
    let (here, later) = and_true (matches (a, config)) (all_match rest) (unfold all_match in h) in
    elim (Bool-cases (str_eq a action)) [
      | inl same ↦
          let e : a ≡ action = ground (arith, eq_iff a action) in
          let f : config ≡ c = unfold find_action in ground arith in rw (← e, ← f) here
      | inr other ↦ find_action-matches action rest later (unfold find_action in ground arith)
    ]

-- An action of the page's table: its path is a route of the gateway, for that action and with the
-- same name of the actor, besides which the route reads one other.
pub record IsListed (action : String) (c : ActionConfig) : Type 0 where
  pub alias : String
  pub route :
      route_config (api_path c.path)
      ≡ some (record { action = action; actor_fields = c.actor_field ∷ alias ∷ [] })
  pub other : str_eq alias c.actor_field ≡ false
  pub not_authorization : str_eq c.actor_field "authorization" ≡ false
  pub no_override : one_of override_fields c.actor_field ≡ false
  pub solid : IsSolid action

names_match-eq :
    (actor : String) (names : List String)
    → names_match actor names ≡ true
    → (alias : String) × (names ≡ actor ∷ alias ∷ []) × (str_eq alias actor ≡ false)
names_match-eq actor (snake ∷ camel ∷ []) h =
    (camel, ground (arith, eq_iff snake actor), ground arith)
names_match-eq actor [] h = absurd (ground arith)
names_match-eq actor (x ∷ []) h = absurd (ground arith)
names_match-eq actor (x ∷ y ∷ z ∷ rest) h = absurd (ground arith)

route-matched :
    (action : String) (c : ActionConfig) (r : Option RouteConfig)
    → row_match action c r ≡ true
    → (alias : String) × (r
        ≡ some (record { action = action; actor_fields = c.actor_field ∷ alias ∷ [] }))
      × (str_eq alias c.actor_field ≡ false)
route-matched action c none h = absurd (ground arith)
route-matched action c (some route) h =
    let (same, fields) =
      and_true (str_eq route.action action) (names_match c.actor_field route.actor_fields) h in
    let (alias, names, other) = names_match-eq c.actor_field route.actor_fields fields in
    let e : route.action ≡ action = ground (arith, eq_iff route.action action) in
    (alias, ap some (cc (e, names)), other)

matches-parts :
    (action : String) (c : ActionConfig)
    → matches (action, c) ≡ true
    → (row_match action c (route_config (api_path c.path)) ≡ true)
      × (not (str_eq c.actor_field "authorization") ≡ true)
      × (not (one_of override_fields c.actor_field) ≡ true)
      × IsSolid action
unfolding matches
matches-parts action c m =
    let (row, rest) = and_true _ _ m in
    let (free, more) = and_true _ _ rest in
    let (plain, solid) = and_true _ _ more in (row, free, plain, solid)

not-true : (b : Bool) → not b ≡ true → b ≡ false
not-true b h = ground arith

pub action_config-IsListed :
    (action : String) {c : ActionConfig} → action_config action ≡ some c → IsListed action c
unfolding action_config
action_config-IsListed action {c} found =
    let m = find_action-matches action authority_actions actions-match found in
    let (row, free, plain, solid) = matches-parts action c m in
    let (alias, route, other) = route-matched action c (route_config (api_path c.path)) row in
    record {
      alias = alias;
      route = route;
      other = other;
      not_authorization = not-true _ free;
      no_override = not-true _ plain;
      solid = solid;
    }
