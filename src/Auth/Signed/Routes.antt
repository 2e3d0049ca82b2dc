-- ===== src/Auth/Signed/Routes.antt =====
-- The constants and tables of signedAuthorization.js.
use vorliq.Common.{ℕ, String, Option, none, some, List, [], ◌∷◌, str_eq, if◌then◌else◌}
use vorliq.Auth.Lockout.{Code, signed_authorization_required, override_rejected}

abbrev pub authorization_domain : String
authorization_domain = "vorliq.authority.v1"

abbrev pub max_age_seconds : ℕ
max_age_seconds = 300

abbrev pub future_skew_seconds : ℕ
future_skew_seconds = 30

abbrev pub role_like_identities : List String
role_like_identities =
    "admin" ∷ "operator" ∷ "moderator" ∷ "system" ∷ "vorliq_treasury" ∷ "lending_pool" ∷ []

abbrev pub override_fields : List String
override_fields =
    "authority_override" ∷ "authorityOverride" ∷ "balance" ∷ "current_treasury_balance"
    ∷ "currentTreasuryBalance" ∷ "source_balance" ∷ "sourceBalance" ∷ "treasury_balance"
    ∷ "treasuryBalance" ∷ "vote_weight" ∷ "voteWeight" ∷ "voter_balance" ∷ "voterBalance"
    ∷ "voting_balance" ∷ "votingBalance" ∷ []

pub record RouteConfig : Type 0 where
  pub action : String
  pub actor_fields : List String

abbrev route : String → String → String → String → String × RouteConfig
route path action snake camel =
    (path, record { action = action; actor_fields = snake ∷ camel ∷ [] })

-- AUTHORITY_ROUTES
unfoldable pub authority_routes : List (String × RouteConfig)
authority_routes =
    route "/api/governance/propose" "governance.propose" "proposer_address" "proposerAddress"
    ∷ route "/api/governance/vote" "governance.vote" "voter_address" "voterAddress"
    ∷ route "/api/governance/cancel" "governance.cancel" "proposer_address" "proposerAddress"
    ∷ route "/api/treasury/propose" "treasury.propose" "proposer_address" "proposerAddress"
    ∷ route "/api/treasury/vote" "treasury.vote" "voter_address" "voterAddress"
    ∷ route "/api/treasury/cancel" "treasury.cancel" "proposer_address" "proposerAddress"
    ∷ route "/api/lending/request" "lending.request" "requester_address" "requesterAddress"
    ∷ route "/api/lending/vote" "lending.vote" "voter_address" "voterAddress"
    ∷ route "/api/lending/repay" "lending.repay" "repayer_address" "repayerAddress"
    ∷ route "/api/forum/post" "forum.post" "author_address" "authorAddress"
    ∷ route "/api/forum/reply" "forum.reply" "author_address" "authorAddress"
    ∷ route "/api/forum/feature" "forum.feature" "voter_address" "voterAddress"
    ∷ route "/api/profiles/profile" "profile.update" "wallet_address" "walletAddress"
    ∷ route "/api/profiles/avatar" "profile.avatar" "wallet_address" "walletAddress"
    ∷ route "/api/registry/verify-operator" "registry.verify_operator" "operator_wallet_address"
        "operatorWalletAddress"
    ∷ route "/api/exchange/offer" "exchange.offer" "creator_address" "creatorAddress"
    ∷ route "/api/exchange/accept" "exchange.accept" "acceptor_address" "acceptorAddress"
    ∷ route "/api/exchange/complete" "exchange.complete" "caller_address" "callerAddress"
    ∷ route "/api/exchange/confirm-complete" "exchange.confirm_complete" "caller_address"
        "callerAddress"
    ∷ route "/api/exchange/record-vlq-tx" "exchange.record_vlq_tx" "caller_address" "callerAddress"
    ∷ route "/api/exchange/dispute" "exchange.dispute" "caller_address" "callerAddress"
    ∷ route "/api/exchange/cancel" "exchange.cancel" "caller_address" "callerAddress"
    ∷ route "/api/notifications/preferences" "notifications.preferences" "wallet_address"
        "walletAddress"
    ∷ []

find_route : String → List (String × RouteConfig) → Option RouteConfig
find_route path [] = none
find_route path ((p, config) ∷ rest) = if str_eq p path then some config else find_route path rest

-- AUTHORITY_ROUTES.get(route)
unfoldable pub route_config : String → Option RouteConfig
unfolding find_route authority_routes
route_config path = find_route path authority_routes

-- The status of each error: 401, but for the two that name another.
abbrev pub status_of : Code → ℕ
status_of signed_authorization_required = 503
status_of override_rejected = 400
status_of _ = 401
