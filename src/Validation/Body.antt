-- ===== src/Validation/Body.antt =====
-- `validateBody`: the check that a path and a method ask for, and the body that is passed on.
use vorliq.Common.{String, Bool, ◌&&◌, Option, [], ◌∷◌, str_eq, if◌then◌else◌}
use vorliq.Common.Text.{one_of}
use vorliq.Json.Defs.{Json, Fields}
use vorliq.Validation.Check.{Env, refused, Checked, Check, done, reject_if}
use vorliq.Validation.Field.{text}
use vorliq.Validation.Routes.Money.{
  check_transaction, check_mine, check_loan_request, check_loan_repay, check_price_signal,
  check_treasury_proposal, check_treasury_cancel,
}
use vorliq.Validation.Routes.Votes.{
  check_lending_vote, check_governance_vote, check_treasury_vote, check_governance_cancel,
  check_governance_proposal,
}
use vorliq.Validation.Routes.Posts.{
  check_forum_post, check_forum_reply, check_forum_upvote, check_forum_feature, check_report,
}
use vorliq.Validation.Routes.Market.{
  check_offer, check_accept, check_offer_call, check_record_tx, check_dispute, check_register,
  check_heartbeat, check_peer,
}

abbrev pub is_post : String → String → String → Bool
is_post method path wanted = str_eq path wanted && str_eq method "POST"

-- The tests on the path exclude each other, so at most one check is made. `address` is the query's.
unfoldable pub check_route : Env → String → String → Option Json → Check (Unit {0})
check_route env method path address =
    if str_eq path "/api/wallet/balance"
    then reject_if (str_eq (text address) "") (refused "wallet address is required.")
    else if str_eq path "/api/transaction/send"
    then check_transaction env
    else if str_eq path "/api/mine"
    then check_mine env
    else if is_post method path "/api/forum/post"
    then check_forum_post
    else if str_eq path "/api/forum/reply"
    then check_forum_reply
    else if str_eq path "/api/forum/upvote"
    then check_forum_upvote
    else if str_eq path "/api/forum/feature"
    then check_forum_feature
    else if str_eq path "/api/reports"
    then check_report env
    else if str_eq path "/api/lending/request"
    then check_loan_request env
    else if str_eq path "/api/lending/vote"
    then check_lending_vote
    else if str_eq path "/api/lending/repay"
    then check_loan_repay env
    else if is_post method path "/api/exchange/offer"
    then check_offer env
    else if str_eq path "/api/exchange/accept"
    then check_accept
    else if one_of
        ("/api/exchange/complete" ∷ "/api/exchange/cancel" ∷ "/api/exchange/confirm-complete" ∷ [])
        path
    then check_offer_call
    else if str_eq path "/api/exchange/record-vlq-tx"
    then check_record_tx
    else if str_eq path "/api/exchange/dispute"
    then check_dispute
    else if str_eq path "/api/governance/propose"
    then check_governance_proposal env
    else if str_eq path "/api/governance/vote"
    then check_governance_vote
    else if str_eq path "/api/governance/cancel"
    then check_governance_cancel
    else if str_eq path "/api/treasury/propose"
    then check_treasury_proposal env
    else if str_eq path "/api/treasury/vote"
    then check_treasury_vote
    else if str_eq path "/api/treasury/cancel"
    then check_treasury_cancel
    else if str_eq path "/api/price/signal"
    then check_price_signal env
    else if str_eq path "/api/registry/register"
    then check_register env
    else if one_of ("/api/registry/heartbeat" ∷ "/api/peers/announce" ∷ []) path
    then check_heartbeat env
    else if str_eq path "/api/peers/add"
    then check_peer env
    else done

-- The body that the next handler gets, or the rejection.
unfoldable pub validate_body : Env → String → String → Option Json → Fields → Checked (Unit {0})
validate_body env method path address body = check_route env method path address body
