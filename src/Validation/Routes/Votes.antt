-- ===== src/Validation/Routes/Votes.antt =====
-- Votes and governance proposals.
use vorliq.Common.{
  ℕ, String, Bool, not, ◌&&◌, ◌||◌, Option, none, some, List, [], ◌∷◌, str_eq, if◌then◌else◌,
}
use vorliq.Validation.Check.{
  Env, refused, not_number, passed, rejected, Check, ◌>>=◌, ◌>>◌, done, get,
}
use vorliq.Validation.Field.{require_text, require_enum, validate_wallet, reject_supplied}
use vorliq.Validation.Routes.Money.{require_actor, require_same_wallet}

abbrev pub yes_no : List String
yes_no = "yes" ∷ "no" ∷ []

abbrev pub lending_balance_names : List String
lending_balance_names =
    "voter_balance" ∷ "voterBalance" ∷ "vote_weight" ∷ "voteWeight" ∷ "voting_balance"
    ∷ "votingBalance" ∷ "balance" ∷ []

abbrev pub governance_balance_names : List String
governance_balance_names = "voter_balance" ∷ "voterBalance" ∷ []

abbrev pub treasury_vote_names : List String
treasury_vote_names =
    "voter_balance" ∷ "voterBalance" ∷ "vote_weight" ∷ "voteWeight" ∷ "voting_balance"
    ∷ "votingBalance" ∷ "balance" ∷ "source_balance" ∷ "sourceBalance" ∷ []

-- What the three votes have in common, after the identifier of what is voted on: the voter, its wallet
-- address, the balances that a client may not give, and the vote.
unfoldable pub check_ballot : String → List String → Check String
check_ballot message balance_names = do
  voter ← require_actor "voter_address" ("voterAddress" ∷ []) "voter address" message
  require_same_wallet "voter_wallet_address" ("voterWalletAddress" ∷ []) "voter wallet address"
      voter "voter wallet address must match voter address."
  reject_supplied balance_names "voter balance is derived by the server."
  vote ← require_enum "vote" [] "vote" yes_no
  λ body. passed voter body

unfoldable pub check_lending_vote : Check (Unit {0})
check_lending_vote = do
  loan ← require_text "loan_id" ("loanId" ∷ []) "loan ID" 128
  voter ←
      check_ballot "system-controlled addresses cannot cast public lending votes."
        lending_balance_names
  done

unfoldable pub check_governance_vote : Check (Unit {0})
check_governance_vote = do
  proposal ← require_text "proposal_id" ("proposalId" ∷ []) "proposal ID" 128
  voter ←
      check_ballot "system-controlled addresses cannot cast public governance votes."
        governance_balance_names
  done

unfoldable pub check_treasury_vote : Check (Unit {0})
check_treasury_vote = do
  proposal ← require_text "proposal_id" ("proposalId" ∷ []) "proposal ID" 128
  voter ←
      check_ballot "system-controlled addresses cannot cast public treasury votes."
        treasury_vote_names
  done

unfoldable pub check_governance_cancel : Check (Unit {0})
check_governance_cancel = do
  proposal ← require_text "proposal_id" ("proposalId" ∷ []) "proposal ID" 128
  proposer ← validate_wallet "proposer_address" ("proposerAddress" ∷ []) "proposer address"
  done

abbrev pub governance_categories : List String
governance_categories =
    "mining_reward" ∷ "difficulty" ∷ "loan_limit" ∷ "loan_interest" ∷ "exchange_limit" ∷ "general"
    ∷ []

module _ (env : Env) where
  open env use {Number, to_number, of_nat, less, is_integer}

  -- value <= low || value > high
  abbrev pub outside : Number → ℕ → ℕ → Bool
  outside value low high = not (less (of_nat low) value) || less (of_nat high) value

  abbrev pub out_of_range : String → Number → Bool
  out_of_range category value =
      str_eq category "mining_reward" && outside value 0 1000
      || str_eq category "difficulty"
        && (not (is_integer value) || less value (of_nat 2) || less (of_nat 8) value)
      || str_eq category "loan_limit" && outside value 0 1_000_000
      || str_eq category "loan_interest" && (less value (of_nat 0) || less (of_nat 100) value)
      || str_eq category "exchange_limit" && (not (is_integer value) || outside value 0 1000)

  abbrev pub range_message : String → String
  range_message category =
      if str_eq category "mining_reward"
      then "mining reward must be greater than 0 and no more than 1000 VLQ."
      else if str_eq category "difficulty"
      then "difficulty must be an integer between 2 and 8."
      else if str_eq category "loan_limit"
      then "loan limit must be greater than 0 and no more than 1000000 VLQ."
      else if str_eq category "loan_interest"
      then "loan interest must be between 0 and 100 percent."
      else "exchange limit must be between 1 and 1000."

  abbrev pub check_value : String → Option Number → Check (Unit {0})
  check_value category none body = rejected (not_number "parameter value")
  check_value category (some value) body =
      if out_of_range category value
      then rejected (refused (range_message category))
      else passed tt body

  -- The parameter that a proposal of a category may set: a text, or a number in the category's range.
  unfoldable pub check_parameter : String → Check (Unit {0})
  check_parameter category body =
      if str_eq category "general"
      then (do parameter ← require_text "parameter" [] "parameter value" 500; done) body
      else check_value category (to_number (get body ("parameter" ∷ []))) body

  unfoldable pub check_governance_proposal : Check (Unit {0})
  check_governance_proposal = do
    proposer ← validate_wallet "proposer_address" ("proposerAddress" ∷ []) "proposer address"
    title ← require_text "title" [] "title" 160
    description ← require_text "description" [] "description" 3000
    category ← require_enum "category" [] "category" governance_categories
    check_parameter category
