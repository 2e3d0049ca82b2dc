-- ===== src/Validation/Routes/Money.antt =====
-- Transactions, mining, loans, prices and treasury proposals: the routes that name an amount or a payee.
use vorliq.Common.{String, Bool, true, false, List, [], ◌∷◌, not, str_eq}
use vorliq.Address.{is_reserved_address}
use vorliq.Validation.Check.{
  Env, refused, passed, Check, ◌>>=◌, ◌>>◌, done, reject_if, get, is_given,
}
use vorliq.Validation.Field.{
  require_text, require_number, require_enum, validate_wallet, validate_public_wallet,
  validate_signature, reject_supplied, is_system_controlled,
}

-- The wallet address that may be given again, and must then be the actor's.
unfoldable pub same_wallet_if :
    Bool → String → List String → String → String → String → Check (Unit {0})
same_wallet_if true name others label actor message = do
  wallet ← validate_public_wallet false name others label
  reject_if (not (str_eq wallet actor)) (refused message)
same_wallet_if false name others label actor message = done

unfoldable pub require_same_wallet :
    String → List String → String → String → String → Check (Unit {0})
require_same_wallet name others label actor message body =
    same_wallet_if (is_given (get body (name ∷ others))) name others label actor message body

unfoldable pub require_actor : String → List String → String → String → Check String
require_actor name others label message = do
  actor ← validate_public_wallet false name others label
  reject_if (is_system_controlled actor) (refused message)
  λ body. passed actor body

-- The sender of a transaction, which is refused where it is a reserved address.
unfoldable pub require_sender : Check String
require_sender = do
  sender ←
      validate_public_wallet true "sender_address" ("senderAddress" ∷ "sender" ∷ [])
        "sender address"
  reject_if (is_system_controlled sender)
      (refused "system-controlled addresses cannot submit public transactions.")
  λ body. passed sender body

unfoldable pub admit_receiver : String → String → Check String
admit_receiver sender receiver = do
  reject_if (str_eq sender receiver) (refused "sender and receiver cannot be the same address.")
  reject_if (is_reserved_address receiver)
      (refused "reserved system addresses cannot receive public user transactions.")
  λ body. passed receiver body

unfoldable pub require_receiver : String → Check String
require_receiver sender = do
  receiver ←
      validate_public_wallet false "receiver_address" ("receiverAddress" ∷ "receiver" ∷ [])
        "receiver address"
  admit_receiver sender receiver

module _ (env : Env) where
  -- The amount, the signature and the key.
  unfoldable pub check_payment : Check (Unit {0})
  check_payment = do
    amount ← require_number env "amount" [] "amount" 21_000_000
    signature ← validate_signature "signature" [] "signature"
    key ← require_text "sender_public_key" ("senderPublicKey" ∷ []) "sender public key" 3000
    done

  unfoldable pub check_transaction : Check (Unit {0})
  check_transaction = do sender ← require_sender; receiver ← require_receiver sender; check_payment

  unfoldable pub check_mine : Check (Unit {0})
  check_mine = do
    miner ←
        require_actor "miner_address" ("minerAddress" ∷ []) "miner address"
          "reserved system addresses cannot receive public mining rewards."
    done

  unfoldable pub check_loan_request : Check (Unit {0})
  check_loan_request = do
    requester ← validate_wallet "requester_address" ("requesterAddress" ∷ []) "requester address"
    amount ← require_number env "amount" [] "loan amount" 10000
    reason ← require_text "reason" [] "reason" 1000
    done

  unfoldable pub check_loan_repay : Check (Unit {0})
  check_loan_repay = do
    loan ← require_text "loan_id" ("loanId" ∷ []) "loan ID" 128
    repayer ← validate_wallet "repayer_address" ("repayerAddress" ∷ []) "repayer address"
    done

  unfoldable pub check_price_signal : Check (Unit {0})
  check_price_signal = do
    submitter ← validate_wallet "submitter_address" ("submitterAddress" ∷ []) "submitter address"
    currency ← require_text "currency" [] "currency" 24
    price ← require_number env "price_value" ("priceValue" ∷ "price" ∷ []) "price" 1_000_000_000
    done

  abbrev pub treasury_categories : List String
  treasury_categories =
      "development" ∷ "marketing" ∷ "community" ∷ "infrastructure" ∷ "security" ∷ "education"
      ∷ "other" ∷ []

  abbrev pub treasury_balance_names : List String
  treasury_balance_names =
      "treasury_balance" ∷ "treasuryBalance" ∷ "current_treasury_balance" ∷ "currentTreasuryBalance"
      ∷ "source_balance" ∷ "sourceBalance" ∷ "balance" ∷ []

  unfoldable pub check_treasury_proposal : Check (Unit {0})
  check_treasury_proposal = do
    proposer ←
        require_actor "proposer_address" ("proposerAddress" ∷ []) "proposer address"
          "system-controlled addresses cannot create public treasury proposals."
    require_same_wallet "proposer_wallet_address" ("proposerWalletAddress" ∷ [])
        "proposer wallet address" proposer "proposer wallet address must match proposer address."
    recipient ←
        require_actor "recipient_address" ("recipientAddress" ∷ []) "recipient address"
          "reserved system addresses cannot receive public treasury payouts."
    reject_supplied treasury_balance_names "treasury balance is derived by the server."
    title ← require_text "title" [] "title" 160
    description ← require_text "description" [] "description" 3000
    category ← require_enum "category" [] "category" treasury_categories
    amount ←
        require_number env "requested_amount" ("requestedAmount" ∷ []) "requested amount" 1_000_000
    done

unfoldable pub check_treasury_cancel : Check (Unit {0})
check_treasury_cancel = do
  proposal ← require_text "proposal_id" ("proposalId" ∷ []) "proposal ID" 128
  proposer ←
      require_actor "proposer_address" ("proposerAddress" ∷ []) "proposer address"
        "system-controlled addresses cannot cancel public treasury proposals."
  require_same_wallet "proposer_wallet_address" ("proposerWalletAddress" ∷ [])
      "proposer wallet address" proposer "proposer wallet address must match proposer address."
