-- ===== src/Validation/Tests.antt =====
-- Runs of the validation at concrete bodies, with natural numbers as the numbers.
use vorliq.Common.{ℕ, true, false, ◌≡◌, refl, Option, none, some, [], ◌∷◌, ltb}
use vorliq.Common.Text.{
  trim, without_nul, trim_start, trim_end, is_space, units, size, lower_codes, lower_code, codes_eq,
}
use vorliq.Json.Defs.{Json, str, num, Fields, end, field, lookup}
use vorliq.Address.{
  reserved_system_address, validate_address, normalize_address, is_reserved_address, base58_pattern,
  is_base58_code, all_base58, is_bad_length,
}
use vorliq.Validation.Check.{Env, passed, rejected, bad_address, set_field, get}
use vorliq.Validation.Field.{
  text, require_text, find_word, require_enum, validate_public_wallet, is_system_controlled,
  all_hex, validate_signature, reject_supplied, require_number,
}
use vorliq.Validation.Routes.Money.{
  require_sender, admit_receiver, require_receiver, check_payment, check_transaction, require_actor,
  same_wallet_if, require_same_wallet,
}
use vorliq.Validation.Routes.Votes.{check_ballot, check_governance_vote, governance_balance_names}
use vorliq.Validation.Body.{validate_body, check_route}
use vorliq.Validation.Transfer.{IsTransfer, validate_body-IsTransfer}
use vorliq.Validation.Ballot.{IsBallot, validate_body-IsBallot}

-- A number is its text, in strokes.
abbrev count : Option Json → Option ℕ
count (some (num s)) = some (size s)
count v = none

abbrev plain : Env
plain = record {
  Number = ℕ;
  to_number = count;
  number_json = λ n. num "I";
  of_nat = λ n. n;
  less = ltb;
  is_integer = λ n. true;
  quote = λ s. s;
  parse_url = λ s. none;
  is_ip = λ s. false;
  is_production = true;
}

abbrev transfer : Fields
transfer = field "sender" (str " ANN1111111111111111") (
    field "receiver_address" (str "BAB2222222222222222") (
      field "amount" (num "III")
        (field "signature" (str "00ff") (field "senderPublicKey" (str "key") end))))

abbrev transferred : Fields
transferred = field "sender" (str " ANN1111111111111111") (
    field "receiver_address" (str "BAB2222222222222222") (
      field "amount" (num "I") (
        field "signature" (str "00ff") (
          field "senderPublicKey" (str "key") (
            field "sender_address" (str "ANN1111111111111111")
              (field "sender_public_key" (str "key") end))))))

abbrev ballot : Fields
ballot =
    field "proposalId" (str "p1")
      (field "voterAddress" (str "ANN1111111111111111") (field "vote" (str "YES") end))

abbrev counted : Fields
counted = field "proposalId" (str "p1") (
    field "voterAddress" (str "ANN1111111111111111") (
      field "vote" (str "yes")
        (field "proposal_id" (str "p1") (field "voter_address" (str "ANN1111111111111111") end))))

transfer_passes :
    validate_body plain "POST" "/api/transaction/send" none transfer ≡ passed tt transferred
unfolding validate_body check_route check_transaction require_sender admit_receiver require_receiver
    check_payment check_governance_vote check_ballot require_actor require_same_wallet
    same_wallet_if reject_supplied require_enum find_word validate_public_wallet require_text text
    trim without_nul size get lookup set_field validate_address normalize_address
    is_reserved_address base58_pattern all_base58 is_base58_code is_bad_length is_system_controlled
    require_number validate_signature all_hex lower_codes codes_eq units trim_start trim_end
    lower_code is_space
transfer_passes = refl

ballot_passes : validate_body plain "POST" "/api/governance/vote" none ballot ≡ passed tt counted
unfolding validate_body check_route check_transaction require_sender admit_receiver require_receiver
    check_payment check_governance_vote check_ballot require_actor require_same_wallet
    same_wallet_if reject_supplied require_enum find_word validate_public_wallet require_text text
    trim without_nul size get lookup set_field validate_address normalize_address
    is_reserved_address base58_pattern all_base58 is_base58_code is_bad_length is_system_controlled
    require_number validate_signature all_hex lower_codes codes_eq units trim_start trim_end
    lower_code is_space
ballot_passes = refl

-- A transfer to a reserved address, and to the sender itself.
refused_receiver :
    validate_body plain "POST" "/api/transaction/send" none
      (set_field "receiver_address" (str "SYSTEM") transfer)
    ≡ rejected (bad_address "receiver address" (reserved_system_address ∷ []))
unfolding validate_body check_route check_transaction require_sender admit_receiver require_receiver
    check_payment check_governance_vote check_ballot require_actor require_same_wallet
    same_wallet_if reject_supplied require_enum find_word validate_public_wallet require_text text
    trim without_nul size get lookup set_field validate_address normalize_address
    is_reserved_address base58_pattern all_base58 is_base58_code is_bad_length is_system_controlled
    require_number validate_signature all_hex lower_codes codes_eq units trim_start trim_end
    lower_code is_space
refused_receiver = refl

validate_body-IsTransfer_example : IsTransfer plain transfer transferred
validate_body-IsTransfer_example =
    validate_body-IsTransfer plain "POST" none transfer transferred transfer_passes

validate_body-IsBallot_example : IsBallot governance_balance_names counted
validate_body-IsBallot_example =
    validate_body-IsBallot plain "POST" "/api/governance/vote" none governance_balance_names ballot
      counted refl ballot_passes
