-- ===== src/Client/Transfer.antt =====
-- frontend/src/helpers/signer.js: the transaction that a page signs. The time is given as the text
-- of `Date.now() / 1000`.
use Prim.Native.String.{◌++◌ as join}
use vorliq.Common.{String, none, some, if◌then◌else◌}
use vorliq.Json.Defs.{Json, str, num, Fields, end, field}
use vorliq.Client.Browser.{Browser, Outcome, done, thrown, ◌>>=◌, invalid_amount}
use vorliq.Client.Signer.{extract_private_scalar, sha256_hex}

unfoldable pub python_float_string : Browser → Json → Outcome String
python_float_string browser v = elim (browser.number_text v) [
  | none ↦ thrown invalid_amount
  | some (whole, text) ↦ done (if whole then join text ".0" else text)
]

unfoldable pub create_python_signing_payload :
    Browser → String → String → Json → String → Outcome String
unfolding python_float_string
create_python_signing_payload browser sender receiver amount timestamp = do
  text ← python_float_string browser amount
  done (
      join "{\"amount\":" (
        join text (
          join ",\"receiver_address\":\"" (
            join receiver (
              join "\",\"sender_address\":\""
                (join sender (join "\",\"timestamp\":" (join timestamp "}"))))))))

-- What a page knows of the transfer that it signs.
pub record Transfer : Type 0 where
  pub sender_address : String
  pub sender_private_key : String
  pub sender_public_key : String
  pub receiver_address : String
  pub amount : Json

unfoldable pub sign_transaction : Browser → Transfer → String → Outcome Fields
unfolding create_python_signing_payload extract_private_scalar sha256_hex
sign_transaction browser t timestamp = do
  scalar ← extract_private_scalar browser t.sender_private_key
  payload ←
      create_python_signing_payload browser t.sender_address t.receiver_address t.amount timestamp
  done (
      field "sender_address" (str t.sender_address) (
        field "sender_public_key" (str t.sender_public_key) (
          field "receiver_address" (str t.receiver_address) (
            field "amount" (browser.number_json t.amount) (
              field "timestamp" (num timestamp) (
                field "signature" (str (browser.sign_digest scalar (sha256_hex browser payload)))
                  end))))))
