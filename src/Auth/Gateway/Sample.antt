-- ===== src/Auth/Gateway/Sample.antt =====
-- A runtime with toy hashes, and a request that it accepts.
use Prim.Native.String.{◌++◌ as join}
use vorliq.Common.{ℕ, String, true, Option, none, some, [], ◌∷◌, str_eq}
use vorliq.Common.Int.{ℤ, pos}
use vorliq.Common.Dict
use vorliq.Json.Defs.{Json, num, str, obj, Fields, end, field}
use vorliq.Auth.Signed.Crypto.{Runtime, PublicKey}
use vorliq.Auth.Gateway.{Gateway, Request}

abbrev sample_text : Json → String
sample_text (str s) = s
sample_text (num t) = t
sample_text v = ""

abbrev sample_integer : Json → Option ℤ
sample_integer (num t) = some (pos 1000)
sample_integer v = none

abbrev pub sample_hash : String
sample_hash = "aaaaaaaaaaaaaaaaaaaaaaaaaaaaaaaaaaaaaaaaaaaaaaaaaaaaaaaaaaaaaaaa"

abbrev sample_key : PublicKey
sample_key = record { is_secp256k1 = true; x = 1 ∷ []; y = 2 ∷ [] }

abbrev pub sample_runtime : Runtime
sample_runtime = record {
  to_text = sample_text;
  to_integer = sample_integer;
  quote = λ s. join "'" (join s "'");
  integer_text = λ n. "1000";
  create_public_key = λ pem. some sample_key;
  sha256 = λ bytes. bytes;
  ripemd160 = λ bytes. bytes;
  sha256_hex = λ text. sample_hash;
  verify = λ message pem signature. str_eq signature "ab";
}

abbrev pub sample_wallet : String
sample_wallet = "2M1B"

abbrev pub sample_nonce : String
sample_nonce = "nonce-0123456789"

abbrev sample_message : String
sample_message =
    "{'action':'governance.vote','body_hash':'aaaaaaaaaaaaaaaaaaaaaaaaaaaaaaaaaaaaaaaaaaaaaaaaaaaaaaaaaaaaaaaa','domain':'vorliq.authority.v1','nonce':'nonce-0123456789','timestamp':1000,'wallet':'2M1B'}"

abbrev pub sample_body : String → Fields
sample_body signature = field "voter_address" (str sample_wallet) (
    field "authorization"
      (obj (
        field "wallet" (str sample_wallet) (
          field "public_key" (str "pem") (
            field "signature" (str signature) (
              field "message" (str sample_message) (
                field "timestamp" (num "1000") (
                  field "nonce" (str sample_nonce) (
                    field "action" (str "governance.vote") (
                      field "body_hash" (str sample_hash)
                        (field "domain" (str "vorliq.authority.v1") end))))))))))
      end)

abbrev pub sample_request : String → ℕ → Request
sample_request signature now = record {
  method = "POST";
  path = "/api/governance/vote";
  client = "ip";
  body = sample_body signature;
  now = now;
}

abbrev pub empty_gateway : Gateway
empty_gateway = record { attempts = Dict.empty; nonces = Dict.empty }
