-- ===== src/Client/Signer.antt =====
-- frontend/src/helpers/signer.js: the private scalar in a PEM text, and the signature of a message.
use Prim.Native.Char.{code}
use vorliq.Common.{
  ◌-◌, ℕ, zero, suc, String, Bool, true, false, ◌&&◌, Option, none, some, List, [], ◌∷◌,
  if◌then◌else◌, ◌==◌, ltb, str_eq, length, take,
}
use vorliq.Common.Text.{is_space, codes}
use vorliq.Client.Browser.{
  Browser, hex_text, Outcome, done, thrown, ◌>>=◌, or_throw, pem_empty, not_base64,
  private_key_unreadable,
}

abbrev begin_marker : String
begin_marker = "-----BEGIN "

abbrev end_marker : String
end_marker = "-----END "

abbrev dashes : String
dashes = "-----"

-- What follows a prefix.
unfoldable after_prefix : List ℕ → String → Option String
after_prefix [] s = some s
after_prefix (p ∷ ps) String.[] = none
after_prefix (p ∷ ps) (String.◌∷◌ c s) =
    let rest = after_prefix ps s in if code c == p then rest else none

-- /[^-]+-----/ at the beginning of a text; `seen` once a character has been read.
unfoldable after_label : Bool → String → Option String
unfolding after_prefix
after_label seen String.[] = none
after_label seen (String.◌∷◌ c s) =
    let rest = after_label true s in
    let closed = after_prefix (codes dashes) (String.◌∷◌ c s) in
    if code c == b'-' then (if seen then closed else none) else rest

unfoldable after_marker : String → String → Option String
unfolding after_prefix after_label
after_marker marker s = elim (after_prefix (codes marker) s) [
  | none ↦ none
  | some rest ↦ after_label false rest
]

-- `pem.replace(/-----BEGIN [^-]+-----/g, "")` and its like; `skip` counts the characters of a
-- marker that are still to be passed over.
unfoldable remove_markers : ℕ → String → String → String
unfolding after_marker
remove_markers skip marker String.[] = String.[]
remove_markers (suc skip) marker (String.◌∷◌ c s) = remove_markers skip marker s
remove_markers zero marker (String.◌∷◌ c s) = elim (after_marker marker (String.◌∷◌ c s)) [
  | none ↦ String.◌∷◌ c (remove_markers zero marker s)
  | some rest ↦ remove_markers (length (codes s) - length (codes rest)) marker s
]

-- .replace(/\s+/g, "")
unfoldable without_spaces : String → String
unfolding is_space
without_spaces String.[] = String.[]
without_spaces (String.◌∷◌ c s) =
    let rest = without_spaces s in if is_space (code c) then rest else String.◌∷◌ c rest

unfoldable remove_all : String → String → String
unfolding remove_markers
remove_all marker s = remove_markers 0 marker s

unfoldable pub base64_of_pem : String → String
unfolding remove_all without_spaces
base64_of_pem pem = without_spaces (remove_all end_marker (remove_all begin_marker pem))

unfoldable pub pem_to_bytes : Browser → String → Outcome (List ℕ)
unfolding base64_of_pem
pem_to_bytes browser pem =
    let base64 = base64_of_pem pem in
    if str_eq base64 "" then thrown pem_empty else or_throw (browser.atob base64) not_base64

-- The loop of `extractSecp256k1PrivateScalar`: the 32 bytes after the first 04 20 that has more
-- than 32 bytes behind it.
unfoldable pub private_scalar : List ℕ → Option (List ℕ)
private_scalar [] = none
private_scalar (a ∷ []) = none
private_scalar (a ∷ b ∷ rest) =
    let later = private_scalar (b ∷ rest) in
    if ltb 32 (length rest) && (a == 0x04 && b == 0x20) then some (take 32 rest) else later

unfoldable pub extract_private_scalar : Browser → String → Outcome String
unfolding private_scalar pem_to_bytes
extract_private_scalar browser pem = do
  bytes ← pem_to_bytes browser pem
  scalar ← or_throw (private_scalar bytes) private_key_unreadable
  done (hex_text scalar)

unfoldable pub sha256_hex : Browser → String → String
unfolding hex_text
sha256_hex browser text = hex_text (browser.sha256 (browser.utf8 text))

unfoldable pub sign_message : Browser → String → String → Outcome String
unfolding extract_private_scalar sha256_hex
sign_message browser pem message = do
  scalar ← extract_private_scalar browser pem
  done (browser.sign_digest scalar (sha256_hex browser message))
