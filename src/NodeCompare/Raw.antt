-- ===== src/NodeCompare/Raw.antt =====
-- backend/nodeCompare.js: a raw node of the registry, read into the node that is compared, and the
-- scan of a public value for forbidden markers.
use vorliq.Common.{
  ℕ, String, Bool, true, false, ◌&&◌, ◌||◌, Option, none, some, List, [], ◌∷◌, str_eq,
  if◌then◌else◌, any, drop, ◌==◌,
}
use vorliq.Common.Text.{
  trim, without_nul, codes, lower_codes, codes_eq, is_space, is_digit, is_lower, is_prefix,
  holds_word,
}
use vorliq.Json.Defs.{Json, null, bool, str, arr, obj, Items, nil, cons, Fields, lookup}
use vorliq.Json.Truth.{either}
use vorliq.NodeLifecycle.{cut}
use vorliq.NodeCompare.{Node}

-- String(value), and Number(value) where it is finite.
pub record Reader : Type 0 where
  pub string_of : Json → String
  pub number_of : Json → Option ℕ

-- `a ?? b`
abbrev pub or_nullish : Option Json → Option Json → Option Json
or_nullish none other = other
or_nullish (some null) other = other
or_nullish (some v) other = some v

-- undefined, null or the empty text
abbrev pub is_blank : Option Json → Bool
is_blank none = true
is_blank (some null) = true
is_blank (some (str s)) = str_eq s ""
is_blank (some v) = false

module _ (read : Reader) where
  abbrev pub number_or_null : Option Json → Option ℕ
  number_or_null none = none
  number_or_null (some v) = if is_blank (some v) then none else read.number_of v

  abbrev words_have : List String → String → Bool
  words_have words text = any (λ word. codes_eq (codes word) (lower_codes text)) words

  unfoldable bool_of_text : String → Option Bool
  bool_of_text text =
      if words_have ("true" ∷ "1" ∷ "yes" ∷ "valid" ∷ []) text
      then some true
      else if words_have ("false" ∷ "0" ∷ "no" ∷ "invalid" ∷ []) text
      then some false
      else none

  unfoldable pub bool_or_null : Option Json → Option Bool
  unfolding bool_of_text
  bool_or_null none = none
  bool_or_null (some (bool b)) = some b
  bool_or_null (some v) = if is_blank (some v) then none else bool_of_text (read.string_of v)

  unfoldable pub text_or_empty : Option Json → ℕ → String
  text_or_empty none limit = ""
  text_or_empty (some null) limit = ""
  text_or_empty (some v) limit = cut limit (trim (without_nul (read.string_of v)))

  -- `history[index]?.[key]`
  abbrev item_value : Json → String → Option Json
  item_value (obj fs) key = lookup key fs
  item_value v key = none

  unfoldable last_value : Items → String → Option Json
  last_value nil key = none
  last_value (cons item items) key =
      let later = last_value items key in
      let here = item_value item key in
      elim later [ none ↦ (if is_blank here then none else here) | some v ↦ some v ]

  abbrev history_value : Json → String → Option Json
  history_value (arr items) key = last_value items key
  history_value v key = none

  -- The value of the last entry of the history that has one.
  unfoldable pub latest_history_value : Fields → String → Option Json
  unfolding last_value
  latest_history_value node key = elim (lookup "status_history" node) [
    | none ↦ none
    | some history ↦ history_value history key
  ]

  abbrev flag : Option Json → Option Bool
  flag (some (bool b)) = some b
  flag v = none

  -- `last_diagnostics_status === "valid" ? true : … "invalid" ? false : null`
  abbrev diagnosed : Option Json → Option Json
  diagnosed (some (str s)) =
      if str_eq s "valid"
      then some (bool true)
      else if str_eq s "invalid"
      then some (bool false)
      else none
  diagnosed v = none

  -- `normalizedNode`, for the fields that decide how the node stands.
  unfoldable pub normalized_node : Fields → Node
  unfolding bool_or_null text_or_empty latest_history_value
  normalized_node node =
      let at = λ (name : String). lookup name node in
      record {
        node_url = text_or_empty (either (at "node_url") (at "nodeUrl")) 240;
        last_seen = number_or_null (or_nullish (at "last_seen") (at "lastSeen"));
        active = flag (at "active");
        chain_height = number_or_null (
            or_nullish (at "chain_height") (
              or_nullish (at "chainHeight")
                (or_nullish (at "last_chain_height") (latest_history_value node "chain_height"))));
        latest_block_hash =
            text_or_empty
              (either (at "latest_block_hash") (
                either (at "latestBlockHash")
                  (either (at "last_block_hash") (latest_history_value node "last_block_hash"))))
              160;
        chain_valid = bool_or_null (
            or_nullish (at "chain_valid")
              (or_nullish (at "chainValid") (diagnosed (at "last_diagnostics_status"))));
        reachable = bool_or_null (
            or_nullish (at "reachable")
              (or_nullish (at "diagnostics_reachable") (at "diagnosticsReachable")));
        last_diagnostics_status =
            text_or_empty (either (at "last_diagnostics_status") (at "lastDiagnosticsStatus")) 32;
        last_history_status = text_or_empty (latest_history_value node "status") 32;
      }

-- FORBIDDEN_PUBLIC_PATTERNS without regard to case: the words, with each spelling of a `[_-]?`.
-- "BEGIN [A-Z ]*PRIVATE KEY" matches nothing that "PRIVATE KEY" does not.
abbrev pub forbidden_words : List String
forbidden_words =
    "private key" ∷ "vorliq_snapshot_private_key" ∷ "server_ssh_key" ∷ "password" ∷ "admintoken"
    ∷ "admin_token" ∷ "admin-token" ∷ "privatekey" ∷ "private_key" ∷ "private-key" ∷ "rawip"
    ∷ "raw_ip" ∷ "raw-ip" ∷ "ip_address" ∷ "serverpath" ∷ "server_path" ∷ "server-path"
    ∷ "useragent" ∷ "user_agent" ∷ "user-agent" ∷ "/home/vorliq" ∷ "ssh-rsa" ∷ "ssh-ed25519" ∷ []

-- /[A-Za-z]:\\Users\\/i on lower-case codes
unfoldable pub has_user_folder : List ℕ → Bool
has_user_folder [] = false
has_user_folder (c ∷ cs) = (is_lower c && is_prefix (codes ":\\users\\") cs) || has_user_folder cs

abbrev is_token_code : ℕ → Bool
is_token_code c =
    is_lower c
    || is_digit c
    || c == b'.'
    || c == b'_'
    || c == b'~'
    || c == b'+'
    || c == b'/'
    || c == b'='
    || c == b'-'

-- `\s+[…]+` at the beginning; `seen` once a space has been read.
unfoldable spaces_then_token : Bool → List ℕ → Bool
spaces_then_token seen [] = false
spaces_then_token seen (c ∷ cs) =
    let rest = spaces_then_token true cs in if is_space c then rest else seen && is_token_code c

unfoldable has_bearer : List ℕ → Bool
unfolding spaces_then_token
has_bearer [] = false
has_bearer (c ∷ cs) =
    (is_prefix (codes "bearer") (c ∷ cs) && spaces_then_token false (drop 6 (c ∷ cs)))
    || has_bearer cs

abbrev marks : List ℕ → Bool
marks cs =
    any (λ word. holds_word (codes word) cs) forbidden_words || has_user_folder cs || has_bearer cs

-- `hasForbiddenPublicMarker`, of what JSON.stringify gives; `none` where it throws.
unfoldable pub has_forbidden_public_marker : Option String → Bool
unfolding has_bearer
has_forbidden_public_marker none = true
has_forbidden_public_marker (some text) = marks (lower_codes text)
