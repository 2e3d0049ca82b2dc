-- ===== src/Validation/Secret.antt =====
-- SECRET_PATTERN of backend/middleware/validation.js and backend/communityReports.js, which looks for the
-- words of a secret anywhere in a text, whatever their case.
use vorliq.Common.{
  ℕ, Bool, true, false, ◌&&◌, ◌||◌, String, Option, none, some, List, [], ◌∷◌, ◌==◌, if◌then◌else◌,
}
use vorliq.Common.Text.{codes, lower_codes, is_space, is_digit, is_lower}

-- The rest of a text that begins with a word.
unfoldable pub after_word : List ℕ → List ℕ → Option (List ℕ)
after_word [] cs = some cs
after_word (w ∷ ws) [] = none
after_word (w ∷ ws) (c ∷ cs) = let rest = after_word ws cs in if w == c then rest else none

abbrev pub found : Option (List ℕ) → Bool
found none = false
found (some rest) = true

unfoldable pub begins : String → List ℕ → Bool
unfolding after_word
begins word cs = found (after_word (codes word) cs)

-- [A-Z ]*PRIVATE KEY
unfoldable pub has_private_key : List ℕ → Bool
unfolding begins
has_private_key [] = false
has_private_key (c ∷ cs) =
    begins "private key" (c ∷ cs) || (is_lower c || c == b' ') && has_private_key cs

-- [_ -]?word
unfoldable pub begins_apart : String → List ℕ → Bool
unfolding begins
begins_apart word [] = false
begins_apart word (c ∷ cs) =
    begins word (c ∷ cs) || (c == b'_' || c == b' ' || c == b'-') && begins word cs

-- [A-Za-z0-9._~+/=-]
abbrev pub is_token_code : ℕ → Bool
is_token_code c =
    is_lower c
    || is_digit c
    || c == b'.'
    || c == b'_'
    || c == b'~'
    || c == b'+'
    || c == b'/'
    || c == b'='
    || c == b'-'

-- \s*[A-Za-z0-9._~+/=-]
unfoldable pub token_follows : List ℕ → Bool
unfolding is_space
token_follows [] = false
token_follows (c ∷ cs) = is_token_code c || is_space c && token_follows cs

-- \s+[A-Za-z0-9._~+/=-]+
unfoldable pub bearer_follows : List ℕ → Bool
unfolding is_space token_follows
bearer_follows [] = false
bearer_follows (c ∷ cs) = is_space c && token_follows cs

abbrev pub after : String → List ℕ → (List ℕ → Bool) → Bool
after word cs test = elim (after_word (codes word) cs) [ none ↦ false | some rest ↦ test rest ]

-- The pattern, at the beginning of a lower-case text.
unfoldable pub secret_here : List ℕ → Bool
unfolding after_word begins has_private_key begins_apart bearer_follows
secret_here cs =
    after "begin " cs has_private_key
    || after "private" cs (begins_apart "key")
    || begins "password" cs
    || after "admin" cs (begins_apart "token")
    || after "bearer" cs bearer_follows
    || begins "ssh-rsa" cs
    || begins "ssh-ed25519" cs

unfoldable pub secret_in : List ℕ → Bool
unfolding secret_here
secret_in [] = false
secret_in (c ∷ cs) = secret_here (c ∷ cs) || secret_in cs

unfoldable pub has_secret : String → Bool
unfolding secret_in
has_secret s = secret_in (lower_codes s)
