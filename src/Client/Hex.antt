-- ===== src/Client/Hex.antt =====
-- Hexadecimal texts as the patterns of the gateway read them.
use vorliq.Common.{
  ℕ, ◌*◌, ◌/◌, ◌%◌, ◌<◌, String, Bool, true, false, ◌&&◌, ◌||◌, ◌≡◌, refl, List, [], ◌∷◌, arith,
  leb, length, All, map, length-append,
}
use vorliq.Common.Text.{codes, is_digit, is_space, all_codes, lower_code}
use vorliq.Common.Trim.{
  codes-join, all_codes-append, all_codes_mono, not_space, all_below, all_below_lem,
}
use vorliq.Auth.Signed.Envelope.{hash_pattern, nonce_pattern, is_nonce_code, signature_pattern}
use vorliq.Client.Browser.{hex_digit, hex_text}

-- A character class of `hash_pattern`.
abbrev pub is_hex : ℕ → Bool
is_hex c = leb b'a' c && leb c b'f' || is_digit c

abbrev is_any_hex : ℕ → Bool
is_any_hex c = leb b'a' c && leb c b'f' || leb b'A' c && leb c b'F' || is_digit c

abbrev one_hex : List ℕ → Bool
one_hex (c ∷ []) = is_hex c
one_hex cs = false

abbrev pub IsHex : List ℕ → Type 0
IsHex cs = all_codes is_hex cs ≡ true

hex_digit-one : (d : ℕ) → d < 16 → one_hex (codes (hex_digit d)) ≡ true
unfolding all_below hex_digit
hex_digit-one d lt = all_below_lem 16 (λ d. one_hex (codes (hex_digit d))) d refl lt

one_hex-eq : (cs : List ℕ) → one_hex cs ≡ true → (length cs ≡ 1) × IsHex cs
unfolding all_codes
one_hex-eq (c ∷ []) h = (refl, ground arith)
one_hex-eq [] h = absurd (ground arith)
one_hex-eq (c ∷ d ∷ cs) h = absurd (ground arith)

pub hex_text-IsHex :
    (bytes : List ℕ)
    → All (λ byte. byte < 256) bytes
    → IsHex (codes (hex_text bytes)) × (length (codes (hex_text bytes)) ≡ 2 * length bytes)
unfolding hex_text all_codes
hex_text-IsHex [] h = (refl, refl)
hex_text-IsHex (byte ∷ bytes) (lt, h) =
    let (n0, x0) =
      one_hex-eq (codes (hex_digit (byte / 16))) (hex_digit-one (byte / 16) (omega arith)) in
    let (n1, x1) =
      one_hex-eq (codes (hex_digit (byte % 16))) (hex_digit-one (byte % 16) (omega arith)) in
    let (x, n) = hex_text-IsHex bytes h in
    (
      rw (codes-join, codes-join, all_codes-append, all_codes-append, x0, x1, x) refl,
      rw (codes-join, codes-join, length-append, length-append, n0, n1, n) (omega arith),
    )

pub IsHex-lower : (xs : List ℕ) → IsHex xs → map lower_code xs ≡ xs
unfolding lower_code all_codes
IsHex-lower [] h = refl
IsHex-lower (x ∷ xs) h = ground (arith, IsHex-lower xs)

pub hash_pattern-hex :
    (bytes : List ℕ)
    → All (λ byte. byte < 256) bytes
    → length bytes ≡ 32
    → hash_pattern (codes (hex_text bytes)) ≡ true
unfolding hash_pattern
hash_pattern-hex bytes h n = let (x, m) = hex_text-IsHex bytes h in ground arith

-- Texts without spaces.
abbrev pub IsSolid : String → Type 0
IsSolid s = all_codes not_space (codes s) ≡ true

pub IsHex-IsSolid : (s : String) → IsHex (codes s) → IsSolid s
IsHex-IsSolid s =
    all_codes_mono {p = is_hex} {q = not_space} (λ c h. unfold is_space in ground arith) (codes s)

pub nonce_pattern-IsSolid : (s : String) → nonce_pattern s ≡ true → IsSolid s
unfolding nonce_pattern
nonce_pattern-IsSolid s h =
    all_codes_mono {p = is_nonce_code} {q = not_space}
      (λ c h. unfold is_space is_nonce_code in ground arith) (codes s) (ground arith)

signature_codes : (cs : List ℕ) → signature_pattern cs ≡ true → all_codes not_space cs ≡ true
unfolding signature_pattern
signature_codes [] h = absurd (ground arith)
signature_codes (c ∷ cs) h =
    all_codes_mono {p = is_any_hex} {q = not_space} (λ d h. unfold is_space in ground arith)
      (c ∷ cs) h

pub signature_pattern-IsSolid : (s : String) → signature_pattern (codes s) ≡ true → IsSolid s
signature_pattern-IsSolid s h = signature_codes (codes s) h
