-- ===== src/Auth/Signed/Address.antt =====
-- `addressFromPublicKey`: what its addresses read back as, by a reader of base-58 texts of its own.
use Prim.Native.String.{slice}
use vorliq.Common.{
  ℕ, zero, suc, ◌+◌, ◌-◌, ◌*◌, ◌/◌, ◌%◌, ◌<◌, ◌≤◌, String, Bool, true, false, ◌==◌, ◌≡◌, refl, none,
  some, List, [], ◌∷◌, ◌++◌, arith, All, map, length, leb, ltb, if◌then◌else◌, sym, ap, ◌∙◌,
  Bool-cases, inl, inr,
}
use mathlib.Core.Path.{ap₂}
use vorliq.Common.Text.{codes}
use vorliq.Common.Trim.{codes-join, all_below, all_below_lem}
use vorliq.Auth.Base58.{number_from, digits, leading, base58_encode}
use vorliq.Auth.Base58.Value.{IsBytes, value_from, base58_value}
use vorliq.Auth.Signed.Crypto.{
  PublicKey, Runtime, base58_alphabet, base58_text, address_of_key, address_from_public_key,
}

-- The value of a letter of base 58: the digits from 1, then the upper-case letters without I and O, then
-- the lower-case letters without l.
abbrev pub letter_value : ℕ → ℕ
letter_value c =
    if leb c b'9'
    then c - b'1'
    else if leb c b'H'
    then c - b'A' + 9
    else if leb c b'N'
    then c - b'J' + 17
    else if leb c b'Z'
    then c - b'P' + 22
    else if leb c b'k'
    then c - b'a' + 33
    else c - b'm' + 44

-- The last bytes of a number, as many as asked for, the highest first.
unfoldable pub bytes_of : ℕ → ℕ → List ℕ → List ℕ
bytes_of zero n bytes = bytes
bytes_of (suc count) n bytes = bytes_of count (n / 256) ((n % 256) ∷ bytes)

unfoldable pub without_zeros : List ℕ → List ℕ
without_zeros [] = []
without_zeros (b ∷ bytes) = let rest = without_zeros bytes in if b == 0 then rest else b ∷ bytes

-- The zeros in front of a list.
unfoldable pub zeros : List ℕ → List ℕ
zeros [] = []
zeros (d ∷ ds) = let rest = zeros ds in if d == 0 then 0 ∷ rest else []

-- The bytes that a base-58 text of a hash of 20 bytes stands for: a zero byte for each 1 in front, then
-- the bytes of its number.
unfoldable pub read_digits : List ℕ → List ℕ
read_digits ds = zeros ds ++ without_zeros (bytes_of 20 (value_from 0 ds) [])

abbrev pub read_address : String → List ℕ
read_address address = read_digits (map letter_value (codes address))

abbrev is_letter : ℕ → List ℕ → Bool
is_letter d [] = false
is_letter d (c ∷ []) = letter_value c == d
is_letter d (c ∷ e ∷ cs) = false

is_letter-map : (d : ℕ) (cs : List ℕ) → is_letter d cs ≡ true → map letter_value cs ≡ d ∷ []
is_letter-map d [] h = absurd (ground arith)
is_letter-map d (c ∷ []) h = ap (λ v. v ∷ []) (ground arith)
is_letter-map d (c ∷ e ∷ cs) h = absurd (ground arith)

digit_letter : (d : ℕ) → d < 58 → is_letter d (codes (slice base58_alphabet d (d + 1))) ≡ true
unfolding all_below
digit_letter d lt =
    all_below_lem 58 (λ n. is_letter n (codes (slice base58_alphabet n (n + 1)))) d refl lt

map-append : (f : ℕ → ℕ) (xs ys : List ℕ) → map f (xs ++ ys) ≡ map f xs ++ map f ys
map-append f [] ys = refl
map-append f (x ∷ xs) ys = ap (λ zs. f x ∷ zs) (map-append f xs ys)

read-base58_text :
    (ds : List ℕ) → All (λ d. d < 58) ds → map letter_value (codes (base58_text ds)) ≡ ds
unfolding base58_text
read-base58_text [] h = refl
read-base58_text (d ∷ ds) (lt, h) =
    rw
      (
        codes-join,
        map-append,
        is_letter-map d (codes (slice base58_alphabet d (d + 1))) (digit_letter d lt),
        read-base58_text ds h,
      )
      refl

bytes_of-number_from :
    (count a : ℕ) (bytes more : List ℕ)
    → IsBytes bytes
    → bytes_of (length bytes + count) (number_from a bytes) more ≡ bytes_of count a (bytes ++ more)
unfolding number_from
bytes_of-number_from count a [] more h =
    let same : 0 + count ≡ count = omega arith in ap (λ k. bytes_of k a more) same
bytes_of-number_from count a (b ∷ bytes) more (lt, h) =
    let same : suc (length bytes) + count ≡ length bytes + suc count = omega arith in
    let high : (a * 256 + b) / 256 ≡ a = omega arith in
    let low : (a * 256 + b) % 256 ≡ b = omega arith in
    ap (λ k. bytes_of k (number_from (a * 256 + b) bytes) more) same
    ∙ bytes_of-number_from (suc count) (a * 256 + b) bytes more h
    ∙ (unfold bytes_of in ap₂ (λ n c. bytes_of count n (c ∷ (bytes ++ more))) high low)

-- A list of digits that begins with no zero.
abbrev starts_above : List ℕ → Bool
starts_above [] = true
starts_above (d ∷ ds) = ltb 0 d

starts_above-digits :
    (f n : ℕ) (encoded : List ℕ)
    → n ≤ f
    → (n ≡ 0 → starts_above encoded ≡ true)
    → starts_above (digits f n encoded) ≡ true
unfolding digits
starts_above-digits zero n encoded h low = low (omega arith)
starts_above-digits (suc f) n encoded h low = elim (Bool-cases (n == 0)) [
  | inl e ↦ rw e (low (ground arith))
  | inr e ↦
      rw e
        (starts_above-digits f (n / 58) ((n % 58) ∷ encoded) (ground arith) (λ small. ground arith))
]

zeros-starts_above : (ds : List ℕ) → starts_above ds ≡ true → zeros ds ≡ []
unfolding zeros
zeros-starts_above [] h = refl
zeros-starts_above (d ∷ ds) h = ground arith

zeros-leading :
    (bytes ds : List ℕ) → starts_above ds ≡ true → zeros (leading bytes ++ ds) ≡ leading bytes
unfolding zeros leading
zeros-leading [] ds h = unfold zeros in zeros-starts_above ds h
zeros-leading (b ∷ bytes) ds h = elim (Bool-cases (b == 0)) [
  | inl e ↦ rw e (ap (λ zs. 0 ∷ zs) (zeros-leading bytes ds h))
  | inr e ↦ rw e (zeros-starts_above ds h)
]

leading-without_zeros : (bytes : List ℕ) → leading bytes ++ without_zeros bytes ≡ bytes
unfolding leading without_zeros
leading-without_zeros [] = refl
leading-without_zeros (b ∷ bytes) = ground (arith, leading-without_zeros bytes)

read-base58_encode :
    (hash : List ℕ) → IsBytes hash → length hash ≡ 20 → read_digits (base58_encode hash) ≡ hash
unfolding read_digits
read-base58_encode hash h size =
    let n = number_from 0 hash in
    let first : zeros (base58_encode hash) ≡ leading hash =
      unfold base58_encode in
      zeros-leading hash (digits n n [])
        (starts_above-digits n n [] (omega arith) (λ none_left. refl)) in
    let count : length hash + 0 ≡ 20 = omega (arith, size) in
    let rest : bytes_of 20 n [] ≡ hash =
      ap (λ k. bytes_of k n []) (sym count)
      ∙ bytes_of-number_from 0 0 hash [] h
      ∙ (unfold bytes_of in append_nil hash) in
    ap₂ (λ front value. front ++ without_zeros (bytes_of 20 value [])) first (base58_value hash).0
    ∙ ap (λ bytes. leading hash ++ without_zeros bytes) rest
    ∙ leading-without_zeros hash
  where
    append_nil : (xs : List ℕ) → xs ++ [] ≡ xs
    append_nil [] = refl
    append_nil (x ∷ xs) = ap (λ ys. x ∷ ys) (append_nil xs)

address-made :
    (run : Runtime) (pem : String) (key : PublicKey)
    → run.create_public_key pem ≡ some key
    → address_from_public_key run pem ≡ address_of_key run key
unfolding address_from_public_key
address-made run pem key made =
    ap (λ k. elim k [ none ↦ none | some found ↦ address_of_key run found ]) made

-- Where ripemd160 gives 20 bytes, an address is that of a key on secp256k1, and reads back by the letters
-- of base 58 as ripemd160 of sha256 of 4 and the two coordinates of the key, zero bytes in front of the
-- hash included.
pub address_from_public_key-read :
    (run : Runtime)
    → ((bytes : List ℕ) → IsBytes (run.ripemd160 bytes) × (length (run.ripemd160 bytes) ≡ 20))
    → (pem : String) (key : PublicKey) (address : String) → run.create_public_key pem ≡ some key
    → address_from_public_key run pem ≡ some address
    → (key.is_secp256k1 ≡ true)
      × (read_address address ≡ run.ripemd160 (run.sha256 (4 ∷ key.x ++ key.y)))
unfolding address_of_key
address_from_public_key-read run sizes pem key address made h =
    let hash = run.ripemd160 (run.sha256 (4 ∷ key.x ++ key.y)) in
    let of_key : address_of_key run key ≡ some address = sym (address-made run pem key made) ∙ h in
    elim (Bool-cases key.is_secp256k1) [
      | inl curve ↦
          let text : base58_text (base58_encode hash) ≡ address = ground (arith, of_key) in
          (
            curve,
            ap read_address (sym text)
                ∙ ap read_digits (read-base58_text (base58_encode hash) (base58_value hash).1)
                ∙ read-base58_encode hash (sizes _).0 (sizes _).1,
          )
      | inr other ↦ absurd (ground (arith, of_key))
    ]
