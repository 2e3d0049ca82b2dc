-- ===== src/Validation/FieldLaws.antt =====
-- What a passed check says of the value and of the body that it leaves.
use vorliq.Common.{
  ℕ, ◌≤◌, String, Bool, true, false, not, ◌≡◌, refl, Option, none, some, List, [], ◌∷◌, arith,
  str_eq, eq_iff, if◌then◌else◌, Bool-cases, Option-cases, inl, inr, ap, sym, ◌∙◌,
}
use vorliq.Common.Text.{size, codes, one_of}
use vorliq.Json.Defs.{Json, str, Fields, end, field, lookup}
use vorliq.Address.{validate_address, normalize_address, is_reserved_address}
use vorliq.Address.Laws.{address-normal}
use vorliq.Validation.Check.{
  Env, Problem, not_in_list, Checked, passed, rejected, Check, and_then, reject_if, set_field, get,
  is_given,
}
use vorliq.Validation.Field.{
  require_text, find_word, accept_word, require_enum, validate_public_wallet, is_system_controlled,
  all_hex, validate_signature, reject_supplied, accept_number, require_number,
}

pub lookup-set_field :
    (name other : String) (value : Json) (body : Fields)
    → lookup other (set_field name value body)
      ≡ (if str_eq name other then some value else lookup other body)
unfolding lookup set_field
lookup-set_field name other value end = refl
lookup-set_field name other value (field k v rest) = ground (
  arith,
  eq_iff k name,
  eq_iff k other,
  eq_iff name other,
  lookup-set_field name other value rest,
)

pub passed-out : {x y : Fields} → ◌≡◌ {A = Checked (Unit {0})} (passed tt x) (passed tt y) → x ≡ y
passed-out h = cc

pub passed-parts :
    {A : Type 0} {a b : A} {x y : Fields} → passed a x ≡ passed b y → (a ≡ b) × (x ≡ y)
passed-parts h = (cc, cc)

-- The parts of a passed sequence.
pub and_then-passed :
    {A B : Type 0} (r : Checked A) (next : A → Check B) {b : B} {out : Fields}
    → and_then r next ≡ passed b out
    → (a : A) × (mid : Fields) × (r ≡ passed a mid) × (next a mid ≡ passed b out)
and_then-passed (passed a mid) next h = (a, mid, refl, h)
and_then-passed (rejected p) next h = cc

-- The same with what follows from them, so that the parts are variables there.
pub and_then-elim {ℓ} :
    {A B : Type 0} {C : Type ℓ} (r : Checked A) (next : A → Check B) {b : B} {out : Fields}
    → and_then r next ≡ passed b out
    → ((a : A) (mid : Fields) → r ≡ passed a mid → next a mid ≡ passed b out → C)
    → C
and_then-elim r next h use_parts =
    let (a, mid, p, q) = and_then-passed r next h in use_parts a mid p q

pub reject_if-passed :
    (test : Bool) (p : Problem) (body : Fields) {out : Fields}
    → reject_if test p body ≡ passed tt out
    → (test ≡ false) × (body ≡ out)
reject_if-passed true p body h = ground arith
reject_if-passed false p body h = (refl, ground arith)

pub reject_then-passed :
    {B : Type 0} (test : Bool) (p : Problem) (rest : Check B) (body : Fields) {b : B} {out : Fields}
    → and_then (reject_if test p body) (λ checked. rest) ≡ passed b out
    → (test ≡ false) × (rest body ≡ passed b out)
reject_then-passed true p rest body h = cc
reject_then-passed false p rest body h = (refl, h)

-- A passed text: not blank, not too long, and all that changed in the body.
pub record IsText (name : String) (max : ℕ) (body : Fields) (value : String) (out : Fields)
    : Type 0 where
  pub not_blank : str_eq value "" ≡ false
  pub short : size value ≤ max
  pub put : out ≡ set_field name (str value) body

pub require_text-IsText :
    (name : String) (others : List String) (label : String) (max : ℕ) (body : Fields)
    (value : String) (out : Fields)
    → require_text name others label max body ≡ passed value out
    → IsText name max body value out
unfolding require_text
require_text-IsText name others label max body value out h = ground arith

-- A passed wallet address.
pub record IsAddress (allow_reserved : Bool) (name : String) (body : Fields) (value : String)
    (out : Fields) : Type 0 where
  pub given : String
  pub is_normal : value ≡ normalize_address given
  pub valid : (validate_address allow_reserved true given).valid ≡ true
  pub put : out ≡ set_field name (str value) (set_field name (str given) body)

pub public_wallet-IsAddress :
    (allow_reserved : Bool) (name : String) (others : List String) (label : String) (body : Fields)
    (value : String) (out : Fields)
    → validate_public_wallet allow_reserved name others label body ≡ passed value out
    → IsAddress allow_reserved name body value out
unfolding validate_public_wallet
public_wallet-IsAddress allow_reserved name others label body value out h =
    let (first, mid, p, q) = and_then-passed (require_text name others label 96 body) _ h in
    let t = require_text-IsText name others label 96 body first mid p in
    let v = validate_address allow_reserved true first in
    let (valid, last) =
      reject_then-passed (not v.valid) _ (λ b. passed v.address (set_field name (str v.address) b))
        mid q in
    let normal = address-normal allow_reserved true first in
    record {
      given = first;
      is_normal = ground (arith, normal);
      valid = ground arith;
      put = ground (arith, t.put, normal);
    }

pub system_controlled-reserved :
    (s : String) → is_system_controlled s ≡ false → is_reserved_address s ≡ false
unfolding is_system_controlled
system_controlled-reserved s h = ground arith

pub signature-IsText :
    (name : String) (others : List String) (label : String) (body : Fields) (value : String)
    (out : Fields)
    → validate_signature name others label body ≡ passed value out
    → IsText name 512 body value out × (all_hex (codes value) ≡ true)
unfolding validate_signature
signature-IsText name others label body value out h =
    let (first, mid, p, q) = and_then-passed (require_text name others label 512 body) _ h in
    let t = require_text-IsText name others label 512 body first mid p in
    let (hex, last) =
      reject_then-passed (not (all_hex (codes first))) _ (λ b. passed first b) mid q in
    let same : first ≡ value = ground arith in
    let left : mid ≡ out = ground arith in rw (← same, ← left) (t, ground arith)

-- A passed enumeration: the value is a word of the list.
pub find_word-one_of :
    (words : List String) (value word : String)
    → find_word words value ≡ some word
    → one_of words word ≡ true
unfolding find_word
find_word-one_of [] value word h = ground arith
find_word-one_of (w ∷ words) value word h =
    ground (arith, find_word-one_of words value word, eq_iff w word)

pub record IsWord (name : String) (allowed : List String) (body : Fields) (value : String)
    (out : Fields) : Type 0 where
  pub given : String
  pub listed : one_of allowed value ≡ true
  pub put : out ≡ set_field name (str value) (set_field name (str given) body)

pub enum-IsWord :
    (name : String) (others : List String) (label : String) (allowed : List String) (body : Fields)
    (value : String) (out : Fields)
    → require_enum name others label allowed body ≡ passed value out
    → IsWord name allowed body value out
unfolding require_enum
enum-IsWord name others label allowed body value out h =
    let (first, mid, p, q) = and_then-passed (require_text name others label 80 body) _ h in
    let t = require_text-IsText name others label 80 body first mid p in
    elim (Option-cases (find_word allowed first)) [
      | inl nothing ↦
          let no : rejected (not_in_list label) ≡ passed value out =
            ap (λ o. accept_word name label o mid) (sym nothing) ∙ q in
          cc
      | inr (word, here) ↦
          let yes_word : passed word (set_field name (str word) mid) ≡ passed value out =
            ap (λ o. accept_word name label o mid) (sym here) ∙ q in
          record {
            given = first;
            listed = ground (arith, find_word-one_of allowed first word here);
            put = ground (arith, t.put);
          }
    ]

module _ (env : Env) where
  open env use {Number, number_json, of_nat, less}

  -- A passed number lies above 0 and not above the limit.
  pub record IsAmount (name : String) (max : ℕ) (body : Fields) (value : Number) (out : Fields)
      : Type 0 where
    pub positive : less (of_nat 0) value ≡ true
    pub bounded : less (of_nat max) value ≡ false
    pub put : out ≡ set_field name (number_json value) body

  accept_number-IsAmount :
      (name label : String) (max : ℕ) (n : Option Number) (body : Fields) (value : Number)
      (out : Fields)
      → accept_number env name label max n body ≡ passed value out
      → IsAmount name max body value out
  accept_number-IsAmount name label max none body value out h = cc
  accept_number-IsAmount name label max (some n) body value out h =
      elim (Bool-cases (less (of_nat 0) n)) [
        | inl above ↦ elim (Bool-cases (less (of_nat max) n)) [
          | inl over ↦ ground arith
          | inr within ↦ record {
            positive = ground arith;
            bounded = ground arith;
            put = ground arith;
          }
        ]
        | inr low ↦ ground arith
      ]

  pub number-IsAmount :
      (name : String) (others : List String) (label : String) (max : ℕ) (body : Fields)
      (value : Number) (out : Fields)
      → require_number env name others label max body ≡ passed value out
      → IsAmount name max body value out
  unfolding require_number
  number-IsAmount name others label max body value out h =
      accept_number-IsAmount name label max (env.to_number (get body (name ∷ others))) body value
        out h

pub supplied-passed :
    (names : List String) (message : String) (body out : Fields)
    → reject_supplied names message body ≡ passed tt out
    → (is_given (get body names) ≡ false) × (body ≡ out)
unfolding reject_supplied
supplied-passed names message body out h = reject_if-passed (is_given (get body names)) _ body h
