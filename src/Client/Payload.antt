-- ===== src/Client/Payload.antt =====
-- The fields of the payload that the page signs, as the gateway reads them.
use vorliq.Common.{
  String, Bool, false, ◌||◌, ◌≡◌, refl, none, some, List, ◌∷◌, arith, str_eq, eq_iff, ◌∙◌,
  Bool-cases, Option-cases, inl, inr,
}
use vorliq.Common.Text.{one_of}
use vorliq.Json.Defs.{Json, str, Fields, end, field, lookup, without_authorization}
use vorliq.Json.Canonical.{Row, canonical_json, canonical_rows}
use vorliq.Validation.Check.{set_field}
use vorliq.Auth.Signed.Routes.{override_fields}
use vorliq.Auth.Signed.Envelope.{has_override}
use vorliq.Client.Authority.{has_forbidden, forbidden_body_fields}

or_again : (a b : Bool) → (a || b) ≡ (a || (a || b))
or_again a b = ground arith

or_swap : (a b c : Bool) → (a || (b || c)) ≡ (b || (a || c))
or_swap a b c = ground arith

or_false : (a b : Bool) → (a || b) ≡ false → (a ≡ false) × (b ≡ false)
or_false a b h = (ground arith, ground arith)

pub has_override-set_field :
    (name : String) (value : Json) (fs : Fields)
    → has_override (set_field name value fs) ≡ (one_of override_fields name || has_override fs)
unfolding has_override set_field
has_override-set_field name value end = refl
has_override-set_field name value (field k v fs) = elim (Bool-cases (str_eq k name)) [
  | inl same ↦
      let e : k ≡ name = ground (arith, eq_iff k name) in
      rw (same, e) (or_again (one_of override_fields name) (has_override fs))
  | inr other ↦
      rw (other, has_override-set_field name value fs)
        (or_swap (one_of override_fields k) (one_of override_fields name) (has_override fs))
]

not_authorization :
    (k : String) → one_of forbidden_body_fields k ≡ false → str_eq k "authorization" ≡ false
not_authorization k h = ground (arith, eq_iff k "authorization", eq_iff "authorization" k)

lookup_skip :
    (k name : String) (v : Json) (fs : Fields)
    → str_eq k name ≡ false
    → lookup name (field k v fs) ≡ lookup name fs
unfolding lookup
lookup_skip k name v fs h = ground arith

pub lookup-has_forbidden :
    (fs : Fields) → has_forbidden fs ≡ false → lookup "authorization" fs ≡ none
lookup-has_forbidden end h = unfold lookup in refl
lookup-has_forbidden (field k v fs) h =
    let (key, rest) =
      or_false (one_of forbidden_body_fields k) (has_forbidden fs) (unfold has_forbidden in h) in
    lookup_skip k "authorization" v fs (not_authorization k key) ∙ lookup-has_forbidden fs rest

pub without_authorization_id :
    (fs : Fields) → lookup "authorization" fs ≡ none → without_authorization fs ≡ fs
unfolding lookup without_authorization
without_authorization_id end h = refl
without_authorization_id (field k v fs) h = ground (arith, without_authorization_id fs)

pub without_authorization-set_field :
    (value : Json) (fs : Fields)
    → lookup "authorization" fs ≡ none
    → without_authorization (set_field "authorization" value fs) ≡ fs
unfolding lookup set_field without_authorization
without_authorization-set_field value end h = refl
without_authorization-set_field value (field k v fs) h =
    ground (arith, without_authorization-set_field value fs)

-- A text in a field leaves the payload free of numbers that have no text.
canonical_row-set :
    (quote : String → String) (name s k : String) (v : Json) (fs : Fields) (rows more : List Row)
    → canonical_rows quote fs ≡ some rows
    → canonical_rows quote (set_field name (str s) fs) ≡ some more
    → {all : List Row} → canonical_rows quote (field k v fs) ≡ some all
    → (new : List Row) × (canonical_rows quote (set_field name (str s) (field k v fs)) ≡ some new)
unfolding canonical_json set_field
canonical_row-set quote name s k v fs rows more found made h = elim (Bool-cases (str_eq k name)) [
  | inl same ↦ ((k, quote s) ∷ rows, ground arith)
  | inr other ↦ elim (Option-cases (canonical_json quote v)) [
    | inl missing ↦ absurd (ground arith)
    | inr (text, e) ↦ ((k, text) ∷ more, ground arith)
  ]
]

canonical_row-tail :
    (quote : String → String) (k : String) (v : Json) (fs : Fields) {all : List Row}
    → canonical_rows quote (field k v fs) ≡ some all
    → (rows : List Row) × (canonical_rows quote fs ≡ some rows)
unfolding canonical_json
canonical_row-tail quote k v fs h = elim (Option-cases (canonical_json quote v)) [
  | inl missing ↦ absurd (ground arith)
  | inr (text, e) ↦ elim (Option-cases (canonical_rows quote fs)) [
    | inl none_there ↦ absurd (ground arith)
    | inr found ↦ found
  ]
]

pub canonical_rows-set_field :
    (quote : String → String) (name s : String) (fs : Fields) {rows : List Row}
    → canonical_rows quote fs ≡ some rows
    → (more : List Row) × (canonical_rows quote (set_field name (str s) fs) ≡ some more)
canonical_rows-set_field quote name s end h =
    unfold canonical_rows set_field canonical_json in (_, refl)
canonical_rows-set_field quote name s (field k v fs) h =
    let (rows, found) = canonical_row-tail quote k v fs h in
    let (more, made) = canonical_rows-set_field quote name s fs found in
    canonical_row-set quote name s k v fs rows more found made h
