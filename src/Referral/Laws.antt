-- ===== src/Referral/Laws.antt =====
-- A referral is never reassigned, and its bonus is paid once.
use vorliq.Common.{
  ℕ, ◌+◌, String, Bool, true, false, not, ◌≡◌, Option, none, some, List, [], ◌∷◌, arith, str_eq,
  sym, if◌then◌else◌, ap, ◌∙◌, Bool-cases, Option-cases, inl, inr, str_eq-eq,
}
use vorliq.Common.Text.{trim}
use vorliq.Common.Dict
use vorliq.Common.Dict.{get-put}
use vorliq.Referral.{
  Referral, Referrals, Outcome, done, refused, referrer_of, get_referrer, record_new,
  fresh_referral, record_referral, with_bonus, pay_entry, mark_bonus_paid, paid_of, is_bonus_paid,
}

-- A request to the store: an invitation, or the payment of a bonus, with its time.
pub data Op : Type 0 where
  refer : String → String → ℕ → Op
  pay : String → String → ℕ → Op

unfoldable pub run : Referrals → Op → Referrals × Outcome
run store (refer member ref now) = record_referral store member ref now
run store (pay member tx_id now) = mark_bonus_paid store member tx_id now

unfoldable pub run_all : Referrals → List Op → Referrals
run_all store [] = store
run_all store (o ∷ ops) = run_all (run store o).0 ops

-- The bonus of `member` was paid by this operation.
abbrev pub is_done : Outcome → ℕ
is_done (done r) = 1
is_done (refused why r) = 0

unfoldable pub pays : String → Op → Outcome → ℕ
pays key (refer member ref now) out = 0
pays key (pay member tx_id now) out = if str_eq (trim member) key then is_done out else 0

unfoldable pub payments : String → Referrals → List Op → ℕ
payments key store [] = 0
payments key store (o ∷ ops) = pays key o (run store o).1 + payments key (run store o).0 ops

referrer-refer :
    (store : Referrals) (member ref : String) (now : ℕ) (key r : String)
    → referrer_of (Dict.get store key) ≡ some r
    → referrer_of (Dict.get (record_referral store member ref now).0 key) ≡ some r
unfolding record_referral record_new
referrer-refer store member ref now key r held =
    elim (Option-cases (referrer_of (Dict.get store (trim member)))) [
      | inl free ↦ elim (Bool-cases (str_eq (trim member) key)) [
        | inl same ↦
            let taken : referrer_of (Dict.get store (trim member)) ≡ some r =
              rw (str_eq-eq (trim member) key same) held in
            ground arith
        | inr other ↦
            ground (arith, get-put store (trim member) key (fresh_referral (trim ref) now))
      ]
      | inr (x, found) ↦ ground (arith, found)
    ]

referrer-pay :
    (store : Referrals) (member tx_id : String) (now : ℕ) (key r : String)
    → referrer_of (Dict.get store key) ≡ some r
    → referrer_of (Dict.get (mark_bonus_paid store member tx_id now).0 key) ≡ some r
unfolding mark_bonus_paid pay_entry
referrer-pay store member tx_id now key r held =
    elim (Option-cases (Dict.get store (trim member))) [
      | inl free ↦ rw free (ground arith)
      | inr (e, found) ↦ elim (Bool-cases (str_eq (trim member) key)) [
        | inl same ↦
            let kept : referrer_of (some e) ≡ some r =
              ap referrer_of (sym found)
              ∙ ap (λ k. referrer_of (Dict.get store k)) (str_eq-eq (trim member) key same)
              ∙ held in
            ground (arith, found, get-put store (trim member) key (with_bonus e tx_id now))
        | inr other ↦
            ground (arith, found, get-put store (trim member) key (with_bonus e tx_id now))
      ]
    ]

pub referrer-run :
    (store : Referrals) (o : Op) (key r : String)
    → referrer_of (Dict.get store key) ≡ some r
    → referrer_of (Dict.get (run store o).0 key) ≡ some r
unfolding run
referrer-run store (refer member ref now) key r held =
    referrer-refer store member ref now key r held
referrer-run store (pay member tx_id now) key r held =
    referrer-pay store member tx_id now key r held

referrer-run_all :
    (ops : List Op) (store : Referrals) (key r : String)
    → referrer_of (Dict.get store key) ≡ some r
    → referrer_of (Dict.get (run_all store ops) key) ≡ some r
unfolding run_all
referrer-run_all [] store key r held = held
referrer-run_all (o ∷ ops) store key r held =
    referrer-run_all ops (run store o).0 key r (referrer-run store o key r held)

-- The referrer of a member stays what it is, whatever invitations and payments follow.
referrer_stays :
    (store : Referrals) (ops : List Op) (member r : String)
    → get_referrer store member ≡ some r
    → get_referrer (run_all store ops) member ≡ some r
unfolding get_referrer
referrer_stays store ops member r held = elim (Bool-cases (str_eq (trim member) "")) [
  | inl blank ↦ ground arith
  | inr named ↦
      let here : referrer_of (Dict.get store (trim member)) ≡ some r = ground arith in
      ground (arith, referrer-run_all ops store (trim member) r here)
]

abbrev pub flag : Bool → ℕ
flag true = 1
flag false = 0

abbrev paid_at : Referrals → String → ℕ
paid_at store key = flag (paid_of (Dict.get store key))

-- A record, if there is one, has a referrer.
abbrev pub is_named : Option Referral → Bool
is_named none = true
is_named (some e) = not (str_eq e.referrer "")

refer-pays :
    (store : Referrals) (member ref : String) (now : ℕ) (key : String)
    → is_named (Dict.get store key) ≡ true
    → (paid_of (Dict.get (record_referral store member ref now).0 key)
        ≡ paid_of (Dict.get store key))
      × (is_named (Dict.get (record_referral store member ref now).0 key) ≡ true)
unfolding record_referral record_new
refer-pays store member ref now key named = elim (Option-cases (Dict.get store (trim member))) [
  | inl free ↦ elim (Bool-cases (str_eq (trim member) key)) [
    | inl same ↦
        let here : Dict.get store key ≡ none =
          ap (λ k. Dict.get store k) (sym (str_eq-eq (trim member) key same)) ∙ free in
        ground (arith, free, here, get-put store (trim member) key (fresh_referral (trim ref) now))
    | inr other ↦
        ground (arith, free, get-put store (trim member) key (fresh_referral (trim ref) now))
  ]
  | inr (e, found) ↦ elim (Bool-cases (str_eq (trim member) key)) [
    | inl same ↦
        let here : Dict.get store key ≡ some e =
          ap (λ k. Dict.get store k) (sym (str_eq-eq (trim member) key same)) ∙ found in
        let full : not (str_eq e.referrer "") ≡ true = ap is_named (sym here) ∙ named in
        ground (arith, found, here)
    | inr other ↦
        ground (arith, found, get-put store (trim member) key (fresh_referral (trim ref) now))
  ]
]

pay-pays :
    (store : Referrals) (member tx_id : String) (now : ℕ) (key : String)
    → pays key (pay member tx_id now) (mark_bonus_paid store member tx_id now).1 + paid_at store key
      ≡ paid_at (mark_bonus_paid store member tx_id now).0 key
unfolding mark_bonus_paid pay_entry pays
pay-pays store member tx_id now key = elim (Option-cases (Dict.get store (trim member))) [
  | inl free ↦ rw free (ground arith)
  | inr (e, found) ↦ elim (Bool-cases (str_eq (trim member) key)) [
    | inl same ↦
        let here : Dict.get store key ≡ some e =
          ap (λ k. Dict.get store k) (sym (str_eq-eq (trim member) key same)) ∙ found in
        ground (arith, found, here, get-put store (trim member) key (with_bonus e tx_id now))
    | inr other ↦ ground (arith, found, get-put store (trim member) key (with_bonus e tx_id now))
  ]
]

pay-named :
    (store : Referrals) (member tx_id : String) (now : ℕ) (key : String)
    → is_named (Dict.get store key) ≡ true
    → is_named (Dict.get (mark_bonus_paid store member tx_id now).0 key) ≡ true
unfolding mark_bonus_paid pay_entry
pay-named store member tx_id now key named = elim (Option-cases (Dict.get store (trim member))) [
  | inl free ↦ rw free (ground arith)
  | inr (e, found) ↦ ground (arith, found, get-put store (trim member) key (with_bonus e tx_id now))
]

named-run :
    (store : Referrals) (o : Op) (key : String)
    → is_named (Dict.get store key) ≡ true
    → is_named (Dict.get (run store o).0 key) ≡ true
unfolding run
named-run store (refer member ref now) key named = (refer-pays store member ref now key named).1
named-run store (pay member tx_id now) key named = pay-named store member tx_id now key named

pays-run :
    (store : Referrals) (o : Op) (key : String)
    → is_named (Dict.get store key) ≡ true
    → pays key o (run store o).1 + paid_at store key ≡ paid_at (run store o).0 key
unfolding run pays
pays-run store (refer member ref now) key named =
    omega (arith, ap flag (refer-pays store member ref now key named).0)
pays-run store (pay member tx_id now) key named = pay-pays store member tx_id now key

payments_flag :
    (ops : List Op) (store : Referrals) (key : String)
    → is_named (Dict.get store key) ≡ true
    → payments key store ops + paid_at store key ≡ paid_at (run_all store ops) key
unfolding payments run_all
payments_flag [] store key named = omega arith
payments_flag (o ∷ ops) store key named = omega (
  arith,
  pays-run store o key named,
  payments_flag ops (run store o).0 key (named-run store o key named),
)

-- Whatever invitations and payments are made from a store, the payments that are done for a member,
-- with one more if its bonus was paid before, are as many as its bonus shows: one if it is paid,
-- none if it is not. A record of the member in the store must name a referrer.
pub paid_once :
    (store : Referrals) (ops : List Op) (member : String)
    → is_named (Dict.get store (trim member)) ≡ true
    → payments (trim member) store ops + flag (is_bonus_paid store member)
      ≡ flag (is_bonus_paid (run_all store ops) member)
unfolding is_bonus_paid
paid_once store ops member named = payments_flag ops store (trim member) named
