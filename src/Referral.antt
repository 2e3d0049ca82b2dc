-- ===== src/Referral.antt =====
-- backend/referralStore.js: who invited whom, and the bonus paid for it. An operation takes the
-- records of the store file and returns the new ones; times are milliseconds, where the code writes
-- them as ISO texts.
pub mod Laws
mod Tests
use vorliq.Common.{
  ℕ, ◌+◌, ◌*◌, String, Bool, true, false, not, ◌&&◌, ◌||◌, Option, none, some, List, [], ◌∷◌,
  str_eq, if◌then◌else◌, filter, length,
}
use vorliq.Common.Text.{trim}
use vorliq.Common.Dict
use vorliq.Common.Dict.{Dict}

pub record Referral : Type 0 where
  pub referrer : String
  pub recorded_at : ℕ
  pub bonus_paid_at : Option ℕ
  pub bonus_tx_id : Option String

abbrev pub Referrals : Type 0
Referrals = Dict Referral

pub data Reason : Type 0 where
  missing_address : Reason
  self_referral : Reason
  already_recorded : Reason
  no_referrer : Reason
  already_paid : Reason

-- `done` is `recorded: true` or `paid: true` with the referrer; the referrer that goes with a
-- refusal is null or absent where it is `none`.
pub data Outcome : Type 0 where
  done : String → Outcome
  refused : Reason → Option String → Outcome

abbrev pub is_paid : Option ℕ → Bool
is_paid none = false
is_paid (some at) = true

-- `entry && entry.referrer ? entry.referrer : null`
abbrev pub referrer_of : Option Referral → Option String
referrer_of none = none
referrer_of (some e) = if str_eq e.referrer "" then none else some e.referrer

unfoldable pub get_referrer : Referrals → String → Option String
get_referrer store address =
    if str_eq (trim address) "" then none else referrer_of (Dict.get store (trim address))

abbrev pub fresh_referral : String → ℕ → Referral
fresh_referral invited_by now = record {
  referrer = invited_by;
  recorded_at = now;
  bonus_paid_at = none;
  bonus_tx_id = none;
}

-- What `recordReferral` does once both addresses are trimmed and checked.
unfoldable pub record_new : Referrals → String → String → ℕ → Option String → Referrals × Outcome
record_new store member ref now (some existing) = (store, refused already_recorded (some existing))
record_new store member ref now none = (Dict.put store member (fresh_referral ref now), done ref)

unfoldable pub record_referral : Referrals → String → String → ℕ → Referrals × Outcome
record_referral store new_member invited_by now =
    let member = trim new_member in
    let ref = trim invited_by in
    if str_eq member "" || str_eq ref ""
    then (store, refused missing_address none)
    else if str_eq member ref
    then (store, refused self_referral none)
    else record_new store member ref now (referrer_of (Dict.get store member))

abbrev pub referral_bonus : ℕ
referral_bonus = 5

-- `entry.bonus_paid_at = …; entry.bonus_tx_id = String(txId || "") || null`
abbrev pub with_bonus : Referral → String → ℕ → Referral
with_bonus e tx_id now = record {
  referrer = e.referrer;
  recorded_at = e.recorded_at;
  bonus_paid_at = some now;
  bonus_tx_id = if str_eq tx_id "" then none else some tx_id;
}

unfoldable pub pay_entry : Referrals → String → String → ℕ → Option Referral → Referrals × Outcome
pay_entry store key tx_id now none = (store, refused no_referrer none)
pay_entry store key tx_id now (some e) =
    if str_eq e.referrer ""
    then (store, refused no_referrer none)
    else if str_eq e.referrer key
    then (store, refused self_referral none)
    else if is_paid e.bonus_paid_at
    then (store, refused already_paid (some e.referrer))
    else (Dict.put store key (with_bonus e tx_id now), done e.referrer)

unfoldable pub mark_bonus_paid : Referrals → String → String → ℕ → Referrals × Outcome
mark_bonus_paid store member tx_id now =
    let key = trim member in
    if str_eq key ""
    then (store, refused missing_address none)
    else pay_entry store key tx_id now (Dict.get store key)

abbrev pub paid_of : Option Referral → Bool
paid_of none = false
paid_of (some e) = is_paid e.bonus_paid_at

unfoldable pub is_bonus_paid : Referrals → String → Bool
is_bonus_paid store member = paid_of (Dict.get store (trim member))

pub record Earnings : Type 0 where
  pub total_vlq : ℕ
  pub paid_count : ℕ
  pub pending_count : ℕ
  pub bonus_per_referral : ℕ

unfoldable pub referral_earnings : Referrals → String → Earnings
referral_earnings store address =
    let invited =
      filter (λ (p : String × Referral). str_eq p.1.referrer (trim address)) store.entries in
    let paid = length (filter (λ (p : String × Referral). is_paid p.1.bonus_paid_at) invited) in
    let pending =
      length (filter (λ (p : String × Referral). not (is_paid p.1.bonus_paid_at)) invited) in
    record {
      total_vlq = paid * referral_bonus;
      paid_count = paid;
      pending_count = pending;
      bonus_per_referral = referral_bonus;
    }
