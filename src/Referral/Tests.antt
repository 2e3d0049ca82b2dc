-- ===== src/Referral/Tests.antt =====
-- Runs of the referral store at concrete requests.
use vorliq.Common.{◌+◌, true, ◌≡◌, refl, none, some, List, [], ◌∷◌}
use vorliq.Common.Text.{trim}
use vorliq.Common.Dict
use vorliq.Referral.{
  Referrals, get_referrer, record_referral, mark_bonus_paid, is_bonus_paid, referral_earnings,
  record_new, pay_entry,
}
use vorliq.Referral.Laws.{Op, refer, pay, run, run_all, payments, flag, is_named, paid_once}

abbrev invited : Referrals
invited =
    Dict.put Dict.empty "ann"
      (record { referrer = "bob"; recorded_at = 1000; bonus_paid_at = none; bonus_tx_id = none })

abbrev requests : List Op
requests = refer " ann " "eve" 2000 ∷ pay "ann" "tx1" 3000 ∷ pay "ann" "tx2" 4000 ∷ []

invited_by_bob : get_referrer invited "ann" ≡ some "bob"
unfolding get_referrer Dict.get Dict.put Dict.empty Dict.Assoc.assign Dict.Assoc.lookup trim
invited_by_bob = refl

invited-is_named : is_named (Dict.get invited (trim "ann")) ≡ true
unfolding Dict.get Dict.put Dict.empty Dict.Assoc.assign Dict.Assoc.lookup trim
invited-is_named = refl

paid_once_example :
    payments (trim "ann") invited requests + flag (is_bonus_paid invited "ann")
    ≡ flag (is_bonus_paid (run_all invited requests) "ann")
paid_once_example = paid_once invited requests "ann" invited-is_named

earned_once :
    referral_earnings (run_all invited requests) "bob"
    ≡ record { total_vlq = 5; paid_count = 1; pending_count = 0; bonus_per_referral = 5 }
unfolding referral_earnings run_all run record_referral mark_bonus_paid record_new pay_entry
    Dict.get Dict.put Dict.empty Dict.Assoc.assign Dict.Assoc.lookup trim
earned_once = refl
