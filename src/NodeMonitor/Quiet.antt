-- ===== src/NodeMonitor/Quiet.antt =====
-- The suppression of alerts of backend/nodeMonitor.js.
use vorliq.Common.{
  ℕ, ◌+◌, ◌*◌, ◌<◌, String, true, false, ◌≡◌, refl, Option, some, List, [], ◌∷◌, All, map, any,
  arith, str_eq, str_eq-eq, Bool-cases, inl, inr, ◌∙◌,
}
use mathlib.Core.Path.{subst}
use vorliq.NodeMonitor.AlertState.{
  Item, Entry, current_entry, recovered_entries, update_alert_state, is_due, should_send,
  mark_alerted,
}
use vorliq.NodeMonitor.Sent.{
  entry_key, IsClean, IsSent, has_key, AllSent, recovered_entries-IsSent, IsCleanItem,
  current_entries-IsSent, append-All, append-has_key, has_item, current_entries-has_key,
  recovered_entries-has_key,
}

update_alert_state-AllSent :
    (key : String) (time checked_at : ℕ) (entries : List Entry) (alerts : List Item)
    → AllSent key time entries
    → All IsCleanItem alerts
    → AllSent key time (update_alert_state entries alerts checked_at)
unfolding update_alert_state
update_alert_state-AllSent key time checked_at entries alerts s clean = record {
  all_sent =
      append-All (IsSent key time) (map (current_entry entries checked_at) alerts)
        (recovered_entries alerts checked_at entries)
        (current_entries-IsSent key time checked_at entries alerts s clean)
        (recovered_entries-IsSent key time checked_at alerts entries s.all_sent);
  there =
      append-has_key key (map (current_entry entries checked_at) alerts)
        (recovered_entries alerts checked_at entries)
      ∙ (rw (current_entries-has_key key checked_at entries alerts clean)
          (elim (Bool-cases (has_item key alerts)) [
            | inl now ↦ rw now refl
            | inr away ↦
                rw
                  (
                    away,
                    recovered_entries-has_key key time checked_at alerts entries s.all_sent s.there
                        away,
                  )
                  refl
          ]));
}

mark_other-IsSent :
    (key other : String) (time now : ℕ) (entries : List Entry)
    → str_eq other key ≡ false
    → All (IsSent key time) entries
    → All (IsSent key time) (mark_alerted entries other now)
unfolding mark_alerted
mark_other-IsSent key other time now [] differ all = tt
mark_other-IsSent key other time now (e ∷ entries) differ all =
    let rest = mark_other-IsSent key other time now entries differ all.1 in
    elim (Bool-cases (str_eq (entry_key e) other)) [
      | inl it ↦ rw it (
        record {
          clean = all.0.clean;
          sent = λ h. ground (arith, subst (λ k. str_eq k key ≡ true) (str_eq-eq _ _ it) h, differ);
        },
        rest,
      )
      | inr not_it ↦ rw not_it (all.0, rest)
    ]

mark-has_key :
    (key other : String) (now : ℕ) (entries : List Entry)
    → has_key key (mark_alerted entries other now) ≡ has_key key entries
unfolding mark_alerted
mark-has_key key other now [] = refl
mark-has_key key other now (e ∷ entries) = elim (Bool-cases (str_eq (entry_key e) other)) [
  | inl it ↦ rw (it, mark-has_key key other now entries) refl
  | inr not_it ↦ rw (not_it, mark-has_key key other now entries) refl
]

mark_own-IsSent :
    (key : String) (time : ℕ) (entries : List Entry)
    → All (λ (e : Entry). IsClean e.code e.node_url) entries
    → All (IsSent key time) (mark_alerted entries key time)
unfolding mark_alerted
mark_own-IsSent key time [] all = tt
mark_own-IsSent key time (e ∷ entries) all =
    let rest = mark_own-IsSent key time entries all.1 in
    elim (Bool-cases (str_eq (entry_key e) key)) [
      | inl it ↦ rw it (record { clean = all.0; sent = λ h. refl }, rest)
      | inr not_it ↦
          rw not_it (record { clean = all.0; sent = λ h. ground (arith, h, not_it) }, rest)
    ]

pub data Step : Type 0 where
  update : List Item → ℕ → Step
  mark : String → ℕ → Step

unfoldable pub run : List Entry → Step → List Entry
run entries (update alerts checked_at) = update_alert_state entries alerts checked_at
run entries (mark other now) = mark_alerted entries other now

unfoldable pub run_all : List Entry → List Step → List Entry
run_all entries [] = entries
run_all entries (s ∷ steps) = run_all (run entries s) steps

-- The alerts have texts that stay as they are once cleaned, and no other alert of the key is sent.
abbrev pub Spares : String → List Step → Type 0
Spares key [] = Unit {0}
Spares key (update alerts checked_at ∷ steps) = All IsCleanItem alerts × Spares key steps
Spares key (mark other now ∷ steps) = (str_eq other key ≡ false) × Spares key steps

run_all-AllSent :
    (key : String) (time : ℕ) (entries : List Entry) (steps : List Step)
    → Spares key steps
    → AllSent key time entries
    → AllSent key time (run_all entries steps)
unfolding run_all run
run_all-AllSent key time entries [] spares s = s
run_all-AllSent key time entries (update alerts checked_at ∷ steps) spares s =
    run_all-AllSent key time (update_alert_state entries alerts checked_at) steps spares.1
      (update_alert_state-AllSent key time checked_at entries alerts s spares.0)
run_all-AllSent key time entries (mark other now ∷ steps) spares s =
    run_all-AllSent key time (mark_alerted entries other now) steps spares.1 record {
      all_sent = mark_other-IsSent key other time now entries spares.0 s.all_sent;
      there = mark-has_key key other now entries ∙ s.there;
    }

is_due-early :
    (last : Option ℕ) (time now seconds : ℕ)
    → last ≡ some time
    → now < time + seconds * 1000
    → 0 < seconds
    → is_due last now seconds ≡ false
is_due-early last time now seconds h early positive = rw h (ground (arith, early, positive))

quiet :
    (key : String) (time now seconds threshold : ℕ) (entries : List Entry)
    → now < time + seconds * 1000
    → 0 < seconds
    → All (IsSent key time) entries
    → All
        (λ e. str_eq (entry_key e) key ≡ true → should_send e now seconds threshold ≡ false)
        entries
unfolding should_send
quiet key time now seconds threshold [] early positive all = tt
quiet key time now seconds threshold (e ∷ entries) early positive all = (
  λ h.
      rw (is_due-early e.last_alerted_at time now seconds (all.0.sent h) early positive)
        (ground arith),
  quiet key time now seconds threshold entries early positive all.1,
)

-- Once an alert that the state holds is marked as sent, it is not to be sent before the seconds of
-- suppression are over, whatever alerts come in and go away and whatever others are sent in between, if
-- the texts of the entries and of the alerts stay as they are once they are cleaned.
pub mark_alerted-should_send :
    (key : String) (time now seconds threshold : ℕ) (entries : List Entry) (steps : List Step)
    → All (λ (e : Entry). IsClean e.code e.node_url) entries
    → any (λ e. str_eq (entry_key e) key) entries ≡ true
    → Spares key steps
    → now < time + seconds * 1000
    → 0 < seconds
    → All
        (λ e. str_eq (entry_key e) key ≡ true → should_send e now seconds threshold ≡ false)
        (run_all (mark_alerted entries key time) steps)
mark_alerted-should_send key time now seconds threshold entries steps clean there spares early
      positive =
    let s = run_all-AllSent key time (mark_alerted entries key time) steps spares record {
      all_sent = mark_own-IsSent key time entries clean;
      there = mark-has_key key key time entries ∙ there;
    } in
    quiet key time now seconds threshold (run_all (mark_alerted entries key time) steps) early
      positive s.all_sent
