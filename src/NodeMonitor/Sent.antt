-- ===== src/NodeMonitor/Sent.antt =====
-- The entries of an alert that was sent, in the next state.
use vorliq.Common.{
  ℕ, String, Bool, true, false, ◌||◌, ◌≡◌, refl, Option, none, some, List, [], ◌∷◌, ◌++◌, All, map,
  any, arith, str_eq, str_eq-eq, Bool-cases, inl, inr, ap, sym, ◌∙◌,
}
use mathlib.Core.Path.{subst}
use mathlib.Core.Option.{some-injective}
use vorliq.NodeLifecycle.{text}
use vorliq.NodeMonitor.AlertState.{
  Item, Entry, alert_key, previous_of, seen_again, current_entry, recovered, is_current,
  recovered_entries,
}

abbrev pub entry_key : Entry → String
entry_key e = alert_key e.code e.node_url

abbrev pub item_key : Item → String
item_key a = alert_key a.code a.node_url

-- Its texts stay as they are when they are cleaned again.
pub record IsClean (code node_url : String) : Type 0 where
  pub clean_code : text code 80 ≡ code
  pub clean_url : text node_url 240 ≡ node_url

-- The entry is clean, and was sent at a time if it has the key.
pub record IsSent (key : String) (time : ℕ) (e : Entry) : Type 0 where
  pub clean : IsClean e.code e.node_url
  pub sent : str_eq (entry_key e) key ≡ true → e.last_alerted_at ≡ some time

abbrev pub has_key : String → List Entry → Bool
has_key key = any (λ e. str_eq (entry_key e) key)

pub record AllSent (key : String) (time : ℕ) (entries : List Entry) : Type 0 where
  pub all_sent : All (IsSent key time) entries
  pub there : has_key key entries ≡ true

previous_of-none :
    (key : String) (entries : List Entry)
    → has_key key entries ≡ false
    → previous_of entries key ≡ none
unfolding previous_of
previous_of-none key [] has = refl
previous_of-none key (e ∷ entries) has =
    let no_more : has_key key entries ≡ false = ground (arith, has) in
    let other : str_eq (entry_key e) key ≡ false = ground (arith, has) in
    rw (previous_of-none key entries no_more, other) refl

previous_of-IsSent :
    (key : String) (time : ℕ) (entries : List Entry)
    → All (IsSent key time) entries
    → has_key key entries ≡ true
    → (e : Entry) × ((previous_of entries key ≡ some e) × (e.last_alerted_at ≡ some time))
unfolding previous_of
previous_of-IsSent key time [] all has = ground arith
previous_of-IsSent key time (e ∷ entries) all has = elim (Bool-cases (has_key key entries)) [
  | inl more ↦
      let (f, (found, at)) = previous_of-IsSent key time entries all.1 more in
      (f, (rw found refl, at))
  | inr no_more ↦
      let here : str_eq (entry_key e) key ≡ true = ground (arith, has, no_more) in
      (e, (rw (previous_of-none key entries no_more, here) refl, all.0.sent here))
]

cleaned_key :
    (code node_url : String)
    → IsClean (text code 80) (text node_url 240)
    → alert_key (text code 80) (text node_url 240) ≡ alert_key code node_url
unfolding alert_key
cleaned_key code node_url c = rw (c.clean_code, c.clean_url) refl

recovered-IsSent :
    (key : String) (time checked_at : ℕ) (e : Entry)
    → IsSent key time e
    → IsSent key time (recovered checked_at e)
recovered-IsSent key time checked_at e s =
    rw (s.clean.clean_code, s.clean.clean_url) record { clean = s.clean; sent = s.sent }

pub recovered_entries-IsSent :
    (key : String) (time checked_at : ℕ) (alerts : List Item) (entries : List Entry)
    → All (IsSent key time) entries
    → All (IsSent key time) (recovered_entries alerts checked_at entries)
unfolding recovered_entries
recovered_entries-IsSent key time checked_at alerts [] all = tt
recovered_entries-IsSent key time checked_at alerts (e ∷ entries) all =
    let rest = recovered_entries-IsSent key time checked_at alerts entries all.1 in
    elim (Bool-cases (is_current alerts e)) [
      | inl now ↦ rw now rest
      | inr past ↦ rw past (recovered-IsSent key time checked_at e all.0, rest)
    ]

abbrev pub IsCleanItem : Item → Type 0
IsCleanItem a = IsClean (text a.code 80) (text a.node_url 240)

seen_again-IsSent :
    (key : String) (time checked_at : ℕ) (a : Item) (before : Option Entry)
    → IsCleanItem a
    → (str_eq (item_key a) key ≡ true
        → (e : Entry) × ((before ≡ some e) × (e.last_alerted_at ≡ some time)))
    → IsSent key time (seen_again a checked_at before)
seen_again-IsSent key time checked_at a none clean known = record {
  clean = clean;
  sent = λ h.
      let (e, (found, at)) = known (rw⁻¹ (cleaned_key a.code a.node_url clean) h) in
      ground (arith, found);
}
seen_again-IsSent key time checked_at a (some f) clean known = record {
  clean = clean;
  sent = λ h.
      let (e, (found, at)) = known (rw⁻¹ (cleaned_key a.code a.node_url clean) h) in
      ap (λ (x : Entry). x.last_alerted_at) (some-injective f e found) ∙ at;
}

pub current_entries-IsSent :
    (key : String) (time checked_at : ℕ) (entries : List Entry) (alerts : List Item)
    → AllSent key time entries
    → All IsCleanItem alerts
    → All (IsSent key time) (map (current_entry entries checked_at) alerts)
current_entries-IsSent key time checked_at entries [] s clean = tt
current_entries-IsSent key time checked_at entries (a ∷ alerts) s clean = (
  seen_again-IsSent key time checked_at a (previous_of entries (item_key a)) clean.0 (λ h.
      subst
        (λ k. (e : Entry) × ((previous_of entries k ≡ some e) × (e.last_alerted_at ≡ some time)))
        (sym (str_eq-eq _ _ h)) (previous_of-IsSent key time entries s.all_sent s.there)),
  current_entries-IsSent key time checked_at entries alerts s clean.1,
)

pub append-All : (P : Entry → Type 0) (xs ys : List Entry) → All P xs → All P ys → All P (xs ++ ys)
append-All P [] ys a b = b
append-All P (x ∷ xs) ys a b = (a.0, append-All P xs ys a.1 b)

pub append-has_key :
    (key : String) (xs ys : List Entry)
    → has_key key (xs ++ ys) ≡ (has_key key xs || has_key key ys)
append-has_key key [] ys = refl
append-has_key key (x ∷ xs) ys = ground (arith, append-has_key key xs ys)

abbrev pub has_item : String → List Item → Bool
has_item key = any (λ a. str_eq (item_key a) key)

seen_again-key :
    (a : Item) (checked_at : ℕ) (before : Option Entry)
    → IsCleanItem a
    → entry_key (seen_again a checked_at before) ≡ item_key a
seen_again-key a checked_at none clean = cleaned_key a.code a.node_url clean
seen_again-key a checked_at (some e) clean = cleaned_key a.code a.node_url clean

pub current_entries-has_key :
    (key : String) (checked_at : ℕ) (entries : List Entry) (alerts : List Item)
    → All IsCleanItem alerts
    → has_key key (map (current_entry entries checked_at) alerts) ≡ has_item key alerts
current_entries-has_key key checked_at entries [] clean = refl
current_entries-has_key key checked_at entries (a ∷ alerts) clean =
    rw
      (
        seen_again-key a checked_at (previous_of entries (item_key a)) clean.0,
        current_entries-has_key key checked_at entries alerts clean.1,
      )
      refl

-- An entry of the key that no alert of now has stays in the state.
pub recovered_entries-has_key :
    (key : String) (time checked_at : ℕ) (alerts : List Item) (entries : List Entry)
    → All (IsSent key time) entries
    → has_key key entries ≡ true
    → has_item key alerts ≡ false
    → has_key key (recovered_entries alerts checked_at entries) ≡ true
unfolding recovered_entries
recovered_entries-has_key key time checked_at alerts [] all has away = ground arith
recovered_entries-has_key key time checked_at alerts (e ∷ entries) all has away =
    elim (Bool-cases (str_eq (entry_key e) key)) [
      | inl mine ↦
          let past : is_current alerts e ≡ false =
            subst (λ k. has_item k alerts ≡ false) (sym (str_eq-eq _ _ mine)) away in
          rw past (rw (all.0.clean.clean_code, all.0.clean.clean_url, mine) refl)
      | inr other ↦
          let rest =
            recovered_entries-has_key key time checked_at alerts entries all.1
              (ground (arith, has, other)) away in
          elim (Bool-cases (is_current alerts e)) [
            | inl now ↦ rw now rest
            | inr past ↦ rw past (ground (arith, rest))
          ]
    ]
