-- ===== src/Chat/Pages.antt =====
-- What a page of the history holds, and that a hidden message stays hidden.
use vorliq.Common.{
  ℕ, zero, suc, ◌-◌, ◌≤◌, String, Bool, true, false, ◌≡◌, Option, none, some, List, [], ◌∷◌, ◌++◌,
  arith, str_eq, str_eq-eq, length, drop, filter, All, Bool-cases, inl, inr, ap, ◌∙◌, sym,
}
use vorliq.Chat.{
  Message, Settings, is_kept, prune_messages, append_chat_message, moderated, set_moderation_status,
  is_visible, is_before, capped_limit, load_history,
}

module _ {κ} (P : Message → Type κ) where
  All-drop : (n : ℕ) (ms : List Message) → All P ms → All P (drop n ms)
  All-drop zero ms h = h
  All-drop (suc n) [] h = h
  All-drop (suc n) (m ∷ ms) (p, h) = All-drop n ms h

  All-filter : (test : Message → Bool) (ms : List Message) → All P ms → All P (filter test ms)
  All-filter test [] h = h
  All-filter test (m ∷ ms) (p, h) = elim (Bool-cases (test m)) [
    | inl keep ↦ rw keep (p, All-filter test ms h)
    | inr cut ↦ rw cut (All-filter test ms h)
  ]

  All-append : (ms ns : List Message) → All P ms → All P ns → All P (ms ++ ns)
  All-append [] ns h k = k
  All-append (m ∷ ms) ns (p, h) k = (p, All-append ms ns h k)

  prune_messages-All :
      (settings : Settings) (ms : List Message) (now : ℕ)
      → All P ms
      → All P (prune_messages settings ms now)
  unfolding prune_messages
  prune_messages-All settings ms now h =
      let kept = filter (λ (m : Message). is_kept settings.retention_days now m.timestamp) ms in
      All-drop (length kept - settings.max_messages) kept
        (All-filter (λ (m : Message). is_kept settings.retention_days now m.timestamp) ms h)

All-filter_self :
    (test : Message → Bool) (ms : List Message) → All (λ m. test m ≡ true) (filter test ms)
All-filter_self test [] = tt
All-filter_self test (m ∷ ms) = elim (Bool-cases (test m)) [
  | inl keep ↦ rw keep (keep, All-filter_self test ms)
  | inr cut ↦ rw cut (All-filter_self test ms)
]

-- If a message has the id, it is not visible.
abbrev pub IsHidden : String → Message → Type 0
IsHidden id m = str_eq m.message_id id ≡ true → is_visible m ≡ false

-- What happens to the store: a message is sent, or one is moderated.
pub data Event : Type 0 where
  send : Message → ℕ → Event
  moderate : String → String → Option String → Event

unfoldable pub run : Settings → List Message → Event → List Message
run settings store (send m now) = append_chat_message settings store m now
run settings store (moderate id status replacement) =
    (set_moderation_status store id status replacement).0

unfoldable pub run_all : Settings → List Message → List Event → List Message
run_all settings store [] = store
run_all settings store (e ∷ es) = run_all settings (run settings store e) es

-- No other message is sent under the id, and it is not made visible again.
abbrev pub Leaves : String → Event → Type 0
Leaves id (send m now) = str_eq m.message_id id ≡ false
Leaves id (moderate other status replacement) =
    str_eq other id ≡ true → str_eq status "visible" ≡ false

moderated-IsHidden :
    (id other status : String) (replacement : Option String) (m : Message)
    → (str_eq other id ≡ true → str_eq status "visible" ≡ false)
    → m.message_id ≡ other
    → IsHidden id (moderated m status replacement)
moderated-IsHidden id other status none m leaves named same =
    leaves (ap (λ k. str_eq k id) (sym named) ∙ same)
moderated-IsHidden id other status (some text) m leaves named same =
    leaves (ap (λ k. str_eq k id) (sym named) ∙ same)

moderate-IsHidden :
    (id other status : String) (replacement : Option String) (ms : List Message)
    → (str_eq other id ≡ true → str_eq status "visible" ≡ false)
    → All (IsHidden id) ms
    → All (IsHidden id) (set_moderation_status ms other status replacement).0
unfolding set_moderation_status
moderate-IsHidden id other status replacement [] leaves h = h
moderate-IsHidden id other status replacement (m ∷ ms) leaves (p, h) =
    elim (Bool-cases (str_eq m.message_id other)) [
      | inl same ↦ rw same (
        moderated-IsHidden id other status replacement m leaves (str_eq-eq m.message_id other same),
        h,
      )
      | inr differ ↦ rw differ (p, moderate-IsHidden id other status replacement ms leaves h)
    ]

run-IsHidden :
    (settings : Settings) (store : List Message) (e : Event) (id : String)
    → Leaves id e
    → All (IsHidden id) store
    → All (IsHidden id) (run settings store e)
unfolding run append_chat_message
run-IsHidden settings store (send m now) id leaves h =
    prune_messages-All (IsHidden id) settings (prune_messages settings store now ++ (m ∷ [])) now (
      All-append (IsHidden id) (prune_messages settings store now) (m ∷ [])
        (prune_messages-All (IsHidden id) settings store now h) (λ same. ground arith, tt))
run-IsHidden settings store (moderate other status replacement) id leaves h =
    moderate-IsHidden id other status replacement store leaves h

run_all-IsHidden :
    (settings : Settings) (es : List Event) (store : List Message) (id : String)
    → All (Leaves id) es
    → All (IsHidden id) store
    → All (IsHidden id) (run_all settings store es)
unfolding run_all
run_all-IsHidden settings [] store id leaves h = h
run_all-IsHidden settings (e ∷ es) store id (l, leaves) h =
    run_all-IsHidden settings es (run settings store e) id leaves
      (run-IsHidden settings store e id l h)

abbrev pub with_id : String → List Message → List Message
with_id id ms = filter (λ (m : Message). str_eq m.message_id id) ms

absent-IsHidden :
    (id : String) (ms : List Message) → length (with_id id ms) ≤ 0 → All (IsHidden id) ms
absent-IsHidden id [] h = tt
absent-IsHidden id (m ∷ ms) h = elim (Bool-cases (str_eq m.message_id id)) [
  | inl same ↦ ground arith
  | inr differ ↦ (λ same. ground arith, absent-IsHidden id ms (ground arith))
]

hide-IsHidden :
    (id status : String) (replacement : Option String) (ms : List Message)
    → str_eq status "visible" ≡ false
    → length (with_id id ms) ≤ 1
    → All (IsHidden id) (set_moderation_status ms id status replacement).0
unfolding set_moderation_status
hide-IsHidden id status replacement [] hides h = tt
hide-IsHidden id status replacement (m ∷ ms) hides h = elim (Bool-cases (str_eq m.message_id id)) [
  | inl same ↦ rw same (
    moderated-IsHidden id id status replacement m (λ e. hides) (str_eq-eq m.message_id id same),
    absent-IsHidden id ms (ground arith),
  )
  | inr differ ↦
      rw differ (λ same. ground arith, hide-IsHidden id status replacement ms hides (ground arith))
]

shown-Differ :
    (id : String) (ms : List Message)
    → All (IsHidden id) ms
    → All (λ m. is_visible m ≡ true) ms
    → All (λ m. str_eq m.message_id id ≡ false) ms
shown-Differ id [] h v = tt
shown-Differ id (m ∷ ms) (p, h) (seen, v) = (
  elim (Bool-cases (str_eq m.message_id id)) [
    | inl same ↦ ground (arith, p same)
    | inr differ ↦ differ
  ],
  shown-Differ id ms h v,
)

-- Once a message is given another status than `visible`, in a store with at most one message of its
-- id, no page of the history holds it, for whatever limit, cursor and time, whatever messages are
-- sent under other ids and whatever is moderated, as long as it is not made visible again.
pub hidden_stays :
    (settings : Settings) (store : List Message) (id status : String) (replacement : Option String)
    (es : List Event) (limit before : Option ℕ) (now : ℕ)
    → length (with_id id store) ≤ 1
    → str_eq status "visible" ≡ false
    → All (Leaves id) es
    → All
        (λ m. str_eq m.message_id id ≡ false)
        (load_history settings
          (run_all settings (set_moderation_status store id status replacement).0 es)
          limit
          before
          now).messages
unfolding load_history
hidden_stays settings store id status replacement es limit before now once hides leaves =
    let later = run_all settings (set_moderation_status store id status replacement).0 es in
    let pruned = prune_messages settings later now in
    let hidden = prune_messages-All (IsHidden id) settings later now (
      run_all-IsHidden settings es (set_moderation_status store id status replacement).0 id leaves
        (hide-IsHidden id status replacement store hides once)) in
    let absent =
      shown-Differ id (filter is_visible pruned) (All-filter (IsHidden id) is_visible pruned hidden)
        (All-filter_self is_visible pruned) in
    let older = filter (λ (m : Message). is_before before m.timestamp) (filter is_visible pruned) in
    All-drop (λ m. str_eq m.message_id id ≡ false) (length older - capped_limit limit) older
      (All-filter (λ m. str_eq m.message_id id ≡ false)
        (λ (m : Message). is_before before m.timestamp) (filter is_visible pruned) absent)
