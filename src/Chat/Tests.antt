-- ===== src/Chat/Tests.antt =====
-- Runs of the chat history at concrete messages.
use vorliq.Common.{ℕ, String, false, ◌≡◌, refl, none, some, List, [], ◌∷◌, All, arith, str_eq}
use vorliq.Chat.{
  Message, Settings, prune_messages, append_chat_message, set_moderation_status, load_history,
}
use vorliq.Chat.Pages.{Event, send, moderate, run, run_all, hidden_stays}

abbrev message : String → ℕ → Message
message id at = record {
  message_id = id;
  text = "hello";
  timestamp = some at;
  moderation_status = "visible";
  warning = "spam?";
}

abbrev settings : Settings
settings = record { retention_days = 30; max_messages = 500 }

abbrev store : List Message
store = message "a" 1000 ∷ message "b" 2000 ∷ []

abbrev events : List Event
events = send (message "c" 3000) 3000 ∷ moderate "b" "visible" none ∷ []

hidden_stays_example :
    All
      (λ m. str_eq m.message_id "a" ≡ false)
      (load_history settings
        (run_all settings (set_moderation_status store "a" "removed" (some "")).0 events)
        (some 20)
        none
        4000).messages
hidden_stays_example =
    hidden_stays settings store "a" "removed" (some "") events (some 20) none 4000 (omega arith)
      refl (refl, ((λ same. ground arith), tt))

two_left :
    (load_history settings
      (run_all settings (set_moderation_status store "a" "removed" (some "")).0 events)
      (some 1)
      none
      4000).messages
    ≡ message "c" 3000 ∷ []
unfolding load_history run_all run append_chat_message set_moderation_status prune_messages
two_left = refl
