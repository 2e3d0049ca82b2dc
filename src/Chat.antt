-- ===== src/Chat.antt =====
-- backend/chatStore.js: the durable history of the chat. An operation takes the messages of the store
-- file and returns the new ones; times are milliseconds. The retention in days and the most messages
-- kept are read from the environment and are parameters here.
pub mod Pages
mod Tests
use vorliq.Common.{
  ℕ, zero, suc, ◌+◌, ◌-◌, ◌*◌, String, Bool, true, false, Option, none, some, List, [], ◌∷◌, ◌++◌,
  str_eq, ltb, leb, ◌==◌, if◌then◌else◌, length, drop, filter, min, max,
}

-- The timestamp is absent where `Number(message.timestamp)` is not finite.
pub record Message : Type 0 where
  pub message_id : String
  pub text : String
  pub timestamp : Option ℕ
  pub moderation_status : String
  pub warning : String

abbrev pub day_ms : ℕ
day_ms = 24 * 60 * 60 * 1000

pub record Settings : Type 0 where
  pub retention_days : ℕ
  pub max_messages : ℕ

-- `timestamp >= now - RETENTION_DAYS * 24 * 60 * 60 * 1000`, also where the difference is negative
abbrev pub is_kept : ℕ → ℕ → Option ℕ → Bool
is_kept days now none = false
is_kept days now (some at) = leb now (at + days * day_ms)

-- The last `n` of a list: all of it where it has no more.
abbrev pub last_of : ℕ → List Message → List Message
last_of n messages = drop (length messages - n) messages

unfoldable pub prune_messages : Settings → List Message → ℕ → List Message
prune_messages settings messages now =
    last_of settings.max_messages
      (filter (λ (m : Message). is_kept settings.retention_days now m.timestamp) messages)

unfoldable pub append_chat_message : Settings → List Message → Message → ℕ → List Message
append_chat_message settings store message now =
    prune_messages settings (prune_messages settings store now ++ (message ∷ [])) now

unfoldable pub load_recent_messages : Settings → List Message → ℕ → ℕ → List Message
load_recent_messages settings store limit now =
    last_of (max 1 limit) (prune_messages settings store now)

-- The first message with the id gets the status, the replacement text if any, and no warning.
abbrev pub moderated : Message → String → Option String → Message
moderated m status none = record {
  message_id = m.message_id;
  text = m.text;
  timestamp = m.timestamp;
  moderation_status = status;
  warning = "";
}
moderated m status (some replacement) = record {
  message_id = m.message_id;
  text = replacement;
  timestamp = m.timestamp;
  moderation_status = status;
  warning = "";
}

unfoldable pub set_moderation_status :
    List Message → String → String → Option String → List Message × Option Message
set_moderation_status [] id status replacement = ([], none)
set_moderation_status (m ∷ rest) id status replacement =
    let (others, found) = set_moderation_status rest id status replacement in
    if str_eq m.message_id id
    then (moderated m status replacement ∷ rest, some (moderated m status replacement))
    else (m ∷ others, found)

abbrev pub is_visible : Message → Bool
is_visible m = str_eq m.moderation_status "visible"

abbrev pub is_before : Option ℕ → Option ℕ → Bool
is_before none at = true
is_before (some before) none = false
is_before (some before) (some at) = ltb at before

-- `Math.min(Math.max(1, Number(limit) || 50), 100)`, at a limit that is a number from 0 or none
abbrev pub capped_limit : Option ℕ → ℕ
capped_limit none = 50
capped_limit (some zero) = 50
capped_limit (some (suc n)) = min (suc n) 100

pub record History : Type 0 where
  pub messages : List Message
  pub total_visible : ℕ
  pub has_more : Bool
  pub oldest_timestamp : Option ℕ

abbrev pub oldest_of : List Message → Option ℕ
oldest_of [] = none
oldest_of (m ∷ rest) = m.timestamp

-- `before` is absent where it is not a finite number.
unfoldable pub load_history : Settings → List Message → Option ℕ → Option ℕ → ℕ → History
load_history settings store limit before now =
    let visible = filter is_visible (prune_messages settings store now) in
    let older = filter (λ (m : Message). is_before before m.timestamp) visible in
    let page = last_of (capped_limit limit) older in
    record {
      messages = page;
      total_visible = length visible;
      has_more = ltb (length page) (length older);
      oldest_timestamp = oldest_of page;
    }
