-- ===== src/NodeLifecycle.antt =====
-- backend/nodeLifecycle.js: the state of a node of the registry, by hand or by when it was last seen.
-- A text that is not set is ""; numbers are from 0 and times are seconds, but for the texts of dates. Most
-- fields are read under a second spelling where the first is not set; an update writes the first only.
pub mod Laws
mod Tests
use Prim.Native.Char.{Char, code}
use vorliq.Common.{
  ℕ, zero, suc, ◌+◌, ◌-◌, String, Bool, true, false, not, ◌&&◌, ◌||◌, Option, none, some, List, [],
  ◌∷◌, ◌++◌, map, str_eq, ltb, leb, ◌==◌, if◌then◌else◌, length, drop,
}
use vorliq.Common.Text.{trim, codes, lower_codes, codes_eq}

abbrev pub active_window_seconds : ℕ
active_window_seconds = 1800

abbrev pub stale_window_seconds : ℕ
stale_window_seconds = 604800

abbrev pub history_limit : ℕ
history_limit = 100

-- `.replace(/\u0000/g, "").replace(/[<>]/g, "")`
unfoldable pub strip : String → String
strip String.[] = String.[]
strip (String.◌∷◌ c s) =
    let rest = strip s in
    if code c == 0 || code c == 60 || code c == 62 then rest else String.◌∷◌ c rest

-- `.slice(0, limit)`, in UTF-16 units; where the cut falls inside a pair, the half is left out.
unfoldable pub cut : ℕ → String → String
cut limit String.[] = String.[]
cut limit (String.◌∷◌ c s) =
    let width = if ltb (code c) 0x10000 then 1 else 2 in
    let rest = cut (limit - width) s in if ltb limit width then String.[] else String.◌∷◌ c rest

unfoldable pub text : String → ℕ → String
text value limit = cut limit (trim (strip value))

abbrev pub is_one : String → String → Bool
is_one s word = codes_eq (lower_codes s) (codes word)

-- The status in lower case, or "" where it is none of the five.
abbrev pub known_status : String → String
known_status s =
    if is_one s "active"
    then "active"
    else if is_one s "stale"
    then "stale"
    else if is_one s "inactive"
    then "inactive"
    else if is_one s "archived"
    then "archived"
    else if is_one s "retired"
    then "retired"
    else ""

unfoldable pub normalize_status : String → String
normalize_status value = known_status (text value 40)

abbrev pub is_explicit : String → Bool
is_explicit status = str_eq status "archived" || str_eq status "retired"

-- An entry of the history, each text under the first of its spellings that is set.
pub record Change : Type 0 where
  pub timestamp : String
  pub from_status : String
  pub to_status : String
  pub reason : String
  pub changed_by : String

-- The texts of a node under their second spelling: lifecycleStatus, lifecycleReason, and so on.
pub record Camel : Type 0 where
  pub lifecycle_status : String
  pub lifecycle_reason : String
  pub archived_at : String
  pub archived_by : String
  pub retired_at : String
  pub retired_by : String
  pub last_lifecycle_change : String

abbrev pub no_camel : Camel
no_camel = record {
  lifecycle_status = "";
  lifecycle_reason = "";
  archived_at = "";
  archived_by = "";
  retired_at = "";
  retired_by = "";
  last_lifecycle_change = "";
}

-- A node, with the texts of its second spelling in `camel`. The time it was last seen and the history are
-- those of the first spelling that is set: no update writes that time, and one writes the history to the
-- first spelling, even where it is empty, which is then the one that is read.
pub record Node : Type 0 where
  pub lifecycle_status : String
  pub camel : Camel
  pub last_seen : Option ℕ
  pub lifecycle_reason : String
  pub archived_at : String
  pub archived_by : String
  pub retired_at : String
  pub retired_by : String
  pub last_lifecycle_change : String
  pub lifecycle_history : List Change

-- `value || otherwise`
abbrev pub or_text : String → String → String
or_text value otherwise = if str_eq value "" then otherwise else value

abbrev pub last_changes : List Change → List Change
last_changes history = drop (length history - history_limit) history

abbrev pub safe_change : String → Change → Change
safe_change now_iso c = record {
  timestamp = text (or_text c.timestamp now_iso) 80;
  from_status = normalize_status c.from_status;
  to_status = or_text (normalize_status c.to_status) "inactive";
  reason = text c.reason 300;
  changed_by = text (or_text c.changed_by "system") 80;
}

unfoldable pub safe_history : String → List Change → List Change
safe_history now_iso history = map (safe_change now_iso) (last_changes history)

-- `last_seen >= now - window`, also where the difference is negative
abbrev pub seen_since : Option ℕ → ℕ → ℕ → Bool
seen_since none now window = false
seen_since (some at) now window = leb now (at + window)

-- A window that is not set, or is 0, has its default.
abbrev pub window_or : Option ℕ → ℕ → ℕ
window_or none otherwise = otherwise
window_or (some w) otherwise = if w == 0 then otherwise else w

pub record Options : Type 0 where
  pub active_window : Option ℕ
  pub stale_window : Option ℕ

-- `lifecycle_status` of `classifyNodeLifecycle`
unfoldable pub classified_status : Node → ℕ → Options → String
classified_status n now options =
    let stored = normalize_status (or_text n.lifecycle_status n.camel.lifecycle_status) in
    if is_explicit stored
    then stored
    else if seen_since n.last_seen now (window_or options.active_window active_window_seconds)
    then "active"
    else if seen_since n.last_seen now (window_or options.stale_window stale_window_seconds)
    then "stale"
    else "inactive"

-- A node as it is shown: its fields in safe form, with the status and whether it is active.
unfoldable pub classify_node_lifecycle : String → Node → ℕ → Options → Node × Bool
classify_node_lifecycle now_iso n now options = (
  record {
    lifecycle_status = classified_status n now options;
    camel = no_camel;
    last_seen = n.last_seen;
    lifecycle_reason = text (or_text n.lifecycle_reason n.camel.lifecycle_reason) 300;
    archived_at = text (or_text n.archived_at n.camel.archived_at) 80;
    archived_by = text (or_text n.archived_by n.camel.archived_by) 80;
    retired_at = text (or_text n.retired_at n.camel.retired_at) 80;
    retired_by = text (or_text n.retired_by n.camel.retired_by) 80;
    last_lifecycle_change = text (or_text n.last_lifecycle_change n.camel.last_lifecycle_change) 80;
    lifecycle_history = safe_history now_iso n.lifecycle_history;
  },
  str_eq (classified_status n now options) "active",
)

-- An update, each text under the first of its spellings that is set.
pub record Update : Type 0 where
  pub timestamp : String
  pub status : String
  pub reason : String
  pub changed_by : String
  pub options : Options

-- The node after an update to the status `next`, one of the five: `...node` keeps the second spelling.
unfoldable pub updated_node : String → Node → Update → ℕ → String → Node
updated_node now_iso n u now next =
    let at = text (or_text u.timestamp now_iso) 80 in
    let by = text (or_text u.changed_by "admin") 80 in
    let change : Change = record {
      timestamp = at;
      from_status = classified_status n now u.options;
      to_status = next;
      reason = text u.reason 300;
      changed_by = by;
    } in
    record {
      lifecycle_status = if is_explicit next then next else "";
      camel = n.camel;
      last_seen = n.last_seen;
      lifecycle_reason = text u.reason 300;
      archived_at = if str_eq next "archived" then at else "";
      archived_by = if str_eq next "archived" then by else "";
      retired_at = if str_eq next "retired" then at else "";
      retired_by = if str_eq next "retired" then by else "";
      last_lifecycle_change = at;
      lifecycle_history = last_changes (safe_history now_iso n.lifecycle_history ++ (change ∷ []));
    }

-- None where `lifecycle_status is required.` is thrown.
unfoldable pub apply_node_lifecycle : String → Node → Update → ℕ → Option Node
apply_node_lifecycle now_iso n u now =
    if str_eq (normalize_status u.status) ""
    then none
    else some (updated_node now_iso n u now (normalize_status u.status))

pub record Summary : Type 0 where
  pub active_count : ℕ
  pub stale_count : ℕ
  pub inactive_count : ℕ
  pub archived_count : ℕ
  pub retired_count : ℕ
  pub visible_public_count : ℕ
  pub total_count : ℕ

abbrev pub bump_if : Bool → ℕ → ℕ
bump_if b n = if b then suc n else n

abbrev pub counted : String → Summary → Summary
counted status s = record {
  active_count = bump_if (str_eq status "active") s.active_count;
  stale_count = bump_if (str_eq status "stale") s.stale_count;
  inactive_count = bump_if (str_eq status "inactive") s.inactive_count;
  archived_count = bump_if (str_eq status "archived") s.archived_count;
  retired_count = bump_if (str_eq status "retired") s.retired_count;
  visible_public_count = bump_if (not (is_explicit status)) s.visible_public_count;
  total_count = suc s.total_count;
}

-- The loop of the code adds to the counts from the first node on; the sums are the same.
unfoldable pub summarize_node_lifecycle : List Node → ℕ → Options → Summary
summarize_node_lifecycle [] now options = record {
  active_count = 0;
  stale_count = 0;
  inactive_count = 0;
  archived_count = 0;
  retired_count = 0;
  visible_public_count = 0;
  total_count = 0;
}
summarize_node_lifecycle (n ∷ ns) now options =
    counted (classified_status n now options) (summarize_node_lifecycle ns now options)
