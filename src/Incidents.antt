-- ===== src/Incidents.antt =====
-- backend/incidents.js: the incidents that the status page shows.
pub mod Store
pub mod Laws
pub mod Update
pub mod Runs
mod Tests
use vorliq.Common.{
  ℕ, String, Bool, true, false, not, ◌&&◌, ◌||◌, Option, none, some, List, [], ◌∷◌, ◌++◌, str_eq,
  ltb, take, filter, if◌then◌else◌,
}
use vorliq.Common.Text.{trim, size}
use vorliq.Json.Defs.{
  Json, null, bool, num, infinite, str, arr, obj, Items, nil, cons, Fields, lookup,
}
use vorliq.Json.Truth.{is_truthy, either}
use vorliq.Validation.Field.{find_word}

pub record Incident : Type 0 where
  pub id : String
  pub title : String
  pub description : String
  pub severity : String
  pub status : String
  pub affected_services : List String
  pub created_at : ℕ
  pub updated_at : ℕ
  pub resolved_at : Option ℕ

abbrev pub valid_statuses : List String
valid_statuses = "investigating" ∷ "identified" ∷ "monitoring" ∷ "resolved" ∷ []

abbrev pub valid_severities : List String
valid_severities = "minor" ∷ "major" ∷ "critical" ∷ []

-- The errors that are thrown.
pub data Problem : Type 0 where
  missing : String → Problem
  too_long : String → ℕ → Problem
  bad_severity : Problem
  bad_status : Problem

pub data Tried (A : Type 0) : Type 0 where
  fine : A → Tried A
  failed : Problem → Tried A

abbrev pub and_then : {A B : Type 0} → Tried A → (A → Tried B) → Tried B
and_then (fine a) next = next a
and_then (failed p) next = failed p

infixl 5 ◌>>=◌
abbrev pub ◌>>=◌ : {A B : Type 0} → Tried A → (A → Tried B) → Tried B
r >>= next = and_then r next

abbrev pub fits_text : String → ℕ → String → Tried String
fits_text name max value =
    if str_eq value ""
    then failed (missing name)
    else if ltb max (size value)
    then failed (too_long name max)
    else fine value

unfoldable pub require_text : Option Json → String → ℕ → Tried String
require_text (some (str s)) name max = fits_text name max (trim s)
require_text v name max = failed (missing name)

abbrev pub word_or : Problem → Option String → Tried String
word_or p none = failed p
word_or p (some word) = fine word

unfoldable pub require_severity : Option Json → Tried String
require_severity v = do
  text ← require_text v "severity" 20
  word_or bad_severity (find_word valid_severities text)

unfoldable pub require_status : Option Json → Tried String
require_status v = do
  text ← require_text v "status" 20
  word_or bad_status (find_word valid_statuses text)

abbrev pub is_defined : Option Json → Bool
is_defined none = false
is_defined (some v) = true

abbrev pub resolved_time : String → ℕ → Option ℕ
resolved_time status now = if str_eq status "resolved" then some now else none

abbrev pub initial_status : Option Json → Tried String
initial_status v = if is_truthy v then require_status v else fine "investigating"

-- String of a value
module _ (to_string : Json → String) where
  abbrev pub service_text : Json → String
  service_text v = if is_truthy (some v) then trim (to_string v) else ""

  abbrev pub service_texts : Items → List String
  service_texts nil = []
  service_texts (cons v vs) =
      let rest = service_texts vs in
      if str_eq (service_text v) "" then rest else service_text v ∷ rest

  unfoldable pub services : Option Json → List String
  services (some (arr vs)) = take 12 (service_texts vs)
  services v = []

  unfoldable pub new_incident : String → Fields → ℕ → Tried Incident
  new_incident id input now = do
    title ← require_text (lookup "title" input) "title" 160
    description ←
        require_text (either (lookup "description" input) (lookup "message" input)) "description"
          3000
    severity ← require_severity (lookup "severity" input)
    status ← initial_status (lookup "status" input)
    fine record {
      id = id;
      title = title;
      description = description;
      severity = severity;
      status = status;
      affected_services =
          services (either (lookup "affected_services" input) (lookup "affectedServices" input));
      created_at = now;
      updated_at = now;
      resolved_at = resolved_time status now;
    }
