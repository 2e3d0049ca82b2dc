-- ===== src/Incidents/Laws.antt =====
-- What every stored incident is, with lemmas on the checks of its parts.
use vorliq.Common.{
  ℕ, zero, suc, ◌≤◌, String, Bool, true, false, ◌≡◌, refl, Option, none, some, List, [], ◌∷◌,
  str_eq, take, length, arith, if◌then◌else◌,
}
use mathlib.Core.Path.{subst}
use vorliq.Common.Text.{size, one_of}
use vorliq.Json.Defs.{Json, null, bool, num, infinite, str, arr, obj, Fields, lookup}
use vorliq.Validation.Field.{find_word}
use vorliq.Validation.FieldLaws.{find_word-one_of}
use vorliq.Json.Truth.{is_truthy, either}
use vorliq.Incidents.{
  Incident, Problem, Tried, fine, failed, and_then, require_text, word_or, bad_severity, bad_status,
  require_severity, require_status, valid_severities, valid_statuses, resolved_time, services,
  initial_status, new_incident, service_texts,
}

abbrev pub is_set : Option ℕ → Bool
is_set none = false
is_set (some t) = true

-- A bounded title and description, a severity and a status of the lists, at most twelve services, and a
-- time of resolution exactly if the status is resolved.
pub record IsSound (i : Incident) : Type 0 where
  pub titled : str_eq i.title "" ≡ false
  pub short_title : size i.title ≤ 160
  pub described : str_eq i.description "" ≡ false
  pub short_description : size i.description ≤ 3000
  pub severe : one_of valid_severities i.severity ≡ true
  pub known_status : one_of valid_statuses i.status ≡ true
  pub few_services : length i.affected_services ≤ 12
  pub has_time : is_set i.resolved_at ≡ str_eq i.status "resolved"

pub and_then-elim :
    {A B C : Type 0} (r : Tried A) (next : A → Tried B) {b : B}
    → and_then r next ≡ fine b
    → ((a : A) → r ≡ fine a → next a ≡ fine b → C)
    → C
and_then-elim (fine a) next h use_parts = use_parts a refl h
and_then-elim (failed p) next h use_parts = ground arith

pub fine-injective : {A : Type 0} {a b : A} → fine a ≡ fine b → a ≡ b
fine-injective h = cc

pub require_text-fine :
    (v : Option Json) (name : String) (max : ℕ) (s : String)
    → require_text v name max ≡ fine s
    → (str_eq s "" ≡ false) × (size s ≤ max)
unfolding require_text
require_text-fine (some (str t)) name max s h = ground arith
require_text-fine none name max s h = ground arith
require_text-fine (some null) name max s h = ground arith
require_text-fine (some (bool b)) name max s h = ground arith
require_text-fine (some (num n)) name max s h = ground arith
require_text-fine (some infinite) name max s h = ground arith
require_text-fine (some (arr vs)) name max s h = ground arith
require_text-fine (some (obj fs)) name max s h = ground arith

word_or-fine :
    (p : Problem) (words : List String) (text s : String)
    → word_or p (find_word words text) ≡ fine s
    → one_of words s ≡ true
word_or-fine p words text s h = find_word-one_of words text s (ground arith)

pub require_severity-fine :
    (v : Option Json) (s : String) → require_severity v ≡ fine s → one_of valid_severities s ≡ true
unfolding require_severity
require_severity-fine v s h =
    and_then-elim (require_text v "severity" 20) _ h
      λ text p q. word_or-fine bad_severity valid_severities text s q

pub require_status-fine :
    (v : Option Json) (s : String) → require_status v ≡ fine s → one_of valid_statuses s ≡ true
unfolding require_status
require_status-fine v s h =
    and_then-elim (require_text v "status" 20) _ h
      λ text p q. word_or-fine bad_status valid_statuses text s q

status_or-fine :
    (b : Bool) (v : Option Json) (s : String)
    → (if b then require_status v else fine "investigating") ≡ fine s
    → one_of valid_statuses s ≡ true
status_or-fine true v s h = require_status-fine v s h
status_or-fine false v s h = subst (λ t. one_of valid_statuses t ≡ true) (fine-injective h) refl

initial_status-fine :
    (v : Option Json) (s : String) → initial_status v ≡ fine s → one_of valid_statuses s ≡ true
initial_status-fine v s h = status_or-fine (is_truthy v) v s h

length-take-le : {A : Type 0} (n : ℕ) (xs : List A) → length (take n xs) ≤ n
length-take-le zero xs = omega arith
length-take-le (suc n) [] = omega arith
length-take-le (suc n) (x ∷ xs) = omega (arith, length-take-le n xs)

pub resolved_time-is_set :
    (status : String) (now : ℕ) → is_set (resolved_time status now) ≡ str_eq status "resolved"
resolved_time-is_set status now = ground arith

module _ (to_string : Json → String) where
  pub services-few : (v : Option Json) → length (services to_string v) ≤ 12
  unfolding services
  services-few (some (arr vs)) = length-take-le 12 (service_texts to_string vs)
  services-few none = ground arith
  services-few (some null) = ground arith
  services-few (some (bool b)) = ground arith
  services-few (some (num n)) = ground arith
  services-few (some infinite) = ground arith
  services-few (some (str s)) = ground arith
  services-few (some (obj fs)) = ground arith

  pub new_incident-IsSound :
      (id : String) (input : Fields) (now : ℕ) (i : Incident)
      → new_incident to_string id input now ≡ fine i
      → IsSound i
  unfolding new_incident
  new_incident-IsSound id input now i h =
      and_then-elim (require_text (lookup "title" input) "title" 160) _ h λ title p h1.
        and_then-elim
          (require_text (either (lookup "description" input) (lookup "message" input)) "description"
            3000)
          _ h1
          λ description q h2.
            and_then-elim (require_severity (lookup "severity" input)) _ h2 λ severity r h3.
              and_then-elim (initial_status (lookup "status" input)) _ h3 λ status k h4.
                let (a, b) = require_text-fine _ "title" 160 title p in
                let (c, d) = require_text-fine _ "description" 3000 description q in
                subst IsSound (fine-injective h4) record {
                  titled = a;
                  short_title = b;
                  described = c;
                  short_description = d;
                  severe = require_severity-fine _ severity r;
                  known_status = initial_status-fine (lookup "status" input) status k;
                  few_services = services-few _;
                  has_time = resolved_time-is_set status now;
                }
