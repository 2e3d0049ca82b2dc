-- ===== src/Incidents/Store.antt =====
-- The operations on the store of incidents, and the lists that are shown.
use vorliq.Common.{
  ℕ, String, not, ◌||◌, Option, none, some, List, [], ◌∷◌, ◌++◌, str_eq, ltb, filter, if◌then◌else◌,
}
use vorliq.Json.Defs.{Json, str, Fields, end, field, lookup}
use vorliq.Json.Truth.{either}
use vorliq.Incidents.{
  Incident, Tried, fine, failed, ◌>>=◌, require_text, require_severity, require_status, is_defined,
  resolved_time, services, new_incident,
}

-- A part of the update, which is made where the input has the field.
abbrev pub if_given : Option Json → Incident → (Option Json → Tried Incident) → Tried Incident
if_given none i change = fine i
if_given (some v) i change = change (some v)

abbrev pub with_title : Incident → String → Incident
with_title i title = record {
  id = i.id;
  title = title;
  description = i.description;
  severity = i.severity;
  status = i.status;
  affected_services = i.affected_services;
  created_at = i.created_at;
  updated_at = i.updated_at;
  resolved_at = i.resolved_at;
}

abbrev pub with_description : Incident → String → Incident
with_description i description = record {
  id = i.id;
  title = i.title;
  description = description;
  severity = i.severity;
  status = i.status;
  affected_services = i.affected_services;
  created_at = i.created_at;
  updated_at = i.updated_at;
  resolved_at = i.resolved_at;
}

abbrev pub with_services : Incident → List String → Incident
with_services i affected = record {
  id = i.id;
  title = i.title;
  description = i.description;
  severity = i.severity;
  status = i.status;
  affected_services = affected;
  created_at = i.created_at;
  updated_at = i.updated_at;
  resolved_at = i.resolved_at;
}

abbrev pub with_severity : Incident → String → Incident
with_severity i severity = record {
  id = i.id;
  title = i.title;
  description = i.description;
  severity = severity;
  status = i.status;
  affected_services = i.affected_services;
  created_at = i.created_at;
  updated_at = i.updated_at;
  resolved_at = i.resolved_at;
}

abbrev pub with_status : Incident → String → ℕ → Incident
with_status i status now = record {
  id = i.id;
  title = i.title;
  description = i.description;
  severity = i.severity;
  status = status;
  affected_services = i.affected_services;
  created_at = i.created_at;
  updated_at = i.updated_at;
  resolved_at = resolved_time status now;
}

abbrev pub touched : Incident → ℕ → Incident
touched i now = record {
  id = i.id;
  title = i.title;
  description = i.description;
  severity = i.severity;
  status = i.status;
  affected_services = i.affected_services;
  created_at = i.created_at;
  updated_at = now;
  resolved_at = i.resolved_at;
}

abbrev pub change_title : Incident → Option Json → Tried Incident
change_title i v = do title ← require_text v "title" 160; fine (with_title i title)

abbrev pub change_description : Incident → Option Json → Tried Incident
change_description i v = do
  description ← require_text v "description" 3000
  fine (with_description i description)

abbrev pub change_severity : Incident → Option Json → Tried Incident
change_severity i v = do severity ← require_severity v; fine (with_severity i severity)

abbrev pub change_status : ℕ → Incident → Option Json → Tried Incident
change_status now i v = do status ← require_status v; fine (with_status i status now)

-- The incident of an id, and the store with another incident in its place: `incident` is changed in place.
unfoldable pub find_incident : List Incident → String → Option Incident
find_incident [] id = none
find_incident (i ∷ store) id = if str_eq i.id id then some i else find_incident store id

unfoldable pub replace_incident : List Incident → String → Incident → List Incident
replace_incident [] id new = []
replace_incident (i ∷ store) id new =
    if str_eq i.id id then new ∷ store else i ∷ replace_incident store id new

module _ (to_string : Json → String) where
  abbrev pub change_services : Incident → Option Json → Option Json → Incident
  change_services i v other =
      if is_defined v || is_defined other
      then with_services i (services to_string (either v other))
      else i

  unfoldable pub updated : Incident → Fields → ℕ → Tried Incident
  updated i input now = do
    i1 ← if_given (lookup "title" input) i (change_title i)
    i2 ← if_given (lookup "description" input) i1 (change_description i1)
    i3 ← if_given (lookup "message" input) i2 (change_description i2)
    i4 ←
        fine
          (change_services i3 (lookup "affected_services" input) (lookup "affectedServices" input))
    i5 ← if_given (lookup "severity" input) i4 (change_severity i4)
    i6 ← if_given (lookup "status" input) i5 (change_status now i5)
    fine (touched i6 now)

  -- An error leaves the file as it is.
  abbrev pub appended : List Incident → Tried Incident → Tried Incident × List Incident
  appended store (failed p) = (failed p, store)
  appended store (fine i) = (fine i, store ++ (i ∷ []))

  unfoldable pub create_incident :
      List Incident → String → Fields → ℕ → Tried Incident × List Incident
  create_incident store id input now = appended store (new_incident to_string id input now)

  abbrev pub replaced :
      List Incident → String → Tried Incident → Option (Tried Incident) × List Incident
  replaced store id (failed p) = (some (failed p), store)
  replaced store id (fine i) = (some (fine i), replace_incident store id i)

  abbrev pub update_found :
      List Incident
      → String
      → Fields
      → ℕ
      → Option Incident
      → Option (Tried Incident) × List Incident
  update_found store id input now none = (none, store)
  update_found store id input now (some i) = replaced store id (updated i input now)

  unfoldable pub update_incident :
      List Incident → String → Fields → ℕ → Option (Tried Incident) × List Incident
  update_incident store id input now = update_found store id input now (find_incident store id)

  unfoldable pub resolve_incident :
      List Incident → String → ℕ → Option (Tried Incident) × List Incident
  resolve_incident store id now = update_incident store id (field "status" (str "resolved") end) now

-- The latest first; incidents of one time stay in their order.
unfoldable pub insert_latest : Incident → List Incident → List Incident
insert_latest i [] = i ∷ []
insert_latest i (j ∷ rest) =
    if ltb i.created_at j.created_at then j ∷ insert_latest i rest else i ∷ j ∷ rest

unfoldable pub list_incidents : List Incident → List Incident
list_incidents [] = []
list_incidents (i ∷ store) = insert_latest i (list_incidents store)

unfoldable pub list_active : List Incident → List Incident
list_active store = filter (λ i. not (str_eq i.status "resolved")) (list_incidents store)
