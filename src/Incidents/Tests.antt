-- ===== src/Incidents/Tests.antt =====
-- A store with one incident, which is reported, made worse, and resolved.
use vorliq.Common.{String, ◌≡◌, refl, some, List, [], ◌∷◌, All}
use vorliq.Json.Defs.{Json, str, Fields, end, field, lookup}
use vorliq.Common.Text.{trim, trim_start, trim_end, size, units, lower_codes, codes_eq}
use vorliq.Validation.Field.{find_word}
use vorliq.Incidents.{require_text, require_severity, require_status, services, new_incident}
use vorliq.Incidents.Store.{
  find_incident, replace_incident, updated, create_incident, update_incident, resolve_incident,
}
use vorliq.Incidents.Laws.{IsSound}
use vorliq.Incidents.Runs.{
  Operation, create, update, resolve, operate, operate_all, operate_all-IsSound,
}

abbrev report : Fields
report =
    field "title" (str " Slow blocks ")
      (field "message" (str "Blocks take minutes.") (field "severity" (str "MINOR") end))

abbrev operations : List Operation
operations =
    create "a" report 10
    ∷ update "a" (field "severity" (str "fatal") end) 20
    ∷ update "a" (field "severity" (str "Major") end) 30
    ∷ resolve "a" 40
    ∷ resolve "b" 50
    ∷ []

abbrev as_text : Json → String
as_text v = ""

run_of_operations :
    operate_all as_text [] operations
    ≡ record {
      id = "a";
      title = "Slow blocks";
      description = "Blocks take minutes.";
      severity = "major";
      status = "resolved";
      affected_services = [];
      created_at = 10;
      updated_at = 40;
      resolved_at = some 40;
    }
      ∷ []
unfolding operate_all operate create_incident update_incident resolve_incident find_incident
    replace_incident updated new_incident services require_text require_severity require_status
    find_word trim trim_start trim_end size units lower_codes codes_eq lookup
run_of_operations = refl

operate_all-IsSound_example : All IsSound (operate_all as_text [] operations)
operate_all-IsSound_example = operate_all-IsSound as_text [] operations tt
