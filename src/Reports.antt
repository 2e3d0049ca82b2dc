-- ===== src/Reports.antt =====
-- backend/communityReports.js: what members report, and its moderation.
pub mod Kept
mod Tests
use Prim.Native.Char.{code}
use vorliq.Common.{
  ℕ, ◌-◌, String, Bool, true, false, not, ◌&&◌, ◌||◌, Option, none, some, List, [], ◌∷◌, ◌++◌,
  str_eq, ◌==◌, length, drop, filter, if◌then◌else◌, ltb,
}
use vorliq.Common.Text.{trim, without_nul, one_of}
use vorliq.Json.Defs.{Json, str, obj, Fields, end, field, lookup}
use vorliq.Json.Stringify.{stringify}
use vorliq.Json.Truth.{is_truthy, either}
use vorliq.NodeLifecycle.{cut}
use vorliq.Validation.Secret.{has_secret}

pub record Report : Type 0 where
  pub report_id : String
  pub target_type : String
  pub target_id : String
  pub reported_by : String
  pub reason : String
  pub description : String
  pub timestamp : ℕ
  pub status : String
  pub moderator_note : String
  pub source : String
  pub reviewed_at : Option ℕ

abbrev pub target_types : List String
target_types = "forum_post" ∷ "forum_reply" ∷ "chat_message" ∷ "profile" ∷ []

abbrev pub reasons : List String
reasons = "spam" ∷ "impersonation" ∷ "abuse" ∷ "scam" ∷ "illegal_content" ∷ "other" ∷ []

abbrev pub statuses : List String
statuses = "open" ∷ "reviewed" ∷ "dismissed" ∷ "action_taken" ∷ []

-- .replace(/[<>]/g, "")
unfoldable pub without_angles : String → String
without_angles String.[] = String.[]
without_angles (String.◌∷◌ c s) =
    let rest = without_angles s in
    if code c == b'<' || code c == b'>' then rest else String.◌∷◌ c rest

-- The errors that are thrown, with their statuses.
pub data Refusal : Type 0 where
  secret_400 : Refusal
  bad_target_type_400 : Refusal
  no_target_400 : Refusal
  bad_reason_400 : Refusal
  bad_status_400 : Refusal
  not_found_404 : Refusal

pub data Result : Type 0 where
  done : Report → Result
  refused : Refusal → Result

-- String of a value, and JSON.stringify of a text
pub record Runtime : Type 0 where
  pub to_string : Json → String
  pub quote : String → String

module _ (js : Runtime) where
  open js use {to_string, quote}

  abbrev pub string_of : Option Json → String
  string_of none = ""
  string_of (some v) = if is_truthy (some v) then to_string v else ""

  unfoldable pub clean_text : Option Json → ℕ → String
  clean_text v max = cut max (trim (without_angles (without_nul (string_of v))))

  abbrev pub is_unsafe : Fields → Bool
  is_unsafe payload = has_secret (stringify quote (obj payload))

  abbrev pub or_anonymous : String → String
  or_anonymous s = if str_eq s "" then "anonymous" else s

  unfoldable pub new_report : String → Fields → ℕ → Report
  new_report id input now = record {
    report_id = id;
    target_type = clean_text (either (lookup "target_type" input) (lookup "targetType" input)) 40;
    target_id = clean_text (either (lookup "target_id" input) (lookup "targetId" input)) 160;
    reported_by = or_anonymous (
        clean_text
          (either (either (lookup "reported_by" input) (lookup "reportedBy" input))
            (some (str "anonymous")))
          160);
    reason = clean_text (lookup "reason" input) 40;
    description = clean_text (lookup "description" input) 1000;
    timestamp = now;
    status = "open";
    moderator_note = "";
    source =
        clean_text
          (either (either (lookup "source" input) (lookup "route" input)) (some (str "web"))) 120;
    reviewed_at = none;
  }

  abbrev pub complaint_about : Fields → Report → Option Refusal
  complaint_about input r =
      if is_unsafe input
      then some secret_400
      else if not (one_of target_types r.target_type)
      then some bad_target_type_400
      else if str_eq r.target_id ""
      then some no_target_400
      else if not (one_of reasons r.reason)
      then some bad_reason_400
      else none

  -- The file keeps the last 5000 reports.
  abbrev pub stored : List Report → Report → Option Refusal → Result × List Report
  stored reports r (some why) = (refused why, reports)
  stored reports r none = (done r, (let all = reports ++ (r ∷ []) in drop (length all - 5000) all))

  unfoldable pub create_report : List Report → String → Fields → ℕ → Result × List Report
  create_report reports id input now =
      let r = new_report id input now in stored reports r (complaint_about input r)

  unfoldable pub find_report : List Report → String → Option Report
  find_report [] id = none
  find_report (r ∷ reports) id = if str_eq r.report_id id then some r else find_report reports id

  abbrev pub reviewed : Report → String → String → ℕ → Report
  reviewed r status note now = record {
    report_id = r.report_id;
    target_type = r.target_type;
    target_id = r.target_id;
    reported_by = r.reported_by;
    reason = r.reason;
    description = r.description;
    timestamp = r.timestamp;
    status = status;
    moderator_note = note;
    source = r.source;
    reviewed_at = some now;
  }

  unfoldable pub review_first : List Report → String → String → String → ℕ → List Report
  review_first [] id status note now = []
  review_first (r ∷ reports) id status note now =
      if str_eq r.report_id id
      then reviewed r status note now ∷ reports
      else r ∷ review_first reports id status note now

  abbrev pub updated :
      List Report → String → String → String → ℕ → Option Report → Result × List Report
  updated reports id status note now none = (refused not_found_404, reports)
  updated reports id status note now (some r) =
      (done (reviewed r status note now), review_first reports id status note now)

  unfoldable pub update_report : List Report → Json → Json → Json → ℕ → Result × List Report
  update_report reports id status note now =
      let clean_id = clean_text (some id) 120 in
      let clean_status = clean_text (some status) 40 in
      if not (one_of statuses clean_status)
      then (refused bad_status_400, reports)
      else if is_unsafe (field "moderatorNote" note end)
      then (refused secret_400, reports)
      else updated reports clean_id clean_status (clean_text (some note) 1000) now
          (find_report reports clean_id)

  -- The latest first; reports of one time stay in their order.
  unfoldable pub insert_latest : Report → List Report → List Report
  insert_latest r [] = r ∷ []
  insert_latest r (q ∷ rest) =
      if ltb r.timestamp q.timestamp then q ∷ insert_latest r rest else r ∷ q ∷ rest

  unfoldable pub sort_latest : List Report → List Report
  sort_latest [] = []
  sort_latest (r ∷ reports) = insert_latest r (sort_latest reports)

  unfoldable pub list_reports : List Report → Option Json → List Report
  list_reports reports status =
      let wanted = clean_text status 40 in
      sort_latest (filter (λ r. str_eq wanted "" || str_eq r.status wanted) reports)

  unfoldable pub report_count_for_target : List Report → String → String → ℕ
  report_count_for_target reports target_type target_id =
      length
        (filter (λ r. str_eq r.target_type target_type && str_eq r.target_id target_id) reports)
