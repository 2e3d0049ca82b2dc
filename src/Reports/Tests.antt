-- ===== src/Reports/Tests.antt =====
-- A report that is made, reviewed, and followed by another one.
use vorliq.Common.{String, ◌≡◌, refl, none, some, List, [], ◌∷◌, arith}
use vorliq.Common.Text.{trim, trim_start, trim_end, without_nul, is_space, lower_codes, lower_code}
use vorliq.Json.Defs.{Json, str, Fields, end, field, lookup}
use vorliq.Json.Stringify.{stringify}
use vorliq.NodeLifecycle.{cut}
use vorliq.Validation.Secret.{has_secret}
use vorliq.Reports.{
  Report, Runtime, done, without_angles, clean_text, new_report, create_report, find_report,
}
use vorliq.Reports.Kept.{content, Event, report, review, run_all, create_report-content}

abbrev text_of : Json → String
text_of (str s) = s
text_of v = ""

abbrev js : Runtime
js = record { to_string = text_of; quote = λ s. s }

abbrev input : Fields
input = field "target_type" (str "forum_post") (
    field "targetId" (str " post-1 ")
      (field "reason" (str "spam") (field "description" (str "Pass<>word trade") end)))

-- The word of a secret can come to be in a text that was tested, since the brackets are removed later.
abbrev made : Report
made = record {
  report_id = "r1";
  target_type = "forum_post";
  target_id = "post-1";
  reported_by = "anonymous";
  reason = "spam";
  description = "Password trade";
  timestamp = 10;
  status = "open";
  moderator_note = "";
  source = "web";
  reviewed_at = none;
}

accepted : (create_report js [] "r1" input 10).0 ≡ done made
unfolding create_report new_report clean_text without_angles without_nul trim trim_start trim_end
    is_space cut lookup has_secret stringify lower_codes lower_code
accepted = refl

abbrev events : List Event
events = review (str "r1") (str "dismissed") (str "") 20 ∷ report "r2" input 30 ∷ []

create_report-content_example :
    (q : Report) × ((find_report js (run_all js (create_report js [] "r1" input 10).1 events) "r1"
        ≡ some q)
      × (content q ≡ content made))
unfolding find_report
create_report-content_example =
    create_report-content js [] "r1" input 10 made events accepted refl (omega arith)
