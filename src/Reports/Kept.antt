-- ===== src/Reports/Kept.antt =====
-- A report of backend/communityReports.js in the file, under what comes after it.
use vorliq.Common.{
  ℕ, zero, suc, ◌+◌, ◌-◌, ◌≤◌, ◌<◌, String, Bool, true, false, ◌≡◌, refl, Option, none, some, List,
  [], ◌∷◌, ◌++◌, arith, str_eq, eq_refl, length, length-append, drop, Bool-cases, inl, inr,
  if◌then◌else◌, not, ap, ◌∙◌,
}
use vorliq.Common.Text.{one_of}
use vorliq.Json.Defs.{Json, Fields, end, field}
use vorliq.Reports.{
  Report, Refusal, Runtime, Result, done, new_report, complaint_about, stored, create_report,
  find_report, review_first, updated, update_report, statuses, clean_text, is_unsafe,
}

done-injective : {r q : Report} → done r ≡ done q → r ≡ q
done-injective h = cc

-- What a moderator does not change.
abbrev pub content : Report → List String × ℕ
content r = (
  r.report_id ∷ r.target_type ∷ r.target_id ∷ r.reported_by ∷ r.reason ∷ r.description ∷ r.source
      ∷ [],
  r.timestamp,
)

-- The first report of the id has the content of a report, and at most n reports stand after it.
data IsKept (id : String) (made : Report) (n : ℕ) : List Report → Type 0 where
  here :
      {r : Report} {rest : List Report}
      → str_eq r.report_id id ≡ true
      → content r ≡ content made
      → length rest ≤ n
      → IsKept id made n (r ∷ rest)
  later :
      {r : Report} {rest : List Report}
      → str_eq r.report_id id ≡ false
      → IsKept id made n rest
      → IsKept id made n (r ∷ rest)

append-IsKept :
    (id : String) (made r : Report) (n : ℕ) (reports : List Report)
    → IsKept id made n reports
    → IsKept id made (suc n) (reports ++ (r ∷ []))
append-IsKept id made r n [] kept = elim kept [ ]
append-IsKept id made r n (q ∷ rest) (here same as_made few) =
    here same as_made (omega (arith, length-append rest (r ∷ []), few))
append-IsKept id made r n (q ∷ rest) (later other kept) =
    later other (append-IsKept id made r n rest kept)

drop-IsKept :
    (id : String) (made : Report) (n k m : ℕ) (reports : List Report)
    → n < k
    → m ≤ length reports - k
    → IsKept id made n reports
    → IsKept id made n (drop m reports)
drop-IsKept id made n k zero reports less few kept = kept
drop-IsKept id made n k (suc m) [] less few kept = elim kept [ ]
drop-IsKept id made n k (suc m) (q ∷ rest) less few (here same as_made short) = ground arith
drop-IsKept id made n k (suc m) (q ∷ rest) less few (later other kept) =
    drop-IsKept id made n k m rest less (omega (arith, few)) kept

find-IsKept :
    (js : Runtime) (id : String) (made : Report) (n : ℕ) (reports : List Report)
    → IsKept id made n reports
    → (r : Report) × ((find_report js reports id ≡ some r) × (content r ≡ content made))
unfolding find_report
find-IsKept js id made n [] kept = elim kept [ ]
find-IsKept js id made n (q ∷ rest) (here same as_made few) = (q, (rw same refl, as_made))
find-IsKept js id made n (q ∷ rest) (later other kept) =
    let (r, (found, as_made)) = find-IsKept js id made n rest kept in (r, (rw other found, as_made))

length-review_first :
    (js : Runtime) (reports : List Report) (id status note : String) (now : ℕ)
    → length (review_first js reports id status note now) ≡ length reports
unfolding review_first
length-review_first js [] id status note now = refl
length-review_first js (q ∷ rest) id status note now = elim (Bool-cases (str_eq q.report_id id)) [
  | inl same ↦ rw same refl
  | inr other ↦ rw other (ap (λ k. suc k) (length-review_first js rest id status note now))
]

review_first-IsKept :
    (js : Runtime) (id : String) (made : Report) (n : ℕ) (reports : List Report)
    (other status note : String) (now : ℕ)
    → IsKept id made n reports
    → IsKept id made n (review_first js reports other status note now)
unfolding review_first
review_first-IsKept js id made n [] other status note now kept = elim kept [ ]
review_first-IsKept js id made n (q ∷ rest) other status note now (here same as_made few) =
    elim (Bool-cases (str_eq q.report_id other)) [
      | inl it ↦ rw it (here same as_made few)
      | inr no_match ↦ rw no_match (
          here same as_made (omega (arith, length-review_first js rest other status note now, few)))
    ]
review_first-IsKept js id made n (q ∷ rest) other status note now (later differ kept) =
    elim (Bool-cases (str_eq q.report_id other)) [
      | inl it ↦ rw it (later differ kept)
      | inr no_match ↦
          rw no_match
            (later differ (review_first-IsKept js id made n rest other status note now kept))
    ]

grown :
    (id : String) (made : Report) (n : ℕ) (reports : List Report)
    → IsKept id made n reports
    → IsKept id made (suc n) reports
grown id made n [] kept = elim kept [ ]
grown id made n (q ∷ rest) (here same as_made few) = here same as_made (omega (arith, few))
grown id made n (q ∷ rest) (later other kept) = later other (grown id made n rest kept)

fresh-IsKept :
    (js : Runtime) (reports : List Report) (r : Report)
    → find_report js reports r.report_id ≡ none
    → IsKept r.report_id r 0 (reports ++ (r ∷ []))
unfolding find_report
fresh-IsKept js [] r fresh = here (eq_refl r.report_id) refl (omega arith)
fresh-IsKept js (q ∷ rest) r fresh = elim (Bool-cases (str_eq q.report_id r.report_id)) [
  | inl same ↦ ground (arith, same)
  | inr other ↦ later other (fresh-IsKept js rest r (ground (arith, other)))
]

pub data Event : Type 0 where
  report : String → Fields → ℕ → Event
  review : Json → Json → Json → ℕ → Event

-- The number of reports in a list of events.
abbrev pub count_reports : List Event → ℕ
count_reports [] = 0
count_reports (report id input now ∷ events) = suc (count_reports events)
count_reports (review id status note now ∷ events) = count_reports events

module _ (js : Runtime) where
  unfoldable pub run : List Report → Event → List Report
  run reports (report id input now) = (create_report js reports id input now).1
  run reports (review id status note now) = (update_report js reports id status note now).1

  unfoldable pub run_all : List Report → List Event → List Report
  run_all reports [] = reports
  run_all reports (e ∷ events) = run_all (run reports e) events

  stored-IsKept :
      (id : String) (made r : Report) (n : ℕ) (reports : List Report) (why : Option Refusal)
      → suc n < 5000
      → IsKept id made n reports
      → IsKept id made (suc n) (stored js reports r why).1
  stored-IsKept id made r n reports (some why) room kept = grown id made n reports kept
  stored-IsKept id made r n reports none room kept =
      drop-IsKept id made (suc n) 5000 (length (reports ++ (r ∷ [])) - 5000) (reports ++ (r ∷ []))
        room (omega arith) (append-IsKept id made r n reports kept)

  updated-IsKept :
      (id : String) (made : Report) (n : ℕ) (reports : List Report) (other status note : String)
      (now : ℕ) (found : Option Report)
      → IsKept id made n reports
      → IsKept id made n (updated js reports other status note now found).1
  updated-IsKept id made n reports other status note now none kept = kept
  updated-IsKept id made n reports other status note now (some r) kept =
      review_first-IsKept js id made n reports other status note now kept

  if-IsKept :
      (id : String) (made : Report) (n : ℕ) (test : Bool) (x y : Result × List Report)
      → IsKept id made n x.1
      → IsKept id made n y.1
      → IsKept id made n (if test then x else y).1
  if-IsKept id made n true x y a b = a
  if-IsKept id made n false x y a b = b

  update_report-IsKept :
      (id : String) (made : Report) (n : ℕ) (reports : List Report) (other status note : Json)
      (now : ℕ)
      → IsKept id made n reports
      → IsKept id made n (update_report js reports other status note now).1
  unfolding update_report
  update_report-IsKept id made n reports other status note now kept =
      if-IsKept id made n (not (one_of statuses (clean_text js (some status) 40))) _ _ kept (
        if-IsKept id made n (is_unsafe js (field "moderatorNote" note end)) _ _ kept (
          updated-IsKept id made n reports (clean_text js (some other) 120)
            (clean_text js (some status) 40) (clean_text js (some note) 1000) now
            (find_report js reports (clean_text js (some other) 120)) kept))

  run_all-IsKept :
      (id : String) (made : Report) (n : ℕ) (reports : List Report) (events : List Event)
      → n + count_reports events < 5000
      → IsKept id made n reports
      → (q : Report) × ((find_report js (run_all reports events) id ≡ some q)
          × (content q ≡ content made))
  unfolding run_all run create_report
  run_all-IsKept id made n reports [] room kept = find-IsKept js id made n reports kept
  run_all-IsKept id made n reports (report other input now ∷ events) room kept =
      run_all-IsKept id made (suc n) (create_report js reports other input now).1 events
        (omega arith)
        (stored-IsKept id made (new_report js other input now) n reports
          (complaint_about js input (new_report js other input now)) (omega arith) kept)
  run_all-IsKept id made n reports (review other status note now ∷ events) room kept =
      run_all-IsKept id made n (update_report js reports other status note now).1 events room
        (update_report-IsKept id made n reports other status note now kept)

  created :
      (id : String) (r made : Report) (reports : List Report) (why : Option Refusal)
      (events : List Event)
      → (stored js reports r why).0 ≡ done made
      → find_report js reports r.report_id ≡ none
      → count_reports events < 5000
      → (q : Report) × ((find_report js (run_all (stored js reports r why).1 events) r.report_id
            ≡ some q)
          × (content q ≡ content made))
  created id r made reports (some why) events accepted fresh few = ground arith
  created id r made reports none events accepted fresh few =
      let all = reports ++ (r ∷ []) in
      let kept =
        drop-IsKept r.report_id r 0 5000 (length all - 5000) all (omega arith) (omega arith)
          (fresh-IsKept js reports r fresh) in
      let (q, (found, as_made)) =
        run_all-IsKept r.report_id r 0 (drop (length all - 5000) all) events (omega (arith, few))
          kept in
      (q, (found, as_made ∙ ap content (done-injective accepted)))

  -- A report that is accepted under an id that no report has stays in the file with its content, whatever
  -- is reported and reviewed after it, until 5000 more reports are made.
  pub create_report-content :
      (reports : List Report) (id : String) (input : Fields) (now : ℕ) (made : Report)
      (events : List Event)
      → (create_report js reports id input now).0 ≡ done made
      → find_report js reports id ≡ none
      → count_reports events < 5000
      → (q : Report) × ((find_report js
              (run_all (create_report js reports id input now).1 events)
              id
            ≡ some q)
          × (content q ≡ content made))
  unfolding create_report new_report
  create_report-content reports id input now made events accepted fresh few =
      created id (new_report js id input now) made reports
        (complaint_about js input (new_report js id input now)) events accepted fresh few
