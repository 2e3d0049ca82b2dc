-- ===== src/Incidents/Update.antt =====
-- Lemmas on the parts of an update of an incident.
use vorliq.Common.{ℕ, String, ◌||◌, ◌≡◌, Option, none, some, Bool-cases, inl, inr}
use mathlib.Core.Path.{subst}
use vorliq.Json.Defs.{Json, Fields, lookup}
use vorliq.Json.Truth.{either}
use vorliq.Incidents.{
  Incident, Tried, fine, require_text, require_severity, require_status, is_defined,
}
use vorliq.Incidents.Store.{
  if_given, change_title, change_description, change_severity, change_status, change_services,
  updated,
}
use vorliq.Incidents.Laws.{
  IsSound, and_then-elim, fine-injective, require_text-fine, require_severity-fine,
  require_status-fine, resolved_time-is_set, services-few,
}

module _ (to_string : Json → String) where
  if_given-IsSound :
      (v : Option Json) (i out : Incident) (change : Option Json → Tried Incident)
      → if_given v i change ≡ fine out
      → IsSound i
      → ((j : Incident) → change v ≡ fine j → IsSound j)
      → IsSound out
  if_given-IsSound none i out change h sound keeps = subst IsSound (fine-injective h) sound
  if_given-IsSound (some v) i out change h sound keeps = keeps out h

  change_title-IsSound :
      (i : Incident) (v : Option Json) (j : Incident)
      → IsSound i
      → change_title i v ≡ fine j
      → IsSound j
  change_title-IsSound i v j s h = and_then-elim (require_text v "title" 160) _ h λ title p q.
      let (a, b) = require_text-fine v "title" 160 title p in
      subst IsSound (fine-injective q) record {
        titled = a;
        short_title = b;
        described = s.described;
        short_description = s.short_description;
        severe = s.severe;
        known_status = s.known_status;
        few_services = s.few_services;
        has_time = s.has_time;
      }

  change_description-IsSound :
      (i : Incident) (v : Option Json) (j : Incident)
      → IsSound i
      → change_description i v ≡ fine j
      → IsSound j
  change_description-IsSound i v j s h =
      and_then-elim (require_text v "description" 3000) _ h λ description p q.
        let (a, b) = require_text-fine v "description" 3000 description p in
        subst IsSound (fine-injective q) record {
          titled = s.titled;
          short_title = s.short_title;
          described = a;
          short_description = b;
          severe = s.severe;
          known_status = s.known_status;
          few_services = s.few_services;
          has_time = s.has_time;
        }

  change_severity-IsSound :
      (i : Incident) (v : Option Json) (j : Incident)
      → IsSound i
      → change_severity i v ≡ fine j
      → IsSound j
  change_severity-IsSound i v j s h = and_then-elim (require_severity v) _ h λ severity p q.
      subst IsSound (fine-injective q) record {
        titled = s.titled;
        short_title = s.short_title;
        described = s.described;
        short_description = s.short_description;
        severe = require_severity-fine v severity p;
        known_status = s.known_status;
        few_services = s.few_services;
        has_time = s.has_time;
      }

  change_status-IsSound :
      (now : ℕ) (i : Incident) (v : Option Json) (j : Incident)
      → IsSound i
      → change_status now i v ≡ fine j
      → IsSound j
  change_status-IsSound now i v j s h = and_then-elim (require_status v) _ h λ status p q.
      subst IsSound (fine-injective q) record {
        titled = s.titled;
        short_title = s.short_title;
        described = s.described;
        short_description = s.short_description;
        severe = s.severe;
        known_status = require_status-fine v status p;
        few_services = s.few_services;
        has_time = resolved_time-is_set status now;
      }

  change_services-IsSound :
      (i : Incident) (v other : Option Json)
      → IsSound i
      → IsSound (change_services to_string i v other)
  change_services-IsSound i v other s = elim (Bool-cases (is_defined v || is_defined other)) [
    | inl t ↦ rw t record {
      titled = s.titled;
      short_title = s.short_title;
      described = s.described;
      short_description = s.short_description;
      severe = s.severe;
      known_status = s.known_status;
      few_services = services-few to_string (either v other);
      has_time = s.has_time;
    }
    | inr f ↦ rw f s
  ]

  pub updated-IsSound :
      (i : Incident) (input : Fields) (now : ℕ) (out : Incident)
      → IsSound i
      → updated to_string i input now ≡ fine out
      → IsSound out
  unfolding updated
  updated-IsSound i input now out s h =
      and_then-elim (if_given (lookup "title" input) i (change_title i)) _ h λ i1 p1 h1.
        let s1 =
          if_given-IsSound (lookup "title" input) i i1 (change_title i) p1 s
            (λ j. change_title-IsSound i (lookup "title" input) j s) in
        and_then-elim (if_given (lookup "description" input) i1 (change_description i1)) _ h1
          λ i2 p2 h2.
            let s2 =
              if_given-IsSound (lookup "description" input) i1 i2 (change_description i1) p2 s1
                (λ j. change_description-IsSound i1 (lookup "description" input) j s1) in
            and_then-elim (if_given (lookup "message" input) i2 (change_description i2)) _ h2
              λ i3 p3 h3.
                let s3 =
                  if_given-IsSound (lookup "message" input) i2 i3 (change_description i2) p3 s2
                    (λ j. change_description-IsSound i2 (lookup "message" input) j s2) in
                let i4 =
                  change_services to_string i3 (lookup "affected_services" input)
                    (lookup "affectedServices" input) in
                let s4 =
                  change_services-IsSound i3 (lookup "affected_services" input)
                    (lookup "affectedServices" input) s3 in
                and_then-elim (if_given (lookup "severity" input) i4 (change_severity i4)) _ h3
                  λ i5 p5 h5.
                    let s5 =
                      if_given-IsSound (lookup "severity" input) i4 i5 (change_severity i4) p5 s4
                        (λ j. change_severity-IsSound i4 (lookup "severity" input) j s4) in
                    and_then-elim (if_given (lookup "status" input) i5 (change_status now i5)) _ h5
                      λ i6 p6 h6.
                        let s6 =
                          if_given-IsSound (lookup "status" input) i5 i6 (change_status now i5) p6
                            s5 (λ j. change_status-IsSound now i5 (lookup "status" input) j s5) in
                        subst IsSound (fine-injective h6) record {
                          titled = s6.titled;
                          short_title = s6.short_title;
                          described = s6.described;
                          short_description = s6.short_description;
                          severe = s6.severe;
                          known_status = s6.known_status;
                          few_services = s6.few_services;
                          has_time = s6.has_time;
                        }
