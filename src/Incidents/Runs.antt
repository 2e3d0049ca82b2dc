-- ===== src/Incidents/Runs.antt =====
-- The store after any operations on it.
use vorliq.Common.{
  ℕ, String, ◌≡◌, refl, Option, none, some, List, [], ◌∷◌, ◌++◌, All, str_eq, arith, Bool-cases,
  inl, inr,
}
use mathlib.Core.Path.{subst}
use mathlib.Core.Option.{some-injective}
use vorliq.Json.Defs.{Json, str, Fields, end, field}
use vorliq.Incidents.{Incident, Tried, fine, failed, new_incident}
use vorliq.Incidents.Store.{
  find_incident, replace_incident, updated, appended, create_incident, replaced, update_found,
  update_incident, resolve_incident,
}
use vorliq.Incidents.Laws.{IsSound, new_incident-IsSound}
use vorliq.Incidents.Update.{updated-IsSound}

pub data Operation : Type 0 where
  create : String → Fields → ℕ → Operation
  update : String → Fields → ℕ → Operation
  resolve : String → ℕ → Operation

append-IsSound :
    (store : List Incident) (i : Incident)
    → All IsSound store
    → IsSound i
    → All IsSound (store ++ (i ∷ []))
append-IsSound [] i all sound = (sound, tt)
append-IsSound (j ∷ store) i all sound = (all.0, append-IsSound store i all.1 sound)

find-IsSound :
    (store : List Incident) (id : String) (i : Incident)
    → All IsSound store
    → find_incident store id ≡ some i
    → IsSound i
unfolding find_incident
find-IsSound [] id i all h = ground arith
find-IsSound (j ∷ store) id i all h = elim (Bool-cases (str_eq j.id id)) [
  | inl e ↦ subst IsSound (some-injective j i (ground arith)) all.0
  | inr e ↦ find-IsSound store id i all.1 (ground arith)
]

replace-IsSound :
    (store : List Incident) (id : String) (i : Incident)
    → All IsSound store
    → IsSound i
    → All IsSound (replace_incident store id i)
unfolding replace_incident
replace-IsSound [] id i all sound = tt
replace-IsSound (j ∷ store) id i all sound = elim (Bool-cases (str_eq j.id id)) [
  | inl e ↦ rw e (sound, all.1)
  | inr e ↦ rw e (all.0, replace-IsSound store id i all.1 sound)
]

module _ (to_string : Json → String) where
  unfoldable pub operate : List Incident → Operation → List Incident
  operate store (create id input now) = (create_incident to_string store id input now).1
  operate store (update id input now) = (update_incident to_string store id input now).1
  operate store (resolve id now) = (resolve_incident to_string store id now).1

  unfoldable pub operate_all : List Incident → List Operation → List Incident
  operate_all store [] = store
  operate_all store (o ∷ os) = operate_all (operate store o) os

  appended-IsSound :
      (store : List Incident) (t : Tried Incident)
      → All IsSound store
      → ((i : Incident) → t ≡ fine i → IsSound i)
      → All IsSound (appended to_string store t).1
  appended-IsSound store (fine i) all sound = append-IsSound store i all (sound i refl)
  appended-IsSound store (failed p) all sound = all

  replaced-IsSound :
      (store : List Incident) (id : String) (t : Tried Incident)
      → All IsSound store
      → ((i : Incident) → t ≡ fine i → IsSound i)
      → All IsSound (replaced to_string store id t).1
  replaced-IsSound store id (fine i) all sound = replace-IsSound store id i all (sound i refl)
  replaced-IsSound store id (failed p) all sound = all

  update_found-IsSound :
      (store : List Incident) (id : String) (input : Fields) (now : ℕ) (found : Option Incident)
      → All IsSound store
      → find_incident store id ≡ found
      → All IsSound (update_found to_string store id input now found).1
  update_found-IsSound store id input now none all h = all
  update_found-IsSound store id input now (some i) all h =
      replaced-IsSound store id (updated to_string i input now) all
        (λ j. updated-IsSound to_string i input now j (find-IsSound store id i all h))

  operate-IsSound :
      (store : List Incident) (o : Operation) → All IsSound store → All IsSound (operate store o)
  unfolding operate create_incident update_incident resolve_incident
  operate-IsSound store (create id input now) all =
      appended-IsSound store (new_incident to_string id input now) all
        (new_incident-IsSound to_string id input now)
  operate-IsSound store (update id input now) all =
      update_found-IsSound store id input now (find_incident store id) all refl
  operate-IsSound store (resolve id now) all =
      update_found-IsSound store id (field "status" (str "resolved") end) now
        (find_incident store id) all refl

  -- Whatever incidents are created, updated and resolved, every incident of the store has a title of 1 to
  -- 160 units and a description of 1 to 3000, a severity and a status of the lists, at most 12 services,
  -- and a time of resolution exactly if its status is resolved, if that held of the store at first.
  pub operate_all-IsSound :
      (store : List Incident) (os : List Operation)
      → All IsSound store
      → All IsSound (operate_all store os)
  unfolding operate_all
  operate_all-IsSound store [] all = all
  operate_all-IsSound store (o ∷ os) all =
      operate_all-IsSound (operate store o) os (operate-IsSound store o all)
