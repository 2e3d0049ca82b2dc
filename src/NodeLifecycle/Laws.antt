-- ===== src/NodeLifecycle/Laws.antt =====
-- What an update does to the status shown later, and what the counts of a summary say.
use vorliq.Common.{
  ℕ, ◌+◌, String, true, false, Option, none, ltb, ◌≡◌, refl, some, List, [], ◌∷◌, arith, str_eq,
  str_eq-eq, if◌then◌else◌, Bool-cases, ◌⊎◌, inl, inr, ap, ◌∙◌, sym,
}
use vorliq.NodeLifecycle.{
  Node, Update, or_text, Options, Summary, is_explicit, normalize_status, text, strip, cut,
  classified_status, updated_node, apply_node_lifecycle, summarize_node_lifecycle, seen_since,
  window_or, active_window_seconds, stale_window_seconds, counted,
}
use vorliq.Common.Text.{trim, lower_codes, lower_code, codes_eq}

normalize-archived : normalize_status "archived" ≡ "archived"
unfolding normalize_status text strip cut trim lower_codes codes_eq lower_code
normalize-archived = refl

normalize-retired : normalize_status "retired" ≡ "retired"
unfolding normalize_status text strip cut trim lower_codes codes_eq lower_code
normalize-retired = refl

normalize-explicit : (s : String) → is_explicit s ≡ true → normalize_status s ≡ s
normalize-explicit s h = elim (Bool-cases (str_eq s "archived")) [
  | inl same ↦
      let e : s ≡ "archived" = str_eq-eq s "archived" same in
      ap normalize_status e ∙ normalize-archived ∙ sym e
  | inr other ↦
      let e : s ≡ "retired" = str_eq-eq s "retired" (ground arith) in
      ap normalize_status e ∙ normalize-retired ∙ sym e
]

-- The status by when a node was last seen: until half an hour after it, or the window that is set, the
-- node is active, until seven days after it, or the window that is set, it is stale.
abbrev pub status_by_age : Option ℕ → ℕ → Options → String
status_by_age none now options = "inactive"
status_by_age (some at) now options =
    if ltb (at + window_or options.active_window 1800) now
    then (if ltb (at + window_or options.stale_window 604800) now then "inactive" else "stale")
    else "active"

-- The status of a node that has none under the first spelling.
abbrev pub status_left : Node → ℕ → Options → String
status_left n now options =
    if is_explicit (normalize_status n.camel.lifecycle_status)
    then normalize_status n.camel.lifecycle_status
    else status_by_age n.last_seen now options

aged-status_by_age :
    (seen : Option ℕ) (now : ℕ) (options : Options)
    → (if seen_since seen now (window_or options.active_window active_window_seconds)
        then "active"
        else if seen_since seen now (window_or options.stale_window stale_window_seconds)
        then "stale"
        else "inactive")
      ≡ status_by_age seen now options
aged-status_by_age none now options = refl
aged-status_by_age (some at) now options = ground arith

explicit-given : (s : String) → is_explicit s ≡ true → str_eq s "" ≡ false
explicit-given s h = elim (Bool-cases (str_eq s "")) [
  | inl blank ↦
      let e : is_explicit "" ≡ true = ap is_explicit (sym (str_eq-eq s "" blank)) ∙ h in
      absurd (ground arith)
  | inr given ↦ given
]

classified-updated :
    (now_iso : String) (n : Node) (u : Update) (now : ℕ) (next : String) (later : ℕ)
    (options : Options)
    → classified_status (updated_node now_iso n u now next) later options
      ≡ (if is_explicit next then next else status_left n later options)
unfolding classified_status updated_node
classified-updated now_iso n u now next later options = elim (Bool-cases (is_explicit next)) [
  | inl e ↦ rw (e, explicit-given next e, normalize-explicit next e, e) refl
  | inr e ↦ rw (e, aged-status_by_age n.last_seen later options) refl
]

-- Once a node was archived or retired by an update, it is shown so at every later time, whenever it was
-- last seen. After an update to another status it is shown as what its second spelling says, lifecycleStatus,
-- if that is archived or retired, else by when it was last seen alone: as active until half an hour after
-- it, then as stale until seven days after it, or until the end of the windows that are set.
pub classified-apply :
    (now_iso : String) (n : Node) (u : Update) (now : ℕ) (updated : Node)
    → apply_node_lifecycle now_iso n u now ≡ some updated
    → (later : ℕ) (options : Options)
    → classified_status updated later options ≡ (
        if is_explicit (normalize_status u.status)
        then normalize_status u.status
        else status_left n later options)
unfolding apply_node_lifecycle
classified-apply now_iso n u now updated done later options =
    elim (Bool-cases (str_eq (normalize_status u.status) "")) [
      | inl blank ↦ ground arith
      | inr given ↦
          let same : updated_node now_iso n u now (normalize_status u.status) ≡ updated =
            ground arith in
          ap (λ m. classified_status m later options) (sym same)
          ∙ classified-updated now_iso n u now (normalize_status u.status) later options
    ]

-- The five statuses, of which a classified node has one.
IsStatus : String → Type 0
IsStatus s =
    (s ≡ "active") ⊎ ((s ≡ "stale") ⊎ ((s ≡ "inactive") ⊎ ((s ≡ "archived") ⊎ (s ≡ "retired"))))

classified-IsStatus :
    (n : Node) (now : ℕ) (options : Options) → IsStatus (classified_status n now options)
unfolding classified_status IsStatus
classified-IsStatus n now options =
    let status = normalize_status (or_text n.lifecycle_status n.camel.lifecycle_status) in
    elim (Bool-cases (is_explicit status)) [
      | inl e ↦ rw e (elim (Bool-cases (str_eq status "archived")) [
        | inl same ↦ inr (inr (inr (inl (str_eq-eq status "archived" same))))
        | inr other ↦ inr (inr (inr (inr (str_eq-eq status "retired" (ground arith)))))
      ])
      | inr e ↦
          rw e
            (elim (Bool-cases (
              seen_since n.last_seen now (window_or options.active_window active_window_seconds))) [
                | inl recent ↦ rw recent (inl refl)
                | inr late ↦
                    rw late
                      (elim (Bool-cases (
                        seen_since n.last_seen now
                          (window_or options.stale_window stale_window_seconds))) [
                            | inl seen ↦ rw seen (inr (inl refl))
                            | inr gone ↦ rw gone (inr (inr (inl refl)))
                          ])
              ])
    ]

-- What the counts of a summary say about each other.
IsComplete : Summary → Type 0
IsComplete s =
    (s.active_count + s.stale_count + s.inactive_count + s.archived_count + s.retired_count
      ≡ s.total_count)
    × (s.visible_public_count + s.archived_count + s.retired_count ≡ s.total_count)

counted-IsComplete :
    (status : String) (s : Summary) → IsStatus status → IsComplete s → IsComplete (counted status s)
unfolding IsComplete IsStatus
counted-IsComplete status s (inl e) (all, shown) = rw e (omega arith, omega arith)
counted-IsComplete status s (inr (inl e)) (all, shown) = rw e (omega arith, omega arith)
counted-IsComplete status s (inr (inr (inl e))) (all, shown) = rw e (omega arith, omega arith)
counted-IsComplete status s (inr (inr (inr (inl e)))) (all, shown) = rw e (omega arith, omega arith)
counted-IsComplete status s (inr (inr (inr (inr e)))) (all, shown) = rw e (omega arith, omega arith)

-- Every node is in one of the five counts of statuses, and in the public count exactly if it is in none
-- of the counts of archived and retired nodes.
summarize-IsComplete :
    (ns : List Node) (now : ℕ) (options : Options)
    → IsComplete (summarize_node_lifecycle ns now options)
unfolding summarize_node_lifecycle
summarize-IsComplete [] now options = unfold IsComplete in (refl, refl)
summarize-IsComplete (n ∷ ns) now options =
    counted-IsComplete (classified_status n now options) (summarize_node_lifecycle ns now options)
      (classified-IsStatus n now options) (summarize-IsComplete ns now options)
