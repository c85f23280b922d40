-- ===== src/TaskView/Laws.antt =====
-- The sections of MyChores.jsx hold the tasks that every filter lets through.
use mathlib.Core.List.{Perm}
use mathlib.Core.List.Perm
use gsd.Prelude.{
  ◌≡◌, refl, sym, ◌∙◌, ◌⊎◌, inl, inr, Bool, true, false, not, ◌&&◌, String, Option, none, some,
  List, [], ◌∷◌, filter, filter-ext, filter_filter, filter_all, if◌then◌else◌, ◌==◌, string_eq,
  arith, Bool-cases,
}
use gsd.Js.{Scalar, null, str, truthy, scalar_eq, same_iff}
use gsd.Js.Calls.{returns, map_call}
use gsd.Dates.{Host}
use gsd.Chores.{Chore}
use gsd.Chores.Filters.{
  ChoreFilter, anyone, assigned_to_me, assigned_to_others, chore_filter, filter_by_project,
}
use gsd.Chores.Grouper.{chores_grouper, Grouped}
use gsd.Chores.Grouper.Sections.{Group}
use gsd.Chores.Grouper.Buckets.Laws.{contents}
use gsd.Chores.Grouper.Result.{
  chores_grouper-default, chores_grouper-due_date, chores_grouper-priority,
}
use gsd.TaskView.{
  Choices, in_project, base_section_chores, effective_assignee_filter, assignee_filtered,
  passes_assignee, user_id, not_in_completion_window, to_group, sections, processed_sections,
  search_filtered_chores,
}

-- The sections of these kinds are made without looking at labels.
abbrev pub IsPlainSection : String → Type 0
IsPlainSection by = (by ≡ "default") ⊎ (by ≡ "due_date") ⊎ (by ≡ "priority")

module _ (host : Host) where
  -- The tests of the view for a task that its choice of a filter or a project gives.
  abbrev pub visible : Choices → Chore → Bool
  visible v c =
      passes_assignee (effective_assignee_filter v.stored_assignee v.user) c
      && (not (v.hide_pending && not_in_completion_window host c)
          && chore_filter (user_id v) v.chore_filter c)

  grouped :
      (by : String) (cs : List Chore) (p : Chore → Bool)
      → IsPlainSection by
      → (gs : List Group) × (map_call
            (λ (g : Grouped). g.groups)
            (chores_grouper host by cs (some p))
          ≡ returns gs)
        × Perm (contents gs) (filter p cs)
  grouped by cs p (inl e) =
      let (gs, h, k) = chores_grouper-default host cs (some p) in (gs, rw (e, h) refl, k.0)
  grouped by cs p (inr (inl e)) =
      let (gs, h, k) = chores_grouper-due_date host cs (some p) in (gs, rw (e, h) refl, k.0)
  grouped by cs p (inr (inr e)) =
      let (gs, h, k) = chores_grouper-priority host cs (some p) in (gs, rw (e, h) refl, k.0)

  sections-perm :
      (v : Choices) (cs : List Chore)
      → IsPlainSection v.section
      → (gs : List Group) × (sections host v cs ≡ returns gs)
        × Perm
            (contents gs)
            (filter (chore_filter (user_id v) v.chore_filter) (to_group host v.hide_pending cs))
  unfolding sections
  sections-perm v [] h = ([], refl, nothing v.hide_pending)
    where
      nothing :
          (hide : Bool)
          → Perm [] (filter (chore_filter (user_id v) v.chore_filter) (to_group host hide []))
      nothing true = Perm.refl []
      nothing false = Perm.refl []
  sections-perm v (c ∷ cs) h =
      grouped v.section (to_group host v.hide_pending (c ∷ cs))
        (chore_filter (user_id v) v.chore_filter) h

  assignee_filtered-filter :
      (v : Choices) (cs : List Chore)
      → assignee_filtered v cs
        ≡ filter
            (passes_assignee (effective_assignee_filter v.stored_assignee v.user))
            (base_section_chores v cs)
  unfolding assignee_filtered
  assignee_filtered-filter v cs =
      by_assignee (effective_assignee_filter v.stored_assignee v.user) (base_section_chores v cs)
    where
      by_assignee :
          (a : Scalar) (ds : List Chore)
          → (if a == str "everyone" then ds else filter (λ (c : Chore). c.assigned_to == a) ds)
            ≡ filter (passes_assignee a) ds
      by_assignee a ds = elim (Bool-cases (a == str "everyone")) [
        | inl e ↦
            rw e
              (sym (filter_all ds) ∙ filter-ext (λ _. true) (passes_assignee a) (λ c. rw e refl) ds)
        | inr e ↦
            rw e (
              filter-ext (λ (c : Chore). c.assigned_to == a) (passes_assignee a) (λ c. rw e refl)
                ds)
      ]

  to_group-filter :
      (hide : Bool) (cs : List Chore)
      → to_group host hide cs ≡ filter (λ c. not (hide && not_in_completion_window host c)) cs
  to_group-filter true cs = refl
  to_group-filter false cs = sym (filter_all cs)

  visible-filter :
      (v : Choices) (cs : List Chore)
      → filter
          (chore_filter (user_id v) v.chore_filter)
          (to_group host v.hide_pending (assignee_filtered v cs))
        ≡ filter (visible v) (base_section_chores v cs)
  visible-filter v cs =
      let quick = chore_filter (user_id v) v.chore_filter in
      let open_now : Chore → Bool = λ c. not (v.hide_pending && not_in_completion_window host c) in
      let assigned = passes_assignee (effective_assignee_filter v.stored_assignee v.user) in
      let base = base_section_chores v cs in
      rw (to_group-filter v.hide_pending (assignee_filtered v cs), assignee_filtered-filter v cs)
        (filter_filter quick open_now (λ c. open_now c && quick c) (λ c. refl)
            (filter assigned base)
          ∙ filter_filter (λ c. open_now c && quick c) assigned (visible v) (λ c. refl) base)

  -- Where the tasks are grouped by 'default', 'due_date' or 'priority', the sections hold exactly the
  -- tasks of the chosen filter or project that the assignee filter, the hiding of pending tasks and the
  -- quick choice of tasks let through, each once; so changing the grouping changes no task.
  pub processed_sections-perm :
      (v : Choices) (cs : List Chore)
      → IsPlainSection v.section
      → (gs : List Group) × (processed_sections host v cs ≡ returns gs)
        × Perm (contents gs) (filter (visible v) (base_section_chores v cs))
  unfolding processed_sections
  processed_sections-perm v cs h =
      rw (← visible-filter v cs) (sections-perm v (assignee_filtered v cs) h)

-- The project of the view, or `null`.
abbrev pub project_of : Option Scalar → Scalar
project_of none = null
project_of (some p) = p

in_project-filter_by_project :
    (p : Option Scalar) (cs : List Chore) → in_project p cs ≡ filter_by_project cs (project_of p)
unfolding in_project filter_by_project
in_project-filter_by_project none cs =
    filter-ext _ _ (λ c. ground (arith, same_iff c.project_id null, same_iff c.project_id (str "")))
      cs
in_project-filter_by_project (some p) cs = elim (Bool-cases (p == str "default")) [
  | inl e ↦ rw ((same_iff p (str "default")).0 e) (
      filter-ext _ _
        (λ c. ground (arith, same_iff c.project_id null, same_iff c.project_id (str ""))) cs)
  | inr e ↦ rw (e, filter_by_project) refl
]

module _ (search : String → List Chore → List Chore) (project : Option Scalar)
    (user profile : Scalar) (known : truthy user ≡ true) where
  impersonated-others :
      (cs : List Chore)
      → filter
          (chore_filter user assigned_to_others)
          (filter (λ (c : Chore). c.assigned_to == user) cs)
        ≡ []
  unfolding chore_filter
  impersonated-others [] = refl
  impersonated-others (c ∷ cs) = elim (Bool-cases (c.assigned_to == user)) [
    | inl e ↦ rw (e, e, impersonated-others cs) (ground arith)
    | inr e ↦ rw (e, impersonated-others cs) refl
  ]

  impersonated-own :
      (cs : List Chore)
      → filter (chore_filter user assigned_to_me) (filter (λ (c : Chore). c.assigned_to == user) cs)
        ≡ filter (λ (c : Chore). c.assigned_to == user) cs
  unfolding chore_filter
  impersonated-own [] = refl
  impersonated-own (c ∷ cs) = elim (Bool-cases (c.assigned_to == user)) [
    | inl e ↦
        let same : c.assigned_to ≡ user = (same_iff c.assigned_to user).0 e in
        rw (e, e, impersonated-own cs) (rw (same, known) refl)
    | inr e ↦ rw (e, impersonated-own cs) refl
  ]

  -- Without a search, while another user is impersonated, the tasks of the project that are assigned to
  -- that user are shown under "anyone" and under "assigned to me", and no task at all under "assigned to
  -- others".
  pub search_filtered_chores-impersonated :
      (cs : List Chore)
      → (let shown = λ (f : ChoreFilter).
            search_filtered_chores search "" project (some user) profile f cs in
          let own =
            filter
              (λ (c : Chore). c.assigned_to == user)
              (filter_by_project cs (project_of project)) in
          (shown anyone ≡ own) × (shown assigned_to_me ≡ own) × (shown assigned_to_others ≡ []))
  unfolding search_filtered_chores chore_filter
  search_filtered_chores-impersonated cs =
      rw (known, in_project-filter_by_project project cs)
        (filter_all _, impersonated-own _, impersonated-others _)
