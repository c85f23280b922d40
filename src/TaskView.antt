-- ===== src/TaskView.antt =====
-- Which tasks ui/src/views/Chores/MyChores.jsx shows, from the answer of the server to the sections, with
-- ui/src/views/Chores/hooks/useChoreFilters.js and ui/src/views/Chores/hooks/useProjectFilter.js. What a
-- memo holds is computed where it is read; the search by text is a parameter.
pub mod Laws
pub mod Shortcuts
use gsd.Prelude.{
  ℕ, ◌+◌, ◌*◌, Bool, true, false, not, ◌&&◌, ◌||◌, String, Option, none, some, List, [], ◌∷◌, any,
  if◌then◌else◌, ◌==◌, string_eq, ltb, length, filter,
}
use gsd.Js.{Scalar, undefined, null, boolean, num, str, truthy, scalar_eq, to_number, compare_by}
use gsd.Js.Calls.{Call, returns, map_call}
use gsd.Js.Sort.{sort}
use gsd.Dates.{Host, to_date}
use gsd.Chores.{Chore, Assignee}
use gsd.Chores.Sorter.{chore_sorter}
use gsd.Chores.Filters.{ChoreFilter, chore_filter, filter_by_project}
use gsd.Chores.Grouper.{Grouped, chores_grouper}
use gsd.Chores.Grouper.Sections.{Group}
use gsd.Users.{User, is_child_user}

pub record Project : Type 0 where
  pub id : Scalar
  pub name : String

unfoldable pub projects_with_default : List Project → List Project
projects_with_default ps =
    if any (λ (p : Project). p.id == str "default" || p.name == "Default Project") ps
    then ps
    else record { id = str "default"; name = "Default Project" } ∷ ps

abbrev is_assignee : Scalar → Option (List Assignee) → Bool
is_assignee user none = false
is_assignee user (some xs) = any (λ (a : Assignee). a.user_id == user) xs

abbrev visible_to : Scalar → Chore → Bool
visible_to user c =
    c.assigned_to == user || is_assignee user c.assignees || c.is_private == boolean false

-- The impersonated user is named by its id.
unfoldable pub processed_chores : Host → Option Scalar → List Chore → List Chore
processed_chores host none cs = sort (chore_sorter host) cs
processed_chores host (some user) cs = filter (visible_to user) (sort (chore_sorter host) cs)

unfoldable pub effective_assignee_filter : Scalar → Option User → Scalar
effective_assignee_filter stored user = if not (stored == null) then stored else elim user [
  | none ↦ str "everyone"
  | some u ↦ if is_child_user (some u) then u.id else str "everyone"
]

-- What the view has chosen: the saved or temporary filter's tasks, the quick filter and its tasks, and
-- the project, by its id.
pub record Choices : Type 0 where
  pub custom : Option (List Chore)
  pub search_filter : String
  pub filtered : List Chore
  pub selected_project : Option Scalar
  pub user : Option User
  pub impersonated : Option Scalar
  pub stored_assignee : Scalar
  pub hide_pending : Bool
  pub chore_filter : ChoreFilter
  pub section : String

abbrev without_project : Chore → Bool
without_project c = not (truthy c.project_id)

unfoldable pub in_project : Option Scalar → List Chore → List Chore
in_project none cs = filter without_project cs
in_project (some p) cs =
    if p == str "default" then filter without_project cs else filter_by_project cs p

abbrev has_id : Option User → Bool
has_id none = false
has_id (some u) = truthy u.id

unfoldable pub base_section_chores : Choices → List Chore → List Chore
base_section_chores v [] = []
base_section_chores v (c ∷ cs) =
    if has_id v.user
    then elim v.custom [
      | some shown ↦ shown
      | none ↦
          if not (v.search_filter == "All")
          then v.filtered
          else in_project v.selected_project (c ∷ cs)
    ]
    else []

abbrev pub passes_assignee : Scalar → Chore → Bool
passes_assignee assignee c = assignee == str "everyone" || c.assigned_to == assignee

unfoldable pub assignee_filtered : Choices → List Chore → List Chore
assignee_filtered v cs =
    let assignee = effective_assignee_filter v.stored_assignee v.user in
    let base = base_section_chores v cs in
    if assignee == str "everyone" then base else filter (λ c. c.assigned_to == assignee) base

-- `impersonated?.userId || profile?.id`
abbrev user_of : Option Scalar → Scalar → Scalar
user_of none profile = profile
user_of (some user) profile = if truthy user then user else profile

abbrev id_of : Option User → Scalar
id_of none = undefined
id_of (some u) = u.id

abbrev pub user_id : Choices → Scalar
user_id v = user_of v.impersonated (id_of v.user)

module _ (host : Host) where
  -- a number of hours before the due date
  abbrev opens_later : Option ℕ → Scalar → Bool
  opens_later none due = false
  opens_later (some hours) due =
      compare_by (λ now d. ltb (now + hours * 3600000) d) (some host.now) (to_date host due)

  unfoldable pub not_in_completion_window : Chore → Bool
  not_in_completion_window c =
      truthy c.completion_window
      && (truthy c.next_due_date && opens_later (to_number c.completion_window) c.next_due_date)

  unfoldable pub hidden_pending_count : Choices → List Chore → ℕ
  hidden_pending_count v cs = length (filter not_in_completion_window (assignee_filtered v cs))

  abbrev to_group : Bool → List Chore → List Chore
  to_group hide cs = if hide then filter (λ c. not (not_in_completion_window c)) cs else cs

  sections : Choices → List Chore → Call (List Group)
  sections v [] = returns []
  sections v (c ∷ cs) =
      map_call (λ (g : Grouped). g.groups)
        (chores_grouper host v.section (to_group v.hide_pending (c ∷ cs))
          (some (chore_filter (user_id v) v.chore_filter)))

  unfoldable pub processed_sections : Choices → List Chore → Call (List Group)
  unfolding sections
  processed_sections v cs = sections v (assignee_filtered v cs)

-- The filtering of `useChoreFilters`; the user's profile is named by its id.
module _ (search : String → List Chore → List Chore) where
  abbrev assigned_only : Option Scalar → List Chore → List Chore
  assigned_only none cs = cs
  assigned_only (some user) cs = filter (λ (c : Chore). c.assigned_to == user) cs

  abbrev search_in : String → Option Scalar → Scalar → ChoreFilter → List Chore → List Chore
  search_in term impersonated profile f cs =
      if term == ""
      then filter (chore_filter (user_of impersonated profile) f) (assigned_only impersonated cs)
      else search term cs

  unfoldable pub search_filtered_chores :
      String → Option Scalar → Option Scalar → Scalar → ChoreFilter → List Chore → List Chore
  search_filtered_chores term project impersonated profile f cs =
      search_in term impersonated profile f (in_project project cs)

  unfoldable pub non_project_filtered_chores :
      String → Option Scalar → Scalar → ChoreFilter → List Chore → List Chore
  non_project_filtered_chores term impersonated profile f cs =
      search_in term impersonated profile f cs
