-- ===== src/Chores/Filters.antt =====
-- `ChoreFilters` and `filterByProject` of ui/src/utils/Chores.jsx. A callback's result is read for
-- its truth alone.
use mathlib.Core.List.{Perm}
use gsd.Prelude.{
  ◌≡◌, refl, ◌⊎◌, Bool, true, false, not, ◌&&◌, ◌||◌, Option, none, some, List, [], ◌∷◌, ◌++◌,
  arith, if◌then◌else◌, ◌==◌, filter, filter-ext, any, All, All-map,
}
use gsd.Prelude.Partition.{flat, contains, IsDistinct, part, flat-part-perm}
use gsd.Js.{Scalar, null, str, truthy, scalar_eq, same_iff}
use gsd.Chores.{Chore, Assignee}

pub data ChoreFilter : Type 0 where
  anyone assigned_to_me available_for_me assigned_to_others : ChoreFilter
  assigned_to_me_tasks created_by_me : ChoreFilter

abbrev any_assignee : (Assignee → Bool) → Option (List Assignee) → Bool
any_assignee p none = false
any_assignee p (some xs) = any p xs

unfoldable pub chore_filter : Scalar → ChoreFilter → Chore → Bool
chore_filter user anyone c = true
chore_filter user assigned_to_me c = truthy c.assigned_to && c.assigned_to == user
chore_filter user available_for_me c = c.assigned_to == null || c.assigned_to == user
chore_filter user assigned_to_others c = truthy c.assigned_to && not (c.assigned_to == user)
chore_filter user assigned_to_me_tasks c = any_assignee (λ a. a.user_id == user) c.assignees
chore_filter user created_by_me c = truthy c.created_by && c.created_by == user

abbrev is_default_project : Scalar → Bool
is_default_project p = not (truthy p) || p == str "Default Project" || p == str "default"

unfoldable pub filter_by_project : List Chore → Scalar → List Chore
filter_by_project cs selected =
    if is_default_project selected
    then filter (λ c. not (truthy c.project_id) || c.project_id == null || c.project_id == str "")
        cs
    else filter (λ c. c.project_id == selected) cs

-- A task with an assignee passes exactly one of the filters for the user's own tasks and for those
-- of others, and the filter for available tasks passes it exactly if it is the user's own; a task
-- without one passes neither of the first two.
pub chore_filter-assigned :
    (user : Scalar) (c : Chore)
    → (truthy c.assigned_to ≡ true
        → (chore_filter user assigned_to_others c ≡ not (chore_filter user assigned_to_me c))
          × (chore_filter user available_for_me c ≡ chore_filter user assigned_to_me c))
      × (truthy c.assigned_to ≡ false
          → (chore_filter user assigned_to_others c ≡ false)
            × (chore_filter user assigned_to_me c ≡ false))
unfolding chore_filter
chore_filter-assigned user c = ground (arith, same_iff c.assigned_to null)

-- The key of the project view that shows a task: its project, or `null`.
abbrev project_key : Chore → Scalar
project_key c = if truthy c.project_id then c.project_id else null

is_default-truthy : (p : Scalar) → is_default_project p ≡ false → truthy p ≡ true
is_default-truthy p h = ground arith

default_view : (cs : List Chore) → filter_by_project cs null ≡ part project_key cs null
unfolding filter_by_project
default_view =
    filter-ext _ _ (λ c. ground (arith, same_iff c.project_id null, same_iff c.project_id (str "")))

project_view :
    (p : Scalar)
    → is_default_project p ≡ false
    → (cs : List Chore) → filter_by_project cs p ≡ part project_key cs p
unfolding filter_by_project
project_view p h cs = rw h (
    filter-ext _ _
      (λ c. ground (arith, same_iff c.project_id p, same_iff null p, is_default-truthy p h)) cs)

views :
    (cs : List Chore) (ps : List Scalar)
    → All (λ p. is_default_project p ≡ false) ps
    → flat (filter_by_project cs) ps ≡ flat (part project_key cs) ps
views cs [] h = refl
views cs (p ∷ ps) (h, hs) = rw (project_view p h cs, views cs ps hs) refl

abbrev pub IsListed : List Scalar → Chore → Type 0
IsListed ps c = (truthy c.project_id ≡ false) ⊎ (contains ps c.project_id ≡ true)

project_key-listed :
    (ps : List Scalar) (c : Chore) → IsListed ps c → contains (null ∷ ps) (project_key c) ≡ true
project_key-listed ps c h = ground arith

null-absent :
    (ps : List Scalar) → All (λ p. is_default_project p ≡ false) ps → contains ps null ≡ false
null-absent [] h = refl
null-absent (p ∷ ps) (h, hs) =
    ground (arith, same_iff null p, is_default-truthy p h, null-absent ps hs)

-- The views of the default project and of distinct other projects show every task exactly once, if
-- each task's project is one of these or missing.
pub filter_by_project-perm :
    (cs : List Chore) (ps : List Scalar)
    → IsDistinct ps
    → All (λ p. is_default_project p ≡ false) ps
    → All (IsListed ps) cs
    → Perm (filter_by_project cs null ++ flat (filter_by_project cs) ps) cs
filter_by_project-perm cs ps d h k =
    rw (default_view cs, views cs ps h)
      (flat-part-perm project_key cs (null ∷ ps) (All-map (project_key-listed ps) cs k)
        (null-absent ps h, d))
