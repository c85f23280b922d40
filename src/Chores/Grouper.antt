-- ===== src/Chores/Grouper.antt =====
-- `ChoresGrouper` of ui/src/utils/Chores.jsx: the sections of the task list. The clock is read once
-- for a call.
pub mod Buckets
pub mod Labels
pub mod Result
pub mod Sections
use gsd.Prelude.{
  Bool, true, false, String, Option, none, some, List, [], ◌∷◌, filter, if◌then◌else◌, ◌==◌,
  string_eq,
}
use gsd.Js.{str}
use gsd.Js.Calls.{Call, returns, ◌>>=◌}
use gsd.Js.Sort.{sort}
use gsd.Dates.{Host}
use gsd.Chores.{Chore}
use gsd.Chores.Sorter.{chore_sorter}
use gsd.Chores.Grouper.Sections.{Group}
use gsd.Chores.Grouper.Buckets.{default_groups, due_date_groups, priority_groups}
use gsd.Chores.Grouper.Labels.{label_groups}

-- The groups, and the caller's array after the call: `sort` works in place, `filter` copies.
pub record Grouped : Type 0 where
  pub groups : List Group
  pub chores : List Chore

module _ (host : Host) where
  groups_of : String → List Chore → Call (List Group)
  groups_of by cs =
      if by == "default"
      then returns (default_groups host cs)
      else if by == "due_date"
      then returns (due_date_groups host cs)
      else if by == "priority"
      then returns (priority_groups cs)
      else if by == "labels"
      then label_groups cs
      else returns []

  unfoldable pub chores_grouper : String → List Chore → Option (Chore → Bool) → Call Grouped
  unfolding groups_of
  chores_grouper by cs none = do
    let sorted = sort (chore_sorter host) cs
    groups ← groups_of by sorted
    returns (record { groups = groups; chores = sorted })
  chores_grouper by cs (some p) = do
    groups ← groups_of by (sort (chore_sorter host) (filter p cs))
    returns (record { groups = groups; chores = cs })
