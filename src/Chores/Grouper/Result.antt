-- ===== src/Chores/Grouper/Result.antt =====
-- What a call of `ChoresGrouper` gives.
use mathlib.Core.List.{Perm}
use mathlib.Core.List.Perm
use gsd.Prelude.{◌≡◌, refl, Bool, Option, none, some, String, List, filter, All}
use gsd.Js.Calls.{returns}
use gsd.Js.Sort.{sort, sort-perm}
use gsd.Dates.{Host}
use gsd.Chores.{Chore}
use gsd.Chores.Sorter.{chore_sorter}
use gsd.Chores.Grouper.{chores_grouper}
use gsd.Chores.Grouper.Sections.{Group}
use gsd.Chores.Grouper.Buckets.{due_bucket, default_bucket}
use gsd.Chores.Grouper.Buckets.Laws.{
  contents, IsSection, Shown, contents-default_groups, default_groups-Shown,
  contents-due_date_groups, due_date_groups-IsSection, contents-priority_groups, IsPrioritySection,
  priority_groups-IsPrioritySection,
}

-- The tasks that the filter lets through.
abbrev pub kept : Option (Chore → Bool) → List Chore → List Chore
kept none cs = cs
kept (some p) cs = filter p cs

-- The caller's array afterwards: sorted in place, or untouched where a filter made a copy.
abbrev pub left_behind : Host → Option (Chore → Bool) → List Chore → List Chore
left_behind host none cs = sort (chore_sorter host) cs
left_behind host (some _) cs = cs

abbrev pub Gives :
    Host → String → List Chore → Option (Chore → Bool) → (List Group → Type 0) → Type 0
Gives host by cs f P =
    (gs : List Group) × (chores_grouper host by cs f
      ≡ returns (record { groups = gs; chores = left_behind host f cs }))
    × P gs

-- The grouping 'default' returns sections that hold every task that the filter lets through exactly
-- once; none is empty, and each is the section of a bucket, its tasks in the sorted order. Without
-- a filter the caller's array is left sorted, with one it is left as it was.
pub chores_grouper-default :
    (host : Host) (cs : List Chore) (f : Option (Chore → Bool))
    → Gives host "default" cs f (λ gs.
      Perm (contents gs) (kept f cs)
      × All (Shown (default_bucket host) (sort (chore_sorter host) (kept f cs))) gs)
unfolding chores_grouper
chores_grouper-default host cs none = (
  _,
  refl,
  (
    Perm.trans (contents-default_groups host _) (sort-perm (chore_sorter host) cs),
    default_groups-Shown host _,
  ),
)
chores_grouper-default host cs (some p) = (
  _,
  refl,
  (
    Perm.trans (contents-default_groups host _) (sort-perm (chore_sorter host) (filter p cs)),
    default_groups-Shown host _,
  ),
)

-- The grouping 'due_date' returns sections, possibly empty, that hold every task that the filter lets
-- through exactly once; each is the section of a bucket by date, its tasks in the sorted order. Without
-- a filter the caller's array is left sorted, with one it is left as it was.
pub chores_grouper-due_date :
    (host : Host) (cs : List Chore) (f : Option (Chore → Bool))
    → Gives host "due_date" cs f (λ gs.
      Perm (contents gs) (kept f cs)
      × All (IsSection (due_bucket host) (sort (chore_sorter host) (kept f cs))) gs)
unfolding chores_grouper
chores_grouper-due_date host cs none = (
  _,
  refl,
  (
    Perm.trans (contents-due_date_groups host _) (sort-perm (chore_sorter host) cs),
    due_date_groups-IsSection host _,
  ),
)
chores_grouper-due_date host cs (some p) = (
  _,
  refl,
  (
    Perm.trans (contents-due_date_groups host _) (sort-perm (chore_sorter host) (filter p cs)),
    due_date_groups-IsSection host _,
  ),
)

-- The grouping 'priority' returns sections, possibly empty, that hold every task that the filter lets
-- through exactly once; each is the section of a priority, its tasks in the sorted order. Without a
-- filter the caller's array is left sorted, with one it is left as it was.
pub chores_grouper-priority :
    (host : Host) (cs : List Chore) (f : Option (Chore → Bool))
    → Gives host "priority" cs f (λ gs.
      Perm (contents gs) (kept f cs)
      × All (IsPrioritySection (sort (chore_sorter host) (kept f cs))) gs)
unfolding chores_grouper
chores_grouper-priority host cs none = (
  _,
  refl,
  (
    Perm.trans (contents-priority_groups _) (sort-perm (chore_sorter host) cs),
    priority_groups-IsPrioritySection _,
  ),
)
chores_grouper-priority host cs (some p) = (
  _,
  refl,
  (
    Perm.trans (contents-priority_groups _) (sort-perm (chore_sorter host) (filter p cs)),
    priority_groups-IsPrioritySection _,
  ),
)
