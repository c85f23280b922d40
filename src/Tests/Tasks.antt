-- ===== src/Tests/Tasks.antt =====
-- The sorter, the filters and the groupings at concrete tasks.
use mathlib.Core.List.{Perm}
use gsd.Prelude.{
  ◌≡◌, refl, Bool, true, some, List, [], ◌∷◌, All, filter, nat_eq, ◌&&◌, ◌==◌, string_eq, arith,
}
use gsd.Js.{null, num, to_number, same_iff, scalar_eq}
use gsd.Js.Sort.{sort}
use gsd.Chores.{Chore}
use gsd.Chores.Sorter.{chore_sorter}
use gsd.Chores.Sorter.Order.{Key, key, IsInOrder, IsSortable, sort-chore_sorter}
use gsd.Chores.Grouper.Buckets.{default_bucket}
use gsd.Chores.Grouper.Buckets.Laws.{contents, Shown}
use gsd.Chores.Grouper.Result.{Gives, kept, chores_grouper-default}
use gsd.Tests.{host, dishes, weeding, tasks}

abbrev dishes-IsSortable : IsSortable host dishes
dishes-IsSortable = record { number = 0; status = refl; date = 1778400000; due = λ e. refl }

abbrev weeding-IsSortable : IsSortable host weeding
weeding-IsSortable = record { number = 0; status = refl; date = 1900800000; due = λ e. refl }

-- The first of the two tasks.
abbrev is_dishes : Chore → Bool
is_dishes c = c.name == "Dishes"

-- A task of the first priority without a date, and the test for these.
abbrev sweeping : Chore
sweeping = record weeding { name = "Sweeping"; next_due_date = null }

abbrev raking : Chore
raking = record weeding { name = "Raking"; next_due_date = null }

abbrev is_undated : Chore → Bool
is_undated c = c.priority == num 1 && c.status == num 0 && c.next_due_date == null

undated-IsSortable : (c : Chore) → c.status ≡ num 0 → c.next_due_date ≡ null → IsSortable host c
undated-IsSortable c s d = record { number = 0; status = s; date = 0; due = λ e. ground (arith, d) }

abbrev undated_key : Key
undated_key = record { priority = 1; status = 0; missing = 1; date = 0 }

undated-tied : (c : Chore) → is_undated c ≡ true → IsSortable host c × (key host c ≡ undated_key)
unfolding to_number
undated-tied c h =
    let p : c.priority ≡ num 1 = (same_iff c.priority (num 1)).0 (ground (arith, h)) in
    let s : c.status ≡ num 0 = (same_iff c.status (num 0)).0 (ground (arith, h)) in
    let d : c.next_due_date ≡ null = (same_iff c.next_due_date null).0 (ground (arith, h)) in
    (undated-IsSortable c s d, rw (p, s, d) refl)

abbrev unsorted : List Chore
unsorted = sweeping ∷ dishes ∷ raking ∷ weeding ∷ []

sort-chore_sorter_example :
    Perm (sort (chore_sorter host) unsorted) unsorted
    × IsInOrder host (sort (chore_sorter host) unsorted)
    × (filter is_undated (sort (chore_sorter host) unsorted) ≡ filter is_undated unsorted)
sort-chore_sorter_example =
    sort-chore_sorter host unsorted is_undated undated_key
      (
        undated-IsSortable sweeping refl refl,
        (dishes-IsSortable, (undated-IsSortable raking refl refl, (weeding-IsSortable, tt))),
      )
      undated-tied

chores_grouper-default_example : Gives host "default" tasks (some is_dishes) (λ gs.
    Perm (contents gs) (kept (some is_dishes) tasks)
    × All (Shown (default_bucket host) (sort (chore_sorter host) (kept (some is_dishes) tasks))) gs)
chores_grouper-default_example = chores_grouper-default host tasks (some is_dishes)
