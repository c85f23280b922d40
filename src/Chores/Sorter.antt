-- ===== src/Chores/Sorter.antt =====
-- `ChoreSorter` of ui/src/utils/Chores.jsx, and the key order that it follows.
pub mod Order
use gsd.Prelude.{
  ℕ, zero, suc, Bool, true, false, not, Option, none, some, List, [], ◌∷◌, if◌then◌else◌, ◌==◌,
  nat_eq,
}
use gsd.Js.{Scalar, num, same, truthy, to_number, scalar_eq}
use gsd.Js.Sort.{Sign, negative, zero as level, positive, sub_sign, sub_number}
use gsd.Dates.{Host, to_date}
use gsd.Chores.{Chore}

abbrev pub priority_order : List Scalar
priority_order = num 1 ∷ num 2 ∷ num 3 ∷ num 4 ∷ num 0 ∷ []

-- `indexOf`, one higher: 0 stands for -1.
abbrev pub rank_from : ℕ → Scalar → List Scalar → ℕ
rank_from n x [] = 0
rank_from n x (y ∷ ys) = if same y x then suc n else rank_from (suc n) x ys

unfoldable pub rank : Scalar → ℕ
rank x = rank_from 0 x priority_order

module _ (host : Host) where
  -- the last part: earlier dates first, missing ones last
  due_sign : Scalar → Scalar → Sign
  due_sign a b =
      if truthy a
      then (if truthy b then sub_number (to_date host a) (to_date host b) else negative)
      else (if truthy b then positive else level)

  unfoldable pub chore_sorter : Chore → Chore → Sign
  unfolding due_sign
  chore_sorter a b =
      if rank a.priority == rank b.priority
      then (if a.status == b.status
          then due_sign a.next_due_date b.next_due_date
          else sub_number (to_number a.status) (to_number b.status))
      else sub_sign (rank a.priority) (rank b.priority)
