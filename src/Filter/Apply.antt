-- ===== src/Filter/Apply.antt =====
-- `applyFilter` and the counts of the tasks that a filter selects.
pub mod Laws
use gsd.Prelude.{
  ℕ, Bool, true, false, String, Option, none, some, List, [], ◌∷◌, if◌then◌else◌, ◌==◌, string_eq,
  length, filter,
}
use gsd.Js.{truthy, lt_number}
use gsd.Js.Calls.{Call, returns, map_call, some_call, every_call, filter_call}
use gsd.Dates.{Host, to_date}
use gsd.Chores.{Chore}
use gsd.Filter.{Condition, Context, Filter}
use gsd.Filter.Conditions.{evaluate_condition}

-- `operator = 'AND'`, where the field is undefined
abbrev or_and : Option String → String
or_and none = "AND"
or_and (some s) = s

module _ (host : Host) (context : Context) where
  unfoldable pub matches : String → List Condition → Chore → Call Bool
  matches operator conditions c =
      if operator == "OR"
      then some_call (evaluate_condition host context c) conditions
      else every_call (evaluate_condition host context c) conditions

  apply_conditions : List Chore → Option (List Condition) → String → Call (List Chore)
  apply_conditions cs none operator = returns cs
  apply_conditions cs (some []) operator = returns cs
  apply_conditions cs (some conditions) operator = filter_call (matches operator conditions) cs

  unfoldable pub apply_filter : List Chore → Option Filter → Call (List Chore)
  unfolding apply_conditions
  apply_filter cs none = returns cs
  apply_filter cs (some f) = apply_conditions cs f.conditions (or_and f.operator)

  unfoldable pub get_filter_count : List Chore → Option Filter → Call ℕ
  get_filter_count cs f = map_call length (apply_filter cs f)

  abbrev pub is_overdue : Chore → Bool
  is_overdue c =
      if truthy c.next_due_date
      then lt_number (to_date host c.next_due_date) (some host.now)
      else false

  unfoldable pub get_filter_overdue_count : List Chore → Option Filter → Call ℕ
  get_filter_overdue_count cs f =
      map_call (λ filtered. length (filter is_overdue filtered)) (apply_filter cs f)
