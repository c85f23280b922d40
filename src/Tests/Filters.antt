-- ===== src/Tests/Filters.antt =====
-- The filter engine at concrete tasks and conditions.
use gsd.Prelude.{
  ◌+◌, ◌≤◌, ◌<◌, ◌≡◌, ◌≢◌, ◌↔◌, refl, Bool, String, true, some, List, [], ◌∷◌, All, filter,
  if◌then◌else◌, ◌==◌, string_eq, any, all,
}
use gsd.Js.{null, num, one, many}
use gsd.Js.Calls.{returns, throws}
use gsd.Chores.{Chore}
use gsd.Filter.{Condition, Context, Filter}
use gsd.Filter.DueDate.{evaluate_due_date}
use gsd.Filter.DueDate.Week.{evaluate_due_date-days}
use gsd.Filter.Conditions.{evaluate_condition}
use gsd.Filter.Conditions.Negation.{condition}
use gsd.Filter.Conditions.Errors.{evaluate_condition-throws_iff}
use gsd.Filter.Apply.{apply_filter}
use gsd.Filter.Apply.Laws.{filter_of, value_of, apply_filter-filter}
use gsd.Filter.Validate.{validate_filter}
use gsd.Filter.Validate.Laws.{RefersToKnown, validate_filter_iff}
use gsd.Tests.{host, host-IsCalendar, dishes, weeding, tasks}

abbrev context : Context
context = record {
  user_id = num 5;
  members = record { id = num 5; user_id = num 5 } ∷ [];
  labels = num 3 ∷ num 7 ∷ [];
  projects = num 9 ∷ [];
}

abbrev urgent : Condition
urgent = condition "priority" "is" (many (num 1 ∷ num 2 ∷ []))

abbrev due_today : Condition
due_today = condition "dueDate" "isDueToday" (one null)

abbrev between_nothing : Condition
between_nothing = condition "dueDate" "between" (one null)

evaluate_due_date-days_example :
    ((evaluate_due_date host dishes "isDueToday" (one null) ≡ returns true)
      ↔ (host.day 1778400000 ≡ host.day host.now))
    × ((evaluate_due_date host dishes "isDueTomorrow" (one null) ≡ returns true)
        ↔ (host.day 1778400000 ≡ host.day host.now + 1))
    × ((evaluate_due_date host dishes "isDueThisWeek" (one null) ≡ returns true) ↔ (
        (host.day host.now ≤ host.day 1778400000) × (host.day 1778400000 < host.day host.now + 7)))
    × ((evaluate_due_date host dishes "isOverdue" (one null) ≡ returns true)
        ↔ (1778400000 < host.now))
evaluate_due_date-days_example =
    evaluate_due_date-days host host-IsCalendar dishes 1778400000 (one null) refl refl

abbrev either : String
either = "OR"

abbrev one_of : Chore → Bool
one_of c =
    if either == "OR"
    then any (λ x. value_of (evaluate_condition host context c x)) (urgent ∷ due_today ∷ [])
    else all (λ x. value_of (evaluate_condition host context c x)) (urgent ∷ due_today ∷ [])

returned :
    (c : Chore) (d : Condition)
    → Condition.type d ≡ "priority"
    → evaluate_condition host context c d ≢ throws
returned c d t e =
    let (x, _, _, _) = (evaluate_condition-throws_iff host context c d).0 e in cc (t, x)

due_returned :
    (c : Chore) (d : Condition)
    → Condition.operator d ≡ "isDueToday"
    → evaluate_condition host context c d ≢ throws
due_returned c d t e =
    let (_, x, _, _) = (evaluate_condition-throws_iff host context c d).0 e in cc (t, x)

none_throw :
    (c : Chore) → All (λ x. evaluate_condition host context c x ≢ throws) (urgent ∷ due_today ∷ [])
none_throw c = (returned c urgent refl, (due_returned c due_today refl, tt))

apply_filter-filter_example :
    apply_filter host context tasks (filter_of "OR" (urgent ∷ due_today ∷ []))
    ≡ returns (filter one_of tasks)
apply_filter-filter_example =
    apply_filter-filter host context tasks either urgent (due_today ∷ [])
      (none_throw dishes, (none_throw weeding, tt))

abbrev by_label : Filter
by_label = record {
  conditions = some (condition "label" "is" (many (num 3 ∷ [])) ∷ []);
  operator = some "AND";
}

validate_filter_iff_example : ((validate_filter context by_label).is_valid ≡ true) ↔ (
    (c : Condition) × (cs : List Condition) × (by_label.conditions ≡ some (c ∷ cs))
    × All (RefersToKnown context) (c ∷ cs))
validate_filter_iff_example = validate_filter_iff context by_label
