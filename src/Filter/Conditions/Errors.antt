-- ===== src/Filter/Conditions/Errors.antt =====
-- When the evaluation of a condition throws.
use text.Mathlib.TextEquality.{eq_iff}
use gsd.Prelude.{ℕ, ◌≡◌, ◌↔◌, refl, true, String, Option, none, arith, string_eq}
use gsd.Js.{Value, truthy}
use gsd.Js.Calls.{throws}
use gsd.Dates.{Host, to_date}
use gsd.Chores.{Chore}
use gsd.Filter.{Condition, Context}
use gsd.Filter.DueDate.{elements, due_switch, evaluate_due_date}
use gsd.Filter.Conditions.{evaluate_condition}

due_switch-throws :
    (host : Host) (due : Option ℕ) (operator : String) (value : Value)
    → due_switch host due operator value ≡ throws
    → (operator ≡ "between") × (elements value ≡ none)
unfolding due_switch
due_switch-throws host due operator value h = ground (arith, eq_iff operator "between")

evaluate_due_date-throws :
    (host : Host) (c : Chore) (operator : String) (value : Value)
    → evaluate_due_date host c operator value ≡ throws
    → (operator ≡ "between") × (truthy c.next_due_date ≡ true) × (elements value ≡ none)
unfolding evaluate_due_date
evaluate_due_date-throws host c operator value h =
    ground (arith, due_switch-throws host (to_date host c.next_due_date) operator value)

between_throws :
    (host : Host) (c : Chore) (operator : String) (value : Value)
    → (operator ≡ "between") × (truthy c.next_due_date ≡ true) × (elements value ≡ none)
    → evaluate_due_date host c operator value ≡ throws
unfolding evaluate_due_date
between_throws host c operator value h = rw (h.0, h.1, h.2) refl

-- A condition throws exactly if it asks whether the due date lies between two dates, its value is
-- neither an array nor a text, and the task has a due date.
pub evaluate_condition-throws_iff :
    (host : Host) (context : Context) (c : Chore) (d : Condition)
    → (evaluate_condition host context c d ≡ throws) ↔ (
        (d.type ≡ "dueDate")
        × (d.operator ≡ "between")
        × (truthy c.next_due_date ≡ true)
        × (elements d.value ≡ none))
unfolding evaluate_condition
evaluate_condition-throws_iff host context c d = (
  λ h. ground (arith, eq_iff d.type "dueDate", evaluate_due_date-throws host c d.operator d.value),
  λ h. rw (h.0, between_throws host c d.operator d.value (h.1, h.2, h.3)) refl,
)
