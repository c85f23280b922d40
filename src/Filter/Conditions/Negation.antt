-- ===== src/Filter/Conditions/Negation.antt =====
-- The operators 'is' and 'isNot'.
use gsd.Prelude.{◌≡◌, refl, false, not, String, arith, string_eq}
use gsd.Js.{Value}
use gsd.Js.Calls.{map_call}
use gsd.Dates.{Host}
use gsd.Chores.{Chore}
use gsd.Filter.{Condition, Context, is_text}
use gsd.Filter.Conditions.{
  evaluate_assignee, evaluate_created_by, evaluate_priority, evaluate_status, evaluate_label,
  evaluate_project, evaluate_condition,
}

abbrev pub condition : String → String → Value → Condition
condition type operator value = record { type = type; operator = operator; value = value }

-- The kinds of conditions that know both operators; "anyone" passes with either of them.
pub data Negatable (value : Value) : String → Type 0 where
  assignee : is_text value "anyone" ≡ false → Negatable value "assignee"
  created_by : Negatable value "createdBy"
  priority : Negatable value "priority"
  status : Negatable value "status"
  label : Negatable value "label"
  project : Negatable value "project"

-- For an assignee other than "anyone", a creator, a priority, a status, a label and a project, the
-- operator 'isNot' selects exactly the tasks that 'is' does not.
pub evaluate_condition-is_not :
    (host : Host) (context : Context) (c : Chore) {type : String} (value : Value)
    → Negatable value type
    → evaluate_condition host context c (condition type "isNot" value)
      ≡ map_call not (evaluate_condition host context c (condition type "is" value))
unfolding evaluate_condition evaluate_assignee evaluate_created_by evaluate_priority evaluate_status
    evaluate_label evaluate_project
evaluate_condition-is_not host context c value (assignee h) = ground arith
evaluate_condition-is_not host context c value created_by = ground arith
evaluate_condition-is_not host context c value priority = refl
evaluate_condition-is_not host context c value status = refl
evaluate_condition-is_not host context c value label = refl
evaluate_condition-is_not host context c value project = refl
