-- ===== src/Filter/Conditions.antt =====
-- `evaluateCondition` and its helpers.
pub mod Negation
pub mod Errors
use gsd.Prelude.{
  ℕ, Bool, true, false, not, ◌&&◌, ◌||◌, String, Option, none, some, List, [], ◌∷◌, if◌then◌else◌,
  ◌==◌, string_eq, any, filter,
}
use gsd.Js.{
  Scalar, null, num, str, Value, one, many, truthy, or_else, same, to_text, to_number, value_number,
  as_array, eq_number, lt_number, le_number,
}
use gsd.Js.Calls.{Call, returns}
use gsd.Dates.{Host}
use gsd.Chores.{Chore, Assignee, Label}
use gsd.Filter.{Condition, Context, is_text}
use gsd.Filter.DueDate.{evaluate_due_date}

-- `String(a) === String(b)`
abbrev pub same_text : Scalar → Scalar → Bool
same_text a b = to_text a == to_text b

abbrev assignee_is : Option (List Assignee) → Scalar → Bool
assignee_is none id = false
assignee_is (some xs) id = any (λ a. same_text a.user_id id) xs

-- The task's assignee, or one of its assignees, is the user.
abbrev pub is_assigned_to : Chore → Scalar → Bool
is_assigned_to c id = same_text c.assigned_to id || assignee_is c.assignees id

-- `operator === 'is' ? b : !b`
abbrev pub signed : String → Bool → Bool
signed operator b = if operator == "is" then b else not b

unfoldable pub evaluate_assignee : Chore → String → Value → Scalar → Bool
evaluate_assignee c operator value user =
    if is_text value "me" && truthy user
    then signed operator (is_assigned_to c user)
    else if is_text value "others" && truthy user
    then signed operator (not (same_text c.assigned_to user) && not (assignee_is c.assignees user))
    else if is_text value "anyone"
    then true
    else signed operator (any (λ id. is_assigned_to c id) (as_array value))

unfoldable pub evaluate_created_by : Chore → String → Value → Scalar → Bool
evaluate_created_by c operator value user =
    if is_text value "me" && truthy user
    then signed operator (same_text c.created_by user)
    else signed operator (any (λ id. same_text id c.created_by) (as_array value))

unfoldable pub evaluate_priority : Chore → String → Value → Bool
evaluate_priority c operator value =
    let priority = to_number (or_else c.priority (num 0)) in
    let listed = any (λ p. eq_number (to_number p) priority) (as_array value) in
    if operator == "is"
    then listed
    else if operator == "isNot"
    then not listed
    else if operator == "greaterThan"
    then lt_number (value_number value) priority
    else if operator == "lessThan"
    then lt_number priority (value_number value)
    else false

unfoldable pub evaluate_status : Chore → String → Value → Bool
evaluate_status c operator value =
    let status = to_number (or_else c.status (num 0)) in
    let listed = any (λ s. eq_number (to_number s) status) (as_array value) in
    if operator == "is" then listed else if operator == "isNot" then not listed else false

abbrev or_none : Option (List Label) → List Label
or_none none = []
or_none (some ls) = ls

unfoldable pub evaluate_label : Chore → String → Value → Bool
evaluate_label c operator value =
    let has =
      any (λ id. any (λ (l : Label). same_text (num l.id) id) (or_none c.labels))
        (as_array value) in
    if operator == "has" || operator == "is"
    then has
    else if operator == "doesNotHave" || operator == "isNot"
    then not has
    else false

unfoldable pub evaluate_project : Chore → String → Value → Bool
evaluate_project c operator value =
    let ids = as_array value in
    let includes_default = any (λ id. same id (str "default")) ids in
    let is_default =
      not (truthy c.project_id) || same c.project_id null || same c.project_id (str "default") in
    let others = filter (λ id. not (same id (str "default"))) ids in
    let matches_other = any (λ id. same_text c.project_id id) others in
    signed operator (includes_default && is_default || matches_other)

unfoldable pub evaluate_points : Chore → String → Value → Bool
evaluate_points c operator value =
    let points = to_number (or_else c.points (num 0)) in
    let target = value_number value in
    if operator == "equals"
    then eq_number points target
    else if operator == "greaterThan"
    then lt_number target points
    else if operator == "lessThan"
    then lt_number points target
    else if operator == "greaterThanOrEqual"
    then le_number target points
    else if operator == "lessThanOrEqual"
    then le_number points target
    else false

unfoldable pub evaluate_condition : Host → Context → Chore → Condition → Call Bool
evaluate_condition host context c condition =
    let operator = condition.operator in
    let value = condition.value in
    if condition.type == "assignee"
    then returns (evaluate_assignee c operator value context.user_id)
    else if condition.type == "createdBy"
    then returns (evaluate_created_by c operator value context.user_id)
    else if condition.type == "priority"
    then returns (evaluate_priority c operator value)
    else if condition.type == "status"
    then returns (evaluate_status c operator value)
    else if condition.type == "dueDate"
    then evaluate_due_date host c operator value
    else if condition.type == "label"
    then returns (evaluate_label c operator value)
    else if condition.type == "project"
    then returns (evaluate_project c operator value)
    else if condition.type == "points"
    then returns (evaluate_points c operator value)
    else returns true
