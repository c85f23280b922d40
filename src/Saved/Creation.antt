-- ===== src/Saved/Creation.antt =====
-- `createFilterFromCurrentState` of ui/src/views/Chores/hooks/useCustomFilters.js.
pub mod Laws
use gsd.Prelude.{
  ℕ, ◌+◌, ◌-◌, ◌*◌, Bool, true, false, not, ◌&&◌, ◌||◌, String, Option, none, some, List, [], ◌∷◌,
  ◌++◌, find?, if◌then◌else◌, ◌==◌, nat_eq, string_eq, leb,
}
use gsd.Js.{Scalar, null, num, str, one}
use gsd.Js.Texts.{after, parse_int}
use gsd.Chores.{Label}
use gsd.Chores.Filters.{ChoreFilter}
use gsd.Chores.Filters.ChoreFilter.{
  anyone, assigned_to_me, available_for_me, assigned_to_others, assigned_to_me_tasks, created_by_me,
}
use gsd.Filter.{Condition, Filter}

-- The project is named by its id.
pub record CurrentState : Type 0 where
  pub selected_project : Option Scalar
  pub selected_chore_filter : ChoreFilter
  pub search_filter : String

abbrev condition : String → String → Scalar → Condition
condition type operator value = record { type = type; operator = operator; value = one value }

abbrev pub project_conditions : Option Scalar → List Condition
project_conditions none = []
project_conditions (some p) = condition "project" "is" p ∷ []

abbrev pub filter_map : ChoreFilter → List Condition
filter_map anyone = []
filter_map assigned_to_me = condition "assignee" "is" (str "me") ∷ []
filter_map available_for_me = []
filter_map assigned_to_others = condition "assignee" "is" (str "others") ∷ []
filter_map assigned_to_me_tasks = []
filter_map created_by_me = condition "createdBy" "is" (str "me") ∷ []

abbrev priority_conditions : Option ℕ → Option (List Condition)
priority_conditions none = none
priority_conditions (some n) = some (condition "priority" "is" (num n) ∷ [])

abbrev label_conditions : Option Label → List Condition
label_conditions none = []
label_conditions (some l) = condition "label" "has" (num l.id) ∷ []

-- The search filters without a prefix.
unfoldable named_conditions : String → List Condition
named_conditions name =
    if name == "Overdue"
    then condition "dueDate" "isOverdue" null ∷ []
    else if name == "Due today"
    then condition "dueDate" "isDueToday" null ∷ []
    else if name == "Due in week"
    then condition "dueDate" "isDueThisWeek" null ∷ []
    else if name == "No Due Date"
    then condition "dueDate" "hasNoDueDate" null ∷ []
    else if name == "Pending Approval"
    then condition "status" "is" (num 3) ∷ []
    else []

abbrev prefixed : List Label → Option String → Option String → String → Option (List Condition)
prefixed labels (some priority) label name = priority_conditions (parse_int priority)
prefixed labels none (some label) name =
    some (label_conditions (find? (λ (l : Label). l.name == label) labels))
prefixed labels none none name = some (named_conditions name)

-- `none`: the value of the condition is NaN, which no scalar stands for.
unfoldable pub search_conditions : List Label → String → Option (List Condition)
unfolding named_conditions after parse_int
search_conditions labels name =
    if name == "" || name == "All"
    then some []
    else prefixed labels (after "Priority: " name) (after "Label: " name) name

abbrev with_search : CurrentState → Option (List Condition) → Option Filter
with_search s none = none
with_search s (some searched) = some (record {
  conditions =
      some
        (project_conditions s.selected_project ++ (filter_map s.selected_chore_filter ++ searched));
  operator = some "AND";
})

unfoldable pub create_filter_from_current_state : List Label → CurrentState → Option Filter
create_filter_from_current_state labels s = with_search s (search_conditions labels s.search_filter)
