-- ===== src/Saved/Insights.antt =====
-- The insights of ui/src/views/Chores/SmartInsightsCard.jsx, their filters, which
-- ui/src/views/Chores/insightFilters.js names too, and the quick filters `FILTERS` of
-- ui/src/views/Chores/MyChores.jsx. The clock is read once for a call.
pub mod Laws
use gsd.Prelude.{
  ℕ, ◌+◌, Bool, true, false, not, ◌&&◌, ◌||◌, String, Option, none, some, List, [], ◌∷◌, ◌++◌,
  if◌then◌else◌, ◌==◌, string_eq, length, filter, take,
}
use gsd.Js.{Scalar, null, num, str, Value, one, many, truthy, same, scalar_eq, lt_number, le_number}
use gsd.Js.Sort.{Sign, sub_sign, sort}
use gsd.Dates.{Host, to_date, same_date_string}
use gsd.Chores.{Chore}
use gsd.Filter.{Condition, Filter}
use gsd.Saved.{Choice, apply_temp_filter, clear_temp_filter}

pub data Insight : Type 0 where
  overdue due_today pending_approval due_this_week high_priority no_due_date : Insight

abbrev pub priority : Insight → ℕ
priority overdue = 1
priority due_today = 2
priority pending_approval = 3
priority due_this_week = 4
priority high_priority = 5
priority no_due_date = 6

abbrev pub name_of : Insight → String
name_of overdue = "overdue"
name_of due_today = "due-today"
name_of pending_approval = "pending-approval"
name_of due_this_week = "due-this-week"
name_of high_priority = "high-priority"
name_of no_due_date = "no-due-date"

abbrev on_due_date : String → Condition
on_due_date operator = record { type = "dueDate"; operator = operator; value = one null }

abbrev pub condition_of : Insight → Condition
condition_of overdue = on_due_date "isOverdue"
condition_of due_today = on_due_date "isDueToday"
condition_of pending_approval = record { type = "status"; operator = "is"; value = one (num 3) }
condition_of due_this_week = on_due_date "isDueThisWeek"
condition_of high_priority = record {
  type = "priority";
  operator = "is";
  value = many (num 1 ∷ num 2 ∷ []);
}
condition_of no_due_date = on_due_date "hasNoDueDate"

abbrev pub insight_filter : Insight → Filter
insight_filter i = record { conditions = some (condition_of i ∷ []); operator = some "AND" }

module _ (host : Host) where
  -- The first instant of today and of the days after it.
  abbrev midnight_after : ℕ → Option ℕ
  midnight_after n = some (host.midnight (host.day host.now + n))

  -- The tasks that the card counts.
  unfoldable pub detects : Insight → Chore → Bool
  detects overdue c =
      truthy c.next_due_date && lt_number (to_date host c.next_due_date) (some host.now)
  detects due_today c =
      truthy c.next_due_date
      && same_date_string host (to_date host c.next_due_date) (host.midnight (host.day host.now))
  detects pending_approval c = c.status == num 3
  detects due_this_week c =
      truthy c.next_due_date
      && (le_number (midnight_after 1) (to_date host c.next_due_date)
          && lt_number (to_date host c.next_due_date) (midnight_after 7))
  detects high_priority c = c.priority == num 1 || c.priority == num 2
  detects no_due_date c = not (truthy c.next_due_date) || c.next_due_date == null

  -- An insight with its count.
  detected : List Chore → Insight → List (Insight × ℕ)
  detected cs i = elim (filter (detects i) cs) [ [] ↦ [] | x ∷ xs ↦ (i, length (x ∷ xs)) ∷ [] ]

  unfoldable pub insights : List Chore → List (Insight × ℕ)
  unfolding detected
  insights cs = take 3 (
      sort (λ (a b : Insight × ℕ). sub_sign (priority a.0) (priority b.0))
        (detected cs overdue
          ++ (detected cs due_today
              ++ (detected cs pending_approval
                  ++ (detected cs due_this_week
                      ++ (detected cs high_priority ++ detected cs no_due_date))))))

  -- `FILTERS`, for a user; the names are those of the menu, with `All` last.
  unfoldable pub quick_filter : String → Scalar → Chore → Bool
  quick_filter name user c =
      let due = to_date host c.next_due_date in
      if name == "Overdue"
      then not (c.next_due_date == null) && lt_number due (some host.now)
      else if name == "Due today"
      then same_date_string host due host.now
      else if name == "Due in week"
      then lt_number due (some (host.now + 604800000)) && lt_number (some host.now) due
      else if name == "Due Later"
      then lt_number (some (host.now + 86400000)) due
      else if name == "Created By Me"
      then c.created_by == user
      else if name == "Assigned To Me"
      then c.assigned_to == user
      else if name == "No Due Date"
      then c.next_due_date == null
      else if name == "Pending Approval"
      then c.status == num 3
      else true

-- Conditions with the same fields have the same JSON.
same_list : List Scalar → List Scalar → Bool
same_list [] [] = true
same_list (x ∷ xs) (y ∷ ys) = x == y && same_list xs ys
same_list _ _ = false

same_value : Value → Value → Bool
same_value (one x) (one y) = x == y
same_value (many xs) (many ys) = same_list xs ys
same_value _ _ = false

same_condition : Condition → Condition → Bool
same_condition a b = a.type == b.type && (a.operator == b.operator && same_value a.value b.value)

same_conditions : List Condition → List Condition → Bool
same_conditions [] [] = true
same_conditions (x ∷ xs) (y ∷ ys) = same_condition x y && same_conditions xs ys
same_conditions _ _ = false

unfoldable pub is_insight_active : Insight → Choice → Bool
unfolding same_conditions same_condition same_value same_list
is_insight_active i s = elim s.temp_filter [
  | none ↦ false
  | some f ↦ elim f.conditions [
    | none ↦ false
    | some conditions ↦ same_conditions conditions (condition_of i ∷ [])
  ]
]

unfoldable pub handle_insight_click : Insight → Choice → Choice
handle_insight_click i s =
    if is_insight_active i s
    then clear_temp_filter s
    else apply_temp_filter (insight_filter i) (str (name_of i)) s
