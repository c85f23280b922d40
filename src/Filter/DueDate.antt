-- ===== src/Filter/DueDate.antt =====
-- `evaluateDueDate`. The clock is read once for a call.
pub mod Week
use gsd.Prelude.{
  ℕ, ◌+◌, Bool, false, not, ◌&&◌, ◌||◌, String, Option, none, some, List, [], ◌∷◌, if◌then◌else◌,
  ◌==◌, string_eq,
}
use gsd.Js.{Scalar, undefined, null, str, Value, one, many, truthy, same, lt_number, le_number}
use gsd.Js.Calls.{Call, returns, throws}
use gsd.Dates.{Host, to_date, value_date, same_date_string, same_month}
use gsd.Chores.{Chore}
use gsd.Filter.{is_text}

abbrev or_undefined : List Scalar → Scalar
or_undefined [] = undefined
or_undefined (x ∷ _) = x

abbrev second : List Scalar → Scalar
second [] = undefined
second (_ ∷ xs) = or_undefined xs

characters : String → List Scalar
characters String.[] = []
characters (String.◌∷◌ c s) = str (String.◌∷◌ c String.[]) ∷ characters s

-- `[start, end] = value` reads the first two elements of an array or characters of a text; any other
-- value is not iterable.
unfoldable pub elements : Value → Option (List Scalar)
unfolding characters
elements (many xs) = some xs
elements (one (str s)) = some (characters s)
elements (one _) = none

module _ (host : Host) where
  abbrev between_dates : Option ℕ → Option (List Scalar) → Call Bool
  between_dates due none = throws
  between_dates due (some xs) =
      returns
        (le_number (to_date host (or_undefined xs)) due && le_number due (to_date host (second xs)))

  -- The first instants of today and of the days after it.
  abbrev pub days_ahead : ℕ → Option ℕ
  days_ahead n = some (host.midnight (host.day host.now + n))

  abbrev target : Value → Option ℕ
  target value = if is_text value "today" then days_ahead 0 else value_date host value

  -- The cases of the `switch`, for a due date that is there.
  unfoldable pub due_switch : Option ℕ → String → Value → Call Bool
  due_switch due operator value =
      if operator == "isOverdue"
      then returns (lt_number due (some host.now))
      else if operator == "isDueToday"
      then returns (same_date_string host due (host.midnight (host.day host.now)))
      else if operator == "isDueTomorrow"
      then returns (same_date_string host due (host.midnight (host.day host.now + 1)))
      else if operator == "isDueThisWeek"
      then returns (le_number (days_ahead 0) due && lt_number due (days_ahead 7))
      else if operator == "isDueThisMonth"
      then returns (same_month host due (host.midnight (host.day host.now)))
      else if operator == "before"
      then returns (lt_number due (target value))
      else if operator == "after"
      then returns (lt_number (target value) due)
      else if operator == "between"
      then between_dates due (elements value)
      else returns false

  abbrev is_missing : Scalar → Bool
  is_missing d = same d null || same d undefined

  unfoldable pub evaluate_due_date : Chore → String → Value → Call Bool
  unfolding due_switch
  evaluate_due_date c operator value =
      if operator == "hasNoDueDate"
      then returns (is_missing c.next_due_date)
      else if operator == "hasDueDate"
      then returns (not (is_missing c.next_due_date))
      else if truthy c.next_due_date
      then due_switch (to_date host c.next_due_date) operator value
      else returns false
