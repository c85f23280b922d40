-- ===== src/TaskEdit/Validate.antt =====
-- `HandleValidateChore` of ui/src/views/ChoreEdit/ChoreEdit.jsx. `!frequency > 0` reads as
-- `(!frequency) > 0`.
pub mod Laws
use Prim.Native.String
use gsd.Prelude.{
  Bool, true, false, not, ◌&&◌, ◌||◌, String, Option, none, some, List, [], ◌∷◌, ◌++◌,
  if◌then◌else◌, ◌==◌, string_eq,
}
use gsd.Prelude.Int.{is_negative}
use gsd.Prelude.Partition.{contains}
use gsd.Js.{Scalar, truthy, to_text}
use gsd.Js.Texts.{is_blank}
use gsd.Js.Calls.{Call, returns, throws, ◌>>=◌}
use gsd.TaskEdit.{
  Form, Metadata, Errors, no_errors, repeat_on_type, no_due_date_required_type,
  no_due_date_allowed_type,
}

abbrev error_if : Bool → String → Option String
error_if b message = if b then some message else none

abbrev pub name_error : Form → Option String
name_error f = error_if (is_blank f.name) "Name is required"

abbrev is_nil {ℓ} : {A : Type ℓ} → List A → Bool
is_nil [] = true
is_nil (_ ∷ _) = false

abbrev pub assignees_error : Form → Option String
assignees_error f =
    error_if (not (f.assign_strategy == "no_assignee") && is_nil f.assignees)
      "At least 1 assignees is required"

-- `assignedTo === null || assignedTo < 0`
abbrev pub is_unassigned : Form → Bool
is_unassigned f = elim f.assigned_to [ none ↦ true | some user ↦ is_negative user ]

abbrev pub assigned_to_error : Form → Option String
assigned_to_error f =
    error_if (not (f.assign_strategy == "no_assignee") && is_unassigned f) "Assigned to is required"

-- `list?.length === 0`
abbrev pub is_empty {ℓ} : {A : Type ℓ} → Option (List A) → Bool
is_empty none = false
is_empty (some xs) = is_nil xs

-- `!list || list.length === 0`
abbrev pub is_missing {ℓ} : {A : Type ℓ} → Option (List A) → Bool
is_missing none = true
is_missing (some xs) = is_nil xs

abbrev is_text : Option String → String → Bool
is_text none s = false
is_text (some t) s = t == s

-- A field of the metadata is read where the kind of repetition asks for it.
abbrev read_if {ℓ} : {A : Type ℓ} → Bool → Option Metadata → A → (Metadata → A) → Call A
read_if b none otherwise g = if b then throws else returns otherwise
read_if b (some d) otherwise g = returns (if b then g d else otherwise)

interval_message : Metadata → String
interval_message d =
    String.◌++◌ "Invalid frequency, the " (String.◌++◌ (to_text d.unit) " should be > 0")

-- The last of the messages that are set.
abbrev pub last_of : Option String → Option String → Option String
last_of a none = a
last_of a (some b) = some b

pub frequency_error : Form → Call (Option String)
unfolding interval_message
frequency_error f = do
  interval ←
      read_if (f.frequency_type == "interval" && not (truthy f.frequency)) f.frequency_metadata none
        (λ d. some (interval_message d))
  days ←
      read_if (f.frequency_type == "days_of_the_week") f.frequency_metadata none
        (λ d. error_if (is_empty d.days) "Please select at least one day of the week")
  weeks ← read_if (f.frequency_type == "days_of_the_week") f.frequency_metadata none (λ d.
      error_if (is_text d.week_pattern "week_of_month" && is_missing d.occurrences)
        "Please select at least one day occurrence for the month")
  months ←
      read_if (f.frequency_type == "day_of_the_month") f.frequency_metadata none
        (λ d. error_if (is_empty d.months) "Please select at least one month")
  returns (last_of (last_of (last_of interval days) weeks) months)

abbrev is_null : Option String → Bool
is_null none = true
is_null (some _) = false

abbrev pub due_date_error : Form → Option String
due_date_error f =
    if is_null f.due_date
      && not (contains no_due_date_required_type f.frequency_type)
      && not (contains no_due_date_allowed_type f.frequency_type)
    then some (
        if contains repeat_on_type f.frequency_type
        then "Start date is required"
        else "Due date is required")
    else none

abbrev pub thing_error : Form → Option String
thing_error f =
    error_if (f.frequency_type == "trigger" && not f.is_thing_valid) "Thing trigger is invalid"

unfoldable pub validate : Form → Call Errors
unfolding frequency_error
validate f = do
  frequency ← frequency_error f
  returns (record {
    name = name_error f;
    assignees = assignees_error f;
    assigned_to = assigned_to_error f;
    frequency = frequency;
    due_date = due_date_error f;
    thing_trigger = thing_error f;
  })

-- `Object.keys(errors).map(key => errors[key])`
abbrev listed : Option String → List String → List String
listed none rest = rest
listed (some message) rest = message ∷ rest

abbrev pub error_list : Errors → List String
error_list e = listed e.name (
    listed e.assignees
      (listed e.assigned_to (listed e.frequency (listed e.due_date (listed e.thing_trigger [])))))

-- The state after the validation, and whether it found no error.
unfoldable pub handle_validate_chore : Form → Call (Form × Bool)
unfolding validate
handle_validate_chore f = do
  errors ← validate f
  returns (record f { errors = errors }, is_nil (error_list errors))

-- The effect that validates again after an attempt to save.
unfoldable pub validate_effect : Form → Call Form
validate_effect f =
    let validated = handle_validate_chore f in
    if f.attempt_to_save then validated >>= (λ r. returns (r.0)) else returns f
