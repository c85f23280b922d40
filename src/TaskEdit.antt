-- ===== src/TaskEdit.antt =====
-- The form of a task, ui/src/views/ChoreEdit/ChoreEdit.jsx: its state, its effects and the handlers of its
-- date and time fields. The library moment is a parameter.
pub mod Validate
pub mod Load
pub mod Save
pub mod Settled
use Prim.Native.String
use gsd.Prelude.{
  ℕ, Bool, true, false, not, ◌&&◌, ◌||◌, String, Option, none, some, List, [], ◌∷◌, ◌++◌, any,
  if◌then◌else◌, ◌==◌, string_eq,
}
use gsd.Prelude.Int.{ℤ, pos}
use gsd.Prelude.Partition.{contains}
use gsd.Js.{Scalar}
use gsd.Js.Calls.{Call}
use gsd.Js.Fields.{Fields}
use gsd.Chores.{Label}

-- `moment(text).format(f)`, the same at the end of the day, `new Date(text).toISOString()`, today as
-- 'YYYY-MM-DD', and the time zone.
pub record Moment : Type 0 where
  pub format : String → String → String
  pub end_of_day : String → String → String
  pub to_iso : String → Call String
  pub today : String
  pub time_zone : String

-- `none`: the field is missing.
pub record Metadata : Type 0 where
  pub days : Option (List String)
  pub months : Option (List String)
  pub week_pattern : Option String
  pub occurrences : Option (List Scalar)
  pub unit : Scalar
  pub time : Option String
  pub timezone : Option String

pub record SubTask : Type 0 where
  pub id : ℤ
  pub parent_id : Option ℤ
  pub name : String
  pub completed : Bool
  pub completed_at : Option String

pub record Trigger : Type 0 where
  pub trigger_state : Scalar
  pub condition : Scalar
  pub thing_id : Scalar

-- The messages of the validation, in the order in which they are listed.
pub record Errors : Type 0 where
  pub name : Option String
  pub assignees : Option String
  pub assigned_to : Option String
  pub frequency : Option String
  pub due_date : Option String
  pub thing_trigger : Option String

abbrev pub no_errors : Errors
no_errors = record {
  name = none;
  assignees = none;
  assigned_to = none;
  frequency = none;
  due_date = none;
  thing_trigger = none;
}

-- The state that is saved, validated or set by effects. Assignees stand by their user ids; `none` is null.
pub record Form : Type 0 where
  pub name : String
  pub description : String
  pub assignees : List ℕ
  pub assign_strategy : String
  pub assigned_to : Option ℤ
  pub due_date : Option String
  pub due_date_only : Option String
  pub due_time : Option String
  pub use_custom_time : Bool
  pub frequency_type : String
  pub frequency : Scalar
  pub frequency_metadata : Option Metadata
  pub labels : List Label
  pub priority : Scalar
  pub points : ℤ
  pub require_approval : Bool
  pub is_private : Bool
  pub sub_tasks : Option (List SubTask)
  pub completion_window : ℤ
  pub deadline_offset : ℤ
  pub thing_trigger : Option Trigger
  pub is_thing_valid : Bool
  pub notification_metadata : Fields
  pub is_rolling : Bool
  pub is_notificable : Bool
  pub is_active : Bool
  pub project_id : Scalar
  pub created_by : Scalar
  pub updated_by : Scalar
  pub errors : Errors
  pub attempt_to_save : Bool

abbrev pub repeat_on_type : List String
repeat_on_type = "interval" ∷ "days_of_the_week" ∷ "day_of_the_month" ∷ []

abbrev pub no_due_date_required_type : List String
no_due_date_required_type = "no_repeat" ∷ "once" ∷ []

abbrev pub no_due_date_allowed_type : List String
no_due_date_allowed_type = "trigger" ∷ []

-- `if (text)`
abbrev pub is_set : Option String → Bool
is_set none = false
is_set (some s) = not (s == "")

abbrev with_assignee : String → Option ℤ → Form → Form
with_assignee strategy user f = record f { assign_strategy = strategy; assigned_to = user }

pub assignees_rule : List ℕ → Form → Form
assignees_rule [] f = with_assignee "no_assignee" none f
assignees_rule (user ∷ []) f =
    with_assignee
      (if f.assign_strategy == "no_assignee" then "least_completed" else f.assign_strategy)
      (some (pos user)) f
assignees_rule (_ ∷ _ ∷ _) f = f

-- The effect on the assignees.
unfoldable pub assignees_effect : Form → Form
unfolding assignees_rule
assignees_effect f = assignees_rule f.assignees f

-- Whether the kind of repetition requires no due date, or allows none.
unfoldable pub may_lack_date : String → Bool
may_lack_date type = contains no_due_date_required_type type

unfoldable pub takes_no_date : String → Bool
takes_no_date type = contains no_due_date_allowed_type type

abbrev with_zone : Moment → String → Option Metadata → Metadata
with_zone m time none = record {
  days = none;
  months = none;
  week_pattern = none;
  occurrences = none;
  unit = Scalar.undefined;
  time = some time;
  timezone = some m.time_zone;
}
with_zone m time (some d) = record d { time = some time; timezone = some m.time_zone }

module _ (m : Moment) where
  abbrev today_due : Form → Form
  today_due f = record f {
    due_date_only = some m.today;
    due_date = some (m.end_of_day m.today "YYYY-MM-DDTHH:mm:59");
    use_custom_time = false;
    due_time = none;
  }

  abbrev without_due : Form → Form
  without_due f = record f {
    due_date = none;
    due_date_only = none;
    use_custom_time = false;
    due_time = none;
  }

  -- The effect on the kind of repetition and the due date. Its two parts look at the state before both.
  unfoldable pub frequency_effect : Form → Form
  unfolding may_lack_date takes_no_date
  frequency_effect f =
      let dated =
        if not (may_lack_date f.frequency_type) && not (is_set f.due_date)
        then today_due f
        else f in
      if takes_no_date f.frequency_type then without_due dated else dated

  -- One round of the effects.
  unfoldable pub effects : Form → Form
  unfolding frequency_effect assignees_effect
  effects f = assignees_effect (frequency_effect f)

  -- The due date at a time, with the time in the metadata where the task repeats.
  unfoldable at_time : String → String → String → Form → Form
  at_time date time seconds f = record f {
    due_date = some (m.format (String.◌++◌ date (String.◌++◌ "T" time)) seconds);
    frequency_metadata =
        if contains repeat_on_type f.frequency_type
        then some (
            with_zone m (m.format (String.◌++◌ date (String.◌++◌ "T" time)) "")
              f.frequency_metadata)
        else f.frequency_metadata;
  }

  unfoldable pub handle_due_date_change : String → Form → Form
  unfolding at_time
  handle_due_date_change date f =
      let g = record f { due_date_only = some date } in
      let late = record g { due_date = some (m.end_of_day date "YYYY-MM-DDTHH:mm:59") } in
      elim f.due_time [
        | none ↦ late
        | some time ↦
            if f.use_custom_time && not (time == "")
            then at_time date time "YYYY-MM-DDTHH:mm:00" g
            else late
      ]

  abbrev on_date : Option String → (String → Form → Form) → Form → Form
  on_date none change f = f
  on_date (some date) change f = if date == "" then f else change date f

  unfoldable pub handle_due_time_change : String → Form → Form
  unfolding at_time
  handle_due_time_change time f =
      on_date f.due_date_only (λ date g. at_time date time "YYYY-MM-DDTHH:mm:00" g)
        (record f { due_time = some time })

  abbrev default_time : Option String → String
  default_time none = "18:00"
  default_time (some time) = if time == "" then "18:00" else time

  unfoldable pub handle_use_custom_time_change : Bool → Form → Form
  unfolding at_time
  handle_use_custom_time_change true f =
      let time = default_time f.due_time in
      on_date f.due_date_only (λ date g. at_time date time "YYYY-MM-DDTHH:mm:59" g)
        (record f { use_custom_time = true; due_time = some time })
  handle_use_custom_time_change false f =
      on_date f.due_date_only
        (λ date g. record g { due_date = some (m.end_of_day date "YYYY-MM-DDTHH:mm:ss") })
        (record f { use_custom_time = false })

-- The field of the thing is `none` where the update is null.
unfoldable pub handle_thing_trigger_update : Option Trigger → Form → Form
handle_thing_trigger_update update f = record f { thing_trigger = update }
