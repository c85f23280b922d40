-- ===== src/TaskEdit/Save.antt =====
-- `HandleSaveChore` of ui/src/views/ChoreEdit/ChoreEdit.jsx, up to its call, and what follows its answer.
pub mod Laws
pub mod RoundTrip
use gsd.Prelude.{
  ℕ, Bool, true, false, not, ◌||◌, String, Option, none, some, List, [], ◌∷◌, if◌then◌else◌, ◌==◌,
  string_eq,
}
use gsd.Prelude.Int.{ℤ, pos, negsuc, is_negative}
use gsd.Js.{Scalar, null, str, to_number, lt_number, scalar_eq}
use gsd.Js.Calls.{Call, returns, throws, ◌>>=◌}
use gsd.Js.Fields.{Fields}
use gsd.Chores.{Label}
use gsd.TaskEdit.{Form, Metadata, SubTask, Trigger, Moment, is_set}
use gsd.TaskEdit.Validate.{handle_validate_chore}

-- The task that is sent; `none` is null, and NaN for a number of `Number`.
pub record Sent : Type 0 where
  pub id : Option ℕ
  pub name : String
  pub description : String
  pub assignees : List ℕ
  pub due_date : Option String
  pub frequency_type : String
  pub frequency : Option ℕ
  pub frequency_metadata : Option Metadata
  pub assigned_to : Option ℤ
  pub assign_strategy : String
  pub is_rolling : Bool
  pub is_active : Bool
  pub notification : Bool
  pub labels : List Label
  pub sub_tasks : Option (List SubTask)
  pub notification_metadata : Fields
  pub thing_trigger : Option Trigger
  pub points : Option ℤ
  pub require_approval : Bool
  pub is_private : Bool
  pub completion_window : Option ℤ
  pub deadline_offset : Option ℤ
  pub priority : Scalar
  pub project_id : Scalar

pub data Request : Type 0 where
  create update : Sent → Request

-- `n < 0 ? null : n`
abbrev unless_negative : ℤ → Option ℤ
unless_negative n = if is_negative n then none else some n

abbrev is_null : Option String → Bool
is_null none = true
is_null (some _) = false

abbrev pub iso_due : Moment → Option String → Call (Option String)
iso_due m none = returns none
iso_due m (some due) =
    if due == "" then returns none else m.to_iso due >>= λ text. returns (some text)

unfoldable pub sent : Scalar → Option String → Form → Sent
sent id due f = record {
  id = to_number id;
  name = f.name;
  description = f.description;
  assignees = f.assignees;
  due_date = due;
  frequency_type = f.frequency_type;
  frequency = to_number f.frequency;
  frequency_metadata = f.frequency_metadata;
  assigned_to = if f.assign_strategy == "no_assignee" then none else f.assigned_to;
  assign_strategy = f.assign_strategy;
  is_rolling = f.is_rolling;
  is_active = f.is_active;
  notification = f.is_notificable;
  labels = f.labels;
  sub_tasks = f.sub_tasks;
  notification_metadata = f.notification_metadata;
  thing_trigger = f.thing_trigger;
  points = unless_negative f.points;
  require_approval = f.require_approval;
  is_private = f.is_private;
  completion_window =
      if is_negative f.completion_window || is_null f.due_date
      then none
      else some f.completion_window;
  deadline_offset = unless_negative f.deadline_offset;
  priority = f.priority;
  project_id = if f.project_id == str "default" then null else f.project_id;
}

-- Whether the task is created or changed: `newChoreId > 0`.
abbrev pub request : Scalar → Sent → Request
request id task = if lt_number (some 0) (to_number id) then update task else create task

abbrev pub submit : Moment → Scalar → Form × Bool → Call (Form × Option Request)
submit m id (f, false) = returns (f, none)
submit m id (f, true) = do
  due ← iso_due m f.due_date
  returns (f, some (request id (sent id due f)))

-- The arguments are the id in the address, and whether a copy is made. The state after the attempt comes
-- with the request, if there is one.
unfoldable pub handle_save_chore : Moment → Scalar → Bool → Form → Call (Form × Option Request)
unfolding sent
handle_save_chore m chore_id clone f = do
  checked ← handle_validate_chore (record f { attempt_to_save = true })
  submit m (if clone then null else chore_id) checked

pub data Shown : Type 0 where
  success failure : String → Shown
  navigate : String → Shown

-- What follows when the request has succeeded or failed.
unfoldable pub on_saved : Bool → List Shown
on_saved true = success "Chore Saved" ∷ navigate "/chores" ∷ []
on_saved false = failure "Save Failed" ∷ []
