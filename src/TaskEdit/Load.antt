-- ===== src/TaskEdit/Load.antt =====
-- The effect of ui/src/views/ChoreEdit/ChoreEdit.jsx that puts a task of the server into the form, also as
-- a copy. A text that is missing stands as the empty one.
pub mod Laws
use Prim.Native.String
use gsd.Prelude.{
  ℕ, ◌+◌, ◌-◌, Bool, true, false, not, String, Option, none, some, List, [], ◌∷◌, map,
  if◌then◌else◌, ◌==◌, string_eq, nat_eq,
}
use gsd.Prelude.Int.{ℤ, pos, negsuc}
use gsd.Js.{Scalar, str, or_else}
use gsd.Js.Fields.{Fields}
use gsd.Chores.{Label}
use gsd.TaskEdit.{Form, Metadata, SubTask, Trigger, Moment}

-- The task that the server answers.
pub record Stored : Type 0 where
  pub name : String
  pub description : String
  pub assignees : Option (List ℕ)
  pub assigned_to : Option ℤ
  pub frequency_type : String
  pub frequency_metadata : Option Metadata
  pub frequency : Scalar
  pub notification_metadata : Fields
  pub points : Option ℤ
  pub require_approval : Bool
  pub is_private : Bool
  pub completion_window : Option ℤ
  pub deadline_offset : Option ℤ
  pub labels : List Label
  pub priority : Scalar
  pub assign_strategy : String
  pub is_rolling : Bool
  pub is_active : Bool
  pub sub_tasks : Option (List SubTask)
  pub project_id : Scalar
  pub notification : Bool
  pub thing_chore : Option Trigger
  pub next_due_date : Option String
  pub created_by : Scalar
  pub updated_by : Scalar

abbrev minus_one : ℤ
minus_one = negsuc 0

-- `n && n > -1 ? n : -1`
abbrev pub or_minus_one : Option ℤ → ℤ
or_minus_one none = minus_one
or_minus_one (some (negsuc n)) = minus_one
or_minus_one (some (pos n)) = if n == 0 then minus_one else pos n

abbrev pub or_text : String → String → String
or_text s otherwise = if s == "" then otherwise else s

abbrev pub or_empty {ℓ} : {A : Type ℓ} → Option (List A) → List A
or_empty none = []
or_empty (some xs) = xs

-- `-n`
unfoldable pub negate : ℤ → ℤ
negate (pos n) = if n == 0 then pos 0 else negsuc (n - 1)
negate (negsuc n) = pos (n + 1)

-- `parentId ? -parentId : null`
abbrev pub negate_parent : Option ℤ → Option ℤ
negate_parent none = none
negate_parent (some (pos n)) = if n == 0 then none else some (negate (pos n))
negate_parent (some (negsuc n)) = some (negate (negsuc n))

abbrev pub clone_sub_task : SubTask → SubTask
clone_sub_task t = record t {
  id = negate t.id;
  parent_id = negate_parent t.parent_id;
  completed = false;
  completed_at = none;
}

abbrev pub cloned : Bool → Option (List SubTask) → List SubTask
cloned clone none = []
cloned clone (some ts) = if clone then map clone_sub_task ts else ts

abbrev name_of : Bool → String → String
name_of clone name =
    if clone then (if name == "" then "" else String.◌++◌ "Copy of " name) else name

-- The fields that do not hold the due date.
abbrev pub basic : Bool → Stored → Form → Form
basic clone t f = record f {
  name = name_of clone t.name;
  description = t.description;
  assignees = or_empty t.assignees;
  assigned_to = t.assigned_to;
  frequency_type = or_text t.frequency_type "once";
  frequency_metadata = t.frequency_metadata;
  frequency = t.frequency;
  notification_metadata = t.notification_metadata;
  points = or_minus_one t.points;
  require_approval = t.require_approval;
  is_private = t.is_private;
  completion_window = or_minus_one t.completion_window;
  deadline_offset = or_minus_one t.deadline_offset;
  labels = t.labels;
  priority = t.priority;
  assign_strategy = or_text t.assign_strategy "least_completed";
  is_rolling = t.is_rolling;
  is_active = t.is_active;
  sub_tasks = some (cloned clone t.sub_tasks);
  project_id = or_else t.project_id (str "default");
  is_notificable = t.notification;
  thing_trigger = t.thing_chore;
  created_by = t.created_by;
  updated_by = t.updated_by;
}

abbrev pub undated_form : Form → Form
undated_form f = record f {
  due_date_only = none;
  due_date = none;
  use_custom_time = false;
  due_time = none;
}

-- The due date as a date and, where it is not the last minute of the day, a time.
abbrev pub dated_form : Moment → String → Form → Form
dated_form m due f =
    let time = m.format due "HH:mm" in
    record f {
      due_date_only = some (m.format due "YYYY-MM-DD");
      due_date = some (m.format due "YYYY-MM-DDTHH:mm:00");
      use_custom_time = not (time == "23:59");
      due_time = if time == "23:59" then none else some time;
    }

unfoldable pub load_due : Moment → Option String → Form → Form
load_due m none f = undated_form f
load_due m (some due) f = if due == "" then undated_form f else dated_form m due f

unfoldable pub load : Moment → Bool → Stored → Form → Form
unfolding load_due
load m clone t f = load_due m t.next_due_date (basic clone t f)
