-- ===== src/TaskEdit/Save/RoundTrip.antt =====
-- A task that is loaded into the form and saved again.
use gsd.Prelude.{
  ℕ, suc, ◌≡◌, ◌⊎◌, true, false, ◌||◌, String, Option, none, some, List, [], ◌∷◌, ◌==◌, nat_eq,
  string_eq,
}
use gsd.Prelude.Int.{ℤ, pos}
use gsd.Js.{Scalar, null, str, truthy, to_number, scalar_eq}
use gsd.TaskEdit.{Moment, may_lack_date, takes_no_date}
use gsd.TaskEdit.Load.{Stored, or_empty}
use gsd.TaskEdit.Save.{Sent}

-- Missing, or a number from 1 on.
abbrev pub IsCount : Option ℤ → Type 0
IsCount n = (n ≡ none) ⊎ ((k : ℕ) × (n ≡ some (pos (suc k))))

-- The assignee fits the list of assignees.
abbrev pub IsAssigned : Stored → Type 0
IsAssigned t =
    ((t.assignees ≡ some []) × (t.assign_strategy ≡ "no_assignee") × (t.assigned_to ≡ none))
    ⊎ ((user : ℕ) × (t.assignees ≡ some (user ∷ []))
        × (t.assigned_to ≡ some (pos user))
        × ((t.assign_strategy == "no_assignee") ≡ false))
    ⊎ ((a : ℕ) × (b : ℕ) × (users : List ℕ) × (t.assignees ≡ some (a ∷ b ∷ users))
        × ((t.assign_strategy == "no_assignee") ≡ false))

-- A due date that the library can write, or none where the kind of repetition needs none.
abbrev pub IsDue : Moment → Stored → Type 0
IsDue m t =
    ((due : String) × (t.next_due_date ≡ some due)
      × ((due == "") ≡ false)
      × ((m.format due "YYYY-MM-DDTHH:mm:00" == "") ≡ false)
      × (takes_no_date t.frequency_type ≡ false))
    ⊎ ((t.next_due_date ≡ none)
        × (t.completion_window ≡ none)
        × ((may_lack_date t.frequency_type || takes_no_date t.frequency_type) ≡ true))

abbrev pub IsProject : Scalar → Type 0
IsProject p = (p ≡ null) ⊎ ((truthy p ≡ true) × ((p == str "default") ≡ false))

abbrev pub IsKept : Moment → Stored → Type 0
IsKept m t =
    ((t.frequency_type == "") ≡ false)
    × ((t.assign_strategy == "") ≡ false)
    × IsCount t.points
    × IsCount t.completion_window
    × IsCount t.deadline_offset
    × IsProject t.project_id
    × IsAssigned t
    × IsDue m t

-- The task itself, as it would be sent.
abbrev pub as_sent : Scalar → Option String → Stored → Sent
as_sent id due t = record {
  id = to_number id;
  name = t.name;
  description = t.description;
  assignees = or_empty t.assignees;
  due_date = due;
  frequency_type = t.frequency_type;
  frequency = to_number t.frequency;
  frequency_metadata = t.frequency_metadata;
  assigned_to = t.assigned_to;
  assign_strategy = t.assign_strategy;
  is_rolling = t.is_rolling;
  is_active = t.is_active;
  notification = t.notification;
  labels = t.labels;
  sub_tasks = some (or_empty t.sub_tasks);
  notification_metadata = t.notification_metadata;
  thing_trigger = t.thing_chore;
  points = t.points;
  require_approval = t.require_approval;
  is_private = t.is_private;
  completion_window = t.completion_window;
  deadline_offset = t.deadline_offset;
  priority = t.priority;
  project_id = t.project_id;
}

abbrev pub loaded_due : Moment → Option String → Option String
loaded_due m none = none
loaded_due m (some due) = some (m.format due "YYYY-MM-DDTHH:mm:00")
