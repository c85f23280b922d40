-- ===== src/Tests/TaskEdit.antt =====
-- The form of a task at a concrete task.

use gsd.Prelude.{
  ◌≡◌, ◌≢◌, refl, ◌↔◌, ◌⊎◌, Bool, true, false, not, ◌&&◌, none, some, [], ◌∷◌, string_eq,
}
use gsd.Prelude.Int.{pos, negsuc, is_negative}
use gsd.Js.{undefined, num, str, truthy, to_number, lt_number}
use gsd.Js.Texts.{is_blank}
use gsd.Js.Calls.{returns, throws}
use gsd.TaskEdit.{Form, Metadata, Moment, Errors, SubTask, no_errors, effects}
use gsd.TaskEdit.Validate.{validate, handle_validate_chore}
use gsd.TaskEdit.Validate.Laws.{
  IsComplete, handle_validate_chore_iff, handle_validate_chore-throws_iff,
}
use gsd.TaskEdit.Settled.{effects_twice}
use gsd.TaskEdit.Load.{Stored, load, clone_sub_task}
use gsd.TaskEdit.Load.Laws.{clone_sub_task_lem}
use gsd.TaskEdit.Save.{update, sent, handle_save_chore}
use gsd.TaskEdit.Save.Laws.{IsSound, handle_save_chore_lem}

-- A library that writes every date in one way.
abbrev moment : Moment
moment = record {
  format = λ text form. "2026-03-05";
  end_of_day = λ text form. "2026-03-05T23:59:59";
  to_iso = λ text. returns text;
  today = "2026-03-01";
  time_zone = "UTC";
}

abbrev weekdays : Metadata
weekdays = record {
  days = some ("monday" ∷ []);
  months = none;
  week_pattern = none;
  occurrences = none;
  unit = undefined;
  time = none;
  timezone = none;
}

-- The form as it is opened.
abbrev new_form : Form
new_form = record {
  name = "";
  description = "";
  assignees = [];
  assign_strategy = "least_completed";
  assigned_to = some (negsuc 0);
  due_date = none;
  due_date_only = none;
  due_time = none;
  use_custom_time = false;
  frequency_type = "once";
  frequency = num 1;
  frequency_metadata = some weekdays;
  labels = [];
  priority = num 0;
  points = negsuc 0;
  require_approval = false;
  is_private = false;
  sub_tasks = none;
  completion_window = negsuc 0;
  deadline_offset = negsuc 0;
  thing_trigger = none;
  is_thing_valid = false;
  notification_metadata = [];
  is_rolling = false;
  is_notificable = false;
  is_active = true;
  project_id = str "default";
  created_by = num 0;
  updated_by = num 0;
  errors = no_errors;
  attempt_to_save = false;
}

abbrev stored : Stored
stored = record {
  name = "Weeding";
  description = "";
  assignees = some (6 ∷ []);
  assigned_to = some (pos 6);
  frequency_type = "days_of_the_week";
  frequency_metadata = some weekdays;
  frequency = num 1;
  notification_metadata = [];
  points = some (pos 4);
  require_approval = false;
  is_private = true;
  completion_window = none;
  deadline_offset = some (pos 2);
  labels = [];
  priority = num 1;
  assign_strategy = "random";
  is_rolling = false;
  is_active = true;
  sub_tasks = none;
  project_id = num 9;
  notification = true;
  thing_chore = none;
  next_due_date = some "2026-03-05T21:00:00Z";
  created_by = num 5;
  updated_by = num 5;
}

abbrev opened : Form
opened = load moment false stored new_form

handle_validate_chore_iff_example :
    (errors : Errors) × (accepted : Bool) × (handle_validate_chore new_form
      ≡ returns (record new_form { errors = errors }, accepted))
    × ((accepted ≡ true) ↔ IsComplete new_form weekdays)
handle_validate_chore_iff_example = handle_validate_chore_iff new_form weekdays refl

abbrev bare : Form
bare = record new_form { frequency_metadata = none; frequency_type = "interval" }

handle_validate_chore-throws_iff_example : (handle_validate_chore bare ≡ throws) ↔ (
    (bare.frequency_metadata ≡ none)
    × ((bare.frequency_type ≡ "days_of_the_week")
        ⊎ (bare.frequency_type ≡ "day_of_the_month")
        ⊎ ((bare.frequency_type ≡ "interval") × (truthy bare.frequency ≡ false))))
handle_validate_chore-throws_iff_example = handle_validate_chore-throws_iff bare

effects_twice_example : effects moment (effects moment new_form) ≡ effects moment new_form
effects_twice_example = effects_twice moment refl new_form

abbrev only_name : Errors
only_name = record no_errors { name = some "Name is required" }

new_form-errors : validate (effects moment new_form) ≡ returns only_name
unfolding validate effects is_blank
new_form-errors = refl

abbrev named : Form
named = record new_form { name = "Dishes"; assign_strategy = "no_assignee" }

saved :
    handle_save_chore moment (str "2") false named
    ≡ returns (record named { attempt_to_save = true }, some (update (sent (str "2") none named)))
unfolding handle_save_chore handle_validate_chore is_blank sent to_number
saved = refl

handle_save_chore_lem_example :
    IsSound (sent (str "2") none named)
    × (true ≡ (not false && lt_number (some 0) (to_number (str "2"))))
handle_save_chore_lem_example =
    handle_save_chore_lem moment (str "2") false named (record named { attempt_to_save = true })
      (update (sent (str "2") none named)) saved

abbrev dig : SubTask
dig = record { id = pos 3; parent_id = none; name = "Dig"; completed = true; completed_at = none }

abbrev rake : SubTask
rake = record {
  id = pos 4;
  parent_id = some (pos 3);
  name = "Rake";
  completed = false;
  completed_at = none;
}

dig-id : dig.id ≢ pos 0
dig-id h = cc h

clone_sub_task_lem_example :
    ((some (pos 3) ≡ some (pos 3))
      ↔ ((clone_sub_task rake).parent_id ≡ some (clone_sub_task dig).id))
    × (false ≡ false → is_negative (clone_sub_task dig).id ≡ true)
    × (false ≡ false)
clone_sub_task_lem_example = clone_sub_task_lem dig rake dig-id
