-- ===== src/Tests.antt =====
-- Concrete tasks, a concrete host and the theorems at them.
pub mod Api
pub mod Selection
pub mod Timer
pub mod Offline
pub mod Network
pub mod Tasks
pub mod Filters
pub mod Stream
pub mod Actions
pub mod Views
pub mod Points
pub mod SubTasks
pub mod TaskEdit
pub mod TimerDetails
pub mod Input
use gsd.Prelude.{
  ℕ, true, false, ◌+◌, ◌*◌, ◌/◌, ◌≤◌, ◌<◌, ◌≡◌, refl, String, Option, none, some, List, [], ◌∷◌,
  arith, if◌then◌else◌, ◌==◌, string_eq,
}
use gsd.Js.{Scalar, undefined, null, boolean, num, str}
use gsd.Dates.{Host, IsCalendar}
use gsd.Chores.{Chore, Label, Assignee}

-- Noon of day 20; texts of two dates can be read.
abbrev pub host : Host
host = record {
  now = 1771200000;
  parse = λ s.
      if s == "day 20" then some 1778400000 else if s == "day 22" then some 1900800000 else none;
  day = λ t. t / 86400000;
  midnight = λ d. d * 86400000;
  month = λ d. d / 30;
  year = λ d. d / 360;
}

pub host-IsCalendar : IsCalendar host
host-IsCalendar = record {
  midnight_le = λ t. omega arith;
  lt_midnight = λ t. omega arith;
  midnight_mono = λ d e h. omega arith;
  month_run = λ c d e h k m y. (omega arith, omega arith);
}

abbrev pub home : Label
home = record { id = 7; name = "Home" }

abbrev pub garden : Label
garden = record { id = 3; name = "Garden" }

abbrev pub dishes : Chore
dishes = record {
  id = num 1;
  name = "Dishes";
  assigned_to = num 5;
  assignees = some (record { user_id = num 5 } ∷ []);
  created_by = num 5;
  priority = num 2;
  status = num 0;
  next_due_date = str "day 20";
  labels = some (home ∷ []);
  project_id = null;
  points = num 4;
  frequency_type = str "once";
  is_private = boolean false;
  completion_window = null;
}

abbrev pub weeding : Chore
weeding = record {
  id = num 2;
  name = "Weeding";
  assigned_to = num 6;
  assignees = some (record { user_id = num 6 } ∷ []);
  created_by = num 5;
  priority = num 1;
  status = num 0;
  next_due_date = str "day 22";
  labels = some (garden ∷ home ∷ []);
  project_id = num 9;
  points = undefined;
  frequency_type = str "weekly";
  is_private = boolean true;
  completion_window = num 24;
}

abbrev pub tasks : List Chore
tasks = dishes ∷ weeding ∷ []
