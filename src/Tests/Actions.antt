-- ===== src/Tests/Actions.antt =====
-- The actions on tasks and the notifications at concrete tasks.

use gsd.Prelude.{
  ◌≡◌, true, false, String, Option, none, some, List, [], ◌∷◌, ◌++◌, any, ℕ, if◌then◌else◌, ◌==◌,
}
use gsd.Prelude.Int.{negsuc, pos}
use gsd.Js.{Scalar, str, num, scalar_eq}
use gsd.Chores.{Chore}
use gsd.Actions.{Effect, Screen, Answer, rejected, response, task, without}
use gsd.Actions.Laws.{completed_screen, is_refresh, is_failure, is_lost, finish_complete_lem}
use gsd.Actions.Bulk.{bulk_archive, bulk_delete}
use gsd.Actions.Bulk.Laws.{Leaves, bulk_archive_delete}
use gsd.Notifications.{Reminded, collected, schedule_chore_notification}
use gsd.Notifications.Laws.{IsSchedule, schedule_chore_notification_lem}
use gsd.Tests.{host, dishes, weeding, tasks}

abbrev screen : Screen
screen = record {
  chores = tasks;
  filtered = weeding ∷ [];
  cached = some tasks ∷ none ∷ [];
  effects = [];
}

abbrev weeding_started : Chore
weeding_started = record weeding { status = num 1 }

abbrev no_iso : Scalar → Option String
no_iso d = none

finish_complete_lem_example :
    ((completed_screen no_iso none screen dishes (rejected true) screen).chores
      ≡ without (num 1) tasks)
    × ((completed_screen no_iso none screen dishes (rejected true) screen).filtered
        ≡ without (num 1) (weeding ∷ []))
    × (new : List Effect) × ((completed_screen no_iso none screen dishes
          (rejected true)
          screen).effects
        ≡ [] ++ new)
    × (any is_refresh new ≡ true)
    × (any is_failure new ≡ is_lost (rejected true))
finish_complete_lem_example = finish_complete_lem no_iso none screen dishes (rejected true) screen

-- Only the weeding can be reached.
abbrev answers : Chore → Answer
answers c = if c.id == num 1 then rejected false else response true (task c)

bulk_archive_delete_example :
    Leaves answers tasks screen (bulk_archive answers tasks screen).0
    × Leaves answers tasks screen (bulk_delete answers screen tasks screen).0
bulk_archive_delete_example = bulk_archive_delete answers tasks screen

-- An hour ahead, and two days later.
abbrev reminded : Reminded
reminded = record {
  id = num 1;
  name = "Dishes";
  notification = str "true";
  next_due_date = str "day 20";
  templates =
      some (record { value = pos 2; unit = "d" } ∷ record { value = negsuc 0; unit = "h" } ∷ []);
}

abbrev no_text : ℕ → String
no_text t = ""

abbrev no_hash : String → ℕ
no_hash s = 7

schedule_chore_notification_lem_example :
    IsSchedule host no_text no_hash
      (collected host no_text no_hash (reminded ∷ []))
      (schedule_chore_notification host no_text no_hash (reminded ∷ []))
schedule_chore_notification_lem_example =
    schedule_chore_notification_lem host no_text no_hash (reminded ∷ [])
