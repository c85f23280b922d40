-- ===== src/Tests/TimerDetails.antt =====
-- A session from "0" to "100" (seconds), with an entry from "10" to "40" and one that runs since "60".
use gsd.Prelude.{
  get_elem?, take, drop, ◌++◌, ℕ, ◌+◌, ◌≡◌, refl, true, false, none, some, List, [], ◌∷◌,
  if◌then◌else◌, ◌==◌, string_eq, nat_eq, ltb, All, arith,
}
use gsd.Prelude.Int.{pos, ◌+ℤ◌}
use gsd.Js.{Scalar, decimal}
use gsd.Js.Calls.{returns, throws}
use gsd.Js.Objects.{get}
use gsd.Timer.{elapsed}
use gsd.TimerDetails.{
  is_set, Texts, Pause, Session, Editing, format_time, format_duration, is_timer_running,
  calculate_total_duration, calculate_current_active_duration, calculate_idle_time, add_active,
  active_of, template,
}
use gsd.TimerDetails.Edits.{Sessions, start_field, end_field, start_editing_session, input_value}
use gsd.TimerDetails.Edits.Laws.{
  Edit, adding, changing, removing, edit_all, IsTimed, edit_all-IsTimed,
}
use gsd.TimerDetails.Requests.{
  Sent, mutate, confirm, set_loading, show_error, save_session, handle_delete_session, on_close,
  update_data,
}
use gsd.TimerDetails.Requests.Deletion.{on_close-handle_delete_session}
use gsd.TimerDetails.Times.{IsLog, runs, then_on, idle-total}

abbrev texts : Texts
texts = record {
  parse = λ s.
      if s == "0"
      then some 0
      else if s == "10"
      then some 10000
      else if s == "40"
      then some 40000
      else if s == "60"
      then some 60000
      else none;
  iso = λ t. if ltb t 50000 then "0" else "60";
  local = λ s. s;
}

abbrev ended : Pause
ended = record {
  start = some "10";
  end = some "40";
  duration = some (pos 30);
  updated_by = Scalar.num 1;
}

abbrev running : Pause
running = record {
  start = some "60";
  end = none;
  duration = some (pos 0);
  updated_by = Scalar.num 1;
}

abbrev session : Session
session = record {
  id = 7;
  start_time = "0";
  end_time = none;
  duration = 30;
  pause_log = some (ended ∷ running ∷ []);
}

abbrev editing : Editing
editing = record {
  start_time = "0";
  end_time = "";
  duration = 30;
  formatted_duration = "00:00:30";
  pause_log = ended ∷ running ∷ [];
}

abbrev sessions : Sessions
sessions = (7, editing) ∷ []

starts_editing : start_editing_session texts (some session) [] ≡ sessions
unfolding start_editing_session format_time template decimal
starts_editing = refl

formats : format_duration 3725 ≡ "1h 2m"
unfolding format_duration template decimal
formats = refl

clears_start : input_value texts start_field "" ≡ throws
unfolding input_value
clears_start = refl

idle : calculate_idle_time texts 100500 (some session) ≡ some (pos 30)
unfolding calculate_idle_time calculate_current_active_duration calculate_total_duration active_of
    add_active elapsed ◌+ℤ◌
idle = refl

-- The duration that is sent is the one before the edits.
abbrev edited : Sessions
edited = (7, record editing { pause_log = running ∷ [] }) ∷ []

saves :
    save_session texts 7 edited
    ≡ set_loading true
      ∷ mutate 7 (record {
        start_time = "0";
        end_time = none;
        duration = some 30;
        pause_log = running ∷ [];
      })
      ∷ set_loading false
      ∷ []
unfolding save_session update_data
saves = refl

session-IsLog : IsLog texts 100500 100500 0 (ended ∷ running ∷ [])
session-IsLog =
    then_on {s = 10000} {e = 40000} ended (refl, refl) (refl, refl) (omega arith) (omega arith)
      (runs {s = 60000} running (refl, refl) refl (omega arith) (omega arith) (omega arith))

idle-total_example :
    (a : ℕ) × (i : ℕ) × (calculate_current_active_duration texts 100500 (some session)
      ≡ some (pos a))
    × (calculate_idle_time texts 100500 (some session) ≡ some (pos i))
    × (calculate_total_duration texts 100500 (some session) ≡ some (pos (a + i)))
idle-total_example =
    idle-total texts 100500 100500 session 0 (ended ∷ running ∷ []) refl refl refl session-IsLog

abbrev edits : List Edit
edits = adding 100000 ∷ changing 1 end_field (some "40") ∷ removing 0 ∷ []

abbrev Outcome : Type 0
Outcome =
    (s : Sessions) × (e : Editing) × (edit_all texts 7 edits sessions ≡ returns s)
    × (get 7 s ≡ some e)
    × All (IsTimed texts) e.pause_log
    × (e.duration ≡ 30)

is_timed : IsTimed texts ended
unfolding elapsed
is_timed = λ _. refl

edit_all-IsTimed_example : Outcome
edit_all-IsTimed_example =
    edit_all-IsTimed texts 7 edits sessions editing refl (is_timed, (λ h. cc h, tt))

asks : handle_delete_session 0 (some session) ≡ confirm 0 ∷ []
unfolding handle_delete_session
asks = refl

refuses :
    handle_delete_session 1 (some session) ≡ show_error "Cannot delete a running interval" ∷ []
unfolding handle_delete_session
refuses = refl

abbrev rest : Sent
rest = record { start_time = "0"; end_time = none; duration = none; pause_log = running ∷ [] }

closes : on_close texts true session (ended ∷ running ∷ []) 0 ≡ returns (mutate 7 rest ∷ [])
unfolding on_close update_data
closes = refl

on_close-handle_delete_session_example :
    (7 ≡ session.id)
    × ((p : Pause) × (get_elem? (ended ∷ running ∷ []) 0 ≡ some p) × (is_set p.end ≡ true))
    × (rest.pause_log ≡ take 0 (ended ∷ running ∷ []) ++ drop 1 (ended ∷ running ∷ []))
    × (is_timer_running (some (record session { pause_log = some rest.pause_log }))
        ≡ is_timer_running (some session))
on_close-handle_delete_session_example =
    on_close-handle_delete_session texts 0 session (ended ∷ running ∷ []) 7 rest refl asks closes
