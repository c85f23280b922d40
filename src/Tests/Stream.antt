-- ===== src/Tests/Stream.antt =====
-- The stream of events at concrete connections and messages.
use gsd.Prelude.{ℕ, ◌<◌, ◌≡◌, refl, true, false, some, none, List, [], ◌∷◌, if◌then◌else◌, length}
use gsd.Js.{Scalar, num, str, same}
use gsd.Js.Fields.{Fields}
use gsd.Sse.Connection.{Closure, Connection, disconnect, Failure, is_unauthorized, success}
use gsd.Sse.Connection.Steps.{
  Event, open_event, tick, error_event, refreshed, timer, toggle, run, initial, IsConsistent,
  run-IsConsistent, initial-IsConsistent,
}
use gsd.Sse.Connection.Retry.{attempt, fail_all, IsRetrying, fail_all_lem}
use gsd.Sse.Connection.Closing.{IsClosed, run-disconnect}
use gsd.Sse.Messages.{Cache, Details, User}

abbrev closure : Closure
closure = record { breaker = false; token = true; authenticated = true; constructs = true }

abbrev refused : Failure
refused = record { status = some 401; message = none }

abbrev lost : Failure
lost = record { status = some 503; message = some "No activity within 60000 milliseconds" }

abbrev busy_hour : List Event
busy_hour =
    toggle closure true
    ∷ open_event 1000
    ∷ tick 160000
    ∷ timer
    ∷ error_event 200000 refused
    ∷ refreshed 0 201000 success
    ∷ timer
    ∷ []

run-IsConsistent_example : IsConsistent (run busy_hour (initial 0))
run-IsConsistent_example = run-IsConsistent busy_hour (initial-IsConsistent 0)

abbrev retrying : Connection
retrying = record (initial 0) { source = attempt closure }

abbrev failures : List (ℕ × Failure)
failures = (1000, lost) ∷ (20000, lost) ∷ []

fail_all_lem_example :
    (length failures < 10 → IsRetrying (length failures) closure (fail_all failures retrying))
    × (length failures ≡ 10
        → ((fail_all failures retrying).breaker ≡ true)
          × ((fail_all failures retrying).source ≡ none))
unfolding is_unauthorized
fail_all_lem_example =
    fail_all_lem closure retrying failures (refl, refl, refl, refl) (refl, (refl, tt))
      (record { attempts = refl; source = refl; manual = refl; scheduled = refl })

abbrev late : List Event
late = open_event 3000 ∷ error_event 4000 lost ∷ timer ∷ toggle closure false ∷ []

run-disconnect_example : IsClosed (run late (disconnect retrying))
run-disconnect_example = run-disconnect late retrying refl (tt, (tt, (tt, (refl, tt))))

abbrev refreshing : Connection
refreshing = record (initial 0) { refreshes = closure ∷ [] }

abbrev ann : User
ann = record { id = num 5; display_name = str "Ann" }

abbrev task : (id : ℕ) (frequency : Scalar) → Fields
task id frequency = ("id", num id) ∷ ("name", str "Dishes") ∷ ("frequencyType", frequency) ∷ []

abbrev subtask_of : ℕ → Fields
subtask_of id = ("id", num id) ∷ []

abbrev listed : List Fields
listed = task 1 (str "once") ∷ task 2 (str "daily") ∷ []

abbrev details : Details
details = record { fields = []; sub_tasks = some (subtask_of 3 ∷ subtask_of 4 ∷ []) }

abbrev cache : Cache
cache = record {
  chore = λ k. none;
  chores = λ archived. some (some listed);
  details = λ k. if same k (str "1") then some details else none;
  stale = λ k. false;
  notices = [];
}
