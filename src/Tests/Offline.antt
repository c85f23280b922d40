-- ===== src/Tests/Offline.antt =====
-- The offline tasks at a concrete storage and server.
use gsd.Offline.Merge.{Stored, stands_for, with_id, get_chores}
use gsd.Offline.Merge.Laws.{texts, get_chores-IsDistinct}
use gsd.Prelude.Partition.{IsDistinct}
use gsd.Js.{num, str, undefined, to_text}
use gsd.Prelude.{
  ◌≡◌, refl, inl, inr, true, false, not, some, any, filter, List, [], ◌∷◌, ◌++◌, map, string_eq,
}
use gsd.Offline.{Task, cached, untimed, Store, Sent, Answer, create, save, not_ok, failed}

abbrev drafted : Task
drafted = record { need_sync = true; body = ("id", num 0) ∷ [] }

abbrev edited : Task
edited = record { need_sync = false; body = ("id", num 4) ∷ [] }

abbrev store : Store
store = ("theme", untimed) ∷ ("offlineTasks", cached (drafted ∷ edited ∷ []) 500) ∷ []

-- It refuses new tasks, and is not reached for changes.
abbrev server : Sent → Answer
server (create t) = not_ok
server (save t) = failed

abbrev server_tasks : List Stored
server_tasks =
    record { id = num 1; temp_id = undefined; body = [] }
    ∷ record { id = num 2; temp_id = undefined; body = [] }
    ∷ []

abbrev offline_tasks : List Stored
offline_tasks =
    record { id = num 2; temp_id = str "a-7"; body = [] }
    ∷ record { id = undefined; temp_id = str "b-9"; body = [] }
    ∷ []

server_tasks-IsDistinct : IsDistinct (texts server_tasks)
unfolding to_text
server_tasks-IsDistinct = (refl, (refl, tt))

offline_tasks-IsDistinct : IsDistinct (texts (map with_id offline_tasks))
unfolding to_text
offline_tasks-IsDistinct = (refl, (refl, tt))

get_chores-IsDistinct_example :
    (let shown =
        filter (λ c. not (any (stands_for c) offline_tasks)) server_tasks
        ++ map with_id offline_tasks in
      (get_chores true (some server_tasks) offline_tasks ≡ some shown) × IsDistinct (texts shown))
get_chores-IsDistinct_example =
    get_chores-IsDistinct server_tasks offline_tasks server_tasks-IsDistinct
      offline_tasks-IsDistinct (inl refl, (inr refl, tt))
