-- ===== src/Tests/Network.antt =====
-- A device that was offline, with a task that was made there and an empty queue.
use gsd.Prelude.{◌≡◌, refl, true, false, some, [], ◌∷◌}
use gsd.Js.{num}
use gsd.Offline.{Task, cached, Sent, Answer, ok, sync_tasks}
use gsd.Network.{
  Network, status, synced, on_synced, Local, Resumed, new_network, is_filled,
  register_network_listener, register_backend_sync_listener, set_offline, queue_request,
  on_connection,
}
use gsd.Network.Laws.{on_connection_lem}

abbrev drafted : Task
drafted = record { need_sync = true; body = ("id", num 0) ∷ [] }

abbrev local : Local
local = record { queue = []; store = ("offlineTasks", cached (drafted ∷ []) 500) ∷ [] }

abbrev server : Sent → Answer
server _ = ok

abbrev online : Network
online = record new_network { is_network_on = some true; connection_status_listeners = 1 ∷ 2 ∷ [] }

registers :
    register_network_listener 2
      (register_network_listener 1 (record new_network { is_network_on = some true }))
    ≡ online
unfolding register_network_listener
registers = refl

registers_once :
    (register_backend_sync_listener 3
      (register_backend_sync_listener 3 online)).queue_sync_listeners
    ≡ 3 ∷ []
unfolding register_backend_sync_listener
registers_once = refl

tells : (set_offline 900 online).1 ≡ status 1 false ∷ status 2 false ∷ []
unfolding set_offline
tells = refl

tells_of_sync : on_synced true (register_backend_sync_listener 3 online) ≡ synced 3 ∷ []
unfolding on_synced register_backend_sync_listener
tells_of_sync = refl

queues : (queue_request 8 (queue_request 7 local)).queue ≡ 7 ∷ 8 ∷ []
unfolding queue_request
queues = refl

on_connection_lem_example :
    (r : Resumed) × (on_connection server 900 true online local ≡ some r)
    × (r.fetched ≡ [])
    × (is_filled local.queue ≡ true → r.tasks ≡ sync_tasks server 900 local.store)
    × (is_filled local.queue ≡ false → r.tasks.sent ≡ [])
on_connection_lem_example = on_connection_lem server 900 online local refl
