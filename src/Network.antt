-- ===== src/Network.antt =====
-- The state of the connection, ui/src/hooks/NetworkManager.jsx, with the queue of requests of
-- ui/src/utils/LocalStore.jsx that it sends. A callback is a number.
pub mod Laws
use gsd.Prelude.{
  ℕ, Bool, true, false, not, ◌&&◌, String, Option, none, some, List, [], ◌∷◌, ◌++◌, map,
  if◌then◌else◌, ◌==◌, nat_eq,
}
use gsd.Prelude.Partition.{contains}
use gsd.Offline.{Store, Sent, Answer, Sync, remove_item, sync_tasks}

pub record Network : Type 0 where
  pub is_online : Bool
  -- `none`: null
  pub is_network_on : Option Bool
  pub last_checked : Option ℕ
  pub offline_since : Option ℕ
  pub connection_status_listeners : List ℕ
  pub queue_sync_listeners : List ℕ

abbrev pub new_network : Network
new_network = record {
  is_online = true;
  is_network_on = none;
  last_checked = none;
  offline_since = none;
  connection_status_listeners = [];
  queue_sync_listeners = [];
}

-- A call of a listener.
pub data Told : Type 0 where
  status : ℕ → Bool → Told
  synced : ℕ → Told

abbrev same_status : Option Bool → Bool → Bool
same_status none connected = false
same_status (some true) connected = connected
same_status (some false) connected = not connected

-- The listener of 'networkStatusChange'.
unfoldable pub on_status_change : ℕ → Bool → Network → Network
on_status_change now connected n =
    if same_status n.is_network_on connected
    then n
    else record n { is_network_on = some connected; last_checked = some now; is_online = connected }

abbrev pub notify_connection_status : Network → List Told
notify_connection_status n = map (λ id. status id n.is_online) n.connection_status_listeners

abbrev pub notify_backend_sync : Network → List Told
notify_backend_sync n = map synced n.queue_sync_listeners

-- What follows a sync of the queue, by whether it had requests.
unfoldable pub on_synced : Bool → Network → List Told
on_synced had_requests n = if had_requests then notify_backend_sync n else []

unfoldable pub set_offline : ℕ → Network → Network × List Told
set_offline now n =
    if n.is_online
    then (
      record n { is_online = false; offline_since = some now },
      notify_connection_status (record n { is_online = false }),
    )
    else (n, [])

unfoldable pub set_online : Network → Network × List Told
set_online n =
    if n.is_online
    then (n, [])
    else (record n { is_online = true }, notify_connection_status (record n { is_online = true }))

unfoldable pub register_network_listener : ℕ → Network → Network
register_network_listener id n = record n {
  connection_status_listeners = n.connection_status_listeners ++ id ∷ [];
}

unfoldable pub register_backend_sync_listener : ℕ → Network → Network
register_backend_sync_listener id n =
    if contains n.queue_sync_listeners id
    then n
    else record n { queue_sync_listeners = n.queue_sync_listeners ++ id ∷ [] }

-- The requests in the queue, by their ids, and the other items of the storage.
pub record Local : Type 0 where
  pub queue : List ℕ
  pub store : Store

-- The id that is set in a request for a new task is never read.
unfoldable pub queue_request : ℕ → Local → Local
queue_request id l = record l { queue = l.queue ++ id ∷ [] }

pub record Synced : Type 0 where
  pub fetched : List ℕ
  pub local : Local
  -- whether there was a request in the queue
  pub had_requests : Bool

abbrev pub is_filled : List ℕ → Bool
is_filled [] = false
is_filled (_ ∷ _) = true

-- An answer changes nothing: a call that fails is only logged.
unfoldable pub sync_queued_requests : Local → Synced
sync_queued_requests l = record {
  fetched = l.queue;
  local = record { queue = []; store = remove_item "offlineTasks" l.store };
  had_requests = is_filled l.queue;
}

-- What is sent when the device is online again.
pub record Resumed : Type 0 where
  pub fetched : List ℕ
  pub tasks : Sync

module _ (server : Sent → Answer) where
  -- The offline tasks are read while the first request of the queue is awaited; where there is none, the
  -- storage is cleared before.
  tasks_of : ℕ → Local → Bool → Sync
  tasks_of now l true = sync_tasks server now l.store
  tasks_of now l false = sync_tasks server now (sync_queued_requests l).local.store

  -- The listener that is registered when the app starts; `none`: it does nothing.
  unfoldable pub on_connection : ℕ → Bool → Network → Local → Option Resumed
  unfolding tasks_of sync_queued_requests
  on_connection now is_online n l =
      if is_online && (elim n.is_network_on [ none ↦ false | some on ↦ on ])
      then some (record {
        fetched = (sync_queued_requests l).fetched;
        tasks = tasks_of now l (sync_queued_requests l).had_requests;
      })
      else none
