-- ===== src/Network/Laws.antt =====
-- What is sent when the device is online again.
use gsd.Prelude.{ℕ, ◌≡◌, refl, ◌∙◌, true, false, some, List, [], ◌∷◌, string_eq}
use gsd.Offline.{Store, remove_item, Sent, Answer, sync_tasks}
use gsd.Offline.Laws.{get_item-remove_item, sync_tasks-missing}
use gsd.Network.{
  Network, Local, Resumed, is_filled, on_status_change, set_online, sync_queued_requests, tasks_of,
  on_connection,
}

module _ (server : Sent → Answer) (now : ℕ) where
  removed : (s : Store) → (sync_tasks server now (remove_item "offlineTasks" s)).sent ≡ []
  removed s =
      sync_tasks-missing server now (remove_item "offlineTasks" s)
        (get_item-remove_item "offlineTasks" "offlineTasks" s ∙ refl)

  tasks_lem :
      (l : Local) (queue : List ℕ)
      → l.queue ≡ queue
      → (is_filled queue ≡ true
          → tasks_of server now l (is_filled queue) ≡ sync_tasks server now l.store)
        × (is_filled queue ≡ false → (tasks_of server now l (is_filled queue)).sent ≡ [])
  unfolding tasks_of sync_queued_requests
  tasks_lem l [] e = (λ h. absurd (cc h), λ _. removed l.store)
  tasks_lem l (_ ∷ _) e = (λ _. refl, λ h. absurd (cc h))

  -- When the listeners are told that the device is online, and the network is on, every request of the queue is
  -- sent, in order. The offline tasks are sent only if there is a request in the queue; otherwise none is sent.
  pub on_connection_lem :
      (n : Network) (l : Local)
      → n.is_network_on ≡ some true
      → (r : Resumed) × (on_connection server now true n l ≡ some r)
        × (r.fetched ≡ l.queue)
        × (is_filled l.queue ≡ true → r.tasks ≡ sync_tasks server now l.store)
        × (is_filled l.queue ≡ false → r.tasks.sent ≡ [])
  unfolding on_connection sync_queued_requests
  on_connection_lem n l h =
      let (filled, empty) = tasks_lem l l.queue refl in
      (
        record { fetched = l.queue; tasks = tasks_of server now l (is_filled l.queue) },
        rw h refl,
        refl,
        filled,
        empty,
      )

-- After the network was lost and is back, `setOnline` tells no listener: the status is online already.
pub set_online-on_status_change :
    (now : ℕ) (n : Network)
    → n.is_network_on ≡ some false
    → (set_online (on_status_change now true n)).1 ≡ []
unfolding set_online on_status_change
set_online-on_status_change now n h = rw h refl
