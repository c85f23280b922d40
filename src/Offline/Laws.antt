-- ===== src/Offline/Laws.antt =====
-- Reading what was saved, removing what has expired, and sending the offline tasks.
use text.Mathlib.TextEquality.{eq_iff}
use gsd.Prelude.{
  ℕ, ◌+◌, ◌≤◌, ◌<◌, ◌≡◌, ◌≢◌, refl, ◌∙◌, Bool, true, false, not, String, none, some, List, [], ◌∷◌,
  ◌++◌, map, filter, any, All, if◌then◌else◌, ◌==◌, string_eq, ltb, Bool-cases, inl, inr, arith,
  beq_self,
}
use gsd.Offline.{
  Task, Item, cached, untimed, unreadable, Store, get_item, set_item, remove_item, save_to_cache,
  found, missing, get_from_cache, clean_expired_cache, Sent, Answer, failed, sent_for, send_all,
  sync_tasks,
}

pub get_item-set_item :
    (j key : String) (v : Item) (s : Store)
    → get_item j (set_item key v s) ≡ (if key == j then some v else get_item j s)
unfolding get_item set_item
get_item-set_item j key v [] = refl
get_item-set_item j key v ((k, w) ∷ s) =
    ground (arith, eq_iff k key, eq_iff k j, eq_iff key j, get_item-set_item j key v s)

pub get_item-remove_item :
    (j key : String) (s : Store)
    → get_item j (remove_item key s) ≡ (if key == j then none else get_item j s)
unfolding get_item remove_item
get_item-remove_item j key [] = ground arith
get_item-remove_item j key ((k, w) ∷ s) =
    ground (arith, eq_iff k key, eq_iff k j, eq_iff key j, get_item-remove_item j key s)

read_lem :
    (saved now ttl : ℕ) (key : String) (tasks : List Task) (s : Store)
    → get_item key s ≡ some (cached tasks saved)
    → ((0 < ttl → now ≤ saved + ttl) → get_from_cache now key ttl s ≡ found tasks s)
      × (0 < ttl → saved + ttl < now → get_from_cache now key ttl s ≡ missing (remove_item key s))
unfolding get_from_cache
read_lem saved now ttl key tasks s e =
    (λ h. rw (e, get_from_cache) (ground arith), λ p q. rw (e, get_from_cache) (ground arith))

-- What is saved under a key is read back until its time to live is over, if it has one; then it is
-- missing and removed. Other keys keep their items.
pub get_from_cache-save_to_cache :
    (saved now ttl : ℕ) (key : String) (tasks : List Task) (s : Store)
    → ((0 < ttl → now ≤ saved + ttl)
        → get_from_cache now key ttl (save_to_cache saved key tasks s)
          ≡ found tasks (save_to_cache saved key tasks s))
      × (0 < ttl
          → saved + ttl < now
          → (s' : Store) × (get_from_cache now key ttl (save_to_cache saved key tasks s)
              ≡ missing s')
            × (get_item key s' ≡ none)
            × ((j : String) → (key == j) ≡ false → get_item j s' ≡ get_item j s))
unfolding save_to_cache
get_from_cache-save_to_cache saved now ttl key tasks s =
    let s' = set_item key (cached tasks saved) s in
    let stored : get_item key s' ≡ some (cached tasks saved) =
      get_item-set_item key key (cached tasks saved) s ∙ rw (beq_self key) refl in
    let (a, b) = read_lem saved now ttl key tasks s' stored in
    (
      a,
      λ p q. (
        remove_item key s',
        b p q,
        get_item-remove_item key key s' ∙ rw (beq_self key) refl,
        λ j n.
            get_item-remove_item j key s'
            ∙ rw n (get_item-set_item j key (cached tasks saved) s ∙ rw n refl),
      ),
    )

abbrev pub Returns : (Sent → Answer) → Task → Type 0
Returns server t = server (sent_for t) ≢ failed

send_all-returned :
    (server : Sent → Answer) (ts : List Task)
    → All (Returns server) ts
    → send_all server ts ≡ (map sent_for ts, true)
unfolding send_all
send_all-returned server [] h = refl
send_all-returned server (t ∷ ts) (h, hs) = ground (arith, send_all-returned server ts hs)

send_all-failed :
    (server : Sent → Answer) (ts us : List Task) (t : Task)
    → All (Returns server) ts
    → server (sent_for t) ≡ failed
    → send_all server (ts ++ t ∷ us) ≡ (map sent_for ts ++ sent_for t ∷ [], false)
unfolding send_all
send_all-failed server [] us t h e = rw (e, send_all) refl
send_all-failed server (x ∷ ts) us t (h, hs) e = ground (arith, send_all-failed server ts us t hs e)

-- Each offline task is sent once, in order, by creation or by saving. If every call returns, the stored
-- tasks are then empty, those that the server has refused among them; if a call throws, no later task
-- is sent, and the storage is left as it is.
pub sync_tasks_lem :
    (server : Sent → Answer) (now : ℕ) (ts : List Task) (saved : ℕ) (s : Store)
    → get_item "offlineTasks" s ≡ some (cached ts saved)
    → (All (Returns server) ts
        → sync_tasks server now s ≡ record {
          sent = map sent_for ts;
          returned = true;
          store = save_to_cache now "offlineTasks" [] s;
        })
      × ((xs ys : List Task) (t : Task)
          → ts ≡ xs ++ t ∷ ys
          → All (Returns server) xs
          → server (sent_for t) ≡ failed
          → sync_tasks server now s
            ≡ record { sent = map sent_for xs ++ sent_for t ∷ []; returned = false; store = s })
unfolding sync_tasks
sync_tasks_lem server now ts saved s e =
    let read = (read_lem saved now 0 "offlineTasks" ts s e).0 (λ p. absurd (omega arith)) in
    (
      λ h. rw (read, sync_tasks) (rw (send_all-returned server ts h) refl),
      λ xs ys t d h f. rw (read, sync_tasks) (rw (d, send_all-failed server xs ys t h f) refl),
    )

abbrev pub is_unreadable : Item → Bool
is_unreadable unreadable = true
is_unreadable _ = false

abbrev pub has_expired : ℕ → ℕ → Item → Bool
has_expired now ttl (cached tasks timestamp) = ltb (timestamp + ttl) now
has_expired now ttl _ = false

-- If every item of the storage can be read, the cleaning removes exactly the items that are older than
-- the time to live and throws nothing; it throws exactly if some item is no JSON.
pub clean_expired_cache_lem :
    (now ttl : ℕ) (s : Store)
    → (All (λ p. is_unreadable p.1 ≡ false) s
        → clean_expired_cache now ttl s ≡ (filter (λ p. not (has_expired now ttl p.1)) s, false))
      × ((clean_expired_cache now ttl s).1 ≡ any (λ p. is_unreadable p.1) s)
unfolding clean_expired_cache
clean_expired_cache_lem now ttl [] = (λ h. refl, refl)
clean_expired_cache_lem now ttl ((k, unreadable) ∷ s) = (λ h. cc h.0, refl)
clean_expired_cache_lem now ttl ((k, untimed) ∷ s) =
    let (a, b) = clean_expired_cache_lem now ttl s in (λ h. rw (a h.1) refl, b)
clean_expired_cache_lem now ttl ((k, cached tasks timestamp) ∷ s) =
    let (a, b) = clean_expired_cache_lem now ttl s in
    elim (Bool-cases (ltb (timestamp + ttl) now)) [
      | inl e ↦ rw e (λ h. a h.1, b)
      | inr e ↦ rw e (λ h. rw (a h.1) refl, b)
    ]

-- Without an item of offline tasks, nothing is sent.
pub sync_tasks-missing :
    (server : Sent → Answer) (now : ℕ) (s : Store)
    → get_item "offlineTasks" s ≡ none
    → (sync_tasks server now s).sent ≡ []
unfolding sync_tasks get_from_cache send_all
sync_tasks-missing server now s h = rw (get_lem, sync_tasks) refl
  where
    get_lem : get_from_cache now "offlineTasks" 0 s ≡ missing s
    get_lem = rw (h, get_from_cache) refl
