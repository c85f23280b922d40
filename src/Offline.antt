-- ===== src/Offline.antt =====
-- The cache in `localStorage` of ui/src/utils/LocalStore.jsx and the sending of offline tasks of
-- ui/src/utils/SyncManager.jsx. `useLocalStorage` is always true there; the branch with a database is
-- left out. The items of the storage are parsed.
pub mod Laws
pub mod Merge
use gsd.Prelude.{
  ℕ, ◌+◌, Bool, true, false, ◌&&◌, String, Option, none, some, List, [], ◌∷◌, if◌then◌else◌, ◌==◌,
  string_eq, ltb,
}
use gsd.Js.Fields.{Fields}

pub record Task : Type 0 where
  pub need_sync : Bool
  pub body : Fields

-- An item that `saveToCache` wrote, JSON without a time stamp, or a text that is no JSON.
pub data Item : Type 0 where
  cached : List Task → ℕ → Item
  untimed : Item
  unreadable : Item

-- The storage: its keys, in its order, with their items.
abbrev pub Store : Type 0
Store = List (String × Item)

unfoldable pub get_item : String → Store → Option Item
get_item key [] = none
get_item key ((k, v) ∷ s) = if k == key then some v else get_item key s

unfoldable pub set_item : String → Item → Store → Store
set_item key v [] = (key, v) ∷ []
set_item key v ((k, w) ∷ s) = if k == key then (k, v) ∷ s else (k, w) ∷ set_item key v s

unfoldable pub remove_item : String → Store → Store
remove_item key [] = []
remove_item key ((k, w) ∷ s) =
    let rest = remove_item key s in if k == key then rest else (k, w) ∷ rest

unfoldable pub save_to_cache : ℕ → String → List Task → Store → Store
unfolding set_item
save_to_cache now key tasks s = set_item key (cached tasks now) s

-- The answer of `getFromCache`, with the storage after it.
pub data Cached : Type 0 where
  found : List Task → Store → Cached
  missing : Store → Cached
  thrown : Cached

unfoldable pub get_from_cache : ℕ → String → ℕ → Store → Cached
unfolding get_item remove_item
get_from_cache now key ttl s = elim (get_item key s) [
  | none ↦ missing s
  | some (cached tasks timestamp) ↦
      if ltb 0 ttl && ltb (timestamp + ttl) now then missing (remove_item key s) else found tasks s
  | some untimed ↦ missing s
  | some unreadable ↦ thrown
]

-- The loop of `cleanExpiredCache`, and whether it threw at a text that is no JSON.
unfoldable pub clean_expired_cache : ℕ → ℕ → Store → Store × Bool
clean_expired_cache now ttl [] = ([], false)
clean_expired_cache now ttl ((k, unreadable) ∷ s) = ((k, unreadable) ∷ s, true)
clean_expired_cache now ttl ((k, untimed) ∷ s) =
    let rest = clean_expired_cache now ttl s in ((k, untimed) ∷ rest.0, rest.1)
clean_expired_cache now ttl ((k, cached tasks timestamp) ∷ s) =
    let rest = clean_expired_cache now ttl s in
    if ltb (timestamp + ttl) now then rest else ((k, cached tasks timestamp) ∷ rest.0, rest.1)

pub data Sent : Type 0 where
  create save : Task → Sent

pub data Answer : Type 0 where
  ok not_ok failed : Answer

abbrev pub sent_for : Task → Sent
sent_for t = if t.need_sync then create t else save t

pub record Sync : Type 0 where
  pub sent : List Sent
  pub returned : Bool
  pub store : Store

module _ (server : Sent → Answer) where
  abbrev answers : Task → Answer
  answers t = server (sent_for t)

  -- The loop: what is sent, and whether every call returned.
  send_all : List Task → List Sent × Bool
  send_all [] = ([], true)
  send_all (t ∷ ts) =
      let rest = send_all ts in
      elim (answers t) [ failed ↦ (sent_for t ∷ [], false) | _ ↦ (sent_for t ∷ rest.0, rest.1) ]

  abbrev finished : ℕ → Store → List Sent × Bool → Sync
  finished now s r = record {
    sent = r.0;
    returned = r.1;
    store = if r.1 then save_to_cache now "offlineTasks" [] s else s;
  }

  unfoldable pub sync_tasks : ℕ → Store → Sync
  unfolding send_all
  sync_tasks now s = elim (get_from_cache now "offlineTasks" 0 s) [
    | found tasks s' ↦ finished now s' (send_all tasks)
    | missing s' ↦ finished now s' (send_all [])
    | thrown ↦ record { sent = []; returned = false; store = s }
  ]
