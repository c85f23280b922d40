-- ===== src/Sse/Messages.antt =====
-- `handleSSEMessage` of `useSSE`: what each message does to the cached queries. The messages are
-- parsed and carry the fields of their kind; a message that cannot be parsed is `malformed`.
pub mod Lists
pub mod Keys
use gsd.Prelude.{
  Bool, true, false, not, ◌&&◌, ◌||◌, String, Option, none, some, List, [], ◌∷◌, if◌then◌else◌,
  ◌==◌, string_eq, filter, map,
}
use gsd.Js.{Scalar, str, same, scalar_eq, to_text}
use gsd.Js.Fields.{Fields, field, set_field, spread}

pub data Change : Type 0 where
  updated completed status skipped : Change

pub data Notice : Type 0 where
  task_created : (user task : Scalar) → Notice
  task_changed : Change → (user task : Scalar) → Notice
  now_receiving : Notice
  realtime_error : Scalar → Notice
  message_error : Notice

pub record Details : Type 0 where
  pub fields : Fields
  pub sub_tasks : Option (List Fields)

-- The query cache: ['chore', id], ['chores', archived] and ['choreDetails', id]. An entry of the lists
-- may lack its array. `stale` marks the details that are invalidated and fetched again.
pub record Cache : Type 0 where
  pub chore : Scalar → Option Fields
  pub chores : Bool → Option (Option (List Fields))
  pub details : Scalar → Option Details
  pub stale : Scalar → Bool
  pub notices : List Notice

pub record User : Type 0 where
  pub id : Scalar
  pub display_name : Scalar

pub data Message : Type 0 where
  created : User → Fields → Message
  changed : Change → User → Fields → Message
  deleted : Scalar → Message
  subtask : (chore_id subtask_id completed_at : Scalar) → User → Message
  heartbeat established unknown malformed : Message
  error : Scalar → Message

-- `setQueryData` at one key of a family.
abbrev pub update {ℓ} : {V : Type ℓ} → Scalar → Option V → (Scalar → Option V) → Scalar → Option V
update k v f j = if k == j then v else f j

abbrev same_bool : Bool → Bool → Bool
same_bool true b = b
same_bool false b = not b

abbrev pub update_list :
    Bool
    → Option (Option (List Fields))
    → (Bool → Option (Option (List Fields)))
    → Bool
    → Option (Option (List Fields))
update_list k v f j = if same_bool k j then v else f j

abbrev pub text_key : Scalar → Scalar
text_key id = str (to_text id)

add_created : Fields → Option (Option (List Fields)) → Option (Option (List Fields))
add_created task (some (some old)) = some (some (task ∷ old))
add_created task _ = some (some (task ∷ []))

abbrev is_completed : Change → Bool
is_completed completed = true
is_completed _ = false

-- the array after a change
unfoldable pub change_list : Change → Fields → List Fields → List Fields
change_list kind task old =
    if is_completed kind && field "frequencyType" task == str "once"
    then filter (λ c. not (field "id" c == field "id" task)) old
    else map (λ c. if field "id" c == field "id" task then task else c) old

change_entry : Change → Fields → Option (Option (List Fields)) → Option (Option (List Fields))
unfolding change_list
change_entry kind task (some (some old)) = some (some (change_list kind task old))
change_entry kind task _ = some (some (task ∷ []))

change_chore : Fields → Option Fields → Option Fields
unfolding spread
change_chore task none = some task
change_chore task (some old) = some (spread old task)

abbrev refetches : Change → Bool
refetches updated = true
refetches status = true
refetches _ = false

-- an entry without its array stays as it is
remove_entry : Scalar → Option (Option (List Fields)) → Option (Option (List Fields))
remove_entry id (some (some old)) = some (some (filter (λ c. not (field "id" c == id)) old))
remove_entry id entry = entry

unfoldable pub complete_subtask : Scalar → Scalar → Scalar → Fields → Fields
unfolding set_field
complete_subtask id at by s =
    if field "id" s == id then set_field "completedBy" by (set_field "completedAt" at s) else s

unfoldable pub handle : Scalar → Message → Cache → Cache
unfolding add_created change_entry change_chore remove_entry
handle profile (created user task) c = record c {
  notices = task_created user.display_name (field "name" task) ∷ c.notices;
  chore = update (field "id" task) (some task) c.chore;
  chores = update_list false (add_created task (c.chores false)) c.chores;
}
handle profile (changed kind user task) c =
    let key = text_key (field "id" task) in
    record c {
      notices =
          if user.id == profile
          then c.notices
          else task_changed kind user.display_name (field "name" task) ∷ c.notices;
      chore = update key (change_chore task (c.chore key)) c.chore;
      stale = λ j. if refetches kind && key == j then true else c.stale j;
      chores = update_list false (change_entry kind task (c.chores false)) c.chores;
    }
handle profile (deleted id) c = record c {
  chores = λ archived. remove_entry id (c.chores archived);
}
handle profile (subtask chore_id id at user) c =
    let key = text_key chore_id in
    elim (c.details key) [
      | none ↦ c
      | some d ↦ elim d.sub_tasks [
        | none ↦ record c { notices = message_error ∷ c.notices }
        | some subs ↦ record c {
          details =
              update key
                (some (record d { sub_tasks = some (map (complete_subtask id at user.id) subs) }))
                c.details;
        }
      ]
    ]
handle profile heartbeat c = c
handle profile established c = record c { notices = now_receiving ∷ c.notices }
handle profile unknown c = c
handle profile malformed c = record c { notices = message_error ∷ c.notices }
handle profile (error text) c = record c { notices = realtime_error text ∷ c.notices }
