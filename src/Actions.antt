-- ===== src/Actions.antt =====
-- The actions on tasks of `useChoreActions`, ui/src/views/Chores/hooks/useChoreActions.js: the lists
-- that they change, the messages that they show, and what they make of an answer. A message stands for
-- its title, or its text where it has no title.
pub mod Handle
pub mod Modals
pub mod Bulk
pub mod Laws
use gsd.Prelude.{
  Bool, true, false, not, ◌&&◌, ◌||◌, String, Option, none, some, List, [], ◌∷◌, ◌++◌, map, filter,
  if◌then◌else◌, ◌==◌,
}
use gsd.Js.{Scalar, str, scalar_eq}
use gsd.Chores.{Chore}

pub data Event : Type 0 where
  completed approved rejected skipped rescheduled due_date_removed : Event
  unarchived archived started paused deleted assigned : Event

pub data Effect : Type 0 where
  -- `queryClient.invalidateQueries`
  invalidate : List String → Effect
  refetch clear_selection close_dialog close_modal : Effect
  -- the dialog that asks for a confirmation, and the modals
  ask : String → Effect
  open_modal : String → Scalar → Effect
  success warning failure undone : String → Effect
  -- a success that offers to undo the event of a task, or the skipping of several
  undoable : String → Event → Scalar → Effect
  undoable_skips : String → List Scalar → Effect
  unknown_action : String → Effect

-- What the view holds: its two lists, the lists in the answers that are cached under `chores`, and
-- what it was told to do so far.
pub record Screen : Type 0 where
  pub chores : List Chore
  pub filtered : List Chore
  pub cached : List (Option (List Chore))
  pub effects : List Effect

abbrev pub tell : List Effect → Screen → Screen
tell es s = record s { effects = s.effects ++ es }

pub data Body : Type 0 where
  unreadable no_task : Body
  task : Chore → Body

-- What becomes of a call: it is rejected (and queued until the client is online), answers `null`, or
-- answers a response.
pub data Answer : Type 0 where
  rejected : Bool → Answer
  no_response : Answer
  response : Bool → Body → Answer

abbrev pub without : Scalar → List Chore → List Chore
without id cs = filter (λ (c : Chore). not (c.id == id)) cs

abbrev pub replace : Chore → List Chore → List Chore
replace d cs = map (λ (c : Chore). if c.id == d.id then d else c) cs

abbrev is_archived : Event → Bool
is_archived archived = true
is_archived _ = false

abbrev is_completed : Event → Bool
is_completed completed = true
is_completed _ = false

abbrev pub leaves : Chore → Event → Bool
leaves d event =
    is_archived event
    || (is_completed event && d.frequency_type == str "once")
    || d.frequency_type == str "trigger"

unfoldable pub change : Chore → Event → List Chore → List Chore
change d event cs = if leaves d event then without d.id (replace d cs) else replace d cs

-- `undoableActions` and `notifications`.
abbrev pub notices : Event → Scalar → List Effect
notices completed id = undoable "Task completed" completed id ∷ []
notices approved id = undoable "Task approved" approved id ∷ []
notices rejected id = undoable "Task rejected" rejected id ∷ []
notices skipped id = undoable "Task skipped" skipped id ∷ []
notices rescheduled id = success "Task Rescheduled" ∷ []
notices due_date_removed id = success "Task Unplanned" ∷ []
notices unarchived id = success "Task Restored" ∷ []
notices archived id = success "Task Archived" ∷ []
notices started id = success "Task Started" ∷ []
notices paused id = warning "Task Paused" ∷ []
notices deleted id = success "Task Deleted" ∷ []
notices assigned id = []

-- `rendered` is the view that the handler was made for; the new lists are made of its lists.
unfoldable pub update_chore_in_state : Screen → Chore → Event → Screen → Screen
unfolding change
update_chore_in_state rendered d event s =
    tell (invalidate ("chores" ∷ []) ∷ notices event d.id) (record s {
      chores = change d event rendered.chores;
      filtered = change d event rendered.filtered;
    })

-- `updateChoreInState` of a value without an id and a frequency: no task has its id.
unfoldable pub update_nothing_in_state : Screen → Event → Scalar → Screen → Screen
update_nothing_in_state rendered event id s =
    tell (invalidate ("chores" ∷ []) ∷ notices event id)
      (record s { chores = rendered.chores; filtered = rendered.filtered })

abbrev undo_message : Event → String
undo_message completed = "Task completion has been undone."
undo_message approved = "Task approval has been undone."
undo_message rejected = "Task rejection has been undone."
undo_message skipped = "Task skip has been undone."
undo_message _ = "undefined"

-- `undoAction`, when `UndoChoreAction` has answered.
unfoldable pub undo : Event → Answer → Screen → Screen
undo event (response true _) s = tell (refetch ∷ undone (undo_message event) ∷ []) s
undo event _ s = tell (failure "Undo Failed" ∷ []) s
