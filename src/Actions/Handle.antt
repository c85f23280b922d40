-- ===== src/Actions/Handle.antt =====
-- `handleChoreAction` of ui/src/views/Chores/hooks/useChoreActions.js: what runs until its call, and
-- what runs when the call has answered. The ISO text of a date is a parameter, `none` where
-- `toISOString` throws.
use gsd.Prelude.{
  Bool, true, false, ◌&&◌, String, Option, none, some, List, [], ◌∷◌, map, if◌then◌else◌, ◌==◌,
}
use gsd.Js.{Scalar, null, scalar_eq, truthy, to_text}
use gsd.Chores.{Chore}
use gsd.Actions.{
  Event, Effect, Screen, Answer, tell, without, update_chore_in_state, update_nothing_in_state,
}
use gsd.Actions.Event.{
  completed, approved, skipped, rescheduled, due_date_removed, archived, started, paused, deleted,
}
use gsd.Actions.Effect.{
  invalidate, refetch, close_dialog, ask, open_modal, success, failure, undoable, unknown_action,
}
use gsd.Actions.Answer.{no_response, response}
use gsd.Actions.Body.{task}

pub data Action : Type 0 where
  complete start pause approve reject delete archive skip : Action
  -- with the date, where the extra data have one
  change_due_date : Option Scalar → Action
  complete_with_note complete_with_past_date change_assignee write_nfc nudge : Action
  other : String → Action

pub data Request : Type 0 where
  -- who completed it, the note and the date, where they are sent
  complete : Scalar → Option Scalar → Option Scalar → Option String → Request
  start pause approve reject delete archive skip undo : Scalar → Request
  due_date : Scalar → Option String → Request
  assignee : Scalar → Scalar → Request
  nudge : Scalar → Scalar → Bool → Request

abbrev hidden : Scalar → Screen → Screen
hidden id s = record s {
  chores = without id s.chores;
  filtered = without id s.filtered;
  cached =
      map (λ (res : Option (List Chore)). elim res [ none ↦ none | some cs ↦ some (without id cs) ])
        s.cached;
}

-- the date in a call of `UpdateDueDate`; `none` if it throws
abbrev pub due_text : (Scalar → Option String) → Scalar → Option (Option String)
due_text iso date =
    if truthy date then elim (iso date) [ none ↦ none | some t ↦ some (some t) ] else some none

abbrev due_failure : Scalar → Effect
due_failure date =
    failure (if date == null then "Failed to remove due date" else "Failed to reschedule")

module _ (iso : Scalar → Option String) (impersonated : Option Scalar) where
  -- Up to the call, if there is one.
  unfoldable pub begin : Action → Chore → Screen → Screen × Option Request
  begin complete c s = (hidden c.id s, some (complete c.id impersonated none none))
  begin start c s = (s, some (start c.id))
  begin pause c s = (s, some (pause c.id))
  begin approve c s = (s, some (approve c.id))
  begin reject c s = (s, some (reject c.id))
  begin delete c s = (tell (ask "Delete Chore" ∷ []) s, none)
  begin archive c s = (s, some (archive c.id))
  begin skip c s = (s, some (skip c.id))
  begin (change_due_date none) c s = (tell (open_modal "changeDueDate" c.id ∷ []) s, none)
  begin (change_due_date (some date)) c s = elim (due_text iso date) [
    | none ↦ (tell (due_failure date ∷ []) s, none)
    | some t ↦ (s, some (due_date c.id t))
  ]
  begin complete_with_note c s = (tell (open_modal "completeWithNote" c.id ∷ []) s, none)
  begin complete_with_past_date c s = (tell (open_modal "completeWithPastDate" c.id ∷ []) s, none)
  begin change_assignee c s = (tell (open_modal "changeAssignee" c.id ∷ []) s, none)
  begin write_nfc c s = (tell (open_modal "writeNFC" c.id ∷ []) s, none)
  begin nudge c s = (tell (open_modal "nudge" c.id ∷ []) s, none)
  begin (other action) c s = (tell (unknown_action action ∷ []) s, none)

-- `onClose` of the dialog that `delete` opens.
unfoldable pub close_delete : Bool → Chore → Screen → Screen × Option Request
close_delete confirmed c s =
    if confirmed then (s, some (delete c.id)) else (tell (close_dialog ∷ []) s, none)

unfoldable pub finish_complete : Chore → Answer → Screen → Screen
finish_complete c (response true _) s =
    tell (undoable "Task completed" completed c.id ∷ invalidate ("chores" ∷ []) ∷ []) s
finish_complete c (response false _) s = tell (refetch ∷ []) s
finish_complete c (Answer.rejected true) s = tell (refetch ∷ failure "Update Failed" ∷ []) s
finish_complete c _ s = tell (refetch ∷ failure "Failed to update" ∷ []) s

-- `onSuccess` of the mutations `useStartChore` and `usePauseChore`.
abbrev timer_queries : Scalar → List Effect
timer_queries id =
    invalidate ("choreTimer" ∷ to_text id ∷ [])
    ∷ invalidate ("chores" ∷ [])
    ∷ invalidate ("choreHistory" ∷ to_text id ∷ [])
    ∷ invalidate ("choreDetails" ∷ to_text id ∷ [])
    ∷ []

unfoldable pub finish_timer : Event → String → Screen → Chore → Answer → Screen → Screen
finish_timer event title rendered c (Answer.rejected _) s = tell (failure title ∷ []) s
finish_timer event title rendered c (response _ (task d)) s =
    update_chore_in_state rendered (record c { status = d.status }) event
      (tell (timer_queries c.id) s)
finish_timer event title rendered c _ s = tell (timer_queries c.id) s

-- A call that answers the new task.
unfoldable pub finish_with : Event → String → Screen → Answer → Screen → Screen
finish_with event title rendered (response true (task d)) s =
    update_chore_in_state rendered d event s
finish_with event title rendered (response false _) s = s
finish_with event title rendered _ s = tell (failure title ∷ []) s

unfoldable pub finish_delete : Screen → Chore → Answer → Screen → Screen
finish_delete rendered c (response true _) s =
    let gone = record s { chores = without c.id rendered.chores } in
    let updated = update_nothing_in_state rendered deleted c.id gone in
    tell (success "Task Deleted" ∷ close_dialog ∷ [])
      (record updated { filtered = without c.id rendered.filtered })
finish_delete rendered c (response false _) s = tell (close_dialog ∷ []) s
finish_delete rendered c _ s = tell (failure "Failed to delete" ∷ close_dialog ∷ []) s

abbrev is_empty : List Chore → Bool
is_empty [] = true
is_empty (_ ∷ _) = false

-- The data of the mutation are the response, which has no field of a task; `null` has no fields.
unfoldable pub finish_archive : Screen → Chore → Answer → Screen → Screen
finish_archive rendered c (Answer.rejected _) s = tell (failure "Failed to archive" ∷ []) s
finish_archive rendered c (response _ _) s =
    update_nothing_in_state rendered archived c.id (tell (invalidate ("chores" ∷ []) ∷ []) s)
finish_archive rendered c no_response s =
    let told = tell (invalidate ("chores" ∷ []) ∷ []) s in
    if is_empty rendered.chores && is_empty rendered.filtered
    then update_nothing_in_state rendered archived c.id told
    else told

unfoldable pub finish_due_date : Scalar → Screen → Chore → Answer → Screen → Screen
finish_due_date date rendered c (response true _) s =
    update_chore_in_state rendered (record c { next_due_date = date })
      (if date == null then due_date_removed else rescheduled) s
finish_due_date date rendered c (response false _) s = s
finish_due_date date rendered c _ s = tell (due_failure date ∷ []) s

-- When the call of an action has answered.
unfoldable pub finish : Action → Screen → Chore → Answer → Screen → Screen
unfolding finish_complete finish_timer finish_with finish_delete finish_archive finish_due_date
finish complete rendered c a s = finish_complete c a s
finish start rendered c a s = finish_timer started "Failed to start" rendered c a s
finish pause rendered c a s = finish_timer paused "Failed to pause" rendered c a s
finish approve rendered c a s = finish_with approved "Failed to approve" rendered a s
finish reject rendered c a s = finish_with Event.rejected "Failed to reject" rendered a s
finish delete rendered c a s = finish_delete rendered c a s
finish archive rendered c a s = finish_archive rendered c a s
finish skip rendered c a s = finish_with skipped "Failed to skip" rendered a s
finish (change_due_date (some date)) rendered c a s = finish_due_date date rendered c a s
finish _ rendered c a s = s
