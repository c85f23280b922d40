-- ===== src/Actions/Modals.antt =====
-- The modals of ui/src/views/Chores/hooks/useChoreActions.js, which act on the task that the modal was
-- opened for. A rejection that no handler takes shows nothing.
use gsd.Prelude.{Bool, true, String, Option, none, some, [], ◌∷◌}
use gsd.Js.{Scalar}
use gsd.Chores.{Chore}
use gsd.Actions.{Event, Screen, Answer, tell, update_chore_in_state}
use gsd.Actions.Event.{completed, rescheduled, assigned}
use gsd.Actions.Effect.{close_modal, success, failure}
use gsd.Actions.Answer.{response}
use gsd.Actions.Body.{unreadable, task}
use gsd.Actions.Handle.{Request, due_text}
use gsd.Actions.Handle.Request.{complete, due_date, assignee, nudge}

abbrev closed : Screen → Screen
closed s = tell (close_modal ∷ []) s

module _ (iso : Scalar → Option String) (impersonated : Option Scalar) where
  unfoldable pub handle_change_due_date : Option Chore → Scalar → Screen → Screen × Option Request
  handle_change_due_date none date s = (s, none)
  handle_change_due_date (some c) date s = elim (due_text iso date) [
    | none ↦ (s, none)
    | some t ↦ (closed s, some (due_date c.id t))
  ]

  unfoldable pub handle_complete_with_past_date :
      Option Chore → Scalar → Screen → Screen × Option Request
  handle_complete_with_past_date none date s = (s, none)
  handle_complete_with_past_date (some c) date s = elim (iso date) [
    | none ↦ (s, none)
    | some t ↦ (closed s, some (complete c.id impersonated none (some t)))
  ]

  unfoldable pub handle_complete_with_note :
      Option Chore → Scalar → Screen → Screen × Option Request
  handle_complete_with_note none note s = (s, none)
  handle_complete_with_note (some c) note s =
      (closed s, some (complete c.id impersonated (some note) none))

unfoldable pub handle_assignee_change : Option Chore → Scalar → Screen → Screen × Option Request
handle_assignee_change none id s = (s, none)
handle_assignee_change (some c) id s = (closed s, some (assignee c.id id))

-- When the call has answered.
unfoldable pub finish_change_due_date : Screen → Chore → Scalar → Answer → Screen → Screen
finish_change_due_date rendered c date (response true unreadable) s = s
finish_change_due_date rendered c date (response true _) s =
    update_chore_in_state rendered (record c { next_due_date = date }) rescheduled s
finish_change_due_date rendered c date _ s = s

abbrev finish_modal : Event → Screen → Answer → Screen → Screen
finish_modal event rendered (response true (task d)) s = update_chore_in_state rendered d event s
finish_modal event rendered _ s = s

unfoldable pub finish_completed : Screen → Answer → Screen → Screen
finish_completed rendered a s = finish_modal completed rendered a s

unfoldable pub finish_assigned : Screen → Answer → Screen → Screen
finish_assigned rendered a s = finish_modal assigned rendered a s

unfoldable pub handle_nudge : Scalar → Scalar → Bool → Request
handle_nudge id message all = nudge id message all

abbrev nudged : Answer → Screen → Screen
nudged (response true unreadable) s = tell (failure "Failed to Send Nudge" ∷ []) s
nudged (response true _) s = tell (success "Nudge Sent!" ∷ []) s
nudged _ s = tell (failure "Failed to Send Nudge" ∷ []) s

unfoldable pub finish_nudge : Answer → Screen → Screen
finish_nudge a s = closed (nudged a s)
