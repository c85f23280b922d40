-- ===== src/Actions/Laws.antt =====
-- What the actions on a task of useChoreActions.js leave in the lists and tell the user.
use gsd.Prelude.{
  ◌≡◌, refl, Bool, true, false, inl, inr, String, Option, List, [], ◌∷◌, ◌++◌, map, filter, any,
  if◌then◌else◌, ◌==◌, string_eq, Bool-cases, beq_self,
}
use gsd.Js.{Scalar, scalar_eq}
use gsd.Chores.{Chore}
use gsd.Actions.{
  Event, Effect, Screen, Answer, Body, change, leaves, without, replace, update_chore_in_state,
  update_nothing_in_state,
}
use gsd.Actions.Effect.{invalidate, refetch, failure}
use gsd.Actions.Answer.{rejected, no_response, response}
use gsd.Actions.Handle.{
  begin, complete, delete, archive, finish, finish_complete, finish_delete, finish_archive,
}

abbrev holding : Scalar → List Chore → List Chore
holding id cs = filter (λ (c : Chore). c.id == id) cs

replace-others : (d : Chore) (cs : List Chore) → without d.id (replace d cs) ≡ without d.id cs
replace-others d [] = refl
replace-others d (c ∷ cs) = elim (Bool-cases (c.id == d.id)) [
  | inl e ↦ rw (e, beq_self d.id, replace-others d cs) refl
  | inr e ↦ rw (e, e, replace-others d cs) refl
]

replace-holding :
    (d : Chore) (cs : List Chore) → holding d.id (replace d cs) ≡ map (λ _. d) (holding d.id cs)
replace-holding d [] = refl
replace-holding d (c ∷ cs) = elim (Bool-cases (c.id == d.id)) [
  | inl e ↦ rw (e, beq_self d.id, replace-holding d cs) refl
  | inr e ↦ rw (e, e, replace-holding d cs) refl
]

without_twice : (id : Scalar) (cs : List Chore) → without id (without id cs) ≡ without id cs
without_twice id [] = refl
without_twice id (c ∷ cs) = elim (Bool-cases (c.id == id)) [
  | inl e ↦ rw (e, without_twice id cs) refl
  | inr e ↦ rw (e, e, without_twice id cs) refl
]

holding-without : (id : Scalar) (cs : List Chore) → holding id (without id cs) ≡ []
holding-without id [] = refl
holding-without id (c ∷ cs) = elim (Bool-cases (c.id == id)) [
  | inl e ↦ rw (e, holding-without id cs) refl
  | inr e ↦ rw (e, e, holding-without id cs) refl
]

abbrev pub Changes : Chore → Event → List Chore → List Chore → Type 0
Changes d event old new =
    (without d.id new ≡ without d.id old)
    × (holding d.id new ≡ (if leaves d event then [] else map (λ _. d) (holding d.id old)))

change-Changes :
    (d : Chore) (event : Event) (cs : List Chore) → Changes d event cs (change d event cs)
unfolding change
change-Changes d event cs = elim (Bool-cases (leaves d event)) [
  | inl e ↦ rw e (
    rw (without_twice d.id (replace d cs), replace-others d cs) refl,
    holding-without d.id (replace d cs),
  )
  | inr e ↦ rw e (replace-others d cs, replace-holding d cs)
]

-- In both lists of the view the other tasks stay as they are, in their order, and the changed task
-- stands where it stood, or nowhere if it was archived, completed for the only time, or is of the
-- frequency that waits for a trigger.
pub update_chore_in_state_lem :
    (rendered : Screen) (d : Chore) (event : Event) (s : Screen)
    → Changes d event rendered.chores (update_chore_in_state rendered d event s).chores
      × Changes d event rendered.filtered (update_chore_in_state rendered d event s).filtered
unfolding update_chore_in_state
update_chore_in_state_lem rendered d event s =
    (change-Changes d event rendered.chores, change-Changes d event rendered.filtered)

abbrev is_chores : List String → Bool
is_chores (k ∷ []) = k == "chores"
is_chores _ = false

abbrev pub is_refresh : Effect → Bool
is_refresh refetch = true
is_refresh (invalidate key) = is_chores key
is_refresh _ = false

abbrev pub is_failure : Effect → Bool
is_failure (failure _) = true
is_failure _ = false

abbrev pub is_lost : Answer → Bool
is_lost (rejected _) = true
is_lost no_response = true
is_lost (response _ _) = false

module _ (iso : Scalar → Option String) (impersonated : Option Scalar) where
  abbrev pub completed_screen : Screen → Chore → Answer → Screen → Screen
  completed_screen rendered c a s =
      finish complete rendered c a (begin iso impersonated complete c s).0

  -- Completing a task takes it off both lists at once and leaves the other tasks, and whatever the call
  -- answers, the tasks are then fetched anew; an error is shown exactly if no response came.
  pub finish_complete_lem :
      (rendered : Screen) (c : Chore) (a : Answer) (s : Screen)
      → ((completed_screen rendered c a s).chores ≡ without c.id s.chores)
        × ((completed_screen rendered c a s).filtered ≡ without c.id s.filtered)
        × (new : List Effect) × ((completed_screen rendered c a s).effects ≡ s.effects ++ new)
        × (any is_refresh new ≡ true)
        × (any is_failure new ≡ is_lost a)
  unfolding begin finish finish_complete
  finish_complete_lem rendered c (rejected true) s = (refl, refl, _, refl, refl, refl)
  finish_complete_lem rendered c (rejected false) s = (refl, refl, _, refl, refl, refl)
  finish_complete_lem rendered c no_response s = (refl, refl, _, refl, refl, refl)
  finish_complete_lem rendered c (response true b) s = (refl, refl, _, refl, refl, refl)
  finish_complete_lem rendered c (response false b) s = (refl, refl, _, refl, refl, refl)

-- After a task was deleted, the list of all tasks is the one that was rendered, with the task, and only
-- the shown list is without it; after a task was archived, or the server refused to archive it, both
-- lists are those that were rendered. Both await the tasks that are fetched anew.
pub finish-delete_archive :
    (rendered : Screen) (c : Chore) (ok : Bool) (b : Body) (s : Screen)
    → (let deleted = finish delete rendered c (response true b) s in
        let archived = finish archive rendered c (response ok b) s in
        (deleted.chores ≡ rendered.chores)
        × (deleted.filtered ≡ without c.id rendered.filtered)
        × (archived.chores ≡ rendered.chores)
        × (archived.filtered ≡ rendered.filtered))
unfolding finish finish_delete finish_archive update_nothing_in_state
finish-delete_archive rendered c ok b s = (refl, refl, refl, refl)
