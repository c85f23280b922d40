-- ===== src/Actions/Bulk.antt =====
-- The actions on the selected tasks of ui/src/views/Chores/hooks/useChoreActions.js, when their dialog
-- is confirmed. Each task is sent in one call, in turn; `answers` is what becomes of the calls.
-- The titles stand without their emoji.
pub mod Laws
use gsd.Prelude.{
  Bool, true, false, not, String, Option, none, some, List, [], ◌∷◌, ◌++◌, map, filter,
  if◌then◌else◌,
}
use gsd.Prelude.Partition.{contains}
use gsd.Js.{Scalar, scalar_eq}
use gsd.Chores.{Chore}
use gsd.Selection.{Selection, get_selected_chores_data}
use gsd.Actions.{Effect, Screen, Answer, Body, tell, without}
use gsd.Actions.Effect.{
  invalidate, refetch, clear_selection, close_dialog, ask, success, failure, undone, undoable_skips,
}
use gsd.Actions.Answer.{rejected, response}
use gsd.Actions.Handle.{Request}
use gsd.Actions.Handle.Request.{complete, archive, delete, skip, undo}

-- The tasks whose call returned, those whose call was rejected, and the calls.
pub record Batch : Type 0 where
  pub done : List Chore
  pub failed : List Chore
  pub sent : List Request

abbrev pub empty : Batch
empty = record { done = []; failed = []; sent = [] }

abbrev pub is_rejected : Answer → Bool
is_rejected (rejected _) = true
is_rejected _ = false

abbrev pub ids : List Chore → List Scalar
ids cs = map (λ (c : Chore). c.id) cs

-- `if (list.length > 0)`
abbrev when_any : List Chore → List Effect → List Effect
when_any [] es = []
when_any (_ ∷ _) es = es

-- `getSelectedChoresData(chores)`; no dialog opens for no task.
unfoldable pub open_bulk : String → Screen → Selection → Screen → Screen × List Chore
open_bulk title rendered selection s =
    let selected = get_selected_chores_data rendered.chores selection in
    (tell (when_any selected (ask title ∷ [])) s, selected)

abbrev pub finished : List Effect → List Effect → List Effect
finished done failed = done ++ (failed ++ refetch ∷ clear_selection ∷ close_dialog ∷ [])

abbrev pub completing : Option Scalar → Chore → Request
completing impersonated c = complete c.id impersonated none none

abbrev pub archiving : Chore → Request
archiving c = archive c.id

abbrev pub deleting : Chore → Request
deleting c = delete c.id

abbrev pub skipping : Chore → Request
skipping c = skip c.id

-- `onSuccess` of a task that is archived, after that of the mutation.
archived_one : Chore → Screen → Screen
archived_one c s =
    tell (invalidate ("chores" ∷ []) ∷ [])
      (record s { chores = without c.id s.chores; filtered = without c.id s.filtered })

abbrev without_all : List Scalar → List Chore → List Chore
without_all deleted cs = filter (λ (c : Chore). not (contains deleted c.id)) cs

abbrev deleted_all : Screen → List Chore → Screen → Screen
deleted_all rendered [] s = s
deleted_all rendered (c ∷ cs) s = record s {
  chores = without_all (ids (c ∷ cs)) rendered.chores;
  filtered = without_all (ids (c ∷ cs)) rendered.filtered;
}

module _ (answers : Chore → Answer) where
  module _ (request : Chore → Request) where
    unfoldable pub attempt : List Chore → Batch → Batch
    attempt [] b = b
    attempt (c ∷ cs) b = attempt cs (
        if is_rejected (answers c)
        then record b { failed = b.failed ++ c ∷ []; sent = b.sent ++ request c ∷ [] }
        else record b { done = b.done ++ c ∷ []; sent = b.sent ++ request c ∷ [] })

  unfoldable pub bulk_complete : Option Scalar → List Chore → Screen → Screen × Batch
  bulk_complete impersonated selected s =
      let b = attempt (completing impersonated) selected empty in
      (
        tell
            (finished (when_any b.done (success "Tasks Completed" ∷ []))
              (when_any b.failed (failure "Some Tasks Failed" ∷ [])))
            s,
        b,
      )

  unfoldable pub archive_each : List Chore → Screen → Screen
  unfolding archived_one
  archive_each [] s = s
  archive_each (c ∷ cs) s =
      archive_each cs (if is_rejected (answers c) then s else archived_one c s)

  unfoldable pub bulk_archive : List Chore → Screen → Screen × Batch
  bulk_archive selected s =
      let b = attempt archiving selected empty in
      (
        tell
            (finished (when_any b.done (success "Tasks Archived" ∷ []))
              (when_any b.failed (failure "Some Tasks Failed" ∷ [])))
            (archive_each selected s),
        b,
      )

  unfoldable pub bulk_delete : Screen → List Chore → Screen → Screen × Batch
  bulk_delete rendered selected s =
      let b = attempt deleting selected empty in
      (
        tell
            (finished (when_any b.done (success "Tasks Deleted" ∷ []))
              (when_any b.failed (failure "Some Tasks Failed" ∷ [])))
            (deleted_all rendered b.done s),
        b,
      )

  unfoldable pub bulk_skip : List Chore → Screen → Screen × Batch
  bulk_skip selected s =
      let b = attempt skipping selected empty in
      (
        tell
            (finished (when_any b.done (undoable_skips "Tasks Skipped" (ids b.done) ∷ []))
              (when_any b.failed (failure "Some Tasks Failed" ∷ [])))
            s,
        b,
      )

-- The dialog is left.
unfoldable pub cancel_bulk : Screen → Screen
cancel_bulk s = tell (close_dialog ∷ []) s

-- `undoAction` of the skipped tasks: the calls, up to the first that is rejected.
unfoldable pub undo_skips : (Scalar → Answer) → List Scalar → Screen → Screen × List Request
undo_skips answers [] s = (tell (refetch ∷ undone "Undo Successful" ∷ []) s, [])
undo_skips answers (id ∷ ids) s =
    let rest = undo_skips answers ids s in
    if is_rejected (answers id)
    then (tell (failure "Undo Failed" ∷ []) s, undo id ∷ [])
    else (rest.0, undo id ∷ rest.1)
