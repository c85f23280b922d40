-- ===== src/Actions/Bulk/Laws.antt =====
-- The actions on the selected tasks: every one is sent, and counted once.
use mathlib.Core.List.{Perm, append_assoc, append-nil, perm_middle}
use mathlib.Core.List.Perm
use gsd.Prelude.{
  filter_filter, filter_all, ◌≡◌, refl, ◌∙◌, Bool, not, inl, inr, List, [], ◌∷◌, ◌++◌, map, filter,
  arith, Bool-cases,
}
use gsd.Js.{scalar_eq}
use gsd.Chores.{Chore}
use gsd.Actions.{Screen, Answer, without}
use gsd.Actions.Handle.{Request}
use gsd.Actions.Bulk.{
  Batch, empty, is_rejected, ids, attempt, deleting, archive_each, archived_one, bulk_archive,
  bulk_delete, without_all, deleted_all,
}

module _ {ℓ} {A : Type ℓ} where
  filter-perm : (p : A → Bool) (xs : List A) → Perm (filter (λ x. not (p x)) xs ++ filter p xs) xs
  filter-perm p [] = Perm.refl []
  filter-perm p (x ∷ xs) = elim (Bool-cases (p x)) [
    | inl e ↦ rw e (Perm.trans (perm_middle _ _) (Perm.cons x (filter-perm p xs)))
    | inr e ↦ rw e (Perm.cons x (filter-perm p xs))
  ]

module _ (answers : Chore → Answer) where
  abbrev pub rejects : Chore → Bool
  rejects c = is_rejected (answers c)

  abbrev pub accepts : Chore → Bool
  accepts c = not (is_rejected (answers c))

  attempt-append :
      (request : Chore → Request) (cs : List Chore) (b : Batch)
      → attempt answers request cs b ≡ record {
        done = b.done ++ filter accepts cs;
        failed = b.failed ++ filter rejects cs;
        sent = b.sent ++ map request cs;
      }
  unfolding attempt
  attempt-append request [] b = simp append-nil
  attempt-append request (c ∷ cs) b = elim (Bool-cases (rejects c)) [
    | inl e ↦ rw (e, attempt-append request cs) (simp append_assoc)
    | inr e ↦ rw (e, attempt-append request cs) (simp append_assoc)
  ]

  -- Every selected task is sent in one call, in the order of the selection; a task counts as failed if
  -- its call was rejected and as done otherwise, also where the server refused it, and every task
  -- counts once.
  pub attempt_lem :
      (request : Chore → Request) (cs : List Chore)
      → (let b = attempt answers request cs empty in
          (b.sent ≡ map request cs)
          × (b.done ≡ filter accepts cs)
          × (b.failed ≡ filter rejects cs)
          × Perm (b.done ++ b.failed) cs)
  attempt_lem request cs =
      rw (attempt-append request cs empty) (refl, refl, refl, filter-perm rejects cs)

  archive_each_lem :
      (cs : List Chore) (s : Screen)
      → ((archive_each answers cs s).chores ≡ without_all (ids (filter accepts cs)) s.chores)
        × ((archive_each answers cs s).filtered ≡ without_all (ids (filter accepts cs)) s.filtered)
  unfolding archive_each
  archive_each_lem [] s = (rw (filter_all s.chores) refl, rw (filter_all s.filtered) refl)
  archive_each_lem (c ∷ cs) s = elim (Bool-cases (rejects c)) [
    | inl e ↦ rw (e, archive_each) (archive_each_lem cs s)
    | inr e ↦
        let (a, b) = archive_each_lem cs (archived_one c s) in
        rw (e, archive_each) (a ∙ without_more c cs s.chores, b ∙ without_more c cs s.filtered)
  ]
    where
      without_more :
          (c : Chore) (cs ds : List Chore)
          → without_all (ids (filter accepts cs)) (without c.id ds)
            ≡ without_all (ids (c ∷ filter accepts cs)) ds
      without_more c cs ds = filter_filter _ _ _ (λ d. ground arith) ds

  deleted_all_lem :
      (b : List Chore) (s : Screen)
      → ((deleted_all s b s).chores ≡ without_all (ids b) s.chores)
        × ((deleted_all s b s).filtered ≡ without_all (ids b) s.filtered)
  deleted_all_lem [] s = (rw (filter_all s.chores) refl, rw (filter_all s.filtered) refl)
  deleted_all_lem (c ∷ b) s = (refl, refl)

  abbrev pub Leaves : List Chore → Screen → Screen → Type 0
  Leaves selected s s' =
      (s'.chores ≡ without_all (ids (filter accepts selected)) s.chores)
      × (s'.filtered ≡ without_all (ids (filter accepts selected)) s.filtered)

  -- Archiving and deleting the selected tasks leave the same lists, where nothing else changed them
  -- since they were rendered: exactly the tasks with the id of a selected one whose call was not
  -- rejected are gone, and the others keep their order.
  pub bulk_archive_delete :
      (selected : List Chore) (s : Screen)
      → Leaves selected s (bulk_archive answers selected s).0
        × Leaves selected s (bulk_delete answers s selected s).0
  unfolding bulk_archive bulk_delete
  bulk_archive_delete selected s = (
    archive_each_lem selected s,
    rw (attempt-append deleting selected empty) (deleted_all_lem (filter accepts selected) s),
  )
