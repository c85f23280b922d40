-- ===== src/Sse/Messages/Keys.antt =====
-- What the messages do to the cached single tasks and their details.
use gsd.Prelude.{ℕ, ◌≡◌, ◌≢◌, refl, false, some, List, ◌==◌, string_eq, map, arith, beq_self}
use gsd.Js.{Scalar, num, scalar_eq, same_iff, to_text}
use gsd.Js.Fields.{Fields, field, field-set_field}
use gsd.Sse.Messages.{
  Change, Cache, Details, User, text_key, complete_subtask, created, changed, subtask, handle,
}

-- The entry that the creation of a task with a numeric id fills is not one that changes update:
-- after a change of any task it holds the task as it was created.
pub handle-created-changed :
    (profile : Scalar) (kind : Change) (user user' : User) (task task' : Fields) (c : Cache) (n : ℕ)
    → field "id" task ≡ num n
    → (handle profile (changed kind user' task') (handle profile (created user task) c)).chore
        (num n)
      ≡ some task
unfolding handle
handle-created-changed profile kind user user' task task' c n e = rw (e, beq_self n) refl

-- A subtask that another one's completion does not name is untouched; the named one has the time and
-- the user of the completion, and its other fields as before.
pub complete_subtask_lem :
    (id at by : Scalar) (s : Fields)
    → (field "id" s ≢ id → complete_subtask id at by s ≡ s)
      × (field "id" s ≡ id
          → (field "completedAt" (complete_subtask id at by s) ≡ at)
            × (field "completedBy" (complete_subtask id at by s) ≡ by)
            × (field "id" (complete_subtask id at by s) ≡ id))
unfolding complete_subtask
complete_subtask_lem id at by s = (
  λ n. ground (arith, same_iff (field "id" s) id),
  λ e.
      rw ((same_iff (field "id" s) id).1 e)
        (simp field-set_field, simp field-set_field, simp field-set_field e),
)

-- The completion of a subtask of a task whose details are cached with their subtasks completes the
-- subtasks with its id, keeps the other fields of these details, and leaves the details of other
-- tasks as they are.
pub handle-subtask :
    (profile chore_id id at : Scalar) (user : User) (c : Cache) (d : Details) (subs : List Fields)
    → c.details (text_key chore_id) ≡ some d
    → d.sub_tasks ≡ some subs
    → ((handle profile (subtask chore_id id at user) c).details (text_key chore_id)
        ≡ some (record d { sub_tasks = some (map (complete_subtask id at user.id) subs) }))
      × ((j : Scalar)
          → j ≢ text_key chore_id
          → (handle profile (subtask chore_id id at user) c).details j ≡ c.details j)
unfolding handle
handle-subtask profile chore_id id at user c d subs e f = (
  rw (e, handle) (rw f (rw (beq_self (to_text chore_id)) refl)),
  λ j n.
      let other : (text_key chore_id == j) ≡ false =
        ground (arith, same_iff (text_key chore_id) j) in
      rw (e, handle) (rw f (rw other refl)),
)
