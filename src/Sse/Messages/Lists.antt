-- ===== src/Sse/Messages/Lists.antt =====
-- What the messages do to the cached list of tasks.
use gsd.Prelude.{
  ◌≡◌, ◌≢◌, refl, inl, inr, Bool, false, not, ◌&&◌, some, List, [], ◌∷◌, if◌then◌else◌, ◌==◌,
  string_eq, filter, map, arith, All, All-map, All-filter, Bool-cases,
}
use gsd.Js.{Scalar, str, scalar_eq, same_iff}
use gsd.Js.Fields.{Fields, field}
use gsd.Sse.Messages.{
  Change, completed, Cache, User, is_completed, change_list, changed, deleted, handle,
}

abbrev id_of : Fields → Scalar
id_of t = field "id" t

-- The tasks with an id, in order.
abbrev pub with_id : Scalar → List Fields → List Fields
with_id id = filter (λ t. field "id" t == id)

without-absent :
    (id : Scalar) (old : List Fields)
    → All (λ t. field "id" t ≢ id) (filter (λ t. not (field "id" t == id)) old)
without-absent id old =
    All-map (λ t h e. ground (arith, same_iff (field "id" t) id)) _
      (All-filter (λ t. not (field "id" t == id)) old)

without-others :
    (id j : Scalar) (old : List Fields)
    → j ≢ id
    → with_id j (filter (λ t. not (field "id" t == id)) old) ≡ with_id j old
without-others id j [] n = refl
without-others id j (t ∷ old) n =
    ground (arith, without-others id j old n, same_iff (field "id" t) id, same_iff (field "id" t) j)

-- A deleted task is in neither list any more, and the tasks with other ids stay in both, in their
-- order; a list that is not cached stays so.
pub handle-deleted :
    (profile id : Scalar) (c : Cache) (archived : Bool) (old : List Fields)
    → c.chores archived ≡ some (some old)
    → (new : List Fields) × ((handle profile (deleted id) c).chores archived ≡ some (some new))
      × All (λ t. field "id" t ≢ id) new
      × ((j : Scalar) → j ≢ id → with_id j new ≡ with_id j old)
unfolding handle
handle-deleted profile id c archived old e = (
  filter (λ t. not (field "id" t == id)) old,
  rw e refl,
  without-absent id old,
  λ j n. without-others id j old n,
)

abbrev is_done : Change → Fields → Bool
is_done kind task = is_completed kind && field "frequencyType" task == str "once"

replaced-ids :
    (task : Fields) (old : List Fields)
    → map id_of (map (λ t. if field "id" t == field "id" task then task else t) old) ≡ map id_of old
replaced-ids task [] = refl
replaced-ids task (t ∷ old) =
    ground (arith, replaced-ids task old, same_iff (field "id" t) (field "id" task))

replaced-with_id :
    (task : Fields) (j : Scalar) (old : List Fields)
    → j ≢ field "id" task
    → with_id j (map (λ t. if field "id" t == field "id" task then task else t) old) ≡ with_id j old
replaced-with_id task j [] n = refl
replaced-with_id task j (t ∷ old) n = ground (
  arith,
  replaced-with_id task j old n,
  same_iff (field "id" t) (field "id" task),
  same_iff (field "id" t) j,
  same_iff (field "id" task) j,
)

replaced-All :
    (task : Fields) (old : List Fields)
    → All
        (λ t. field "id" t ≡ field "id" task → t ≡ task)
        (map (λ t. if field "id" t == field "id" task then task else t) old)
replaced-All task [] = tt
replaced-All task (t ∷ old) = elim (Bool-cases (field "id" t == field "id" task)) [
  | inl e ↦ rw e (λ k. refl, replaced-All task old)
  | inr e ↦
      rw e (λ k. ground (arith, same_iff (field "id" t) (field "id" task)), replaced-All task old)
]

-- A change of a task, other than the completion of one that is done once, keeps the ids of the cached
-- list in their order and so adds no task; every task with the changed one's id becomes it, and the
-- tasks with other ids stay as they are.
pub handle-changed :
    (profile : Scalar) (kind : Change) (user : User) (task : Fields) (c : Cache) (old : List Fields)
    → c.chores false ≡ some (some old)
    → is_completed kind && field "frequencyType" task == str "once" ≡ false
    → (new : List Fields) × ((handle profile (changed kind user task) c).chores false
        ≡ some (some new))
      × (map id_of new ≡ map id_of old)
      × All (λ t. field "id" t ≡ field "id" task → t ≡ task) new
      × ((j : Scalar) → j ≢ field "id" task → with_id j new ≡ with_id j old)
unfolding handle
handle-changed profile kind user task c old e d = (
  change_list kind task old,
  rw e refl,
  rw (d, change_list) (replaced-ids task old),
  rw (d, change_list) (replaced-All task old),
  λ j n. rw (d, change_list) (replaced-with_id task j old n),
)

-- The completion of a task that is done once takes it off the cached list, and leaves the others.
pub handle-completed :
    (profile : Scalar) (user : User) (task : Fields) (c : Cache) (old : List Fields)
    → c.chores false ≡ some (some old)
    → field "frequencyType" task ≡ str "once"
    → (new : List Fields) × ((handle profile (changed completed user task) c).chores false
        ≡ some (some new))
      × All (λ t. field "id" t ≢ field "id" task) new
      × ((j : Scalar) → j ≢ field "id" task → with_id j new ≡ with_id j old)
unfolding handle
handle-completed profile user task c old e d = (
  change_list completed task old,
  rw e refl,
  rw (d, change_list) (without-absent (field "id" task) old),
  λ j n. rw (d, change_list) (without-others (field "id" task) j old n),
)
