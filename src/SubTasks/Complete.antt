-- ===== src/SubTasks/Complete.antt =====
-- The completion of the tasks below one, handleToggle in ui/src/views/components/SubTask.jsx.
use mathlib.Core.Option
use gsd.Prelude.{
  ℕ, zero, suc, ◌≡◌, refl, sym, ap, ◌∙◌, inl, inr, Bool, true, false, find?, String, Option, none,
  some, List, [], ◌∷◌, ◌++◌, map, ◌==◌, Bool-cases,
}
use gsd.Prelude.Int.{ℤ, int_eq}
use gsd.Js.{Scalar}
use gsd.SubTasks.{
  Item, is_child, children, with_below, collect, find_descendants, complete_one, complete_each,
  complete_children, toggled, is_complete, handle_toggle, toggle_found,
}

-- Every listed task completed in turn.
abbrev pub complete_all : String → List ℤ → List Item → List Item
complete_all now [] tasks = tasks
complete_all now (id ∷ ids) tasks = complete_all now ids (complete_one now id tasks)

complete_all-append :
    (now : String) (xs ys : List ℤ) (tasks : List Item)
    → complete_all now (xs ++ ys) tasks ≡ complete_all now ys (complete_all now xs tasks)
complete_all-append now [] ys tasks = refl
complete_all-append now (x ∷ xs) ys tasks = complete_all-append now xs ys (complete_one now x tasks)

-- The loop reads only the ids of the children.
collect_ids :
    (find find' : ℤ → Option (List ℤ))
    → ((a : ℤ) → find a ≡ find' a)
    → (cs cs' : List Item) → map (λ c. c.id) cs ≡ map (λ c. c.id) cs'
    → collect find cs ≡ collect find' cs'
unfolding collect
collect_ids find find' f [] [] e = refl
collect_ids find find' f [] (_ ∷ _) e = absurd (cc e)
collect_ids find find' f (_ ∷ _) [] e = absurd (cc e)
collect_ids find find' f (c ∷ cs) (c' ∷ cs') e =
    let same : c.id ≡ c'.id = cc e in
    let below : find c.id ≡ find' c'.id = ap find same ∙ f c'.id in
    rw (same, f c'.id, collect_ids find find' f cs cs' (cc e)) refl

children-complete_one :
    (now : String) (id a : ℤ) (tasks : List Item)
    → map (λ c. c.id) (children (complete_one now id tasks) a) ≡ map (λ c. c.id) (children tasks a)
unfolding complete_one
children-complete_one now id a [] = refl
children-complete_one now id a (t ∷ ts) = elim (Bool-cases (t.id == id)) [
  | inl e ↦ elim (Bool-cases (is_child (some a) t)) [
    | inl c ↦ rw (e, c) refl
    | inr c ↦ rw (e, c) refl
  ]
  | inr e ↦ elim (Bool-cases (is_child (some a) t)) [
    | inl c ↦ rw (e, c) (ap (λ xs. t.id ∷ xs) (children-complete_one now id a ts))
    | inr c ↦ rw (e, c) (children-complete_one now id a ts)
  ]
]

-- So a completion changes nothing that the search for descendants reads.
find_descendants-complete_one :
    (now : String) (fuel : ℕ) (id a : ℤ) (tasks : List Item)
    → find_descendants fuel (complete_one now id tasks) a ≡ find_descendants fuel tasks a
unfolding find_descendants
find_descendants-complete_one now zero id a tasks = refl
find_descendants-complete_one now (suc fuel) id a tasks =
    collect_ids (find_descendants fuel (complete_one now id tasks)) (find_descendants fuel tasks)
      (λ b. find_descendants-complete_one now fuel id b tasks)
      (children (complete_one now id tasks) a) (children tasks a)
      (children-complete_one now id a tasks)

find_descendants-complete_all :
    (now : String) (fuel : ℕ) (ids : List ℤ) (a : ℤ) (tasks : List Item)
    → find_descendants fuel (complete_all now ids tasks) a ≡ find_descendants fuel tasks a
find_descendants-complete_all now fuel [] a tasks = refl
find_descendants-complete_all now fuel (id ∷ ids) a tasks =
    find_descendants-complete_all now fuel ids a (complete_one now id tasks)
    ∙ find_descendants-complete_one now fuel id a tasks

-- The ids that were found, completed.
abbrev pub after : String → List Item → Option (List ℤ) → Option (List Item)
after now tasks found = Option.map (λ ids. complete_all now ids tasks) found

module _ (now : String) (fuel : ℕ) (below : ℤ → List Item → Option (List Item)) where
  abbrev Follows : Type 0
  Follows =
      (a : ℤ) (tasks : List Item) → below a tasks ≡ after now tasks (find_descendants fuel tasks a)

  later :
      (c : Item) (under : List ℤ) (tasks : List Item) (rest : Option (List ℤ))
      → after now (complete_all now under (complete_one now c.id tasks)) rest
        ≡ after now tasks (with_below c.id (some under) rest)
  unfolding with_below
  later c under tasks none = refl
  later c under tasks (some rest) =
      ap some (sym (complete_all-append now under rest (complete_one now c.id tasks)))

  each_after :
      Follows
      → (cs : List Item) (tasks : List Item)
      → complete_each below now cs tasks
        ≡ after now tasks (collect (find_descendants fuel tasks) cs)
  unfolding complete_each collect with_below
  each_after f [] tasks = refl
  each_after f (c ∷ cs) tasks =
      ap (λ o. elim o [ none ↦ none | some changed ↦ complete_each below now cs changed ])
        (f c.id (complete_one now c.id tasks)
          ∙ ap (after now (complete_one now c.id tasks))
              (find_descendants-complete_one now fuel c.id c.id tasks))
      ∙ step (λ ts. each_after f cs ts) (find_descendants fuel tasks c.id)
    where
      step :
          ((ts : List Item)
            → complete_each below now cs ts ≡ after now ts (collect (find_descendants fuel ts) cs))
          → (o : Option (List ℤ))
          → (elim (after now (complete_one now c.id tasks) o) [
            | none ↦ none
            | some changed ↦ complete_each below now cs changed
          ])
            ≡ after now tasks (with_below c.id o (collect (find_descendants fuel tasks) cs))
      step others none = refl
      step others (some under) =
          let ts = complete_all now under (complete_one now c.id tasks) in
          others ts
          ∙ ap (after now ts) (
              collect_ids (find_descendants fuel ts) (find_descendants fuel tasks)
                (λ a. find_descendants-complete_all now fuel (c.id ∷ under) a tasks) cs cs refl)
          ∙ later c under tasks (collect (find_descendants fuel tasks) cs)

-- The completion goes through the very tasks that a deletion would remove, in the same order.
pub complete_children_lem :
    (now : String) (fuel : ℕ) (id : ℤ) (tasks : List Item)
    → complete_children fuel now id tasks ≡ after now tasks (find_descendants fuel tasks id)
unfolding complete_children find_descendants
complete_children_lem now zero id tasks = refl
complete_children_lem now (suc fuel) id tasks =
    each_after now fuel (complete_children fuel now) (λ a ts. complete_children_lem now fuel a ts)
      (children tasks id) tasks

children-toggled :
    (at : Option String) (user : Scalar) (id a : ℤ) (tasks : List Item)
    → map (λ c. c.id) (children (toggled id at user tasks) a) ≡ map (λ c. c.id) (children tasks a)
children-toggled at user id a [] = refl
children-toggled at user id a (t ∷ ts) = elim (Bool-cases (t.id == id)) [
  | inl e ↦ elim (Bool-cases (is_child (some a) t)) [
    | inl c ↦ rw (e, c) (ap (λ xs. t.id ∷ xs) (children-toggled at user id a ts))
    | inr c ↦ rw (e, c) (children-toggled at user id a ts)
  ]
  | inr e ↦ elim (Bool-cases (is_child (some a) t)) [
    | inl c ↦ rw (e, c) (ap (λ xs. t.id ∷ xs) (children-toggled at user id a ts))
    | inr c ↦ rw (e, c) (children-toggled at user id a ts)
  ]
]

find_descendants-toggled :
    (at : Option String) (user : Scalar) (fuel : ℕ) (id a : ℤ) (tasks : List Item)
    → find_descendants fuel (toggled id at user tasks) a ≡ find_descendants fuel tasks a
unfolding find_descendants
find_descendants-toggled at user zero id a tasks = refl
find_descendants-toggled at user (suc fuel) id a tasks =
    collect_ids (find_descendants fuel (toggled id at user tasks)) (find_descendants fuel tasks)
      (λ b. find_descendants-toggled at user fuel id b tasks)
      (children (toggled id at user tasks) a) (children tasks a)
      (children-toggled at user id a tasks)

-- What a toggle makes of the list, by whether the task is complete.
abbrev pub toggled_tree : ℕ → String → Scalar → ℤ → List Item → Bool → Option (List Item)
toggled_tree fuel now user id tasks true = some (toggled id none user tasks)
toggled_tree fuel now user id tasks false =
    after now (toggled id (some now) user tasks) (find_descendants fuel tasks id)

-- The toggle of a complete task opens that one alone; the toggle of an open one completes it and then, in
-- the order in which a deletion finds them, everything below it.
pub handle_toggle_lem :
    (fuel : ℕ) (now : String) (user : Scalar) (id : ℤ) (tasks : List Item) (t : Item)
    → find? (λ u. u.id == id) tasks ≡ some t
    → handle_toggle fuel now user id tasks
      ≡ toggled_tree fuel now user id tasks (is_complete t.completed_at)
unfolding handle_toggle toggle_found
handle_toggle_lem fuel now user id tasks t h = ap (toggle_found fuel now user id tasks) h ∙ by_state
  where
    by_state :
        toggle_found fuel now user id tasks (some t)
        ≡ toggled_tree fuel now user id tasks (is_complete t.completed_at)
    by_state = elim (Bool-cases (is_complete t.completed_at)) [
      | inl c ↦ rw c refl
      | inr c ↦ rw c (
          complete_children_lem now fuel id (toggled id (some now) user tasks)
          ∙ ap (after now (toggled id (some now) user tasks))
              (find_descendants-toggled (some now) user fuel id id tasks))
    ]
