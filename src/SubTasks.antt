-- ===== src/SubTasks.antt =====
-- The subtasks of a task, ui/src/views/components/SubTask.jsx: what its handlers make of the list. The
-- recursions over the parents have fuel; `none` where it runs out.
pub mod Descendants
pub mod Delete
pub mod Ids
pub mod Complete
pub mod Drag
use mathlib.Core.Option
use gsd.Prelude.{
  ℕ, zero, suc, ◌+◌, ◌-◌, Bool, true, false, not, ◌&&◌, ◌||◌, String, Option, none, some, List, [],
  ◌∷◌, ◌++◌, map, filter, find?, if◌then◌else◌, ◌==◌, nat_eq, string_eq, length, take, drop, ltb,
}
use gsd.Prelude.Int.{ℤ, pos, negsuc, int_eq}
use gsd.Prelude.Partition.{contains}
use gsd.Js.{Scalar}
use gsd.Js.Texts.{is_blank}

pub record Item : Type 0 where
  pub id : ℤ
  pub parent_id : Option ℤ
  pub name : String
  -- `none`: null
  pub completed_at : Option String
  pub completed_by : Scalar
  pub order_id : ℤ

-- `t.parentId === id`
abbrev pub is_child : Option ℤ → Item → Bool
is_child none t = elim t.parent_id [ none ↦ true | some _ ↦ false ]
is_child (some id) t = elim t.parent_id [ none ↦ false | some p ↦ p == id ]

abbrev pub children : List Item → ℤ → List Item
children tasks id = filter (is_child (some id)) tasks

-- A child with what the recursion found below it, and what the loop finds after it.
unfoldable pub with_below : ℤ → Option (List ℤ) → Option (List ℤ) → Option (List ℤ)
with_below id (some below) (some rest) = some (id ∷ below ++ rest)
with_below id none rest = none
with_below id (some below) none = none

-- The loop over the children.
unfoldable pub collect : (ℤ → Option (List ℤ)) → List Item → Option (List ℤ)
unfolding with_below
collect find [] = some []
collect find (c ∷ cs) = with_below c.id (find c.id) (collect find cs)

unfoldable pub find_descendants : ℕ → List Item → ℤ → Option (List ℤ)
unfolding collect with_below
find_descendants zero tasks id = none
find_descendants (suc fuel) tasks id = collect (find_descendants fuel tasks) (children tasks id)

-- Top-level tasks are numbered anew.
unfoldable pub renumber : ℕ → List Item → List Item
renumber index [] = []
renumber index (t ∷ ts) =
    record t { order_id = if is_child none t then pos index else t.order_id }
    ∷ renumber (index + 1) ts

abbrev pub without : List ℤ → List Item → List Item
without ids tasks = filter (λ t. not (contains ids t.id)) tasks

abbrev deleted : List Item → ℤ → Option (List ℤ) → Option (List Item)
deleted tasks id none = none
deleted tasks id (some below) = some (renumber 0 (without (id ∷ below) tasks))

unfoldable pub handle_delete : ℕ → ℤ → List Item → Option (List Item)
unfolding renumber
handle_delete fuel id tasks = deleted tasks id (find_descendants fuel tasks id)

-- `(tasks.length + 1) * -1`
abbrev pub next_id : List Item → ℤ
next_id tasks = negsuc (length tasks)

abbrev new_item : String → Option ℤ → List Item → Item
new_item name parent tasks = record {
  id = next_id tasks;
  parent_id = parent;
  name = name;
  completed_at = none;
  completed_by = Scalar.undefined;
  order_id = pos (length (filter (is_child parent) tasks));
}

unfoldable pub handle_add : String → List Item → List Item
handle_add name tasks = if is_blank name then tasks else tasks ++ new_item name none tasks ∷ []

unfoldable pub handle_add_subtask : ℤ → String → List Item → List Item
handle_add_subtask parent name tasks =
    if is_blank name then tasks else tasks ++ new_item name (some parent) tasks ∷ []

unfoldable pub handle_save : ℤ → String → List Item → List Item
handle_save id name tasks = map (λ t. if t.id == id then record t { name = name } else t) tasks

-- `updatedTasks[index] = ...`, at the first task with the id.
unfoldable pub complete_one : String → ℤ → List Item → List Item
complete_one now id [] = []
complete_one now id (t ∷ ts) =
    if t.id == id then record t { completed_at = some now } ∷ ts else t ∷ complete_one now id ts

-- The loop of `completeChildren`, which changes the tasks as it goes.
unfoldable pub complete_each :
    (ℤ → List Item → Option (List Item)) → String → List Item → List Item → Option (List Item)
unfolding complete_one
complete_each below now [] tasks = some tasks
complete_each below now (c ∷ cs) tasks = elim (below c.id (complete_one now c.id tasks)) [
  | none ↦ none
  | some changed ↦ complete_each below now cs changed
]

unfoldable pub complete_children : ℕ → String → ℤ → List Item → Option (List Item)
unfolding complete_each
complete_children zero now id tasks = none
complete_children (suc fuel) now id tasks =
    complete_each (complete_children fuel now) now (children tasks id) tasks

abbrev toggled : ℤ → Option String → Scalar → List Item → List Item
toggled id at user tasks =
    map (λ t. if t.id == id then record t { completed_at = at; completed_by = user } else t) tasks

abbrev pub is_complete : Option String → Bool
is_complete none = false
is_complete (some at) = not (at == "")

unfoldable pub toggle_found : ℕ → String → Scalar → ℤ → List Item → Option Item → Option (List Item)
unfolding complete_children complete_each complete_one
toggle_found fuel now user id tasks none = none
toggle_found fuel now user id tasks (some t) =
    if is_complete t.completed_at
    then some (toggled id none user tasks)
    else complete_children fuel now id (toggled id (some now) user tasks)

-- `none` also where no task has the id, and reading it throws. `now` is the ISO text of the clock.
unfoldable pub handle_toggle : ℕ → String → Scalar → ℤ → List Item → Option (List Item)
unfolding toggle_found
handle_toggle fuel now user id tasks =
    toggle_found fuel now user id tasks (find? (λ t. t.id == id) tasks)

-- `findIndex` of an id.
unfoldable pub find_index : ℤ → List Item → Option ℕ
find_index id [] = none
find_index id (t ∷ ts) = if t.id == id then some 0 else Option.map suc (find_index id ts)

-- `siblings.indexOf(item)`: `before` siblings stand before the items; a task that is none has -1.
unfoldable pub place : ℤ → Option ℤ → ℕ → List Item → List Item
place active parent before [] = []
place active parent before (t ∷ ts) =
    let at = if is_child parent t then pos before else negsuc 0 in
    let rest = place active parent (if is_child parent t then before + 1 else before) ts in
    if t.id == active
    then record t { parent_id = parent; order_id = at } ∷ rest
    else if is_child parent t
    then record t { order_id = at } ∷ rest
    else t ∷ rest

-- `array_move` is arrayMove of @dnd-kit/sortable; `over` is what the task is dropped on.
module _ (array_move : List Item → ℕ → ℕ → List Item) where
  unfoldable pub moved : ℤ → ℤ → List Item → Option ℕ → Option ℕ → Option Item → List Item
  moved active over items (some from) (some to) (some t) =
      place active t.parent_id 0 (array_move items from to)
  moved active over items _ _ _ = items

  unfoldable pub on_drag_end : ℤ → Option ℤ → List Item → List Item
  unfolding moved place find_index
  on_drag_end active none items = items
  on_drag_end active (some over) items =
      if active == over
      then items
      else moved active over items (find_index active items) (find_index over items)
          (find? (λ t. t.id == over) items)
