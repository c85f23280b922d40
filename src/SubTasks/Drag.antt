-- ===== src/SubTasks/Drag.antt =====
-- The order of the subtasks after one is dropped, onDragEnd of ui/src/views/components/SubTask.jsx.
use mathlib.Core.List.{Memᴰ}
use gsd.Prelude.{
  ℕ, zero, suc, ◌+◌, ◌≡◌, refl, ap, ◌∙◌, inl, inr, true, false, Option, some, none, List, [], ◌∷◌,
  map, filter, find?, ◌==◌, Bool-cases, All, length,
}
use gsd.Prelude.Int.{ℤ, pos, int_eq, same_int_iff}
use gsd.Prelude.Members.{All-at, All_members}
use gsd.SubTasks.{Item, is_child, find_index, place, moved, on_drag_end}

abbrev pub numbers : ℕ → ℕ → List ℤ
numbers k zero = []
numbers k (suc n) = pos k ∷ numbers (k + 1) n

-- The order ids of the children of a parent, as they stand in the list.
abbrev pub orders : Option ℤ → List Item → List ℤ
orders parent ts = map (λ t. t.order_id) (filter (is_child parent) ts)

-- Every task with the id has the parent.
abbrev pub IsSibling : ℤ → Option ℤ → List Item → Type 0
IsSibling active parent ts = All (λ t. (t.id == active) ≡ true → is_child parent t ≡ true) ts

is_child_self : (parent : Option ℤ) (t : Item) → t.parent_id ≡ parent → is_child parent t ≡ true
is_child_self none t e = rw e refl
is_child_self (some p) t e = rw e ((same_int_iff p p).1 refl)

reordered :
    (parent : Option ℤ) (t : Item) (at : ℤ)
    → is_child parent (record t { order_id = at }) ≡ is_child parent t
reordered none t at = refl
reordered (some p) t at = refl

module _ (active : ℤ) (parent : Option ℤ) where
  orders-place :
      (k : ℕ) (ts : List Item)
      → IsSibling active parent ts
      → orders parent (place active parent k ts)
        ≡ numbers k (length (filter (is_child parent) (place active parent k ts)))
  unfolding place
  orders-place k [] h = refl
  orders-place k (t ∷ ts) (h, hs) = elim (Bool-cases (is_child parent t)) [
    | inl c ↦ elim (Bool-cases (t.id == active)) [
      | inl e ↦
          rw (c, e, is_child_self parent (record t { parent_id = parent; order_id = pos k }) refl)
            (ap (λ xs. pos k ∷ xs) (orders-place (k + 1) ts hs))
      | inr e ↦
          rw (c, e, reordered parent t (pos k) ∙ c)
            (ap (λ xs. pos k ∷ xs) (orders-place (k + 1) ts hs))
    ]
    | inr c ↦ elim (Bool-cases (t.id == active)) [
      | inl e ↦ cc (h e, c)
      | inr e ↦ rw (c, e, c) (orders-place k ts hs)
    ]
  ]

-- A task that is dropped on another child of its own parent leaves the children of that parent numbered from
-- 0 in the order of the list, where both are in the list, all tasks with the id have that parent, and
-- `array_move` only moves the elements of the array.
pub on_drag_end-orders :
    (array_move : List Item → ℕ → ℕ → List Item)
    → ((xs : List Item) (i j : ℕ) (t : Item) → Memᴰ t (array_move xs i j) → Memᴰ t xs)
    → (active over : ℤ) (items : List Item) (from to : ℕ) (o : Item) → (active == over) ≡ false
    → find_index active items ≡ some from
    → find_index over items ≡ some to
    → find? (λ t. t.id == over) items ≡ some o
    → IsSibling active o.parent_id items
    → let dropped = on_drag_end array_move active (some over) items in
      orders o.parent_id dropped ≡ numbers 0 (length (filter (is_child o.parent_id) dropped))
unfolding on_drag_end moved
on_drag_end-orders array_move only active over items from to o ne i j f sib =
    rw (ne, i, j, f)
      (orders-place active o.parent_id 0 (array_move items from to) (
        All_members (λ t. (t.id == active) ≡ true → is_child o.parent_id t ≡ true)
          (array_move items from to)
          (λ t m.
            All-at (λ t. (t.id == active) ≡ true → is_child o.parent_id t ≡ true) items sib
              (only items from to t m))))
