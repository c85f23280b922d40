-- ===== src/Tests/SubTasks.antt =====
-- The handlers of the subtasks on a small tree: 1 with the children 2 and 3, and 4 below 3.
use mathlib.Core.List.{Memᴰ}
use mathlib.Core.List.Memᴰ
use gsd.Prelude.{
  ℕ, zero, suc, ◌≡◌, refl, ◌<◌, ◌↔◌, true, false, Option, none, some, List, [], ◌∷◌, ◌++◌, ◌||◌,
  if◌then◌else◌, nat_eq, map, filter, length, ◌==◌, arith, take, drop, take-append-drop, sym, inl,
  inr, true, false, ◌<◌, ◌↔◌,
}
use gsd.Prelude.Int.{ℤ, pos, negsuc, int_eq, same_int_iff}
use gsd.Prelude.Partition.{contains}
use gsd.Js.{Scalar}
use gsd.Js.Texts.{is_blank}
use gsd.SubTasks.{
  Item, is_child, with_below, collect, find_descendants, renumber, handle_delete, handle_add,
  handle_add_subtask, handle_save, handle_toggle, find_index, place, moved, on_drag_end,
}
use gsd.SubTasks.Descendants.{IsMeasured, find_descendants_enough, Descends}
use gsd.SubTasks.Delete.{ids, HasParents, handle_delete-Descends, handle_delete-HasParents}
use gsd.SubTasks.Complete.{handle_toggle_lem, toggled_tree}
use gsd.SubTasks.Ids.{IsNumbered, handle_add-IsNumbered}
use gsd.SubTasks.Drag.{orders, numbers, on_drag_end-orders}

abbrev item : ℤ → Option ℤ → ℤ → Item
item id parent order = record {
  id = id;
  parent_id = parent;
  name = "step";
  completed_at = none;
  completed_by = Scalar.undefined;
  order_id = order;
}

abbrev one : Item
one = item (pos 1) none (pos 0)

abbrev two : Item
two = item (pos 2) (some (pos 1)) (pos 0)

abbrev three : Item
three = item (pos 3) (some (pos 1)) (pos 1)

abbrev four : Item
four = item (pos 4) (some (pos 3)) (pos 0)

abbrev five : Item
five = item (pos 5) none (pos 1)

abbrev tree : List Item
tree = one ∷ two ∷ three ∷ four ∷ five ∷ []

abbrev depths : ℤ → ℕ
depths (pos n) = if n == 4 then 2 else if (n == 2 || n == 3) then 1 else 0
depths (negsuc n) = 0

found : find_descendants 3 tree (pos 1) ≡ some (pos 2 ∷ pos 3 ∷ pos 4 ∷ [])
unfolding find_descendants collect with_below
found = refl

abbrev left : List Item
left = one ∷ two ∷ record five { order_id = pos 2 } ∷ []

deletes : handle_delete 3 (pos 3) tree ≡ some left
unfolding handle_delete find_descendants collect with_below renumber
deletes = refl

-- After the deletion of task 1, the temporary id -3 is given a second time.
abbrev numbered : List Item
numbered =
    item (pos 1) none (pos 0) ∷ item (negsuc 1) none (pos 1) ∷ item (negsuc 2) none (pos 2) ∷ []

abbrev shortened : List Item
shortened = item (negsuc 1) none (pos 0) ∷ item (negsuc 2) none (pos 1) ∷ []

shortens : handle_delete 1 (pos 1) numbered ≡ some shortened
unfolding handle_delete find_descendants collect with_below renumber
shortens = refl

given_twice : ids (handle_add "new" shortened) ≡ negsuc 1 ∷ negsuc 2 ∷ negsuc 2 ∷ []
unfolding handle_add is_blank
given_twice = refl

saves : map (λ t. t.name) (handle_save (pos 2) "other" left) ≡ "step" ∷ "other" ∷ "step" ∷ []
unfolding handle_save
saves = refl

-- `arrayMove`: the element is taken out and put in at the other index.
abbrev put_in : ℕ → Item → List Item → List Item
put_in zero t ts = t ∷ ts
put_in (suc i) t [] = t ∷ []
put_in (suc i) t (u ∷ us) = u ∷ put_in i t us

abbrev move_item : List Item → ℕ → ℕ → List Item
move_item ts i j = elim (drop i ts) [ [] ↦ ts | t ∷ rest ↦ put_in j t (take i ts ++ rest) ]

-- A task that moves below another parent gets the order id -1.
abbrev dropped : List Item
dropped =
    one ∷ two ∷ record five { parent_id = some (pos 1); order_id = negsuc 0 } ∷ three ∷ four ∷ []

drops :
    on_drag_end move_item (pos 5) (some (pos 3)) tree
    ≡ one ∷ two ∷ record five { parent_id = some (pos 1); order_id = negsuc 0 } ∷ three ∷ four ∷ []
unfolding on_drag_end moved place find_index
drops = refl

swaps :
    orders (some (pos 1)) (on_drag_end move_item (pos 3) (some (pos 2)) tree) ≡ pos 0 ∷ pos 1 ∷ []
unfolding on_drag_end moved place find_index
swaps = refl

of_parent : (n : ℕ) (p a : ℤ) → depths p < n → (p == a) ≡ true → depths a < n
of_parent n p a lt e = let same : p ≡ a = (same_int_iff p a).0 e in rw same at lt

measured : IsMeasured depths 2 tree
measured = (
  (omega arith, λ a h. cc h),
  (
    (omega arith, λ a h. of_parent 1 (pos 1) a (omega arith) h),
    (
      (omega arith, λ a h. of_parent 1 (pos 1) a (omega arith) h),
      (
        (omega arith, λ a h. of_parent 2 (pos 3) a (omega arith) h),
        ((omega arith, λ a h. cc h), tt),
      ),
    ),
  ),
)

find_descendants_enough_example : (ds : List ℤ) × (find_descendants 3 tree (pos 1) ≡ some ds)
find_descendants_enough_example =
    find_descendants_enough depths 2 tree measured (pos 1) (omega arith)

handle_delete-Descends_example : (contains (ids left) (pos 2) ≡ true) ↔ (
    (contains (ids tree) (pos 2) ≡ true)
    × ((pos 2 == pos 3) ≡ false)
    × (Descends tree (pos 3) (pos 2) → ⊥))
handle_delete-Descends_example = handle_delete-Descends 3 (pos 3) tree left deletes (pos 2)

in_tree : (p a : ℤ) → contains (ids tree) p ≡ true → (p == a) ≡ true → contains (ids tree) a ≡ true
in_tree p a h e = let same : p ≡ a = (same_int_iff p a).0 e in rw same at h

tree-HasParents : HasParents tree
tree-HasParents = (
  λ a h. cc h,
  (
    λ a h. in_tree (pos 1) a refl h,
    (λ a h. in_tree (pos 1) a refl h, (λ a h. in_tree (pos 3) a refl h, (λ a h. cc h, tt))),
  ),
)

handle_delete-HasParents_example : HasParents left
handle_delete-HasParents_example =
    handle_delete-HasParents 3 (pos 3) tree left deletes tree-HasParents

handle_toggle_lem_example :
    handle_toggle 3 "today" (Scalar.num 5) (pos 3) tree
    ≡ toggled_tree 3 "today" (Scalar.num 5) (pos 3) tree false
handle_toggle_lem_example = handle_toggle_lem 3 "today" (Scalar.num 5) (pos 3) tree three refl

numbered-IsNumbered : IsNumbered numbered
numbered-IsNumbered = ((refl, (refl, (refl, tt))), (tt, (omega arith, (omega arith, tt))))

handle_add-IsNumbered_example :
    IsNumbered (handle_add "new" numbered) × IsNumbered (handle_add_subtask (pos 1) "new" numbered)
handle_add-IsNumbered_example = handle_add-IsNumbered (pos 1) "new" numbered numbered-IsNumbered

put_in-Memᴰ : (i : ℕ) (t u : Item) (ts : List Item) → Memᴰ u (put_in i t ts) → Memᴰ u (t ∷ ts)
put_in-Memᴰ zero t u ts m = m
put_in-Memᴰ (suc i) t u [] m = m
put_in-Memᴰ (suc i) t u (v ∷ vs) (Memᴰ.head e) = Memᴰ.tail (Memᴰ.head e)
put_in-Memᴰ (suc i) t u (v ∷ vs) (Memᴰ.tail m) = elim (Memᴰ.cases_cons (put_in-Memᴰ i t u vs m)) [
  | inl e ↦ Memᴰ.head e
  | inr n ↦ Memᴰ.tail (Memᴰ.tail n)
]

move_item-Memᴰ : (ts : List Item) (i j : ℕ) (u : Item) → Memᴰ u (move_item ts i j) → Memᴰ u ts
move_item-Memᴰ ts i j u m = of_parts (drop i ts) (take-append-drop i ts) m
  where
    of_parts :
        (later : List Item)
        → take i ts ++ later ≡ ts
        → Memᴰ u (elim later [ [] ↦ ts | t ∷ rest ↦ put_in j t (take i ts ++ rest) ])
        → Memᴰ u ts
    of_parts [] e m = m
    of_parts (t ∷ rest) e m =
        rw (sym e) (elim (Memᴰ.cases_cons (put_in-Memᴰ j t u (take i ts ++ rest) m)) [
          | inl same ↦ Memᴰ.append_right (take i ts) (Memᴰ.head same)
          | inr n ↦ elim (Memᴰ.append_cases (take i ts) n) [
            | inl before ↦ Memᴰ.append_left (t ∷ rest) before
            | inr after ↦ Memᴰ.append_right (take i ts) (Memᴰ.tail after)
          ]
        ])

three_at : find_index (pos 3) tree ≡ some 2
unfolding find_index
three_at = refl

two_at : find_index (pos 2) tree ≡ some 1
unfolding find_index
two_at = refl

on_drag_end-orders_example :
    let result = on_drag_end move_item (pos 3) (some (pos 2)) tree in
    orders (some (pos 1)) result ≡ numbers 0 (length (filter (is_child (some (pos 1))) result))
on_drag_end-orders_example =
    on_drag_end-orders move_item move_item-Memᴰ (pos 3) (pos 2) tree 2 1 two refl three_at two_at
      refl (λ h. cc h, (λ _. refl, (λ _. refl, (λ h. cc h, (λ h. cc h, tt)))))
