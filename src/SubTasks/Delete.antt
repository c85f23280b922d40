-- ===== src/SubTasks/Delete.antt =====
-- What is left after handleDelete of ui/src/views/components/SubTask.jsx.
use mathlib.Core.List.{Memᴰ}
use gsd.Prelude.{
  ℕ, ◌+◌, ◌≡◌, refl, sym, ap, ◌∙◌, ◌↔◌, inl, inr, true, false, not, ◌&&◌, ◌||◌, Option, none, some,
  List, [], ◌∷◌, map, ◌==◌, arith, Bool-cases, All,
}
use gsd.Prelude.Int.{ℤ, int_eq, same_int_iff}
use gsd.Prelude.Members.{of_filter, All-at, All_members}
use gsd.Prelude.Partition.{contains}
use gsd.SubTasks.{Item, is_child, find_descendants, renumber, without, deleted, handle_delete}
use gsd.SubTasks.Descendants.{Descends, child, find_descendants-Descends, Descends-further}

abbrev pub ids : List Item → List ℤ
ids ts = map (λ t. t.id) ts

-- The parent of every task is in the list.
abbrev pub HasParents : List Item → Type 0
HasParents ts = All (λ t. (a : ℤ) → is_child (some a) t ≡ true → contains (ids ts) a ≡ true) ts

is_child_same :
    (a : ℤ) (u t : Item)
    → u.parent_id ≡ t.parent_id
    → is_child (some a) t ≡ true
    → is_child (some a) u ≡ true
is_child_same a u t e h = rw e h

contains-ids : (t : Item) (ts : List Item) → Memᴰ t ts → contains (ids ts) t.id ≡ true
contains-ids t (u ∷ us) (Memᴰ.head e) =
    rw (ap (λ v. v.id) (sym e), (same_int_iff t.id t.id).1 refl) refl
contains-ids t (u ∷ us) (Memᴰ.tail m) = rw (contains-ids t us m) (ground arith)
contains-ids t [] m = elim m [ ]

-- Renumbering keeps ids and parents.
ids-renumber : (k : ℕ) (ts : List Item) → ids (renumber k ts) ≡ ids ts
unfolding renumber
ids-renumber k [] = refl
ids-renumber k (t ∷ ts) = ap (λ xs. t.id ∷ xs) (ids-renumber (k + 1) ts)

of_renumber :
    (k : ℕ) (ts : List Item) (t : Item)
    → Memᴰ t (renumber k ts)
    → (u : Item) × Memᴰ u ts × (u.id ≡ t.id) × (u.parent_id ≡ t.parent_id)
unfolding renumber
of_renumber k [] t m = elim m [ ]
of_renumber k (u ∷ us) t (Memᴰ.head e) =
    (u, Memᴰ.head refl, ap (λ v. v.id) (sym e), ap (λ v. v.parent_id) (sym e))
of_renumber k (u ∷ us) t (Memᴰ.tail m) =
    let (v, m', e, p) = of_renumber (k + 1) us t m in (v, Memᴰ.tail m', e, p)

contains-without :
    (gone : List ℤ) (ts : List Item) (x : ℤ)
    → contains (ids (without gone ts)) x ≡ (contains (ids ts) x && not (contains gone x))
contains-without gone [] x = refl
contains-without gone (t ∷ ts) x = elim (Bool-cases (contains gone t.id)) [
  | inl g ↦ elim (Bool-cases (x == t.id)) [
    | inl e ↦
        let eq : t.id ≡ x = sym ((same_int_iff x t.id).0 e) in
        rw (g, contains-without gone ts x, e, rw eq at g) (ground arith)
    | inr e ↦ rw (g, contains-without gone ts x, e) refl
  ]
  | inr g ↦ elim (Bool-cases (x == t.id)) [
    | inl e ↦ let eq : t.id ≡ x = sym ((same_int_iff x t.id).0 e) in rw (g, e, rw eq at g) refl
    | inr e ↦ rw (g, e) (contains-without gone ts x)
  ]
]

module _ (fuel : ℕ) (id : ℤ) (tasks rest : List Item)
    (h : handle_delete fuel id tasks ≡ some rest) where
  deleted_parts :
      (o : Option (List ℤ))
      → deleted tasks id o ≡ some rest
      → (under : List ℤ) × (o ≡ some under) × (rest ≡ renumber 0 (without (id ∷ under) tasks))
  deleted_parts none k = absurd (cc k)
  deleted_parts (some under) k = (under, refl, cc k)

  parts :
      (under : List ℤ) × (find_descendants fuel tasks id ≡ some under)
      × (rest ≡ renumber 0 (without (id ∷ under) tasks))
  unfolding handle_delete
  parts = deleted_parts (find_descendants fuel tasks id) h

  left :
      (x : ℤ)
      → (under : List ℤ) × (find_descendants fuel tasks id ≡ some under)
        × (contains (ids rest) x ≡ (contains (ids tasks) x && not ((x == id) || contains under x)))
  left x =
      let (under, e, r) = parts in
      (
        under,
        e,
        ap (λ ts. contains (ids ts) x) r
            ∙ ap (λ xs. contains xs x) (ids-renumber 0 (without (id ∷ under) tasks))
            ∙ contains-without (id ∷ under) tasks x,
      )

  -- Where the search for the tasks below the deleted one ends, the deletion leaves exactly the tasks that are
  -- neither the deleted one nor descend from it.
  pub handle_delete-Descends :
      (x : ℤ)
      → (contains (ids rest) x ≡ true)
        ↔ ((contains (ids tasks) x ≡ true) × ((x == id) ≡ false) × (Descends tasks id x → ⊥))
  handle_delete-Descends x =
      let (under, e, r) = left x in
      let (found, all_found) = find_descendants-Descends tasks fuel id under x e in
      (
        λ k.
            let both : (contains (ids tasks) x && not ((x == id) || contains under x)) ≡ true =
              sym r ∙ k in
            (
              ground (arith, both),
              ground (arith, both),
              λ d. let y = all_found d in ground (arith, both, y),
            ),
        λ (k, n, free). elim (Bool-cases (contains under x)) [
          | inl y ↦ absurd (free (found y))
          | inr y ↦ r ∙ rw (k, n, y) refl
        ],
      )

  -- The parent of a task that is left is left.
  kept_parent :
      (a : ℤ) (u : Item)
      → Memᴰ u tasks
      → is_child (some a) u ≡ true
      → contains (ids rest) u.id ≡ true
      → contains (ids tasks) a ≡ true
      → contains (ids rest) a ≡ true
  kept_parent a u m c k there =
      let (_, _, free) = (handle_delete-Descends u.id).0 k in
      (handle_delete-Descends a).1
        (there, other, λ d. free (Descends-further tasks id a u.id u d m c refl))
    where
      other : (a == id) ≡ false
      other = elim (Bool-cases (a == id)) [
        | inl e ↦
            let eq : a ≡ id = (same_int_iff a id).0 e in
            absurd (((handle_delete-Descends u.id).0 k).2 (child u m (rw eq at c) refl))
        | inr e ↦ e
      ]

  -- Where the parent of every task is in the list, and the search for the tasks below the deleted one ends, the
  -- parent of every task that is left is left as well.
  pub handle_delete-HasParents : HasParents tasks → HasParents rest
  handle_delete-HasParents hp =
      All_members (λ t. (a : ℤ) → is_child (some a) t ≡ true → contains (ids rest) a ≡ true) rest
        (λ t m a c.
          let (under, e, r) = parts in
          let (u, m', same, parent) = of_renumber 0 (without (id ∷ under) tasks) t (rw r at m) in
          let (m'', _) = of_filter (λ v. not (contains (id ∷ under) v.id)) tasks m' in
          let c' : is_child (some a) u ≡ true = is_child_same a u t parent c in
          kept_parent a u m'' c' (ap (λ x. contains (ids rest) x) same ∙ contains-ids t rest m) (
            All-at (λ v. (b : ℤ) → is_child (some b) v ≡ true → contains (ids tasks) b ≡ true) tasks
              hp m'' a c'))
