-- ===== src/SubTasks/Descendants.antt =====
-- What the recursion over the parents finds, handleDelete in ui/src/views/components/SubTask.jsx.
use mathlib.Core.List.{Memᴰ}
use gsd.Prelude.{
  ℕ, zero, suc, ◌+◌, ◌≤◌, ◌<◌, ◌≡◌, refl, sym, ap, ◌∙◌, ◌↔◌, ◌⊎◌, inl, inr, true, Option, none,
  some, List, [], ◌∷◌, ◌++◌, ◌==◌, ◌||◌, arith, Bool-cases, All,
}
use gsd.Prelude.Int.{ℤ, int_eq, same_int_iff}
use gsd.Prelude.Members.{Memᴰ-filter, of_filter, All-at, All_members}
use gsd.Prelude.Partition.{contains, contains-append}
use gsd.SubTasks.{Item, is_child, children, with_below, collect, find_descendants}

-- `x` is a child of `a` in the list, or stands below one.
pub data Descends (tasks : List Item) : ℤ → ℤ → Type 0 where
  child :
      {a x : ℤ} (t : Item)
      → Memᴰ t tasks
      → is_child (some a) t ≡ true
      → t.id ≡ x
      → Descends tasks a x
  deeper :
      {a x : ℤ} (t : Item)
      → Memᴰ t tasks
      → is_child (some a) t ≡ true
      → Descends tasks t.id x
      → Descends tasks a x

-- Of a child and what is found below it.
abbrev Traced : (ℤ → Option (List ℤ)) → Item → ℤ → Type 0
Traced find c x = (c.id ≡ x) ⊎ ((ds : List ℤ) × (find c.id ≡ some ds) × (contains ds x ≡ true))

module _ (find : ℤ → Option (List ℤ)) where
  with_below_parts :
      (id : ℤ) (o p : Option (List ℤ)) (ds : List ℤ)
      → with_below id o p ≡ some ds
      → (below : List ℤ) × (rest : List ℤ) × (o ≡ some below)
        × (p ≡ some rest)
        × (ds ≡ id ∷ below ++ rest)
  unfolding with_below
  with_below_parts id (some below) (some rest) ds h = (below, rest, refl, refl, cc h)
  with_below_parts id (some below) none ds h = absurd (cc h)
  with_below_parts id none p ds h = absurd (cc h)

  with_below-contains :
      (id : ℤ) (below rest : List ℤ) (x : ℤ)
      → contains (id ∷ below ++ rest) x ≡ ((x == id) || (contains below x || contains rest x))
  with_below-contains id below rest x = rw (contains-append below rest x) refl

  with_below-here :
      (c : Item) (cs : List Item) (ds : List ℤ) (x : ℤ)
      → collect find (c ∷ cs) ≡ some ds
      → (below : List ℤ) × (rest : List ℤ) × (find c.id ≡ some below)
        × (collect find cs ≡ some rest)
        × (contains ds x ≡ ((x == c.id) || (contains below x || contains rest x)))
  unfolding collect
  with_below-here c cs ds x h =
      let (below, rest, e, r, d) = with_below_parts c.id (find c.id) (collect find cs) ds h in
      (below, rest, e, r, ap (λ xs. contains xs x) d ∙ with_below-contains c.id below rest x)

  -- Everything found comes from one of the children.
  collect-Traced :
      (cs : List Item) (ds : List ℤ) (x : ℤ)
      → collect find cs ≡ some ds
      → contains ds x ≡ true
      → (c : Item) × Memᴰ c cs × Traced find c x
  unfolding collect
  collect-Traced [] [] x h k = absurd (cc k)
  collect-Traced [] (_ ∷ _) x h k = absurd (cc h)
  collect-Traced (c ∷ cs) ds x h k =
      let (below, rest, e, r, d) = with_below-here c cs ds x h in
      elim (Bool-cases (x == c.id)) [
        | inl same ↦ (c, Memᴰ.head refl, inl (sym ((same_int_iff x c.id).0 same)))
        | inr other ↦ elim (Bool-cases (contains below x)) [
          | inl found ↦ (c, Memᴰ.head refl, inr (below, e, found))
          | inr none_below ↦
              let (c', m, t) = collect-Traced cs rest x r (rw (d, other, none_below) at k) in
              (c', Memᴰ.tail m, t)
        ]
      ]

  -- And of every child all is found.
  Traced-collect :
      (cs : List Item) (ds : List ℤ) (x : ℤ) (c : Item)
      → collect find cs ≡ some ds
      → Memᴰ c cs
      → Traced find c x
      → contains ds x ≡ true
  Traced-collect [] ds x c' h m t = elim m [ ]
  Traced-collect (c ∷ cs) ds x c' h (Memᴰ.head same) (inl e) =
      let (below, rest, f, r, d) = with_below-here c cs ds x h in
      let here : (x == c.id) ≡ true = (same_int_iff x c.id).1 (sym e ∙ ap (λ t. t.id) same) in
      rw (d, here) refl
  Traced-collect (c ∷ cs) ds x c' h (Memᴰ.head same) (inr (under, e, k)) =
      let (below, rest, f, r, d) = with_below-here c cs ds x h in
      let eq : under ≡ below = cc (rw same at e, f) in rw (d, rw eq at k) (ground arith)
  Traced-collect (c ∷ cs) ds x c' h (Memᴰ.tail m) t =
      let (below, rest, f, r, d) = with_below-here c cs ds x h in
      rw (d, Traced-collect cs rest x c' r m t) (ground arith)

  collect-ends :
      (cs : List Item) (ds : List ℤ) (c : Item)
      → collect find cs ≡ some ds
      → Memᴰ c cs
      → (under : List ℤ) × (find c.id ≡ some under)
  collect-ends [] ds c' h m = elim m [ ]
  collect-ends (c ∷ cs) ds c' h (Memᴰ.head same) =
      let (below, rest, f, r, d) = with_below-here c cs ds c.id h in (below, rw same f)
  collect-ends (c ∷ cs) ds c' h (Memᴰ.tail m) =
      let (below, rest, f, r, d) = with_below-here c cs ds c.id h in collect-ends cs rest c' r m

  collect_enough :
      (cs : List Item)
      → All (λ c. (ds : List ℤ) × (find c.id ≡ some ds)) cs
      → (ds : List ℤ) × (collect find cs ≡ some ds)
  unfolding collect with_below
  collect_enough [] h = ([], refl)
  collect_enough (c ∷ cs) ((below, e), h) =
      let (rest, r) = collect_enough cs h in (c.id ∷ below ++ rest, rw (e, r) refl)

module _ (tasks : List Item) where
  Descends-child :
      (a x : ℤ) (t : Item) (ds : Option (List ℤ))
      → Memᴰ t tasks
      → is_child (some a) t ≡ true
      → ((under : List ℤ) → ds ≡ some under → contains under x ≡ true → Descends tasks t.id x)
      → (t.id ≡ x) ⊎ ((under : List ℤ) × (ds ≡ some under) × (contains under x ≡ true))
      → Descends tasks a x
  Descends-child a x t ds m h f (inl e) = child t m h e
  Descends-child a x t ds m h f (inr (under, e, k)) = deeper t m h (f under e k)

  found-Descends :
      (fuel : ℕ) (a : ℤ) (ds : List ℤ) (x : ℤ)
      → find_descendants fuel tasks a ≡ some ds
      → contains ds x ≡ true
      → Descends tasks a x
  unfolding find_descendants
  found-Descends zero a ds x h k = absurd (cc h)
  found-Descends (suc fuel) a ds x h k =
      let (c, m, t) = collect-Traced (find_descendants fuel tasks) (children tasks a) ds x h k in
      let (m', p) = of_filter (is_child (some a)) tasks m in
      Descends-child a x c (find_descendants fuel tasks c.id) m' p
        (λ under e k'. found-Descends fuel c.id under x e k') t

  -- A child is in the list that is found, with what was found below it.
  at_child :
      (fuel : ℕ) (a : ℤ) (ds : List ℤ) (t : Item)
      → find_descendants (suc fuel) tasks a ≡ some ds
      → Memᴰ t tasks
      → is_child (some a) t ≡ true
      → (x : ℤ) → Traced (find_descendants fuel tasks) t x
      → contains ds x ≡ true
  unfolding find_descendants
  at_child fuel a ds t h m p x found =
      Traced-collect (find_descendants fuel tasks) (children tasks a) ds x t h
        (Memᴰ-filter (is_child (some a)) m p) found

  out_of_fuel : (a : ℤ) (ds : List ℤ) → find_descendants zero tasks a ≡ some ds → ⊥
  unfolding find_descendants
  out_of_fuel a ds h = cc h

  child-ends :
      (fuel : ℕ) (a : ℤ) (ds : List ℤ) (t : Item)
      → find_descendants (suc fuel) tasks a ≡ some ds
      → Memᴰ t tasks
      → is_child (some a) t ≡ true
      → (under : List ℤ) × (find_descendants fuel tasks t.id ≡ some under)
  unfolding find_descendants
  child-ends fuel a ds t h m p =
      collect-ends (find_descendants fuel tasks) (children tasks a) ds t h
        (Memᴰ-filter (is_child (some a)) m p)

  Descends-found :
      (fuel : ℕ) (a : ℤ) (ds : List ℤ) (x : ℤ)
      → find_descendants fuel tasks a ≡ some ds
      → Descends tasks a x
      → contains ds x ≡ true
  Descends-found zero a ds x h d = absurd (out_of_fuel a ds h)
  Descends-found (suc fuel) a ds x h (child t m p e) = at_child fuel a ds t h m p x (inl e)
  Descends-found (suc fuel) a ds x h (deeper t m p d) =
      let (under, e) = child-ends fuel a ds t h m p in
      at_child fuel a ds t h m p x (inr (under, e, Descends-found fuel t.id under x e d))

  -- Where the recursion ends, it finds exactly what descends from the task.
  pub find_descendants-Descends :
      (fuel : ℕ) (a : ℤ) (ds : List ℤ) (x : ℤ)
      → find_descendants fuel tasks a ≡ some ds
      → (contains ds x ≡ true) ↔ Descends tasks a x
  find_descendants-Descends fuel a ds x h =
      (found-Descends fuel a ds x h, Descends-found fuel a ds x h)

-- A child of the last is below the first.
pub Descends-further :
    (tasks : List Item) (a b x : ℤ) (t : Item)
    → Descends tasks a b
    → Memᴰ t tasks
    → is_child (some b) t ≡ true
    → t.id ≡ x
    → Descends tasks a x
Descends-further tasks a b x t (child u m h e) m' h' e' =
    let eq : b ≡ u.id = sym e in deeper u m h (child t m' (rw eq at h') e')
Descends-further tasks a b x t (deeper u m h d) m' h' e' =
    deeper u m h (Descends-further tasks u.id b x t d m' h' e')

-- A measure that every parent's is below its child's, none of them above `n`.
abbrev pub IsMeasured : (ℤ → ℕ) → ℕ → List Item → Type 0
IsMeasured depth n tasks =
    All (λ t. (depth t.id ≤ n) × ((a : ℤ) → is_child (some a) t ≡ true → depth a < depth t.id))
      tasks

module _ (depth : ℤ → ℕ) (n : ℕ) (tasks : List Item) (measured : IsMeasured depth n tasks) where
  enough :
      (fuel : ℕ) (a : ℤ)
      → depth a ≤ n
      → n < fuel + depth a
      → (ds : List ℤ) × (find_descendants fuel tasks a ≡ some ds)
  unfolding find_descendants
  enough zero a le lt = absurd (omega (arith, le, lt))
  enough (suc fuel) a le lt = collect_enough (find_descendants fuel tasks) (children tasks a) (
      All_members (λ c. (ds : List ℤ) × (find_descendants fuel tasks c.id ≡ some ds))
        (children tasks a)
        (λ c m.
          let (m', p) = of_filter (is_child (some a)) tasks m in
          let (bound, deeper_than) =
            All-at
              (λ t.
                (depth t.id ≤ n) × ((b : ℤ) → is_child (some b) t ≡ true → depth b < depth t.id))
              tasks measured m' in
          enough fuel c.id bound (let q = deeper_than a p in omega (arith, q, lt))))

  -- Where a measure rises from every task to its children and never above `n`, and that of the task is at most
  -- `n`, the recursion ends: its calls are nested at most `n + 1` deep.
  pub find_descendants_enough :
      (a : ℤ) → depth a ≤ n → (ds : List ℤ) × (find_descendants (suc n) tasks a ≡ some ds)
  find_descendants_enough a le = enough (suc n) a le (omega arith)
