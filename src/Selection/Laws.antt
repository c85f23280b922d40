-- ===== src/Selection/Laws.antt =====
-- Sets of ids, and the toggling of a task.
use gsd.Prelude.{
  ◌≡◌, refl, ◌∙◌, false, not, ◌&&◌, ◌||◌, List, [], ◌∷◌, ◌++◌, if◌then◌else◌, ◌==◌, arith,
  Bool-cases, inl, inr,
}
use gsd.Prelude.Partition.{contains, contains-append, IsDistinct}
use gsd.Js.{Scalar, scalar_eq, same_iff}
use gsd.Selection.{Selection, add, delete, add_all, toggle_chore_selection}

contains-add :
    (x : Scalar) (s : List Scalar) (y : Scalar) → contains (add x s) y ≡ (contains s y || (y == x))
contains-add x s y = elim (Bool-cases (contains s x)) [
  | inl e ↦ elim (Bool-cases (y == x)) [
    | inl same ↦ let eq : y ≡ x = (same_iff y x).0 same in rw (e, eq, e) refl
    | inr other ↦ rw (e, other) (ground arith)
  ]
  | inr e ↦ rw (e, contains-append s (x ∷ []) y) (ground arith)
]

contains-delete :
    (x : Scalar) (s : List Scalar) (y : Scalar)
    → contains (delete x s) y ≡ (contains s y && not (y == x))
contains-delete x [] y = refl
contains-delete x (z ∷ s) y =
    ground (arith, contains-delete x s y, same_iff x z, same_iff y z, same_iff y x)

IsDistinct-append :
    (s : List Scalar) (x : Scalar) → IsDistinct s → contains s x ≡ false → IsDistinct (s ++ x ∷ [])
IsDistinct-append [] x d h = (refl, tt)
IsDistinct-append (z ∷ s) x (a, d) h = (
  rw (contains-append s (x ∷ []) z) (ground (arith, same_iff z x, same_iff x z)),
  IsDistinct-append s x d (ground arith),
)

add-IsDistinct : (x : Scalar) (s : List Scalar) → IsDistinct s → IsDistinct (add x s)
add-IsDistinct x s d = elim (Bool-cases (contains s x)) [
  | inl e ↦ rw e d
  | inr e ↦ rw e (IsDistinct-append s x d e)
]

delete-IsDistinct : (x : Scalar) (s : List Scalar) → IsDistinct s → IsDistinct (delete x s)
delete-IsDistinct x [] d = tt
delete-IsDistinct x (z ∷ s) (a, d) = elim (Bool-cases (x == z)) [
  | inl e ↦ rw e (delete-IsDistinct x s d)
  | inr e ↦ rw e (rw (contains-delete x s z, a) refl, delete-IsDistinct x s d)
]

-- Toggling a task changes whether it is selected, leaves the other tasks as they are, and no id is
-- held twice.
pub toggle_chore_selection_lem :
    (id : Scalar) (s : Selection)
    → IsDistinct s.selected
    → IsDistinct (toggle_chore_selection id s).selected
      × ((y : Scalar)
          → contains (toggle_chore_selection id s).selected y
            ≡ (if y == id then not (contains s.selected y) else contains s.selected y))
unfolding toggle_chore_selection
toggle_chore_selection_lem id s d = elim (Bool-cases (contains s.selected id)) [
  | inl e ↦ rw e (
    delete-IsDistinct id s.selected d,
    λ y. contains-delete id s.selected y ∙ ground (arith, same_iff y id),
  )
  | inr e ↦ rw e (
    IsDistinct-append s.selected id d e,
    λ y. contains-append s.selected (id ∷ []) y ∙ ground (arith, same_iff y id),
  )
]

pub contains-add_all :
    (s xs : List Scalar) (y : Scalar) → contains (add_all s xs) y ≡ (contains s y || contains xs y)
unfolding add_all
contains-add_all s [] y = ground arith
contains-add_all s (x ∷ xs) y =
    contains-add_all (add x s) xs y ∙ rw (contains-add x s y) (ground arith)

add_all-IsDistinct : (s xs : List Scalar) → IsDistinct s → IsDistinct (add_all s xs)
unfolding add_all
add_all-IsDistinct s [] d = d
add_all-IsDistinct s (x ∷ xs) d = add_all-IsDistinct (add x s) xs (add-IsDistinct x s d)
