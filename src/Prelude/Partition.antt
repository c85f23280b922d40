-- ===== src/Prelude/Partition.antt =====
-- Splitting a list by a key: the parts for distinct keys make up the list again.
use mathlib.Core.List.{Perm, perm_middle}
use mathlib.Core.List.Perm
use gsd.Prelude.{
  ◌≡◌, refl, Bool, true, false, inl, inr, List, [], ◌∷◌, ◌++◌, Bool-cases, Eq, ◌==◌, filter, any,
  any-append, ◌||◌, All,
}

-- `flatMap`
abbrev pub flat {ℓ κ} : {A : Type ℓ} {B : Type κ} → (A → List B) → List A → List B
flat f [] = []
flat f (x ∷ xs) = f x ++ flat f xs

abbrev pub contains {ℓ} : {K : Type ℓ} ⦃e : Eq K⦄ → List K → K → Bool
contains ks k = any (λ j. k == j) ks

abbrev pub IsDistinct {ℓ} : {K : Type ℓ} ⦃e : Eq K⦄ → List K → Type 0
IsDistinct [] = Unit
IsDistinct (k ∷ ks) = (contains ks k ≡ false) × IsDistinct ks

pub contains-append {ℓ} :
    {K : Type ℓ} ⦃e : Eq K⦄ (xs ys : List K) (k : K)
    → contains (xs ++ ys) k ≡ (contains xs k || contains ys k)
contains-append xs ys k = any-append (λ j. k == j) xs ys

module _ {ℓ κ} {A : Type ℓ} {K : Type κ} ⦃e : Eq K⦄ (class : A → K) where
  abbrev pub part : List A → K → List A
  part xs k = filter (λ x. class x == k) xs

  flat-part-nil : (ks : List K) → flat (part []) ks ≡ []
  flat-part-nil [] = refl
  flat-part-nil (k ∷ ks) = flat-part-nil ks

  flat-part-absent :
      (x : A) (xs : List A) (ks : List K)
      → contains ks (class x) ≡ false
      → flat (part (x ∷ xs)) ks ≡ flat (part xs) ks
  flat-part-absent x xs [] h = refl
  flat-part-absent x xs (k ∷ ks) h = elim (Bool-cases (class x == k)) [
    | inl p ↦ let e : true ≡ false = rw p at h in cc e
    | inr p ↦ rw (p, flat-part-absent x xs ks (rw p at h))
  ]

  flat-part-cons :
      (x : A) (xs : List A) (ks : List K)
      → contains ks (class x) ≡ true
      → IsDistinct ks
      → Perm (flat (part (x ∷ xs)) ks) (x ∷ flat (part xs) ks)
  flat-part-cons x xs [] h d = absurd (cc h)
  flat-part-cons x xs (k ∷ ks) h (n, d) = elim (Bool-cases (class x == k)) [
    | inl p ↦
        let same : class x ≡ k = (e.test_iff _ _).0 p in
        rw (p, flat-part-absent x xs ks (rw same n)) (Perm.refl _)
    | inr p ↦ rw p (
        Perm.trans (Perm.append (Perm.refl (part xs k)) (flat-part-cons x xs ks (rw p at h) d))
          (perm_middle (part xs k) (flat (part xs) ks)))
  ]

  -- Every element stands in exactly one part.
  pub flat-part-perm :
      (xs : List A) (ks : List K)
      → All (λ x. contains ks (class x) ≡ true) xs
      → IsDistinct ks
      → Perm (flat (part xs) ks) xs
  flat-part-perm [] ks h d = rw (flat-part-nil ks) (Perm.refl _)
  flat-part-perm (x ∷ xs) ks (p, h) d =
      Perm.trans (flat-part-cons x xs ks p d) (Perm.cons x (flat-part-perm xs ks h d))
