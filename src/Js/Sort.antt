-- ===== src/Js/Sort.antt =====
-- `Array.prototype.sort`: a stable sort by a comparator, of whose number only the sign is read.
use mathlib.Core.List.{Perm}
use mathlib.Core.List.Perm
use gsd.Prelude.{
  ℕ, suc, length, ◌≡◌, refl, Bool, true, false, inl, inr, Option, some, List, [], ◌∷◌, arith, ltb,
  if◌then◌else◌, Bool-cases, filter, All-filter_of, All,
}

-- The sign of a comparator's result; NaN is read as zero.
pub data Sign : Type 0 where
  negative zero positive : Sign

abbrev pub is_positive : Sign → Bool
is_positive positive = true
is_positive _ = false

-- The sign of `a - b`.
abbrev pub sub_sign : ℕ → ℕ → Sign
sub_sign a b = if ltb a b then negative else if ltb b a then positive else zero

abbrev pub sub_number : Option ℕ → Option ℕ → Sign
sub_number (some a) (some b) = sub_sign a b
sub_number _ _ = zero

module _ {ℓ} {A : Type ℓ} (cmp : A → A → Sign) where
  insert : A → List A → List A
  insert x [] = x ∷ []
  insert x (y ∷ ys) = if is_positive (cmp x y) then y ∷ insert x ys else x ∷ y ∷ ys

  unfoldable pub sort : List A → List A
  unfolding insert
  sort [] = []
  sort (x ∷ xs) = insert x (sort xs)

  -- `x` may stand before `y`.
  abbrev pub Before : A → A → Type 0
  Before x y = is_positive (cmp x y) ≡ false

  abbrev pub IsSorted : List A → Type ℓ
  IsSorted [] = Unit
  IsSorted (x ∷ xs) = All (Before x) xs × IsSorted xs

  -- A part of a list in order is in order.
  pub IsSorted-filter : (p : A → Bool) (xs : List A) → IsSorted xs → IsSorted (filter p xs)
  IsSorted-filter p [] h = tt
  IsSorted-filter p (x ∷ xs) (h, hs) = elim (Bool-cases (p x)) [
    | inl e ↦ rw e (All-filter_of (Before x) p xs h, IsSorted-filter p xs hs)
    | inr e ↦ rw e (IsSorted-filter p xs hs)
  ]

  insert-perm : (x : A) (ys : List A) → Perm (insert x ys) (x ∷ ys)
  unfolding insert
  insert-perm x [] = Perm.refl _
  insert-perm x (y ∷ ys) = elim (Bool-cases (is_positive (cmp x y))) [
    | inl h ↦ rw h (Perm.trans (Perm.cons y (insert-perm x ys)) (Perm.swap x y ys))
    | inr h ↦ rw h (Perm.refl _)
  ]

  pub sort-perm : (xs : List A) → Perm (sort xs) xs
  unfolding sort
  sort-perm [] = Perm.refl _
  sort-perm (x ∷ xs) = Perm.trans (insert-perm x (sort xs)) (Perm.cons x (sort-perm xs))

  length-insert : (x : A) (ys : List A) → length (insert x ys) ≡ suc (length ys)
  unfolding insert
  length-insert x [] = refl
  length-insert x (y ∷ ys) = elim (Bool-cases (is_positive (cmp x y))) [
    | inl h ↦ rw (h, length-insert x ys) refl
    | inr h ↦ rw h refl
  ]

  pub length-sort : (xs : List A) → length (sort xs) ≡ length xs
  unfolding sort
  length-sort [] = refl
  length-sort (x ∷ xs) = rw (length-insert x (sort xs), length-sort xs) refl

  module _ {κ} (P : A → Type κ) where
    All-insert : (x : A) (ys : List A) → P x → All P ys → All P (insert x ys)
    unfolding insert
    All-insert x [] p h = (p, tt)
    All-insert x (y ∷ ys) p (q, h) = elim (Bool-cases (is_positive (cmp x y))) [
      | inl e ↦ rw e (q, All-insert x ys p h)
      | inr e ↦ rw e (p, (q, h))
    ]

    pub All-sort : (xs : List A) → All P xs → All P (sort xs)
    unfolding sort
    All-sort [] h = tt
    All-sort (x ∷ xs) (p, h) = All-insert x (sort xs) p (All-sort xs h)

  -- Elements that the comparator does not tell apart keep their order.
  module _ (q : A → Bool) (tied : (x y : A) → q x ≡ true → q y ≡ true → Before x y) where
    filter-insert : (x : A) (ys : List A) → filter q (insert x ys) ≡ filter q (x ∷ ys)
    unfolding insert
    filter-insert x [] = refl
    filter-insert x (y ∷ ys) = ground (arith, filter-insert x ys, tied x y)

    pub filter-sort : (xs : List A) → filter q (sort xs) ≡ filter q xs
    unfolding sort
    filter-sort [] = refl
    filter-sort (x ∷ xs) = ground (arith, filter-insert x (sort xs), filter-sort xs)

  -- Where the comparator is total and transitive, the result is in order.
  module _ {κ} (P : A → Type κ)
      (total : (x y : A) → P x → P y → is_positive (cmp x y) ≡ true → Before y x)
      (transitive : (x y z : A) → P x → P y → P z → Before x y → Before y z → Before x z) where
    All-Before :
        (x y : A) (ys : List A)
        → P x
        → P y
        → All P ys
        → Before x y
        → All (Before y) ys
        → All (Before x) ys
    All-Before x y [] p q r h k = tt
    All-Before x y (z ∷ ys) p q (r, rs) h (k, ks) =
        (transitive x y z p q r h k, All-Before x y ys p q rs h ks)

    insert-IsSorted : (x : A) (ys : List A) → P x → All P ys → IsSorted ys → IsSorted (insert x ys)
    unfolding insert
    insert-IsSorted x [] p h s = (tt, tt)
    insert-IsSorted x (y ∷ ys) p (q, h) (s, ss) = elim (Bool-cases (is_positive (cmp x y))) [
      | inl e ↦ rw e (All-insert (Before y) x ys (total x y p q e) s, insert-IsSorted x ys p h ss)
      | inr e ↦ rw e ((e, All-Before x y ys p q h e s), (s, ss))
    ]

    pub sort-IsSorted : (xs : List A) → All P xs → IsSorted (sort xs)
    unfolding sort
    sort-IsSorted [] h = tt
    sort-IsSorted (x ∷ xs) (p, h) =
        insert-IsSorted x (sort xs) p (All-sort P xs h) (sort-IsSorted xs h)

-- A comparator that never answers a positive number leaves the array as it is.
pub sort-eq_self {ℓ} :
    {A : Type ℓ} (cmp : A → A → Sign)
    → ((x y : A) → Before cmp x y)
    → (xs : List A) → sort cmp xs ≡ xs
unfolding sort
sort-eq_self cmp never [] = refl
sort-eq_self cmp never (x ∷ []) = refl
sort-eq_self cmp never (x ∷ y ∷ ys) = rw (sort-eq_self cmp never (y ∷ ys)) (rw (never x y) refl)
