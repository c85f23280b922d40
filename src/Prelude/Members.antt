-- ===== src/Prelude/Members.antt =====
-- Members of a list, and what a filter keeps of them.
use mathlib.Core.List.{Memᴰ}
use gsd.Prelude.{◌≡◌, refl, sym, inl, inr, Bool, true, List, [], ◌∷◌, filter, any, All, Bool-cases}

module _ {ℓ} {A : Type ℓ} where
  pub Memᴰ-filter :
      {x : A} {xs : List A} (p : A → Bool) → Memᴰ x xs → p x ≡ true → Memᴰ x (filter p xs)
  Memᴰ-filter {x} p (Memᴰ.head {x = y} e) h = rw (sym e, h) (Memᴰ.head refl)
  Memᴰ-filter p (Memᴰ.tail {x = y} m) h = elim (Bool-cases (p y)) [
    | inl k ↦ rw k (Memᴰ.tail (Memᴰ-filter p m h))
    | inr k ↦ rw k (Memᴰ-filter p m h)
  ]

  pub of_filter :
      {x : A} (p : A → Bool) (xs : List A) → Memᴰ x (filter p xs) → Memᴰ x xs × (p x ≡ true)
  of_filter p [] m = elim m [ ]
  of_filter {x} p (y ∷ ys) m = elim (Bool-cases (p y)) [
    | inl k ↦ kept k (λ n. of_filter p ys n) (rw k at m)
    | inr k ↦ let (n, h) = of_filter p ys (rw k at m) in (Memᴰ.tail n, h)
  ]
    where
      kept :
          p y ≡ true
          → (Memᴰ x (filter p ys) → Memᴰ x ys × (p x ≡ true))
          → Memᴰ x (y ∷ filter p ys)
          → Memᴰ x (y ∷ ys) × (p x ≡ true)
      kept k below (Memᴰ.head e) = (Memᴰ.head e, rw e k)
      kept k below (Memᴰ.tail n) = let (n', h) = below n in (Memᴰ.tail n', h)

  pub All-at {κ} : (P : A → Type κ) {x : A} (xs : List A) → All P xs → Memᴰ x xs → P x
  All-at P [] h m = elim m [ ]
  All-at P (y ∷ ys) (h, hs) (Memᴰ.head e) = rw e h
  All-at P (y ∷ ys) (h, hs) (Memᴰ.tail m) = All-at P ys hs m

  pub All_members {κ} : (P : A → Type κ) (xs : List A) → ((x : A) → Memᴰ x xs → P x) → All P xs
  All_members P [] f = tt
  All_members P (x ∷ xs) f = (f x (Memᴰ.head refl), All_members P xs (λ y m. f y (Memᴰ.tail m)))

  pub any-at : {x : A} {xs : List A} (p : A → Bool) → Memᴰ x xs → p x ≡ true → any p xs ≡ true
  any-at p (Memᴰ.head e) h = rw (sym e, h) refl
  any-at p (Memᴰ.tail {x = y} m) h = elim (Bool-cases (p y)) [
    | inl k ↦ rw k refl
    | inr k ↦ rw (k, any-at p m h) refl
  ]

  pub any_member :
      (p : A → Bool) (xs : List A) → any p xs ≡ true → (x : A) × Memᴰ x xs × (p x ≡ true)
  any_member p [] h = absurd (cc h)
  any_member p (x ∷ xs) h = elim (Bool-cases (p x)) [
    | inl k ↦ (x, Memᴰ.head refl, k)
    | inr k ↦ let (y, m, h') = any_member p xs (rw k at h) in (y, Memᴰ.tail m, h')
  ]
