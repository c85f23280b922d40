-- ===== src/Js/Calls.antt =====
-- A call that returns a value or throws a TypeError.
use gsd.Prelude.{Bool, true, false, List, [], ◌∷◌, if◌then◌else◌}

pub data Call {ℓ} (A : Type ℓ) : Type ℓ where
  returns : A → Call A
  throws : Call A

infixl 5 ◌>>=◌
abbrev pub ◌>>=◌ {ℓ κ} : {A : Type ℓ} {B : Type κ} → Call A → (A → Call B) → Call B
returns a >>= f = f a
throws >>= f = throws

abbrev pub map_call {ℓ κ} : {A : Type ℓ} {B : Type κ} → (A → B) → Call A → Call B
map_call f (returns a) = returns (f a)
map_call f throws = throws

-- `some`, `every` and `filter` of an array with a callback that may throw.
module _ {ℓ} {A : Type ℓ} (p : A → Call Bool) where
  unfoldable pub some_call : List A → Call Bool
  some_call [] = returns false
  some_call (x ∷ xs) = do b ← p x; if b then returns true else some_call xs

  unfoldable pub every_call : List A → Call Bool
  every_call [] = returns true
  every_call (x ∷ xs) = do b ← p x; if b then every_call xs else returns false

  unfoldable pub filter_call : List A → Call (List A)
  filter_call [] = returns []
  filter_call (x ∷ xs) = do b ← p x; rest ← filter_call xs; returns (if b then x ∷ rest else rest)
