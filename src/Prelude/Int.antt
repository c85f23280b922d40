-- ===== src/Prelude/Int.antt =====
-- The integers over the native numbers.
use gsd.Prelude.{
  ℕ, ◌+◌, ◌-◌, ◌*◌, ◌≡◌, ◌↔◌, ap, Bool, true, false, if◌then◌else◌, ltb, Eq, ◌==◌, nat_eq,
  nat_beq_iff,
}

pub data ℤ : Type 0 where
  pos negsuc : ℕ → ℤ

infixl 60 ◌+ℤ◌
unfoldable pub ◌+ℤ◌ : ℤ → ℤ → ℤ
pos a +ℤ pos b = pos (a + b)
pos a +ℤ negsuc b = if ltb b a then pos (a - b - 1) else negsuc (b - a)
negsuc a +ℤ pos b = if ltb a b then pos (b - a - 1) else negsuc (a - b)
negsuc a +ℤ negsuc b = negsuc (a + b + 1)

-- The product with a number from 0 up.
unfoldable pub scale : ℤ → ℕ → ℤ
scale (pos a) k = pos (a * k)
scale (negsuc a) k = if ltb 0 k then negsuc ((a + 1) * k - 1) else pos 0

abbrev pub abs : ℤ → ℕ
abs (pos a) = a
abs (negsuc a) = a + 1

abbrev pub is_negative : ℤ → Bool
is_negative (pos a) = false
is_negative (negsuc a) = true

abbrev same_int : ℤ → ℤ → Bool
same_int (pos a) (pos b) = a == b
same_int (negsuc a) (negsuc b) = a == b
same_int _ _ = false

pub same_int_iff : (a b : ℤ) → (same_int a b ≡ true) ↔ (a ≡ b)
same_int_iff (pos a) (pos b) =
    (λ h. ap pos ((nat_beq_iff a b).0 h), λ h. (nat_beq_iff a b).1 (cc h))
same_int_iff (negsuc a) (negsuc b) =
    (λ h. ap negsuc ((nat_beq_iff a b).0 h), λ h. (nat_beq_iff a b).1 (cc h))
same_int_iff (pos a) (negsuc b) = (λ h. cc h, λ h. cc h)
same_int_iff (negsuc a) (pos b) = (λ h. cc h, λ h. cc h)

instance abbrev pub int_eq : Eq ℤ
int_eq = record { test = same_int; test_iff = same_int_iff }
