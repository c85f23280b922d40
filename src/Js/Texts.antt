-- ===== src/Js/Texts.antt =====
-- `startsWith` with `replace` of the prefix, `parseInt`, and the reading of decimal digits.
use Prim.Native.Char.{Char, code}
use Prim.Native.String
use text.Mathlib.TextEquality.{eq_iff}
use gsd.Prelude.{
  ℕ, zero, suc, ◌+◌, ◌-◌, ◌*◌, ◌/◌, ◌%◌, ◌≡◌, ◌<◌, ap, sym, ◌∙◌, ◌&&◌, Bool, true, String, Option,
  none, some, List, [], ◌∷◌, if◌then◌else◌, ◌==◌, nat_eq, string_eq, leb, ltb, Bool-cases, inl, inr,
  arith,
}
use gsd.Js.{digit, decimal_onto, decimal, codes, drop_spaces, is_space}

-- What `startsWith(prefix)` leaves behind the prefix, `none` where the text does not start with it.
unfoldable pub after : String → String → Option String
after String.[] s = some s
after (String.◌∷◌ c p) String.[] = none
after (String.◌∷◌ c p) (String.◌∷◌ d s) =
    let rest = after p s in if code c == code d then rest else none

all_space : List ℕ → Bool
all_space [] = true
all_space (c ∷ s) = is_space c && all_space s

-- `text.trim() === ''`
unfoldable pub is_blank : String → Bool
unfolding all_space codes is_space
is_blank s = all_space (codes s)

is_digit : ℕ → Bool
is_digit c = leb b'0' c && leb c b'9'

-- The number that the digits in front spell.
leading : ℕ → List ℕ → ℕ
leading acc [] = acc
leading acc (c ∷ s) =
    let longer = leading (acc * 10 + (c - b'0')) s in if is_digit c then longer else acc

parse_digits : List ℕ → Option ℕ
parse_digits [] = none
parse_digits (c ∷ s) = if is_digit c then some (leading 0 (c ∷ s)) else none

-- `parseInt(text)`; `none` for NaN. (Signs and hexadecimal numerals lie outside the model's numbers.)
unfoldable pub parse_int : String → Option ℕ
unfolding parse_digits leading is_digit drop_spaces codes is_space
parse_int s = parse_digits (drop_spaces (codes s))

-- What the digits of a text spell, read on from a number.
read : ℕ → String → ℕ
read acc String.[] = acc
read acc (String.◌∷◌ c s) = read (acc * 10 + (code c - b'0')) s

-- One character in front of a text.
read-cons :
    (acc : ℕ) (c : Char) (s : String)
    → read acc (String.◌++◌ (String.◌∷◌ c String.[]) s) ≡ read (acc * 10 + (code c - b'0')) s
unfolding read
read-cons acc c s =
    ap (read acc) (λ i. String.append.cons c String.[] s i)
    ∙ ap (read (acc * 10 + (code c - b'0'))) (λ i. String.append.nil s i)

read-digit :
    (acc d : ℕ) (s : String) → d < 10 → read acc (String.◌++◌ (digit d) s) ≡ read (acc * 10 + d) s
unfolding digit
read-digit acc zero s h = read-cons acc "0" s
read-digit acc (suc zero) s h = read-cons acc "1" s
read-digit acc (suc (suc zero)) s h = read-cons acc "2" s
read-digit acc (suc (suc (suc zero))) s h = read-cons acc "3" s
read-digit acc (suc (suc (suc (suc zero)))) s h = read-cons acc "4" s
read-digit acc (suc (suc (suc (suc (suc zero))))) s h = read-cons acc "5" s
read-digit acc (suc (suc (suc (suc (suc (suc zero)))))) s h = read-cons acc "6" s
read-digit acc (suc (suc (suc (suc (suc (suc (suc zero))))))) s h = read-cons acc "7" s
read-digit acc (suc (suc (suc (suc (suc (suc (suc (suc zero)))))))) s h = read-cons acc "8" s
read-digit acc (suc (suc (suc (suc (suc (suc (suc (suc (suc zero))))))))) s h = read-cons acc "9" s
read-digit acc (suc (suc (suc (suc (suc (suc (suc (suc (suc (suc d)))))))))) s h = ground arith

read-decimal_onto : (fuel n : ℕ) (s : String) → n < fuel → read 0 (decimal_onto fuel n s) ≡ read n s
unfolding decimal_onto
read-decimal_onto zero n s h = ground arith
read-decimal_onto (suc fuel) n s h = elim (Bool-cases (ltb n 10)) [
  | inl e ↦ rw e (read-digit 0 (n % 10) s (omega arith) ∙ ap (λ k. read k s) (ground arith))
  | inr e ↦ rw e (
      read-decimal_onto fuel (n / 10) _ (ground arith)
      ∙ read-digit (n / 10) (n % 10) s (omega arith)
      ∙ ap (λ k. read k s) (omega arith))
]

read-decimal : (n : ℕ) → read 0 (decimal n) ≡ n
unfolding decimal read
read-decimal n = read-decimal_onto (suc n) n "" (omega arith)

pub decimal-inj : (m n : ℕ) → decimal m ≡ decimal n → m ≡ n
decimal-inj m n h = sym (read-decimal m) ∙ ap (read 0) h ∙ read-decimal n

pub null-decimal : (n : ℕ) → "null" ≡ decimal n → ⊥
unfolding read decimal decimal_onto digit
null-decimal n h =
    let spelled : n ≡ 69560 = sym (read-decimal n) ∙ sym (ap (read 0) h) in
    let other : Path String "null" "69560" = rw spelled at h in
    let equal : ◌==◌ {K = String} "null" "69560" ≡ true = (eq_iff "null" "69560").1 other in
    cc equal
