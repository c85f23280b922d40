-- ===== src/Js.antt =====
-- The values of the language that the client's code compares and converts: `===`, truthiness,
-- `String(x)`, `Number(x)` and arrays of scalars. Numbers are the integers from 0 up; NaN is `none`.
pub mod Calls
pub mod Fields
pub mod Objects
pub mod Sort
pub mod Texts
mod Tests
use Prim.Native.Char.{code}
use Prim.Native.String
use gsd.Prelude.{
  ℕ, zero, suc, ◌+◌, ◌-◌, ◌*◌, ◌/◌, ◌%◌, String, ◌≡◌, refl, ap, ◌↔◌, Bool, true, false, not, ◌&&◌,
  ◌||◌, Option, none, some, List, [], ◌∷◌, ltb, leb, if◌then◌else◌, Eq, ◌==◌, nat_beq_iff, arith,
  string_eq, nat_eq,
}
use mathlib.Core.List.{reverse}
use text.Mathlib.TextEquality.{eq_iff}

pub data Scalar : Type 0 where
  undefined null : Scalar
  boolean : Bool → Scalar
  num : ℕ → Scalar
  str : String → Scalar

-- A field of a stored condition holds a scalar or an array of scalars.
pub data Value : Type 0 where
  one : Scalar → Value
  many : List Scalar → Value

abbrev same_bool : Bool → Bool → Bool
same_bool true b = b
same_bool false b = not b

-- `===` (there is no NaN among the scalars).
abbrev pub same : Scalar → Scalar → Bool
same undefined undefined = true
same null null = true
same (boolean a) (boolean b) = same_bool a b
same (num a) (num b) = a == b
same (str a) (str b) = a == b
same _ _ = false

same-eq : (a b : Scalar) → same a b ≡ true → a ≡ b
same-eq undefined undefined h = refl
same-eq null null h = refl
same-eq (boolean true) (boolean true) h = refl
same-eq (boolean false) (boolean false) h = refl
same-eq (num a) (num b) h = ap num ((nat_beq_iff a b).0 h)
same-eq (str a) (str b) h = ap str ((eq_iff a b).0 h)
same-eq _ _ h = cc

same_self : (a : Scalar) → same a a ≡ true
same_self undefined = refl
same_self null = refl
same_self (boolean true) = refl
same_self (boolean false) = refl
same_self (num a) = (nat_beq_iff a a).1 refl
same_self (str a) = (eq_iff a a).1 refl

pub same_iff : (a b : Scalar) → (same a b ≡ true) ↔ (a ≡ b)
same_iff a b = (same-eq a b, λ e. rw e (same_self b))

instance abbrev pub scalar_eq : Eq Scalar
scalar_eq = record { test = same; test_iff = same_iff }

abbrev pub truthy : Scalar → Bool
truthy undefined = false
truthy null = false
truthy (boolean b) = b
truthy (num n) = not (n == 0)
truthy (str s) = not (s == "")

-- `a || b`, as a value.
abbrev pub or_else : Scalar → Scalar → Scalar
or_else a b = if truthy a then a else b

digit : ℕ → String
digit d =
    if d == 0
    then "0"
    else if d == 1
    then "1"
    else if d == 2
    then "2"
    else if d == 3
    then "3"
    else if d == 4
    then "4"
    else if d == 5
    then "5"
    else if d == 6
    then "6"
    else if d == 7
    then "7"
    else if d == 8
    then "8"
    else "9"

-- The decimal digits of a number, in front of a text. The number itself is fuel enough.
decimal_onto : ℕ → ℕ → String → String
decimal_onto zero n s = s
decimal_onto (suc fuel) n s =
    let text = String.◌++◌ (digit (n % 10)) s in
    let longer = decimal_onto fuel (n / 10) text in if ltb n 10 then text else longer

unfoldable pub decimal : ℕ → String
unfolding decimal_onto digit
decimal n = decimal_onto (suc n) n ""

-- `String(x)`.
unfoldable pub to_text : Scalar → String
unfolding decimal
to_text undefined = "undefined"
to_text null = "null"
to_text (boolean true) = "true"
to_text (boolean false) = "false"
to_text (num n) = decimal n
to_text (str s) = s

-- White space, as `Number` and `trim` strip it.
is_space : ℕ → Bool
is_space c =
    (leb 9 c && leb c 13)
    || c == 32
    || c == 160
    || c == 5760
    || (leb 8192 c && leb c 8202)
    || c == 8232
    || c == 8233
    || c == 8239
    || c == 8287
    || c == 12288
    || c == 65279

codes : String → List ℕ
codes String.[] = []
codes (String.◌∷◌ c s) = code c ∷ codes s

drop_spaces : List ℕ → List ℕ
drop_spaces [] = []
drop_spaces (c ∷ s) = if is_space c then drop_spaces s else c ∷ s

digits_value : ℕ → List ℕ → Option ℕ
digits_value acc [] = some acc
digits_value acc (c ∷ s) =
    let rest = digits_value (acc * 10 + (c - b'0')) s in
    if leb b'0' c && leb c b'9' then rest else none

-- `Number(text)`: a numeral between white space, 0 for a blank text, NaN otherwise. (Signs,
-- fractions, exponents and other radices lie outside the model's numbers.)
unfoldable pub number_of_text : String → Option ℕ
unfolding digits_value drop_spaces codes is_space
number_of_text s = digits_value 0 (reverse (drop_spaces (reverse (drop_spaces (codes s)))))

-- `Number(x)`.
unfoldable pub to_number : Scalar → Option ℕ
unfolding number_of_text
to_number undefined = none
to_number null = some 0
to_number (boolean true) = some 1
to_number (boolean false) = some 0
to_number (num n) = some n
to_number (str s) = number_of_text s

-- An array turned into text joins its elements, the missing ones as empty texts.
abbrev joined : Scalar → String
joined undefined = ""
joined null = ""
joined x = to_text x

join : List Scalar → String
join [] = ""
join (x ∷ []) = joined x
join (x ∷ y ∷ xs) = String.◌++◌ (joined x) (String.◌++◌ "," (join (y ∷ xs)))

unfoldable pub value_text : Value → String
unfolding join to_text
value_text (one x) = to_text x
value_text (many xs) = join xs

unfoldable pub value_number : Value → Option ℕ
unfolding to_number value_text
value_number (one x) = to_number x
value_number (many xs) = number_of_text (value_text (many xs))

-- `Array.isArray(v) ? v : [v]`.
abbrev pub as_array : Value → List Scalar
as_array (one x) = x ∷ []
as_array (many xs) = xs

-- Comparisons of numbers: false where one of them is NaN.
abbrev pub compare_by : (ℕ → ℕ → Bool) → Option ℕ → Option ℕ → Bool
compare_by test (some a) (some b) = test a b
compare_by test _ _ = false

abbrev pub eq_number : Option ℕ → Option ℕ → Bool
eq_number = compare_by ◌==◌

abbrev pub lt_number : Option ℕ → Option ℕ → Bool
lt_number = compare_by ltb

abbrev pub le_number : Option ℕ → Option ℕ → Bool
le_number = compare_by leb
