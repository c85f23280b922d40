-- ===== src/Users/Laws.antt =====
-- The names of child users are taken apart again.
use Prim.Native.Char.{Char, code}
use Prim.Native.String.append
use Prim.Native.String
use text.Mathlib.TextEquality.{Char-path}
use gsd.Prelude.{
  ◌≡◌, refl, ap, sym, ◌∙◌, nat_beq_iff, false, inl, inr, String, List, [], ◌∷◌, ◌==◌, nat_eq,
  string_eq, Bool-cases,
}
use gsd.Js.{scalar_eq}
use gsd.Users.{
  split, join, get_child_username_from_combined, get_parent_username_from_combined,
  build_child_username,
}

-- No underscore stands in the text.
abbrev pub IsPlain : String → Type 0
IsPlain String.[] = Unit
IsPlain (String.◌∷◌ c s) = (code c == b'_' ≡ false) × IsPlain s

nil-append : (t : String) → String.◌++◌ "" t ≡ t
nil-append t = λ i. append.nil t i

cons-append :
    (c : Char) (s t : String) → String.◌++◌ (String.◌∷◌ c s) t ≡ String.◌∷◌ c (String.◌++◌ s t)
cons-append c s t = λ i. append.cons c s t i

underscore-append : (t : String) → String.◌++◌ "_" t ≡ String.◌∷◌ "_" t
underscore-append t = cons-append "_" "" t ∙ ap (String.◌∷◌ "_") (nil-append t)

cons-join :
    (c : Char) (s : String) (t : List String)
    → join (String.◌∷◌ c s ∷ t) ≡ String.◌∷◌ c (join (s ∷ t))
unfolding join
cons-join c s [] = refl
cons-join c s (u ∷ t) = cons-append c s (String.◌++◌ "_" (join (u ∷ t)))

underscore-join : (s : String) (t : List String) → join ("" ∷ s ∷ t) ≡ String.◌∷◌ "_" (join (s ∷ t))
unfolding join
underscore-join s t = nil-append _ ∙ underscore-append (join (s ∷ t))

join-split : (s : String) → join ((split s).0 ∷ (split s).1) ≡ s
unfolding split
join-split String.[] = join_nil
  where
    join_nil : join ("" ∷ []) ≡ ""
    join_nil = unfold join in refl
join-split (String.◌∷◌ c s) = elim (Bool-cases (code c == b'_')) [
  | inl e ↦
      let same : c ≡ "_" = Char-path c "_" ((nat_beq_iff (code c) 95).0 e) in
      rw (e, split)
        (underscore-join (split s).0 (split s).1 ∙ (λ i. String.◌∷◌ (sym same i) (join-split s i)))
  | inr e ↦ rw (e, split) (cons-join c (split s).0 (split s).1 ∙ ap (String.◌∷◌ c) (join-split s))
]

split-build :
    (p c : String) → IsPlain p → split (build_child_username p c) ≡ (p, (split c).0 ∷ (split c).1)
unfolding split build_child_username
split-build String.[] c h = ap split (nil-append (String.◌++◌ "_" c) ∙ underscore-append c)
split-build (String.◌∷◌ d p) c (e, h) =
    ap split (cons-append d p (String.◌++◌ "_" c)) ∙ rw (e, split) (rw (split-build p c h) refl)

-- The name of a child is read back from the combined name, and so is that of the parent, if it is not
-- empty: the parent's name holds no underscore, the child's may.
pub get_usernames-build_child_username :
    (p c : String)
    → IsPlain p
    → (p == "" ≡ false)
    → (get_child_username_from_combined (build_child_username p c) ≡ c)
      × (get_parent_username_from_combined (build_child_username p c) ≡ p)
unfolding get_child_username_from_combined get_parent_username_from_combined
get_usernames-build_child_username p c h k = rw (split-build p c h) (join-split c, rw k refl)
