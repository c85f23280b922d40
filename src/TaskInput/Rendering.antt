-- ===== src/TaskInput/Rendering.antt =====
-- The highlights of a sentence lose none of it.
use mathlib.Core.List.{append_assoc, append-nil}
use gsd.Prelude.{
  ℕ, zero, suc, ◌-◌, ◌≤◌, ◌≡◌, refl, sym, ap, ◌∙◌, inl, inr, List, [], ◌∷◌, ◌++◌, ltb, length, drop,
  take-append-drop, All, arith, Bool-cases,
}
use gsd.Prelude.Partition.{flat}
use gsd.Js.Sort.{IsSorted, sort, sort-IsSorted, All-sort}
use gsd.TaskInput.{
  Text, Mark, by_start, overlaps, resolve_from, resolve_sorted, Part, plain, span, before,
  substring, render_from, render_highlighted_sentence,
}

abbrev pub text_of : Part → Text
text_of (plain s) = s
text_of (span type s) = s

-- The text of the parts, one after the other.
abbrev pub text : List Part → Text
text ps = flat text_of ps

abbrev pub IsSpan : Text → Mark → Type 0
IsSpan s m = (m.start ≤ m.end) × (m.end ≤ length s)

abbrev IsChain : ℕ → List Mark → Type 0
IsChain last [] = Unit
IsChain last (m ∷ ms) = (last ≤ m.start) × (m.start ≤ m.end) × IsChain m.end ms

resolve_from-IsChain :
    (s : Text) (last : ℕ) (p : Mark) (ms : List Mark)
    → last ≤ p.start
    → IsSpan s p
    → All (IsSpan s) ms
    → IsSorted by_start (p ∷ ms)
    → IsChain last (resolve_from p ms)
unfolding resolve_from
resolve_from-IsChain s last p [] h (w, _) ws o = (h, w, tt)
resolve_from-IsChain s last p (c ∷ ms) h (w, v) ((wc, vc), ws) ((b, bs), (d, ds)) =
    elim (Bool-cases (overlaps p c)) [
      | inl e ↦ elim (Bool-cases (ltb p.rank c.rank)) [
        | inl k ↦ rw (e, k) (resolve_from-IsChain s last c ms (ground arith) (wc, vc) ws (d, ds))
        | inr k ↦ rw (e, k) (resolve_from-IsChain s last p ms h (w, v) ws (bs, ds))
      ]
      | inr e ↦ rw e (h, w, resolve_from-IsChain s p.end c ms (ground arith) (wc, vc) ws (d, ds))
    ]

module _ {ℓ} {A : Type ℓ} where
  drop_nil : (k : ℕ) → drop {A = A} k [] ≡ []
  drop_nil zero = refl
  drop_nil (suc k) = refl

  drop-drop : (m n : ℕ) (xs : List A) → m ≤ n → drop (n - m) (drop m xs) ≡ drop n xs
  drop-drop zero n xs h = ap (λ k. drop k xs) (omega arith)
  drop-drop (suc m) zero xs h = absurd (omega arith)
  drop-drop (suc m) (suc n) [] h = drop_nil (suc n - suc m)
  drop-drop (suc m) (suc n) (x ∷ xs) h =
      ap (λ k. drop k (drop m xs)) (omega arith) ∙ drop-drop m n xs (omega arith)

  drop_past : (n : ℕ) (xs : List A) → length xs ≤ n → drop n xs ≡ []
  drop_past zero [] h = refl
  drop_past zero (x ∷ xs) h = absurd (omega arith)
  drop_past (suc n) [] h = refl
  drop_past (suc n) (x ∷ xs) h = drop_past n xs (omega arith)

substring-drop : (a b : ℕ) (s : Text) → a ≤ b → substring a b s ++ drop b s ≡ drop a s
substring-drop a b s h =
    ap (λ t. substring a b s ++ t) (sym (drop-drop a b s h)) ∙ take-append-drop (b - a) (drop a s)

text-append : (ps qs : List Part) → text (ps ++ qs) ≡ text ps ++ text qs
text-append [] qs = refl
text-append (p ∷ ps) qs =
    rw (text-append ps qs) (sym (append_assoc (text_of p) (text ps) (text qs)))

text-before :
    (last : ℕ) (m : Mark) (s : Text)
    → last ≤ m.start
    → text (before last m s) ≡ substring last m.start s
text-before last m s h = elim (Bool-cases (ltb last m.start)) [
  | inl e ↦ rw e (append-nil (substring last m.start s))
  | inr e ↦ let none_between : m.start - last ≡ 0 = ground arith in rw (e, none_between) refl
]

text-render_from :
    (s : Text) (last : ℕ) (ms : List Mark)
    → IsChain last ms
    → All (IsSpan s) ms
    → text (render_from s last ms) ≡ drop last s
unfolding render_from
text-render_from s last [] h w = elim (Bool-cases (ltb last (length s))) [
  | inl e ↦ rw e (append-nil (drop last s))
  | inr e ↦ rw e (sym (drop_past last s (ground arith)))
]
text-render_from s last (m ∷ ms) (h, k, c) (w, ws) =
    text-append (before last m s) _
    ∙ rw (text-before last m s h, text-render_from s m.end ms c ws)
        (rw (substring-drop m.start m.end s k) (substring-drop last m.start s h))

All-resolve_from {κ} :
    (P : Mark → Type κ) (p : Mark) (ms : List Mark) → P p → All P ms → All P (resolve_from p ms)
unfolding resolve_from
All-resolve_from P p [] h hs = (h, tt)
All-resolve_from P p (c ∷ ms) h (k, hs) = elim (Bool-cases (overlaps p c)) [
  | inl e ↦ elim (Bool-cases (ltb p.rank c.rank)) [
    | inl r ↦ rw (e, r) (All-resolve_from P c ms k hs)
    | inr r ↦ rw (e, r) (All-resolve_from P p ms h hs)
  ]
  | inr e ↦ rw e (h, All-resolve_from P c ms k hs)
]

sorted-text :
    (s : Text) (ms : List Mark)
    → IsSorted by_start ms
    → All (IsSpan s) ms
    → text (render_from s 0 (resolve_sorted ms)) ≡ s
sorted-text s [] o w = text-render_from s 0 [] tt tt
sorted-text s (m ∷ ms) o (w, ws) =
    text-render_from s 0 (resolve_from m ms) (resolve_from-IsChain s 0 m ms (omega arith) w ws o)
      (All-resolve_from (IsSpan s) m ms w ws)

-- Whichever highlights overlap, the parts of the rendered sentence are the sentence again, if every
-- highlight starts no later than it ends and ends within the sentence: no text is lost or doubled.
pub render_highlighted_sentence-text :
    (s : Text) (marks : List Mark)
    → All (IsSpan s) marks
    → text (render_highlighted_sentence s marks) ≡ s
unfolding render_highlighted_sentence
render_highlighted_sentence-text s marks w =
    sorted-text s (sort by_start marks)
      (sort-IsSorted by_start (IsSpan s) (λ x y _ _ h. ground arith)
        (λ x y z _ _ _ h k. ground arith) marks w)
      (All-sort by_start (IsSpan s) marks w)
