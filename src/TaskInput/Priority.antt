-- ===== src/TaskInput/Priority.antt =====
-- What parsePriority finds in a sentence.
use gsd.Prelude.{
  ℕ, zero, suc, ◌+◌, ◌-◌, ◌≤◌, ◌<◌, ◌≡◌, refl, inl, inr, ◌⊎◌, nat_beq_iff, true, false, Option,
  none, some, List, [], ◌∷◌, ◌++◌, ◌==◌, nat_eq, length, take, drop, All, map, filter,
  if◌then◌else◌, ap, arith, Bool-cases,
}
use gsd.TaskInput.{
  Text, lower, to_lower_case, starts_with, one_more, index_of, remove_from, remove_all, Parsed,
  Highlight, highlight_at, highlights, terms, mentions, found, is_some, includes, parse_priority,
  kept, next_skip, match_length,
}

starts_with-take : (t s : Text) → starts_with t s ≡ true → take (length t) s ≡ t
starts_with-take [] s h = refl
starts_with-take (t ∷ ts) [] h = cc h
starts_with-take (t ∷ ts) (c ∷ s) h =
    let same : t ≡ c = ground arith in rw (same, starts_with-take ts s (ground arith)) refl

-- The text stands at the place, within the sentence.
abbrev pub StandsAt : Text → ℕ → Text → Type 0
StandsAt t i s = (take (length t) (drop i s) ≡ t) × (i + length t ≤ length s)

starts_with-length : (t s : Text) → starts_with t s ≡ true → length t ≤ length s
starts_with-length [] s h = omega arith
starts_with-length (t ∷ ts) [] h = cc h
starts_with-length (t ∷ ts) (c ∷ s) h =
    let k = starts_with-length ts s (ground arith) in omega arith

at_start : (t s : Text) → starts_with t s ≡ true → StandsAt t 0 s
at_start t s h = (starts_with-take t s h, omega (arith, starts_with-length t s h))

later :
    (t : Text) (c : ℕ) (s : Text) (i : ℕ) (o : Option ℕ)
    → ((j : ℕ) → o ≡ some j → StandsAt t j s)
    → one_more o ≡ some i
    → StandsAt t i (c ∷ s)
later t c s i none ih k = cc k
later t c s i (some j) ih k =
    let same : suc j ≡ i = ground arith in let (a, b) = ih j refl in rw (← same) (a, omega arith)

index_of-StandsAt : (t s : Text) (i : ℕ) → index_of t s ≡ some i → StandsAt t i s
unfolding index_of
index_of-StandsAt t [] i h = elim (Bool-cases (starts_with t [])) [
  | inl e ↦
      let first : some 0 ≡ some i = rw e at h in
      let same : zero ≡ i = cc first in rw (← same) (at_start t [] e)
  | inr e ↦ let nowhere : none ≡ some i = rw e at h in cc nowhere
]
index_of-StandsAt t (c ∷ s) i h = elim (Bool-cases (starts_with t (c ∷ s))) [
  | inl e ↦
      let first : some 0 ≡ some i = rw e at h in
      let same : zero ≡ i = cc first in rw (← same) (at_start t (c ∷ s) e)
  | inr e ↦ later t c s i (index_of t s) (λ j. index_of-StandsAt t s j) (rw e at h)
]

-- The highlight is the term where it stands.
abbrev pub IsHighlightOf : Text → Highlight → Type 0
IsHighlightOf s h = StandsAt h.text h.start s × (h.end ≡ h.start + length h.text)

one_highlight :
    (t s : Text) (o : Option ℕ) (rest : List Highlight)
    → index_of t s ≡ o
    → All (IsHighlightOf s) rest
    → All (IsHighlightOf s) (highlight_at t o ++ rest)
one_highlight t s none rest e h = h
one_highlight t s (some i) rest e h = ((index_of-StandsAt t s i e, refl), h)

All-highlights : (ts : List Text) (s : Text) → All (IsHighlightOf s) (highlights ts s)
All-highlights [] s = tt
All-highlights (t ∷ ts) s =
    one_highlight t s (index_of t s) (highlights ts s) refl (All-highlights ts s)

-- The texts of the highlights are the terms that stand in the sentence, in order.
one_text :
    (t : Text) (o : Option ℕ) (rest : List Highlight) (ts : List Text)
    → map (λ (h : Highlight). h.text) rest ≡ ts
    → map (λ (h : Highlight). h.text) (highlight_at t o ++ rest)
      ≡ (if is_some o then t ∷ ts else ts)
one_text t none rest ts e = e
one_text t (some i) rest ts e = ap (λ us. t ∷ us) e

text-highlights :
    (ts : List Text) (s : Text)
    → map (λ (h : Highlight). h.text) (highlights ts s) ≡ filter (λ t. includes t s) ts
text-highlights [] s = refl
text-highlights (t ∷ ts) s =
    one_text t (index_of t s) (highlights ts s) (filter (λ u. includes u s) ts)
      (text-highlights ts s)

abbrev pub IsSmall : ℕ → Type 0
IsSmall c = lower c ≡ c

keeping : (n c : ℕ) (rest : Text) → IsSmall c → All IsSmall rest → All IsSmall (kept n c rest)
keeping zero c rest h hs = (h, hs)
keeping (suc n) c rest h hs = hs

All-remove_from :
    (ts : List Text) (k : ℕ) (s : Text) → All IsSmall s → All IsSmall (remove_from ts k s)
unfolding remove_from
All-remove_from ts k [] h = tt
All-remove_from ts k (c ∷ s) (h, hs) =
    keeping (next_skip k (match_length ts (c ∷ s))) c _ h
      (All-remove_from ts (next_skip k (match_length ts (c ∷ s)) - 1) s hs)

All-to_lower_case : (s : Text) → All IsSmall (to_lower_case s)
All-to_lower_case [] = tt
All-to_lower_case (c ∷ s) = (ground arith, All-to_lower_case s)

-- No priority below the number has a term in the sentence.
abbrev pub FirstAt : ℕ → Text → Type 0
FirstAt p s = (q : ℕ) → 1 ≤ q → q < p → mentions q s ≡ false

abbrev pub Found : Text → ℕ → Parsed → Type 0
Found s p r =
    (r.result ≡ p)
    × (mentions p s ≡ true)
    × FirstAt p s
    × (map (λ (h : Highlight). h.text) r.highlight ≡ filter (λ t. includes t s) (terms p))
    × All (IsHighlightOf s) r.highlight
    × All IsSmall r.cleaned

found_lem :
    (input : Text) (p : ℕ)
    → mentions p (to_lower_case input) ≡ true
    → FirstAt p (to_lower_case input)
    → Found (to_lower_case input) p (found p (to_lower_case input))
unfolding remove_all
found_lem input p h f = (
  refl,
  h,
  f,
  text-highlights (terms p) (to_lower_case input),
  All-highlights (terms p) (to_lower_case input),
  All-remove_from (terms p) 0 (to_lower_case input) (All-to_lower_case input),
)

-- The priorities below the first, the second and so on.
first : (s : Text) → FirstAt 1 s
first s q h k = absurd (omega arith)

next_first : (p : ℕ) (s : Text) → FirstAt p s → mentions p s ≡ false → FirstAt (suc p) s
next_first p s f e q h k = elim (Bool-cases (q == p)) [
  | inl same ↦ let eq : q ≡ p = (nat_beq_iff q p).0 same in rw eq e
  | inr other ↦ f q h (ground arith)
]

second : (s : Text) → mentions 1 s ≡ false → FirstAt 2 s
second s a = next_first 1 s (first s) a

third : (s : Text) → mentions 1 s ≡ false → mentions 2 s ≡ false → FirstAt 3 s
third s a b = next_first 2 s (second s a) b

fourth :
    (s : Text) → mentions 1 s ≡ false → mentions 2 s ≡ false → mentions 3 s ≡ false → FirstAt 4 s
fourth s a b c = next_first 3 s (third s a b) c

fifth :
    (s : Text)
    → mentions 1 s ≡ false
    → mentions 2 s ≡ false
    → mentions 3 s ≡ false
    → mentions 4 s ≡ false
    → FirstAt 5 s
fifth s a b c d = next_first 4 s (fourth s a b c) d

-- A priority is found exactly if one of its terms stands in the sentence in lower case and no term of a
-- higher priority, which has a lower number, does; then the highlights have as their texts exactly those of
-- its terms that stand in the sentence, in the order of the terms, each at a place where it stands, and the cleaned sentence has lost every capital. Otherwise the result is 0, nothing is
-- highlighted, and the sentence stays as it is.
pub parse_priority_lem :
    (input : Text)
    → (let s = to_lower_case input in
        let r = parse_priority input in
        ((p : ℕ) × (1 ≤ p) × (p ≤ 4) × Found s p r)
        ⊎ ((r ≡ record { result = 0; highlight = []; cleaned = input }) × FirstAt 5 s))
unfolding parse_priority
parse_priority_lem input =
    let s = to_lower_case input in
    elim (Bool-cases (mentions 1 s)) [
      | inl a ↦ rw a (inl (1, omega arith, omega arith, found_lem input 1 a (first s)))
      | inr a ↦ elim (Bool-cases (mentions 2 s)) [
        | inl b ↦ rw (a, b) (inl (2, omega arith, omega arith, found_lem input 2 b (second s a)))
        | inr b ↦ elim (Bool-cases (mentions 3 s)) [
          | inl c ↦
              rw (a, b, c) (inl (3, omega arith, omega arith, found_lem input 3 c (third s a b)))
          | inr c ↦ elim (Bool-cases (mentions 4 s)) [
            | inl d ↦
                rw (a, b, c, d)
                  (inl (4, omega arith, omega arith, found_lem input 4 d (fourth s a b c)))
            | inr d ↦ rw (a, b, c, d) (inr (refl, fifth s a b c d))
          ]
        ]
      ]
    ]
