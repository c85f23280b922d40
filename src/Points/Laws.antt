-- ===== src/Points/Laws.antt =====
-- What the summaries of a history hold.
use text.Mathlib.TextEquality.{eq_iff}
use gsd.Prelude.{
  ℕ, ◌+◌, ◌≡◌, refl, ap, ◌∙◌, inl, inr, Bool, true, false, not, ◌&&◌, ◌||◌, String, Option, List,
  [], ◌∷◌, map, filter, length, if◌then◌else◌, ◌==◌, nat_eq, string_eq, Bool-cases, arith,
}
use gsd.Prelude.Partition.{contains}
use gsd.Js.{Scalar, num, truthy, scalar_eq}
use gsd.Points.{
  Entry, Total, Period, or_zero, labels, empty, counts_for, add_to, add_entry, add_entries,
  generate_summary,
}

-- The sum of the points of entries.
unfoldable pub points_of : List Entry → ℕ
points_of [] = 0
points_of (e ∷ es) = or_zero e.points + points_of es

module _ (name_of : Period → Option ℕ → String) (back : Period → ℕ → Option ℕ) (user : Scalar)
    (p : Period) where
  -- The entry is of the user, or no user is chosen.
  abbrev is_of_user : Entry → Bool
  is_of_user e = not (truthy user) || num e.completed_by == user

  -- The entry falls on a day, month or year of this name.
  abbrev pub is_at : String → Entry → Bool
  is_at l e = is_of_user e && l == name_of p e.performed_at

  -- The total of the entries at a label, but nothing under a label that has been seen.
  abbrev total_of : (String → ℕ × ℕ) → List String → String → Total
  total_of f seen l = record {
    label = l;
    points = if contains seen l then 0 else (f l).0;
    tasks = if contains seen l then 0 else (f l).1;
  }

  abbrev pub totals_of : (String → ℕ × ℕ) → List String → List String → List Total
  totals_of f seen [] = []
  totals_of f seen (l ∷ ls) = total_of f seen l ∷ totals_of f (l ∷ seen) ls

  abbrev pub tally : List Entry → String → ℕ × ℕ
  tally es l = (points_of (filter (is_at l) es), length (filter (is_at l) es))

  abbrev bump : Entry → (String → ℕ × ℕ) → String → ℕ × ℕ
  bump e f l = if is_at l e then ((f l).0 + or_zero e.points, (f l).1 + 1) else f l

  totals_of-ext :
      (f g : String → ℕ × ℕ)
      → ((l : String) → f l ≡ g l)
      → (seen ls : List String) → totals_of f seen ls ≡ totals_of g seen ls
  totals_of-ext f g h seen [] = refl
  totals_of-ext f g h seen (l ∷ ls) = rw (h l, totals_of-ext f g h (l ∷ seen) ls) refl

  -- An entry of another user is not counted.
  other_user :
      (e : Entry)
      → is_of_user e ≡ false
      → (ts : List Total) → add_entry name_of back user p e ts ≡ ts
  unfolding add_entry
  other_user e h [] = refl
  other_user e h (t ∷ ts) = ground (arith, other_user e h ts)

  counts_for-is_at : (e : Entry) (t : Total) → counts_for name_of back user p e t ≡ is_at t.label e
  counts_for-is_at e t = ground arith

  not_name :
      (seen : List String) (l name : String)
      → contains seen name ≡ true
      → contains seen l ≡ false
      → (l == name) ≡ false
  not_name seen l name h k = elim (Bool-cases (l == name)) [
    | inl e ↦
        let same : l ≡ name = (eq_iff l name).0 e in
        let found : contains seen l ≡ true = rw same h in cc (found, k)
    | inr e ↦ e
  ]

  head_same :
      (e : Entry) (f : String → ℕ × ℕ) (seen : List String) (l : String)
      → contains seen (name_of p e.performed_at) ≡ true
      → total_of (bump e f) seen l ≡ total_of f seen l
  head_same e f seen l h = elim (Bool-cases (contains seen l)) [
    | inl k ↦ rw k refl
    | inr k ↦ rw (k, not_name seen l (name_of p e.performed_at) h k) (ground arith)
  ]

  seen_before :
      (e : Entry) (f : String → ℕ × ℕ) (seen ls : List String)
      → contains seen (name_of p e.performed_at) ≡ true
      → totals_of (bump e f) seen ls ≡ totals_of f seen ls
  seen_before e f seen [] h = refl
  seen_before e f seen (l ∷ ls) h =
      rw (head_same e f seen l h, seen_before e f (l ∷ seen) ls (ground (arith, h))) refl

  first_time :
      (e : Entry) (f : String → ℕ × ℕ) (seen ls : List String)
      → is_of_user e ≡ true
      → contains seen (name_of p e.performed_at) ≡ false
      → add_entry name_of back user p e (totals_of f seen ls) ≡ totals_of (bump e f) seen ls
  unfolding add_entry add_to
  first_time e f seen [] u h = refl
  first_time e f seen (l ∷ ls) u h = elim (Bool-cases (l == name_of p e.performed_at)) [
    | inl k ↦
        let same : l ≡ name_of p e.performed_at = (eq_iff l (name_of p e.performed_at)).0 k in
        let unseen : contains seen l ≡ false = rw same h in
        rw
          (
            counts_for-is_at e (total_of f seen l),
            u,
            k,
            unseen,
            seen_before e f (l ∷ seen) ls (rw same (ground arith)),
          )
          refl
    | inr k ↦
        rw
          (
            counts_for-is_at e (total_of f seen l),
            u,
            k,
            first_time e f (l ∷ seen) ls u (
                ground (
                  arith,
                  eq_iff l (name_of p e.performed_at),
                  eq_iff (name_of p e.performed_at) l,
                )),
          )
          refl
  ]

  one_entry :
      (e : Entry) (f : String → ℕ × ℕ) (ls : List String)
      → add_entry name_of back user p e (totals_of f [] ls) ≡ totals_of (bump e f) [] ls
  one_entry e f ls = elim (Bool-cases (is_of_user e)) [
    | inl u ↦ first_time e f [] ls u refl
    | inr u ↦ other_user e u (totals_of f [] ls) ∙ totals_of-ext f (bump e f) (λ l. rw u refl) [] ls
  ]

  abbrev more : List Entry → (String → ℕ × ℕ) → String → ℕ × ℕ
  more es f l = ((f l).0 + (tally es l).0, (f l).1 + (tally es l).1)

  more-bump :
      (e : Entry) (es : List Entry) (f : String → ℕ × ℕ) (l : String)
      → more es (bump e f) l ≡ more (e ∷ es) f l
  unfolding points_of
  more-bump e es f l = elim (Bool-cases (is_at l e)) [
    | inl h ↦ rw h (ground arith)
    | inr h ↦ rw h refl
  ]

  all_entries :
      (es : List Entry) (f : String → ℕ × ℕ) (ls : List String)
      → add_entries name_of back user p es (totals_of f [] ls) ≡ totals_of (more es f) [] ls
  unfolding add_entries points_of
  all_entries [] f ls = totals_of-ext f (more [] f) (λ l. ground arith) [] ls
  all_entries (e ∷ es) f ls =
      ap (add_entries name_of back user p es) (one_entry e f ls)
      ∙ all_entries es (bump e f) ls
      ∙ totals_of-ext (more es (bump e f)) (more (e ∷ es) f) (more-bump e es f) [] ls

  none_yet : (seen ls : List String) → map (empty name_of back) ls ≡ totals_of (λ _. (0, 0)) seen ls
  none_yet seen [] = refl
  none_yet seen (l ∷ ls) = elim (Bool-cases (contains seen l)) [
    | inl h ↦ rw (h, none_yet (l ∷ seen) ls) refl
    | inr h ↦ rw (h, none_yet (l ∷ seen) ls) refl
  ]

  -- Each total of a summary holds the sum of the points and the number of all entries of the user, or of
  -- all users where none is chosen, whose day, month or year has the total's label, unless an earlier total
  -- of the summary has the same label: then it holds nothing.
  pub generate_summary_lem :
      (es : List Entry)
      → generate_summary name_of back p es user ≡ totals_of (tally es) [] (labels name_of back p)
  unfolding generate_summary
  generate_summary_lem es =
      ap (add_entries name_of back user p es) (none_yet [] (labels name_of back p))
      ∙ all_entries es (λ _. (0, 0)) (labels name_of back p)
      ∙ totals_of-ext (more es (λ _. (0, 0))) (tally es) (λ l. ground arith) []
          (labels name_of back p)
