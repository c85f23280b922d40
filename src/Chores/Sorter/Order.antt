-- ===== src/Chores/Sorter/Order.antt =====
-- On well-formed tasks `ChoreSorter` compares keys lexicographically, so sorting puts them in order.
use mathlib.Core.List.{Perm}
use gsd.Prelude.{
  ◌≤◌, ◌<◌, ◌≡◌, refl, ap, ◌⊎◌, Bool, true, false, List, Option, some, if◌then◌else◌, arith, ◌==◌,
  nat_beq, All, filter, nat_eq, leb, ◌&&◌, [], ◌∷◌, none, ◌∙◌, ℕ,
}
use gsd.Js.{Scalar, undefined, null, boolean, num, str, truthy, to_number}
use gsd.Js.Sort.{
  Sign, negative, zero as level, positive, is_positive, sub_sign, sub_number, sort, Before,
  IsSorted, All-sort, sort-perm, sort-IsSorted, filter-sort,
}
use gsd.Dates.{Host, to_date}
use gsd.Chores.{Chore}
use gsd.Chores.Sorter.{rank, chore_sorter}

-- Priorities 1 to 4 in this order, then 0; anything else comes first.
abbrev pub urgency : Scalar → ℕ
urgency (num n) = if leb 1 n && leb n 4 then n else if n == 0 then 5 else 0
urgency _ = 0

rank-urgency : (x : Scalar) → rank x ≡ urgency x
unfolding rank
rank-urgency (num n) = ground arith
rank-urgency undefined = refl
rank-urgency null = refl
rank-urgency (boolean b) = refl
rank-urgency (str s) = refl

abbrev or_zero : Option ℕ → ℕ
or_zero none = 0
or_zero (some n) = n

-- The urgency, the status, whether the date is missing, and the date.
pub record Key : Type 0 where
  pub priority : ℕ
  pub status : ℕ
  pub missing : ℕ
  pub date : ℕ

-- The lexicographic order of keys.
abbrev pub key_sign : Key → Key → Sign
key_sign a b =
    if a.priority == b.priority
    then (if a.status == b.status
        then (if a.missing == b.missing
            then sub_sign a.date b.date
            else sub_sign a.missing b.missing)
        else sub_sign a.status b.status)
    else sub_sign a.priority b.priority

abbrev missing_part : Bool → ℕ
missing_part true = 0
missing_part false = 1

abbrev date_part : Bool → ℕ → ℕ
date_part true d = d
date_part false d = 0

due_part :
    (p q : Bool) (x y : Option ℕ) (d e : ℕ)
    → (p ≡ true → x ≡ some d)
    → (q ≡ true → y ≡ some e)
    → (if p then (if q then sub_number x y else negative) else (if q then positive else level)) ≡ (
        if nat_beq (missing_part p) (missing_part q)
        then sub_sign (date_part p d) (date_part q e)
        else sub_sign (missing_part p) (missing_part q))
due_part true true x y d e h k = rw (h refl, k refl)
due_part true false x y d e h k = refl
due_part false true x y d e h k = refl
due_part false false x y d e h k = refl

module _ (host : Host) where
  -- The status is a number, and a date that is there can be read.
  pub record IsSortable (c : Chore) : Type 0 where
    pub number : ℕ
    pub status : c.status ≡ num number
    pub date : ℕ
    pub due : truthy c.next_due_date ≡ true → to_date host c.next_due_date ≡ some date

  abbrev pub key : Chore → Key
  key c = record {
    priority = urgency c.priority;
    status = or_zero (to_number c.status);
    missing = missing_part (truthy c.next_due_date);
    date = date_part (truthy c.next_due_date) (or_zero (to_date host c.next_due_date));
  }

  read_date :
      (c : Chore) (s : IsSortable c)
      → truthy c.next_due_date ≡ true
      → to_date host c.next_due_date ≡ some (or_zero (to_date host c.next_due_date))
  read_date c s h = rw (s.due h) refl

  -- On tasks whose status is a number and whose date, where there is one, can be read,
  -- `ChoreSorter` is the lexicographic comparison of the urgency of the priority, the status, whether
  -- the date is missing, and the date.
  pub chore_sorter-eq-key_sign :
      (a b : Chore) → IsSortable a → IsSortable b → chore_sorter host a b ≡ key_sign (key a) (key b)
  unfolding chore_sorter to_number
  chore_sorter-eq-key_sign a b s t =
      rw (rank-urgency a.priority, rank-urgency b.priority, s.status, t.status)
        (rw
          (due_part (truthy a.next_due_date) (truthy b.next_due_date) _ _ _ _ (read_date a s)
            (read_date b t))
          refl)

key_sign_total :
    (a b : Key) → is_positive (key_sign a b) ≡ true → is_positive (key_sign b a) ≡ false
key_sign_total a b h = ground arith

abbrev pub KeyLe : Key → Key → Type 0
KeyLe a b =
    (a.priority < b.priority)
    ⊎ ((a.priority ≡ b.priority)
        × ((a.status < b.status)
            ⊎ ((a.status ≡ b.status)
                × ((a.missing < b.missing) ⊎ ((a.missing ≡ b.missing) × (a.date ≤ b.date))))))

KeyLe-of_sign : (a b : Key) → is_positive (key_sign a b) ≡ false → KeyLe a b
KeyLe-of_sign a b h = ground arith

sign_of_KeyLe : (a b : Key) → KeyLe a b → is_positive (key_sign a b) ≡ false
sign_of_KeyLe a b h = ground arith

KeyLe-trans : (a b c : Key) → KeyLe a b → KeyLe b c → KeyLe a c
KeyLe-trans a b c h k = ground arith

key_sign_trans :
    (a b c : Key)
    → is_positive (key_sign a b) ≡ false
    → is_positive (key_sign b c) ≡ false
    → is_positive (key_sign a c) ≡ false
key_sign_trans a b c h k =
    sign_of_KeyLe a c (KeyLe-trans a b c (KeyLe-of_sign a b h) (KeyLe-of_sign b c k))

key_sign_self : (k : Key) → key_sign k k ≡ level
key_sign_self k = ground arith

module _ (host : Host) where
  chore_sorter_total :
      (a b : Chore)
      → IsSortable host a
      → IsSortable host b
      → is_positive (chore_sorter host a b) ≡ true
      → Before (chore_sorter host) b a
  chore_sorter_total a b s t h =
      rw (chore_sorter-eq-key_sign host b a t s)
        (key_sign_total (key host a) (key host b) (rw (chore_sorter-eq-key_sign host a b s t) at h))

  chore_sorter_trans :
      (a b c : Chore)
      → IsSortable host a
      → IsSortable host b
      → IsSortable host c
      → Before (chore_sorter host) a b
      → Before (chore_sorter host) b c
      → Before (chore_sorter host) a c
  chore_sorter_trans a b c s t u h k = rw (chore_sorter-eq-key_sign host a c s u) (
      key_sign_trans (key host a) (key host b) (key host c)
        (rw (chore_sorter-eq-key_sign host a b s t) at h)
        (rw (chore_sorter-eq-key_sign host b c t u) at k))

  -- Every task comes before or level with the later ones: a smaller urgency, then a smaller status, then
  -- a date before none, then an earlier date.
  abbrev pub IsInOrder : List Chore → Type 0
  IsInOrder [] = Unit
  IsInOrder (c ∷ cs) = All (λ d. KeyLe (key host c) (key host d)) cs × IsInOrder cs

  in_order :
      (cs : List Chore) → All (IsSortable host) cs → IsSorted (chore_sorter host) cs → IsInOrder cs
  in_order [] h s = tt
  in_order (c ∷ cs) (h, hs) (s, ss) = (later cs hs s, in_order cs hs ss)
    where
      later :
          (ds : List Chore)
          → All (IsSortable host) ds
          → All (Before (chore_sorter host) c) ds
          → All (λ d. KeyLe (key host c) (key host d)) ds
      later [] k b = tt
      later (d ∷ ds) (k, ks) (b, bs) = (
        KeyLe-of_sign (key host c) (key host d) (rw (chore_sorter-eq-key_sign host c d h k) at b),
        later ds ks bs,
      )

  level_lem :
      (a b : Chore) (k : Key)
      → IsSortable host a × (key host a ≡ k)
      → IsSortable host b × (key host b ≡ k)
      → chore_sorter host a b ≡ level
  level_lem a b k (s, e) (t, f) =
      chore_sorter-eq-key_sign host a b s t
      ∙ ap (λ x. key_sign x (key host b)) e
      ∙ ap (key_sign k) f
      ∙ key_sign_self k

  -- Sorting by `ChoreSorter` tasks whose status is a number and whose date, where there is one, can be read
  -- keeps the tasks and puts them in order: priority 1 before 2, 2 before 3, 3 before 4, 4 before 0, and any other
  -- value before all these; then by status; then those with a date before those without one; then by
  -- date. The tasks that a test `q` picks out stay in their order if they all have one such key.
  pub sort-chore_sorter :
      (cs : List Chore) (q : Chore → Bool) (k : Key)
      → All (IsSortable host) cs
      → ((c : Chore) → q c ≡ true → IsSortable host c × (key host c ≡ k))
      → Perm (sort (chore_sorter host) cs) cs
        × IsInOrder (sort (chore_sorter host) cs)
        × (filter q (sort (chore_sorter host) cs) ≡ filter q cs)
  sort-chore_sorter cs q k h tied = (
    sort-perm (chore_sorter host) cs,
    in_order (sort (chore_sorter host) cs) (All-sort (chore_sorter host) (IsSortable host) cs h) (
        sort-IsSorted (chore_sorter host) (IsSortable host) chore_sorter_total chore_sorter_trans cs
          h),
    filter-sort (chore_sorter host) q (λ a b p r. rw (level_lem a b k (tied a p) (tied b r))) cs,
  )
