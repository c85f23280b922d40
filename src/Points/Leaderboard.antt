-- ===== src/Points/Leaderboard.antt =====
-- The order of the leaderboard and what its rows hold.
pub mod Members
use mathlib.Core.List.{Perm}
use mathlib.Core.List.Perm
use gsd.Prelude.{
  All-map, ◌≤◌, ℕ, zero, suc, ◌+◌, ◌≡◌, refl, ap, ◌∙◌, Bool, String, some, List, [], ◌∷◌, map,
  filter, length, All, if◌then◌else◌, ◌==◌, nat_eq, Bool-cases, inl, inr, arith,
}
use gsd.Js.{Scalar}
use gsd.Js.Sort.{Before, sort, sort-perm, sort-IsSorted, IsSorted}
use gsd.Points.{
  or_zero, sort_field, Entry, Member, Stats, Row, put_members, earn, count_entry, count_entries,
  by_field, values, ranked, calculate_leaderboard,
}
use gsd.Points.Laws.{points_of}
use gsd.Points.Leaderboard.Members.{entry_of, last_records, put_members-perm}

-- The entries that a member has completed.
abbrev pub is_by : ℕ → Entry → Bool
is_by k e = k == e.completed_by

-- What the history adds to the stats of a member.
abbrev pub with_history : List Entry → ℕ × Stats → ℕ × Stats
with_history es (k, s) = (
  k,
  record s {
    period_points = s.period_points + points_of (filter (is_by k) es);
    period_tasks = s.period_tasks + length (filter (is_by k) es);
  },
)

-- The row of a member, but for its rank.
abbrev pub row_of : List Entry → Member → Stats
row_of es m = record {
  user_id = m.user_id;
  display_name = m.display_name;
  total_points = or_zero m.points;
  available_points = or_zero m.points;
  period_points = points_of (filter (is_by m.user_id) es);
  period_tasks = length (filter (is_by m.user_id) es);
}

entry-row : (es : List Entry) (m : Member) → (with_history es (entry_of m)).1 ≡ row_of es m
entry-row es m =
    let points = points_of (filter (is_by m.user_id) es) in
    let tasks = length (filter (is_by m.user_id) es) in
    let p : 0 + points ≡ points = omega arith in
    let t : 0 + tasks ≡ tasks = omega arith in
    λ i. record (row_of es m) { period_points = p i; period_tasks = t i }

values-entries :
    (es : List Entry) (ms : List Member)
    → values (map (with_history es) (map entry_of ms)) ≡ map (row_of es) ms
values-entries es [] = refl
values-entries es (m ∷ ms) = rw (entry-row es m, values-entries es ms) refl

values-map : (xs : List (ℕ × Stats)) → values xs ≡ map (λ x. x.1) xs
values-map [] = refl
values-map ((k, s) ∷ xs) = ap (λ ss. s ∷ ss) (values-map xs)

values-perm : (xs ys : List (ℕ × Stats)) → Perm xs ys → Perm (values xs) (values ys)
values-perm xs ys h = rw (values-map xs, values-map ys) (Perm.map (λ x. x.1) h)

rows-perm :
    (es : List Entry) (ms : List Member)
    → Perm (values (map (with_history es) (put_members ms []))) (map (row_of es) (last_records ms))
rows-perm es ms = rw (← values-entries es (last_records ms)) (
    values-perm (map (with_history es) (put_members ms []))
      (map (with_history es) (map entry_of (last_records ms)))
      (Perm.map (with_history es) (put_members-perm ms)))

one_more :
    (e : Entry) (es : List Entry) (k : ℕ) (s : Stats)
    → with_history es (k, if k == e.completed_by then earn e s else s)
      ≡ with_history (e ∷ es) (k, s)
unfolding points_of
one_more e es k s = elim (Bool-cases (k == e.completed_by)) [
  | inl h ↦ rw h (ground arith)
  | inr h ↦ rw h refl
]

one_entry :
    (e : Entry) (es : List Entry) (stats : List (ℕ × Stats))
    → map (with_history es) (count_entry e stats) ≡ map (with_history (e ∷ es)) stats
unfolding count_entry
one_entry e es [] = refl
one_entry e es ((k, s) ∷ stats) = rw (one_more e es k s, one_entry e es stats) refl

untouched : (k : ℕ) (s : Stats) → (k, s) ≡ with_history [] (k, s)
unfolding points_of
untouched k s = ground arith

no_entries : (stats : List (ℕ × Stats)) → stats ≡ map (with_history []) stats
unfolding points_of
no_entries [] = refl
no_entries ((k, s) ∷ stats) = rw (← untouched k s, ← no_entries stats) refl

history-count :
    (es : List Entry) (stats : List (ℕ × Stats))
    → count_entries es stats ≡ map (with_history es) stats
unfolding count_entries
history-count [] stats = no_entries stats
history-count (e ∷ es) stats = history-count es (count_entry e stats) ∙ one_entry e es stats

abbrev pub from : ℕ → ℕ → List ℕ
from n zero = []
from n (suc k) = n ∷ from (n + 1) k

ranked-stats : (n : ℕ) (ss : List Stats) → map (λ (r : Row). r.stats) (ranked n ss) ≡ ss
unfolding ranked
ranked-stats n [] = refl
ranked-stats n (s ∷ ss) = rw (ranked-stats (n + 1) ss) refl

ranked-rank :
    (n : ℕ) (ss : List Stats) → map (λ (r : Row). r.rank) (ranked n ss) ≡ from (n + 1) (length ss)
unfolding ranked
ranked-rank n [] = refl
ranked-rank n (s ∷ ss) = rw (ranked-rank (n + 1) ss) refl

All-unit : (ss : List Stats) → All (λ _. Unit {0}) ss
All-unit [] = tt
All-unit (_ ∷ ss) = (tt, All-unit ss)

ranked-length : (n : ℕ) (ss : List Stats) → length (ranked n ss) ≡ length ss
unfolding ranked
ranked-length n [] = refl
ranked-length n (s ∷ ss) = rw (ranked-length (n + 1) ss) refl

module _ (tab : Scalar) (mode : String) where
  in_order : (ss : List Stats) → IsSorted (by_field tab mode) (sort (by_field tab mode) ss)
  in_order ss =
      sort-IsSorted (by_field tab mode) (λ _. Unit {0}) (λ x y _ _ h. ground arith)
        (λ x y z _ _ _ h k. ground arith) ss (All-unit ss)

  -- No row has more in the chosen field than a row before it.
  abbrev pub IsDescending : List Stats → Type 0
  IsDescending [] = Unit
  IsDescending (s ∷ ss) =
      All (λ t. sort_field tab mode t ≤ sort_field tab mode s) ss × IsDescending ss

  descending : (ss : List Stats) → IsSorted (by_field tab mode) ss → IsDescending ss
  descending [] h = tt
  descending (s ∷ ss) (h, hs) =
      (All-map (λ t (k : Before (by_field tab mode) s t). ground arith) ss h, descending ss hs)

  -- The leaderboard of a circle with members has exactly one row for each id of a member: from the last record
  -- of that id it has the name and the points, 0 where there are none, as total and available points, and from the
  -- history the sum of the points and the number of the entries that the member has completed. No row has more in the chosen field than a row before it, and the rows are numbered from 1 on.
  pub calculate_leaderboard_lem :
      (history : List Entry) (m : Member) (ms : List Member)
      → (let rows = calculate_leaderboard tab mode (some history) (m ∷ ms) in
          Perm (map (λ (r : Row). r.stats) rows) (map (row_of history) (last_records (m ∷ ms)))
          × IsDescending (map (λ (r : Row). r.stats) rows)
          × (map (λ (r : Row). r.rank) rows ≡ from 1 (length rows)))
  unfolding calculate_leaderboard
  calculate_leaderboard_lem history m ms = rw (history-count history (put_members (m ∷ ms) [])) (
      let stats = values (map (with_history history) (put_members (m ∷ ms) [])) in
      let rows = sort (by_field tab mode) stats in
      rw (ranked-stats 0 rows, ranked-rank 0 rows, ranked-length 0 rows)
        (
          Perm.trans (sort-perm (by_field tab mode) stats) (rows-perm history (m ∷ ms)),
          descending rows (in_order stats),
          refl,
        ))
