-- ===== src/Points.antt =====
-- The points of the members of a circle: the summaries of a history of tasks by day, month or year, and
-- the leaderboard, of ui/src/views/User/UserPoints.jsx. Ids and points are numbers. The average of points
-- in a task, which is shown beside a row, is left out.
pub mod Laws
pub mod Leaderboard
use gsd.Prelude.{
  ℕ, zero, suc, ◌+◌, Bool, true, false, not, ◌&&◌, String, Option, none, some, List, [], ◌∷◌, map,
  if◌then◌else◌, ◌==◌, nat_eq, string_eq,
}
use gsd.Js.{Scalar, str, num, truthy, scalar_eq}
use gsd.Js.Objects.{put}
use gsd.Js.Sort.{Sign, sub_sign, sort}

-- An entry of the history: `none` for an invalid date, and for points that are missing.
pub record Entry : Type 0 where
  pub performed_at : Option ℕ
  pub completed_by : ℕ
  pub points : Option ℕ

pub record Total : Type 0 where
  pub label : String
  pub points : ℕ
  pub tasks : ℕ

pub data Period : Type 0 where
  week month half_year years : Period

-- The days, months or years that a summary shows.
abbrev shown : Period → ℕ
shown week = 7
shown month = 30
shown half_year = 6
shown years = 12

-- `points || 0`
abbrev pub or_zero : Option ℕ → ℕ
or_zero none = 0
or_zero (some n) = n

-- `toLocaleString` of a date, and the date that lies some days, months or years back from now.
module _ (name_of : Period → Option ℕ → String) (back : Period → ℕ → Option ℕ) where
  labels_from : Period → ℕ → List String
  labels_from p zero = []
  labels_from p (suc i) = name_of p (back p i) ∷ labels_from p i

  -- From the first day, month or year on up to the current one.
  unfoldable pub labels : Period → List String
  unfolding labels_from
  labels p = labels_from p (shown p)

  abbrev empty : String → Total
  empty label = record { label = label; points = 0; tasks = 0 }

  -- The callback of `findIndex`.
  abbrev pub counts_for : Scalar → Period → Entry → Total → Bool
  counts_for user p e t =
      if truthy user
      then t.label == name_of p e.performed_at && num e.completed_by == user
      else t.label == name_of p e.performed_at

  add_to : Entry → Total → Total
  add_to e t = record t { points = t.points + or_zero e.points; tasks = t.tasks + 1 }

  -- What the callback of `forEach` changes.
  add_entry : Scalar → Period → Entry → List Total → List Total
  unfolding add_to
  add_entry user p e [] = []
  add_entry user p e (t ∷ ts) =
      if counts_for user p e t then add_to e t ∷ ts else t ∷ add_entry user p e ts

  add_entries : Scalar → Period → List Entry → List Total → List Total
  add_entries user p [] ts = ts
  add_entries user p (e ∷ es) ts = add_entries user p es (add_entry user p e ts)

  -- `generateWeeklySummary`, `generateMonthSummary`, `generateMonthlySummary` and
  -- `generateYearlySummary`, which differ in the period.
  unfoldable pub generate_summary : Period → List Entry → Scalar → List Total
  unfolding add_entries add_entry add_to
  generate_summary p history user = add_entries user p history (map empty (labels p))

  abbrev period_of : Scalar → Period
  period_of tab =
      if tab == num 7
      then week
      else if tab == num 30
      then month
      else if tab == num 180
      then half_year
      else years

  -- The effect that follows a choice of a tab or a user.
  unfoldable pub selected_history : Scalar → Option (List Entry) → Scalar → List Total → List Total
  selected_history tab none user old = old
  selected_history tab (some history) user old =
      if tab == str "now" then old else generate_summary (period_of tab) history user

pub record Member : Type 0 where
  pub user_id : ℕ
  pub display_name : String
  pub points : Option ℕ

-- A row of the leaderboard, and what is known of a member before the rows are numbered.
pub record Stats : Type 0 where
  pub user_id : ℕ
  pub display_name : String
  pub total_points : ℕ
  pub available_points : ℕ
  pub period_points : ℕ
  pub period_tasks : ℕ

pub record Row : Type 0 where
  pub stats : Stats
  pub rank : ℕ

abbrev pub new_stats : Member → Stats
new_stats m = record {
  user_id = m.user_id;
  display_name = m.display_name;
  total_points = or_zero m.points;
  available_points = or_zero m.points;
  period_points = 0;
  period_tasks = 0;
}

-- The object with the stats of every member; a later member of the same id replaces the stats.
unfoldable pub put_members : List Member → List (ℕ × Stats) → List (ℕ × Stats)
put_members [] stats = stats
put_members (m ∷ ms) stats = put_members ms (put m.user_id (new_stats m) stats)

abbrev pub earn : Entry → Stats → Stats
earn e s = record s {
  period_points = s.period_points + or_zero e.points;
  period_tasks = s.period_tasks + 1;
}

-- The stats under the id of the entry are changed, where there are any. An object has each key once.
unfoldable pub count_entry : Entry → List (ℕ × Stats) → List (ℕ × Stats)
count_entry e [] = []
count_entry e ((k, s) ∷ stats) =
    (k, if k == e.completed_by then earn e s else s) ∷ count_entry e stats

unfoldable pub count_entries : List Entry → List (ℕ × Stats) → List (ℕ × Stats)
count_entries [] stats = stats
count_entries (e ∷ es) stats = count_entries es (count_entry e stats)

-- `b[sortField] - a[sortField]`
abbrev pub sort_field : Scalar → String → Stats → ℕ
sort_field tab mode s =
    if tab == str "now"
    then s.available_points
    else if mode == "points"
    then s.period_points
    else s.period_tasks

abbrev pub by_field : Scalar → String → Stats → Stats → Sign
by_field tab mode a b = sub_sign (sort_field tab mode b) (sort_field tab mode a)

abbrev pub values : List (ℕ × Stats) → List Stats
values [] = []
values ((_, s) ∷ stats) = s ∷ values stats

ranked : ℕ → List Stats → List Row
ranked n [] = []
ranked n (s ∷ ss) = record { stats = s; rank = n + 1 } ∷ ranked (n + 1) ss

-- `none`: the history has not arrived.
unfoldable pub calculate_leaderboard :
    Scalar → String → Option (List Entry) → List Member → List Row
unfolding put_members count_entries count_entry ranked
calculate_leaderboard tab mode none members = []
calculate_leaderboard tab mode (some history) [] = []
calculate_leaderboard tab mode (some history) (m ∷ ms) =
    ranked 0 (sort (by_field tab mode) (values (count_entries history (put_members (m ∷ ms) []))))
