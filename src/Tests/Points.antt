-- ===== src/Tests/Points.antt =====
-- Summaries and a leaderboard at a concrete history.
use mathlib.Core.List.{Perm}
use gsd.Prelude.{
  ℕ, ◌-◌, ◌/◌, ◌%◌, ◌≡◌, refl, String, Option, none, some, List, [], ◌∷◌, map, length,
}
use gsd.Js.{num, decimal}
use gsd.Js.Sort.{sort}
use gsd.Points.{Entry, Member, Row, Period, labels, generate_summary, calculate_leaderboard}
use gsd.Points.Period.{week, month}
use gsd.Points.Laws.{totals_of, tally, generate_summary_lem}
use gsd.Points.Leaderboard.Members.{last_records}
use gsd.Points.Leaderboard.{row_of, from, IsDescending, calculate_leaderboard_lem}

-- Dates are days; months have thirty days, weeks seven.
abbrev name_of : Period → Option ℕ → String
name_of p none = "Invalid Date"
name_of week (some d) = decimal (d % 7)
name_of month (some d) = decimal (d % 28)
name_of _ (some d) = decimal (d / 30)

abbrev back : Period → ℕ → Option ℕ
back p i = some (100 - i)

abbrev history : List Entry
history =
    record { performed_at = some 100; completed_by = 5; points = some 4 }
    ∷ record { performed_at = some 99; completed_by = 6; points = some 7 }
    ∷ record { performed_at = some 93; completed_by = 5; points = none }
    ∷ record { performed_at = none; completed_by = 5; points = some 1 }
    ∷ []

last_day :
    generate_summary name_of back week history (num 5)
    ≡ record { label = "3"; points = 0; tasks = 0 }
      ∷ record { label = "4"; points = 0; tasks = 0 }
      ∷ record { label = "5"; points = 0; tasks = 0 }
      ∷ record { label = "6"; points = 0; tasks = 0 }
      ∷ record { label = "0"; points = 0; tasks = 0 }
      ∷ record { label = "1"; points = 0; tasks = 0 }
      ∷ record { label = "2"; points = 4; tasks = 2 }
      ∷ []
unfolding generate_summary labels decimal
last_day = refl

generate_summary_lem_example :
    generate_summary name_of back month history (num 5)
    ≡ totals_of name_of back
        (num 5)
        month
        (tally name_of back (num 5) month history)
        []
        (labels name_of back month)
generate_summary_lem_example = generate_summary_lem name_of back (num 5) month history

abbrev ada : Member
ada = record { user_id = 5; display_name = "Ada"; points = some 40 }

-- An earlier record of the first member.
abbrev old_ada : Member
old_ada = record { user_id = 5; display_name = "A."; points = some 3 }

abbrev bob : Member
bob = record { user_id = 6; display_name = "Bob"; points = none }

calculate_leaderboard_lem_example :
    (let rows = calculate_leaderboard (num 7) "points" (some history) (old_ada ∷ ada ∷ bob ∷ []) in
      Perm
        (map (λ (r : Row). r.stats) rows)
        (map (row_of history) (last_records (old_ada ∷ ada ∷ bob ∷ [])))
      × IsDescending (num 7) "points" (map (λ (r : Row). r.stats) rows)
      × (map (λ (r : Row). r.rank) rows ≡ from 1 (length rows)))
calculate_leaderboard_lem_example =
    calculate_leaderboard_lem (num 7) "points" history old_ada (ada ∷ bob ∷ [])

first_row :
    map
      (λ (r : Row). r.stats.display_name)
      (calculate_leaderboard (num 7) "points" (some history) (ada ∷ bob ∷ []))
    ≡ "Bob" ∷ "Ada" ∷ []
unfolding calculate_leaderboard sort
first_row = refl
