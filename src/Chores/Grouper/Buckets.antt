-- ===== src/Chores/Grouper/Buckets.antt =====
-- The groupings by due date and by priority.
pub mod Chronology
pub mod Laws
use gsd.Prelude.{
  ℕ, ◌+◌, ◌≡◌, refl, ◌↔◌, Bool, true, false, not, ◌&&◌, ◌||◌, String, List, [], ◌∷◌, ◌++◌,
  if◌then◌else◌, Eq, ◌==◌, nat_beq, nat_beq_iff, nat_eq, some, ap, sym, ◌∙◌, ltb,
}
use gsd.Js.{Scalar, undefined, null, num, str, same, scalar_eq, compare_by, lt_number}
use gsd.Dates.{Host, hours, to_date, same_date_string, same_month}
use gsd.Chores.{Chore}
use gsd.Chores.Grouper.Sections.{Group, group, collect}

pub data Bucket : Type 0 where
  pending_approval started today tomorrow next_7_days later_this_month : Bucket
  future overdue general : Bucket

abbrev pub index : Bucket → ℕ
index pending_approval = 0
index started = 1
index today = 2
index tomorrow = 3
index next_7_days = 4
index later_this_month = 5
index future = 6
index overdue = 7
index general = 8

abbrev of_index : ℕ → Bucket
of_index n =
    if n == 0
    then pending_approval
    else if n == 1
    then started
    else if n == 2
    then today
    else if n == 3
    then tomorrow
    else if n == 4
    then next_7_days
    else if n == 5
    then later_this_month
    else if n == 6
    then future
    else if n == 7
    then overdue
    else general

of_index-index : (b : Bucket) → of_index (index b) ≡ b
of_index-index pending_approval = refl
of_index-index started = refl
of_index-index today = refl
of_index-index tomorrow = refl
of_index-index next_7_days = refl
of_index-index later_this_month = refl
of_index-index future = refl
of_index-index overdue = refl
of_index-index general = refl

abbrev pub same_bucket : Bucket → Bucket → Bool
same_bucket a b = nat_beq (index a) (index b)

pub same_bucket_iff : (a b : Bucket) → (same_bucket a b ≡ true) ↔ (a ≡ b)
same_bucket_iff a b = (
  λ h. sym (of_index-index a) ∙ ap of_index ((nat_beq_iff _ _).0 h) ∙ of_index-index b,
  λ e. (nat_beq_iff _ _).1 (ap index e),
)

instance abbrev pub bucket_eq : Eq Bucket
bucket_eq = record { test = same_bucket; test_iff = same_bucket_iff }

-- A section is pushed only if it holds a task.
abbrev pub unless_empty : Group → List Group
unless_empty g = elim g.content [ [] ↦ [] | _ ∷ _ ↦ g ∷ [] ]

module _ (host : Host) where
  -- The chain of tests of the case 'due_date'.
  unfoldable pub due_bucket : Chore → Bucket
  due_bucket c =
      let due = to_date host c.next_due_date in
      if c.next_due_date == null
      then general
      else if lt_number due (some host.now)
      then overdue
      else if same_date_string host due host.now
      then today
      else if same_date_string host due (host.now + hours 24)
      then tomorrow
      else if lt_number due (some (host.now + hours 192))
          && lt_number (some (host.now + hours 24)) due
      then next_7_days
      else if same_month host due host.now
      then later_this_month
      else future

  -- The case 'default' tests the status first.
  unfoldable pub default_bucket : Chore → Bucket
  unfolding due_bucket
  default_bucket c =
      if c.status == num 1 || c.status == num 2
      then started
      else if c.status == num 3
      then pending_approval
      else due_bucket c

  unfoldable pub default_groups : List Chore → List Group
  default_groups cs =
      let raw = collect default_bucket cs in
      unless_empty (group "Started" (raw started) undefined)
      ++ (unless_empty (group "Pending Approval" (raw pending_approval) (str "#f6ad55"))
          ++ (unless_empty (group "Overdue" (raw overdue) (str "#F03A47"))
              ++ (unless_empty (group "Today" (raw today) (str "#ffc107"))
                  ++ (unless_empty (group "Tomorrow" (raw tomorrow) (str "#4ec1a2"))
                      ++ (unless_empty (group "Next 7 Days" (raw next_7_days) (str "#00bcd4"))
                          ++ (unless_empty
                                (group "Later This Month" (raw later_this_month) (str "#b39ddb"))
                              ++ (unless_empty (group "Future" (raw future) (str "#d7ccc8"))
                                  ++ unless_empty
                                      (group "General Tasks" (raw general) (str "#90a4ae")))))))))

  unfoldable pub due_date_groups : List Chore → List Group
  due_date_groups cs =
      let raw = collect due_bucket cs in
      group "Overdue" (raw overdue) (str "#F03A47")
      ∷ group "Today" (raw today) (str "#ffc107")
      ∷ group "Tomorrow" (raw tomorrow) (str "#4ec1a2")
      ∷ group "Next 7 Days" (raw next_7_days) (str "#00bcd4")
      ∷ group "Later This Month" (raw later_this_month) (str "#b39ddb")
      ∷ group "Future" (raw future) (str "#d7ccc8")
      ∷ group "General Tasks" (raw general) (str "#90a4ae")
      ∷ []

-- The case 'priority': a class from 1 to 4, or 0 for all else.
unfoldable pub priority_class : Scalar → ℕ
priority_class p =
    if same p (num 1)
    then 1
    else if same p (num 2)
    then 2
    else if same p (num 3)
    then 3
    else if same p (num 4)
    then 4
    else 0

unfoldable pub priority_groups : List Chore → List Group
priority_groups cs =
    let raw = collect (λ (c : Chore). priority_class c.priority) cs in
    group "Priority 1" (raw 1) (str "#d32f2f")
    ∷ group "Priority 2" (raw 2) (str "#ed6c02")
    ∷ group "Priority 3" (raw 3) (str "#0288d1")
    ∷ group "Priority 4" (raw 4) (str "#90a4ae")
    ∷ group "No Priority" (raw 0) (str "#90a4ae80")
    ∷ []
