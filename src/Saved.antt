-- ===== src/Saved.antt =====
-- The saved and the temporary filter of `useCustomFilters`,
-- ui/src/views/Chores/hooks/useCustomFilters.js. What a memo holds is computed where it is read.
pub mod Laws
pub mod Queries
pub mod Insights
pub mod Creation
use gsd.Prelude.{
  ℕ, Bool, true, false, not, ◌||◌, String, Option, none, some, List, [], ◌∷◌, any, find?,
  if◌then◌else◌, ◌==◌, string_eq,
}
use gsd.Js.{Scalar, null, truthy, scalar_eq}
use gsd.Js.Calls.{Call, returns, throws, ◌>>=◌}
use gsd.Dates.{Host}
use gsd.Chores.{Chore}
use gsd.Filter.{Condition, Context, Filter}
use gsd.Filter.Apply.{apply_filter, get_filter_count, get_filter_overdue_count}
use gsd.Filter.Validate.{validate_filter}

pub record SavedFilter : Type 0 where
  pub id : Scalar
  pub filter : Filter

pub record Counted : Type 0 where
  pub saved : SavedFilter
  pub count : ℕ
  pub overdue_count : ℕ
  pub is_valid : Bool
  pub issues : List String

pub record Choice : Type 0 where
  pub active_filter_id : Scalar
  pub temp_filter : Option Filter
  pub temp_filter_meta : Scalar

abbrev pub new_choice : Choice
new_choice = record { active_filter_id = null; temp_filter = none; temp_filter_meta = null }

unfoldable pub apply_custom_filter : Scalar → Choice → Choice
apply_custom_filter id s = record s { active_filter_id = id }

unfoldable pub clear_active_filter : Choice → Choice
clear_active_filter s = new_choice

-- `meta` is named by its id, or `null`.
unfoldable pub apply_temp_filter : Filter → Scalar → Choice → Choice
apply_temp_filter f meta s = record {
  active_filter_id = null;
  temp_filter = some f;
  temp_filter_meta = meta;
}

unfoldable pub clear_temp_filter : Choice → Choice
clear_temp_filter s = record s { temp_filter = none; temp_filter_meta = null }

-- The filter is deleted on the server beside this.
unfoldable pub delete_filter : Scalar → Choice → Choice
delete_filter id s = if s.active_filter_id == id then record s { active_filter_id = null } else s

unfoldable pub has_filter_applied : Choice → Bool
has_filter_applied s =
    not (s.active_filter_id == null) || elim s.temp_filter [ none ↦ false | some _ ↦ true ]

abbrev is_project_condition : Condition → Bool
is_project_condition c = c.type == "project"

abbrev has_project : Option Counted → Bool
has_project none = false
has_project (some f) = elim f.saved.filter.conditions [
  | none ↦ false
  | some cs ↦ any is_project_condition cs
]

abbrev count_if : Bool → Call ℕ → Call ℕ
count_if valid n = if valid then n else returns 0

module _ (host : Host) (context : Context) where
  with_counts : List Chore → SavedFilter → Call Counted
  with_counts cs f = do
    let validation = validate_filter context f.filter
    count ← count_if validation.is_valid (get_filter_count host context cs (some f.filter))
    overdue ←
        count_if validation.is_valid (get_filter_overdue_count host context cs (some f.filter))
    returns (record {
      saved = f;
      count = count;
      overdue_count = overdue;
      is_valid = validation.is_valid;
      issues = validation.issues;
    })

  all_with_counts : List Chore → List SavedFilter → Call (List Counted)
  unfolding with_counts
  all_with_counts cs [] = returns []
  all_with_counts cs (f ∷ fs) = do
    counted ← with_counts cs f
    rest ← all_with_counts cs fs
    returns (counted ∷ rest)

  -- `none`: the tasks are missing, or no array.
  unfoldable pub filters_with_counts : Option (List Chore) → List SavedFilter → Call (List Counted)
  unfolding all_with_counts
  filters_with_counts none fs = returns []
  filters_with_counts (some cs) fs = all_with_counts cs fs

  unfoldable pub active_filter : List Counted → Choice → Option Counted
  active_filter fs s =
      if truthy s.active_filter_id
      then find? (λ (f : Counted). f.saved.id == s.active_filter_id) fs
      else none

  unfoldable pub has_project_conditions : List Counted → Choice → Bool
  has_project_conditions fs s = has_project (active_filter fs s)

  abbrev apply_active : List Chore → Option Counted → Call (List Chore)
  apply_active cs none = returns cs
  apply_active cs (some f) =
      if f.is_valid then apply_filter host context cs (some f.saved.filter) else returns cs

  abbrev apply_choice : List Chore → Option Filter → Option Counted → Call (List Chore)
  apply_choice cs (some f) active = apply_filter host context cs (some f)
  apply_choice cs none active = apply_active cs active

  -- What the hook selects; the page narrows it further. The filters with their counts come first in a
  -- rendering; it fails where they throw.
  unfoldable pub filtered_chores : List Chore → List SavedFilter → Choice → Call (List Chore)
  filtered_chores cs fs s = do
    counted ← filters_with_counts (some cs) fs
    apply_choice cs s.temp_filter (active_filter counted s)
