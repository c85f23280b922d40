-- ===== src/Tests/Views.antt =====
-- The saved filters, the insights and the sections at concrete tasks.
use mathlib.Core.List.{Perm}
use gsd.Prelude.{
  ◌≡◌, refl, inl, inr, true, false, none, some, List, [], ◌∷◌, filter, length, any, arith, nat_eq,
  string_eq,
}
use gsd.Js.{one, null, num, scalar_eq}
use gsd.Js.Calls.{returns, filter_call, every_call}
use gsd.Chores.{Chore}
use gsd.Chores.Filters.{chore_filter, anyone, created_by_me}
use gsd.Chores.Grouper.Sections.{Group}
use gsd.Chores.Grouper.Buckets.Laws.{contents}
use gsd.Filter.{Context, Filter}
use gsd.Filter.Apply.{apply_filter, matches, get_filter_count, get_filter_overdue_count, is_overdue}
use gsd.Filter.Conditions.{evaluate_condition}
use gsd.Filter.DueDate.{evaluate_due_date}
use gsd.Filter.Validate.{validate_filter}
use gsd.Saved.{
  SavedFilter, Counted, Choice, new_choice, filters_with_counts, active_filter, filtered_chores,
}
use gsd.Saved.Laws.{filtered_chores-count}
use gsd.Saved.Insights.{insight_filter, quick_filter}
use gsd.Saved.Insights.Insight.{overdue, due_this_week}
use gsd.Saved.Insights.Laws.{IsTyped, shows, apply_filter-insight_filter}
use gsd.Saved.Creation.{CurrentState, search_conditions, create_filter_from_current_state}
use gsd.Saved.Creation.Laws.{create_filter-apply_filter}
use gsd.Saved.Queries.{Cache, Settled, settle_all}
use gsd.Saved.Queries.Settled.{created, toggled, deleted, failed}
use gsd.Saved.Queries.Laws.{Shows, view, mean_all, settle_all-Shows}
use gsd.TaskView.{Choices, in_project, processed_sections, base_section_chores}
use gsd.TaskView.Laws.{visible, processed_sections-perm}
use gsd.TaskView.Shortcuts.{Press, Page, handle_key_down, is_bulk}
use gsd.Tests.{home, host, host-IsCalendar, dishes, weeding, tasks}

abbrev context : Context
context = record { user_id = num 5; members = []; labels = []; projects = [] }

abbrev week : SavedFilter
week = record { id = num 3; filter = insight_filter due_this_week }

abbrev chosen : Choice
chosen = record new_choice { active_filter_id = num 3 }

dishes-IsTyped : IsTyped dishes
dishes-IsTyped = ((0, refl), (2, refl), inr refl)

weeding-IsTyped : IsTyped weeding
weeding-IsTyped = ((0, refl), (1, refl), inr refl)

apply_filter-insight_filter_example :
    apply_filter host context tasks (some (insight_filter due_this_week))
    ≡ returns (filter (shows host due_this_week) tasks)
apply_filter-insight_filter_example =
    apply_filter-insight_filter host context host-IsCalendar due_this_week tasks
      (dishes-IsTyped, (weeding-IsTyped, tt))

abbrev counted : Counted
counted = record { saved = week; count = 2; overdue_count = 0; is_valid = true; issues = [] }

counts : filters_with_counts host context (some tasks) (week ∷ []) ≡ returns (counted ∷ [])
unfolding filters_with_counts get_filter_count get_filter_overdue_count apply_filter validate_filter
    filter_call matches every_call evaluate_condition evaluate_due_date
counts = refl

chosen-active : active_filter host context (counted ∷ []) chosen ≡ some counted
unfolding active_filter
chosen-active = refl

filtered_chores-count_example :
    (xs : List Chore) × (filtered_chores host context tasks (week ∷ []) chosen ≡ returns xs)
    × (2 ≡ length xs)
    × (0 ≡ length (filter (is_overdue host context) xs))
filtered_chores-count_example =
    filtered_chores-count host context tasks (week ∷ []) chosen (counted ∷ []) counted refl counts
      chosen-active refl

abbrev late : SavedFilter
late = record { id = num 4; filter = insight_filter overdue }

abbrev mutations : List Settled
mutations = created late ∷ toggled late ∷ failed ∷ deleted (num 3) ∷ []

abbrev cache : Cache
cache = record { filters = some (week ∷ []); single = λ id. none; invalidated = 0 }

settle_all-Shows_example :
    Shows (settle_all mutations cache) (mean_all mutations (view (week ∷ [])))
settle_all-Shows_example =
    settle_all-Shows mutations cache (view (week ∷ [])) (refl, (tt, (tt, (tt, tt))))
      (week ∷ [], refl, λ id. refl)

abbrev choices : Choices
choices = record {
  custom = none;
  search_filter = "All";
  filtered = [];
  selected_project = some (num 9);
  user = some (record { id = num 5; user_type = num 0; parent_user_id = null });
  impersonated = none;
  stored_assignee = null;
  hide_pending = true;
  chore_filter = anyone;
  section = "due_date";
}

processed_sections-perm_example :
    (gs : List Group) × (processed_sections host choices tasks ≡ returns gs)
    × Perm (contents gs) (filter (visible host choices) (base_section_chores choices tasks))
processed_sections-perm_example = processed_sections-perm host choices tasks (inr (inl refl))

abbrev enter : Press
enter = record { command = true; shift = false; key = "Enter"; in_text = false }

abbrev page : Page
page = record {
  multi_select = true;
  selected = num 1 ∷ [];
  modal_open = false;
  search_term = "";
  search_filter = "All";
  filtered = tasks;
  sections = some tasks ∷ [];
  open_sections = λ n. true;
}

entered : any is_bulk (handle_key_down enter page) ≡ true
unfolding handle_key_down
entered = refl

abbrev current : CurrentState
current = record {
  selected_project = some (num 9);
  selected_chore_filter = created_by_me;
  search_filter = "Due today";
}

searched :
    (search_conditions [] "Priority: 3 "
      ≡ some (record { type = "priority"; operator = "is"; value = one (num 3) } ∷ []))
    × (search_conditions [] "Priority: P3" ≡ none)
    × (search_conditions (home ∷ []) "Label: Home"
        ≡ some (record { type = "label"; operator = "has"; value = one (num 7) } ∷ []))
    × (search_conditions [] "Label: Home" ≡ some [])
unfolding search_conditions
searched = (refl, refl, refl, refl)

create_filter-apply_filter_example :
    (f : Filter) × (create_filter_from_current_state [] current ≡ some f)
    × (apply_filter host context tasks (some f)
        ≡ returns (
            filter
              (quick_filter host "Due today" (num 5))
              (filter (chore_filter (num 5) created_by_me) (in_project (some (num 9)) tasks))))
create_filter-apply_filter_example =
    create_filter-apply_filter host context host-IsCalendar [] current (num 9) 4 tasks refl
      (inr (8, refl)) (inr refl) (inr (inr (inl refl))) refl (omega arith)
      ((dishes-IsTyped, inl refl, (5, refl)), ((weeding-IsTyped, inr (9, refl), (5, refl)), tt))
