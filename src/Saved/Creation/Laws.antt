-- ===== src/Saved/Creation/Laws.antt =====
-- What the filter of the current state selects, beside what the view shows.
use text.Mathlib.TextEquality.{eq_iff}
use gsd.Prelude.{
  suc, ℕ, ◌≡◌, ◌≢◌, refl, sym, ◌∙◌, ◌⊎◌, inl, inr, Bool, true, false, not, ◌||◌, String, some, List,
  [], ◌∷◌, ◌++◌, filter, filter_all, All, All-map, All-filter_of, arith, ap, if◌then◌else◌, ◌==◌,
  string_eq, nat_eq, Bool-cases,
}
use gsd.Js.{Scalar, null, num, str, one, scalar_eq, to_text, decimal, truthy}
use gsd.Js.Texts.{decimal-inj, null-decimal}
use gsd.Js.Calls.{returns, every_call}
use gsd.Dates.{Host, IsCalendar}
use gsd.Chores.{Chore, Label}
use gsd.Chores.Filters.{ChoreFilter, chore_filter, filter_by_project}
use gsd.Chores.Filters.ChoreFilter.{anyone, created_by_me}
use gsd.Filter.{Condition, Context, Filter}
use gsd.Filter.Conditions.{evaluate_condition, evaluate_project, evaluate_created_by}
use gsd.Filter.Apply.{apply_filter}
use gsd.Filter.Apply.Laws.{filter_of, apply_filter-and, apply_filter-append, filter_call-filter}
use gsd.Saved.Creation.{
  CurrentState, project_conditions, filter_map, search_conditions, create_filter_from_current_state,
}
use gsd.Saved.Insights.{Insight, condition_of, quick_filter}
use gsd.Saved.Insights.Insight.{overdue, due_today, pending_approval, no_due_date}
use gsd.Saved.Insights.Laws.{IsTyped, shows, condition_shows, quick_filter-detects}
use gsd.TaskView.{in_project}

-- A task as the server sends it: a number or `null` for its project, a number for its creator.
abbrev IsSent : Chore → Type 0
IsSent c =
    IsTyped c
    × ((c.project_id ≡ null) ⊎ ((n : ℕ) × (c.project_id ≡ num n)))
    × ((n : ℕ) × (c.created_by ≡ num n))

-- The default project, or one with a number.
abbrev IsProject : Scalar → Type 0
IsProject p = (p ≡ str "default") ⊎ ((n : ℕ) × (p ≡ num (suc n)))

-- The search filters that an insight stands for.
abbrev IsSearch : String → Type 0
IsSearch name =
    (name ≡ "All")
    ⊎ (name ≡ "Overdue")
    ⊎ (name ≡ "Due today")
    ⊎ (name ≡ "No Due Date")
    ⊎ (name ≡ "Pending Approval")

same_text_num : (a b : ℕ) → (to_text (num a) == to_text (num b)) ≡ (num a == num b)
unfolding to_text
same_text_num a b = ground (arith, eq_iff (decimal a) (decimal b), decimal-inj a b)

null_text : (n : ℕ) → (to_text null == to_text (num n)) ≡ false
unfolding to_text
null_text n = ground (arith, eq_iff "null" (decimal n), null-decimal n)

truth : (b : Bool) → (if b then returns true else returns false) ≡ returns b
truth true = refl
truth false = refl

positive : (n : ℕ) → (suc n == 0) ≡ false
positive n = ground arith

module _ (host : Host) (context : Context) where
  -- A filter with one condition that does not throw.
  single :
      (d : Condition) (q : Chore → Bool) (cs : List Chore)
      → All (λ c. evaluate_condition host context c d ≡ returns (q c)) cs
      → apply_filter host context cs (filter_of "AND" (d ∷ [])) ≡ returns (filter q cs)
  unfolding every_call
  single d q cs h =
      apply_filter-and host context cs (d ∷ [])
      ∙ filter_call-filter _ q cs (All-map (λ c e. rw e (truth (q c))) cs h)

  -- Conditions of three kinds select what each kind selects of the rest.
  in_turn :
      (xs ys zs : List Condition) (cs one_kept two_kept all_kept : List Chore)
      → apply_filter host context cs (filter_of "AND" xs) ≡ returns one_kept
      → apply_filter host context one_kept (filter_of "AND" ys) ≡ returns two_kept
      → apply_filter host context two_kept (filter_of "AND" zs) ≡ returns all_kept
      → apply_filter host context cs (filter_of "AND" (xs ++ (ys ++ zs))) ≡ returns all_kept
  in_turn xs ys zs cs one_kept two_kept all_kept e f g =
      apply_filter-append host context cs xs (ys ++ zs)
      ∙ rw e (apply_filter-append host context one_kept ys zs ∙ rw f g)

  default_part :
      (c : Chore)
      → IsSent c
      → evaluate_condition host context c
          (record { type = "project"; operator = "is"; value = one (str "default") })
        ≡ returns (not (truthy c.project_id))
  unfolding evaluate_condition evaluate_project
  default_part c (_, inl e, _) = rw e refl
  default_part c (_, inr (n, e), _) = rw e (ground arith)

  number_part :
      (n : ℕ) (c : Chore)
      → IsSent c
      → evaluate_condition host context c
          (record { type = "project"; operator = "is"; value = one (num (suc n)) })
        ≡ returns (c.project_id == num (suc n))
  unfolding evaluate_condition evaluate_project
  number_part n c (_, inl e, _) = rw (e, null_text (suc n)) refl
  number_part n c (_, inr (m, e), _) = rw (e, same_text_num m (suc n)) (ground arith)

  project_part :
      (p : Scalar) (cs : List Chore)
      → IsProject p
      → All IsSent cs
      → apply_filter host context cs (filter_of "AND" (project_conditions (some p)))
        ≡ returns (in_project (some p) cs)
  unfolding in_project filter_by_project
  project_part p cs (inl e) h =
      rw e (single _ (λ c. not (truthy c.project_id)) cs (All-map default_part cs h))
  project_part p cs (inr (n, e)) h =
      rw (e, positive n)
        (single _ (λ c. c.project_id == num (suc n)) cs (All-map (number_part n) cs h))

  All-by_project :
      (p : Scalar) (cs : List Chore) → All IsSent cs → All IsSent (filter_by_project cs p)
  unfolding filter_by_project
  All-by_project p cs h =
      elim (Bool-cases (not (truthy p) || p == str "Default Project" || p == str "default")) [
        | inl e ↦ rw e (All-filter_of IsSent _ cs h)
        | inr e ↦ rw e (All-filter_of IsSent _ cs h)
      ]

  All-in_project :
      (p : Scalar) (cs : List Chore) → All IsSent cs → All IsSent (in_project (some p) cs)
  unfolding in_project
  All-in_project p cs h = elim (Bool-cases (p == str "default")) [
    | inl e ↦ rw e (All-filter_of IsSent (λ c. not (truthy c.project_id)) cs h)
    | inr e ↦ rw e (All-by_project p cs h)
  ]

  created_part :
      (u : ℕ) (c : Chore)
      → context.user_id ≡ num (suc u)
      → IsSent c
      → evaluate_condition host context c
          (record { type = "createdBy"; operator = "is"; value = one (str "me") })
        ≡ returns (chore_filter context.user_id created_by_me c)
  unfolding evaluate_condition evaluate_created_by chore_filter
  created_part u c k (_, _, (n, e)) = rw (e, k, positive u, same_text_num n (suc u)) (ground arith)

  filter_part :
      (f : ChoreFilter) (u : ℕ) (cs : List Chore)
      → (f ≡ anyone) ⊎ (f ≡ created_by_me)
      → context.user_id ≡ num (suc u)
      → All IsSent cs
      → apply_filter host context cs (filter_of "AND" (filter_map f))
        ≡ returns (filter (chore_filter context.user_id f) cs)
  unfolding chore_filter apply_filter
  filter_part f u cs (inl e) k h = rw (e, filter_all cs) refl
  filter_part f u cs (inr e) k h = rw e (single _ _ cs (All-map (λ c h. created_part u c k h) cs h))

  module _ (cal : IsCalendar host) where
    insight_part :
        (i : Insight) (name : String) (cs : List Chore)
        → ((c : Chore) → IsTyped c → quick_filter host name context.user_id c ≡ shows host i c)
        → All IsSent cs
        → apply_filter host context cs (filter_of "AND" (condition_of i ∷ []))
          ≡ returns (filter (quick_filter host name context.user_id) cs)
    insight_part i name cs q h =
        single (condition_of i) (quick_filter host name context.user_id) cs (
          All-map (λ c k. condition_shows host context cal i c k.0 ∙ ap returns (sym (q c k.0))) cs
            h)

    search_part :
        (labels : List Label) (name : String) (cs : List Chore)
        → IsSearch name
        → host.day 0 ≢ host.day host.now
        → All IsSent cs
        → (ds : List Condition) × (search_conditions labels name ≡ some ds)
          × (apply_filter host context cs (filter_of "AND" ds)
              ≡ returns (filter (quick_filter host name context.user_id) cs))
    unfolding search_conditions apply_filter quick_filter
    search_part labels name cs (inl e) old h = rw e ([], refl, sym (ap returns (filter_all cs)))
    search_part labels name cs (inr (inl e)) old h = rw e (
      condition_of overdue ∷ [],
      refl,
      insight_part overdue "Overdue" cs
          (λ c k. (quick_filter-detects host context context.user_id c k cal old).0) h,
    )
    search_part labels name cs (inr (inr (inl e))) old h = rw e (
      condition_of due_today ∷ [],
      refl,
      insight_part due_today "Due today" cs
          (λ c k. (quick_filter-detects host context context.user_id c k cal old).3) h,
    )
    search_part labels name cs (inr (inr (inr (inl e)))) old h = rw e (
      condition_of no_due_date ∷ [],
      refl,
      insight_part no_due_date "No Due Date" cs
          (λ c k. (quick_filter-detects host context context.user_id c k cal old).1) h,
    )
    search_part labels name cs (inr (inr (inr (inr e)))) old h = rw e (
      condition_of pending_approval ∷ [],
      refl,
      insight_part pending_approval "Pending Approval" cs
          (λ c k. (quick_filter-detects host context context.user_id c k cal old).2) h,
    )

    -- On a calendar after the day of the epoch, for a user with a number from 1 on and tasks as the server
    -- sends them: where the default project or one with a number from 1 on is chosen, the tasks of anyone or
    -- those that the user created, and one of the search filters "All", "Overdue", "Due today", "No Due Date"
    -- and "Pending Approval", the filter that is created from this state selects the tasks that the project,
    -- the choice of tasks and the search filter of the view select in turn.
    pub create_filter-apply_filter :
        (labels : List Label) (s : CurrentState) (p : Scalar) (u : ℕ) (cs : List Chore)
        → s.selected_project ≡ some p
        → IsProject p
        → (s.selected_chore_filter ≡ anyone) ⊎ (s.selected_chore_filter ≡ created_by_me)
        → IsSearch s.search_filter
        → context.user_id ≡ num (suc u)
        → host.day 0 ≢ host.day host.now
        → All IsSent cs
        → (f : Filter) × (create_filter_from_current_state labels s ≡ some f)
          × (apply_filter host context cs (some f)
              ≡ returns (
                  filter (quick_filter host s.search_filter context.user_id) (
                    filter
                      (chore_filter context.user_id s.selected_chore_filter)
                      (in_project s.selected_project cs))))
    unfolding create_filter_from_current_state
    create_filter-apply_filter labels s p u cs e hp hf hs k old h =
        let one_project = in_project (some p) cs in
        let sent_one : All IsSent one_project = All-in_project p cs h in
        let two = filter (chore_filter context.user_id s.selected_chore_filter) one_project in
        let sent_two : All IsSent two =
          All-filter_of IsSent (chore_filter context.user_id s.selected_chore_filter) one_project
            sent_one in
        let (ds, made, found) = search_part labels s.search_filter two hs old sent_two in
        rw (e, made)
          (
            _,
            refl,
            (in_turn (project_conditions (some p)) (filter_map s.selected_chore_filter) ds cs
                one_project two _ (project_part p cs hp h)
                (filter_part s.selected_chore_filter u one_project hf k sent_one) found),
          )
