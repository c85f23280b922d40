-- ===== src/Saved/Insights/Laws.antt =====
-- The insights, the filters that they set, and the quick filters of the same names.
use gsd.Prelude.{
  ℕ, ◌+◌, ◌≡◌, ◌≢◌, refl, ◌∙◌, ◌⊎◌, inl, inr, Bool, true, false, ◌&&◌, ◌||◌, String, Option, none,
  some, List, [], ◌∷◌, filter, All, arith, if◌then◌else◌,
}
use gsd.Js.{Scalar, one, null, num, truthy, to_number, le_number, lt_number, scalar_eq, same_iff}
use gsd.Js.Calls.{returns, every_call, filter_call, ◌>>=◌}
use gsd.Dates.{Host, IsCalendar, same_date_string, midnight_le_iff, to_date}
use gsd.Chores.{Chore}
use gsd.Filter.{Context}
use gsd.Filter.Conditions.{evaluate_condition, evaluate_status, evaluate_priority}
use gsd.Filter.DueDate.{evaluate_due_date, due_switch, days_ahead}
use gsd.Filter.DueDate.Week.{day-midnight}
use gsd.Filter.Apply.{apply_filter}
use gsd.Filter.Apply.Laws.{apply_filter-and}
use gsd.Saved.{Choice, new_choice, apply_temp_filter, clear_temp_filter}
use gsd.Saved.Insights.{
  Insight, condition_of, insight_filter, detects, quick_filter, is_insight_active,
  handle_insight_click,
}
use gsd.Saved.Insights.Insight.{
  overdue, due_today, pending_approval, due_this_week, high_priority, no_due_date,
}

-- A task as the server sends it: numbers for status and priority, and a due date or `null`.
abbrev pub IsTyped : Chore → Type 0
IsTyped c =
    ((n : ℕ) × (c.status ≡ num n))
    × ((n : ℕ) × (c.priority ≡ num n))
    × ((c.next_due_date ≡ null) ⊎ (truthy c.next_due_date ≡ true))

-- What the filter of an insight shows.
abbrev pub shows : Host → Insight → Chore → Bool
shows host due_this_week c = detects host due_today c || detects host due_this_week c
shows host i c = detects host i c

module _ (host : Host) (context : Context) where
  due_date_condition :
      (c : Chore) (operator : String)
      → evaluate_condition host context c
          (record { type = "dueDate"; operator = operator; value = one null })
        ≡ evaluate_due_date host c operator (one null)
  unfolding evaluate_condition
  due_date_condition c operator = refl

  status_shows :
      (c : Chore)
      → IsTyped c
      → evaluate_condition host context c (condition_of pending_approval)
        ≡ returns (detects host pending_approval c)
  unfolding evaluate_condition evaluate_status detects to_number
  status_shows c ((n, e), _, _) = rw e (ground (arith, same_iff (num n) (num 3)))

  priority_shows :
      (c : Chore)
      → IsTyped c
      → evaluate_condition host context c (condition_of high_priority)
        ≡ returns (detects host high_priority c)
  unfolding evaluate_condition evaluate_priority detects to_number
  priority_shows c (_, (n, e), _) = rw e (ground (arith, same_iff (num n) (num 1)))

  -- A missing due date is `null`.
  dated :
      (c : Chore) (i : Insight)
      → IsTyped c
      → (c.next_due_date ≡ null
          → evaluate_condition host context c (condition_of i) ≡ returns (shows host i c))
      → (truthy c.next_due_date ≡ true
          → evaluate_condition host context c (condition_of i) ≡ returns (shows host i c))
      → evaluate_condition host context c (condition_of i) ≡ returns (shows host i c)
  dated c i (_, _, inl e) f g = f e
  dated c i (_, _, inr e) f g = g e

  module _ (cal : IsCalendar host) where
    week_shows :
        (d : Option ℕ)
        → due_switch host d "isDueThisWeek" (one null)
          ≡ returns (
              same_date_string host d (host.midnight (host.day host.now))
              || (le_number (days_ahead host 1) d && lt_number d (days_ahead host 7)))
    unfolding due_switch
    week_shows none = refl
    week_shows (some due) = ground (
      arith,
      day-midnight host cal (host.day host.now),
      midnight_le_iff host cal (host.day host.now + 0) due,
      midnight_le_iff host cal (host.day host.now + 1) due,
      midnight_le_iff host cal (host.day host.now + 7) due,
    )

    pub condition_shows :
        (i : Insight) (c : Chore)
        → IsTyped c
        → evaluate_condition host context c (condition_of i) ≡ returns (shows host i c)
    unfolding evaluate_due_date detects evaluate_condition due_switch
    condition_shows overdue c h = dated c overdue h (λ e. rw e refl) (λ e. rw e refl)
    condition_shows due_today c h = dated c due_today h (λ e. rw e refl) (λ e. rw e refl)
    condition_shows pending_approval c h = status_shows c h
    condition_shows due_this_week c h =
        dated c due_this_week h (λ e. rw e refl)
          (λ e. rw e (week_shows (to_date host c.next_due_date)))
    condition_shows high_priority c h = priority_shows c h
    condition_shows no_due_date c h =
        dated c no_due_date h (λ e. rw e refl) (λ e. ground (arith, same_iff c.next_due_date null))

    filter_call-shows :
        (i : Insight) (cs : List Chore)
        → All IsTyped cs
        → filter_call (λ c. every_call (evaluate_condition host context c) (condition_of i ∷ [])) cs
          ≡ returns (filter (shows host i) cs)
    unfolding filter_call every_call
    filter_call-shows i [] h = refl
    filter_call-shows i (c ∷ cs) (h, hs) =
        rw (condition_shows i c h, filter_call-shows i cs hs) (kept (shows host i c))
      where
        kept :
            (b : Bool)
            → (do
              b' ← if b then returns true else returns false
              returns (if b' then c ∷ filter (shows host i) cs else filter (shows host i) cs))
              ≡ returns (if b then c ∷ filter (shows host i) cs else filter (shows host i) cs)
        kept true = refl
        kept false = refl

    -- For tasks as the server sends them, the filter of an insight shows exactly the tasks that the card
    -- counts for it, but for "Due This Week", whose filter also shows the tasks that are due today, which
    -- the card counts apart.
    pub apply_filter-insight_filter :
        (i : Insight) (cs : List Chore)
        → All IsTyped cs
        → apply_filter host context cs (some (insight_filter i))
          ≡ returns (filter (shows host i) cs)
    apply_filter-insight_filter i cs h =
        apply_filter-and host context cs (condition_of i ∷ []) ∙ filter_call-shows i cs h

  same_today :
      IsCalendar host
      → (d : Option ℕ)
      → same_date_string host d host.now
        ≡ same_date_string host d (host.midnight (host.day host.now))
  same_today cal none = refl
  same_today cal (some d) = rw (day-midnight host cal (host.day host.now)) refl

  -- The quick filters "Overdue", "No Due Date", "Pending Approval" and, after the day of the epoch, "Due
  -- today" select the tasks that the insights of these names count.
  pub quick_filter-detects :
      (user : Scalar) (c : Chore)
      → IsTyped c
      → IsCalendar host
      → host.day 0 ≢ host.day host.now
      → (quick_filter host "Overdue" user c ≡ detects host overdue c)
        × (quick_filter host "No Due Date" user c ≡ detects host no_due_date c)
        × (quick_filter host "Pending Approval" user c ≡ detects host pending_approval c)
        × (quick_filter host "Due today" user c ≡ detects host due_today c)
  unfolding quick_filter detects
  quick_filter-detects user c (_, _, inl e) cal old = rw e (refl, refl, refl, ground (arith, old))
  quick_filter-detects user c (_, _, inr e) cal old = rw e (
    ground (arith, same_iff c.next_due_date null),
    ground (arith, same_iff c.next_due_date null),
    refl,
    same_today cal (to_date host c.next_due_date),
  )

  -- A click on an insight that is not active sets its filter and makes it the active insight, and a
  -- second click takes the filter away, after which no filter is set, saved ones included.
  pub handle_insight_click_twice :
      (i : Insight) (s : Choice)
      → is_insight_active i s ≡ false
      → (let once = handle_insight_click i s in
          (once.temp_filter ≡ some (insight_filter i))
          × (is_insight_active i once ≡ true)
          × (handle_insight_click i once ≡ new_choice))
  unfolding handle_insight_click is_insight_active apply_temp_filter clear_temp_filter
  handle_insight_click_twice overdue s h = rw h (refl, refl, refl)
  handle_insight_click_twice due_today s h = rw h (refl, refl, refl)
  handle_insight_click_twice pending_approval s h = rw h (refl, refl, refl)
  handle_insight_click_twice due_this_week s h = rw h (refl, refl, refl)
  handle_insight_click_twice high_priority s h = rw h (refl, refl, refl)
  handle_insight_click_twice no_due_date s h = rw h (refl, refl, refl)
