-- ===== src/Filter/DueDate/Week.antt =====
-- The operators on due dates, read on the local calendar.

use gsd.Prelude.{ℕ, ◌+◌, ◌≤◌, ◌<◌, ◌≡◌, ◌↔◌, true, some, arith, nat_eq}
use gsd.Js.{Value, truthy}
use gsd.Js.Calls.{returns}
use gsd.Dates.{Host, IsCalendar, midnight_le_iff, to_date}
use gsd.Chores.{Chore}
use gsd.Filter.DueDate.{evaluate_due_date}

module _ (host : Host) (cal : IsCalendar host) where
  pub day-midnight : (d : ℕ) → host.day (host.midnight d) ≡ d
  day-midnight d = ground (
    arith,
    midnight_le_iff host cal d (host.midnight d),
    midnight_le_iff host cal (host.day (host.midnight d)) (host.midnight d),
    cal.midnight_le (host.midnight d),
    cal.midnight_mono d (host.day (host.midnight d)),
  )

  -- On a lawful calendar, for a task whose due date can be read: it is due today, tomorrow or this
  -- week exactly if its local day is today's, the next one, or one of the seven from today on, and
  -- it is overdue exactly if its instant has passed.
  pub evaluate_due_date-days :
      (c : Chore) (due : ℕ) (value : Value)
      → truthy c.next_due_date ≡ true
      → to_date host c.next_due_date ≡ some due
      → ((evaluate_due_date host c "isDueToday" value ≡ returns true)
          ↔ (host.day due ≡ host.day host.now))
        × ((evaluate_due_date host c "isDueTomorrow" value ≡ returns true)
            ↔ (host.day due ≡ host.day host.now + 1))
        × ((evaluate_due_date host c "isDueThisWeek" value ≡ returns true)
            ↔ ((host.day host.now ≤ host.day due) × (host.day due < host.day host.now + 7)))
        × ((evaluate_due_date host c "isOverdue" value ≡ returns true) ↔ (due < host.now))
  unfolding evaluate_due_date
  evaluate_due_date-days c due value h e =
      rw (h, e)
        (
          ground (arith, day-midnight (host.day host.now)),
          ground (arith, day-midnight (host.day host.now + 1)),
          ground (
            arith,
            midnight_le_iff host cal (host.day host.now + 0) due,
            midnight_le_iff host cal (host.day host.now + 7) due,
          ),
          ground arith,
        )
