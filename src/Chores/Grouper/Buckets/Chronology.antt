-- ===== src/Chores/Grouper/Buckets/Chronology.antt =====
-- The sections by due date follow one another in time.
use gsd.Prelude.{
  ℕ, ◌+◌, ◌≤◌, ◌≡◌, refl, ◌≢◌, ltb, ◌&&◌, if◌then◌else◌, false, some, arith, ◌==◌, nat_eq,
}
use gsd.Js.{null, same, scalar_eq, same_iff}
use gsd.Dates.{Host, IsCalendar, day_mono, hours, same_month, to_date}
use gsd.Chores.{Chore}
use gsd.Chores.Grouper.Buckets.{
  Bucket, today, tomorrow, next_7_days, later_this_month, future, overdue, due_bucket,
}

-- The place of a dated section.
abbrev pub place : Bucket → ℕ
place overdue = 0
place today = 1
place tomorrow = 2
place next_7_days = 3
place later_this_month = 4
place future = 5
place _ = 6

-- The chain of tests at an instant.
bucket_at : Host → ℕ → Bucket
bucket_at host x =
    if ltb x host.now
    then overdue
    else if host.day x == host.day host.now
    then today
    else if host.day x == host.day (host.now + hours 24)
    then tomorrow
    else if ltb x (host.now + hours 192) && ltb (host.now + hours 24) x
    then next_7_days
    else if same_month host (some x) host.now
    then later_this_month
    else future

due_bucket-eq-bucket_at :
    (host : Host) (c : Chore) (x : ℕ)
    → c.next_due_date ≢ null
    → to_date host c.next_due_date ≡ some x
    → due_bucket host c ≡ bucket_at host x
unfolding due_bucket bucket_at
due_bucket-eq-bucket_at host c x n e =
    let ne : same c.next_due_date null ≡ false = ground (arith, same_iff c.next_due_date null) in
    rw (ne, e) refl

bucket_at_mono :
    (host : Host) (s t : ℕ)
    → IsCalendar host
    → host.day (host.now + hours 24) ≡ host.day host.now + 1
    → s ≤ t
    → place (bucket_at host s) ≤ place (bucket_at host t)
unfolding bucket_at
bucket_at_mono host s t cal next le = ground (
  arith,
  day_mono host cal s t,
  day_mono host cal host.now s,
  day_mono host cal host.now t,
  day_mono host cal (host.now + hours 24) t,
  day_mono host cal t (host.now + hours 24),
  day_mono host cal s (host.now + hours 24),
  cal.month_run (host.day host.now) (host.day s) (host.day t),
)

-- On a lawful calendar, if the instant one day ahead lies in the next local day, and the due dates
-- of two tasks can be read, the task that is due no later than the other stands in the same
-- section or in one nearer to now.
pub due_bucket_mono :
    (host : Host) (a b : Chore) (s t : ℕ)
    → IsCalendar host
    → host.day (host.now + hours 24) ≡ host.day host.now + 1
    → (a.next_due_date ≢ null) × (to_date host a.next_due_date ≡ some s)
    → (b.next_due_date ≢ null) × (to_date host b.next_due_date ≡ some t)
    → s ≤ t
    → place (due_bucket host a) ≤ place (due_bucket host b)
due_bucket_mono host a b s t cal next (na, ea) (nb, eb) le =
    rw (due_bucket-eq-bucket_at host a s na ea, due_bucket-eq-bucket_at host b t nb eb)
      (bucket_at_mono host s t cal next le)
