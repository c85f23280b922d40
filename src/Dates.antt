-- ===== src/Dates.antt =====
-- What the host gives `Date`: the clock, the reading of a date text, and the local calendar. They
-- are parameters of the model. Instants are milliseconds from 1970 on; an invalid date is `none`.
use gsd.Prelude.{
  ℕ, ◌+◌, ◌*◌, ◌≤◌, ◌<◌, ◌≡◌, ◌↔◌, arith, Bool, true, false, Option, none, some, String, leb,
  if◌then◌else◌, ◌==◌, nat_eq,
}
use gsd.Js.{Scalar, undefined, null, boolean, num, str, Value, one, many, value_text}

pub record Host : Type 0 where
  pub now : ℕ
  -- `new Date(text)`
  pub parse : String → Option ℕ
  -- the local day of an instant, counted from a fixed day, and the first instant of a day
  pub day : ℕ → ℕ
  pub midnight : ℕ → ℕ
  -- the month and the year of a day
  pub month : ℕ → ℕ
  pub year : ℕ → ℕ

-- A day lasts from its first instant to that of the next day.
pub record IsCalendar (host : Host) : Type 0 where
  pub midnight_le : (t : ℕ) → host.midnight (host.day t) ≤ t
  pub lt_midnight : (t : ℕ) → t < host.midnight (host.day t + 1)
  pub midnight_mono : (d e : ℕ) → d < e → host.midnight d < host.midnight e
  -- A month is a run of days.
  pub month_run :
      (c d e : ℕ)
      → c ≤ d
      → d ≤ e
      → host.month c ≡ host.month e
      → host.year c ≡ host.year e
      → (host.month d ≡ host.month e) × (host.year d ≡ host.year e)

module _ (host : Host) (cal : IsCalendar host) where
  -- A later instant lies in no earlier day.
  pub day_mono : (s t : ℕ) → s ≤ t → host.day s ≤ host.day t
  day_mono s t h =
      ground (
        arith,
        cal.midnight_le s,
        cal.lt_midnight t,
        cal.midnight_mono (host.day t + 1) (host.day s),
      )

  -- An instant lies in the day whose first instant it has passed, and whose successor's it has not.
  pub midnight_le_iff : (d t : ℕ) → (host.midnight d ≤ t) ↔ (d ≤ host.day t)
  midnight_le_iff d t = ground (
    arith,
    cal.midnight_le t,
    cal.lt_midnight t,
    cal.midnight_mono d (host.day t),
    cal.midnight_mono (host.day t + 1) d,
  )

abbrev pub hours : ℕ → ℕ
hours n = n * 3600000

module _ (host : Host) where
  -- `new Date(x)`
  abbrev pub to_date : Scalar → Option ℕ
  to_date undefined = none
  to_date null = some 0
  to_date (boolean false) = some 0
  to_date (boolean true) = some 1
  to_date (num n) = if leb n 8640000000000000 then some n else none
  to_date (str s) = host.parse s

  abbrev pub value_date : Value → Option ℕ
  value_date (one x) = to_date x
  value_date (many xs) = host.parse (value_text (many xs))

  -- Two instants have one `toDateString()` exactly if they lie in one local day.
  abbrev pub same_date_string : Option ℕ → ℕ → Bool
  same_date_string none t = false
  same_date_string (some d) t = host.day d == host.day t

  -- `getMonth()` and `getFullYear()` agree.
  abbrev pub same_month : Option ℕ → ℕ → Bool
  same_month none t = false
  same_month (some d) t =
      if host.month (host.day d) == host.month (host.day t)
      then host.year (host.day d) == host.year (host.day t)
      else false
