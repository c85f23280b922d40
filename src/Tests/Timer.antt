-- ===== src/Tests/Timer.antt =====
-- The timer in a concrete session.
use gsd.Prelude.{ℕ, ◌+◌, ◌-◌, ◌/◌, ◌<◌, ◌≤◌, ◌≡◌, [], ◌∷◌, none, length, arith}
use gsd.Prelude.Int.{pos}
use gsd.Timer.{Timer, stopped, update_time, resume_timer}
use gsd.Timer.Accuracy.{Segment, IsPaused, Measures, total, session, session_lem}

abbrev fresh : Timer
fresh = record {
  timer_state = stopped;
  time = pos 0;
  start_time = none;
  paused_time = pos 0;
  last_notified_time = pos 0;
  notified = [];
}

abbrev morning : Segment
morning = record { from = 1000; ticks = 1200 ∷ 1400 ∷ 2100 ∷ []; till = 2900 }

abbrev evening : Segment
evening = record { from = 9000; ticks = []; till = 12500 }

session_lem_example :
    (n : ℕ) × IsPaused n (session morning (evening ∷ []) fresh)
    × Measures n (total (morning ∷ evening ∷ [])) (length (morning ∷ evening ∷ []))
    × ((s now : ℕ)
        → 0 < s
        → s ≤ now
        → (update_time now (resume_timer s (session morning (evening ∷ []) fresh))).time
          ≡ pos (n + (now - s) / 1000))
session_lem_example =
    session_lem morning (evening ∷ []) fresh
      ((omega arith, omega arith), ((omega arith, omega arith), tt))
