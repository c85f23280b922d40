-- ===== src/Timer.antt =====
-- `useTimer` of ui/src/hooks/useTimer.js. A callback sees the state of the last render, which is the
-- one it is called in. Times are in seconds, and below zero where the clock was set back.
pub mod Accuracy
use gsd.Prelude.Int.{ℤ, pos, negsuc, ◌+ℤ◌}
use gsd.Prelude.{
  ℕ, zero, suc, ◌+◌, ◌-◌, ◌/◌, Bool, true, false, not, Option, none, some, List, [], ◌∷◌,
  if◌then◌else◌, ◌==◌, nat_eq, leb, ltb,
}

abbrev same_time : ℤ → ℤ → Bool
same_time (pos a) (pos b) = a == b
same_time (negsuc a) (negsuc b) = a == b
same_time _ _ = false

-- `Math.floor((now - start) / 1000)`
unfoldable pub elapsed : ℕ → ℕ → ℤ
elapsed now start =
    if leb start now then pos ((now - start) / 1000) else negsuc ((start - now - 1) / 1000)

pub data TimerState : Type 0 where
  stopped running paused : TimerState

pub record Timer : Type 0 where
  pub timer_state : TimerState
  pub time : ℤ
  pub start_time : Option ℕ
  pub paused_time : ℤ
  pub last_notified_time : ℤ
  -- the calls of `onTimeUpdate`, latest first
  pub notified : List ℤ

-- The start of a running timer; zero is falsy.
unfoldable pub running_since : Timer → Option ℕ
running_since t = elim t.timer_state [
  | running ↦ elim t.start_time [ none ↦ none | some s ↦ if s == 0 then none else some s ]
  | _ ↦ none
]

unfoldable pub update_time : ℕ → Timer → Timer
update_time now t = elim (running_since t) [
  | none ↦ t
  | some s ↦
      let new_time = t.paused_time +ℤ elapsed now s in
      if same_time new_time t.last_notified_time then record t { time = new_time } else record t {
        time = new_time;
        last_notified_time = new_time;
        notified = new_time ∷ t.notified;
      }
]

unfoldable pub start_timer : ℕ → Timer → Timer
start_timer now t = record {
  timer_state = running;
  time = pos 0;
  start_time = some now;
  paused_time = pos 0;
  last_notified_time = pos 0;
  notified = pos 0 ∷ t.notified;
}

unfoldable pub pause_timer : ℕ → Timer → Timer
pause_timer now t = elim (running_since t) [
  | none ↦ t
  | some s ↦ record t { timer_state = paused; paused_time = t.paused_time +ℤ elapsed now s }
]

unfoldable pub resume_timer : ℕ → Timer → Timer
resume_timer now t = elim t.timer_state [
  | paused ↦ record t { timer_state = running; start_time = some now }
  | _ ↦ t
]

unfoldable pub stop_timer : Timer → Timer
stop_timer t = record {
  timer_state = stopped;
  time = pos 0;
  start_time = none;
  paused_time = pos 0;
  last_notified_time = pos 0;
  notified = pos 0 ∷ t.notified;
}

unfoldable pub reset_timer : Timer → Timer
unfolding stop_timer
reset_timer t = stop_timer t
