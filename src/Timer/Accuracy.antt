-- ===== src/Timer/Accuracy.antt =====
-- The measured time of a session with pauses.
use gsd.Prelude.{
  ℕ, ◌+◌, ◌-◌, ◌*◌, ◌/◌, ◌≤◌, ◌<◌, ◌≡◌, refl, ◌∙◌, Bool, true, false, some, List, [], ◌∷◌,
  if◌then◌else◌, nat_eq, arith, length, All,
}
use gsd.Prelude.Int.{ℤ, pos, ◌+ℤ◌}
use gsd.Timer.{
  elapsed, running, paused, Timer, running_since, update_time, start_timer, pause_timer,
  resume_timer, same_time,
}

-- A running timer that has started at `s` and holds `p` seconds.
pub record IsRunning (s p : ℕ) (t : Timer) : Type 0 where
  pub state : t.timer_state ≡ running
  pub start : t.start_time ≡ some s
  pub held : t.paused_time ≡ pos p

pub record IsPaused (p : ℕ) (t : Timer) : Type 0 where
  pub state : t.timer_state ≡ paused
  pub held : t.paused_time ≡ pos p

pub elapsed_lem : (now s : ℕ) → s ≤ now → elapsed now s ≡ pos ((now - s) / 1000)
unfolding elapsed
elapsed_lem now s h = ground arith

running_since_lem : (s p : ℕ) (t : Timer) → 0 < s → IsRunning s p t → running_since t ≡ some s
unfolding running_since
running_since_lem s p t h r = rw (r.state, r.start) (ground arith)

update_time-IsRunning :
    (now s p : ℕ) (t : Timer) → 0 < s → IsRunning s p t → IsRunning s p (update_time now t)
unfolding update_time
update_time-IsRunning now s p t h r =
    rw (running_since_lem s p t h r, update_time) (kept (same_time new t.last_notified_time))
  where
    new : ℤ
    new = t.paused_time +ℤ elapsed now s

    kept :
        (b : Bool)
        → IsRunning s p (
            if b
            then record t { time = new }
            else record t { time = new; last_notified_time = new; notified = new ∷ t.notified })
    kept true = record { state = r.state; start = r.start; held = r.held }
    kept false = record { state = r.state; start = r.start; held = r.held }

new_time :
    (now s p : ℕ) (t : Timer)
    → s ≤ now
    → IsRunning s p t
    → t.paused_time +ℤ elapsed now s ≡ pos (p + (now - s) / 1000)
unfolding ◌+ℤ◌
new_time now s p t k r = rw (elapsed_lem now s k, r.held) refl

update_time-time :
    (now s p : ℕ) (t : Timer)
    → 0 < s
    → s ≤ now
    → IsRunning s p t
    → (update_time now t).time ≡ pos (p + (now - s) / 1000)
unfolding update_time
update_time-time now s p t h k r =
    rw (running_since_lem s p t h r, update_time) (shown (same_time new t.last_notified_time))
    ∙ new_time now s p t k r
  where
    new : ℤ
    new = t.paused_time +ℤ elapsed now s

    shown :
        (b : Bool)
        → (if b then record t { time = new } else record t {
          time = new;
          last_notified_time = new;
          notified = new ∷ t.notified;
        }).time
          ≡ new
    shown true = refl
    shown false = refl

pause_timer-IsPaused :
    (now s p : ℕ) (t : Timer)
    → 0 < s
    → s ≤ now
    → IsRunning s p t
    → IsPaused (p + (now - s) / 1000) (pause_timer now t)
unfolding pause_timer
pause_timer-IsPaused now s p t h k r =
    rw (running_since_lem s p t h r, pause_timer)
      (record { state = refl; held = new_time now s p t k r })

resume_timer-IsRunning :
    (now p : ℕ) (t : Timer) → IsPaused p t → IsRunning now p (resume_timer now t)
unfolding resume_timer
resume_timer-IsRunning now p t h =
    rw (h.state, resume_timer) (record { state = refl; start = refl; held = h.held })

-- A time in which the timer runs, with the ticks of its interval.
pub record Segment : Type 0 where
  pub from : ℕ
  pub ticks : List ℕ
  pub till : ℕ

abbrev pub IsForward : Segment → Type 0
IsForward g = (0 < g.from) × (g.from ≤ g.till)

abbrev pub total : List Segment → ℕ
total [] = 0
total (g ∷ gs) = (g.till - g.from) + total gs

abbrev ticked : List ℕ → Timer → Timer
ticked [] t = t
ticked (now ∷ nows) t = ticked nows (update_time now t)

abbrev play : Segment → Timer → Timer
play g t = pause_timer g.till (ticked g.ticks t)

abbrev resumed : List Segment → Timer → Timer
resumed [] t = t
resumed (g ∷ gs) t = resumed gs (play g (resume_timer g.from t))

-- The timer is started, and paused and resumed in turn; it ends paused.
abbrev pub session : Segment → List Segment → Timer → Timer
session g gs t = resumed gs (play g (start_timer g.from t))

ticked-IsRunning :
    (nows : List ℕ) (s p : ℕ) (t : Timer) → 0 < s → IsRunning s p t → IsRunning s p (ticked nows t)
ticked-IsRunning [] s p t h r = r
ticked-IsRunning (now ∷ nows) s p t h r =
    ticked-IsRunning nows s p (update_time now t) h (update_time-IsRunning now s p t h r)

play-IsPaused :
    (g : Segment) (p : ℕ) (t : Timer)
    → IsForward g
    → IsRunning g.from p t
    → IsPaused (p + (g.till - g.from) / 1000) (play g t)
play-IsPaused g p t (a, b) r =
    pause_timer-IsPaused g.till g.from p (ticked g.ticks t) a b
      (ticked-IsRunning g.ticks g.from p t a r)

-- `d` milliseconds in `k` segments, measured as `n` seconds.
abbrev pub Measures : ℕ → ℕ → ℕ → Type 0
Measures n d k = (1000 * n ≤ d) × (d ≤ 1000 * (n + k))

measure_more : (n d k x : ℕ) → Measures n d k → Measures (n + x / 1000) (d + x) (k + 1)
measure_more n d k x (a, b) = (omega arith, omega arith)

resumed-Measures :
    (gs : List Segment) (n d k : ℕ) (t : Timer)
    → All IsForward gs
    → IsPaused n t
    → Measures n d k
    → (m : ℕ) × IsPaused m (resumed gs t) × Measures m (d + total gs) (k + length gs)
resumed-Measures [] n d k t h p m = (n, p, (omega arith, omega arith))
resumed-Measures (g ∷ gs) n d k t (h, hs) p m =
    let x = g.till - g.from in
    let (m', paused', (a, b)) =
      resumed-Measures gs (n + x / 1000) (d + x) (k + 1) (play g (resume_timer g.from t)) hs
        (play-IsPaused g n (resume_timer g.from t) h (resume_timer-IsRunning g.from n t p))
        (measure_more n d k x m) in
    (m', paused', (omega arith, omega arith))

start_timer-IsRunning : (now : ℕ) (t : Timer) → IsRunning now 0 (start_timer now t)
unfolding start_timer
start_timer-IsRunning now t = record { state = refl; start = refl; held = refl }

-- However often the interval ticks, a session whose clock does not run back ends with a number of
-- whole seconds that is at most the time for which the timer ran, and falls short of it by at most one
-- second for each time that it ran; after the next resumption a tick shows these seconds and those
-- that have passed since.
pub session_lem :
    (g : Segment) (gs : List Segment) (t : Timer)
    → All IsForward (g ∷ gs)
    → (n : ℕ) × IsPaused n (session g gs t)
      × Measures n (total (g ∷ gs)) (length (g ∷ gs))
      × ((s now : ℕ)
          → 0 < s
          → s ≤ now
          → (update_time now (resume_timer s (session g gs t))).time ≡ pos (n + (now - s) / 1000))
session_lem g gs t (h, hs) =
    let x = g.till - g.from in
    let (n, stopped_at, (a, b)) =
      resumed-Measures gs (0 + x / 1000) (0 + x) (0 + 1) (play g (start_timer g.from t)) hs
        (play-IsPaused g 0 (start_timer g.from t) h (start_timer-IsRunning g.from t))
        (measure_more 0 0 0 x (omega arith, omega arith)) in
    (
      n,
      stopped_at,
      (omega arith, omega arith),
      λ s now p q.
          update_time-time now s n (resume_timer s (session g gs t)) p q
            (resume_timer-IsRunning s n (session g gs t) stopped_at),
    )
