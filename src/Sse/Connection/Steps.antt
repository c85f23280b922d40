-- ===== src/Sse/Connection/Steps.antt =====
-- The connection as a machine: every event, in any order, keeps its parts consistent.
use gsd.Prelude.{
  ℕ, ◌+◌, ◌≡◌, ◌≢◌, Bool, true, false, Option, none, some, List, [], ◌∷◌, arith, if◌then◌else◌,
}
use gsd.Sse.Connection.{
  closed, Closure, Reconnect, Connection, connect, disconnect, on_open, on_tick, on_heartbeat,
  on_established, Failure, on_error, Refresh, success, in_progress, resume, pick, on_refreshed,
  on_timer, on_reset, toggle_sse_enabled, auto_connect, on_visible,
}

pub data Event : Type 0 where
  open_event : ℕ → Event
  tick : ℕ → Event
  heartbeat established : ℕ → Event
  error_event : ℕ → Failure → Event
  refreshed : ℕ → ℕ → Refresh → Event
  timer reset : Event
  toggle render visible : Closure → Bool → Event
  close : Event

unfoldable pub step : Event → Connection → Connection
step (open_event now) c = on_open now c
step (tick now) c = on_tick now c
step (heartbeat now) c = on_heartbeat now c
step (established now) c = on_established now c
step (error_event now f) c = on_error now f c
step (refreshed i now r) c = on_refreshed i now r c
step timer c = on_timer c
step reset c = on_reset c
step (toggle k enabled) c = toggle_sse_enabled k enabled c
step (render k enabled) c = auto_connect k enabled c
step (visible k enabled) c = on_visible k enabled c
step close c = disconnect c

unfoldable pub run : List Event → Connection → Connection
run [] c = c
run (e ∷ es) c = run es (step e c)

abbrev pub initial : ℕ → Connection
initial now = record {
  state = closed;
  error = none;
  breaker = false;
  source = none;
  timer = none;
  attempts = 0;
  manually_closed = false;
  last_heartbeat = now;
  monitor = none;
  next_reconnect = none;
  scheduled = false;
  resets = 0;
  refreshes = [];
}

abbrev pub has {ℓ} : {A : Type ℓ} → Option A → Bool
has none = false
has (some _) = true

-- A scheduled reconnect has its timeout; a monitor, and a state other than closed, belong to an event
-- source; a connection that was closed by hand has none.
pub record IsConsistent (c : Connection) : Type 0 where
  pub timed : c.scheduled ≡ true → has c.timer ≡ true
  pub monitored : has c.monitor ≡ true → has c.source ≡ true
  pub live : c.state ≢ closed → has c.source ≡ true
  pub manual : c.manually_closed ≡ true → has c.source ≡ false

module _ {c : Connection} (h : IsConsistent c) where
  connect-IsConsistent : (k : Closure) → IsConsistent (connect k c)
  unfolding connect
  connect-IsConsistent k = ground arith

  disconnect-IsConsistent : IsConsistent (disconnect c)
  unfolding disconnect
  disconnect-IsConsistent = ground arith

  on_open-IsConsistent : (now : ℕ) → IsConsistent (on_open now c)
  unfolding on_open
  on_open-IsConsistent now = ground arith

  on_tick-IsConsistent : (now : ℕ) → IsConsistent (on_tick now c)
  unfolding on_tick
  on_tick-IsConsistent now = ground arith

  on_error-IsConsistent : (now : ℕ) (f : Failure) → IsConsistent (on_error now f c)
  unfolding on_error
  on_error-IsConsistent now f = ground arith

  resume-IsConsistent : (now : ℕ) (r : Refresh) (k : Closure) → IsConsistent (resume now r k c)
  unfolding resume
  resume-IsConsistent now success k = ground arith
  resume-IsConsistent now in_progress k = ground arith
  resume-IsConsistent now r k = ground arith

on_refreshed-IsConsistent :
    (i now : ℕ) (r : Refresh) {c : Connection}
    → IsConsistent c
    → IsConsistent (on_refreshed i now r c)
unfolding on_refreshed
on_refreshed-IsConsistent i now r {c} h = picked (pick i c.refreshes)
  where
    without : (ks : List Closure) → IsConsistent (record c { refreshes = ks })
    without ks = record {
      timed = h.timed;
      monitored = h.monitored;
      live = h.live;
      manual = h.manual;
    }

    picked :
        (o : Option (Closure × List Closure))
        → IsConsistent
            (elim o [ none ↦ c | some (k, ks) ↦ resume now r k (record c { refreshes = ks }) ])
    picked none = h
    picked (some (k, ks)) = resume-IsConsistent (without ks) now r k

on_timer-IsConsistent : {c : Connection} → IsConsistent c → IsConsistent (on_timer c)
unfolding on_timer
on_timer-IsConsistent {c} h = fired c.timer
  where
    fired :
        (t : Option Reconnect)
        → IsConsistent (elim t [
          | none ↦ c
          | some r ↦ connect r.closure (record c {
            timer = none;
            scheduled = false;
            attempts = if r.counts then c.attempts + 1 else c.attempts;
            next_reconnect = none;
          })
        ])
    fired none = h
    fired (some r) =
        connect-IsConsistent
          (record { timed = λ e. cc e; monitored = h.monitored; live = h.live; manual = h.manual })
          r.closure

-- Every event keeps the connection consistent.
pub step-IsConsistent : (e : Event) {c : Connection} → IsConsistent c → IsConsistent (step e c)
unfolding step on_heartbeat on_established on_reset toggle_sse_enabled auto_connect on_visible
step-IsConsistent (open_event now) h = on_open-IsConsistent h now
step-IsConsistent (tick now) h = on_tick-IsConsistent h now
step-IsConsistent (heartbeat now) h = ground arith
step-IsConsistent (established now) h = ground arith
step-IsConsistent (error_event now f) h = on_error-IsConsistent h now f
step-IsConsistent (refreshed i now r) h = on_refreshed-IsConsistent i now r h
step-IsConsistent timer h = on_timer-IsConsistent h
step-IsConsistent reset h = ground arith
step-IsConsistent (toggle k enabled) {c} h =
    ground (arith, connect-IsConsistent h k, disconnect-IsConsistent h)
step-IsConsistent (render k enabled) {c} h = ground (
  arith,
  connect-IsConsistent (disconnect-IsConsistent h) k,
  disconnect-IsConsistent (disconnect-IsConsistent h),
)
step-IsConsistent (visible k enabled) h = ground (arith, connect-IsConsistent h k)
step-IsConsistent close h = disconnect-IsConsistent h

-- Every sequence of events keeps a consistent connection consistent: a scheduled reconnect has its
-- timeout, a heartbeat monitor and a state other than closed belong to an event source, and a
-- connection that was closed by hand has none.
pub run-IsConsistent : (es : List Event) {c : Connection} → IsConsistent c → IsConsistent (run es c)
unfolding run
run-IsConsistent [] h = h
run-IsConsistent (e ∷ es) h = run-IsConsistent es (step-IsConsistent e h)

pub initial-IsConsistent : (now : ℕ) → IsConsistent (initial now)
initial-IsConsistent now = ground arith
