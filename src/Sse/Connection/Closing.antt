-- ===== src/Sse/Connection/Closing.antt =====
-- A connection that is closed by hand.
use gsd.Prelude.{ℕ, ◌≡◌, refl, true, false, none, List, [], ◌∷◌, arith, All}
use gsd.Sse.Connection.{
  closed, Closure, Connection, connect, disconnect, on_open, on_tick, on_heartbeat, on_established,
  on_error, success, pick, on_refreshed, on_timer, on_reset, toggle_sse_enabled, auto_connect,
  on_visible,
}
use gsd.Sse.Connection.Steps.{Event, open_event, refreshed, toggle, render, visible, step, run}
use gsd.Sse.Connection.Retry.{IsUsable, attempt}

-- No source, no timeout and no refresh is left that could bring the connection back.
pub record IsClosed (c : Connection) : Type 0 where
  pub state : c.state ≡ closed
  pub source : c.source ≡ none
  pub timer : c.timer ≡ none
  pub monitor : c.monitor ≡ none
  pub refreshes : c.refreshes ≡ []

-- The events of the server, of timeouts, and of the user's turning the stream off.
abbrev pub IsPassive : Event → Type 0
IsPassive (toggle k enabled) = enabled ≡ false
IsPassive (render k enabled) = enabled ≡ false
IsPassive (visible k enabled) = enabled ≡ false
IsPassive _ = Unit

step-IsClosed : (e : Event) (c : Connection) → IsPassive e → IsClosed c → IsClosed (step e c)
unfolding step on_open on_tick on_heartbeat on_established on_error on_refreshed on_timer on_reset
    toggle_sse_enabled auto_connect on_visible disconnect
step-IsClosed (open_event now) c p h =
    ground (arith, h.source, h.state, h.timer, h.monitor, h.refreshes)
step-IsClosed (toggle k enabled) c p h = ground arith
step-IsClosed (render k enabled) c p h = ground arith
step-IsClosed (visible k enabled) c p h =
    rw p (ground (arith, h.source, h.state, h.timer, h.monitor, h.refreshes))
step-IsClosed (refreshed i now r) c p h =
    rw (h.refreshes, pick)
      (record {
        state = h.state;
        source = h.source;
        timer = h.timer;
        monitor = h.monitor;
        refreshes = refl;
      })
step-IsClosed e c p h = ground (arith, h.source, h.state, h.timer, h.monitor, h.refreshes)

run-IsClosed :
    (es : List Event) (c : Connection) → All IsPassive es → IsClosed c → IsClosed (run es c)
unfolding run
run-IsClosed [] c p h = h
run-IsClosed (e ∷ es) c (p, ps) h = run-IsClosed es (step e c) ps (step-IsClosed e c p h)

-- After `disconnect`, if no token refresh is awaited, the connection stays closed, without a source or
-- a timeout, whatever the server, the timeouts and the page do, until the stream is wanted again.
pub run-disconnect :
    (es : List Event) (c : Connection)
    → c.refreshes ≡ []
    → All IsPassive es
    → IsClosed (run es (disconnect c))
unfolding disconnect
run-disconnect es c r p =
    run-IsClosed es (disconnect c) p
      (record { state = refl; source = refl; timer = refl; monitor = refl; refreshes = r })

abbrev pub refreshed_closed : ℕ → Connection → Connection
refreshed_closed now c = on_refreshed 0 now success (disconnect c)

-- If a token refresh of a handler that could open a source is awaited when the connection is
-- closed by hand, its success schedules a reconnect all the same, and the timeout then opens a new
-- source.
pub on_refreshed-disconnect :
    (now : ℕ) (k : Closure) (ks : List Closure) (c : Connection)
    → IsUsable k
    → c.refreshes ≡ k ∷ ks
    → ((refreshed_closed now c).scheduled ≡ true)
      × ((refreshed_closed now c).manually_closed ≡ true)
      × ((on_timer (refreshed_closed now c)).source ≡ attempt k)
unfolding on_refreshed disconnect on_timer connect
on_refreshed-disconnect now k ks c (a, b, d, e) r = rw (r, pick) (refl, refl, rw (a, b, d, e) refl)
