-- ===== src/Sse/Connection.antt =====
-- The connection of `useSSE`: the React state and the refs as one record, and each callback, timer
-- and handler as a function on it. Alerts and log lines are left out.
pub mod Retry
pub mod Closing
pub mod Steps
use text.Mathlib.Text.{find?}
use gsd.Prelude.{
  ℕ, zero, suc, ◌+◌, ◌-◌, Bool, true, false, not, ◌&&◌, ◌||◌, String, Option, none, some, List, [],
  ◌∷◌, if◌then◌else◌, ◌==◌, nat_eq, ltb, leb, min, get_elem?,
}

pub data Ready : Type 0 where
  connecting opened closed : Ready

-- What a `connect` of one render has captured: the circuit breaker's state, and whether there is a
-- token of a signed-in user.
pub record Closure : Type 0 where
  pub breaker : Bool
  pub token : Bool
  pub authenticated : Bool
  -- whether `new EventSourcePolyfill` returns, or throws
  pub constructs : Bool

-- An event source, with the closure of its handlers.
pub record Source : Type 0 where
  pub ready : Ready
  pub closure : Closure

-- A pending reconnect: when it is due, whether it counts as an attempt, and whose `connect` it calls.
pub record Reconnect : Type 0 where
  pub due : ℕ
  pub counts : Bool
  pub closure : Closure

pub record Connection : Type 0 where
  pub state : Ready
  pub error : Option String
  pub breaker : Bool
  pub source : Option Source
  pub timer : Option Reconnect
  pub attempts : ℕ
  pub manually_closed : Bool
  pub last_heartbeat : ℕ
  -- the heartbeat monitor, with the closure that started it
  pub monitor : Option Closure
  pub next_reconnect : Option ℕ
  pub scheduled : Bool
  -- timeouts that will reset the circuit breaker
  pub resets : ℕ
  -- token refreshes that an error handler awaits
  pub refreshes : List Closure

abbrev pub reconnect_intervals : List ℕ
reconnect_intervals = 10000 ∷ 30000 ∷ 360000 ∷ 600000 ∷ 900000 ∷ 6000000 ∷ []

abbrev pub max_reconnect_attempts : ℕ
max_reconnect_attempts = 10

abbrev interval : Option ℕ → ℕ
interval none = 0
interval (some d) = d

-- `RECONNECT_INTERVALS[Math.min(attempts, RECONNECT_INTERVALS.length - 1)]`
unfoldable pub delay : ℕ → ℕ
delay attempts = interval (get_elem? reconnect_intervals (min attempts 5))

abbrev is_live : Option Source → Bool
is_live none = false
is_live (some s) = elim s.ready [ closed ↦ false | _ ↦ true ]

-- `connect` behind its guards: the new event source.
open_source : Closure → Connection → Connection
open_source k c =
    if k.constructs
    then record c {
      state = connecting;
      manually_closed = false;
      source = some (record { ready = connecting; closure = k });
    }
    else record c { state = closed; manually_closed = false }

unfoldable pub connect : Closure → Connection → Connection
unfolding open_source
connect k c =
    let c' = record c { scheduled = false } in
    if k.breaker
    then c'
    else if leb max_reconnect_attempts c.attempts
    then record c { scheduled = false; breaker = true; resets = c.resets + 1 }
    else if is_live c.source
    then c'
    else if not (k.token && k.authenticated)
    then c'
    else open_source k c'

unfoldable pub disconnect : Connection → Connection
disconnect c = record c {
  manually_closed = true;
  scheduled = false;
  timer = none;
  next_reconnect = none;
  monitor = none;
  source = none;
  state = closed;
}

-- A reconnect takes the place of the pending one.
unfoldable pub schedule : ℕ → ℕ → Bool → Closure → Connection → Connection
schedule now wait counts k c = record c {
  scheduled = true;
  next_reconnect = some (now + wait);
  timer = some (record { due = now + wait; counts = counts; closure = k });
}

-- `onopen` of the current source.
unfoldable pub on_open : ℕ → Connection → Connection
on_open now c = elim c.source [
  | none ↦ c
  | some s ↦ record c {
    source = some (record s { ready = opened });
    state = opened;
    error = none;
    attempts = 0;
    next_reconnect = none;
    scheduled = false;
    last_heartbeat = now;
    monitor = some s.closure;
  }
]

-- The body of the monitor's interval.
unfoldable pub on_tick : ℕ → Connection → Connection
unfolding schedule delay
on_tick now c = elim c.monitor [
  | none ↦ c
  | some k ↦
      if ltb 150000 (now - c.last_heartbeat) && not c.manually_closed
      then schedule now (delay c.attempts) true k
          (record c { monitor = none; source = none; state = closed })
      else c
]

-- What a message of the kind 'heartbeat' or 'connection.established' does to the connection.
unfoldable pub on_heartbeat : ℕ → Connection → Connection
on_heartbeat now c = record c { last_heartbeat = now }

unfoldable pub on_established : ℕ → Connection → Connection
on_established now c = record c { error = none; last_heartbeat = now }

pub record Failure : Type 0 where
  pub status : Option ℕ
  pub message : Option String

abbrev includes : Option String → String → Bool
includes none part = false
includes (some s) part = elim (find? s part) [ none ↦ false | some _ ↦ true ]

abbrev is_401 : Option ℕ → Bool
is_401 none = false
is_401 (some n) = n == 401

unfoldable pub is_unauthorized : Failure → Bool
is_unauthorized f = is_401 f.status || includes f.message "401" || includes f.message "Unauthorized"

unfoldable pub is_timeout : Failure → Bool
is_timeout f = includes f.message "No activity within" || includes f.message "timeout"

-- The part of `onerror` behind its two early returns, up to the first `await`.
after_error : ℕ → Failure → Closure → Connection → Connection
unfolding schedule delay
after_error now f k c =
    if is_unauthorized f
    then record c {
      error = some "Authentication expired - refreshing token...";
      refreshes = k ∷ c.refreshes;
    }
    else schedule now (delay c.attempts) true k (record c {
      error = some (
          if is_timeout f
          then "Connection timeout - reconnecting..."
          else "Connection error occurred");
    })

unfoldable pub on_error : ℕ → Failure → Connection → Connection
unfolding after_error
on_error now f c = elim c.source [
  | none ↦ c
  | some s ↦
      let c' = record c { state = closed; monitor = none; source = none } in
      if c.manually_closed || c.scheduled then c' else after_error now f s.closure c'
]

-- What `apiClient.refreshToken()` answers.
pub data Refresh : Type 0 where
  success in_progress expired failed thrown : Refresh

-- `onerror` goes on behind its `await`.
resume : ℕ → Refresh → Closure → Connection → Connection
unfolding schedule
resume now success k c =
    schedule now 1000 false k
      (record c { error = some "Token refreshed - reconnecting..."; attempts = 0 })
resume now in_progress k c =
    schedule now 1500 false k
      (record c { error = some "Token refresh in progress - reconnecting soon..."; attempts = 0 })
resume now expired k c = record c { error = some "Session expired - please log in again" }
resume now failed k c = record c { error = some "Authentication failed - please log in again" }
resume now thrown k c = record c { error = some "Authentication error - please log in again" }

-- One of the awaited refreshes is answered, in any order.
pick : ℕ → List Closure → Option (Closure × List Closure)
pick i [] = none
pick zero (k ∷ ks) = some (k, ks)
pick (suc i) (k ∷ ks) = elim (pick i ks) [ none ↦ none | some (j, js) ↦ some (j, k ∷ js) ]

unfoldable pub on_refreshed : ℕ → ℕ → Refresh → Connection → Connection
unfolding resume pick
on_refreshed i now r c = elim (pick i c.refreshes) [
  | none ↦ c
  | some (k, ks) ↦ resume now r k (record c { refreshes = ks })
]

-- The timeout of a reconnect fires.
unfoldable pub on_timer : Connection → Connection
on_timer c = elim c.timer [
  | none ↦ c
  | some r ↦ connect r.closure (record c {
    timer = none;
    scheduled = false;
    attempts = if r.counts then c.attempts + 1 else c.attempts;
    next_reconnect = none;
  })
]

-- A timeout resets the circuit breaker.
unfoldable pub on_reset : Connection → Connection
on_reset c =
    if 0 == c.resets then c else record c { resets = c.resets - 1; breaker = false; attempts = 0 }

unfoldable pub toggle_sse_enabled : Closure → Bool → Connection → Connection
toggle_sse_enabled k enabled c = if enabled && k.authenticated then connect k c else disconnect c

-- The effect that connects: its cleanup runs first.
unfoldable pub auto_connect : Closure → Bool → Connection → Connection
auto_connect k enabled c =
    if k.authenticated && enabled then connect k (disconnect c) else disconnect (disconnect c)

-- The page is shown again.
unfoldable pub on_visible : Closure → Bool → Connection → Connection
on_visible k enabled c =
    if k.authenticated && enabled && not (is_live c.source) && not c.scheduled
    then connect k c
    else c
