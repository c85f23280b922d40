-- ===== src/Sse/Connection/Retry.antt =====
-- When a connection is attempted, and how failures in a row end in an open circuit breaker.
use mathlib.Core.Path.{subst}
use gsd.Prelude.{
  ℕ, zero, suc, ◌+◌, ◌≤◌, ◌<◌, ◌≡◌, Bool, true, false, not, ◌&&◌, Option, none, some, List, [], ◌∷◌,
  arith, ltb, if◌then◌else◌, length, All, min, get_elem?,
}
use gsd.Sse.Connection.{
  connecting, Closure, Source, Connection, reconnect_intervals, interval, is_live, connect, delay,
  Failure, is_unauthorized, on_error, on_timer,
}

-- The closure may open a source.
abbrev pub IsUsable : Closure → Type 0
IsUsable k =
    (k.breaker ≡ false) × (k.token ≡ true) × (k.authenticated ≡ true) × (k.constructs ≡ true)

abbrev pub attempt : Closure → Option Source
attempt k = some (record { ready = connecting; closure = k })

-- The captured breaker is shut, fewer than ten attempts have failed, no source is live, a signed-in
-- user has a token, and the constructor returns.
abbrev pub may_open : Closure → Connection → Bool
may_open k c =
    not k.breaker
    && ltb c.attempts 10
    && not (is_live c.source)
    && k.token
    && k.authenticated
    && k.constructs

-- `connect` opens a new source exactly if the captured circuit breaker is shut, fewer than ten
-- attempts have failed, no source is live, a signed-in user has a token and the constructor
-- returns; otherwise it leaves the source as it is. It opens the circuit breaker exactly if the
-- captured one is shut and ten attempts have failed, and then starts one timeout to reset it.
pub connect_lem :
    (k : Closure) (c : Connection)
    → ((connect k c).source ≡ (if may_open k c then attempt k else c.source))
      × ((connect k c).breaker
          ≡ (if not k.breaker && not (ltb c.attempts 10) then true else c.breaker))
      × ((connect k c).resets
          ≡ (if not k.breaker && not (ltb c.attempts 10) then c.resets + 1 else c.resets))
unfolding connect
connect_lem k c = (ground arith, ground arith, ground arith)

interval_at : ℕ → ℕ
interval_at i = interval (get_elem? reconnect_intervals i)

interval_at-suc : (i : ℕ) → i < 5 → interval_at i ≤ interval_at (suc i)
unfolding interval_at
interval_at-suc zero h = omega arith
interval_at-suc (suc zero) h = omega arith
interval_at-suc (suc (suc zero)) h = omega arith
interval_at-suc (suc (suc (suc zero))) h = omega arith
interval_at-suc (suc (suc (suc (suc zero)))) h = omega arith
interval_at-suc (suc (suc (suc (suc (suc i))))) h = absurd (omega arith)

interval_at_mono : (i j : ℕ) → i ≤ j → j ≤ 5 → interval_at i ≤ interval_at j
interval_at_mono i zero h k = let e : i ≡ 0 = omega arith in rw e (omega arith)
interval_at_mono i (suc j) h k = ground (arith, interval_at_mono i j, interval_at-suc j)

-- Each wait lies between ten seconds and a hundred minutes, and more failures never shorten it.
pub delay_bounds : (n m : ℕ) → n ≤ m → (10000 ≤ delay n) × (delay n ≤ delay m) × (delay m ≤ 6000000)
unfolding delay interval_at
delay_bounds n m h = (
  interval_at_mono 0 (min n 5) (omega arith) (omega arith),
  interval_at_mono (min n 5) (min m 5) (omega arith) (omega arith),
  interval_at_mono (min m 5) 5 (omega arith) (omega arith),
)

-- A source fails for another reason than a refused token, and the reconnect's timeout fires.
abbrev pub fail : ℕ → Failure → Connection → Connection
fail now f c = on_timer (on_error now f c)

-- A source with the closure's handlers, after `n` failures; and the wait for the next attempt.
pub record IsRetrying (n : ℕ) (k : Closure) (c : Connection) : Type 0 where
  pub attempts : c.attempts ≡ n
  pub source : c.source ≡ attempt k
  pub manual : c.manually_closed ≡ false
  pub scheduled : c.scheduled ≡ false

record IsWaiting (n due : ℕ) (k : Closure) (c : Connection) : Type 0 where
  attempts : c.attempts ≡ n
  source : c.source ≡ none
  manual : c.manually_closed ≡ false
  timer : c.timer ≡ some (record { due = due; counts = true; closure = k })

on_error-IsWaiting :
    (n : ℕ) (k : Closure) (c : Connection) (now : ℕ) (f : Failure)
    → is_unauthorized f ≡ false
    → IsRetrying n k c
    → IsWaiting n (now + delay n) k (on_error now f c)
unfolding on_error
on_error-IsWaiting n k c now f a h = record {
  attempts = ground (arith, h.attempts, h.source, h.manual, h.scheduled);
  source = ground (arith, h.attempts, h.source, h.manual, h.scheduled);
  manual = ground (arith, h.attempts, h.source, h.manual, h.scheduled);
  timer = ground (arith, h.attempts, h.source, h.manual, h.scheduled);
}

on_timer-IsRetrying :
    (n due : ℕ) (k : Closure) (c : Connection)
    → IsUsable k
    → n + 1 < 10
    → IsWaiting n due k c
    → IsRetrying (n + 1) k (on_timer c)
unfolding on_timer connect
on_timer-IsRetrying n due k c u b h = ground (arith, h.attempts, h.source, h.manual, h.timer)

on_timer-breaker :
    (due : ℕ) (k : Closure) (c : Connection)
    → IsUsable k
    → IsWaiting 9 due k c
    → ((on_timer c).breaker ≡ true)
      × ((on_timer c).source ≡ none)
      × ((on_timer c).resets ≡ c.resets + 1)
unfolding on_timer connect
on_timer-breaker due k c u h = ground (arith, h.attempts, h.source, h.manual, h.timer)

abbrev pub fail_all : List (ℕ × Failure) → Connection → Connection
fail_all [] c = c
fail_all ((now, f) ∷ fs) c = fail_all fs (fail now f c)

abbrev pub AreCounted : List (ℕ × Failure) → Type 0
AreCounted = All (λ p. is_unauthorized p.1 ≡ false)

fail_all-IsRetrying :
    (n : ℕ) (k : Closure) (c : Connection) (fs : List (ℕ × Failure))
    → IsUsable k
    → AreCounted fs
    → n + length fs < 10
    → IsRetrying n k c
    → IsRetrying (n + length fs) k (fail_all fs c)
fail_all-IsRetrying n k c [] u a b h = subst (λ m. IsRetrying m k c) (omega arith) h
fail_all-IsRetrying n k c ((now, f) ∷ fs) u (a, as') b h =
    subst (λ m. IsRetrying m k (fail_all fs (fail now f c))) (omega arith)
      (fail_all-IsRetrying (n + 1) k (fail now f c) fs u as' (omega arith) (
        on_timer-IsRetrying n (now + delay n) k (on_error now f c) u (omega arith)
          (on_error-IsWaiting n k c now f a h)))

fail_all-breaker :
    (n : ℕ) (k : Closure) (c : Connection) (fs : List (ℕ × Failure))
    → IsUsable k
    → AreCounted fs
    → n < 10
    → n + length fs ≡ 10
    → IsRetrying n k c
    → ((fail_all fs c).breaker ≡ true) × ((fail_all fs c).source ≡ none)
fail_all-breaker n k c [] u a l b h = absurd (omega arith)
fail_all-breaker n k c ((now, f) ∷ []) u a l b h =
    let nine : n ≡ 9 = omega arith in
    let w = on_error-IsWaiting 9 k c now f a.0 (subst (λ m. IsRetrying m k c) nine h) in
    let (p, q, _) = on_timer-breaker (now + delay 9) k (on_error now f c) u w in (p, q)
fail_all-breaker n k c ((now, f) ∷ g ∷ fs) u (a, as') l b h =
    fail_all-breaker (n + 1) k (fail now f c) (g ∷ fs) u as' (omega arith) (omega arith) (
      on_timer-IsRetrying n (now + delay n) k (on_error now f c) u (omega arith)
        (on_error-IsWaiting n k c now f a h))

-- A source that is about to connect, whose handlers can open another one, fails several times in a
-- row, never for a refused token, and each time the reconnect's timeout fires: after fewer than
-- ten failures a new source is connecting and all failures are counted; the tenth leaves no source
-- and the circuit breaker open.
pub fail_all_lem :
    (k : Closure) (c : Connection) (fs : List (ℕ × Failure))
    → IsUsable k
    → AreCounted fs
    → IsRetrying 0 k c
    → (length fs < 10 → IsRetrying (length fs) k (fail_all fs c))
      × (length fs ≡ 10 → ((fail_all fs c).breaker ≡ true) × ((fail_all fs c).source ≡ none))
fail_all_lem k c fs u a h = (
  λ b.
      subst (λ m. IsRetrying m k (fail_all fs c)) (omega arith)
        (fail_all-IsRetrying 0 k c fs u a (omega arith) h),
  λ e. fail_all-breaker 0 k c fs u a (omega arith) (omega arith) h,
)
