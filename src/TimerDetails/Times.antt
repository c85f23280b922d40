-- ===== src/TimerDetails/Times.antt =====
-- Active and idle time, calculateCurrentActiveDuration and calculateIdleTime of
-- ui/src/views/Timer/TimerDetails.jsx.
use gsd.Prelude.{
  ℕ, zero, suc, ◌+◌, ◌-◌, ◌*◌, ◌/◌, ◌≤◌, ◌≡◌, refl, ap, ◌∙◌, true, false, some, List, [], ◌∷◌,
  if◌then◌else◌, string_eq, arith,
}
use gsd.Prelude.Int.{pos, ◌+ℤ◌}
use gsd.Timer.Accuracy.{elapsed_lem}
use gsd.TimerDetails.{
  Texts, Pause, Session, is_set, add, rest_of, date, add_active, active_of,
  calculate_total_duration, calculate_current_active_duration, calculate_idle_time,
}

module _ (texts : Texts) (now finish : ℕ) where
  -- The entry has a start, which can be read.
  abbrev pub Starts : Pause → ℕ → Type 0
  Starts p s = (is_set p.start ≡ true) × (date texts p.start ≡ some s)

  abbrev pub Ends : Pause → ℕ → Type 0
  Ends p e = (is_set p.end ≡ true) × (date texts p.end ≡ some e)

  -- Entries one after the other between an instant and the finish, the last of which can still run.
  pub data IsLog : ℕ → List Pause → Type 0 where
    over : {t : ℕ} → t ≤ finish → IsLog t []
    runs :
        {t s : ℕ} (p : Pause)
        → Starts p s
        → is_set p.end ≡ false
        → t ≤ s
        → s ≤ now
        → now ≤ finish
        → IsLog t (p ∷ [])
    then_on :
        {t s e : ℕ} (p : Pause) {ps : List Pause}
        → Starts p s
        → Ends p e
        → t ≤ s
        → s ≤ e
        → IsLog e ps
        → IsLog t (p ∷ ps)

  add_pos : (a b : ℕ) → add (some (pos a)) (some (pos b)) ≡ some (pos (a + b))
  unfolding ◌+ℤ◌
  add_pos a b = refl

  -- The sum of what the entries last.
  sum :
      (t n : ℕ) (ps : List Pause)
      → IsLog t ps
      → (a : ℕ) × (add_active texts now (some (pos n)) ps ≡ some (pos (n + a)))
        × (t + a * 1000 ≤ finish)
  unfolding add_active
  sum t n [] (over h) = (0, ap (λ m. some (pos m)) (omega arith), omega (arith, h))
  sum t n (_ ∷ _) (runs {s = s} p (set, at) on h h1 h2) = (
    (now - s) / 1000,
    rw (set, on, at, elapsed_lem now s h1) (add_pos n ((now - s) / 1000)),
    omega (arith, h, h1, h2),
  )
  sum t n (_ ∷ ps) (then_on {s = s} {e = e} p (set, at) (ended, at') h h1 rest) =
      let here : ℕ = (e - s) / 1000 in
      let (a, eq, le) = sum e (n + here) ps rest in
      (
        here + a,
        rw (set, ended, at, at', elapsed_lem e s h1, add_pos n here)
            (eq ∙ ap (λ m. some (pos m)) (omega arith)),
        omega (arith, h, h1, le),
      )

  rest_lem :
      (total a : ℕ) → a ≤ total → rest_of (some (pos total)) (some (pos a)) ≡ some (pos (total - a))
  unfolding ◌+ℤ◌
  rest_lem total zero h = ap (λ m. some (pos m)) (omega arith)
  rest_lem total (suc a) h = ground (arith, h)

  -- Where the entries of the log follow one another from the start of the session to its end, or to now while
  -- it has none, active and idle time are whole numbers from 0 up and sum up to the total.
  pub idle-total :
      (t : Session) (s : ℕ) (ps : List Pause)
      → (if is_set t.end_time then date texts t.end_time else some now) ≡ some finish
      → texts.parse t.start_time ≡ some s
      → t.pause_log ≡ some ps
      → IsLog s ps
      → (a : ℕ) × (i : ℕ) × (calculate_current_active_duration texts now (some t) ≡ some (pos a))
        × (calculate_idle_time texts now (some t) ≡ some (pos i))
        × (calculate_total_duration texts now (some t) ≡ some (pos (a + i)))
  unfolding calculate_current_active_duration calculate_idle_time calculate_total_duration active_of
  idle-total t s ps ends starts log h =
      let (a, eq, le) = sum s 0 ps h in
      let eq' = eq ∙ ap (λ m. some (pos m)) (let e : 0 + a ≡ a = omega arith in e) in
      let total = (finish - s) / 1000 in
      let after : s ≤ finish = omega (arith, le) in
      let below : a ≤ total = omega (arith, le) in
      (
        a,
        total - a,
        rw log eq',
        rw (log, ends, starts, elapsed_lem finish s after, eq') (rest_lem total a below),
        rw (ends, starts)
            (ap some (elapsed_lem finish s after) ∙ ap (λ m. some (pos m)) (omega (arith, below))),
      )
