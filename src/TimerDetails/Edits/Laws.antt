-- ===== src/TimerDetails/Edits/Laws.antt =====
-- What the edits keep, one after the other.
use gsd.Prelude.{
  ℕ, zero, suc, ◌≡◌, refl, ap, ◌∙◌, inl, inr, true, ◌&&◌, String, Option, some, List, [], ◌∷◌, ◌++◌,
  ◌==◌, ltb, nat_eq, string_eq, Bool-cases, All, All-append, arith, beq_self,
}
use gsd.Js.Calls.{Call, returns, ◌>>=◌}
use gsd.Js.Objects.{get, put}
use gsd.TimerDetails.{Texts, Pause, Editing, is_set, seconds, date}
use gsd.TimerDetails.Edits.{
  Sessions, Field, start_field, end_field, without_index, at_index, relogged, with_log, new_pause,
  timed, changed, add_pause_log_entry, update_pause_log_entry, delete_pause_log_entry,
}

get-put {ℓ} : {V : Type ℓ} (k : ℕ) (v : V) (m : List (ℕ × V)) → get k (put k v m) ≡ some v
get-put k v [] = rw (beq_self k) refl
get-put k v ((j, w) ∷ m) = elim (Bool-cases (k == j)) [
  | inl e ↦ rw (e, beq_self k) refl
  | inr e ↦ elim (Bool-cases (ltb k j)) [
    | inl l ↦ rw (e, l, beq_self k) refl
    | inr l ↦ rw (e, l, e) (get-put k v m)
  ]
]

pub data Edit : Type 0 where
  -- at an instant
  adding : ℕ → Edit
  changing : ℕ → Field → Option String → Edit
  removing : ℕ → Edit

module _ (texts : Texts) where
  -- An entry with two ends lasts from the one to the other.
  abbrev pub IsTimed : Pause → Type 0
  IsTimed p =
      (is_set p.start && is_set p.end) ≡ true
      → p.duration ≡ seconds (date texts p.end) (date texts p.start)

  abbrev step : ℕ → Edit → Sessions → Call Sessions
  step id (adding now) sessions = add_pause_log_entry texts now id sessions
  step id (changing i field value) sessions = update_pause_log_entry texts id i field value sessions
  step id (removing i) sessions = delete_pause_log_entry id i sessions

  abbrev pub edit_all : ℕ → List Edit → Sessions → Call Sessions
  edit_all id [] sessions = returns sessions
  edit_all id (e ∷ es) sessions = step id e sessions >>= λ next. edit_all id es next

  timed-IsTimed : (p : Pause) → IsTimed (timed texts p)
  unfolding timed
  timed-IsTimed p = elim (Bool-cases (is_set p.start && is_set p.end)) [
    | inl e ↦ rw e (λ _. refl)
    | inr e ↦ rw e (λ h. cc (e, h))
  ]

  changed-IsTimed :
      (field : Field) (value : Option String) (p : Pause) → IsTimed (changed texts field value p)
  unfolding changed
  changed-IsTimed start_field value p = timed-IsTimed (record p { start = value })
  changed-IsTimed end_field value p = timed-IsTimed (record p { end = value })

  at_index-IsTimed :
      (field : Field) (value : Option String) (i : ℕ) (ps : List Pause)
      → All IsTimed ps
      → All IsTimed (at_index (changed texts field value) i ps)
  at_index-IsTimed field value i [] h = tt
  at_index-IsTimed field value zero (p ∷ ps) (h, hs) = (changed-IsTimed field value p, hs)
  at_index-IsTimed field value (suc i) (p ∷ ps) (h, hs) = (h, at_index-IsTimed field value i ps hs)

  without_index-IsTimed :
      (i : ℕ) (ps : List Pause) → All IsTimed ps → All IsTimed (without_index i ps)
  without_index-IsTimed i [] h = tt
  without_index-IsTimed zero (p ∷ ps) (h, hs) = hs
  without_index-IsTimed (suc i) (p ∷ ps) (h, hs) = (h, without_index-IsTimed i ps hs)

  log_edit : Edit → List Pause → List Pause
  log_edit (adding now) ps = ps ++ new_pause texts now ∷ []
  log_edit (changing i field value) ps = at_index (changed texts field value) i ps
  log_edit (removing i) ps = without_index i ps

  log_edit-IsTimed : (e : Edit) (ps : List Pause) → All IsTimed ps → All IsTimed (log_edit e ps)
  unfolding log_edit
  log_edit-IsTimed (adding now) ps h =
      All-append IsTimed ps (new_pause texts now ∷ []) h (λ n. ground (arith, n), tt)
  log_edit-IsTimed (changing i field value) ps h = at_index-IsTimed field value i ps h
  log_edit-IsTimed (removing i) ps h = without_index-IsTimed i ps h

  step_lem : (id : ℕ) (e : Edit) (s : Sessions) → step id e s ≡ with_log (log_edit e) id s
  unfolding log_edit add_pause_log_entry update_pause_log_entry delete_pause_log_entry
  step_lem id (adding now) s = refl
  step_lem id (changing i field value) s = refl
  step_lem id (removing i) s = refl

  with_log_lem :
      (f : List Pause → List Pause) (id : ℕ) (s : Sessions) (e : Editing)
      → get id s ≡ some e
      → with_log f id s ≡ returns (put id (record e { pause_log = f e.pause_log }) s)
  with_log_lem f id s e h = ap (relogged f id s) h

  -- In a session that is being edited, where every entry with two ends has the seconds between them as its
  -- duration: after any sequence of calls of the handlers that add an entry, remove one, or set the start
  -- or the end of one to a given text or to null, every handler has returned, every entry with two ends has
  -- the seconds between them as its duration, and the session has the duration that it had.
  pub edit_all-IsTimed :
      (id : ℕ) (es : List Edit) (s : Sessions) (e : Editing)
      → get id s ≡ some e
      → All IsTimed e.pause_log
      → (s' : Sessions) × (e' : Editing) × (edit_all id es s ≡ returns s')
        × (get id s' ≡ some e')
        × All IsTimed e'.pause_log
        × (e'.duration ≡ e.duration)
  edit_all-IsTimed id [] s e g h = (s, e, refl, g, h, refl)
  edit_all-IsTimed id (x ∷ xs) s e g h =
      let e1 = record e { pause_log = log_edit x e.pause_log } in
      let s1 = put id e1 s in
      let (s', e', r, g', h', d) =
        edit_all-IsTimed id xs s1 e1 (get-put id e1 s) (log_edit-IsTimed x e.pause_log h) in
      (
        s',
        e',
        ap (λ c. c >>= λ next. edit_all id xs next)
              (step_lem id x s ∙ with_log_lem (log_edit x) id s e g)
            ∙ r,
        g',
        h',
        d,
      )
