-- ===== src/TimerDetails/Requests/Deletion.antt =====
-- The deletion of one entry of a session's log.
use gsd.Prelude.{
  ℕ, zero, suc, ◌≡◌, refl, sym, ap, ◌∙◌, inl, inr, true, false, String, Option, none, some, List,
  [], ◌∷◌, get_elem?, take, drop, ◌++◌, ◌==◌, string_eq, nat_eq, Bool-cases, any, arith,
}
use gsd.Js.Calls.{Call, returns, throws, ◌>>=◌}
use gsd.TimerDetails.{Texts, Pause, Session, is_set, is_open, is_timer_running}
use gsd.TimerDetails.Edits.{without_index}
use gsd.TimerDetails.Requests.{
  Sent, confirm, mutate, show_error, update_data, iso, iso_end, asked, shortened, entry_at,
  handle_delete_session, on_close,
}

any-without_index :
    (i : ℕ) (ps : List Pause) (p : Pause)
    → get_elem? ps i ≡ some p
    → is_open p ≡ false
    → any is_open (without_index i ps) ≡ any is_open ps
any-without_index i [] p h o = refl
any-without_index zero (q ∷ ps) p h o = let same : q ≡ p = cc h in rw (same, o) refl
any-without_index (suc i) (q ∷ ps) p h o = rw (any-without_index i ps p h o) refl

without_index-take : (i : ℕ) (ps : List Pause) → without_index i ps ≡ take i ps ++ drop (suc i) ps
without_index-take zero [] = refl
without_index-take (suc i) [] = refl
without_index-take zero (p ∷ ps) = refl
without_index-take (suc i) (p ∷ ps) = ap (λ qs. p ∷ qs) (without_index-take i ps)

returned : {A : Type 0} {a b : A} → ◌≡◌ {A = Call A} (returns a) (returns b) → a ≡ b
returned h = cc h

asked-confirm :
    (i : ℕ) (o : Option Pause)
    → asked i o ≡ confirm i ∷ []
    → (p : Pause) × (o ≡ some p) × (is_set p.end ≡ true)
asked-confirm i none h = absurd (cc h)
asked-confirm i (some p) h = elim (Bool-cases (is_set p.end)) [
  | inl e ↦ (p, refl, e)
  | inr e ↦
      let k : show_error "Cannot delete a running interval" ∷ [] ≡ confirm i ∷ [] = rw e at h in
      absurd (cc k)
]

entry_of :
    (i : ℕ) (t : Session) (ps : List Pause) (p : Pause)
    → t.pause_log ≡ some ps
    → entry_at i (some t) ≡ some p
    → get_elem? ps i ≡ some p
entry_of i t ps p l h = elim (Bool-cases (t.id == 0)) [
  | inl e ↦ let k : ◌≡◌ {A = Option Pause} none (some p) = rw e at h in absurd (cc k)
  | inr e ↦ rw (e, l) at h
]

module _ (texts : Texts) where
  update_data_log :
      (start : String) (end : Option String) (duration : Option ℕ) (ps : List Pause) (s : Sent)
      → update_data texts start end duration ps ≡ returns s
      → s.pause_log ≡ ps
  unfolding update_data
  update_data_log start end duration ps s h = of_calls (iso texts start) (iso_end texts end) h
    where
      of_calls :
          (c : Call String) (d : Call (Option String))
          → (c >>= λ a. d >>= λ e.
              returns
                (record { start_time = a; end_time = e; duration = duration; pause_log = ps }))
            ≡ returns s
          → s.pause_log ≡ ps
      of_calls throws d k = cc k
      of_calls (returns a) throws k = cc k
      of_calls (returns a) (returns e) k = ap (λ r. r.pause_log) (sym (returned k))

  -- If the page asks about the entry `i` of a session with a log, that entry is in the log and has an end. If the
  -- deletion is then confirmed and sends a change, the change is for this session, its log is the old one
  -- without the entry `i`, and the timer runs by it exactly if it ran before.
  pub on_close-handle_delete_session :
      (i : ℕ) (t : Session) (ps : List Pause) (id : ℕ) (s : Sent)
      → t.pause_log ≡ some ps
      → handle_delete_session i (some t) ≡ confirm i ∷ []
      → on_close texts true t ps i ≡ returns (mutate id s ∷ [])
      → (id ≡ t.id)
        × ((p : Pause) × (get_elem? ps i ≡ some p) × (is_set p.end ≡ true))
        × (s.pause_log ≡ take i ps ++ drop (suc i) ps)
        × (is_timer_running (some (record t { pause_log = some s.pause_log }))
            ≡ is_timer_running (some t))
  unfolding handle_delete_session on_close is_timer_running
  on_close-handle_delete_session i t ps id s l h c =
      let (p, entry, ended) = asked-confirm i (entry_at i (some t)) h in
      let at = entry_of i t ps p l entry in
      let (same, log) = mutated (shortened texts t ps i) c in
      let log' = update_data_log t.start_time t.end_time none (without_index i ps) s log in
      (
        same,
        (p, at, ended),
        log' ∙ without_index-take i ps,
        rw (l, log') (any-without_index i ps p at (rw ended (ground arith))),
      )
    where
      mutated :
          (call : Call Sent)
          → (call >>= λ r. returns (mutate t.id r ∷ [])) ≡ returns (mutate id s ∷ [])
          → (id ≡ t.id) × (call ≡ returns s)
      mutated throws k = absurd (cc k)
      mutated (returns r) k = (cc k, cc k)
