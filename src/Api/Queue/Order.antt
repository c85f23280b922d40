-- ===== src/Api/Queue/Order.antt =====
-- Every refused request is settled or still waits, once, in the order of the refusals.
use mathlib.Core.List.{append_assoc, append-nil}
use gsd.Prelude.{
  ℕ, ◌+◌, ◌≡◌, refl, ap, sym, ◌∙◌, Bool, true, false, String, Option, none, some, List, [], ◌∷◌,
  ◌++◌, map, if◌then◌else◌, ◌==◌, nat_eq, string_eq, Bool-cases, inl, inr, Option-cases, ltb,
}
use gsd.Dates.{Host}
use gsd.Api.Tokens.{Device, present, is_refresh_token_expired}
use gsd.Api.Queue.{
  Caller, request, stream, Settled, Client, Answer, accepted, refused, thrown, Result, success,
  failure, settle, process_queue, finish, finish_stream, resume, after_check, take, is_busy,
  on_checked, receive, on_answer, on_response, on_stream, Event, response, stream_refused, checked,
  answered, step, run,
}

-- The requests of the settled promises, and those that wait.
abbrev pub arrivals : Client → List ℕ
arrivals c = map (λ (p : ℕ × Settled). p.0) c.settled ++ c.queue

-- The requests that a step finds refused.
abbrev pub refusals_of : Event → List ℕ
refusals_of (response id status) = if status == 401 then id ∷ [] else []
refusals_of _ = []

abbrev pub refusals : List Event → List ℕ
refusals [] = []
refusals (e ∷ es) = refusals_of e ++ refusals es

map-append {ℓ κ} :
    {A : Type ℓ} {B : Type κ} (f : A → B) (xs ys : List A) → map f (xs ++ ys) ≡ map f xs ++ map f ys
map-append f [] ys = refl
map-append f (x ∷ xs) ys = ap (λ l. f x ∷ l) (map-append f xs ys)

labelled_ids :
    (f : ℕ → Settled) (ids : List ℕ)
    → map (λ (p : ℕ × Settled). p.0) (map (λ id. (id, f id)) ids) ≡ ids
labelled_ids f [] = refl
labelled_ids f (id ∷ ids) = ap (λ l. id ∷ l) (labelled_ids f ids)

process_queue_lem :
    (error token : Option String) (c : Client) → arrivals (process_queue error token c) ≡ arrivals c
unfolding process_queue
process_queue_lem error token c =
    append-nil _
    ∙ map-append (λ (p : ℕ × Settled). p.0) c.settled _
    ∙ ap (λ l. map (λ (p : ℕ × Settled). p.0) c.settled ++ l)
        (labelled_ids (λ id. settle error c.storage token) c.queue)

module _ (device : Device) where
  finish_lem : (id : ℕ) (r : Result) (c : Client) → arrivals (finish device id r c) ≡ arrivals c
  unfolding finish
  finish_lem id (success token) c = process_queue_lem none token c
  finish_lem id (failure error) c = elim (Bool-cases (error == "Refresh cooldown active")) [
    | inl e ↦ elim (Option-cases (present (c.storage.local "token"))) [
      | inl n ↦ rw (e, n) (process_queue_lem (some "No token available") none c)
      | inr (t, n) ↦ rw (e, n) (process_queue_lem none (some t) c)
    ]
    | inr e ↦ elim (Bool-cases (error == "Already refreshing")) [
      | inl b ↦ rw (e, b) refl
      | inr b ↦ rw (e, b) (process_queue_lem (some error) none c)
    ]
  ]

  resume_lem : (k : Caller) (r : Result) (c : Client) → arrivals (resume device k r c) ≡ arrivals c
  unfolding resume finish_stream
  resume_lem (request id) r c = finish_lem id r c
  resume_lem stream (success token) c = process_queue_lem none token c
  resume_lem stream (failure error) c = refl

  after_check_lem :
      (host : Host) (expired : Bool) (k : Caller) (c : Client)
      → arrivals (after_check device host expired k c) ≡ arrivals c
  unfolding after_check
  after_check_lem host true k c = resume_lem k _ _
  after_check_lem host false k c = elim (Bool-cases (is_busy c.refreshing)) [
    | inl e ↦ rw e (resume_lem k _ _)
    | inr e ↦ elim (Bool-cases (ltb host.now (c.last_refresh + 3000))) [
      | inl b ↦ rw (e, b) (resume_lem k _ _)
      | inr b ↦ rw (e, b) refl
    ]
  ]

  receive_lem :
      (now : ℕ) (a : Answer) (c : Client) → arrivals (receive device now a c).0 ≡ arrivals c
  unfolding receive
  receive_lem now (accepted t u ts) c = refl
  receive_lem now refused c = refl
  receive_lem now (thrown m) c = refl

  on_checked_lem :
      (host : Host) (i : ℕ) (c : Client) → arrivals (on_checked device host i c) ≡ arrivals c
  unfolding on_checked
  on_checked_lem host i c = picked (take device i c.checking)
    where
      picked :
          (o : Option (Caller × List Caller))
          → arrivals (elim o [
            | none ↦ c
            | some (k, rest) ↦
                after_check device host
                  (is_refresh_token_expired device host c.storage)
                  k
                  (record c { checking = rest })
          ])
            ≡ arrivals c
      picked none = refl
      picked (some (k, rest)) =
          after_check_lem host (is_refresh_token_expired device host c.storage) k
            (record c { checking = rest })

  on_answer_lem :
      (now : ℕ) (a : Answer) (c : Client) → arrivals (on_answer device now a c) ≡ arrivals c
  unfolding on_answer
  on_answer_lem now a c = elim (Option-cases c.refreshing) [
    | inl e ↦ rw (e, on_answer) refl
    | inr (k, e) ↦
        rw (e, on_answer)
          (resume_lem k (receive device now a c).1
              (record (receive device now a c).0 { refreshing = none })
            ∙ receive_lem now a c)
  ]

  step_lem : (e : Event) (c : Client) → arrivals (step device e c) ≡ arrivals c ++ refusals_of e
  unfolding step on_stream on_response
  step_lem (response id status) c = elim (Bool-cases (status == 401)) [
    | inl e ↦ elim (Bool-cases (is_busy c.refreshing)) [
      | inl b ↦ rw (e, b) (sym (append_assoc _ c.queue (id ∷ [])))
      | inr b ↦ rw (e, b) (sym (append_assoc _ c.queue (id ∷ [])))
    ]
    | inr e ↦ rw e (sym (append-nil _))
  ]
  step_lem stream_refused c = sym (append-nil _)
  step_lem (checked host i) c = on_checked_lem host i c ∙ sym (append-nil _)
  step_lem (answered now a) c = on_answer_lem now a c ∙ sym (append-nil _)

  -- Every request that was refused with 401 is settled or still waits, exactly once, and in the order
  -- of the refusals, whatever the order of the events.
  pub arrivals-run :
      (es : List Event) (c : Client) → arrivals (run device es c) ≡ arrivals c ++ refusals es
  unfolding run
  arrivals-run [] c = sym (append-nil _)
  arrivals-run (e ∷ es) c =
      arrivals-run es (step device e c)
      ∙ ap (λ l. l ++ refusals es) (step_lem e c)
      ∙ append_assoc (arrivals c) (refusals_of e) (refusals es)
