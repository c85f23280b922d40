-- ===== src/Api/Queue/Service.antt =====
-- No refused request waits for nothing, unless the event stream's refresh fails.
use text.Mathlib.TextEquality.{eq_iff}
use gsd.Prelude.{
  ℕ, zero, suc, ◌+◌, ◌≡◌, ◌≢◌, refl, ap, ◌∙◌, Bool, true, false, ◌||◌, String, Option, none, some,
  List, [], ◌∷◌, ◌++◌, ◌==◌, nat_eq, string_eq, Bool-cases, inl, inr, ◌⊎◌, Option-cases, ltb, any,
  arith,
}
use gsd.Dates.{Host}
use gsd.Api.Tokens.{Device, present, is_refresh_token_expired}
use gsd.Api.Queue.{
  Caller, request, stream, Client, Answer, accepted, refused, thrown, success, failure,
  process_queue, finish, finish_stream, resume, after_check, take, is_busy, on_checked, receive,
  on_answer, on_response, on_stream, Event, response, stream_refused, checked, answered, step,
}

abbrev pub is_request : Caller → Bool
is_request (request id) = true
is_request stream = false

-- Nothing waits, or a refresh is awaited, or a request is about to try one.
abbrev pub IsServed : Client → Type 0
IsServed c = (c.queue ≡ []) ⊎ ((is_busy c.refreshing ≡ true) ⊎ (any is_request c.checking ≡ true))

abbrev pub IsAccepted : Answer → Type 0
IsAccepted (accepted _ _ _) = Unit
IsAccepted _ = ⊥

-- The stream's refresh does not fail, and no error has the text of a result of `refreshToken`.
abbrev pub Serves : Event → Client → Type 0
Serves (answered now a) c =
    (c.refreshing ≡ some stream → IsAccepted a) × (a ≢ thrown "Already refreshing")
Serves _ c = Unit

abbrev pub ServesAll : Device → List Event → Client → Type 0
ServesAll device [] c = Unit
ServesAll device (e ∷ es) c = Serves e c × ServesAll device es (step device e c)

module _ (device : Device) where
  finish_success :
      (id : ℕ) (t : Option String) (c : Client) → (finish device id (success t) c).queue ≡ []
  unfolding finish process_queue
  finish_success id t c = refl

  finish_failure :
      (id : ℕ) (error : String) (c : Client)
      → (error == "Already refreshing") ≡ false
      → (finish device id (failure error) c).queue ≡ []
  unfolding finish process_queue
  finish_failure id error c h = elim (Bool-cases (error == "Refresh cooldown active")) [
    | inl e ↦ elim (Option-cases (present (c.storage.local "token"))) [
      | inl n ↦ rw (e, n) refl
      | inr (t, n) ↦ rw (e, n) refl
    ]
    | inr e ↦ rw (e, h) refl
  ]

  -- A failure whose text is not "Already refreshing".
  resume_failure :
      (k : Caller) (error : String) (c : Client)
      → (error == "Already refreshing") ≡ false
      → (c.queue ≡ [])
        ⊎ ((is_busy c.refreshing ≡ true) ⊎ ((is_request k || any is_request c.checking) ≡ true))
      → IsServed (resume device k (failure error) c)
  unfolding resume finish_stream
  resume_failure (request id) error c h s = inl (finish_failure id error c h)
  resume_failure stream error c h s = s

  resume_busy :
      (k : Caller) (c : Client)
      → is_busy c.refreshing ≡ true
      → IsServed (resume device k (failure "Already refreshing") c)
  unfolding resume finish_stream finish
  resume_busy (request id) c h = inr (inl h)
  resume_busy stream c h = inr (inl h)

  after_check-IsServed :
      (host : Host) (expired : Bool) (k : Caller) (c : Client)
      → (c.queue ≡ [])
        ⊎ ((is_busy c.refreshing ≡ true) ⊎ ((is_request k || any is_request c.checking) ≡ true))
      → IsServed (after_check device host expired k c)
  unfolding after_check
  after_check-IsServed host true k c s = resume_failure k _ _ refl s
  after_check-IsServed host false k c s = elim (Bool-cases (is_busy c.refreshing)) [
    | inl e ↦ rw e (resume_busy k c e)
    | inr e ↦ elim (Bool-cases (ltb host.now (c.last_refresh + 3000))) [
      | inl b ↦ rw (e, b) (resume_failure k _ c refl s)
      | inr b ↦ rw (e, b) (inr (inl refl))
    ]
  ]

  take_lem :
      (i : ℕ) (ks : List Caller) (k : Caller) (rest : List Caller)
      → take device i ks ≡ some (k, rest)
      → any is_request ks ≡ true
      → (is_request k || any is_request rest) ≡ true
  unfolding take
  take_lem i [] k rest e h = cc h
  take_lem zero (j ∷ ks) k rest e h =
      let same : j ≡ k = cc e in let same' : ks ≡ rest = cc e in rw (same, same') at h
  take_lem (suc i) (j ∷ ks) k rest e h = elim (Option-cases (take device i ks)) [
    | inl n ↦ cc (rw n at e)
    | inr ((k', rest'), n) ↦
        let goal : (is_request k' || any is_request (j ∷ rest')) ≡ true =
          ground (arith, take_lem i ks k' rest' n) in
        let found : some (k', j ∷ rest') ≡ some (k, rest) = rw n at e in
        let same : k' ≡ k = cc found in
        let same' : j ∷ rest' ≡ rest = cc found in rw (← same, ← same') goal
  ]

  on_checked-IsServed :
      (host : Host) (i : ℕ) (c : Client) → IsServed c → IsServed (on_checked device host i c)
  unfolding on_checked
  on_checked-IsServed host i c s = picked (take device i c.checking) refl
    where
      picked :
          (o : Option (Caller × List Caller))
          → take device i c.checking ≡ o
          → IsServed (elim o [
            | none ↦ c
            | some (k, rest) ↦
                after_check device host
                  (is_refresh_token_expired device host c.storage)
                  k
                  (record c { checking = rest })
          ])
      picked none e = s
      picked (some (k, rest)) e =
          after_check-IsServed host (is_refresh_token_expired device host c.storage) k
            (record c { checking = rest })
            (elim s [
              | inl q ↦ inl q
              | inr (inl b) ↦ inr (inl b)
              | inr (inr a) ↦ inr (inr (take_lem i c.checking k rest e a))
            ])

  answer_text :
      (a : Answer)
      → a ≢ thrown "Already refreshing"
      → (m : String) → a ≡ thrown m
      → (m == "Already refreshing") ≡ false
  answer_text a n m e = elim (Bool-cases (m == "Already refreshing")) [
    | inl b ↦
        let same : m ≡ "Already refreshing" = (eq_iff _ _).0 b in absurd (n (e ∙ ap thrown same))
    | inr b ↦ b
  ]

  resume_request :
      (id now : ℕ) (a : Answer) (c : Client) (d : Client)
      → a ≢ thrown "Already refreshing"
      → (finish device id (receive device now a c).1 d).queue ≡ []
  unfolding receive
  resume_request id now (accepted t u ts) c d n = finish_success id _ d
  resume_request id now refused c d n = finish_failure id _ d refl
  resume_request id now (thrown m) c d n = finish_failure id m d (answer_text (thrown m) n m refl)

  resume_stream :
      (now : ℕ) (a : Answer) (c d : Client)
      → IsAccepted a
      → (resume device stream (receive device now a c).1 d).queue ≡ []
  unfolding receive resume finish_stream process_queue
  resume_stream now (accepted t u ts) c d h = refl
  resume_stream now refused c d h = absurd h
  resume_stream now (thrown m) c d h = absurd h

  on_answer-IsServed :
      (now : ℕ) (a : Answer) (c : Client)
      → Serves (answered now a) c
      → IsServed c
      → IsServed (on_answer device now a c)
  unfolding on_answer resume
  on_answer-IsServed now a c (p, n) s = elim (Option-cases c.refreshing) [
    | inl e ↦ rw (e, on_answer) s
    | inr (request id, e) ↦ rw (e, on_answer) (inl (resume_request id now a c _ n))
    | inr (stream, e) ↦ rw (e, on_answer) (inl (resume_stream now a c _ (p e)))
  ]

  any_last :
      (ks : List Caller) (k : Caller)
      → any is_request (ks ++ k ∷ []) ≡ (any is_request ks || is_request k)
  any_last [] (request id) = refl
  any_last [] stream = refl
  any_last (request id ∷ ks) k = refl
  any_last (stream ∷ ks) k = any_last ks k

  on_response-IsServed :
      (id status : ℕ) (c : Client) → IsServed c → IsServed (on_response id status c)
  unfolding on_response
  on_response-IsServed id status c s = elim (Bool-cases (status == 401)) [
    | inl e ↦ elim (Bool-cases (is_busy c.refreshing)) [
      | inl b ↦ rw (e, b) (inr (inl b))
      | inr b ↦ rw (e, b) (inr (inr (any_last c.checking (request id) ∙ ground arith)))
    ]
    | inr e ↦ rw e s
  ]

  on_stream-IsServed : (c : Client) → IsServed c → IsServed (on_stream c)
  unfolding on_stream
  on_stream-IsServed c s = elim s [
    | inl q ↦ inl q
    | inr (inl b) ↦ inr (inl b)
    | inr (inr a) ↦ inr (inr (any_last c.checking stream ∙ rw a refl))
  ]

  pub step-IsServed :
      (e : Event) (c : Client) → Serves e c → IsServed c → IsServed (step device e c)
  unfolding step
  step-IsServed (response id status) c h s = on_response-IsServed id status c s
  step-IsServed stream_refused c h s = on_stream-IsServed c s
  step-IsServed (checked host i) c h s = on_checked-IsServed host i c s
  step-IsServed (answered now a) c h s = on_answer-IsServed now a c h s
