-- ===== src/Api/Queue/Rest.antt =====
-- Runs of the client: what waits at any time, and what is settled at rest.
use mathlib.Core.List.{append-nil}
use gsd.Prelude.{
  ℕ, ◌≡◌, ◌≢◌, refl, sym, ap, ◌∙◌, false, none, some, List, [], ◌∷◌, ◌++◌, map, inl, inr, any,
}
use gsd.Api.Tokens.{Device}
use gsd.Api.Queue.{
  stream, Settled, Client, refused, finish_stream, resume, receive, on_answer, Event, step, run,
}
use gsd.Api.Queue.Order.{refusals, arrivals-run}
use gsd.Api.Queue.Service.{is_request, IsServed, ServesAll, step-IsServed}

module _ (device : Device) where
  -- If the event stream's refreshes do not fail, and no error has the text "Already refreshing",
  -- then at every time nothing waits in the queue, or a refresh of the token is awaited, or a refused
  -- request is about to try one.
  pub run-IsServed :
      (es : List Event) (c : Client)
      → ServesAll device es c
      → IsServed c
      → IsServed (run device es c)
  unfolding run
  run-IsServed [] c h s = s
  run-IsServed (e ∷ es) c (h, hs) s =
      run-IsServed es (step device e c) hs (step-IsServed device e c h s)

  -- If a refresh that the event stream began is refused, and no request is about to try one, the
  -- requests that wait in the queue wait for nothing.
  pub on_answer-stream :
      (now : ℕ) (c : Client)
      → c.refreshing ≡ some stream
      → c.queue ≢ []
      → any is_request c.checking ≡ false
      → ¬ IsServed (on_answer device now refused c)
  unfolding on_answer resume receive finish_stream
  on_answer-stream now c e q k s = elim (rw (e, on_answer) at s) [
    | inl a ↦ q a
    | inr (inl b) ↦ cc b
    | inr (inr b) ↦ cc (k, b)
  ]

  -- If the event stream's refreshes do not fail, no error has the text "Already refreshing", and no
  -- request waits or is settled at first, then whenever no refresh is awaited and no request is about
  -- to try one, the settled promises are those of all the requests that were refused with 401, each
  -- once, in the order of their refusals.
  pub run-settled :
      (es : List Event) (c : Client)
      → ServesAll device es c
      → (c.queue ≡ []) × (c.settled ≡ [])
      → (run device es c).refreshing ≡ none
      → any is_request (run device es c).checking ≡ false
      → map (λ (p : ℕ × Settled). p.0) (run device es c).settled ≡ refusals es
  run-settled es c h (q, e) r k =
      let empty : (run device es c).queue ≡ [] = elim (run-IsServed es c h (inl q)) [
        | inl a ↦ a
        | inr (inl b) ↦ cc (rw r at b)
        | inr (inr b) ↦ cc (k, b)
      ] in
      sym (append-nil _)
      ∙ ap (λ l. map (λ (p : ℕ × Settled). p.0) (run device es c).settled ++ l) (sym empty)
      ∙ arrivals-run device es c
      ∙ rw (q, e) refl
