-- ===== src/Tests/Api.antt =====
-- The API client at concrete tokens and events.
use gsd.Prelude.{ℕ, ◌≡◌, refl, true, false, none, some, List, [], ◌∷◌, ◌++◌, map}
use gsd.Api.Tokens.{Device, Storage, Tokens, is_refresh_token_expired}
use gsd.Api.Queue.{
  Settled, Client, accepted, on_answer, Event, response, checked, answered, run, step, on_response,
  on_checked, after_check, take, on_answer, receive, resume, finish, process_queue,
}
use gsd.Api.Queue.Order.{arrivals, refusals, arrivals-run}
use gsd.Api.Queue.Rest.{run-settled}
use gsd.Tests.{host}

abbrev phone : Device
phone = record { native = true; gets = λ k. true; sets = λ k. true; removes = λ k. true }

abbrev browser : Device
browser = record phone { native = false }

abbrev stored : Storage
stored = record { local = λ k. some "old"; preferences = λ k. none; clearing = false }

abbrev tokens : Tokens
tokens = record {
  access_token = some "a1";
  access_token_expiry = none;
  refresh_token = some "r1";
  refresh_token_expiry = some "day 22";
}

abbrev idle : Client
idle = record {
  storage = stored;
  queue = [];
  last_refresh = 0;
  checking = [];
  refreshing = none;
  settled = [];
  given_up = [];
  logouts = 0;
}

-- Two requests are refused while the first refreshes, and a third is answered.
abbrev events : List Event
events =
    response 1 401
    ∷ checked host 0
    ∷ response 2 401
    ∷ response 3 200
    ∷ answered 1771200500 (accepted (some "a2") none tokens)
    ∷ []

arrivals-run_example : arrivals (run browser events idle) ≡ [] ++ refusals events
arrivals-run_example = arrivals-run browser events idle

run-settled_example :
    map (λ (p : ℕ × Settled). p.0) (run browser events idle).settled ≡ refusals events
unfolding run step on_response on_checked after_check take is_refresh_token_expired on_answer
    receive resume finish process_queue
run-settled_example =
    run-settled browser events idle (tt, (tt, (tt, (tt, ((λ e. tt, λ e. cc e), tt))))) (refl, refl)
      refl refl
