-- ===== src/Api/Queue.antt =====
-- Requests that are refused with 401, the queue in which they wait for a new token, and the refreshing
-- of the token, as steps: an answer of the server, or the end of an awaited call. What runs between two
-- awaits is one step.
pub mod Order
pub mod Service
pub mod Rest
use gsd.Prelude.{
  ℕ, zero, suc, ◌+◌, ◌-◌, Bool, true, false, String, Option, none, some, List, [], ◌∷◌, ◌++◌, map,
  if◌then◌else◌, ◌==◌, string_eq, nat_eq, ltb,
}
use gsd.Dates.{Host}
use gsd.Api.Tokens.{
  Device, Storage, Tokens, present, save_tokens, is_refresh_token_expired, clear_all_tokens,
}

-- Who calls `refreshToken`: a request, or the event stream.
pub data Caller : Type 0 where
  request : ℕ → Caller
  stream : Caller

-- What becomes of the promise of a queued request: it is sent again with a token, or rejected.
pub data Settled : Type 0 where
  retried : Option String → Settled
  rejected : String → Settled

pub record Client : Type 0 where
  pub storage : Storage
  -- `failedQueue`, oldest first
  pub queue : List ℕ
  pub last_refresh : ℕ
  -- callers that await `isRefreshTokenExpired`
  pub checking : List Caller
  -- `isRefreshing`, with the caller that awaits `RefreshToken`
  pub refreshing : Option Caller
  -- the promises of queued requests, in the order in which they are settled
  pub settled : List (ℕ × Settled)
  -- requests that returned `null`
  pub given_up : List ℕ
  -- calls of `logout`
  pub logouts : ℕ

-- What `RefreshToken` answers.
pub data Answer : Type 0 where
  accepted : (token access_token : Option String) → Tokens → Answer
  refused : Answer
  thrown : String → Answer

pub data Result : Type 0 where
  success : Option String → Result
  failure : String → Result

abbrev is_busy : Option Caller → Bool
is_busy none = false
is_busy (some _) = true

-- `resolve` of a queued request: a token is needed, but the request is sent with the stored one.
abbrev pub settle : Option String → Storage → Option String → Settled
settle (some error) s token = rejected error
settle none s token = elim (present token) [
  | none ↦ rejected "Token refresh failed"
  | some _ ↦ retried (present (s.local "token"))
]

unfoldable pub process_queue : Option String → Option String → Client → Client
process_queue error token c = record c {
  settled = c.settled ++ map (λ id. (id, settle error c.storage token)) c.queue;
  queue = [];
}

module _ (device : Device) where
  abbrev handle_logout : Client → Client
  handle_logout c = record c {
    storage = clear_all_tokens device c.storage;
    logouts = c.logouts + 1;
  }

  -- The request goes on behind its `await`.
  unfoldable pub finish : ℕ → Result → Client → Client
  unfolding process_queue
  finish id (success token) c = process_queue none token c
  finish id (failure error) c =
      if error == "Refresh cooldown active"
      then elim (present (c.storage.local "token")) [
        | some token ↦ process_queue none (some token) c
        | none ↦
            let c' = process_queue (some "No token available") none c in
            handle_logout (record c' { given_up = id ∷ c'.given_up })
      ]
      else if error == "Already refreshing"
      then c
      else let c' = process_queue (some error) none c in
        handle_logout (record c' { given_up = id ∷ c'.given_up })

  -- The stream passes a new token to the waiting requests, and else leaves them alone.
  unfoldable pub finish_stream : Result → Client → Client
  unfolding process_queue
  finish_stream (success token) c = process_queue none token c
  finish_stream (failure error) c = c

  unfoldable pub resume : Caller → Result → Client → Client
  resume (request id) r c = finish id r c
  resume stream r c = finish_stream r c

  -- `refreshToken` behind its first `await`.
  unfoldable pub after_check : Host → Bool → Caller → Client → Client
  unfolding resume
  after_check host expired caller c =
      if expired
      then resume caller (failure "Refresh token expired")
          (record c { storage = clear_all_tokens device c.storage })
      else if is_busy c.refreshing
      then resume caller (failure "Already refreshing") c
      else if ltb host.now (c.last_refresh + 3000)
      then resume caller (failure "Refresh cooldown active") c
      else record c { refreshing = some caller }

  -- One of the awaited checks ends, in any order.
  unfoldable pub take : ℕ → List Caller → Option (Caller × List Caller)
  take i [] = none
  take zero (k ∷ ks) = some (k, ks)
  take (suc i) (k ∷ ks) = elim (take i ks) [ none ↦ none | some (j, js) ↦ some (j, k ∷ js) ]

  unfoldable pub on_checked : Host → ℕ → Client → Client
  unfolding take
  on_checked host i c = elim (take i c.checking) [
    | none ↦ c
    | some (caller, rest) ↦
        after_check host (is_refresh_token_expired device host c.storage) caller
          (record c { checking = rest })
  ]

  abbrev new_token : Option String → Option String → Option String
  new_token token access_token = elim (present token) [ none ↦ access_token | some _ ↦ token ]

  -- `refreshToken` behind `RefreshToken`, up to its result.
  unfoldable pub receive : ℕ → Answer → Client → Client × Result
  receive now (accepted token access_token t) c = (
    record c {
      storage =
          save_tokens device (record t { access_token = new_token token access_token }) c.storage;
      last_refresh = now;
    },
    success (new_token token access_token),
  )
  receive now refused c = (c, failure "Refresh failed")
  receive now (thrown message) c = (c, failure message)

  unfoldable pub on_answer : ℕ → Answer → Client → Client
  unfolding receive resume
  on_answer now answer c = elim c.refreshing [
    | none ↦ c
    | some caller ↦
        let r = receive now answer c in resume caller r.1 (record r.0 { refreshing = none })
  ]

-- `request` behind its `fetch`: an answer other than 401 is returned.
unfoldable pub on_response : ℕ → ℕ → Client → Client
on_response id status c =
    if status == 401
    then (if is_busy c.refreshing
        then record c { queue = c.queue ++ id ∷ [] }
        else record c { queue = c.queue ++ id ∷ []; checking = c.checking ++ request id ∷ [] })
    else c

unfoldable pub on_stream : Client → Client
on_stream c = record c { checking = c.checking ++ stream ∷ [] }

pub data Event : Type 0 where
  response : (id status : ℕ) → Event
  stream_refused : Event
  checked : Host → ℕ → Event
  answered : ℕ → Answer → Event

unfoldable pub step : Device → Event → Client → Client
step device (response id status) c = on_response id status c
step device stream_refused c = on_stream c
step device (checked host i) c = on_checked device host i c
step device (answered now a) c = on_answer device now a c

unfoldable pub run : Device → List Event → Client → Client
run device [] c = c
run device (e ∷ es) c = run device es (step device e c)
