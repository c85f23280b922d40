-- ===== src/TimerDetails/Requests.antt =====
-- What the page of a timer sends, in ui/src/views/Timer/TimerDetails.jsx.
pub mod Deletion
use gsd.Prelude.{
  ℕ, suc, ◌+◌, ◌++◌, Bool, true, false, not, ◌&&◌, String, Option, none, some, List, [], ◌∷◌,
  get_elem?, if◌then◌else◌, ◌==◌, string_eq, nat_eq,
}
use gsd.Js.Calls.{Call, returns, throws, ◌>>=◌}
use gsd.Js.Objects.{get}
use gsd.TimerDetails.{Texts, Pause, Session, Editing, is_set}
use gsd.TimerDetails.Edits.{Sessions, without_index, cancel_editing_session}

-- `duration` is `none` where the field is not sent.
pub record Sent : Type 0 where
  pub start_time : String
  pub end_time : Option String
  pub duration : Option ℕ
  pub pause_log : List Pause

-- Calls of the page, with the titles of the toasts.
pub data Effect : Type 0 where
  set_loading : Bool → Effect
  mutate : ℕ → Sent → Effect
  show_error show_success : String → Effect
  refetch_timer : Effect
  confirm : ℕ → Effect

-- The entry at an index of the session, if the session has an id.
abbrev pub entry_at : ℕ → Option Session → Option Pause
entry_at i none = none
entry_at i (some t) =
    if t.id == 0 then none else elim t.pause_log [ none ↦ none | some ps ↦ get_elem? ps i ]

abbrev asked : ℕ → Option Pause → List Effect
asked i none = []
asked i (some p) =
    if is_set p.end then confirm i ∷ [] else show_error "Cannot delete a running interval" ∷ []

-- A click on the deletion of an entry does nothing, refuses, or asks.
unfoldable pub handle_delete_session : ℕ → Option Session → List Effect
handle_delete_session i t = asked i (entry_at i t)

module _ (texts : Texts) where
  -- `new Date(text).toISOString()`
  abbrev iso : String → Call String
  iso s = elim (texts.parse s) [ none ↦ throws | some t ↦ returns (texts.iso t) ]

  abbrev iso_end : Option String → Call (Option String)
  iso_end none = returns none
  iso_end (some s) = if s == "" then returns none else iso s >>= λ text. returns (some text)

  unfoldable pub update_data : String → Option String → Option ℕ → List Pause → Call Sent
  update_data start end duration ps = iso start >>= λ s. iso_end end >>= λ e.
      returns (record { start_time = s; end_time = e; duration = duration; pause_log = ps })

  abbrev requested : ℕ → Call Sent → List Effect
  requested id (returns s) = mutate id s ∷ []
  requested id throws = show_error "Error updating session" ∷ []

  abbrev saved : ℕ → Option Editing → List Effect
  saved id none = []
  saved id (some e) =
      set_loading true
        ∷ requested id (update_data e.start_time (some e.end_time) (some e.duration) e.pause_log)
      ++ set_loading false ∷ []

  unfoldable pub save_session : ℕ → Sessions → List Effect
  unfolding update_data
  save_session id sessions = saved id (get id sessions)

  abbrev pub shortened : Session → List Pause → ℕ → Call Sent
  shortened t ps i = update_data t.start_time t.end_time none (without_index i ps)

  -- The answer to the question about the entry `i` of a session with the log `ps`.
  unfoldable pub on_close : Bool → Session → List Pause → ℕ → Call (List Effect)
  unfolding update_data
  on_close false t ps i = returns []
  on_close true t ps i = shortened t ps i >>= λ s. returns (mutate t.id s ∷ [])

-- What follows when the call is answered; `none`: it fails, else whether the response is ok.
unfoldable pub on_deleted : Option Bool → List Effect
on_deleted none = show_error "Failed to delete session" ∷ []
on_deleted (some false) = show_error "Failed to delete session" ∷ []
on_deleted (some true) = show_success "Session deleted" ∷ refetch_timer ∷ []

unfoldable pub on_saved : Bool → ℕ → Sessions → Sessions × List Effect
unfolding cancel_editing_session
on_saved true id sessions =
    (cancel_editing_session id sessions, show_success "Session updated" ∷ refetch_timer ∷ [])
on_saved false id sessions = (sessions, show_error "Failed to update session" ∷ [])
