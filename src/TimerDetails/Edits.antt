-- ===== src/TimerDetails/Edits.antt =====
-- The edits of a session's log, in ui/src/views/Timer/TimerDetails.jsx.
pub mod Laws
use gsd.Prelude.{
  ℕ, zero, suc, Bool, true, false, not, ◌&&◌, String, Option, none, some, List, [], ◌∷◌, ◌++◌,
  filter, if◌then◌else◌, ◌==◌, string_eq, nat_eq,
}
use gsd.Prelude.Int.{ℤ, pos}
use gsd.Js.{Scalar}
use gsd.Js.Calls.{Call, returns, throws, ◌>>=◌}
use gsd.Js.Objects.{get, put}
use gsd.TimerDetails.{Texts, Pause, Session, Editing, is_set, format_time, seconds, date}

abbrev pub Sessions : Type 0
Sessions = List (ℕ × Editing)

-- The fields that the page changes.
pub data Field : Type 0 where
  start_field end_field : Field

-- `log.filter((_, index) => index !== i)`
abbrev pub without_index : ℕ → List Pause → List Pause
without_index i [] = []
without_index zero (p ∷ ps) = ps
without_index (suc i) (p ∷ ps) = p ∷ without_index i ps

-- `log.map((pause, index) => index === i ? f(pause) : pause)`
abbrev pub at_index : (Pause → Pause) → ℕ → List Pause → List Pause
at_index f i [] = []
at_index f zero (p ∷ ps) = f p ∷ ps
at_index f (suc i) (p ∷ ps) = p ∷ at_index f i ps

abbrev pub relogged : (List Pause → List Pause) → ℕ → Sessions → Option Editing → Call Sessions
relogged f id sessions none = throws
relogged f id sessions (some e) = returns (put id (record e { pause_log = f e.pause_log }) sessions)

-- A change of the log of an edited session; reading the log of another one throws.
abbrev pub with_log : (List Pause → List Pause) → ℕ → Sessions → Call Sessions
with_log f id sessions = relogged f id sessions (get id sessions)

abbrev or_empty : Option (List Pause) → List Pause
or_empty none = []
or_empty (some ps) = ps

module _ (texts : Texts) where
  abbrev editing_of : Session → Editing
  editing_of t = record {
    start_time = texts.local t.start_time;
    end_time = elim t.end_time [ none ↦ "" | some s ↦ if s == "" then "" else texts.local s ];
    duration = t.duration;
    formatted_duration = format_time t.duration;
    pause_log = or_empty t.pause_log;
  }

  unfoldable pub start_editing_session : Option Session → Sessions → Sessions
  start_editing_session none sessions = sessions
  start_editing_session (some t) sessions = put t.id (editing_of t) sessions

  abbrev pub new_pause : ℕ → Pause
  new_pause now = record {
    start = some (texts.iso now);
    end = none;
    duration = some (pos 0);
    updated_by = Scalar.num 0;
  }

  unfoldable pub add_pause_log_entry : ℕ → ℕ → Sessions → Call Sessions
  add_pause_log_entry now id sessions = with_log (λ ps. ps ++ new_pause now ∷ []) id sessions

  -- The duration where both ends are set.
  timed : Pause → Pause
  timed p =
      if is_set p.start && is_set p.end
      then record p { duration = seconds (date texts p.end) (date texts p.start) }
      else p

  pub changed : Field → Option String → Pause → Pause
  unfolding timed
  changed start_field value p = timed (record p { start = value })
  changed end_field value p = timed (record p { end = value })

  unfoldable pub update_pause_log_entry : ℕ → ℕ → Field → Option String → Sessions → Call Sessions
  unfolding changed
  update_pause_log_entry id i field value sessions =
      with_log (λ ps. at_index (changed field value) i ps) id sessions

  -- What the page passes for the text of an input, before the handler is called: the start needs a date, and
  -- an empty one throws; an end can be empty.
  abbrev iso_of : Option ℕ → Call (Option String)
  iso_of none = throws
  iso_of (some t) = returns (some (texts.iso t))

  unfoldable pub input_value : Field → String → Call (Option String)
  input_value start_field s = iso_of (texts.parse s)
  input_value end_field s = if s == "" then returns none else iso_of (texts.parse s)

unfoldable pub delete_pause_log_entry : ℕ → ℕ → Sessions → Call Sessions
delete_pause_log_entry id i sessions = with_log (λ ps. without_index i ps) id sessions

unfoldable pub cancel_editing_session : ℕ → Sessions → Sessions
cancel_editing_session id sessions = filter (λ (k, _). not (k == id)) sessions
