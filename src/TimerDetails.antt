-- ===== src/TimerDetails.antt =====
-- The page of a timer, ui/src/views/Timer/TimerDetails.jsx: the times that it shows and the edits of a
-- session. A duration is in seconds; `none` is NaN.
pub mod Times
pub mod Edits
pub mod Requests
use Prim.Native.String
use gsd.Prelude.{
  ℕ, zero, suc, ◌+◌, ◌*◌, ◌/◌, ◌%◌, Bool, true, false, not, ◌&&◌, ◌||◌, String, Option, none, some,
  List, [], ◌∷◌, ◌++◌, filter, any, get_elem?, if◌then◌else◌, ◌==◌, string_eq, nat_eq, ltb, arith,
}
use gsd.Prelude.Int.{ℤ, pos, negsuc, ◌+ℤ◌}
use gsd.Js.{Scalar, decimal}
use gsd.Js.Calls.{Call, returns, throws, ◌>>=◌}
use gsd.Js.Objects.{get, put}
use gsd.Timer.{elapsed}

-- `new Date(text)` as a number, `toISOString()`, and `moment(text).format('YYYY-MM-DDTHH:mm:ss')`.
pub record Texts : Type 0 where
  pub parse : String → Option ℕ
  pub iso : ℕ → String
  pub local : String → String

-- `none`: null
pub record Pause : Type 0 where
  pub start : Option String
  pub end : Option String
  pub duration : Option ℤ
  pub updated_by : Scalar

pub record Session : Type 0 where
  pub id : ℕ
  pub start_time : String
  pub end_time : Option String
  pub duration : ℕ
  pub pause_log : Option (List Pause)

pub record Editing : Type 0 where
  pub start_time : String
  pub end_time : String
  pub duration : ℕ
  pub formatted_duration : String
  pub pause_log : List Pause

abbrev pub is_set : Option String → Bool
is_set none = false
is_set (some s) = not (s == "")

-- A template of texts.
unfoldable pub template : List String → String
template [] = ""
template (s ∷ ss) = String.◌++◌ s (template ss)

-- `padStart(2, '0')`
abbrev pad : ℕ → String
pad n = if ltb n 10 then String.◌++◌ "0" (decimal n) else decimal n

-- For seconds from 0 up.
unfoldable pub format_time : ℕ → String
unfolding template
format_time seconds =
    template
      (pad (seconds / 3600) ∷ ":" ∷ pad (seconds % 3600 / 60) ∷ ":" ∷ pad (seconds % 60) ∷ [])

unfoldable pub format_duration : ℕ → String
unfolding template
format_duration seconds =
    if ltb seconds 60
    then template (decimal seconds ∷ "s" ∷ [])
    else if ltb seconds 3600
    then template (decimal (seconds / 60) ∷ "m " ∷ decimal (seconds % 60) ∷ "s" ∷ [])
    else template (decimal (seconds / 3600) ∷ "h " ∷ decimal (seconds % 3600 / 60) ∷ "m" ∷ [])

-- `Math.floor((end - start) / 1000)`
abbrev pub seconds : Option ℕ → Option ℕ → Option ℤ
seconds (some e) (some s) = some (elapsed e s)
seconds none s = none
seconds (some e) none = none

abbrev pub add : Option ℤ → Option ℤ → Option ℤ
add (some a) (some b) = some (a +ℤ b)
add none b = none
add (some a) none = none

abbrev negated : ℤ → ℤ
negated (pos zero) = pos zero
negated (pos (suc n)) = negsuc n
negated (negsuc n) = pos (suc n)

-- `Math.max(0, a - b)`
abbrev pub rest_of : Option ℤ → Option ℤ → Option ℤ
rest_of (some a) (some b) = elim (a +ℤ negated b) [ pos n ↦ some (pos n) | negsuc n ↦ some (pos 0) ]
rest_of none b = none
rest_of (some a) none = none

abbrev pub log_of : Option Session → Option (List Pause)
log_of none = none
log_of (some t) = t.pause_log

abbrev pub is_open : Pause → Bool
is_open p = is_set p.start && not (is_set p.end)

abbrev running_in : Option (List Pause) → Bool
running_in none = false
running_in (some ps) = any is_open ps

unfoldable pub is_timer_running : Option Session → Bool
is_timer_running t = running_in (log_of t)

module _ (texts : Texts) where
  -- The date of a text that is set.
  abbrev pub date : Option String → Option ℕ
  date none = some 0
  date (some s) = texts.parse s

  -- The seconds of an entry; one without a start counts for nothing.
  abbrev pub active : ℕ → Pause → Option ℤ
  active now p =
      if is_set p.start && is_set p.end
      then seconds (date p.end) (date p.start)
      else if is_set p.start
      then seconds (some now) (date p.start)
      else some (pos 0)

  unfoldable pub add_active : ℕ → Option ℤ → List Pause → Option ℤ
  add_active now total [] = total
  add_active now total (p ∷ ps) = add_active now (add total (active now p)) ps

  unfoldable pub calculate_total_duration : ℕ → Option Session → Option ℤ
  calculate_total_duration now none = some (pos 0)
  calculate_total_duration now (some t) =
      seconds (if is_set t.end_time then date t.end_time else some now) (texts.parse t.start_time)

  unfoldable pub active_of : ℕ → Option (List Pause) → Option ℤ
  unfolding add_active
  active_of now none = some (pos 0)
  active_of now (some ps) = add_active now (some (pos 0)) ps

  unfoldable pub calculate_current_active_duration : ℕ → Option Session → Option ℤ
  unfolding active_of
  calculate_current_active_duration now t = active_of now (log_of t)

  unfoldable pub calculate_idle_time : ℕ → Option Session → Option ℤ
  unfolding calculate_total_duration calculate_current_active_duration
  calculate_idle_time now t =
      rest_of (calculate_total_duration now t) (calculate_current_active_duration now t)
