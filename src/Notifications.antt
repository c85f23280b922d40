-- ===== src/Notifications.antt =====
-- The local notifications of ui/src/views/Chores/LocalNotificationScheduler.js. The local reading of a
-- time of day and the hash function are parameters. Values of templates are integers.
pub mod Laws
use Prim.Native.Char.{code}
use Prim.Native.String
use gsd.Prelude.{
  ℕ, ◌+◌, ◌-◌, ◌*◌, ◌/◌, ◌%◌, Bool, true, false, not, ◌&&◌, ◌||◌, String, Option, none, some, List,
  [], ◌∷◌, ◌++◌, if◌then◌else◌, ◌==◌, string_eq, nat_eq, ltb, leb, length, take,
}
use gsd.Prelude.Int.{ℤ, pos, negsuc, ◌+ℤ◌, scale, abs, is_negative}
use gsd.Js.{Scalar, null, boolean, scalar_eq, to_text, decimal}
use gsd.Js.Calls.{Call, returns, throws}
use gsd.Js.Sort.{Sign, sub_sign, sort}
use gsd.Dates.{Host, to_date}

abbrev max_local_notifications : ℕ
max_local_notifications = 64

-- `notificationPreferences['granted'] === false`, where the stored text is parsed to an object, or to
-- `null` where nothing is stored.
unfoldable pub can_schedule_notification : Bool → Option Scalar → Call Bool
can_schedule_notification native none = if native then throws else returns false
can_schedule_notification native (some granted) = returns (native && not (granted == boolean false))

pub record Template : Type 0 where
  pub value : ℤ
  pub unit : String

-- What the scheduler reads of a task.
pub record Reminded : Type 0 where
  pub id : Scalar
  pub name : String
  pub notification : Scalar
  pub next_due_date : Scalar
  pub templates : Option (List Template)

-- The kind of a message; the title is its sign before the name, and the name is in UTF-16 units.
pub data Kind : Type 0 where
  reminder due overdue : Kind

pub record Notification : Type 0 where
  pub kind : Kind
  pub name : List ℕ
  pub body : String
  pub id : ℕ
  pub at : ℕ
  pub chore_id : Scalar

infixr 6 ◌<>◌
abbrev ◌<>◌ : String → String → String
a <> b = String.◌++◌ a b

abbrev int_text : ℤ → String
int_text (pos n) = decimal n
int_text (negsuc n) = "-" <> decimal (n + 1)

-- The time of a date that exists; a date further than 8640000000000000 from 1970 does not.
abbrev date_of : ℤ → Option ℤ
date_of (pos n) = if leb n 8640000000000000 then some (pos n) else none
date_of (negsuc n) = if ltb n 8640000000000000 then some (negsuc n) else none

abbrev minutes_of : String → Option ℕ
minutes_of unit =
    if unit == "m"
    then some 1
    else if unit == "h"
    then some 60
    else if unit == "d"
    then some 1440
    else none

unfoldable pub get_time_from_template : Template → ℕ → Option ℤ
get_time_from_template t relative = elim (minutes_of t.unit) [
  | none ↦ some (pos relative)
  | some minutes ↦ date_of (pos relative +ℤ scale t.value (minutes * 60000))
]

units_of : ℕ → List ℕ
units_of c =
    if ltb c 65536 then c ∷ [] else (55296 + (c - 65536) / 1024) ∷ (56320 + (c - 65536) % 1024) ∷ []

units : String → List ℕ
units String.[] = []
units (String.◌∷◌ c s) = units_of (code c) ++ units s

unfoldable pub truncated_name : String → List ℕ
unfolding units units_of
truncated_name name =
    if ltb 25 (length (units name)) then take 25 (units name) ++ 46 ∷ 46 ∷ 46 ∷ [] else units name

abbrev kind_of : ℤ → Kind
kind_of (negsuc n) = reminder
kind_of (pos n) = if n == 0 then due else overdue

abbrev in_or_ago : Bool → String → String
in_or_ago ahead s = if ahead then "in " <> s else s <> " ago"

-- `Math.round(n / 7)`
abbrev weeks : ℕ → ℕ
weeks n = (2 * n + 7) / 14

unfoldable pub time_description : Template → String
time_description t =
    let n = abs t.value in
    let ahead = is_negative t.value in
    let plain = in_or_ago ahead (decimal n <> " " <> t.unit) in
    if n == 0 || t.unit == ""
    then "soon"
    else if t.unit == "m"
    then (if n == 1
        then in_or_ago ahead "1 minute"
        else if ltb n 60
        then in_or_ago ahead (decimal n <> " minutes")
        else plain)
    else if t.unit == "h"
    then (if n == 1
        then in_or_ago ahead "1 hour"
        else if ltb n 24
        then in_or_ago ahead (decimal n <> " hours")
        else plain)
    else if t.unit == "d"
    then (if n == 1
        then (if ahead then "tomorrow" else "yesterday")
        else if n == 7
        then (if ahead then "next week" else "last week")
        else if ltb n 7
        then in_or_ago ahead (decimal n <> " days")
        else if ltb n 30
        then in_or_ago ahead (decimal (weeks n) <> " weeks")
        else plain)
    else plain

abbrev body_of : Kind → String → String
body_of reminder text = "Reminder: Due " <> text
body_of due text = "Due now - Time to get started!"
body_of overdue text = "Overdue " <> (text <> " - Complete when you can")

abbrev or_empty : Option (List Template) → List Template
or_empty none = []
or_empty (some ts) = ts

abbrev pub by_time : Notification → Notification → Sign
by_time a b = sub_sign a.at b.at

module _ (host : Host) (time_text : ℕ → String) (hash : String → ℕ) where
  unfoldable pub get_id_from_template : Scalar → Template → ℕ
  get_id_from_template id t =
      hash (to_text id <> ("-" <> (int_text t.value <> ("-" <> t.unit)))) % 2147483647

  abbrev notification : Reminded → Template → ℕ → Notification
  notification c t at = record {
    kind = kind_of t.value;
    name = truncated_name c.name;
    body = body_of (kind_of t.value) (time_description t) <> (" at " <> time_text at);
    id = get_id_from_template c.id t;
    at = at;
    chore_id = c.id;
  }

  -- `time > now`; the time of a template at a date that cannot be read is no date.
  abbrev time_of : Reminded → Template → Option ℤ
  time_of c t = elim (to_date host c.next_due_date) [
    | none ↦ none
    | some d ↦ get_time_from_template t d
  ]

  abbrev if_later : Reminded → Template → Option ℤ → List Notification
  if_later c t (some (pos at)) = if ltb host.now at then notification c t at ∷ [] else []
  if_later c t _ = []

  from_templates : Reminded → List Template → List Notification
  from_templates c [] = []
  from_templates c (t ∷ ts) = if_later c t (time_of c t) ++ from_templates c ts

  unfoldable pub schedule_notification_from_template : Reminded → List Notification
  unfolding from_templates
  schedule_notification_from_template c = from_templates c (or_empty c.templates)

  -- What the loop pushes.
  unfoldable pub collected : List Reminded → List Notification
  collected [] = []
  collected (c ∷ cs) =
      let rest = collected cs in
      if c.notification == boolean false || c.next_due_date == null
      then rest
      else schedule_notification_from_template c ++ rest

  unfoldable pub schedule_chore_notification : List Reminded → List Notification
  schedule_chore_notification cs = take max_local_notifications (sort by_time (collected cs))
