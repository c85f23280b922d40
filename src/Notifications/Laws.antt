-- ===== src/Notifications/Laws.antt =====
-- What scheduleChoreNotification hands to the device.
use mathlib.Core.List.{Perm}
use gsd.Prelude.{
  ℕ, zero, suc, ◌≤◌, ◌<◌, min, ◌≡◌, refl, false, inl, inr, String, Option, none, some, List, [],
  ◌∷◌, ◌++◌, arith, ltb, Bool-cases, All, All-map, All-append, All-take, All-drop, ◌||◌, ◌==◌,
  string_eq, length, take, drop, take-append-drop, length-take,
}
use gsd.Prelude.Int.{ℤ, pos, negsuc}
use gsd.Js.{boolean, null, scalar_eq}
use gsd.Js.Sort.{IsSorted, Before, sort, sort-perm, length-sort, sort-IsSorted, All-sort}
use gsd.Dates.{Host}
use gsd.Notifications.{
  Template, Reminded, Notification, time_of, if_later, from_templates, or_empty,
  schedule_notification_from_template, collected, by_time, schedule_chore_notification,
}

abbrev NotLater : Notification → Notification → Type 0
NotLater a b = a.at ≤ b.at

by_time_total : (a b : Notification) → Before by_time a b → NotLater a b
by_time_total a b h = ground arith

abbrev IsInOrder : List Notification → Type 0
IsInOrder [] = Unit
IsInOrder (x ∷ xs) = All (NotLater x) xs × IsInOrder xs

IsInOrder-sort : (xs : List Notification) → IsInOrder (sort by_time xs)
IsInOrder-sort xs = from (sort by_time xs) (sorted xs)
  where
    anything : (ys : List Notification) → All (λ _. Unit {0}) ys
    anything [] = tt
    anything (y ∷ ys) = (tt, anything ys)

    sorted : (ys : List Notification) → IsSorted by_time (sort by_time ys)
    sorted ys =
        sort-IsSorted by_time (λ _. Unit {0}) (λ x y _ _ h. ground arith)
          (λ x y z _ _ _ h k. ground arith) ys (anything ys)

    from : (ys : List Notification) → IsSorted by_time ys → IsInOrder ys
    from [] h = tt
    from (y ∷ ys) (h, hs) = (All-map (by_time_total y) ys h, from ys hs)

-- A list in order is cut into one in order, and one that holds nothing sooner.
take-IsInOrder : (n : ℕ) (xs : List Notification) → IsInOrder xs → IsInOrder (take n xs)
take-IsInOrder zero xs h = tt
take-IsInOrder (suc n) [] h = tt
take-IsInOrder (suc n) (x ∷ xs) (h, hs) = (All-take (NotLater x) n xs h, take-IsInOrder n xs hs)

kept_sooner :
    (n : ℕ) (xs : List Notification)
    → IsInOrder xs
    → All (λ x. All (NotLater x) (drop n xs)) (take n xs)
kept_sooner zero xs h = tt
kept_sooner (suc n) [] h = tt
kept_sooner (suc n) (x ∷ xs) (h, hs) = (All-drop (NotLater x) n xs h, kept_sooner n xs hs)

module _ (host : Host) (time_text : ℕ → String) (hash : String → ℕ) where
  abbrev IsFuture : Notification → Type 0
  IsFuture n = host.now < n.at

  All-if_later :
      (c : Reminded) (t : Template) (time : Option ℤ)
      → All IsFuture (if_later host time_text hash c t time)
  All-if_later c t none = tt
  All-if_later c t (some (negsuc n)) = tt
  All-if_later c t (some (pos at)) = elim (Bool-cases (ltb host.now at)) [
    | inl e ↦ rw e (ground arith, tt)
    | inr e ↦ rw e tt
  ]

  All-from_templates :
      (c : Reminded) (ts : List Template) → All IsFuture (from_templates host time_text hash c ts)
  unfolding from_templates
  All-from_templates c [] = tt
  All-from_templates c (t ∷ ts) =
      All-append IsFuture _ _ (All-if_later c t (time_of host time_text hash c t))
        (All-from_templates c ts)

  All-collected : (cs : List Reminded) → All IsFuture (collected host time_text hash cs)
  unfolding collected schedule_notification_from_template
  All-collected [] = tt
  All-collected (c ∷ cs) =
      elim (Bool-cases (c.notification == boolean false || c.next_due_date == null)) [
        | inl e ↦ rw e (All-collected cs)
        | inr e ↦ rw e (
            All-append IsFuture _ _ (All-from_templates c (or_empty c.templates))
              (All-collected cs))
      ]

  -- The notifications that are kept, of all that were collected.
  abbrev pub IsSchedule : List Notification → List Notification → Type 0
  IsSchedule all kept =
      All IsFuture kept
      × IsInOrder kept
      × (length kept ≡ min 64 (length all))
      × (left : List Notification) × Perm (kept ++ left) all
      × All (λ x. All (NotLater x) left) kept

  -- What is handed to the device lies in the future, soonest first, and is what the tasks ask for, or
  -- the first 64 of it: what is left out is no sooner than anything that is kept.
  pub schedule_chore_notification_lem :
      (cs : List Reminded)
      → IsSchedule
          (collected host time_text hash cs)
          (schedule_chore_notification host time_text hash cs)
  unfolding schedule_chore_notification
  schedule_chore_notification_lem cs =
      let all = collected host time_text hash cs in
      let sorted = sort by_time all in
      (
        All-take IsFuture 64 sorted (All-sort by_time IsFuture all (All-collected cs)),
        take-IsInOrder 64 sorted (IsInOrder-sort all),
        rw (length-take 64 sorted, length-sort by_time all) refl,
        drop 64 sorted,
        rw (take-append-drop 64 sorted) (sort-perm by_time all),
        kept_sooner 64 sorted (IsInOrder-sort all),
      )
