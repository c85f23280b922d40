-- ===== src/TaskEdit/Settled.antt =====
-- The effects of the form come to rest after one round, and what the validation can then find.

use gsd.Prelude.{
  ℕ, ◌≡◌, refl, sym, ap, ◌∙◌, inl, inr, Bool, true, false, not, ◌&&◌, String, Option, none, some,
  List, [], ◌∷◌, arith, ◌==◌, string_eq, Bool-cases, if◌then◌else◌,
}
use gsd.Prelude.Int.{ℤ, pos}
use gsd.Js.Calls.{Call, returns, throws, ◌>>=◌}
use gsd.TaskEdit.{
  Form, Errors, Moment, is_set, assignees_effect, frequency_effect, effects, may_lack_date,
  takes_no_date, assignees_rule, with_assignee, today_due, without_due,
}
use gsd.TaskEdit.Validate.{
  validate, assignees_error, due_date_error, frequency_error, name_error, assigned_to_error,
  thing_error,
}

abbrev pub needs_date : Form → Bool
needs_date f = not (may_lack_date f.frequency_type) && not (is_set f.due_date)

kept :
    (s : String) → ((if s == "no_assignee" then "least_completed" else s) == "no_assignee") ≡ false
kept s = elim (Bool-cases (s == "no_assignee")) [ inl e ↦ rw e refl | inr e ↦ rw e e ]

rule_twice :
    (users : List ℕ) (f : Form)
    → assignees_rule users (assignees_rule users f) ≡ assignees_rule users f
unfolding assignees_rule
rule_twice [] f = refl
rule_twice (user ∷ []) f = rw (kept f.assign_strategy) refl
rule_twice (_ ∷ _ ∷ _) f = refl

rule-assignees : (users : List ℕ) (f : Form) → (assignees_rule users f).assignees ≡ f.assignees
unfolding assignees_rule
rule-assignees [] f = refl
rule-assignees (user ∷ []) f = refl
rule-assignees (_ ∷ _ ∷ _) f = refl

assignees_twice : (f : Form) → assignees_effect (assignees_effect f) ≡ assignees_effect f
unfolding assignees_effect
assignees_twice f = rw (rule-assignees f.assignees f) (rule_twice f.assignees f)

-- The messages that the validation puts under two of the fields.
parts :
    (f : Form) (e : Errors)
    → validate f ≡ returns e
    → (e.assignees ≡ assignees_error f) × (e.due_date ≡ due_date_error f)
unfolding validate
parts f e h = of_call (frequency_error f) h
  where
    of_call :
        (c : Call (Option String))
        → (c >>= λ message. returns (record {
          name = name_error f;
          assignees = assignees_error f;
          assigned_to = assigned_to_error f;
          frequency = message;
          due_date = due_date_error f;
          thing_trigger = thing_error f;
        }))
          ≡ returns e
        → (e.assignees ≡ assignees_error f) × (e.due_date ≡ due_date_error f)
    of_call (returns message) h = (cc h, cc h)
    of_call throws h = cc h

module _ (m : Moment) where
  -- The cases of the effect on the due date.
  pub none_taken :
      (f : Form) → takes_no_date f.frequency_type ≡ true → frequency_effect m f ≡ without_due m f
  unfolding frequency_effect
  none_taken f e = elim (Bool-cases (needs_date f)) [
    | inl n ↦ rw (e, n) refl
    | inr n ↦ rw (e, n) refl
  ]

  today_set :
      (f : Form)
      → takes_no_date f.frequency_type ≡ false
      → (needs_date f) ≡ true
      → frequency_effect m f ≡ today_due m f
  unfolding frequency_effect
  today_set f e n = rw (e, n) refl

  pub untouched :
      (f : Form)
      → takes_no_date f.frequency_type ≡ false
      → (needs_date f) ≡ false
      → frequency_effect m f ≡ f
  unfolding frequency_effect
  untouched f e n = rw (e, n) refl

  -- The library writes a text for the end of today.
  abbrev pub HasToday : Type 0
  HasToday = (m.end_of_day m.today "YYYY-MM-DDTHH:mm:59" == "") ≡ false

  frequency_twice :
      HasToday → (f : Form) → frequency_effect m (frequency_effect m f) ≡ frequency_effect m f
  frequency_twice h f = elim (Bool-cases (takes_no_date f.frequency_type)) [
    | inl e ↦ rw (none_taken f e) (none_taken (without_due m f) e)
    | inr e ↦ elim (Bool-cases (needs_date f)) [
      | inl n ↦ rw (today_set f e n) (untouched (today_due m f) e (ground (arith, h)))
      | inr n ↦ rw (untouched f e n) (untouched f e n)
    ]
  ]

  -- The two effects change different fields.
  with_assignee-frequency :
      (s : String) (user : Option ℤ) (f : Form)
      → frequency_effect m (with_assignee s user f) ≡ with_assignee s user (frequency_effect m f)
  with_assignee-frequency s user f = elim (Bool-cases (takes_no_date f.frequency_type)) [
    | inl e ↦ rw (none_taken f e) (none_taken (with_assignee s user f) e)
    | inr e ↦ elim (Bool-cases (needs_date f)) [
      | inl n ↦ rw (today_set f e n) (today_set (with_assignee s user f) e n)
      | inr n ↦ rw (untouched f e n) (untouched (with_assignee s user f) e n)
    ]
  ]

  same_users : (f : Form) → (frequency_effect m f).assignees ≡ f.assignees
  same_users f = elim (Bool-cases (takes_no_date f.frequency_type)) [
    | inl e ↦ rw (none_taken f e) refl
    | inr e ↦ elim (Bool-cases (needs_date f)) [
      | inl n ↦ rw (today_set f e n) refl
      | inr n ↦ rw (untouched f e n) refl
    ]
  ]

  same_strategy : (f : Form) → (frequency_effect m f).assign_strategy ≡ f.assign_strategy
  same_strategy f = elim (Bool-cases (takes_no_date f.frequency_type)) [
    | inl e ↦ rw (none_taken f e) refl
    | inr e ↦ elim (Bool-cases (needs_date f)) [
      | inl n ↦ rw (today_set f e n) refl
      | inr n ↦ rw (untouched f e n) refl
    ]
  ]

  rule-frequency :
      (users : List ℕ) (f : Form)
      → frequency_effect m (assignees_rule users f) ≡ assignees_rule users (frequency_effect m f)
  unfolding assignees_rule
  rule-frequency [] f = with_assignee-frequency "no_assignee" none f
  rule-frequency (user ∷ []) f = rw (same_strategy f) (
      with_assignee-frequency
        (if f.assign_strategy == "no_assignee" then "least_completed" else f.assign_strategy)
        (some (pos user)) f)
  rule-frequency (_ ∷ _ ∷ _) f = refl

  assignees-frequency :
      (f : Form) → frequency_effect m (assignees_effect f) ≡ assignees_effect (frequency_effect m f)
  unfolding assignees_effect
  assignees-frequency f =
      rule-frequency f.assignees f
      ∙ ap (λ users. assignees_rule users (frequency_effect m f)) (sym (same_users f))

  -- Where the library writes a text for the end of today, one round of the effects brings the form to rest:
  -- a second round changes nothing.
  pub effects_twice : HasToday → (f : Form) → effects m (effects m f) ≡ effects m f
  unfolding effects
  effects_twice h f =
      ap assignees_effect (assignees-frequency (frequency_effect m f))
      ∙ assignees_twice (frequency_effect m (frequency_effect m f))
      ∙ ap assignees_effect (frequency_twice h f)

  no_assignees_error :
      (users : List ℕ) (f : Form)
      → f.assignees ≡ users
      → assignees_error (assignees_rule users f) ≡ none
  unfolding assignees_rule
  no_assignees_error [] f e = refl
  no_assignees_error (user ∷ []) f e = rw e (ground arith)
  no_assignees_error (user ∷ other ∷ others) f e = rw e (ground arith)

  taken :
      (f : Form) → takes_no_date f.frequency_type ≡ true → due_date_error (without_due m f) ≡ none
  unfolding takes_no_date
  taken f e = ground (arith, e)

  unneeded : (f : Form) → needs_date f ≡ false → due_date_error f ≡ none
  unfolding may_lack_date
  unneeded f n = ground (arith, n)

  no_due_date_error : (f : Form) → due_date_error (frequency_effect m f) ≡ none
  no_due_date_error f = elim (Bool-cases (takes_no_date f.frequency_type)) [
    | inl e ↦ rw (none_taken f e) (taken f e)
    | inr e ↦ elim (Bool-cases (needs_date f)) [
      | inl n ↦ rw (today_set f e n) refl
      | inr n ↦ rw (untouched f e n) (unneeded f n)
    ]
  ]

  rule-due_date_error :
      (users : List ℕ) (f : Form) → due_date_error (assignees_rule users f) ≡ due_date_error f
  unfolding assignees_rule
  rule-due_date_error [] f = refl
  rule-due_date_error (user ∷ []) f = refl
  rule-due_date_error (_ ∷ _ ∷ _) f = refl

  -- After a round of the effects, the validation never asks for assignees or for a date.
  pub validate-effects :
      (f : Form) (e : Errors)
      → validate (effects m f) ≡ returns e
      → (e.assignees ≡ none) × (e.due_date ≡ none)
  unfolding effects assignees_effect
  validate-effects f e h =
      let g = frequency_effect m f in
      let (a, d) = parts (effects m f) e h in
      (
        a ∙ no_assignees_error g.assignees g refl,
        d ∙ rule-due_date_error g.assignees g ∙ no_due_date_error f,
      )
