-- ===== src/TaskEdit/Validate/Laws.antt =====
-- What the validation accepts, and where it throws.
use text.Mathlib.TextEquality.{eq_iff}
use gsd.Prelude.{
  ℕ, ◌≡◌, ◌≢◌, refl, ap, ◌↔◌, ◌⊎◌, inl, inr, Bool, true, false, not, ◌&&◌, String, Option, none,
  some, [], arith, ◌==◌, string_eq, Bool-cases, if◌then◌else◌,
}
use gsd.Prelude.Int.{ℤ, pos, negsuc, is_negative}
use gsd.Js.{Scalar, truthy}
use gsd.Js.Texts.{is_blank}
use gsd.Js.Calls.{Call, returns, throws, ◌>>=◌}
use gsd.TaskEdit.{Form, Metadata, Errors}
use gsd.TaskEdit.Validate.{
  validate, handle_validate_chore, frequency_error, interval_message, error_list, is_nil,
  name_error, assignees_error, assigned_to_error, due_date_error, thing_error, last_of, error_if,
  is_empty, is_missing, is_text,
}

-- No list of the metadata that the repetition needs is empty.
abbrev pub IsSelected : String → Scalar → Metadata → Type 0
IsSelected type frequency d =
    (type ≡ "interval" → truthy frequency ≡ true)
    × (type ≡ "days_of_the_week"
        → (d.days ≢ some [])
          × (d.week_pattern ≡ some "week_of_month"
              → (d.occurrences ≢ none) × (d.occurrences ≢ some [])))
    × (type ≡ "day_of_the_month" → d.months ≢ some [])

abbrev pub IsComplete : Form → Metadata → Type 0
IsComplete f d =
    (is_blank f.name ≡ false)
    × (f.assign_strategy ≢ "no_assignee"
        → (f.assignees ≢ []) × (n : ℕ) × (f.assigned_to ≡ some (pos n)))
    × IsSelected f.frequency_type f.frequency d
    × (f.due_date ≡ none
        → (f.frequency_type ≡ "no_repeat")
          ⊎ (f.frequency_type ≡ "once")
          ⊎ (f.frequency_type ≡ "trigger"))
    × (f.frequency_type ≡ "trigger" → f.is_thing_valid ≡ true)

listed_none :
    (e : Errors)
    → (is_nil (error_list e) ≡ true) ↔ (
        (e.name ≡ none)
        × (e.assignees ≡ none)
        × (e.assigned_to ≡ none)
        × (e.frequency ≡ none)
        × (e.due_date ≡ none)
        × (e.thing_trigger ≡ none))
listed_none e = ground arith

pub name_lem : (f : Form) → (name_error f ≡ none) ↔ (is_blank f.name ≡ false)
name_lem f = ground arith

pub assignees_lem :
    (f : Form) → (assignees_error f ≡ none) ↔ (f.assign_strategy ≢ "no_assignee" → f.assignees ≢ [])
assignees_lem f = ground (arith, eq_iff f.assign_strategy "no_assignee")

assigned_iff :
    (o : Option ℤ)
    → (error_if (elim o [ none ↦ true | some user ↦ is_negative user ]) "Assigned to is required"
        ≡ none)
      ↔ ((n : ℕ) × (o ≡ some (pos n)))
assigned_iff none = (λ h. cc h, λ (n, h). cc h)
assigned_iff (some (pos n)) = (λ h. (n, refl), λ h. refl)
assigned_iff (some (negsuc n)) = (λ h. cc h, λ (m, h). cc h)

pub assigned_to_lem :
    (f : Form)
    → (assigned_to_error f ≡ none)
      ↔ (f.assign_strategy ≢ "no_assignee" → (n : ℕ) × (f.assigned_to ≡ some (pos n)))
assigned_to_lem f = elim (Bool-cases (f.assign_strategy == "no_assignee")) [
  | inl e ↦
      rw e (
        λ _ different. absurd (different ((eq_iff f.assign_strategy "no_assignee").0 e)),
        λ _. refl,
      )
  | inr e ↦ rw e (
    λ h _. (assigned_iff f.assigned_to).0 h,
    λ h.
        (assigned_iff f.assigned_to).1
          (h (λ same. cc ((eq_iff f.assign_strategy "no_assignee").1 same, e))),
  )
]

due_date_lem :
    (f : Form)
    → (due_date_error f ≡ none) ↔ (
        f.due_date ≡ none
        → (f.frequency_type ≡ "no_repeat")
          ⊎ (f.frequency_type ≡ "once")
          ⊎ (f.frequency_type ≡ "trigger"))
due_date_lem f = ground (
  arith,
  eq_iff f.frequency_type "no_repeat",
  eq_iff f.frequency_type "once",
  eq_iff f.frequency_type "trigger",
)

thing_lem :
    (f : Form) → (thing_error f ≡ none) ↔ (f.frequency_type ≡ "trigger" → f.is_thing_valid ≡ true)
thing_lem f = ground (arith, eq_iff f.frequency_type "trigger")

-- The message on the repetition, for a form with metadata.
abbrev message : String → Scalar → Metadata → Option String
message type frequency d =
    last_of
      (last_of
        (last_of
          (if type == "interval" && not (truthy frequency) then some (interval_message d) else none)
          (if type == "days_of_the_week"
            then error_if (is_empty d.days) "Please select at least one day of the week"
            else none))
        (if type == "days_of_the_week"
          then error_if (is_text d.week_pattern "week_of_month" && is_missing d.occurrences)
              "Please select at least one day occurrence for the month"
          else none))
      (if type == "day_of_the_month"
        then error_if (is_empty d.months) "Please select at least one month"
        else none)

is_text_iff : (o : Option String) (s : String) → (is_text o s ≡ true) ↔ (o ≡ some s)
is_text_iff none s = (λ h. cc h, λ h. cc h)
is_text_iff (some t) s = (λ h. ap some ((eq_iff t s).0 h), λ h. (eq_iff t s).1 (cc h))

message_lem :
    (type : String) (frequency : Scalar) (d : Metadata)
    → (message type frequency d ≡ none) ↔ IsSelected type frequency d
message_lem type frequency d = ground (
  arith,
  eq_iff type "interval",
  eq_iff type "days_of_the_week",
  eq_iff type "day_of_the_month",
  is_text_iff d.week_pattern "week_of_month",
)

frequency_error_lem :
    (f : Form) (d : Metadata)
    → f.frequency_metadata ≡ some d
    → frequency_error f ≡ returns (message f.frequency_type f.frequency d)
unfolding frequency_error
frequency_error_lem f d h = rw h refl

-- With metadata, the validation returns, and accepts exactly the complete forms.
pub handle_validate_chore_iff :
    (f : Form) (d : Metadata)
    → f.frequency_metadata ≡ some d
    → (errors : Errors) × (accepted : Bool) × (handle_validate_chore f
        ≡ returns (record f { errors = errors }, accepted))
      × ((accepted ≡ true) ↔ IsComplete f d)
unfolding handle_validate_chore validate
handle_validate_chore_iff f d h =
    let errors : Errors = record {
      name = name_error f;
      assignees = assignees_error f;
      assigned_to = assigned_to_error f;
      frequency = message f.frequency_type f.frequency d;
      due_date = due_date_error f;
      thing_trigger = thing_error f;
    } in
    (
      errors,
      is_nil (error_list errors),
      rw (frequency_error_lem f d h) refl,
      (
        λ accepted.
            let (a, b, c, g, e, t) = (listed_none errors).0 accepted in
            (
              (name_lem f).0 a,
              λ needed.
                  let (n, user) = (assigned_to_lem f).0 c needed in
                  ((assignees_lem f).0 b needed, n, user),
              (message_lem f.frequency_type f.frequency d).0 g,
              (due_date_lem f).0 e,
              (thing_lem f).0 t,
            ),
        λ (a, b, g, e, t). (listed_none errors).1 (
          (name_lem f).1 a,
          (assignees_lem f).1 (λ needed. (b needed).0),
          (assigned_to_lem f).1 (λ needed. ((b needed).1, (b needed).2)),
          (message_lem f.frequency_type f.frequency d).1 g,
          (due_date_lem f).1 e,
          (thing_lem f).1 t,
        ),
      ),
    )

-- The validation throws exactly if there are no metadata and they are read: for days of the week and of the
-- month, and for an interval whose frequency is 0, empty or missing.
pub handle_validate_chore-throws_iff :
    (f : Form)
    → (handle_validate_chore f ≡ throws) ↔ (
        (f.frequency_metadata ≡ none)
        × ((f.frequency_type ≡ "days_of_the_week")
            ⊎ (f.frequency_type ≡ "day_of_the_month")
            ⊎ ((f.frequency_type ≡ "interval") × (truthy f.frequency ≡ false))))
unfolding handle_validate_chore validate frequency_error
handle_validate_chore-throws_iff f = ground (
  arith,
  eq_iff f.frequency_type "interval",
  eq_iff f.frequency_type "days_of_the_week",
  eq_iff f.frequency_type "day_of_the_month",
)

abbrev checked : Form → Errors → Form × Bool
checked f e = (record f { errors = e }, is_nil (error_list e))

-- Where the validation accepts, there is no message under any field.
pub accepted_lem :
    (f g : Form)
    → handle_validate_chore f ≡ returns (g, true)
    → (e : Errors) × (g ≡ record f { errors = e })
      × (name_error f ≡ none)
      × (assignees_error f ≡ none)
      × (assigned_to_error f ≡ none)
unfolding handle_validate_chore validate
accepted_lem f g h = of_call (frequency_error f) h
  where
    errors : Option String → Errors
    errors text = record {
      name = name_error f;
      assignees = assignees_error f;
      assigned_to = assigned_to_error f;
      frequency = text;
      due_date = due_date_error f;
      thing_trigger = thing_error f;
    }

    of_call :
        (c : Call (Option String))
        → (c >>= λ text. returns (errors text)) >>= (λ e. returns (checked f e)) ≡ returns (g, true)
        → (e : Errors) × (g ≡ record f { errors = e })
          × (name_error f ≡ none)
          × (assignees_error f ≡ none)
          × (assigned_to_error f ≡ none)
    of_call (returns text) h =
        let none_listed : is_nil (error_list (errors text)) ≡ true = cc h in
        let (a, b, c, _, _, _) = (listed_none (errors text)).0 none_listed in
        (errors text, cc h, a, b, c)
    of_call throws h = cc h
