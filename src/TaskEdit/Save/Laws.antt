-- ===== src/TaskEdit/Save/Laws.antt =====
-- What is sent when a task is saved.
use text.Mathlib.TextEquality.{eq_iff}
use gsd.Prelude.{
  ℕ, ◌≡◌, ◌≢◌, refl, ap, ◌∙◌, inl, inr, Bool, true, false, not, ◌&&◌, ◌||◌, String, Option, none,
  some, [], ◌==◌, string_eq, Bool-cases, if◌then◌else◌,
}
use gsd.Prelude.Int.{ℤ, pos, is_negative}
use gsd.Js.{Scalar, null, str, to_number, lt_number, scalar_eq, same_iff}
use gsd.Js.Texts.{is_blank}
use gsd.Js.Calls.{Call, returns, throws, ◌>>=◌}
use gsd.TaskEdit.{Form, Errors, Moment}
use gsd.TaskEdit.Validate.{handle_validate_chore, assignees_error, assigned_to_error}
use gsd.TaskEdit.Validate.Laws.{accepted_lem, name_lem, assignees_lem, assigned_to_lem}
use gsd.TaskEdit.Save.{
  Sent, Request, create, update, sent, request, submit, iso_due, handle_save_chore,
}

abbrev pub task_of : Request → Sent
task_of (create t) = t
task_of (update t) = t

abbrev pub is_update : Request → Bool
is_update (create t) = false
is_update (update t) = true

abbrev IsNumber : Option ℤ → Type 0
IsNumber none = Unit
IsNumber (some n) = is_negative n ≡ false

-- Numbers are missing or from 0 up, and names, users and projects fit.
abbrev pub IsSound : Sent → Type 0
IsSound t =
    IsNumber t.points
    × IsNumber t.completion_window
    × IsNumber t.deadline_offset
    × (is_blank t.name ≡ false)
    × (t.assign_strategy ≡ "no_assignee" → t.assigned_to ≡ none)
    × (t.assign_strategy ≢ "no_assignee"
        → (t.assignees ≢ []) × (n : ℕ) × (t.assigned_to ≡ some (pos n)))
    × (t.project_id ≢ str "default")

unless_negative-IsNumber : (n : ℤ) → IsNumber (if is_negative n then none else some n)
unless_negative-IsNumber n = elim (Bool-cases (is_negative n)) [ inl e ↦ rw e tt | inr e ↦ rw e e ]

window-IsNumber : (n : ℤ) (b : Bool) → IsNumber (if is_negative n || b then none else some n)
window-IsNumber n b = elim (Bool-cases (is_negative n)) [
  | inl e ↦ rw e tt
  | inr e ↦ elim (Bool-cases b) [ inl d ↦ rw (e, d) tt | inr d ↦ rw (e, d) e ]
]

project_sent : (p : Scalar) → (if p == str "default" then null else p) ≢ str "default"
project_sent p = elim (Bool-cases (p == str "default")) [
  | inl e ↦ rw e (λ h. cc h)
  | inr e ↦ rw e (λ h. cc ((same_iff p (str "default")).1 h, e))
]

different : (s : String) → s ≢ "no_assignee" → (s == "no_assignee") ≡ false
different s h = elim (Bool-cases (s == "no_assignee")) [
  | inl e ↦ absurd (h ((eq_iff s "no_assignee").0 e))
  | inr e ↦ e
]

-- A form without messages is sent as a task that is sound.
sound :
    (f : Form) (e : Errors) (id : Scalar) (due : Option String)
    → is_blank f.name ≡ false
    → (f.assign_strategy ≢ "no_assignee"
        → (f.assignees ≢ []) × (n : ℕ) × (f.assigned_to ≡ some (pos n)))
    → IsSound (sent id due (record f { errors = e; attempt_to_save = true }))
unfolding sent
sound f e id due name user = (
  unless_negative-IsNumber f.points,
  window-IsNumber f.completion_window _,
  unless_negative-IsNumber f.deadline_offset,
  name,
  λ none_assigned. rw ((eq_iff f.assign_strategy "no_assignee").1 none_assigned) refl,
  λ assigned.
      let (some_user, n, same) = user assigned in
      (some_user, n, rw (different f.assign_strategy assigned) same),
  project_sent f.project_id,
)

abbrev outcome : Scalar → Form → Option String → Form × Option Request
outcome id f due = (f, some (request id (sent id due f)))

submitted :
    (m : Moment) (id : Scalar) (f g : Form) (accepted : Bool) (q : Request)
    → submit m id (f, accepted) ≡ returns (g, some q)
    → (accepted ≡ true) × (due : Option String) × (q ≡ request id (sent id due f))
submitted m id f g false q h = cc h
submitted m id f g true q h = let (due, same) = of_due (iso_due m f.due_date) h in (refl, due, same)
  where
    of_due :
        (c : Call (Option String))
        → (c >>= λ due. returns (outcome id f due)) ≡ returns (g, some q)
        → (due : Option String) × (q ≡ request id (sent id due f))
    of_due (returns due) h = (due, cc h)
    of_due throws h = cc h

requested :
    (id : Scalar) (t : Sent)
    → (task_of (request id t) ≡ t) × (is_update (request id t) ≡ lt_number (some 0) (to_number id))
requested id t = elim (Bool-cases (lt_number (some 0) (to_number id))) [
  | inl e ↦ rw e (refl, refl)
  | inr e ↦ rw e (refl, refl)
]

unless_copy :
    (clone : Bool) (id : Scalar)
    → lt_number (some 0) (to_number (if clone then null else id))
      ≡ (not clone && lt_number (some 0) (to_number id))
unfolding to_number
unless_copy true id = refl
unless_copy false id = refl

in_use :
    (f : Form)
    → f.assign_strategy ≢ "no_assignee"
    → assignees_error f ≡ none
    → assigned_to_error f ≡ none
    → (f.assignees ≢ []) × (n : ℕ) × (f.assigned_to ≡ some (pos n))
in_use f needed users user =
    let (n, same) = (assigned_to_lem f).0 user needed in ((assignees_lem f).0 users needed, n, same)

-- What is sent is a sound task, and a task is changed where the id in the address is greater than 0 and no
-- copy is made, and created otherwise.
pub handle_save_chore_lem :
    (m : Moment) (id : Scalar) (clone : Bool) (f g : Form) (q : Request)
    → handle_save_chore m id clone f ≡ returns (g, some q)
    → IsSound (task_of q) × (is_update q ≡ (not clone && lt_number (some 0) (to_number id)))
unfolding handle_save_chore
handle_save_chore_lem m id clone f g q h = of_call (handle_validate_chore started) refl h
  where
    started : Form
    started = record f { attempt_to_save = true }

    target : Scalar
    target = if clone then null else id

    of_call :
        (c : Call (Form × Bool))
        → handle_validate_chore started ≡ c
        → (c >>= submit m target) ≡ returns (g, some q)
        → IsSound (task_of q) × (is_update q ≡ (not clone && lt_number (some 0) (to_number id)))
    of_call throws e h = cc h
    of_call (returns (checked, accepted)) e h =
        let (ok, due, same) = submitted m target checked g accepted q h in
        let (errors, made, name, users, user) = accepted_lem started checked (rw ok at e) in
        let task = sent target due (record f { errors = errors; attempt_to_save = true }) in
        let q_is : q ≡ request target task =
          same ∙ ap (λ c. request target (sent target due c)) made in
        let (of_q, kind) = requested target task in
        (
          rw (ap task_of q_is ∙ of_q) (
              sound f errors target due ((name_lem started).0 name)
                (λ needed. in_use started needed users user)),
          ap is_update q_is ∙ kind ∙ unless_copy clone id,
        )
