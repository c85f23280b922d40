-- ===== src/Filter/Validate/Laws.antt =====
-- What `validateFilter` accepts.
use gsd.Prelude.{
  ℕ, ◌+◌, ◌≡◌, ◌↔◌, ◌⊎◌, refl, inl, inr, Bool, true, false, not, ◌&&◌, ◌||◌, String, Option, none,
  some, List, [], ◌∷◌, ◌++◌, if◌then◌else◌, ◌==◌, string_eq, any, All, Bool-cases,
}
use text.Mathlib.TextEquality.{eq_iff}
use mathlib.Core.Path.{subst}
use gsd.Js.{Scalar, str, Value, many, same, truthy, as_array, same_iff}
use gsd.Chores.{Chore}
use gsd.Filter.Conditions.{evaluate_project}
use gsd.Filter.{Condition, Context, Filter, is_text}
use gsd.Filter.Validate.{
  is_member, is_label, is_project, is_empty, unless_known, check_condition, check_conditions,
  validate_conditions, validate_filter,
}

unless_known_iff :
    (known : Scalar → Bool) (ids : List Scalar) (text : String)
    → (unless_known known ids text ≡ []) ↔ All (λ id. known id ≡ true) ids
unfolding unless_known
unless_known_iff known [] text = (λ e. tt, λ h. refl)
unless_known_iff known (id ∷ ids) text = elim (Bool-cases (known id)) [
  | inl e ↦ let ih = unless_known_iff known ids text in rw e (λ h. (refl, ih.0 h), λ h. ih.1 h.1)
  | inr e ↦ rw e (λ h. cc h, λ h. cc h.0)
]

-- What a condition on the assignee, the label or the project refers to is known.
abbrev pub RefersToKnown : Context → Condition → Type 0
RefersToKnown context c =
    (c.type ≡ "assignee"
      → ((is_text c.value "me" || is_text c.value "others" || is_text c.value "anyone") ≡ true)
        ⊎ All (λ id. is_member context.members id ≡ true) (as_array c.value))
    × (c.type ≡ "label" → All (λ id. is_label context.labels id ≡ true) (as_array c.value))
    × (c.type ≡ "project"
        → (is_text c.value "default" ≡ true)
          ⊎ All (λ id. is_project context.projects id ≡ true) (as_array c.value))

-- An issue that is raised under a test.
gate_iff :
    (b : Bool) (xs : List String) (P : Type 0)
    → (xs ≡ []) ↔ P
    → ((if b then xs else []) ≡ []) ↔ (b ≡ true → P)
gate_iff true xs P h = (λ e _. h.0 e, λ k. h.1 (k refl))
gate_iff false xs P h = (λ e k. cc k, λ k. refl)

unless_iff : (p q : Bool) (P : Type 0) → ((p && not q) ≡ true → P) ↔ (p ≡ true → (q ≡ true) ⊎ P)
unless_iff true true P = (λ h _. inl refl, λ h k. cc k)
unless_iff true false P = (λ h _. inr (h refl), λ h _. elim (h refl) [ inl e ↦ cc e | inr p ↦ p ])
unless_iff false q P = (λ h k. cc k, λ h k. cc k)

append-nil_iff : (xs ys : List String) → (xs ++ ys ≡ []) ↔ ((xs ≡ []) × (ys ≡ []))
append-nil_iff [] ys = (λ e. (refl, e), λ h. h.1)
append-nil_iff (x ∷ xs) ys = (λ e. cc e, λ h. cc h.0)

check_condition_iff :
    (context : Context) (n : ℕ) (c : Condition)
    → (check_condition context n c ≡ []) ↔ RefersToKnown context c
unfolding check_condition
check_condition_iff context n c =
    let special = is_text c.value "me" || is_text c.value "others" || is_text c.value "anyone" in
    let members = unless_known_iff (is_member context.members) (as_array c.value) _ in
    let labels = unless_known_iff (is_label context.labels) (as_array c.value) _ in
    let projects = unless_known_iff (is_project context.projects) (as_array c.value) _ in
    let a = gate_iff (c.type == "assignee" && not special) _ _ members in
    let a' = unless_iff (c.type == "assignee") special _ in
    let l = gate_iff (c.type == "label") _ _ labels in
    let p = gate_iff (c.type == "project" && not (is_text c.value "default")) _ _ projects in
    let p' = unless_iff (c.type == "project") (is_text c.value "default") _ in
    (
      λ e.
          let (ea, rest) = (append-nil_iff _ _).0 e in
          let (el, ep) = (append-nil_iff _ _).0 rest in
          (
            λ t. a'.0 (a.0 ea) ((eq_iff _ _).1 t),
            λ t. l.0 el ((eq_iff _ _).1 t),
            λ t. p'.0 (p.0 ep) ((eq_iff _ _).1 t),
          ),
      λ h. (append-nil_iff _ _).1 (
        a.1 (a'.1 (λ t. h.0 ((eq_iff _ _).0 t))),
        (append-nil_iff _ _).1
            (l.1 (λ t. h.1 ((eq_iff _ _).0 t)), p.1 (p'.1 (λ t. h.2 ((eq_iff _ _).0 t)))),
      ),
    )

check_conditions_iff :
    (context : Context) (n : ℕ) (cs : List Condition)
    → (check_conditions context n cs ≡ []) ↔ All (RefersToKnown context) cs
unfolding check_conditions
check_conditions_iff context n [] = (λ e. tt, λ h. refl)
check_conditions_iff context n (c ∷ cs) =
    let here = check_condition_iff context n c in
    let there = check_conditions_iff context (n + 1) cs in
    (
      λ e. let (p, q) = (append-nil_iff _ _).0 e in (here.0 p, there.0 q),
      λ h. (append-nil_iff _ _).1 (here.1 h.0, there.1 h.1),
    )

is_empty_iff : (xs : List String) → (is_empty xs ≡ true) ↔ (xs ≡ [])
is_empty_iff [] = (λ e. refl, λ e. refl)
is_empty_iff (x ∷ xs) = (λ e. cc e, λ e. cc e)

validate_conditions_iff :
    (context : Context) (o : Option (List Condition))
    → ((validate_conditions context o).is_valid ≡ true) ↔ (
        (c : Condition) × (cs : List Condition) × (o ≡ some (c ∷ cs))
        × All (RefersToKnown context) (c ∷ cs))
unfolding validate_conditions
validate_conditions_iff context none = (λ e. cc e, λ h. cc h.2)
validate_conditions_iff context (some []) = (λ e. cc e, λ h. cc h.2)
validate_conditions_iff context (some (c ∷ cs)) = (
  λ e. (c, cs, refl, (check_conditions_iff context 1 (c ∷ cs)).0 ((is_empty_iff _).0 e)),
  λ h.
      let same : h.0 ∷ h.1 ≡ c ∷ cs = cc h.2 in
      (is_empty_iff _).1 (
        (check_conditions_iff context 1 (c ∷ cs)).1 (subst (All (RefersToKnown context)) same h.3)),
)

-- A filter is valid exactly if it has conditions, and the users of its conditions on the assignee are known unless
-- the value is one of the special words, the labels of those on labels are known, and the projects of those
-- on the project are known unless the value is the default one. The users of conditions on the creator are
-- not looked at.
pub validate_filter_iff :
    (context : Context) (f : Filter)
    → ((validate_filter context f).is_valid ≡ true) ↔ (
        (c : Condition) × (cs : List Condition) × (f.conditions ≡ some (c ∷ cs))
        × All (RefersToKnown context) (c ∷ cs))
unfolding validate_filter
validate_filter_iff context f = validate_conditions_iff context f.conditions

known_of_any :
    (known : Scalar → Bool) (x : Scalar) (ids : List Scalar)
    → All (λ id. known id ≡ true) ids
    → any (λ id. same id x) ids ≡ true
    → known x ≡ true
known_of_any known x [] h e = cc e
known_of_any known x (id ∷ ids) (h, hs) e = elim (Bool-cases (same id x)) [
  | inl s ↦ rw ((same_iff id x).0 s) at h
  | inr n ↦ known_of_any known x ids hs (rw n at e)
]

rejected :
    (context : Context) (c : Condition) (ids : List Scalar)
    → c.type ≡ "project"
    → c.value ≡ many ids
    → any (λ id. same id (str "default")) ids ≡ true
    → is_project context.projects (str "default") ≡ false
    → ¬ RefersToKnown context c
rejected context c ids t v d p h = elim (h.2 t) [
  | inl e ↦ cc (rw v at e)
  | inr all ↦
      let k : All (λ id. is_project context.projects id ≡ true) ids =
        subst (λ (w : Value). All (λ id. is_project context.projects id ≡ true) (as_array w)) v
          all in
      cc (known_of_any (is_project context.projects) (str "default") ids k d)
]

-- A condition on several projects, the default one among them, is evaluated as true for a task
-- without a project; but if no project of the context has the id of the default one, a filter that
-- begins with it is never valid.
pub evaluate_project-validate_filter :
    (context : Context) (f : Filter) (c : Condition) (cs : List Condition) (ids : List Scalar)
    (chore : Chore)
    → f.conditions ≡ some (c ∷ cs)
    → (c.type ≡ "project") × (c.operator ≡ "is") × (c.value ≡ many ids)
    → any (λ id. same id (str "default")) ids ≡ true
    → is_project context.projects (str "default") ≡ false
    → truthy chore.project_id ≡ false
    → (evaluate_project chore c.operator c.value ≡ true)
      × ((validate_filter context f).is_valid ≡ false)
unfolding evaluate_project
evaluate_project-validate_filter context f c cs ids chore e (t, o, v) d p q = (
  rw (o, v) (rw (d, q) refl),
  elim (Bool-cases (validate_filter context f).is_valid) [
    | inl valid ↦
        let (c', cs', e', h) = (validate_filter_iff context f).0 valid in
        let same : c' ≡ c = cc (e, e') in
        absurd (rejected context c ids t v d p (subst (RefersToKnown context) same h.0))
    | inr invalid ↦ invalid
  ],
)
