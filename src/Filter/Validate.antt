-- ===== src/Filter/Validate.antt =====
-- `validateFilter`: whether the users, labels and projects of a filter still exist.
pub mod Laws
use Prim.Native.String
use gsd.Prelude.{
  ℕ, zero, suc, ◌+◌, Bool, true, false, not, ◌&&◌, ◌||◌, String, Option, none, some, List, [], ◌∷◌,
  ◌++◌, if◌then◌else◌, ◌==◌, string_eq, any, filter,
}
use gsd.Js.{Scalar, num, same, to_number, decimal, as_array}
use gsd.Filter.{Condition, Member, Context, Filter, is_text}

pub record Validation : Type 0 where
  pub is_valid : Bool
  pub issues : List String

abbrev pub is_member : List Member → Scalar → Bool
is_member members id = any (λ (m : Member). same m.id id || same m.user_id id) members

abbrev pub is_label : List Scalar → Scalar → Bool
is_label labels id = any (λ l. same l id) labels

-- `p.id === Number(id)`, false for NaN
abbrev same_number : Scalar → Option ℕ → Bool
same_number p none = false
same_number p (some n) = same p (num n)

abbrev pub is_project : List Scalar → Scalar → Bool
is_project projects id = any (λ p. same p id || same_number p (to_number id)) projects

abbrev is_empty {ℓ} : {A : Type ℓ} → List A → Bool
is_empty [] = true
is_empty (_ ∷ _) = false

abbrev issue : ℕ → String → String
issue n text = String.◌++◌ "Condition " (String.◌++◌ (decimal n) text)

-- The issue that one check pushes, if an id is unknown.
unless_known : (Scalar → Bool) → List Scalar → String → List String
unless_known known ids text = if is_empty (filter (λ id. not (known id)) ids) then [] else text ∷ []

module _ (context : Context) where
  -- The body of the loop, for the condition with the given number.
  check_condition : ℕ → Condition → List String
  check_condition n c =
      (if c.type == "assignee"
          && not (is_text c.value "me" || is_text c.value "others" || is_text c.value "anyone")
        then unless_known (is_member context.members) (as_array c.value)
            (issue n ": User(s) no longer exist")
        else [])
      ++ ((if c.type == "label"
            then unless_known (is_label context.labels) (as_array c.value)
                (issue n ": Label(s) no longer exist")
            else [])
          ++ (if c.type == "project" && not (is_text c.value "default")
              then unless_known (is_project context.projects) (as_array c.value)
                  (issue n ": Project(s) no longer exist")
              else []))

  check_conditions : ℕ → List Condition → List String
  check_conditions n [] = []
  check_conditions n (c ∷ cs) = check_condition n c ++ check_conditions (n + 1) cs

  abbrev no_conditions : Validation
  no_conditions = record { is_valid = false; issues = "Filter has no conditions" ∷ [] }

  validate_conditions : Option (List Condition) → Validation
  validate_conditions none = no_conditions
  validate_conditions (some []) = no_conditions
  validate_conditions (some (c ∷ cs)) =
      let issues = check_conditions 1 (c ∷ cs) in
      record { is_valid = is_empty issues; issues = issues }

  unfoldable pub validate_filter : Filter → Validation
  unfolding validate_conditions check_conditions check_condition unless_known
  validate_filter f = validate_conditions f.conditions
