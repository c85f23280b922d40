-- ===== src/Filter.antt =====
-- ui/src/utils/FilterEngine.js: saved filter conditions and their evaluation against tasks. The
-- result of a condition is read for its truth alone.
pub mod DueDate
pub mod Conditions
pub mod Apply
pub mod Validate
use gsd.Prelude.{Bool, true, false, String, Option, List, ◌==◌, string_eq}
use gsd.Js.{Scalar, str, same, Value, one, many}

pub record Condition : Type 0 where
  pub type : String
  pub operator : String
  pub value : Value

pub record Member : Type 0 where
  pub id : Scalar
  pub user_id : Scalar

pub record Context : Type 0 where
  pub user_id : Scalar
  pub members : List Member
  pub labels : List Scalar
  pub projects : List Scalar

-- The fields of a saved filter that the engine reads; `none` for a missing one.
pub record Filter : Type 0 where
  pub conditions : Option (List Condition)
  pub operator : Option String

-- `value === 'text'`
abbrev pub is_text : Value → String → Bool
is_text (one x) s = same x (str s)
is_text (many xs) s = false
