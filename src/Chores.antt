-- ===== src/Chores.antt =====
-- The client's records of a task, as the views and the helpers of ui/src/utils/Chores.jsx read
-- them. A field that may be missing or of several types is a scalar.
pub mod Sorter
pub mod Grouper
pub mod Filters
use gsd.Prelude.{ℕ, String, Option, List}
use gsd.Js.{Scalar}

pub record Label : Type 0 where
  pub id : ℕ
  pub name : String

pub record Assignee : Type 0 where
  pub user_id : Scalar

pub record Chore : Type 0 where
  pub id : Scalar
  pub name : String
  pub assigned_to : Scalar
  -- `none`: the field is missing
  pub assignees : Option (List Assignee)
  pub created_by : Scalar
  pub priority : Scalar
  pub status : Scalar
  pub next_due_date : Scalar
  pub labels : Option (List Label)
  pub project_id : Scalar
  pub points : Scalar
  pub frequency_type : Scalar
  pub is_private : Scalar
  -- in hours; a window of -1 stands as `null`
  pub completion_window : Scalar
