-- ===== src/Offline/Merge.antt =====
-- How ui/src/queries/ChoreQueries.jsx joins the tasks of the server with the offline tasks of the cache:
-- the query of `useChores`, the query of `useChoreDetails`, and what `useDeleteChores` does offline.
pub mod Laws
use gsd.Prelude.{
  Bool, true, false, not, ◌&&◌, ◌||◌, String, Option, none, some, List, [], ◌∷◌, ◌++◌, map, filter,
  any, find?, if◌then◌else◌, ◌==◌, string_eq,
}
use gsd.Prelude.Partition.{contains}
use gsd.Js.{Scalar, truthy, or_else, to_text, scalar_eq}
use gsd.Js.Calls.{Call, returns, throws}
use gsd.Js.Fields.{Fields}

-- A task of the server or of the cache, with its other fields.
pub record Stored : Type 0 where
  pub id : Scalar
  pub temp_id : Scalar
  pub body : Fields

-- The offline task `t` stands for the task `c` of the server.
abbrev pub stands_for : Stored → Stored → Bool
stands_for c t =
    to_text c.id == to_text t.id || (truthy t.temp_id && to_text c.id == to_text t.temp_id)

abbrev pub with_id : Stored → Stored
with_id t = record t { id = or_else t.id t.temp_id }

abbrev or_empty : Option (List Stored) → List Stored
or_empty none = []
or_empty (some cs) = cs

unfoldable pub online_only : List Stored → List Stored → List Stored
online_only offline cs = filter (λ c. not (any (stands_for c) offline)) cs

abbrev joined : List Stored → List Stored → List Stored
joined kept [] = kept
joined kept (t ∷ ts) = kept ++ map with_id (t ∷ ts)

-- The query of `useChores`; `none` where the answer of the server has no tasks. The first argument tells
-- whether offline mode is enabled.
unfoldable pub get_chores : Bool → Option (List Stored) → List Stored → Option (List Stored)
unfolding online_only
get_chores false online offline = online
get_chores true online offline = some (joined (online_only offline (or_empty online)) offline)

-- The offline tasks that `useDeleteChores` leaves while the device is offline.
unfoldable pub delete_offline : List Scalar → List Stored → List Stored
delete_offline ids tasks =
    filter (λ t. not (contains ids t.id) && not (contains ids t.temp_id)) tasks

-- `find` of `useChoreDetails`
abbrev pub is_task : Scalar → Stored → Bool
is_task id t = t.id == id || (truthy t.temp_id && t.temp_id == id)

abbrev or_online : Option Stored → Option Stored → Call (Option Stored)
or_online (some t) online = returns (some t)
or_online none (some c) = returns (some c)
or_online none none = throws

-- The query of `useChoreDetails`: `none` for an answer that did not come or was refused.
unfoldable pub get_chore_details :
    Bool → Scalar → Option Stored → List Stored → Call (Option Stored)
get_chore_details false id online offline = returns online
get_chore_details true id online offline = or_online (find? (is_task id) offline) online
