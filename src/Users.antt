-- ===== src/Users.antt =====
-- The kinds of users and the names of child users of ui/src/utils/UserHelpers.js.
pub mod Laws
use Prim.Native.Char.{code}
use Prim.Native.String
use gsd.Prelude.{
  ℕ, Bool, true, false, not, ◌&&◌, ◌||◌, String, Option, none, some, List, [], ◌∷◌, if◌then◌else◌,
  ◌==◌, nat_eq, string_eq,
}
use gsd.Js.{Scalar, null, num, truthy, scalar_eq}

pub record User : Type 0 where
  pub id : Scalar
  pub user_type : Scalar
  pub parent_user_id : Scalar

unfoldable pub is_parent_user : Option User → Bool
is_parent_user none = false
is_parent_user (some u) = u.user_type == num 0 && not (truthy u.parent_user_id)

unfoldable pub is_child_user : Option User → Bool
is_child_user none = false
is_child_user (some u) = u.user_type == num 1 && not (u.parent_user_id == null)

unfoldable pub can_manage_child_users : Option User → Bool
unfolding is_parent_user
can_manage_child_users u = is_parent_user u

-- read for its truth
unfoldable pub can_create_chores : Option User → Bool
unfolding is_parent_user is_child_user
can_create_chores u = is_parent_user u || is_child_user u

unfoldable pub can_manage_circle : Option User → Bool
unfolding is_parent_user
can_manage_circle u = is_parent_user u

unfoldable pub can_access_admin_settings : Option User → Bool
unfolding is_parent_user
can_access_admin_settings u = is_parent_user u

-- `split('_')`: the first part, and the others.
split : String → String × List String
split String.[] = ("", [])
split (String.◌∷◌ c s) =
    let rest = split s in
    if code c == b'_' then ("", rest.0 ∷ rest.1) else (String.◌∷◌ c rest.0, rest.1)

-- `join('_')`
join : List String → String
join [] = ""
join (s ∷ []) = s
join (s ∷ t ∷ ts) = String.◌++◌ s (String.◌++◌ "_" (join (t ∷ ts)))

abbrev child_of : String → List String → String
child_of combined [] = combined
child_of combined (s ∷ ss) = join (s ∷ ss)

unfoldable pub get_child_username_from_combined : String → String
unfolding split join
get_child_username_from_combined combined = child_of combined (split combined).1

unfoldable pub get_parent_username_from_combined : String → String
unfolding split
get_parent_username_from_combined combined =
    if (split combined).0 == "" then combined else (split combined).0

unfoldable pub build_child_username : String → String → String
build_child_username parent child = String.◌++◌ parent (String.◌++◌ "_" child)
