-- ===== src/Node/Users.antt =====
-- compareUserList (node/user.go).
mod Keyed
pub mod Changes
pub mod Sync
use v2bx_outbound.Base.{ℕ, String, ◌<>◌, Option, none, some, List, [], ◌∷◌}
use v2bx_outbound.Base.Text.Decimal.{itoa}
use v2bx_outbound.Base.Map.{lookup, insert, delete, string_key}
use v2bx_outbound.Panel.{UserInfo}

-- The key of a user: its uuid followed by its speed limit.
unfoldable pub user_key : UserInfo → String
user_key user = user.uuid <> itoa user.speed_limit

-- The first loop. The map holds the user where the source holds its index in the old list.
unfoldable pub index_users : List UserInfo → List (String × UserInfo) → List (String × UserInfo)
index_users [] old_map = old_map
index_users (user ∷ users) old_map = index_users users (insert (user_key user) user old_map)

-- The second loop: the users that are added, and what is left of the map.
unfoldable pub match_users :
    List UserInfo → List (String × UserInfo) → List UserInfo × List (String × UserInfo)
match_users [] old_map = ([], old_map)
match_users (user ∷ users) old_map = elim (lookup (user_key user) old_map) [
  | none ↦ let rest = match_users users old_map in (user ∷ rest.0, rest.1)
  | some found ↦ match_users users (delete (user_key user) old_map)
]

-- The last loop.
unfoldable pub left_over : List (String × UserInfo) → List UserInfo
left_over [] = []
left_over ((key, user) ∷ old_map) = user ∷ left_over old_map

-- The users that are deleted, and those that are added.
unfoldable pub compare_user_list : List UserInfo → List UserInfo → List UserInfo × List UserInfo
compare_user_list old new =
    let matched = match_users new (index_users old []) in (left_over matched.1, matched.0)
