-- ===== src/Limiter/Users/Entries.antt =====
-- The users' entries after AddLimiter and UpdateUser.
use v2bx_outbound.Base.{ℕ, String, Option, none, some, List, [], ◌∷◌, ◌≡◌, refl, arith}
use v2bx_outbound.Base.Map.{lookup, lookup-insert, lookup-delete, string_key}
use v2bx_outbound.Panel.{UserInfo, user_tag}
use v2bx_outbound.Panel.UserList.{last_user}
use v2bx_outbound.Panel.Tag.{user_tag-eq}
use v2bx_outbound.Limiter.{Limiter, UserLimitInfo}
use v2bx_outbound.Limiter.Users.{new_entry, store_users, remove_users, new_limiter, update_user}

-- The entry that a list of users gives a uuid, and what it was before.
abbrev pub entry_or : Option UserInfo → Option UserLimitInfo → Option UserLimitInfo
entry_or none before = before
entry_or (some user) before = some (new_entry user)

-- A uuid of the list is gone.
abbrev pub gone_if : Option UserInfo → Option UserLimitInfo → Option UserLimitInfo
gone_if none before = before
gone_if (some user) before = none

module _ {B R : Type 0} (tag uuid : String) where
  store_users-entry :
      (users : List UserInfo) (l : Limiter B R)
      → lookup (user_tag tag uuid) (store_users tag users l).user_limit_info
        ≡ entry_or (last_user uuid users) (lookup (user_tag tag uuid) l.user_limit_info)
  unfolding store_users
  store_users-entry [] l = refl
  store_users-entry (user ∷ users) l =
      rw (store_users-entry users _, lookup-insert, user_tag-eq) (ground arith)

  remove_users-entry :
      (users : List UserInfo) (l : Limiter B R)
      → lookup (user_tag tag uuid) (remove_users tag users l).user_limit_info
        ≡ gone_if (last_user uuid users) (lookup (user_tag tag uuid) l.user_limit_info)
  unfolding remove_users
  remove_users-entry [] l = refl
  remove_users-entry (user ∷ users) l =
      rw (remove_users-entry users _, lookup-delete, user_tag-eq) (ground arith)

  -- After UpdateUser a user that was added, last with its uuid, has a fresh entry of its limits; else
  -- a user that was deleted has none, and any other has the entry that it had.
  pub update_user-entry :
      (added deleted : List UserInfo) (l : Limiter B R)
      → lookup (user_tag tag uuid) (update_user tag added deleted l).user_limit_info
        ≡ entry_or
            (last_user uuid added)
            (gone_if (last_user uuid deleted) (lookup (user_tag tag uuid) l.user_limit_info))
  unfolding update_user
  update_user-entry added deleted l =
      rw (store_users-entry added (remove_users tag deleted l), remove_users-entry deleted l)

-- AddLimiter knows exactly the users of its list.
pub new_limiter-entry :
    (B R : Type 0) (tag uuid : String) (speed_limit : ℕ) (users : List UserInfo)
    (alive_list : List (ℕ × ℕ))
    → let l : Limiter B R = new_limiter tag speed_limit users alive_list in
      lookup (user_tag tag uuid) l.user_limit_info ≡ entry_or (last_user uuid users) none
unfolding new_limiter lookup
new_limiter-entry B R tag uuid speed_limit users alive_list = store_users-entry tag uuid users _
