-- ===== src/Limiter/Users.antt =====
-- AddLimiter, UpdateUser, UpdateDynamicSpeedLimit (limiter/limiter.go) and AddDynamicSpeedLimit
-- (limiter/dynamic.go): the users' entries. Times are Unix seconds.
pub mod Entries
use v2bx_outbound.Base.{
  ℕ, String, Bool, false, Option, none, some, List, [], ◌∷◌, eqb, if◌then◌else◌, add_int,
}
use v2bx_outbound.Base.Map.{lookup, insert, delete, string_key, int_key}
use v2bx_outbound.Panel.{UserInfo, user_tag}
use v2bx_outbound.Limiter.{Limiter, UserLimitInfo}

-- The entry that a user starts with.
unfoldable pub new_entry : UserInfo → UserLimitInfo
new_entry user = record {
  uid = user.id;
  speed_limit = if eqb user.speed_limit 0 then 0 else user.speed_limit;
  device_limit = if eqb user.device_limit 0 then 0 else user.device_limit;
  dynamic_speed_limit = 0;
  expire_time = 0;
  over_limit = false;
}

-- The loop of AddLimiter and the second loop of UpdateUser.
unfoldable pub store_users : {B R : Type 0} → String → List UserInfo → Limiter B R → Limiter B R
store_users tag [] l = l
store_users tag (user ∷ users) l = store_users tag users (record l {
  user_limit_info = insert (user_tag tag user.uuid) (new_entry user) l.user_limit_info;
  uuid_to_uid = insert user.uuid user.id l.uuid_to_uid;
})

-- AddLimiter, without the entry in the table of limiters.
unfoldable pub new_limiter :
    {B R : Type 0} → String → ℕ → List UserInfo → List (ℕ × ℕ) → Limiter B R
new_limiter tag speed_limit users alive_list = store_users tag users (record {
  domain_rules = [];
  protocol_rules = [];
  speed_limit = speed_limit;
  user_online_ip = [];
  old_user_online = [];
  uuid_to_uid = [];
  user_limit_info = [];
  speed_limiter = [];
  alive_list = alive_list;
})

-- The first loop of UpdateUser.
unfoldable pub remove_users : {B R : Type 0} → String → List UserInfo → Limiter B R → Limiter B R
remove_users tag [] l = l
remove_users tag (user ∷ users) l =
    let key = user_tag tag user.uuid in
    remove_users tag users (record l {
      user_limit_info = delete key l.user_limit_info;
      user_online_ip = delete key l.user_online_ip;
      speed_limiter = delete key l.speed_limiter;
      uuid_to_uid = delete user.uuid l.uuid_to_uid;
      alive_list = delete user.id l.alive_list;
    })

unfoldable pub update_user :
    {B R : Type 0} → String → List UserInfo → List UserInfo → Limiter B R → Limiter B R
update_user tag added deleted l = store_users tag added (remove_users tag deleted l)

-- `none` is the error "not found".
unfoldable pub update_dynamic_speed_limit :
    {B R : Type 0} → String → String → ℕ → ℕ → Limiter B R → Option (Limiter B R)
update_dynamic_speed_limit tag uuid limit expire l =
    elim (lookup (user_tag tag uuid) l.user_limit_info) [
      | none ↦ none
      | some info ↦ some (record l {
        user_limit_info =
            insert (user_tag tag uuid)
              (record info { dynamic_speed_limit = limit; expire_time = expire }) l.user_limit_info;
      })
    ]

-- The new entry has no user id and no device limit.
unfoldable pub add_dynamic_speed_limit :
    {B R : Type 0} → String → UserInfo → ℕ → ℕ → ℕ → Limiter B R → Limiter B R
add_dynamic_speed_limit tag user limit_num expire now l = record l {
  user_limit_info =
      insert (user_tag tag user.uuid)
        (record {
          uid = 0;
          speed_limit = 0;
          device_limit = 0;
          dynamic_speed_limit = limit_num;
          expire_time = add_int now expire;
          over_limit = false;
        })
        l.user_limit_info;
}
