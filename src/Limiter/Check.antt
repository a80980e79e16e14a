-- ===== src/Limiter/Check.antt =====
-- CheckLimit (limiter/limiter.go), in the steps of its body.
mod Steps
pub mod Online
pub mod Refusal
pub mod Limits
pub mod Expiry
use v2bx_outbound.Base.{
  ℕ, String, Bool, true, false, not, ◌&&◌, Option, none, some, List, [], ◌∷◌, eqb, if◌then◌else◌,
  mul_int, quot_int, slt,
}
use v2bx_outbound.Base.Text.{trim_prefix}
use v2bx_outbound.Base.Map.{lookup, insert, delete, value, int_key, string_key}
use v2bx_outbound.Limiter.{UserLimitInfo, Limiter}
use v2bx_outbound.Limiter.Speed.{determine_speed_limit}

-- The speed limit of the user's entry. A dynamic limit that has run out is cleared; an entry with no
-- limit of its own is deleted with it.
unfoldable pub user_speed :
    {B R : Type 0} → String → ℕ → UserLimitInfo → Limiter B R → Limiter B R × ℕ
user_speed taguuid now u l =
    if slt u.expire_time now && not (eqb u.expire_time 0)
    then (if eqb u.speed_limit 0
        then (record l { user_limit_info = delete taguuid l.user_limit_info }, 0)
        else (
          record l {
            user_limit_info =
                insert taguuid (record u { dynamic_speed_limit = 0; expire_time = 0 })
                  l.user_limit_info;
          },
          u.speed_limit,
        ))
    else (l, determine_speed_limit u.speed_limit u.dynamic_speed_limit)

-- `deviceLimit > 0 && deviceLimit <= aliveIp`
unfoldable pub at_device_limit : ℕ → ℕ → Bool
at_device_limit device_limit alive_ip = slt 0 device_limit && not (slt alive_ip device_limit)

-- A new address: one that was online in the last period is let in and taken off that list if it was
-- this user's; any other is let in below the limit, and `undone` is the state of a refusal.
unfoldable pub settle_new_ip :
    {B R : Type 0} → String → ℕ → Bool → Limiter B R → Limiter B R → Limiter B R × Bool
settle_new_ip ip uid full stored undone = elim (lookup ip stored.old_user_online) [
  | some v ↦
      (if eqb v uid
        then (record stored { old_user_online = delete ip stored.old_user_online }, false)
        else (stored, false))
  | none ↦ if full then (undone, true) else (stored, false)
]

abbrev pub set_online :
    {B R : Type 0} → Limiter B R → List (String × List (String × ℕ)) → Limiter B R
set_online l online = record l { user_online_ip = online }

unfoldable pub device_check :
    {B R : Type 0} → String → String → ℕ → ℕ → Limiter B R → Limiter B R × Bool
device_check taguuid ip uid device_limit l =
    let full = at_device_limit device_limit (value (lookup uid l.alive_list) 0) in
    let online = l.user_online_ip in
    elim (lookup taguuid online) [
      | none ↦
          let stored = insert taguuid ((ip, uid) ∷ []) online in
          settle_new_ip ip uid full (set_online l stored) (set_online l (delete taguuid stored))
      | some ips ↦ elim (lookup ip ips) [
        | some known ↦ (l, false)
        | none ↦
            let stored = insert ip uid ips in
            settle_new_ip ip uid full (set_online l (insert taguuid stored online))
              (set_online l (insert taguuid (delete ip stored) online))
      ]
    ]

-- `int64(determineSpeedLimit(nodeLimit, userLimit)) * 1000000 / 8`
unfoldable pub byte_rate : ℕ → ℕ → ℕ
byte_rate node_limit user_limit =
    quot_int (mul_int (determine_speed_limit node_limit user_limit) 1_000_000) 8

-- The user's bucket: the one that is stored, or a new one of this rate.
unfoldable pub take_bucket :
    {B R : Type 0} → (ℕ → B) → String → ℕ → Limiter B R → Limiter B R × Option B × Bool
take_bucket new_bucket taguuid limit l =
    if slt 0 limit
    then elim (lookup taguuid l.speed_limiter) [
      | some bucket ↦ (l, some bucket, false)
      | none ↦
          let bucket = new_bucket limit in
          (record l { speed_limiter = insert taguuid bucket l.speed_limiter }, some bucket, false)
    ]
    else (l, none, false)

-- What follows once the entry is found and its speed limit known.
unfoldable pub check_user :
    {B R : Type 0}
    → (ℕ → B)
    → String
    → String
    → Bool
    → UserLimitInfo
    → Limiter B R × ℕ
    → Limiter B R × Option B × Bool
check_user new_bucket taguuid ip no_ss_udp u speed =
    let checked =
      if no_ss_udp
      then device_check taguuid ip u.uid u.device_limit speed.0
      else (speed.0, false) in
    if checked.1
    then (checked.0, none, true)
    else take_bucket new_bucket taguuid (byte_rate speed.0.speed_limit speed.1) checked.0

unfoldable pub check_limit :
    {B R : Type 0}
    → (ℕ → B)
    → String
    → String
    → Bool
    → Bool
    → ℕ
    → Limiter B R
    → Limiter B R × Option B × Bool
check_limit new_bucket taguuid ip is_tcp no_ss_udp now l =
    let ip' = trim_prefix "::ffff:" ip in
    elim (lookup taguuid l.user_limit_info) [
      | none ↦ (l, none, true)
      | some u ↦ check_user new_bucket taguuid ip' no_ss_udp u (user_speed taguuid now u l)
    ]

-- The id of the user's entry.
abbrev pub known_uid : {B R : Type 0} → String → Limiter B R → ℕ
known_uid taguuid l = elim (lookup taguuid l.user_limit_info) [ none ↦ 0 | some u ↦ u.uid ]
