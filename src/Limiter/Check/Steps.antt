-- ===== src/Limiter/Check/Steps.antt =====
-- What each step of CheckLimit leaves alone.
use v2bx_outbound.Base.{ℕ, String, Bool, ◌&&◌, ◌≡◌, arith, if◌then◌else◌}
use v2bx_outbound.Base.Map.{string_key}
use v2bx_outbound.Limiter.{UserLimitInfo, Limiter}
use v2bx_outbound.Limiter.Check.{user_speed, device_check, take_bucket, check_user, byte_rate}

module _ {B R : Type 0} (taguuid : String) (l : Limiter B R) where
  pub online-user_speed :
      (now : ℕ) (u : UserLimitInfo)
      → let l' = (user_speed taguuid now u l).0 in
        (l'.user_online_ip ≡ l.user_online_ip)
        × (l'.old_user_online ≡ l.old_user_online)
        × (l'.speed_limiter ≡ l.speed_limiter)
        × (l'.alive_list ≡ l.alive_list)
        × (l'.speed_limit ≡ l.speed_limit)
  unfolding user_speed
  online-user_speed now u = ground arith

  pub online-take_bucket :
      (new_bucket : ℕ → B) (limit : ℕ)
      → let l' = (take_bucket new_bucket taguuid limit l).0 in
        (l'.user_online_ip ≡ l.user_online_ip)
        × ((take_bucket new_bucket taguuid limit l).2 ≡ Bool.false)
  unfolding take_bucket
  online-take_bucket new_bucket limit = ground arith

module _ {B R : Type 0} (new_bucket : ℕ → B) (taguuid ip : String) (no_ss_udp : Bool) where
  pub online-check_user :
      (u : UserLimitInfo) (speed : Limiter B R × ℕ)
      → let result = check_user new_bucket taguuid ip no_ss_udp u speed in
        let checked = device_check taguuid ip u.uid u.device_limit speed.0 in
        (result.0.user_online_ip
          ≡ (if no_ss_udp then checked.0.user_online_ip else speed.0.user_online_ip))
        × (result.2 ≡ (no_ss_udp && checked.1))
  unfolding check_user
  online-check_user u speed =
      let l = speed.0 in
      let limit = byte_rate l.speed_limit speed.1 in
      ground (
        arith,
        online-take_bucket taguuid l new_bucket limit,
        online-take_bucket taguuid (device_check taguuid ip u.uid u.device_limit l).0 new_bucket
            limit,
      )
