-- ===== src/Limiter/Check/Refusal.antt =====
-- When CheckLimit refuses, and what a refusal leaves.
use v2bx_outbound.Base.{
  ℕ, ◌+◌, ◌%◌, ltb, leb, int_half, int_mod, String, Bool, true, false, ◌&&◌, none, some, ◌≡◌, inl,
  inr, arith, Option-cases,
}
use v2bx_outbound.Base.Text.{trim_prefix}
use v2bx_outbound.Base.Map.{lookup, value, int_key, string_key}
use v2bx_outbound.Limiter.{Limiter, UserLimitInfo}
use v2bx_outbound.Limiter.Check.Steps.{online-user_speed, online-check_user}
use v2bx_outbound.Limiter.Check.Online.{online_uid}
use v2bx_outbound.Limiter.Check.{
  settle_new_ip, device_check, check_limit, check_user, user_speed, at_device_limit,
}

-- An address is new: not recorded for the user now, nor for anybody in the last period.
abbrev pub is_new : {B R : Type 0} → String → String → Limiter B R → Bool
is_new taguuid ip l = elim (online_uid taguuid ip l.user_online_ip) [
  | some v ↦ false
  | none ↦ elim (lookup ip l.old_user_online) [ some v ↦ false | none ↦ true ]
]

-- The order of signed words is that of their offsets from the least one.
abbrev offset : ℕ → ℕ
offset n = (n + int_half) % int_mod

-- A positive limit, and at least as many addresses.
abbrev pub is_reached : ℕ → ℕ → Bool
is_reached device_limit alive_ip =
    ltb int_half (offset device_limit) && leb (offset device_limit) (offset alive_ip)

-- The refusal, as a condition on the state before the call.
abbrev pub must_refuse : {B R : Type 0} → String → String → Bool → Limiter B R → Bool
must_refuse taguuid ip no_ss_udp l = elim (lookup taguuid l.user_limit_info) [
  | none ↦ true
  | some u ↦
      no_ss_udp
      && (is_new taguuid ip l && is_reached u.device_limit (value (lookup u.uid l.alive_list) 0))
]

device_check-refuses :
    {B R : Type 0} (taguuid ip : String) (uid device_limit : ℕ) (l : Limiter B R)
    → (device_check taguuid ip uid device_limit l).1
      ≡ (is_new taguuid ip l && is_reached device_limit (value (lookup uid l.alive_list) 0))
unfolding device_check settle_new_ip at_device_limit
device_check-refuses taguuid ip uid device_limit l = ground arith

check_user-refuses :
    {B R : Type 0} (new_bucket : ℕ → B) (taguuid ip : String) (no_ss_udp : Bool) (u : UserLimitInfo)
    (l : Limiter B R) (speed : Limiter B R × ℕ)
    → speed.0.user_online_ip ≡ l.user_online_ip
    → speed.0.old_user_online ≡ l.old_user_online
    → speed.0.alive_list ≡ l.alive_list
    → (check_user new_bucket taguuid ip no_ss_udp u speed).2 ≡ (
        no_ss_udp
        && (is_new taguuid ip l && is_reached u.device_limit (value (lookup u.uid l.alive_list) 0)))
check_user-refuses new_bucket taguuid ip no_ss_udp u l speed online old alive =
    let steps = online-check_user new_bucket taguuid ip no_ss_udp u speed in
    let refuses = device_check-refuses taguuid ip u.uid u.device_limit speed.0 in
    rw (steps.1, refuses, online, old, alive)

-- CheckLimit refuses exactly a user without an entry, and, where devices are counted, an address
-- that is recorded neither for the user now nor for anybody in the last period, for a user whose
-- device limit is positive and not above the panel's count of the user's addresses.
pub check_limit-refuses :
    {B R : Type 0} (new_bucket : ℕ → B) (taguuid ip : String) (is_tcp no_ss_udp : Bool) (now : ℕ)
    (l : Limiter B R)
    → (check_limit new_bucket taguuid ip is_tcp no_ss_udp now l).2
      ≡ must_refuse taguuid (trim_prefix "::ffff:" ip) no_ss_udp l
unfolding check_limit
check_limit-refuses new_bucket taguuid ip is_tcp no_ss_udp now l =
    elim (Option-cases (lookup taguuid l.user_limit_info)) [
      | inl unknown ↦ rw (unknown, check_limit, must_refuse) (ground arith)
      | inr (u, entry) ↦
          let speed = user_speed taguuid now u l in
          let address = trim_prefix "::ffff:" ip in
          let same = online-user_speed taguuid l now u in
          rw (entry, check_limit, must_refuse)
            (check_user-refuses new_bucket taguuid address no_ss_udp u l speed same.0 same.1 same.3)
    ]
