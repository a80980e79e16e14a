-- ===== src/Limiter.antt =====
-- limiter/limiter.go, dynamic.go, rule.go: the state of the limiter of one node. Buckets of the
-- package ratelimit and compiled expressions of the package regexp are type parameters.
pub mod Speed
pub mod Check
pub mod Users
pub mod Rules
pub mod Online
pub mod Registry
mod Tests
use v2bx_outbound.Base.{ℕ, String, List, Bool}

pub record UserLimitInfo : Type 0 where
  pub uid : ℕ
  pub speed_limit : ℕ
  pub device_limit : ℕ
  pub dynamic_speed_limit : ℕ
  pub expire_time : ℕ
  pub over_limit : Bool

pub record Limiter (Bucket Regexp : Type 0) : Type 0 where
  pub domain_rules : List Regexp
  pub protocol_rules : List String
  pub speed_limit : ℕ
  pub user_online_ip : List (String × List (String × ℕ))
  pub old_user_online : List (String × ℕ)
  pub uuid_to_uid : List (String × ℕ)
  pub user_limit_info : List (String × UserLimitInfo)
  pub speed_limiter : List (String × Bucket)
  pub alive_list : List (ℕ × ℕ)
