-- ===== src/Panel.antt =====
-- api/panel: the data that the panel and a node exchange (user.go, node.go), and
-- common/format/user.go.
pub mod Routes
pub mod Tag
pub mod UserList
pub mod Vless
mod Tests
use v2bx_outbound.Base.{ℕ, String, List, ◌<>◌}

pub record UserInfo : Type 0 where
  pub id : ℕ
  pub uuid : String
  pub speed_limit : ℕ
  pub device_limit : ℕ

pub record OnlineUser : Type 0 where
  pub uid : ℕ
  pub ip : String

pub record UserTraffic : Type 0 where
  pub uid : ℕ
  pub upload : ℕ
  pub download : ℕ

pub record Rules : Type 0 where
  pub regexp : List String
  pub protocol : List String

unfoldable pub user_tag : String → String → String
user_tag tag uuid = tag <> ("|" <> uuid)
