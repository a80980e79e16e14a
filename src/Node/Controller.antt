-- ===== src/Node/Controller.antt =====
-- node/controller.go: the state of a controller and what it uses. The core behind the interface of
-- core/interface.go and the certificate request of node/cert.go are arguments; the panel's answers
-- are the values that the client methods return.
pub mod Replace
pub mod Monitor
pub mod Start
mod Tests
use v2bx_outbound.Base.{ℕ, String, ◌<>◌, Bool, Option, none, some, List, slt, if◌then◌else◌}
use v2bx_outbound.Base.Text.Decimal.{itoa}
use v2bx_outbound.Panel.{UserInfo, UserTraffic, Rules}
use v2bx_outbound.Limiter.Registry.{Limiters}

-- panel.NodeInfo, less the settings of the protocols, which only the cores read.
pub record NodeInfo : Type 0 where
  pub response_hash : String
  pub response_etag : String
  pub id : ℕ
  pub kind : String
  pub security : ℕ
  pub push_interval : ℕ
  pub pull_interval : ℕ
  pub rules : Rules

-- The part of panel.Client that decides what the panel sends again.
pub record Client : Type 0 where
  pub api_host : String
  pub node_etag : String
  pub user_etag : String
  pub pending_user_etag : String
  pub response_body_hash : String

-- The settings that the controller reads: Name and LimitConfig.
pub record Options : Type 0 where
  pub name : String
  pub speed_limit : ℕ
  pub enable_dynamic_speed_limit : Bool
  pub dynamic_traffic : ℕ
  pub dynamic_speed_limit : ℕ
  pub dynamic_expire_time : ℕ

-- Core, with NodeValidator and NodeStateSnapshotter where the core implements them. The Boolean is
-- true for a nil error; a snapshot is what restores it.
pub record Core (S : Type 0) : Type 0 where
  pub add_node : String → NodeInfo → S → S × Bool
  pub del_node : String → S → S × Bool
  pub add_users : String → NodeInfo → List UserInfo → S → S × Bool
  pub del_users : List UserInfo → String → NodeInfo → S → S × Bool
  pub get_user_traffic_slice : String → S → S × Option (List UserTraffic)
  pub validate_node : Option (String → NodeInfo → S → Bool)
  pub snapshot_node_state : Option (String → NodeInfo → S → Option (S → S × Bool))

pub record Controller (S B R : Type 0) : Type 0 where
  pub pending_traffic : List UserTraffic
  pub server : S
  pub api_client : Client
  pub tag : String
  pub limiter : ℕ
  pub traffic : List (String × ℕ)
  pub user_list : List UserInfo
  pub alive_map : List (ℕ × ℕ)
  pub info : NodeInfo
  pub node_interval : ℕ
  pub report_interval : ℕ
  pub options : Options
  pub limiters : Limiters B R

-- AcceptNodeInfo (api/panel/node.go) and AcceptUserList (api/panel/user.go).
unfoldable pub accept_node_info : NodeInfo → Client → Client
accept_node_info node c = record c {
  response_body_hash = node.response_hash;
  node_etag = node.response_etag;
}

unfoldable pub accept_user_list : Client → Client
accept_user_list c = record c { user_etag = c.pending_user_etag }

-- What the panel answers to GetUserList: an error, "not modified", or a list with its etag.
pub data UserAnswer : Type 0 where
  failed : UserAnswer
  unmodified : UserAnswer
  listed : List UserInfo → String → UserAnswer

-- GetUserList, with its result: `none` is an error, and a result of `none` is a nil list.
unfoldable pub get_user_list : UserAnswer → Client → Client × Option (Option (List UserInfo))
get_user_list failed c = (c, none)
get_user_list unmodified c = (record c { pending_user_etag = c.user_etag }, some none)
get_user_list (listed users etag) c = (record c { pending_user_etag = etag }, some (some users))

-- The three answers of a round. `none` is an error, and an answer of `none` is nil.
pub record Poll : Type 0 where
  pub node : Option (Option NodeInfo)
  pub users : UserAnswer
  pub alive : Option (Option (List (ℕ × ℕ)))

-- buildNodeTag, with the host of the client.
unfoldable pub build_node_tag : String → NodeInfo → String
build_node_tag api_host node = "[" <> (api_host <> ("]-" <> (node.kind <> (":" <> itoa node.id))))

-- SetInterval (common/task/task.go), as the interval that the task has afterwards.
unfoldable pub set_interval : ℕ → ℕ → ℕ
set_interval interval stored = if slt 0 interval then interval else stored
