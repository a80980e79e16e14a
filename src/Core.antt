-- ===== src/Core.antt =====
-- core/core.go and core/interface.go: a core, and how the configured ones are made. The factories and
-- validators that the cores register are arguments.
pub mod Selector
pub mod Check
mod Tests
use v2bx_outbound.Base.{ℕ, String, Bool, Option, none, some, List, [], ◌∷◌}
use v2bx_outbound.Panel.{UserInfo, UserTraffic}
use v2bx_outbound.Node.Controller.{NodeInfo}

-- The interface of a core over a state that all cores share, with NodeValidator and
-- NodeStateSnapshotter where it implements them. A Boolean is true for a nil error; an `Option` is
-- `none` for an error.
pub record Core (W O : Type 0) : Type 0 where
  pub start : W → W × Bool
  pub close : W → W × Bool
  pub add_node : String → NodeInfo → O → W → W × Bool
  pub del_node : String → W → W × Bool
  pub add_users : String → List UserInfo → NodeInfo → W → W × Option ℕ
  pub get_user_traffic_slice : String → Bool → W → W × Option (List UserTraffic)
  pub del_users : List UserInfo → String → NodeInfo → W → W × Bool
  pub protocols : List String
  pub kind : String
  pub validate_node : Option (String → NodeInfo → O → W → Bool)
  pub snapshot_node_state : Option (String → NodeInfo → O → W → Option (W → W × Bool))
