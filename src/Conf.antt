-- ===== src/Conf.antt =====
-- conf/node.go and conf/core.go: the configuration that decides which core serves a node. What
-- encoding/json does with a text is an argument.
pub mod Watch
use v2bx_outbound.Base.{ℕ, String, ◌==◌, Bool, true, false, not, Option, some, List, if◌then◌else◌}

pub record CoreConfig (C : Type 0) : Type 0 where
  pub kind : String  -- Type
  pub name : String
  pub settings : C

-- The options of a node: those that choose the core, those of the two cores that have their own, and
-- the rest of them.
pub record Options (X S O : Type 0) : Type 0 where
  pub core : String
  pub core_name : String
  pub raw_options : String
  pub xray_options : Option X
  pub sing_options : Option S
  pub rest : O

-- json.Unmarshal into the options, and into those of a core, over what is there; the Boolean is true
-- for a nil error. The fresh values are those of NewXrayOptions and NewSingOptions.
pub record Json (X S O : Type 0) : Type 0 where
  pub unmarshal : String → Options X S O → Options X S O × Bool
  pub new_xray_options : X
  pub unmarshal_xray : String → X → X × Bool
  pub new_sing_options : S
  pub unmarshal_sing : String → S → S × Bool

module _ {X S O : Type 0} (json : Json X S O) where
  -- Options.UnmarshalJSON
  unfoldable pub unmarshal_json : String → Options X S O → Options X S O × Bool
  unmarshal_json raw o =
      let read = json.unmarshal raw o in
      let o' = read.0 in
      let xray = json.unmarshal_xray raw json.new_xray_options in
      let sing = json.unmarshal_sing raw json.new_sing_options in
      if not read.1
      then (o', false)
      else if o'.core == "xray"
      then (record o' { xray_options = some xray.0 }, xray.1)
      else if o'.core == "sing"
      then (record o' { sing_options = some sing.0 }, sing.1)
      else if o'.core == "hysteria2"
      then (record o' { raw_options = raw }, true)
      else (record o' { core = ""; raw_options = raw }, true)

pub record ApiConfig : Type 0 where
  pub api_host : String
  pub node_id : ℕ
  pub key : String

pub record NodeConfig (X S O : Type 0) : Type 0 where
  pub api_config : ApiConfig
  pub options : Options X S O

pub record Conf (C X S O : Type 0) : Type 0 where
  pub cores_config : List (CoreConfig C)
  pub node_config : List (NodeConfig X S O)
