-- ===== src/Fetch.antt =====
-- GetNodeInfo (api/panel/node.go) with checkResponse (api/panel/utils.go) and the types of New
-- (api/panel/panel.go): how a node is fetched from the panel. The hash of a body and the decoding of
-- JSON are arguments; the CommonNode that is embedded in each protocol's settings stands beside them.
pub mod Accepted
pub mod Checked
pub mod Returns
mod Tests
use v2bx_outbound.Base.{
  ℕ, String, ◌==◌, Bool, true, false, ◌||◌, not, ◌&&◌, Option, none, some, List, [], ◌∷◌, eqb, leb,
  if◌then◌else◌,
}
use v2bx_outbound.Panel.{Rules}
use v2bx_outbound.Panel.Routes.{Route, RawDns, Interval, read_routes, positive_or}
use v2bx_outbound.Panel.Vless.{VAllssNode, vless_decryption}
use v2bx_outbound.Node.Controller.{NodeInfo, Client}

pub record BaseConfig : Type 0 where
  pub push_interval : Interval
  pub pull_interval : Interval

pub record CommonNode : Type 0 where
  pub host : String
  pub server_port : ℕ
  pub server_name : String
  pub routes : List Route
  pub base_config : Option BaseConfig

pub record TlsSettings : Type 0 where
  pub server_name : String
  pub dest : String
  pub server_port : String
  pub short_id : String
  pub private_key : String
  pub mldsa65_seed : String
  pub xver : ℕ

-- VAllssNode; the fields of Panel/Vless in `vallss`, and raw JSON as a text.
pub record VAllssSettings : Type 0 where
  pub tls : ℕ
  pub tls_settings : TlsSettings
  pub tls_settings_back : Option TlsSettings
  pub network : String
  pub network_settings : String
  pub network_settings_back : String
  pub vallss : VAllssNode
  pub server_name : String
  pub flow : String

pub record ShadowsocksNode : Type 0 where
  pub cipher : String
  pub server_key : String

pub record TrojanNode : Type 0 where
  pub network : String
  pub network_settings : String

pub record TuicNode : Type 0 where
  pub congestion_control : String
  pub zero_rtt_handshake : Bool

pub record AnyTlsNode : Type 0 where
  pub padding_scheme : List String

pub record HysteriaNode : Type 0 where
  pub up_mbps : ℕ
  pub down_mbps : ℕ
  pub obfs : String

pub record Hysteria2Node : Type 0 where
  pub ignore_client_bandwidth : Bool
  pub up_mbps : ℕ
  pub down_mbps : ℕ
  pub obfs_type : String
  pub obfs_password : String

-- The settings of a protocol: the one field of NodeInfo that is not nil.
pub data Settings : Type 0 where
  vallss_settings : VAllssSettings → Settings
  shadowsocks_settings : ShadowsocksNode → Settings
  trojan_settings : TrojanNode → Settings
  tuic_settings : TuicNode → Settings
  any_tls_settings : AnyTlsNode → Settings
  hysteria_settings : HysteriaNode → Settings
  hysteria2_settings : Hysteria2Node → Settings

-- json.Unmarshal of a body; `none` is an error.
pub record Decoders : Type 0 where
  pub vallss : String → Option (CommonNode × VAllssSettings)
  pub shadowsocks : String → Option (CommonNode × ShadowsocksNode)
  pub trojan : String → Option (CommonNode × TrojanNode)
  pub tuic : String → Option (CommonNode × TuicNode)
  pub any_tls : String → Option (CommonNode × AnyTlsNode)
  pub hysteria : String → Option (CommonNode × HysteriaNode)
  pub hysteria2 : String → Option (CommonNode × Hysteria2Node)

pub record Response : Type 0 where
  pub status_code : ℕ
  pub body : String
  pub etag : String

-- NodeInfo: what a controller reads of it, and the rest.
pub record Fetched : Type 0 where
  pub info : NodeInfo
  pub raw_dns : RawDns
  pub settings : Settings
  pub common : CommonNode

-- An error, a nil node, the panic at a nil CommonNode, or a node.
pub data Answer : Type 0 where
  failed : Answer
  unchanged : Answer
  panicked : Answer
  fetched : Fetched → Answer

-- The old names of two fields.
unfoldable pub take_back : VAllssSettings → VAllssSettings
take_back rsp =
    let renamed = if rsp.network_settings_back == "" then rsp else record rsp {
      network_settings = rsp.network_settings_back;
      network_settings_back = "";
    } in
    elim rsp.tls_settings_back [
      | none ↦ renamed
      | some tls ↦ record renamed { tls_settings = tls; tls_settings_back = none }
    ]

-- A decoded part as settings, with the security.
abbrev pub as_settings :
    {P : Type 0} → (P → Settings) → ℕ → Option (CommonNode × P) → Option (CommonNode × Settings × ℕ)
as_settings make security none = none
as_settings make security (some (cm, p)) = some (cm, make p, security)

module _ (decoded_length : String → Option ℕ) (decoders : Decoders) where
  -- The cases "vmess" and "vless".
  unfoldable pub decode_vallss : String → String → Option (CommonNode × Settings × ℕ)
  decode_vallss node_type body = elim (decoders.vallss body) [
    | none ↦ none
    | some (cm, rsp) ↦
        let settings = take_back rsp in
        let read : Option (CommonNode × Settings × ℕ) =
          some (cm, vallss_settings settings, settings.tls) in
        let checked : Option (CommonNode × Settings × ℕ) =
          elim (vless_decryption decoded_length (some settings.vallss)) [
            | none ↦ none
            | some v ↦ read
          ] in
        if node_type == "vless" then checked else read
  ]

  -- The switch on NodeType; the outer `none` is a type that it does not have.
  unfoldable pub decode_node : String → String → Option (Option (CommonNode × Settings × ℕ))
  decode_node node_type body =
      if node_type == "vmess" || node_type == "vless"
      then some (decode_vallss node_type body)
      else if node_type == "shadowsocks"
      then some (as_settings shadowsocks_settings 0 (decoders.shadowsocks body))
      else if node_type == "trojan"
      then some (as_settings trojan_settings 1 (decoders.trojan body))
      else if node_type == "tuic"
      then some (as_settings tuic_settings 1 (decoders.tuic body))
      else if node_type == "anytls"
      then some (as_settings any_tls_settings 1 (decoders.any_tls body))
      else if node_type == "hysteria"
      then some (as_settings hysteria_settings 1 (decoders.hysteria body))
      else if node_type == "hysteria2"
      then some (as_settings hysteria2_settings 1 (decoders.hysteria2 body))
      else none

abbrev pub no_rules : Rules
no_rules = record { regexp = []; protocol = [] }

abbrev pub no_dns : RawDns
no_dns = record { dns_map = []; dns_json = "" }

-- Sixty seconds.
abbrev pub default_interval : ℕ
default_interval = 60_000_000_000

-- "set interval"
abbrev pub push_of : Option BaseConfig → ℕ
push_of none = default_interval
push_of (some base) = positive_or default_interval base.push_interval

abbrev pub pull_of : Option BaseConfig → ℕ
pull_of none = default_interval
pull_of (some base) = positive_or default_interval base.pull_interval

-- The node, with what the loop over the routes has read.
unfoldable pub new_node :
    String → ℕ → String → String → CommonNode × Settings × ℕ → Rules × RawDns → Fetched
new_node node_type node_id hash etag (cm, settings, security) (rules, raw_dns) =
    let info : NodeInfo = record {
      response_hash = hash;
      response_etag = etag;
      id = node_id;
      kind = node_type;
      security = security;
      push_interval = push_of cm.base_config;
      pull_interval = pull_of cm.base_config;
      rules = rules;
    } in
    record {
      info = info;
      raw_dns = raw_dns;
      settings = settings;
      common = record cm { routes = []; base_config = none };
    }

-- From the decoded settings on.
unfoldable pub build_node : String → ℕ → String → String → CommonNode × Settings × ℕ → Answer
build_node node_type node_id hash etag decoded =
    elim (read_routes 0 decoded.0.routes (no_rules, no_dns)) [
      | none ↦ failed
      | some read ↦ fetched (new_node node_type node_id hash etag decoded read)
    ]

-- checkResponse: true for a nil error; `none` is the error of a request.
unfoldable pub check_response : Option Response → Bool
check_response none = false
check_response (some r) = not (leb 400 r.status_code)

module _ (decoded_length : String → Option ℕ) (decoders : Decoders) (hash : String → String)
    (node_type : String) (node_id : ℕ) where
  -- What follows the two tests for a node that has not changed.
  unfoldable pub read_node : Response → Answer
  read_node r = elim (decode_node decoded_length decoders node_type r.body) [
    | none ↦ panicked
    | some none ↦ failed
    | some (some decoded) ↦ build_node node_type node_id (hash r.body) r.etag decoded
  ]

  unfoldable pub get_node_info : Option Response → Client → Answer
  get_node_info none c = failed
  get_node_info (some r) c =
      if not (check_response (some r))
      then failed
      else if eqb r.status_code 304
      then unchanged
      else if c.response_body_hash == hash r.body
      then unchanged
      else read_node r

-- The types of New, which are in lower case; `none` is its error.
unfoldable pub supported_type : String → Option String
supported_type node_type =
    if node_type == "v2ray"
    then some "vmess"
    else if node_type == "vmess"
        || node_type == "trojan"
        || node_type == "shadowsocks"
        || node_type == "hysteria"
        || node_type == "hysteria2"
        || node_type == "tuic"
        || node_type == "anytls"
        || node_type == "vless"
    then some node_type
    else none
