-- ===== src/Xray/Nodes.antt =====
-- core/xray/node.go, and retireNodeUsers of core/xray/user.go: the nodes of the Xray core. What the
-- library does with handlers is an interface; a handler is a number. What builds the configuration of
-- a handler is an argument that answers `none` for an error.
pub mod Retired
pub mod Rollback
mod Tests
use v2bx_outbound.Base.{
  ℕ, String, ◌<>◌, ◌==◌, Bool, true, false, not, ◌&&◌, ◌||◌, Option, none, some, List, [], ◌∷◌, eqb,
  mul_int, slt, if◌then◌else◌, ◌≡◌, ◌⊎◌,
}
use v2bx_outbound.Base.Text.{after_prefix}
use v2bx_outbound.Base.Map.{lookup, insert, delete, string_key}
use v2bx_outbound.Xray.{Xray, retain_user_traffic}

abbrev pub has_prefix : String → String → Bool
has_prefix p s = elim (after_prefix p s) [ none ↦ false | some rest ↦ true ]

-- A round of the loop over uidMap, less the links, which Xray/Links has.
unfoldable pub retire_user : String → String → ℕ → Xray → Xray
retire_user tag email uid x =
    let retained = retain_user_traffic tag email uid x in
    record retained { uid_map = delete email retained.uid_map }

unfoldable pub retire_users : String → List (String × ℕ) → Xray → Xray
retire_users tag [] x = x
retire_users tag ((email, uid) ∷ entries) x =
    retire_users tag entries
      (if has_prefix (tag <> "|") email then retire_user tag email uid x else x)

unfoldable pub retire_node_users : String → Xray → Xray
retire_node_users tag x =
    let retired = retire_users tag x.uid_map x in
    record retired {
      counter = delete tag retired.counter;
      node_report_min_traffic_bytes = delete tag retired.node_report_min_traffic_bytes;
    }

-- updateDNSConfig (dns.go) on the file under XRAY_DNS_PATH, `none` if it cannot be read. The first
-- argument is the answer of compileDNSConfig, with `some none` for nil data; `writes` is what
-- writeDNSConfig answers, which leaves the file as it is where it fails. The result is true for a nil
-- error.
unfoldable pub update_dns_config :
    Option (Option String) → (String → Bool) → Option String → Option String × Bool
update_dns_config none writes file = (file, false)
update_dns_config (some none) writes file = (file, true)
update_dns_config (some (some bytes)) writes none = (none, false)
update_dns_config (some (some bytes)) writes (some current) =
    if current == bytes
    then (some current, true)
    else if writes bytes
    then (some bytes, true)
    else (some current, false)

-- SnapshotNodeState: `none` for an error, and else what restores the file; an empty path has none.
unfoldable pub snapshot_node_state :
    Bool → (String → Bool) → Option String → Option (Option String → Option String × Bool)
snapshot_node_state has_path writes file =
    let kept : Option (Option String → Option String × Bool) = elim file [
      | none ↦ none
      | some bytes ↦ some (λ later. if writes bytes then (some bytes, true) else (later, false))
    ] in
    if has_path then kept else some (λ later. (later, true))

-- The handlers of one direction. AddHandler may fail after the handler is in place; RemoveHandler
-- leaves the tag free when it succeeds, and fails only where it has nothing to remove.
pub record Handlers (C M : Type 0) : Type 0 where
  pub create_object : C → M → Option ℕ
  pub tag_of : C → String
  pub get_handler : String → M → Option ℕ
  pub add_handler : String → ℕ → M → M × Bool
  pub remove_handler : String → M → M × Bool
  pub add_handler-gets :
      (tag : String) (h : ℕ) (m : M)
      → (add_handler tag h m).1 ≡ true
      → get_handler tag (add_handler tag h m).0 ≡ some h
  pub add_handler-fails :
      (tag : String) (h : ℕ) (m : M)
      → (add_handler tag h m).1 ≡ false
      → get_handler tag m ≡ none
      → (get_handler tag (add_handler tag h m).0 ≡ some h)
        ⊎ (get_handler tag (add_handler tag h m).0 ≡ none)
  pub remove_handler-frees :
      (tag : String) (m : M) → get_handler tag (remove_handler tag m).0 ≡ none

module _ {C M : Type 0} (handlers : Handlers C M) where
  -- addInbound and addOutbound; a handler that is not in place is closed, which does not show here.
  unfoldable pub add_handler_of : C → M → M × Bool
  add_handler_of config m = elim (handlers.create_object config m) [
    | none ↦ (m, false)
    | some handler ↦
        let added = handlers.add_handler (handlers.tag_of config) handler m in
        let is_active =
          elim (handlers.get_handler (handlers.tag_of config) added.0) as (λ h. Bool) [
            | none ↦ false
            | some active ↦ eqb active handler
          ] in
        let undone = (handlers.remove_handler (handlers.tag_of config) added.0).0 in
        if added.1 then (added.0, true) else (if is_active then undone else added.0, false)
  ]

-- The fields of a node and its options that are read here.
pub record NodeSettings : Type 0 where
  pub kind : String
  pub security : ℕ
  pub server_port : Option ℕ  -- `none` for a nil Common
  pub flow : String
  pub network : String
  pub has_vallss : Bool
  pub has_xray_options : Bool
  pub cert_mode : Option String  -- `none` for a nil CertConfig
  pub report_min_traffic : ℕ

pub data NodeError : Type 0 where
  invalid_security invalid_port invalid_flow vision_without_tls : NodeError
  missing_options missing_certificate bad_dns bad_inbound bad_outbound bad_certificate : NodeError

abbrev pub is_port : Option ℕ → Bool
is_port none = false
is_port (some port) = not (slt port 1) && not (slt 65_535 port)

abbrev pub has_certificate : Option String → Bool
has_certificate none = false
has_certificate (some mode) = not (mode == "" || mode == "none")

-- The checks of a VLESS node.
unfoldable pub check_vless : NodeSettings → Option NodeError
check_vless n =
    if not n.has_vallss || slt n.security 0 || slt 2 n.security
    then some invalid_security
    else if not (is_port n.server_port)
    then some invalid_port
    else if not (n.flow == "" || n.flow == "none" || n.flow == "xtls-rprx-vision")
    then some invalid_flow
    else if n.flow == "xtls-rprx-vision" && (not (n.network == "tcp") || eqb n.security 0)
    then some vision_without_tls
    else none

-- ValidateNode; the Boolean arguments are the answers of compileDNSConfig, buildInbound,
-- buildOutbound and LoadX509KeyPair.
unfoldable pub validate_node : Bool → Bool → Bool → Bool → NodeSettings → Option NodeError
validate_node dns_compiles inbound_builds outbound_builds certificate_loads n =
    let rest =
      if not n.has_xray_options
      then some missing_options
      else if eqb n.security 1 && not (has_certificate n.cert_mode)
      then some missing_certificate
      else if not dns_compiles
      then some bad_dns
      else if not inbound_builds
      then some bad_inbound
      else if not outbound_builds
      then some bad_outbound
      else if eqb n.security 1 && has_certificate n.cert_mode && not certificate_loads
      then some bad_certificate
      else none in
    elim (if n.kind == "vless" then check_vless n else none) [ none ↦ rest | some e ↦ some e ]

-- The two managers of the library.
module _ {IC OC MI MO : Type 0} (ihm : Handlers IC MI) (ohm : Handlers OC MO) where
  -- AddNode, with the DNS file; the arguments are the answers of compileDNSConfig and writeDNSConfig,
  -- of buildInbound and of buildOutbound. The result is true for a nil error.
  unfoldable pub add_node :
      Option (Option String)
      → (String → Bool)
      → Option IC
      → Option OC
      → ℕ
      → String
      → Option String × Xray × MI × MO
      → (Option String × Xray × MI × MO) × Bool
  add_node compiled writes inbound outbound report_min_traffic tag (file, x, mi, mo) =
      let dns = update_dns_config compiled writes file in
      let min_bytes = mul_int report_min_traffic 1024 in
      let x' = record x {
        node_report_min_traffic_bytes = insert tag min_bytes x.node_report_min_traffic_bytes;
      } in
      let installed : (Option String × Xray × MI × MO) × Bool = elim inbound [
        | none ↦ ((dns.0, x, mi, mo), false)
        | some inbound_config ↦
            let entered = add_handler_of ihm inbound_config mi in
            let undone = (ihm.remove_handler tag entered.0).0 in
            let connected : (Option String × Xray × MI × MO) × Bool = elim outbound [
              | none ↦ ((dns.0, x, undone, mo), false)
              | some outbound_config ↦
                  let left = add_handler_of ohm outbound_config mo in
                  if left.1
                  then ((dns.0, x', entered.0, left.0), true)
                  else ((dns.0, x, undone, left.0), false)
            ] in
            if entered.1 then connected else ((dns.0, x, entered.0, mo), false)
      ] in
      if dns.1 then installed else ((dns.0, x, mi, mo), false)

  -- DelNode; the errors of both removals are joined.
  unfoldable pub del_node : String → Xray × MI × MO → (Xray × MI × MO) × Bool
  del_node tag (x, mi, mo) =
      let inward = elim (ihm.get_handler tag mi) as (λ h. MI × Bool) [
        | none ↦ (mi, true)
        | some h ↦ ihm.remove_handler tag mi
      ] in
      let outward = elim (ohm.get_handler tag mo) as (λ h. MO × Bool) [
        | none ↦ (mo, true)
        | some h ↦ ohm.remove_handler tag mo
      ] in
      if inward.1 && outward.1
      then ((retire_node_users tag x, inward.0, outward.0), true)
      else ((x, inward.0, outward.0), false)
