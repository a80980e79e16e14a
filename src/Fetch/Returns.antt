-- ===== src/Fetch/Returns.antt =====
-- GetNodeInfo and the types of New.
use v2bx_outbound.Base.{
  ℕ, String, ◌==◌, Bool, true, false, Option, none, some, ◌≡◌, refl, subst, arith, Option-cases,
  Bool-cases, inl, inr,
}
use v2bx_outbound.Base.Map.{string_key}
use v2bx_outbound.Panel.Routes.{read_routes}
use v2bx_outbound.Node.Controller.{Client}
use v2bx_outbound.Fetch.{
  CommonNode, Settings, Decoders, Response, Answer, panicked, decode_node, build_node, no_rules,
  no_dns, read_node, get_node_info, supported_type,
}

abbrev pub is_panicked : Answer → Bool
is_panicked panicked = true
is_panicked answer = false

-- The switch has the type.
abbrev has_case : Option (Option (CommonNode × Settings × ℕ)) → Bool
has_case none = false
has_case (some decoded) = true

decode_node-has_case :
    (decoded_length : String → Option ℕ) (decoders : Decoders) (node_type supported body : String)
    → supported_type node_type ≡ some supported
    → has_case (decode_node decoded_length decoders supported body) ≡ true
unfolding supported_type decode_node
decode_node-has_case decoded_length decoders node_type supported body h =
    elim (Bool-cases (node_type == "v2ray")) [
      | inl e ↦
          let same : "vmess" ≡ supported = ground (arith, e, h) in
          subst (λ t. has_case (decode_node decoded_length decoders t body) ≡ true) same refl
      | inr e ↦
          let same : node_type ≡ supported = ground (arith, e, h) in
          subst (λ t. has_case (decode_node decoded_length decoders t body) ≡ true) same
            (ground (arith, e, h))
    ]

build_node-returns :
    (node_type : String) (node_id : ℕ) (hash etag : String) (decoded : CommonNode × Settings × ℕ)
    → is_panicked (build_node node_type node_id hash etag decoded) ≡ false
unfolding build_node
build_node-returns node_type node_id hash etag decoded =
    elim (Option-cases (read_routes 0 decoded.0.routes (no_rules, no_dns))) [
      | inl e ↦ ground (arith, e)
      | inr (read, e) ↦ ground (arith, e)
    ]

read_node-returns :
    (decoded_length : String → Option ℕ) (decoders : Decoders) (hash : String → String)
    (node_type : String) (node_id : ℕ) (r : Response)
    → has_case (decode_node decoded_length decoders node_type r.body) ≡ true
    → is_panicked (read_node decoded_length decoders hash node_type node_id r) ≡ false
unfolding read_node
read_node-returns decoded_length decoders hash node_type node_id r h =
    elim (Option-cases (decode_node decoded_length decoders node_type r.body)) [
      | inl e ↦ ground (arith, e, h)
      | inr (none, e) ↦ ground (arith, e)
      | inr (some decoded, e) ↦
          ground (arith, e, build_node-returns node_type node_id (hash r.body) r.etag decoded)
    ]

-- For a node type that New accepts, GetNodeInfo does not panic, whatever the panel sends.
pub get_node_info-returns :
    (decoded_length : String → Option ℕ) (decoders : Decoders) (hash : String → String)
    (node_type supported : String) (node_id : ℕ) (answer : Option Response) (c : Client)
    → supported_type node_type ≡ some supported
    → is_panicked (get_node_info decoded_length decoders hash supported node_id answer c) ≡ false
unfolding get_node_info
get_node_info-returns decoded_length decoders hash node_type supported node_id none c h = refl
get_node_info-returns decoded_length decoders hash node_type supported node_id (some r) c h =
    let has = decode_node-has_case decoded_length decoders node_type supported r.body h in
    ground (arith, read_node-returns decoded_length decoders hash supported node_id r has)
