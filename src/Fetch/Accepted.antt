-- ===== src/Fetch/Accepted.antt =====
-- A node that the controller has accepted.
use v2bx_outbound.Base.{
  ℕ, String, ◌==◌, eq_refl, Bool, true, Option, none, some, ◌≡◌, sym, subst, ap, ◌∙◌, arith,
  Option-cases, inl, inr, if◌then◌else◌,
}
use v2bx_outbound.Base.Map.{string_key}
use v2bx_outbound.Panel.Routes.{read_routes}
use v2bx_outbound.Node.Controller.{Client, accept_node_info}
use v2bx_outbound.Fetch.{
  CommonNode, Settings, Decoders, Response, Fetched, Answer, failed, unchanged, fetched,
  decode_node, build_node, new_node, no_rules, no_dns, check_response, read_node, get_node_info,
}

-- A node that is fetched has the hash of its body.
abbrev has_hash : String → Answer → Bool
has_hash h (fetched f) = f.info.response_hash == h
has_hash h answer = true

build_node-has_hash :
    (node_type : String) (node_id : ℕ) (hash etag : String) (decoded : CommonNode × Settings × ℕ)
    → has_hash hash (build_node node_type node_id hash etag decoded) ≡ true
unfolding build_node new_node
build_node-has_hash node_type node_id hash etag decoded =
    elim (Option-cases (read_routes 0 decoded.0.routes (no_rules, no_dns))) [
      | inl e ↦ ground (arith, e)
      | inr (read, e) ↦ ground (arith, e, eq_refl hash)
    ]

module _ (decoded_length : String → Option ℕ) (decoders : Decoders) (hash : String → String)
    (node_type : String) (node_id : ℕ) where
  read_node-has_hash :
      (r : Response)
      → has_hash (hash r.body) (read_node decoded_length decoders hash node_type node_id r) ≡ true
  unfolding read_node
  read_node-has_hash r =
      elim (Option-cases (decode_node decoded_length decoders node_type r.body)) [
        | inl e ↦ ground (arith, e)
        | inr (none, e) ↦ ground (arith, e)
        | inr (some decoded, e) ↦
            ground (arith, e, build_node-has_hash node_type node_id (hash r.body) r.etag decoded)
      ]

  get_node_info-has_hash :
      (r : Response) (c : Client)
      → has_hash
          (hash r.body)
          (get_node_info decoded_length decoders hash node_type node_id (some r) c)
        ≡ true
  unfolding get_node_info
  get_node_info-has_hash r c = ground (arith, read_node-has_hash r)

-- A node that was fetched and accepted is not fetched again: as long as the panel sends the same body,
-- GetNodeInfo returns a nil node, or an error for an error of the panel.
pub get_node_info-accepted :
    (decoded_length : String → Option ℕ) (decoders : Decoders) (hash : String → String)
    (node_type : String) (node_id : ℕ) (r r' : Response) (c c' : Client) (f : Fetched)
    → get_node_info decoded_length decoders hash node_type node_id (some r) c ≡ fetched f
    → r'.body ≡ r.body
    → get_node_info decoded_length decoders hash node_type node_id
        (some r')
        (accept_node_info f.info c')
      ≡ (if check_response (some r') then unchanged else failed)
unfolding get_node_info accept_node_info
get_node_info-accepted decoded_length decoders hash node_type node_id r r' c c' f h same =
    let sent : (f.info.response_hash == hash r.body) ≡ true =
      ap (has_hash (hash r.body)) (sym h)
      ∙ get_node_info-has_hash decoded_length decoders hash node_type node_id r c in
    let known : (f.info.response_hash == hash r'.body) ≡ true =
      subst (λ b. (f.info.response_hash == hash b) ≡ true) (sym same) sent in
    ground (arith, known)
