-- ===== src/Fetch/Checked.antt =====
-- What GetNodeInfo returns.
use v2bx_outbound.Base.{
  ℕ, ◌<◌, String, ◌==◌, Bool, true, false, not, ◌&&◌, Option, none, some, [], eqb, slt, ◌≡◌, refl,
  sym, subst, ap, ◌∙◌, arith, Option-cases, inl, inr, if◌then◌else◌, length, get_elem?, int_mod,
}
use v2bx_outbound.Base.Map.{lookup, string_key}
use v2bx_outbound.Base.Text.Decimal.{itoa}
use v2bx_outbound.Panel.{Rules}
use v2bx_outbound.Panel.Routes.{RawDns, Interval, positive_or, read_routes}
use v2bx_outbound.Panel.Routes.Blocked.{
  blocked, are_readable, with_blocked, rules_of, read_routes-blocked,
}
use v2bx_outbound.Panel.Routes.Dns.{found_at, dns_entry, read_routes-entries}
use v2bx_outbound.Node.Controller.{Client}
use v2bx_outbound.Fetch.{
  BaseConfig, CommonNode, Settings, Decoders, Response, Fetched, Answer, fetched, decode_node,
  build_node, new_node, push_of, pull_of, default_interval, no_rules, no_dns, check_response,
  read_node, get_node_info,
}

abbrev pub is_fetched : Answer → Bool
is_fetched (fetched f) = true
is_fetched answer = false

-- What a fetched node says, given what the panel sent.
abbrev pub IsReadFrom : CommonNode → Fetched → Type 0
IsReadFrom cm f =
    (f.info.rules ≡ with_blocked (blocked cm.routes) no_rules)
    × ((n : ℕ)
        → n < int_mod
        → lookup (itoa n) f.raw_dns.dns_map
          ≡ (elim (get_elem? cm.routes n) [ none ↦ none | some route ↦ dns_entry route ]))
    × (slt 0 f.info.push_interval ≡ true)
    × (slt 0 f.info.pull_interval ≡ true)
    × (f.common.routes ≡ [])

positive_or-positive :
    (kept : ℕ) (i : Interval) → slt 0 kept ≡ true → slt 0 (positive_or kept i) ≡ true
unfolding positive_or
positive_or-positive kept i h = ground (arith, h)

push_of-positive : (base : Option BaseConfig) → slt 0 (push_of base) ≡ true
push_of-positive none = refl
push_of-positive (some base) = positive_or-positive default_interval base.push_interval refl

pull_of-positive : (base : Option BaseConfig) → slt 0 (pull_of base) ≡ true
pull_of-positive none = refl
pull_of-positive (some base) = positive_or-positive default_interval base.pull_interval refl

build_node-is_fetched :
    (node_type : String) (node_id : ℕ) (hash etag : String) (cm : CommonNode) (settings : Settings)
    (security : ℕ)
    → is_fetched (build_node node_type node_id hash etag (cm, settings, security))
      ≡ are_readable cm.routes
unfolding build_node
build_node-is_fetched node_type node_id hash etag cm settings security =
    ground (arith, read_routes-blocked 0 cm.routes no_rules no_dns)

-- The loop over the routes and its result.
read_routes-made :
    (n : ℕ) (cm : CommonNode) (read : Rules × RawDns)
    → length cm.routes < int_mod
    → read_routes 0 cm.routes (no_rules, no_dns) ≡ some read
    → (are_readable cm.routes ≡ true)
      × (read.0 ≡ with_blocked (blocked cm.routes) no_rules)
      × (n < int_mod
          → lookup (itoa n) read.1.dns_map
            ≡ (elim (get_elem? cm.routes n) [ none ↦ none | some route ↦ dns_entry route ]))
read_routes-made n cm read small e =
    let rules = ap rules_of (sym e) ∙ read_routes-blocked 0 cm.routes no_rules no_dns in
    let readable : are_readable cm.routes ≡ true = ground (arith, rules) in
    (
      readable,
      ground (arith, rules),
      λ small'.
          ap (found_at n) (sym e)
          ∙ (read_routes-entries n cm.routes no_rules no_dns small small' refl
              ∙ ap
                  (λ b.
                    if b
                    then (elim (get_elem? cm.routes n) [
                      | none ↦ none
                      | some route ↦ dns_entry route
                    ])
                    else none)
                  readable),
    )

new_node-IsReadFrom :
    (node_type : String) (node_id : ℕ) (hash etag : String) (cm : CommonNode) (settings : Settings)
    (security : ℕ) (read : Rules × RawDns)
    → length cm.routes < int_mod
    → read_routes 0 cm.routes (no_rules, no_dns) ≡ some read
    → IsReadFrom cm (new_node node_type node_id hash etag (cm, settings, security) read)
unfolding new_node
new_node-IsReadFrom node_type node_id hash etag cm settings security read small e = (
  (read_routes-made 0 cm read small e).1,
  λ n. (read_routes-made n cm read small e).2,
  push_of-positive cm.base_config,
  pull_of-positive cm.base_config,
  refl,
)

-- The node of an answer.
abbrev node_of : Fetched → Answer → Fetched
node_of d (fetched f) = f
node_of d answer = d

fetched-injective : (f g : Fetched) → fetched f ≡ fetched g → f ≡ g
fetched-injective f g e = ap (node_of f) e

build_node-IsReadFrom :
    (node_type : String) (node_id : ℕ) (hash etag : String) (cm : CommonNode) (settings : Settings)
    (security : ℕ) (f : Fetched)
    → length cm.routes < int_mod
    → build_node node_type node_id hash etag (cm, settings, security) ≡ fetched f
    → IsReadFrom cm f
unfolding build_node
build_node-IsReadFrom node_type node_id hash etag cm settings security f small h =
    elim (Option-cases (read_routes 0 cm.routes (no_rules, no_dns))) [
      | inl e ↦ ground (arith, e, h)
      | inr (read, e) ↦
          let made = new_node node_type node_id hash etag (cm, settings, security) read in
          let same : made ≡ f = fetched-injective made f (ground (arith, e, h)) in
          subst (IsReadFrom cm) same
            (new_node-IsReadFrom node_type node_id hash etag cm settings security read small e)
    ]

-- A node of the panel that is new.
abbrev pub is_new : (String → String) → Response → Client → Bool
is_new hash r c =
    check_response (some r)
    && not (eqb r.status_code 304)
    && not (c.response_body_hash == hash r.body)

-- A node is fetched exactly if the response is no error, the node is new and each of its routes lists
-- something. Then it blocks what its block routes list, its DNS map has the entry of each DNS route at
-- the route's index, but none for a route whose first match is "main", its intervals are positive, and
-- its routes are gone. The body was decoded, and the routes are fewer than 2^64.
pub get_node_info-fetches :
    (decoded_length : String → Option ℕ) (decoders : Decoders) (hash : String → String)
    (node_type : String) (node_id : ℕ) (r : Response) (c : Client) (cm : CommonNode)
    (settings : Settings) (security : ℕ)
    → decode_node decoded_length decoders node_type r.body ≡ some (some (cm, settings, security))
    → length cm.routes < int_mod
    → let answer = get_node_info decoded_length decoders hash node_type node_id (some r) c in
      (is_fetched answer ≡ (is_new hash r c && are_readable cm.routes))
      × ((f : Fetched) → answer ≡ fetched f → IsReadFrom cm f)
unfolding get_node_info read_node
get_node_info-fetches decoded_length decoders hash node_type node_id r c cm settings security
      decoded small =
    let built = build_node node_type node_id (hash r.body) r.etag (cm, settings, security) in
    let is_built =
      build_node-is_fetched node_type node_id (hash r.body) r.etag cm settings security in
    let fresh = is_new hash r c in
    (
      ground (arith, decoded, is_built),
      λ f h.
          build_node-IsReadFrom node_type node_id (hash r.body) r.etag cm settings security f small
            (ground (arith, decoded, h)),
    )
