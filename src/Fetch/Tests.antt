-- ===== src/Fetch/Tests.antt =====
-- A Trojan node with a block route and a DNS route.
use v2bx_outbound.Base.{
  ℕ, ◌<◌, String, ◌==◌, ◌&&◌, Option, none, some, List, [], ◌∷◌, ◌≡◌, refl, arith, length, int_mod,
  if◌then◌else◌,
}
use v2bx_outbound.Base.Map.{insert, string_key}
use v2bx_outbound.Base.Text.{after_prefix, trim_prefix}
use v2bx_outbound.Base.Text.Decimal.{itoa}
use v2bx_outbound.Panel.Routes.{
  Route, text, items, string, missing, interval_to_time, atoi, scan_digits, magnitude, read_routes,
  read_match, read_route, add_blocked, add_dns, all_texts,
}
use v2bx_outbound.Panel.Routes.Blocked.{are_readable}
use v2bx_outbound.Panel.Vless.{split}
use v2bx_outbound.Node.Controller.{Client, accept_node_info}
use v2bx_outbound.Fetch.{
  BaseConfig, CommonNode, TrojanNode, trojan_settings, Decoders, Response, Fetched, unchanged,
  fetched, decode_node, new_node, build_node, read_node, get_node_info, check_response,
}
use v2bx_outbound.Fetch.Checked.{is_fetched, is_new, IsReadFrom, get_node_info-fetches}
use v2bx_outbound.Fetch.Accepted.{get_node_info-accepted}

abbrev routes : List Route
routes =
    record {
      id = 1;
      match_field = items (some "protocol:bittorrent" ∷ some "regexp:.*x" ∷ []);
      action = "block";
      action_value = "";
    }
    ∷ record { id = 2; match_field = text "a.org,b.org"; action = "dns"; action_value = "1.1.1.1" }
    ∷ []

abbrev base_config : BaseConfig
base_config = record { push_interval = string "30"; pull_interval = missing }

abbrev common : CommonNode
common = record {
  host = "h";
  server_port = 443;
  server_name = "s";
  routes = routes;
  base_config = some base_config;
}

abbrev trojan : TrojanNode
trojan = record { network = "tcp"; network_settings = "" }

abbrev decoders : Decoders
decoders = record {
  vallss = λ b. none;
  shadowsocks = λ b. none;
  trojan = λ b. if b == "" then none else some (common, trojan);
  tuic = λ b. none;
  any_tls = λ b. none;
  hysteria = λ b. none;
  hysteria2 = λ b. none;
}

abbrev decoded_length : String → Option ℕ
decoded_length s = none

abbrev hash : String → String
hash s = s

abbrev client : Client
client = record {
  api_host = "p";
  node_etag = "";
  user_etag = "";
  pending_user_etag = "";
  response_body_hash = "";
}

abbrev response : Response
response = record { status_code = 200; body = "body"; etag = "e" }

abbrev node : Fetched
node =
    new_node "trojan" 1 "body" "e" (common, trojan_settings trojan, 1)
      (
        record { regexp = ".*x" ∷ []; protocol = "bittorrent" ∷ [] },
        record { dns_map = (itoa 1, ("1.1.1.1", "a.org" ∷ "b.org" ∷ [])) ∷ []; dns_json = "" },
      )

decoded :
    decode_node decoded_length decoders "trojan" response.body
    ≡ some (some (common, trojan_settings trojan, 1))
unfolding decode_node
decoded = refl

few_routes : length common.routes < int_mod
few_routes = omega arith

is_read :
    get_node_info decoded_length decoders hash "trojan" 1 (some response) client ≡ fetched node
unfolding get_node_info read_node build_node decode_node read_routes read_route read_match all_texts
    add_blocked add_dns split after_prefix trim_prefix insert check_response
is_read = refl

get_node_info-fetches_example :
    let answer = get_node_info decoded_length decoders hash "trojan" 1 (some response) client in
    (is_fetched answer ≡ (is_new hash response client && are_readable common.routes))
    × ((f : Fetched) → answer ≡ fetched f → IsReadFrom common f)
get_node_info-fetches_example =
    get_node_info-fetches decoded_length decoders hash "trojan" 1 response client common
      (trojan_settings trojan) 1 decoded few_routes

get_node_info-accepted_example :
    get_node_info decoded_length decoders hash "trojan" 1
      (some response)
      (accept_node_info node.info client)
    ≡ unchanged
unfolding check_response
get_node_info-accepted_example =
    get_node_info-accepted decoded_length decoders hash "trojan" 1 response response client client
      node is_read refl

-- An interval that is no number is not positive, and a word that is too large is cut off.
intervals :
    (interval_to_time (string "30") ≡ 30_000_000_000)
    × (interval_to_time (string "x") ≡ 0)
    × (atoi "+7" ≡ 7)
    × (atoi "99999999999999999999x" ≡ 9_223_372_036_854_775_807)
    × (atoi "-3" ≡ 18_446_744_073_709_551_613)
unfolding interval_to_time atoi magnitude scan_digits after_prefix trim_prefix
intervals = (refl, refl, refl, refl, refl)
