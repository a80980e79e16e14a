-- ===== src/Node/Controller/Tests.antt =====
-- Rounds of a controller with one user, on a core that accepts every node and on one that refuses.
use v2bx_outbound.Node.Controller.Start.{
  Answers, start, started, failed, node_not_added, start_with, limit_first, limit_under, enter_core,
  refusal, add_first, abandon,
}
use v2bx_outbound.Node.Controller.Start.Ready.{start-IsReady, start_failure}
use v2bx_outbound.Base.{
  ℕ, String, ◌==◌, if◌then◌else◌, Bool, true, false, Option, none, some, List, [], ◌∷◌, ◌≡◌, refl,
  arith,
}
use v2bx_outbound.Base.Map.{lookup, insert, string_key, int_key}
use v2bx_outbound.Panel.{UserInfo}
use v2bx_outbound.Limiter.{Limiter}
use v2bx_outbound.Limiter.Users.{new_limiter}
use v2bx_outbound.Limiter.Rules.{compile_all, update_rule, check_domain_rule, check_protocol_rule}
use v2bx_outbound.Limiter.Rules.Atomic.{matches_any, listed as names}
use v2bx_outbound.Limiter.Registry.{add_limiter, get_limiter, deref}
use v2bx_outbound.Node.Users.Sync.{Follows, new_limiter-Follows}
use v2bx_outbound.Node.Traffic.{
  post_traffic, flush_user_traffic, merge_user_traffic, merge_batch, merged_values,
}
use v2bx_outbound.Node.Controller.{NodeInfo, Core, Controller, Poll, listed, get_user_list}
use v2bx_outbound.Node.Controller.Replace.{
  call, flush, install, roll_back, switch_node, snapshot, preflight, replace_vless_node,
  not_installed,
}
use v2bx_outbound.Node.Controller.Replace.Failure.{
  SameNode, SameLimiters, replace_vless_node_failure,
}
use v2bx_outbound.Node.Controller.Replace.Success.{Replaced, replace_vless_node_success}
use v2bx_outbound.Node.Controller.Monitor.{node_info_monitor, apply_answers, returned}
use v2bx_outbound.Node.Controller.Monitor.Users.{IsReady}
use v2bx_outbound.Node.Controller.Monitor.Ready.{node_info_monitor-IsReady}

-- A core that has no state of its own; it accepts nodes or refuses them.
abbrev core : Bool → Core ℕ
core accepting = record {
  add_node = λ tag node s. (s, accepting);
  del_node = λ tag s. (s, true);
  add_users = λ tag node users s. (s, true);
  del_users = λ users tag node s. (s, true);
  get_user_traffic_slice = λ tag s. (s, some []);
  validate_node = some (λ tag node s. true);
  snapshot_node_state = none;
}

abbrev compile : String → Option String
compile text = some text

abbrev accepts : List (ℕ × (ℕ × ℕ)) → Bool
accepts body = true

abbrev alice : UserInfo
alice = record { id = 1; uuid = "alice"; speed_limit = 0; device_limit = 1 }

abbrev carol : UserInfo
carol = record { id = 3; uuid = "carol"; speed_limit = 20; device_limit = 2 }

abbrev node : NodeInfo
node = record {
  response_hash = "h1";
  response_etag = "e1";
  id = 7;
  kind = "vless";
  security = 0;
  push_interval = 60;
  pull_interval = 60;
  rules = record { regexp = []; protocol = [] };
}

abbrev candidate : NodeInfo
candidate = record node {
  response_hash = "h2";
  rules = record { regexp = "ads" ∷ []; protocol = [] };
}

abbrev first_limiter : Limiter ℕ String
first_limiter = new_limiter "n" 0 (alice ∷ []) []

abbrev controller : Controller ℕ ℕ String
controller = record {
  pending_traffic = [];
  server = 0;
  api_client = record {
    api_host = "panel";
    node_etag = "e1";
    user_etag = "u1";
    pending_user_etag = "u1";
    response_body_hash = "h1";
  };
  tag = "n";
  limiter = 0;
  traffic = [];
  user_list = alice ∷ [];
  alive_map = [];
  info = node;
  node_interval = 60;
  report_interval = 60;
  options = record {
    name = "";
    speed_limit = 0;
    enable_dynamic_speed_limit = false;
    dynamic_traffic = 0;
    dynamic_speed_limit = 0;
    dynamic_expire_time = 0;
  };
  limiters = record { table = ("n", 0) ∷ []; heap = (0, first_limiter) ∷ []; next = 1 };
}

limiter_known : get_limiter controller.tag controller.limiters ≡ some controller.limiter
unfolding get_limiter lookup
limiter_known = refl

refused :
    (replace_vless_node (core false) compile accepts candidate (carol ∷ []) [] controller).1
    ≡ some (not_installed false)
unfolding replace_vless_node preflight update_rule compile_all flush flush_user_traffic post_traffic
    merge_user_traffic merge_batch merged_values snapshot switch_node call install roll_back
refused = refl

replace_vless_node_failure_example :
    let c' =
      (replace_vless_node (core false) compile accepts candidate (carol ∷ []) [] controller).0 in
    SameNode controller c' × (c'.limiter ≡ 0) × SameLimiters controller.limiters c'.limiters
replace_vless_node_failure_example =
    replace_vless_node_failure (core false) compile accepts candidate (carol ∷ []) [] controller
      (not_installed false) limiter_known (omega arith) refused

replaced :
    (replace_vless_node (core true) compile accepts candidate (carol ∷ []) [] controller).1 ≡ none
unfolding replace_vless_node preflight update_rule compile_all flush flush_user_traffic post_traffic
    merge_user_traffic merge_batch merged_values snapshot switch_node call install
replaced = refl

replace_vless_node_success_example :
    let c' =
      (replace_vless_node (core true) compile accepts candidate (carol ∷ []) [] controller).0 in
    (l : Limiter ℕ String) × Replaced
      (core true)
      compile
      accepts
      candidate
      (carol ∷ [])
      []
      l
      controller
      c'
    × (c'.pending_traffic ≡ [])
    × Follows "n" (carol ∷ []) l
    × ((match_string : String → String → Bool) (destination : String)
        → check_domain_rule match_string destination l
          ≡ matches_any compile match_string ("ads" ∷ []) destination)
    × ((protocol : String) → check_protocol_rule protocol l ≡ names [] protocol)
replace_vless_node_success_example =
    replace_vless_node_success (core true) compile accepts candidate (carol ∷ []) [] controller
      replaced

abbrev poll : Poll
poll = record { node = some none; users = listed (carol ∷ []) "u2"; alive = some (some []) }

controller-IsReady : IsReady 5 controller
unfolding get_limiter deref lookup
controller-IsReady = (
  (refl, omega arith, (first_limiter, refl, new_limiter-Follows ℕ String "n" 0 (alice ∷ []) [])),
  (refl, refl, omega arith, tt),
)

round_returns : (node_info_monitor (core true) compile accepts true poll controller).1 ≡ returned
unfolding node_info_monitor get_user_list apply_answers
round_returns = refl

node_info_monitor-IsReady_example :
    IsReady 5 (node_info_monitor (core true) compile accepts true poll controller).0
node_info_monitor-IsReady_example =
    node_info_monitor-IsReady (core true) compile accepts true 5 poll controller controller-IsReady
      (refl, refl, omega arith, tt) (λ changed e f. refl) round_returns

abbrev answers : Answers
answers = record { node = some (some node); users = listed (alice ∷ []) "u1"; alive = some [] }

starts : (start (core true) compile true answers controller).1 ≡ started
unfolding start get_user_list start_with limit_first limit_under add_limiter deref lookup insert
    update_rule compile_all enter_core refusal add_first
starts = refl

start-IsReady_example : IsReady 5 (start (core true) compile true answers controller).0
start-IsReady_example =
    start-IsReady (core true) compile true 5 answers controller (refl, refl, omega arith, tt) starts

refuses : (start (core false) compile true answers controller).1 ≡ failed node_not_added
unfolding start get_user_list start_with limit_first limit_under add_limiter deref lookup insert
    update_rule compile_all enter_core refusal add_first abandon
refuses = refl

start_failure_example :
    let c' = (start (core false) compile true answers controller).0 in
    get_limiter "m" c'.limiters
    ≡ (if c'.tag == "m" then none else get_limiter "m" controller.limiters)
start_failure_example =
    start_failure (core false) compile true answers controller node_not_added "m" refuses
