-- ===== src/Node/Nodes/Tests.antt =====
-- Two nodes, of which the panel does not answer for the first.
use v2bx_outbound.Base.{
  ℕ, String, true, false, eqb, none, some, List, [], ◌∷◌, ◌≡◌, refl, length, Option,
}
use v2bx_outbound.Node.Controller.{NodeInfo, Core, Controller, unmodified}
use v2bx_outbound.Node.Controller.Start.{Answers, start, close_node}
use v2bx_outbound.Node.Nodes.{Shared, NodeConfig, all_started, start_nodes, close_nodes}
use v2bx_outbound.Node.Nodes.Closed.{count_made, close_nodes_after_start}

abbrev core : Core ℕ
core = record {
  add_node = λ tag node s. (s, true);
  del_node = λ tag s. (s, true);
  add_users = λ tag node users s. (s, true);
  del_users = λ users tag node s. (s, true);
  get_user_traffic_slice = λ tag s. (s, some []);
  validate_node = none;
  snapshot_node_state = none;
}

abbrev compile : String → Option String
compile text = some text

abbrev info : NodeInfo
info = record {
  response_hash = "";
  response_etag = "";
  id = 0;
  kind = "trojan";
  security = 0;
  push_interval = 60;
  pull_interval = 60;
  rules = record { regexp = []; protocol = [] };
}

abbrev controller : Controller ℕ ℕ String
controller = record {
  pending_traffic = [];
  server = 0;
  api_client = record {
    api_host = "panel";
    node_etag = "";
    user_etag = "";
    pending_user_etag = "";
    response_body_hash = "";
  };
  tag = "";
  limiter = 0;
  traffic = [];
  user_list = [];
  alive_map = [];
  info = info;
  node_interval = 60;
  report_interval = 60;
  options = record {
    name = "n";
    speed_limit = 0;
    enable_dynamic_speed_limit = false;
    dynamic_traffic = 0;
    dynamic_speed_limit = 0;
    dynamic_expire_time = 0;
  };
  limiters = record { table = []; heap = []; next = 0 };
}

abbrev silent : Answers
silent = record { node = none; users = unmodified; alive = none }

abbrev one : NodeConfig ℕ ℕ String
one = record { made = some controller; answers = silent; cert_ready = true }

abbrev nodes : List (NodeConfig ℕ ℕ String)
nodes = one ∷ one ∷ []

abbrev shared : Shared ℕ ℕ String
shared = record { server = 0; limiters = controller.limiters }

close_nodes_after_start_example :
    let run = start_nodes core compile nodes shared in
    ((close_nodes core compile run.0 shared).1 ≡ eqb (count_made run.0) (length nodes))
    × (run.2 ≡ all_started → (close_nodes core compile run.0 shared).1 ≡ true)
close_nodes_after_start_example =
    close_nodes_after_start core compile nodes shared shared (λ tag s. refl)

-- The controller of the second node is nil, and the next Close panics at it.
panics : (close_nodes core compile (start_nodes core compile nodes shared).0 shared).1 ≡ false
unfolding start_nodes start close_nodes close_node
panics = refl
