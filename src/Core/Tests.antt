-- ===== src/Core/Tests.antt =====
-- A configuration of two cores and a node that names one of them.
use v2bx_outbound.Base.{
  ℕ, String, ◌==◌, Bool, true, false, Option, none, some, List, [], ◌∷◌, ◌≡◌, refl, arith, sym, ap,
  ◌∙◌,
}
use v2bx_outbound.Base.Map.{lookup, insert, string_key}
use v2bx_outbound.Node.Controller.{NodeInfo}
use v2bx_outbound.Conf.{CoreConfig, Options, Json, NodeConfig, Conf}
use v2bx_outbound.Core.{Core}
use v2bx_outbound.Core.Selector.{
  Selector, Factory, new_cores, is_candidate, last_candidate, choose_core, complete_options,
  select_core, add_node, del_node,
}
use v2bx_outbound.Core.Selector.Route.{add_node_del_node}
use v2bx_outbound.Core.Check.{check_cores, check_chosen, check_node, check_nodes, check_config}
use v2bx_outbound.Core.Check.Made.{MakesKind}
use v2bx_outbound.Core.Check.Accepted.{accepted_is_served}

abbrev Opts : Type 0
Opts = Options ℕ ℕ ℕ

-- A core that counts the nodes it has.
abbrev core_of : String → List String → Core ℕ Opts
core_of kind protocols = record {
  start = λ w. (w, true);
  close = λ w. (w, true);
  add_node = λ tag info o w. (w, true);
  del_node = λ tag w. (w, true);
  add_users = λ tag users info w. (w, some 0);
  get_user_traffic_slice = λ tag reset w. (w, some []);
  del_users = λ users tag info w. (w, true);
  protocols = protocols;
  kind = kind;
  validate_node = none;
  snapshot_node_state = none;
}

abbrev make : Factory ℕ ℕ Opts
make cfg = some (core_of cfg.kind ("vless" ∷ []))

abbrev factories : List (String × Factory ℕ ℕ Opts)
factories = ("xray", make) ∷ ("sing", make) ∷ []

abbrev takes : CoreConfig ℕ → Bool
takes cfg = true

abbrev validators : List (String × (CoreConfig ℕ → Bool))
validators = ("xray", takes) ∷ ("sing", takes) ∷ []

abbrev json : Json ℕ ℕ ℕ
json = record {
  unmarshal = λ raw o. (o, true);
  new_xray_options = 0;
  unmarshal_xray = λ raw x. (x, true);
  new_sing_options = 0;
  unmarshal_sing = λ raw x. (x, true);
}

abbrev options : Opts
options = record {
  core = "sing";
  core_name = "";
  raw_options = "";
  xray_options = none;
  sing_options = some 1;
  rest = 0;
}

abbrev node_config : NodeConfig ℕ ℕ ℕ
node_config = record {
  api_config = record { api_host = "https://panel"; node_id = 1; key = "k" };
  options = options;
}

abbrev conf : Conf ℕ ℕ ℕ ℕ
conf = record {
  cores_config =
      record { kind = "xray"; name = ""; settings = 0 }
      ∷ record { kind = "sing"; name = "second"; settings = 0 }
      ∷ [];
  node_config = node_config ∷ [];
}

abbrev made : List (String × Core ℕ Opts)
made = ("xray", core_of "xray" ("vless" ∷ [])) ∷ ("second", core_of "sing" ("vless" ∷ [])) ∷ []

abbrev node : NodeInfo
node = record {
  response_hash = "";
  response_etag = "";
  id = 1;
  kind = "vless";
  security = 0;
  push_interval = 60;
  pull_interval = 60;
  rules = record { regexp = []; protocol = [] };
}

abbrev same : String → String
same s = s

abbrev node_validators : List (String × (Opts → Bool))
node_validators = []

abbrev disables : ℕ → Bool
disables x = false

found_make : (k : String) (f : Factory ℕ ℕ Opts) → lookup k factories ≡ some f → make ≡ f
unfolding lookup
found_make k f found = ground (arith, found)

abbrev kind_of : String → Option (Core ℕ Opts) → String
kind_of kind none = kind
kind_of kind (some c) = c.kind

factories-MakesKind : MakesKind factories
factories-MakesKind k f cfg c found result =
    sym (ap (λ g. kind_of cfg.kind (g cfg)) (found_make k f found) ∙ ap (kind_of cfg.kind) result)

conf_accepted : check_config json validators node_validators disables conf ≡ none
unfolding check_config check_cores check_nodes check_node check_chosen lookup insert
conf_accepted = refl

cores_made : new_cores same factories conf.cores_config [] ≡ some made
unfolding new_cores lookup insert
cores_made = refl

abbrev selector : Selector ℕ Opts
selector = record { cores = made; nodes = [] }

accepted_is_served_example :
    (c : Core ℕ Opts) × (choose_core json node options selector.cores ≡ some c)
    × ((options.core_name == "") ≡ false → lookup options.core_name selector.cores ≡ some c)
    × ((options.core_name == "") ≡ true → (options.core == c.kind) ≡ true)
    × ((options.core == "") ≡ false → select_core json node options selector ≡ (options, some c))
accepted_is_served_example =
    accepted_is_served json validators node_validators disables same factories conf selector 0
      node_config node factories-MakesKind conf_accepted cores_made refl refl

no_node : lookup "n" selector.nodes ≡ none
unfolding lookup
no_node = refl

node_added : (add_node json "n" node options (selector, 0)).2 ≡ true
unfolding add_node select_core choose_core last_candidate is_candidate complete_options
node_added = refl

node_deleted : (del_node "n" (add_node json "n" node options (selector, 0)).1).1 ≡ true
unfolding add_node select_core choose_core last_candidate is_candidate complete_options del_node
    lookup insert
node_deleted = refl

add_node_del_node_example :
    let r = (add_node json "n" node options (selector, 0)).1 in
    let d = (del_node "n" r).0 in
    (lookup "m" d.0.nodes ≡ lookup "m" selector.nodes)
    × (c : Core ℕ Opts) × ((select_core json node options selector).1 ≡ some c)
    × (d.1 ≡ (c.del_node "n" r.1).0)
add_node_del_node_example =
    add_node_del_node json "n" node options selector 0 "m" no_node node_added node_deleted
