-- ===== src/Core/Check.antt =====
-- core/check.go and NewCore of core/core.go: the check of a configuration before cores are made of it.
-- The validators are those that the cores register.
pub mod Made
pub mod Accepted
use v2bx_outbound.Base.{
  ℕ, suc, String, ◌==◌, Bool, true, false, not, ◌&&◌, ◌||◌, Option, none, some, List, [], ◌∷◌, ◌⊎◌,
  inl, inr, length, eqb, leb, if◌then◌else◌, slt,
}
use v2bx_outbound.Base.Map.{lookup, insert, value, string_key}
use v2bx_outbound.Conf.{CoreConfig, Options, Json, ApiConfig, NodeConfig, Conf, unmarshal_json}
use v2bx_outbound.Core.{Core}
use v2bx_outbound.Core.Selector.{Selector, Factory, new_selector}

-- The error of the check; a number counts the cores or the nodes.
pub data CheckError : Type 0 where
  no_cores : CheckError
  duplicate_core_name : (name : String) → CheckError
  unsupported_core : (kind : String) → CheckError
  invalid_core : (i : ℕ) (kind : String) → CheckError
  unknown_core_name : (i : ℕ) → CheckError
  core_not_configured : (i : ℕ) → CheckError
  bad_options : (i : ℕ) → CheckError
  invalid_node : (i : ℕ) → CheckError
  iv_check_disabled : (i : ℕ) → CheckError
  missing_panel_settings : (i : ℕ) → CheckError
  core_unavailable : (i : ℕ) → CheckError

-- The type of each named core, and the types that there are.
abbrev pub Known : Type 0
Known = List (String × String) × List (String × Bool)

abbrev pub is_known : {V : Type 0} → String → List (String × V) → Bool
is_known k m = elim (lookup k m) [ none ↦ false | some v ↦ true ]

module _ {C : Type 0} (validators : List (String × (CoreConfig C → Bool))) where
  -- The loop over the cores.
  unfoldable pub check_cores : ℕ → List (CoreConfig C) → Known → CheckError ⊎ Known
  check_cores i [] known = inr known
  check_cores i (cfg ∷ cfgs) (names, types) =
      let name = if cfg.name == "" then cfg.kind else cfg.name in
      let known : Known = (insert name cfg.kind names, insert cfg.kind true types) in
      let rest = check_cores (suc i) cfgs known in
      if is_known name names
      then inl (duplicate_core_name name)
      else elim (lookup cfg.kind validators) [
        | none ↦ inl (unsupported_core cfg.kind)
        | some validate ↦ if validate cfg then rest else inl (invalid_core i cfg.kind)
      ]

-- The only core, for a node that chooses none.
abbrev pub only_core : {C : Type 0} → List (CoreConfig C) → String
only_core (cfg ∷ []) = cfg.kind
only_core cfgs = ""

module _ {C X S O : Type 0} (json : Json X S O) (validators : List (String × (CoreConfig C → Bool)))
    (node_validators : List (String × (Options X S O → Bool))) (disable_iv_check : X → Bool) where
  -- What is checked of a node once the type of its core is chosen.
  unfoldable pub check_chosen : ℕ → Known → String → NodeConfig X S O → Option CheckError
  check_chosen i known chosen n =
      let read = unmarshal_json json n.options.raw_options (record n.options { core = chosen }) in
      let completes =
        n.options.core == "" && not (chosen == "") && not (n.options.raw_options == "") in
      let options = if completes then read.0 else n.options in
      let is_valid : Bool = elim (lookup chosen node_validators) [
        | none ↦ true
        | some validate ↦ validate options
      ] in
      let disables : Bool = elim options.xray_options [
        | none ↦ false
        | some xray ↦ disable_iv_check xray
      ] in
      let api = n.api_config in
      if not (chosen == "") && not (is_known chosen known.1)
      then some (core_not_configured i)
      else if completes && not read.1
      then some (bad_options i)
      else if not is_valid
      then some (invalid_node i)
      else if disables
      then some (iv_check_disabled i)
      else if not (slt 0 api.node_id) || api.api_host == "" || api.key == ""
      then some (missing_panel_settings i)
      else if not (options.core == "") && not (is_known options.core validators)
      then some (core_unavailable i)
      else none

  unfoldable pub check_node : ℕ → List (CoreConfig C) → Known → NodeConfig X S O → Option CheckError
  check_node i cfgs known n =
      let check : String → Option CheckError =
        λ chosen. check_chosen i known (if chosen == "" then only_core cfgs else chosen) n in
      if n.options.core_name == ""
      then check n.options.core
      else elim (lookup n.options.core_name known.0) [
        | none ↦ some (unknown_core_name i)
        | some chosen ↦ check chosen
      ]

  -- The loop over the nodes.
  unfoldable pub check_nodes :
      ℕ → List (CoreConfig C) → Known → List (NodeConfig X S O) → Option CheckError
  check_nodes i cfgs known [] = none
  check_nodes i cfgs known (n ∷ ns) =
      let rest = check_nodes (suc i) cfgs known ns in
      elim (check_node i cfgs known n) [ none ↦ rest | some error ↦ some error ]

  unfoldable pub check_config : Conf C X S O → Option CheckError
  check_config c = elim c.cores_config [
    | [] ↦ some no_cores
    | cfg ∷ cfgs ↦ elim (check_cores validators 0 c.cores_config ([], [])) [
      | inl error ↦ some error
      | inr known ↦ check_nodes 0 c.cores_config known c.node_config
    ]
  ]

-- NewCore: what makes one core of the configured ones, or `none` for an error. Several are a selector.
pub data NewCore (W O : Type 0) : Type 0 where
  one_core : Core W O → NewCore W O
  multi_core : Selector W O → NewCore W O

unfoldable pub new_core :
    {C W O : Type 0}
    → (String → String)
    → List (String × Factory C W O)
    → List (CoreConfig C)
    → Option (NewCore W O)
new_core to_lower factories [] = none
new_core to_lower factories (c ∷ []) = elim (lookup c.kind factories) [
  | none ↦ none
  | some f ↦ elim (f c) [ none ↦ none | some core1 ↦ some (one_core core1) ]
]
new_core to_lower factories (c ∷ d ∷ cs) = elim (new_selector to_lower factories (c ∷ d ∷ cs)) [
  | none ↦ none
  | some s ↦ some (multi_core s)
]
