-- ===== src/Core/Check/Accepted.antt =====
-- A configuration that the check accepts, and the selector that is made of it.
use v2bx_outbound.Base.{
  ℕ, suc, String, ◌==◌, Bool, true, false, not, ◌||◌, none, some, List, [], ◌∷◌, ◌≡◌, ◌⊎◌, inl, inr,
  refl, arith, if◌then◌else◌, Bool-cases, Option-cases, get_elem?, zero,
}
use v2bx_outbound.Base.Map.{lookup, string_key}
use v2bx_outbound.Node.Controller.{NodeInfo}
use v2bx_outbound.Conf.{CoreConfig, Options, Json, NodeConfig, Conf}
use v2bx_outbound.Core.{Core}
use v2bx_outbound.Core.Selector.{
  Factory, new_cores, is_candidate, last_candidate, choose_core, Selector, select_core,
  complete_options,
}
use v2bx_outbound.Core.Check.{
  CheckError, Known, is_known, check_cores, check_chosen, check_node, check_nodes, check_config,
}
use v2bx_outbound.Core.Check.Made.{has_kind, Agree, MakesKind, new_cores-Agree}

last_candidate-fits :
    {W O : Type 0} (kind core : String) (cs : List (String × Core W O)) (c : Core W O)
    → last_candidate kind core cs ≡ some c
    → is_candidate kind core c ≡ true
unfolding last_candidate
last_candidate-fits kind core [] c e = ground (arith, e)
last_candidate-fits kind core ((name, d) ∷ cs) c e =
    elim (Option-cases (last_candidate kind core cs)) [
      | inl none_later ↦ ground (arith, e, none_later)
      | inr (later, found) ↦ ground (arith, e, found, last_candidate-fits kind core cs later found)
    ]

last_candidate-found :
    {W O : Type 0} (kind core : String) (cs : List (String × Core W O))
    → (core == "") ≡ false
    → has_kind core cs ≡ true
    → (c : Core W O) × (last_candidate kind core cs ≡ some c) × ((core == c.kind) ≡ true)
unfolding last_candidate is_candidate
last_candidate-found kind core [] named found = ground (arith, found)
last_candidate-found kind core ((name, d) ∷ cs) named found =
    elim (Option-cases (last_candidate kind core cs)) [
      | inl e ↦ elim (Bool-cases (core == d.kind)) [
        | inl same ↦ (d, ground (arith, e, named, same), same)
        | inr other ↦
            let later = last_candidate-found kind core cs named (ground (arith, found, other)) in
            ground (arith, e, later.1)
      ]
      | inr (c, e) ↦
          (c, ground (arith, e), ground (arith, named, last_candidate-fits kind core cs c e))
    ]

-- The node's options name its core, or the type of its core.
abbrev pub names_core : {X S O : Type 0} → Options X S O → Bool
names_core o = not (o.core_name == "") || not (o.core == "")

-- A node that is accepted names a core that is known, or a type.
check_node-known :
    {C X S O : Type 0} (json : Json X S O) (validators : List (String × (CoreConfig C → Bool)))
    (node_validators : List (String × (Options X S O → Bool))) (disable_iv_check : X → Bool) (i : ℕ)
    (cfgs : List (CoreConfig C)) (known : Known) (n : NodeConfig X S O)
    → check_node json validators node_validators disable_iv_check i cfgs known n ≡ none
    → (if n.options.core_name == ""
        then n.options.core == "" || is_known n.options.core known.1
        else is_known n.options.core_name known.0)
      ≡ true
unfolding check_node check_chosen
check_node-known json validators node_validators disable_iv_check i cfgs known n accepted =
    ground (arith, accepted)

check_nodes-each :
    {C X S O : Type 0} (json : Json X S O) (validators : List (String × (CoreConfig C → Bool)))
    (node_validators : List (String × (Options X S O → Bool))) (disable_iv_check : X → Bool)
    (i j : ℕ) (cfgs : List (CoreConfig C)) (known : Known) (ns : List (NodeConfig X S O))
    (n : NodeConfig X S O)
    → check_nodes json validators node_validators disable_iv_check i cfgs known ns ≡ none
    → get_elem? ns j ≡ some n
    → (k : ℕ) × (check_node json validators node_validators disable_iv_check k cfgs known n ≡ none)
unfolding check_nodes
check_nodes-each json validators node_validators disable_iv_check i j cfgs known [] n accepted at =
    ground (arith, at)
check_nodes-each json validators node_validators disable_iv_check i zero cfgs known (m ∷ ns) n
      accepted at =
    (i, ground (arith, accepted, at))
check_nodes-each json validators node_validators disable_iv_check i (suc j) cfgs known (m ∷ ns) n
      accepted at =
    check_nodes-each json validators node_validators disable_iv_check (suc i) j cfgs known ns n
      (ground (arith, accepted)) at

check_cores-cases :
    (checked : CheckError ⊎ Known)
    → ((error : CheckError) × (checked ≡ inl error)) ⊎ ((known : Known) × (checked ≡ inr known))
check_cores-cases (inl error) = inl (error, refl)
check_cores-cases (inr known) = inr (known, refl)

List-cases : {A : Type 0} (l : List A) → (l ≡ []) ⊎ ((x : A) × (xs : List A) × (l ≡ x ∷ xs))
List-cases [] = inl refl
List-cases (x ∷ xs) = inr (x, xs, refl)

start-Agree : (W O : Type 0) → Agree {W = W} {O = O} ([], []) []
unfolding lookup
start-Agree W O k = (refl, λ e. ground (arith, e))

-- An accepted configuration: what its loops found.
check_config-parts :
    {C X S O : Type 0} (json : Json X S O) (validators : List (String × (CoreConfig C → Bool)))
    (node_validators : List (String × (Options X S O → Bool))) (disable_iv_check : X → Bool)
    (conf : Conf C X S O)
    → check_config json validators node_validators disable_iv_check conf ≡ none
    → (known : Known) × (check_cores validators 0 conf.cores_config ([], []) ≡ inr known)
      × (check_nodes json validators node_validators disable_iv_check 0 conf.cores_config known
            conf.node_config
          ≡ none)
unfolding check_config
check_config-parts json validators node_validators disable_iv_check conf accepted =
    elim (check_cores-cases (check_cores validators 0 conf.cores_config ([], []))) [
      | inl (error, e) ↦ elim (List-cases conf.cores_config) [
        | inl none_there ↦ ground (arith, accepted, e, none_there)
        | inr (cfg, cfgs, there) ↦ ground (arith, accepted, e, there)
      ]
      | inr (known, e) ↦ elim (List-cases conf.cores_config) [
        | inl none_there ↦ ground (arith, accepted, e, none_there)
        | inr (cfg, cfgs, there) ↦ (known, e, ground (arith, accepted, e, there))
      ]
    ]

-- If the check accepts a configuration and its cores can be made, then selectCore finds a core for a node
-- whose options name a core or the type of a core: the core of that name, or else one of that type. For
-- options with a type it returns that core and leaves them; otherwise it may still fail to read them for
-- the core that it has found. The factories make cores of the type that is configured.
pub accepted_is_served :
    {C X S O W : Type 0} (json : Json X S O) (validators : List (String × (CoreConfig C → Bool)))
    (node_validators : List (String × (Options X S O → Bool))) (disable_iv_check : X → Bool)
    (to_lower : String → String) (factories : List (String × Factory C W (Options X S O)))
    (conf : Conf C X S O) (s : Selector W (Options X S O)) (j : ℕ) (n : NodeConfig X S O)
    (info : NodeInfo)
    → MakesKind factories
    → check_config json validators node_validators disable_iv_check conf ≡ none
    → new_cores to_lower factories conf.cores_config [] ≡ some s.cores
    → get_elem? conf.node_config j ≡ some n
    → names_core n.options ≡ true
    → let o = n.options in
      (c : Core W (Options X S O)) × (choose_core json info o s.cores ≡ some c)
      × ((o.core_name == "") ≡ false → lookup o.core_name s.cores ≡ some c)
      × ((o.core_name == "") ≡ true → (o.core == c.kind) ≡ true)
      × ((o.core == "") ≡ false → select_core json info o s ≡ (o, some c))
unfolding choose_core select_core complete_options
accepted_is_served json validators node_validators disable_iv_check to_lower factories conf s j n
      info makes_kind accepted made at named =
    let cs = s.cores in
    let parts = check_config-parts json validators node_validators disable_iv_check conf accepted in
    let node =
      check_nodes-each json validators node_validators disable_iv_check 0 j conf.cores_config
        parts.0 conf.node_config n parts.2 at in
    let known =
      check_node-known json validators node_validators disable_iv_check node.0 conf.cores_config
        parts.0 n node.1 in
    let agree =
      new_cores-Agree validators to_lower factories makes_kind 0 conf.cores_config ([], []) parts.0
        [] cs (start-Agree _ _) parts.1 made in
    elim (Bool-cases (n.options.core_name == "")) [
      | inl e ↦
          let named_kind : (n.options.core == "") ≡ false = ground (arith, named, e) in
          let found =
            last_candidate-found info.kind n.options.core cs named_kind
              ((agree n.options.core).1 (ground (arith, known, e, named_kind))) in
          (
            found.0,
            ground (arith, found.1, e),
            λ other. ground (arith, other, e),
            λ same. found.2,
            λ typed. ground (arith, found.1, e, typed),
          )
      | inr e ↦ elim (Option-cases (lookup n.options.core_name cs)) [
        | inl missing ↦ ground (arith, missing, known, e, agree n.options.core_name)
        | inr (c, found) ↦ (
          c,
          ground (arith, found, e),
          λ other. found,
          λ same. ground (arith, same, e),
          λ typed. ground (arith, found, e, typed),
        )
      ]
    ]
