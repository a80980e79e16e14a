-- ===== src/Core/Selector.antt =====
-- core/selector.go: the core that stands for several, and sends each node to the one that serves it.
-- Go ranges over the cores in any order; the order of the list is one of them.
pub mod Route
use v2bx_outbound.Base.{
  ℕ, String, ◌<>◌, ◌==◌, Bool, true, false, not, ◌&&◌, Option, none, some, List, [], ◌∷◌, ◌++◌,
  if◌then◌else◌,
}
use v2bx_outbound.Base.Map.{lookup, insert, delete, value, string_key}
use v2bx_outbound.Panel.{UserInfo, UserTraffic}
use v2bx_outbound.Node.Controller.{NodeInfo}
use v2bx_outbound.Conf.{CoreConfig, Options, Json, unmarshal_json}
use v2bx_outbound.Core.{Core}

pub record Selector (W O : Type 0) : Type 0 where
  pub cores : List (String × Core W O)
  pub nodes : List (String × Core W O)

-- A factory reads its configuration and makes a core, or fails.
abbrev pub Factory : Type 0 → Type 0 → Type 0 → Type 0
Factory C W O = CoreConfig C → Option (Core W O)

-- The loop of NewSelector.
unfoldable pub new_cores :
    {C W O : Type 0}
    → (String → String)
    → List (String × Factory C W O)
    → List (CoreConfig C)
    → List (String × Core W O)
    → Option (List (String × Core W O))
new_cores to_lower factories [] cs = some cs
new_cores to_lower factories (t ∷ ts) cs =
    let name = if t.name == "" then t.kind else t.name in
    elim (lookup (to_lower t.kind) factories) [
      | none ↦ none
      | some f ↦ elim (f t) [
        | none ↦ none
        | some core1 ↦ new_cores to_lower factories ts (insert name core1 cs)
      ]
    ]

unfoldable pub new_selector :
    {C W O : Type 0}
    → (String → String)
    → List (String × Factory C W O)
    → List (CoreConfig C)
    → Option (Selector W O)
new_selector to_lower factories c = elim (new_cores to_lower factories c []) [
  | none ↦ none
  | some cs ↦ some (record { cores = cs; nodes = [] })
]

unfoldable pub is_supported : String → List String → Bool
is_supported protocol [] = false
is_supported protocol (p ∷ protocols) =
    if protocol == p then true else is_supported protocol protocols

module _ {W O : Type 0} where
  -- The first error ends the loop.
  unfoldable pub start_cores : List (String × Core W O) → W → W × Bool
  start_cores [] w = (w, true)
  start_cores ((name, c) ∷ cs) w =
      let started = c.start w in
      let rest = start_cores cs started.0 in if started.1 then rest else started

  -- Every core is closed; the errors are joined.
  unfoldable pub close_cores : List (String × Core W O) → W → W × Bool
  close_cores [] w = (w, true)
  close_cores ((name, c) ∷ cs) w =
      let closed = c.close w in let rest = close_cores cs closed.0 in (rest.0, closed.1 && rest.1)

  unfoldable pub all_protocols : List (String × Core W O) → List String
  all_protocols [] = []
  all_protocols ((name, c) ∷ cs) = c.protocols ++ all_protocols cs

  -- The core is one for the node, by its type if the options name one, and by its protocols if not.
  unfoldable pub is_candidate : String → String → Core W O → Bool
  is_candidate kind core c = if core == "" then is_supported kind c.protocols else core == c.kind

  -- The loop of selectCore, which goes on to the last candidate.
  unfoldable pub last_candidate : String → String → List (String × Core W O) → Option (Core W O)
  last_candidate kind core [] = none
  last_candidate kind core ((name, c) ∷ cs) = elim (last_candidate kind core cs) [
    | some later ↦ some later
    | none ↦ if is_candidate kind core c then some c else none
  ]

module _ {X S O W : Type 0} (json : Json X S O) where
  -- selectCore before it reads the options.
  unfoldable pub choose_core :
      NodeInfo
      → Options X S O
      → List (String × Core W (Options X S O))
      → Option (Core W (Options X S O))
  choose_core info option cores =
      if option.core_name == ""
      then last_candidate info.kind option.core cores
      else lookup option.core_name cores

  -- `option.UnmarshalJSON(option.RawOptions)`, if the options name no core.
  unfoldable pub complete_options : Core W (Options X S O) → Options X S O → Options X S O × Bool
  complete_options core option =
      let read = unmarshal_json json option.raw_options (record option { core = core.kind }) in
      let read_options = read.0 in
      if option.core == ""
      then (if read.1 then (record read_options { raw_options = "" }, true) else read)
      else (option, true)

  -- The options as the call leaves them, and the core, or `none` for an error.
  unfoldable pub select_core :
      NodeInfo
      → Options X S O
      → Selector W (Options X S O)
      → Options X S O × Option (Core W (Options X S O))
  select_core info option s = elim (choose_core info option s.cores) [
    | none ↦ (option, none)
    | some core ↦
        let completed = complete_options core option in
        (completed.0, if completed.1 then some core else none)
  ]

  unfoldable pub validate_node :
      String → NodeInfo → Options X S O → Selector W (Options X S O) → W → Bool
  validate_node tag info option s w =
      let selected = select_core info option s in
      elim selected.1 [
        | none ↦ false
        | some core ↦ elim core.validate_node [
          | none ↦ false
          | some validate ↦ validate tag info selected.0 w
        ]
      ]

  -- The options as the call leaves them, the selector, the state, and whether there was no error.
  unfoldable pub add_node :
      String
      → NodeInfo
      → Options X S O
      → Selector W (Options X S O) × W
      → Options X S O × (Selector W (Options X S O) × W) × Bool
  add_node tag info option (s, w) =
      let selected = select_core info option s in
      elim selected.1 [
        | none ↦ (selected.0, (s, w), false)
        | some core ↦
            let added = core.add_node tag info selected.0 w in
            let s' = if added.1 then record s { nodes = insert tag core s.nodes } else s in
            (selected.0, (s', added.0), added.1)
      ]

  -- What restores the node, or `none` for an error; a core that takes no snapshots needs none.
  unfoldable pub snapshot_node_state :
      String → NodeInfo → Options X S O → Selector W (Options X S O) × W → Option (W → W × Bool)
  snapshot_node_state tag info options (s, w) =
      let selected : Option (Core W (Options X S O)) = elim (lookup tag s.nodes) [
        | none ↦ (select_core info options s).1
        | some core ↦ some core
      ] in
      elim selected [
        | none ↦ none
        | some core ↦ elim core.snapshot_node_state [
          | none ↦ some (λ w'. (w', true))
          | some snapshot ↦ snapshot tag info options w
        ]
      ]

module _ {W O : Type 0} where
  unfoldable pub del_node : String → Selector W O × W → (Selector W O × W) × Bool
  del_node tag (s, w) = elim (lookup tag s.nodes) [
    | none ↦ ((s, w), false)
    | some t ↦
        let deleted = t.del_node tag w in
        let s' = if deleted.1 then record s { nodes = delete tag s.nodes } else s in
        ((s', deleted.0), deleted.1)
  ]

  unfoldable pub add_users : String → List UserInfo → NodeInfo → Selector W O → W → W × Option ℕ
  add_users tag users info s w = elim (lookup tag s.nodes) [
    | none ↦ (w, none)
    | some t ↦ t.add_users tag users info w
  ]

  unfoldable pub get_user_traffic_slice :
      String → Bool → Selector W O → W → W × Option (List UserTraffic)
  get_user_traffic_slice tag reset s w = elim (lookup tag s.nodes) [
    | none ↦ (w, none)
    | some t ↦ t.get_user_traffic_slice tag reset w
  ]

  unfoldable pub del_users : List UserInfo → String → NodeInfo → Selector W O → W → W × Bool
  del_users users tag info s w = elim (lookup tag s.nodes) [
    | none ↦ (w, false)
    | some t ↦ t.del_users users tag info w
  ]
