-- ===== src/Sing/Legacy/Unblocked.antt =====
-- What is left of the blocks of an old configuration.
use v2bx_outbound.Base.{String, Bool, false, Option, none, some, List, ◌≡◌}
use v2bx_outbound.Sing.Legacy.{Fields, get, as_array, as_object, is_final_blocked}
use v2bx_outbound.Sing.Legacy.Rejected.{sends_to}

-- A rule of the route, at any depth, sends to one of the tags.
abbrev pub rules_send_to : List String → Fields → Bool
rules_send_to blocks config = elim (as_object (get "route" config)) [
  | none ↦ false
  | some route ↦ elim (as_array (get "rules" route)) [
    | none ↦ false
    | some rules ↦ sends_to blocks rules
  ]
]

-- No rule sends to one of the tags, and the final outbound is that of another configuration.
abbrev IsRewritten : List String → Fields → Option Fields → Type 0
IsRewritten blocks config none = Unit
IsRewritten blocks config (some c) =
    (rules_send_to blocks c ≡ false) × (is_final_blocked blocks c ≡ is_final_blocked blocks config)

-- The blocks are out of use.
abbrev IsUnblocked : List String → Option Fields → Type 0
IsUnblocked blocks none = Unit
IsUnblocked blocks (some config) =
    (rules_send_to blocks config ≡ false) × (is_final_blocked blocks config ≡ false)
