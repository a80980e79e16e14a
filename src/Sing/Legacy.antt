-- ===== src/Sing/Legacy.antt =====
-- core/sing/config_compat.go: normalizeLegacyConfig, from the decoded configuration to the one that is
-- encoded. An object is its fields, each name once; netip.ParseAddr is an argument.
pub mod Lookups
pub mod Stable
pub mod Idempotent
pub mod Rejected
pub mod Unblocked
mod Tests
use v2bx_outbound.Base.{
  ℕ, suc, String, ◌==◌, Bool, true, false, not, ◌&&◌, ◌||◌, Option, none, some, List, [], ◌∷◌, eqb,
  if◌then◌else◌,
}

-- A value of JSON, as encoding/json decodes it; a number is its text.
mutual
  pub data Value : Type 0 where
    null : Value
    bool : Bool → Value
    number : String → Value
    string : String → Value
    array : Items → Value
    object : Fields → Value

  pub data Items : Type 0 where
    nil : Items
    cons : Value → Items → Items

  pub data Fields : Type 0 where
    end : Fields
    field : String → Value → Fields → Fields

-- Maps: the value at a key, assignment, delete, and len.
unfoldable pub get : String → Fields → Option Value
get k end = none
get k (field j v f) = let rest = get k f in if j == k then some v else rest

unfoldable pub put : String → Value → Fields → Fields
put k v end = field k v end
put k v (field j w f) = let rest = put k v f in if j == k then field j v f else field j w rest

unfoldable pub remove : String → Fields → Fields
remove k end = end
remove k (field j v f) = let rest = remove k f in if j == k then rest else field j v rest

unfoldable pub len : Fields → ℕ
len end = 0
len (field j v f) = suc (len f)

-- Type assertions.
unfoldable pub as_string : Option Value → Option String
as_string (some (string s)) = some s
as_string v = none

unfoldable pub as_array : Option Value → Option Items
as_array (some (array items)) = some items
as_array v = none

unfoldable pub as_object : Option Value → Option Fields
as_object (some (object f)) = some f
as_object v = none

-- `s == text` for a value that may be no text, and `blocks[s]`.
abbrev pub is_text : String → Option String → Bool
is_text text none = false
is_text text (some s) = s == text

abbrev pub is_one_of : List String → String → Bool
is_one_of [] s = false
is_one_of (block ∷ blocks) s = block == s || is_one_of blocks s

abbrev pub is_blocked : List String → Option String → Bool
is_blocked blocks none = false
is_blocked blocks (some s) = is_one_of blocks s

-- An outbound in front of those that were split: kept, or a block with its tag.
unfoldable pub split_outbound : Fields → Option (Items × List String) → Option (Items × List String)
split_outbound outbound none = none
split_outbound outbound (some (kept, blocks)) =
    let block : Option (Items × List String) = elim (as_string (get "tag" outbound)) [
      | none ↦ none
      | some tag ↦
          if tag == "" || not (eqb (len outbound) 2) then none else some (kept, tag ∷ blocks)
    ] in
    if is_text "block" (as_string (get "type" outbound))
    then block
    else some (cons (object outbound) kept, blocks)

-- The loop over the outbounds; `none` is an error.
unfoldable pub split_outbounds : Items → Option (Items × List String)
split_outbounds nil = some (nil, [])
split_outbounds (cons (object outbound) rest) = split_outbound outbound (split_outbounds rest)
split_outbounds (cons v rest) = none

-- A rule, after its nested rules: `none` for an error.
unfoldable pub reject_rule : List String → Fields → Option Fields
reject_rule blocks rule =
    let conflicts = elim (as_string (get "action" rule)) as (λ a. Bool) [
      | none ↦ false
      | some action ↦ not (action == "route")
    ] in
    let rejected = put "action" (string "reject") (remove "outbound" rule) in
    if is_blocked blocks (as_string (get "outbound" rule))
    then if conflicts then none else some rejected
    else some rule

abbrev pub with_field : String → Option Value → Option Fields → Option Fields
with_field k none f = none
with_field k (some v) none = none
with_field k (some v) (some f) = some (field k v f)

abbrev pub with_rule : Option Fields → Option Items → Option Items
with_rule none rest = none
with_rule (some rule) none = none
with_rule (some rule) (some rest) = some (cons (object rule) rest)

abbrev pub then_reject : List String → Option Fields → Option Fields
then_reject blocks none = none
then_reject blocks (some rule) = reject_rule blocks rule

abbrev pub as_value : Option Items → Option Value
as_value none = none
as_value (some items) = some (array items)

-- rewrite, and its call on the field "rules" of a rule.
unfoldable mutual
  pub rewrite : List String → Items → Option Items
  rewrite blocks nil = some nil
  rewrite blocks (cons (object rule) rest) =
      with_rule (then_reject blocks (rewrite_fields blocks rule)) (rewrite blocks rest)
  rewrite blocks (cons v rest) = none

  pub rewrite_fields : List String → Fields → Option Fields
  rewrite_fields blocks end = some end
  rewrite_fields blocks (field k v f) =
      let nested = rewrite_value blocks v in
      with_field k (if k == "rules" then nested else some v) (rewrite_fields blocks f)

  pub rewrite_value : List String → Value → Option Value
  rewrite_value blocks (array items) = as_value (rewrite blocks items)
  rewrite_value blocks v = some v

-- A member of a group is a block.
unfoldable pub has_member : List String → Items → Bool
has_member blocks nil = false
has_member blocks (cons v rest) = is_blocked blocks (as_string (some v)) || has_member blocks rest

-- The loop over what is kept.
unfoldable pub groups_refer : List String → Items → Bool
groups_refer blocks nil = false
groups_refer blocks (cons v rest) =
    let refers = elim (as_object (some v)) as (λ o. Bool) [
      | none ↦ false
      | some out ↦ elim (as_array (get "outbounds" out)) as (λ o. Bool) [
        | none ↦ false
        | some members ↦ has_member blocks members
      ]
    ] in
    refers || groups_refer blocks rest

-- Only the fields of the old form.
unfoldable pub is_legacy_server : Fields → Bool
is_legacy_server end = true
is_legacy_server (field k v f) = (k == "address" || k == "tag") && is_legacy_server f

abbrev pub with_entry : Option Value → Option Items → Option Items
with_entry none rest = none
with_entry (some v) none = none
with_entry (some v) (some rest) = some (cons v rest)

abbrev pub object_of : Option Fields → Option Value
object_of none = none
object_of (some f) = some (object f)

-- The rules of the route.
unfoldable pub migrate_rules : List String → Fields → Option Fields
migrate_rules blocks config = elim (as_object (get "route" config)) [
  | none ↦ some config
  | some route ↦ elim (as_array (get "rules" route)) [
    | none ↦ some config
    | some rules ↦ elim (rewrite blocks rules) [
      | none ↦ none
      | some rules' ↦ some (put "route" (object (put "rules" (array rules') route)) config)
    ]
  ]
]

unfoldable pub is_final_blocked : List String → Fields → Bool
is_final_blocked blocks config = elim (as_object (get "route" config)) [
  | none ↦ false
  | some route ↦ is_blocked blocks (as_string (get "final" route))
]

-- The part for a configuration with blocks.
unfoldable pub migrate_blocks : Items → List String → Fields → Option Fields
migrate_blocks kept blocks config =
    let rewritten = migrate_rules blocks (put "outbounds" (array kept) config) in
    if is_final_blocked blocks config
    then none
    else if groups_refer blocks kept
    then none
    else rewritten

-- `config["outbounds"].([]any)`, which is nil for anything else.
unfoldable pub outbounds_of : Fields → Items
outbounds_of config = elim (as_array (get "outbounds" config)) [ none ↦ nil | some items ↦ items ]

module _ (is_addr : String → Bool) where
  -- A server with an address that is a text.
  unfoldable pub migrate_server : String → Fields → Option Fields
  migrate_server address server =
      let udp = put "server" (string address) (put "type" (string "udp") server) in
      if not (is_legacy_server server)
      then none
      else if address == "local"
      then some (remove "address" (put "type" (string "local") server))
      else if is_addr address
      then some (remove "address" udp)
      else none

  unfoldable pub migrate_entry : Value → Option Value
  migrate_entry (object server) = elim (as_string (get "address" server)) [
    | none ↦ some (object server)
    | some address ↦ object_of (migrate_server address server)
  ]
  migrate_entry v = some v

  -- The loop over the servers.
  unfoldable pub migrate_servers : Items → Option Items
  migrate_servers nil = some nil
  migrate_servers (cons v rest) = with_entry (migrate_entry v) (migrate_servers rest)

  -- The part on "dns".
  unfoldable pub migrate_dns : Fields → Option Fields
  migrate_dns config = elim (as_object (get "dns" config)) [
    | none ↦ some config
    | some dns ↦ elim (as_array (get "servers" dns)) [
      | none ↦ some config
      | some servers ↦ elim (migrate_servers servers) [
        | none ↦ none
        | some servers' ↦ some (put "dns" (object (put "servers" (array servers') dns)) config)
      ]
    ]
  ]

  unfoldable pub normalize : Fields → Option Fields
  normalize config = elim (split_outbounds (outbounds_of config)) [
    | none ↦ none
    | some (kept, []) ↦ migrate_dns config
    | some (kept, block ∷ blocks) ↦ elim (migrate_blocks kept (block ∷ blocks) config) [
      | none ↦ none
      | some migrated ↦ migrate_dns migrated
    ]
  ]

  -- With what reads the bytes, comments trimmed, and json.Marshal.
  unfoldable pub normalize_legacy_config :
      {D : Type 0} → (D → Option Fields) → (Fields → D) → D → Option D
  normalize_legacy_config decode encode bytes = elim (decode bytes) [
    | none ↦ none
    | some config ↦ elim (normalize config) [ none ↦ none | some migrated ↦ some (encode migrated) ]
  ]
