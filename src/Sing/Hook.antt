-- ===== src/Sing/Hook.antt =====
-- core/sing/connections.go and hook.go: which connections a user may open, and which are open. An
-- open connection is a number under which the map has its user key; a packet connection likewise.
pub mod Routed
use v2bx_outbound.Base.{
  ℕ, String, ◌<>◌, ◌==◌, Bool, true, false, not, ◌&&◌, Option, none, some, List, [], ◌∷◌,
  if◌then◌else◌,
}
use v2bx_outbound.Base.Map.{lookup, insert, delete, value, string_key, int_key}
use v2bx_outbound.Panel.{user_tag}
use v2bx_outbound.Limiter.{Limiter}
use v2bx_outbound.Limiter.Check.{check_limit}
use v2bx_outbound.Limiter.Rules.{check_domain_rule, check_protocol_rule}
use v2bx_outbound.Limiter.Registry.{Limiters, get_limiter, deref, assign}
use v2bx_outbound.Counter.{TrafficCounter, new_traffic_counter, get_counter}

-- A set is a map to the one value of `Unit`.
pub record Hook : Type 0 where
  pub active_users : List (String × Unit {0})
  pub managed_nodes : List (String × Unit {0})
  pub connections : List (ℕ × String)
  pub counter : List (String × TrafficCounter)

unfoldable pub user_key : String → String → String
user_key tag user = tag <> ("\0" <> user)

abbrev pub has {κ} : {V : Type κ} → String → List (String × V) → Bool
has k m = elim (lookup k m) [ none ↦ false | some v ↦ true ]

unfoldable pub allowed : String → String → Hook → Bool
allowed tag user h =
    if not (has tag h.managed_nodes) then true else has (user_key tag user) h.active_users

-- Close of each open connection with the key; a connection takes itself off the map.
unfoldable pub close_all : String → List (ℕ × String) → List (ℕ × String)
close_all key [] = []
close_all key ((conn, identity) ∷ open_conns) =
    let rest = close_all key open_conns in if identity == key then rest else (conn, identity) ∷ rest

unfoldable pub revoke : String → String → Hook → Hook
revoke tag user h =
    let key = user_key tag user in
    record h { active_users = delete key h.active_users; connections = close_all key h.connections }

-- What becomes of a connection: it is closed, handed on as it is, or handed on tracked, with the
-- bucket that limits it.
pub data Fate (B : Type 0) : Type 0 where
  closed : Fate B
  untracked : Fate B
  tracked : Option B → Fate B

-- The counter of the node, a new one if there is none, with the user's storage in it.
unfoldable pub count_user : String → String → Hook → Hook
count_user tag user h =
    let c = value (lookup tag h.counter) new_traffic_counter in
    record h { counter = insert tag (get_counter user c).0 h.counter }

-- The end of a routing: the connection is stored, and the user looked up again.
unfoldable pub track : {B : Type 0} → ℕ → String → String → Option B → Hook → Hook × Fate B
track conn tag user bucket h =
    let counted = count_user tag user h in
    let stored = record counted {
      connections = insert conn (user_key tag user) counted.connections;
    } in
    if allowed tag user stored
    then (stored, tracked bucket)
    else (record stored { connections = delete conn stored.connections }, closed)

-- The rules reject the destination or the protocol.
abbrev pub is_ruled_out :
    {B R : Type 0} → (R → String → Bool) → String → String → Limiter B R → Bool
is_ruled_out match_string destination protocol l =
    if check_domain_rule match_string destination l
    then true
    else not (protocol == "") && check_protocol_rule protocol l

module _ {B R : Type 0} (new_bucket : ℕ → B) (match_string : R → String → Bool) (conn : ℕ)
    (tag user ip destination protocol : String) (now : ℕ) where
  -- What follows CheckLimit.
  unfoldable pub after_check :
      Bool
      → ℕ
      → Hook
      → Limiters B R
      → Limiter B R × Option B × Bool
      → (Hook × Limiters B R) × Fate B
  after_check is_limited ref h t (l, bucket, reject) =
      let t' = assign ref l t in
      let last = track conn tag user (if is_limited then bucket else none) h in
      if reject
      then ((h, t'), closed)
      else if is_ruled_out match_string destination protocol l
      then ((h, t'), closed)
      else ((last.0, t'), last.1)

  -- RoutedConnection and RoutedPacketConnection. They differ in the Boolean arguments of CheckLimit,
  -- in where the protocol comes from, and in that a packet connection is not limited.
  unfoldable pub routed : Bool → Bool → Bool → Hook × Limiters B R → (Hook × Limiters B R) × Fate B
  routed is_tcp no_ss_udp is_limited (h, t) =
      let known : (Hook × Limiters B R) × Fate B = elim (get_limiter tag t) [
        | none ↦ ((h, t), untracked)
        | some ref ↦ elim (deref ref t) [
          | none ↦ ((h, t), untracked)
          | some l ↦
              after_check is_limited ref h t
                (check_limit new_bucket (user_tag tag user) ip is_tcp no_ss_udp now l)
        ]
      ] in
      if not (allowed tag user h) then ((h, t), closed) else known

  unfoldable pub routed_connection : Hook × Limiters B R → (Hook × Limiters B R) × Fate B
  routed_connection = routed true true true

  unfoldable pub routed_packet_connection : Hook × Limiters B R → (Hook × Limiters B R) × Fate B
  routed_packet_connection = routed false false false
