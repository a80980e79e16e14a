-- ===== src/Hy2.antt =====
-- core/hy2: the users of the Hysteria core and the hook that counts their traffic. The servers of the
-- library are a state of their own; one table of users serves all nodes.
pub mod Refusal
use v2bx_outbound.Base.{
  ℕ, String, ◌==◌, Bool, true, false, Option, none, some, List, [], ◌∷◌, length, mul_int,
  if◌then◌else◌,
}
use v2bx_outbound.Base.Map.{lookup, insert, delete, value, string_key}
use v2bx_outbound.Panel.{UserInfo, UserTraffic, user_tag}
use v2bx_outbound.Limiter.{Limiter, UserLimitInfo}
use v2bx_outbound.Limiter.Registry.{Limiters, get_limiter, deref, assign}
use v2bx_outbound.Counter.{TrafficCounter, new_traffic_counter, remove, rx, tx}
use v2bx_outbound.Xray.{read_counters}

pub record HookServer : Type 0 where
  pub tag : String
  pub counter : List (String × TrafficCounter)
  pub report_min_traffic_bytes : ℕ

-- The core: the users of its authenticator, and the hook of each node.
pub record Hysteria2 : Type 0 where
  pub users_map : List (String × ℕ)
  pub hy2nodes : List (String × HookServer)

unfoldable pub authenticate : String → Hysteria2 → Bool × String
authenticate auth h = elim (lookup auth h.users_map) [ none ↦ (false, "") | some id ↦ (true, auth) ]

-- Each user is stored by a goroutine of its own, under the lock; the list is the order they run in.
unfoldable pub put_ids : List UserInfo → List (String × ℕ) → List (String × ℕ)
put_ids [] m = m
put_ids (u ∷ us) m = put_ids us (insert u.uuid u.id m)

unfoldable pub add_users : List UserInfo → Hysteria2 → Hysteria2 × ℕ
add_users users h = (record h { users_map = put_ids users h.users_map }, length users)

unfoldable pub drop_counters : String → List UserInfo → HookServer → HookServer
drop_counters tag [] hook = hook
drop_counters tag (u ∷ us) hook = drop_counters tag us (elim (lookup tag hook.counter) [
  | none ↦ hook
  | some c ↦ record hook { counter = insert tag (remove u.uuid c) hook.counter }
])

unfoldable pub drop_ids : List UserInfo → List (String × ℕ) → List (String × ℕ)
drop_ids [] m = m
drop_ids (u ∷ us) m = drop_ids us (delete u.uuid m)

-- `none` is a nil dereference: the node is not there, and there are users.
unfoldable pub del_users : List UserInfo → String → Hysteria2 → Option Hysteria2
del_users [] tag h = some h
del_users (u ∷ us) tag h = elim (lookup tag h.hy2nodes) [
  | none ↦ none
  | some hook ↦ some (record {
    users_map = drop_ids (u ∷ us) h.users_map;
    hy2nodes = insert tag (drop_counters tag (u ∷ us) hook) h.hy2nodes;
  })
]

-- The range over the counters is that of the Xray core, with uuids in place of tags.
unfoldable pub get_user_traffic_slice : String → Bool → Hysteria2 → Hysteria2 × List UserTraffic
get_user_traffic_slice tag reset h = elim (lookup tag h.hy2nodes) [
  | none ↦ (h, [])
  | some hook ↦ elim (lookup tag hook.counter) [
    | none ↦ (h, [])
    | some c ↦
        let read = read_counters hook.report_min_traffic_bytes reset h.users_map c in
        let hook' = record hook { counter = insert tag read.0 hook.counter } in
        (record h { hy2nodes = insert tag hook' h.hy2nodes }, read.1)
  ]
]

-- The counter of the node, a new one if there is none, with the two numbers added.
unfoldable pub count_bytes : String → ℕ → ℕ → HookServer → HookServer
count_bytes id sent received hook =
    let c = value (lookup hook.tag hook.counter) new_traffic_counter in
    record hook { counter = insert hook.tag (tx id sent (rx id received c)) hook.counter }

module _ {B R : Type 0} where
  -- With the limiter: a user that is marked is refused once.
  unfoldable pub log_limited :
      String
      → ℕ
      → ℕ
      → ℕ
      → Limiter B R
      → HookServer × Limiters B R
      → (HookServer × Limiters B R) × Bool
  log_limited id sent received ref l (hook, t) =
      let key = user_tag hook.tag id in
      let counted : (HookServer × Limiters B R) × Bool =
        ((count_bytes id sent received hook, t), true) in
      elim (lookup key l.user_limit_info) [
        | none ↦ counted
        | some info ↦
            let cleared = record l {
              user_limit_info = insert key (record info { over_limit = false }) l.user_limit_info;
            } in
            if info.over_limit then ((hook, assign ref cleared t), false) else counted
      ]

  -- LogTraffic; the library closes the connection when the answer is false.
  unfoldable pub log_traffic :
      String → ℕ → ℕ → HookServer × Limiters B R → (HookServer × Limiters B R) × Bool
  log_traffic id sent received (hook, t) = elim (get_limiter hook.tag t) [
    | none ↦ ((hook, t), false)
    | some ref ↦ elim (deref ref t) [
      | none ↦ ((hook, t), false)
      | some l ↦ log_limited id sent received ref l (hook, t)
    ]
  ]
