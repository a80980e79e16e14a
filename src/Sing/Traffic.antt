-- ===== src/Sing/Traffic.antt =====
-- core/sing/user.go: GetUserTraffic and GetUserTrafficSlice of the sing-box core.
pub mod Slice
use v2bx_outbound.Base.{
  ℕ, String, ◌<>◌, Bool, true, false, Option, none, some, List, [], ◌∷◌, eqb, if◌then◌else◌,
}
use v2bx_outbound.Base.Map.{lookup, insert, value, string_key}
use v2bx_outbound.Panel.{UserTraffic}
use v2bx_outbound.Counter.{
  TrafficStorage, TrafficCounter, new_storage, get_up_count, get_down_count, reset,
}
use v2bx_outbound.Xray.{is_reported}
use v2bx_outbound.Sing.Hook.{Hook}
use v2bx_outbound.Sing.Users.{Sing}

unfoldable pub get_user_traffic : String → String → Bool → Sing → Sing × ℕ × ℕ
get_user_traffic tag uuid resets b = elim (lookup tag b.hook.counter) [
  | none ↦ (b, 0, 0)
  | some c ↦
      let hook = b.hook in
      let c' = if resets then reset uuid c else c in
      let b' = record b { hook = record hook { counter = insert tag c' hook.counter } } in
      (b', get_up_count uuid c, get_down_count uuid c)
]

-- The range over the counters of a node: what stays of them, and the records.
unfoldable pub range_counters :
    String → ℕ → Bool → List (String × ℕ) → TrafficCounter → TrafficCounter × List UserTraffic
range_counters tag min_bytes resets uid_map [] = ([], [])
range_counters tag min_bytes resets uid_map ((uuid, storage) ∷ c) =
    let rest = range_counters tag min_bytes resets uid_map c in
    let uid = value (lookup (tag <> ("\0" <> uuid)) uid_map) 0 in
    let read : UserTraffic = record {
      uid = uid;
      upload = storage.up_counter;
      download = storage.down_counter;
    } in
    let left = if resets then new_storage else storage in
    if is_reported min_bytes storage
    then (if eqb uid 0 then rest else ((uuid, left) ∷ rest.0, read ∷ rest.1))
    else ((uuid, storage) ∷ rest.0, rest.1)

-- A nil slice and an empty one are the same list.
unfoldable pub get_user_traffic_slice : String → Bool → Sing → Sing × List UserTraffic
get_user_traffic_slice tag resets b = elim (lookup tag b.hook.counter) [
  | none ↦ (b, [])
  | some c ↦
      let min_bytes = value (lookup tag b.node_report_min_traffic_bytes) 0 in
      let read = range_counters tag min_bytes resets b.uid_map c in
      let hook = b.hook in
      (record b { hook = record hook { counter = insert tag read.0 hook.counter } }, read.1)
]
