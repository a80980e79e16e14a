-- ===== src/Xray.antt =====
-- core/xray/user.go: the traffic of the users of the Xray core. The counters of a node are under its
-- tag; traffic of users that are gone is kept apart until it is read.
pub mod Slice
pub mod Retire
pub mod Users
pub mod Links
pub mod Dispatch
pub mod Nodes
mod Tests
use v2bx_outbound.Base.{
  ℕ, String, Bool, true, false, Option, none, some, List, [], ◌∷◌, ◌++◌, add_int, slt, eqb,
  if◌then◌else◌,
}
use v2bx_outbound.Base.Map.{lookup, insert, delete, value, string_key}
use v2bx_outbound.Panel.{UserInfo, UserTraffic, user_tag}
use v2bx_outbound.Counter.{TrafficStorage, TrafficCounter, new_storage}

-- The fields of the core, of its user map and of its dispatcher that traffic is read from.
pub record Xray : Type 0 where
  pub uid_map : List (String × ℕ)
  pub counter : List (String × TrafficCounter)
  pub retired_traffic : List (String × List UserTraffic)
  pub node_report_min_traffic_bytes : List (String × ℕ)

abbrev pub is_reported : ℕ → TrafficStorage → Bool
is_reported min_bytes storage = slt min_bytes (add_int storage.up_counter storage.down_counter)

-- The range over the counters of a node: what stays of them, and the records. The counter of a user
-- that is not known is deleted.
unfoldable pub read_counters :
    ℕ → Bool → List (String × ℕ) → TrafficCounter → TrafficCounter × List UserTraffic
read_counters min_bytes reset uid_map [] = ([], [])
read_counters min_bytes reset uid_map ((email, storage) ∷ c) =
    let rest = read_counters min_bytes reset uid_map c in
    let uid = value (lookup email uid_map) 0 in
    let read : UserTraffic = record {
      uid = uid;
      upload = storage.up_counter;
      download = storage.down_counter;
    } in
    if is_reported min_bytes storage
    then (if eqb uid 0
        then rest
        else ((email, if reset then new_storage else storage) ∷ rest.0, read ∷ rest.1))
    else ((email, storage) ∷ rest.0, rest.1)

-- A nil slice and an empty one are the same list.
unfoldable pub get_user_traffic_slice : String → Bool → Xray → Xray × List UserTraffic
get_user_traffic_slice tag reset x =
    let retired = value (lookup tag x.retired_traffic) [] in
    let x' = if reset then record x { retired_traffic = delete tag x.retired_traffic } else x in
    elim (lookup tag x.counter) [
      | none ↦ (x', retired)
      | some c ↦
          let min_bytes = value (lookup tag x.node_report_min_traffic_bytes) 0 in
          let read = read_counters min_bytes reset x.uid_map c in
          (record x' { counter = insert tag read.0 x.counter }, retired ++ read.1)
    ]

-- The counts of a user that goes, set to zero and kept for the next read.
unfoldable pub retain_user_traffic : String → String → ℕ → Xray → Xray
retain_user_traffic tag email uid x = elim (lookup tag x.counter) [
  | none ↦ x
  | some c ↦ elim (lookup email c) [
    | none ↦ x
    | some counts ↦
        let zeroed = record x { counter = insert tag (insert email new_storage c) x.counter } in
        let kept : UserTraffic = record {
          uid = uid;
          upload = counts.up_counter;
          download = counts.down_counter;
        } in
        let retired = value (lookup tag x.retired_traffic) [] in
        if slt 0 (add_int counts.up_counter counts.down_counter)
        then record zeroed { retired_traffic = insert tag (retired ++ kept ∷ []) x.retired_traffic }
        else zeroed
  ]
]

-- `delete(c.users.uidMap, user)` and the end of the loop of DelUsers.
unfoldable pub drop_user : String → String → Xray → Xray
drop_user tag user x =
    let x' = record x { uid_map = delete user x.uid_map } in
    elim (lookup tag x.counter) [
      | none ↦ x'
      | some c ↦ record x' { counter = insert tag (delete user c) x.counter }
    ]

-- What a round of the loop of DelUsers does to the traffic, once the inbound has let the user go;
-- allowed users and links are not part of the state.
unfoldable pub forget_user : String → String → Xray → Xray
forget_user tag user x =
    drop_user tag user (retain_user_traffic tag user (value (lookup user x.uid_map) 0) x)

-- The loop of DelUsers over the users of an inbound, whose GetUser and RemoveUser are arguments; the
-- Boolean is true for a nil error.
unfoldable pub del_users :
    {M : Type 0}
    → (String → M → Bool)
    → (String → M → M × Bool)
    → String
    → List UserInfo
    → Xray × M
    → (Xray × M) × Bool
del_users get_user remove_user tag [] s = (s, true)
del_users get_user remove_user tag (user ∷ users) (x, m) =
    let email = user_tag tag user.uuid in
    let removed = if get_user email m then remove_user email m else (m, true) in
    let rest = del_users get_user remove_user tag users (forget_user tag email x, removed.0) in
    if removed.1 then rest else ((x, removed.0), false)
