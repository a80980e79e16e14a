-- ===== src/Sing/Nodes.antt =====
-- core/sing/node.go: ValidateNode, AddNode and DelNode of the sing-box core. The options of an inbound
-- are built by getInboundOptions, an argument that answers `none` for an error; the inbound manager of
-- the library creates and removes inbounds.
pub mod Gone
use v2bx_outbound.Base.{
  ℕ, String, ◌<>◌, Bool, true, false, Option, none, some, List, [], ◌∷◌, mul_int, if◌then◌else◌,
}
use v2bx_outbound.Base.Text.{after_prefix}
use v2bx_outbound.Base.Map.{insert, delete, string_key}
use v2bx_outbound.Panel.{UserInfo}
use v2bx_outbound.Sing.Hook.{Hook, revoke}
use v2bx_outbound.Sing.Users.{Sing, managed}

-- The loop over the managed users of the node.
unfoldable pub revoke_all : String → List (String × UserInfo) → Hook → Hook
revoke_all tag [] h = h
revoke_all tag ((uuid, u) ∷ users) h = revoke_all tag users (revoke tag uuid h)

-- The loop over uidMap that deletes the keys with the prefix.
unfoldable pub delete_prefix : String → List (String × ℕ) → List (String × ℕ)
delete_prefix prefix [] = []
delete_prefix prefix ((key, uid) ∷ ids) =
    let rest = delete_prefix prefix ids in
    elim (after_prefix prefix key) [ none ↦ (key, uid) ∷ rest | some uuid ↦ rest ]

module _ {M I O : Type 0} (get_inbound_options : String → I → O → Option (String × O))
    (report_min_traffic : O → ℕ) (create : String → String × O → M → M × Bool)
    (remove : String → M → M × Bool) where
  -- true for a nil error
  unfoldable pub validate_node : String → I → O → Bool
  validate_node tag info config = elim (get_inbound_options tag info config) [
    | none ↦ false
    | some c ↦ true
  ]

  unfoldable pub add_node : String → I → O → Sing × M → (Sing × M) × Bool
  add_node tag info config (b, m) =
      let hook = b.hook in
      let b' = record b {
        hook = record hook { managed_nodes = insert tag tt hook.managed_nodes };
        node_report_min_traffic_bytes =
            insert tag (mul_int (report_min_traffic config) 1024) b.node_report_min_traffic_bytes;
      } in
      elim (get_inbound_options tag info config) [
        | none ↦ ((b', m), false)
        | some c ↦ let created = create tag c m in ((b', created.0), created.1)
      ]

  unfoldable pub del_node : String → Sing × M → (Sing × M) × Bool
  del_node tag (b, m) =
      let hook = revoke_all tag (managed tag b) b.hook in
      let b' = record b {
        hook = record hook { counter = delete tag hook.counter };
        managed_users = delete tag b.managed_users;
        managed_params = delete tag b.managed_params;
        node_report_min_traffic_bytes = delete tag b.node_report_min_traffic_bytes;
        uid_map = delete_prefix (tag <> "\0") b.uid_map;
      } in
      let removed = remove tag m in ((b', removed.0), removed.1)
