-- ===== src/Sing/Users.antt =====
-- core/sing/user.go, and AddNode and DelNode of core/sing/node.go: the users of the sing-box core. The
-- inbounds of the library are a state of their own, which its calls change; base64 and the length of a
-- text in bytes are arguments. Of a node the inbound under its tag has the node's type.
pub mod Accounts
pub mod Active
pub mod Closed
pub mod Committed
use v2bx_outbound.Base.{
  ℕ, String, ◌<>◌, ◌==◌, Bool, true, false, not, Option, none, some, List, [], ◌∷◌, length, mul_int,
  if◌then◌else◌,
}
use v2bx_outbound.Base.Text.{after_prefix}
use v2bx_outbound.Base.Map.{lookup, insert, delete, value, string_key}
use v2bx_outbound.Panel.{UserInfo}
use v2bx_outbound.Counter.{remove}
use v2bx_outbound.Sing.Hook.{Hook, user_key, has, revoke}
use v2bx_outbound.Sing.Users.Accounts.{
  AddUsersParams, Account, no_call, invalid_key, accounts, build_accounts,
}

-- The fields of the core, with those of its user map and of its hook server.
pub record Sing : Type 0 where
  pub hook : Hook
  pub uid_map : List (String × ℕ)
  pub node_report_min_traffic_bytes : List (String × ℕ)
  pub managed_users : List (String × List (String × UserInfo))
  pub managed_params : List (String × AddUsersParams)

abbrev pub managed : String → Sing → List (String × UserInfo)
managed tag b = value (lookup tag b.managed_users) []

-- `users[u.Uuid] = u`
unfoldable pub put_users : List UserInfo → List (String × UserInfo) → List (String × UserInfo)
put_users [] m = m
put_users (u ∷ us) m = put_users us (insert u.uuid u m)

-- `delete(remaining, u.Uuid)`
unfoldable pub remove_users : List UserInfo → List (String × UserInfo) → List (String × UserInfo)
remove_users [] m = m
remove_users (u ∷ us) m = remove_users us (delete u.uuid m)

-- sort.Strings, of which only the order of the result matters.
unfoldable pub insert_sorted : (String → String → Bool) → String → List String → List String
insert_sorted less k [] = k ∷ []
insert_sorted less k (j ∷ ks) =
    let rest = insert_sorted less k ks in if less j k then j ∷ rest else k ∷ j ∷ ks

unfoldable pub sort_strings : (String → String → Bool) → List String → List String
sort_strings less [] = []
sort_strings less (k ∷ ks) = insert_sorted less k (sort_strings less ks)

unfoldable pub keys : {V : Type 0} → List (String × V) → List String
keys [] = []
keys ((k, v) ∷ m) = k ∷ keys m

abbrev pub no_user : UserInfo
no_user = record { id = 0; uuid = ""; speed_limit = 0; device_limit = 0 }

-- `users[k]` for each key.
unfoldable pub values_at : List (String × UserInfo) → List String → List UserInfo
values_at m [] = []
values_at m (k ∷ ks) = value (lookup k m) no_user ∷ values_at m ks

unfoldable pub sorted_users : (String → String → Bool) → List (String × UserInfo) → List UserInfo
sorted_users less m = values_at m (sort_strings less (keys m))

-- `b.hookServer.activeUsers.Store(userKey(p.Tag, u.Uuid), true)`
unfoldable pub activate_users : String → List UserInfo → Hook → Hook
activate_users tag [] h = h
activate_users tag (u ∷ us) h =
    activate_users tag us
      (record h { active_users = insert (user_key tag u.uuid) tt h.active_users })

-- The loop over the users after a refusal: who was not managed before is revoked.
unfoldable pub revoke_new :
    String → List (String × UserInfo) → List (String × UserInfo) → Hook → Hook
revoke_new tag old [] h = h
revoke_new tag old ((uuid, u) ∷ users) h =
    revoke_new tag old users (if has uuid old then h else revoke tag uuid h)

unfoldable pub set_ids : String → List UserInfo → List (String × ℕ) → List (String × ℕ)
set_ids tag [] ids = ids
set_ids tag (u ∷ us) ids = set_ids tag us (insert (tag <> ("\0" <> u.uuid)) u.id ids)

-- `counter.Load(tag)` and Delete of the user.
unfoldable pub drop_counter : String → String → Hook → Hook
drop_counter tag uuid h = elim (lookup tag h.counter) [
  | none ↦ h
  | some c ↦ record h { counter = insert tag (remove uuid c) h.counter }
]

-- The loop at the end of DelUsers.
unfoldable pub forget_users :
    String → List UserInfo → Hook × List (String × ℕ) → Hook × List (String × ℕ)
forget_users tag [] s = s
forget_users tag (u ∷ us) (h, ids) =
    forget_users tag us
      (drop_counter tag u.uuid (revoke tag u.uuid h), delete (tag <> ("\0" <> u.uuid)) ids)

module _ {M : Type 0} (inbound_get : String → M → Bool)
    (set_managed_users : String → List Account → M → M × Bool) (byte_length : String → ℕ)
    (encode_to_string : ℕ → String → String) (less : String → String → Bool) where
  -- The Boolean is true for a nil error. A type of node without a case is no error.
  unfoldable pub set_users : AddUsersParams → M → M × Bool
  set_users p m =
      let built = build_accounts byte_length encode_to_string p in
      let called : M × Bool = elim built [
        | no_call ↦ (m, true)
        | invalid_key ↦ (m, false)
        | accounts us ↦ set_managed_users p.tag us m
      ] in
      if not (inbound_get p.tag m) then (m, false) else called

  -- The number of users, or `none` for an error.
  unfoldable pub add_users : AddUsersParams → Sing × M → (Sing × M) × Option ℕ
  add_users p (b, m) =
      let old = managed p.tag b in
      let users = put_users p.users old in
      let copy_params = record p { users = sorted_users less users } in
      let hook = activate_users p.tag copy_params.users b.hook in
      let set = set_users copy_params m in
      let committed = record b {
        hook = hook;
        managed_users = insert p.tag users b.managed_users;
        managed_params = insert p.tag copy_params b.managed_params;
        uid_map = set_ids p.tag copy_params.users b.uid_map;
      } in
      if set.1
      then ((committed, set.0), some (length p.users))
      else ((record b { hook = revoke_new p.tag old users hook }, set.0), none)

  unfoldable pub del_users : List UserInfo → String → Sing × M → (Sing × M) × Bool
  del_users users tag (b, m) = elim (lookup tag b.managed_params) [
    | none ↦ ((b, m), false)
    | some params ↦
        let remaining = remove_users users (managed tag b) in
        let params' = record params { users = sorted_users less remaining } in
        let set = set_users params' m in
        let forgotten = forget_users tag users (b.hook, b.uid_map) in
        let committed = record b {
          managed_users = insert tag remaining b.managed_users;
          managed_params = insert tag params' b.managed_params;
          hook = forgotten.0;
          uid_map = forgotten.1;
        } in
        if set.1 then ((committed, set.0), true) else ((b, set.0), false)
  ]
