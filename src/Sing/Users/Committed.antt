-- ===== src/Sing/Users/Committed.antt =====
-- AddUsers and DelUsers of the sing-box core commit a whole change, or none of it.
use v2bx_outbound.Base.{
  ℕ, String, eq_refl, Bool, true, false, not, ◌&&◌, ◌||◌, Option, none, some, List, [], ◌≡◌, inl,
  inr, refl, arith, Bool-cases, Option-cases,
}
use v2bx_outbound.Base.Map.{lookup, insert, value, lookup-insert, IsMap, string_key, int_key}
use v2bx_outbound.Panel.{UserInfo}
use v2bx_outbound.Sing.Hook.{has}
use v2bx_outbound.Sing.Users.{
  Sing, managed, put_users, remove_users, sorted_users, activate_users, set_users, add_users,
  del_users,
}
use v2bx_outbound.Sing.Users.Accounts.{AddUsersParams, Account}
use v2bx_outbound.Sing.Users.Active.{
  is_among, IsKeyed, is_active, has-put_users, has-remove_users, put_users-IsKeyed,
  remove_users-IsKeyed, is_among-sorted_users, is_active-activate_users, is_active-revoke_new,
  is_active-forget_users,
}
use v2bx_outbound.Sing.Users.Closed.{HasNone, forget_users-HasNone}

-- The users of the node stand under their uuids, and those are let in that are managed.
abbrev pub IsSynced : String → Sing → Type 0
IsSynced tag b =
    IsKeyed (managed tag b)
    × ((uuid : String) → is_active tag uuid b.hook ≡ has uuid (managed tag b))

abbrev pub is_some : {A : Type 0} → Option A → Bool
is_some none = false
is_some (some a) = true

managed-insert :
    {V : Type 0} (tag : String) (users : List V) (m : List (String × List V))
    → value (lookup tag (insert tag users m)) [] ≡ users
managed-insert tag users m = rw (lookup-insert tag tag users m, eq_refl tag) refl

module _ {M : Type 0} (inbound_get : String → M → Bool)
    (set_managed_users : String → List Account → M → M × Bool) (byte_length : String → ℕ)
    (encode_to_string : ℕ → String → String) (less : String → String → Bool) where
  -- If AddUsers succeeds, the node has the users it had and the new ones; if it fails, the users it
  -- had. Either way those are let in, and no other.
  pub add_users-commits :
      (p : AddUsersParams) (b : Sing) (m : M)
      → IsSynced p.tag b
      → let r =
          add_users inbound_get set_managed_users byte_length encode_to_string less p (b, m) in
        IsSynced p.tag r.0.0
        × ((uuid : String)
            → has uuid (managed p.tag r.0.0)
              ≡ (is_some r.1 && is_among uuid p.users || has uuid (managed p.tag b)))
  unfolding add_users
  add_users-commits p b m (keyed, synced) =
      let old = managed p.tag b in
      let users = put_users p.users old in
      let keyed' = put_users-IsKeyed p.users old keyed in
      let copy_params = record p { users = sorted_users less users } in
      let hook = activate_users p.tag copy_params.users b.hook in
      let set =
        set_users inbound_get set_managed_users byte_length encode_to_string less copy_params m in
      let activated : (uuid : String) → is_active p.tag uuid hook ≡ has uuid users = λ uuid.
        ground (
          arith,
          is_active-activate_users p.tag uuid copy_params.users b.hook,
          is_among-sorted_users less uuid users keyed',
          synced uuid,
          has-put_users uuid p.users old,
        ) in
      elim (Bool-cases set.1) [
        | inl e ↦
            rw (e, add_users, managed-insert p.tag users b.managed_users)
              ((keyed', activated), λ uuid. has-put_users uuid p.users old)
        | inr e ↦
            rw (e, add_users)
              (
                (
                  keyed,
                  λ uuid. ground (
                    arith,
                    is_active-revoke_new p.tag uuid old users hook,
                    activated uuid,
                    has-put_users uuid p.users old,
                    synced uuid,
                  ),
                ),
                λ uuid. refl,
              )
      ]

  -- If DelUsers succeeds, the node has the users it had but those deleted, of whom no connection is
  -- open; if it fails, the users it had. Either way those are let in, and no other.
  pub del_users-commits :
      (us : List UserInfo) (tag : String) (b : Sing) (m : M)
      → IsMap b.hook.connections
      → IsSynced tag b
      → let r =
          del_users inbound_get set_managed_users byte_length encode_to_string less us tag (b, m) in
        IsSynced tag r.0.0
        × ((uuid : String)
            → has uuid (managed tag r.0.0)
              ≡ (not (r.1 && is_among uuid us) && has uuid (managed tag b)))
        × ((uuid : String) → r.1 ≡ true → is_among uuid us ≡ true → HasNone tag uuid r.0.0.hook)
  unfolding del_users
  del_users-commits us tag b m distinct (keyed, synced) =
      elim (Option-cases (lookup tag b.managed_params)) [
        | inl missing ↦
            rw (missing, del_users) ((keyed, synced), (λ uuid. refl), λ uuid ok. ground (arith, ok))
        | inr (params, found) ↦
            let remaining = remove_users us (managed tag b) in
            let keyed' = remove_users-IsKeyed us (managed tag b) keyed in
            let params' = record params { users = sorted_users less remaining } in
            let set =
              set_users inbound_get set_managed_users byte_length encode_to_string less params' m in
            elim (Bool-cases set.1) [
              | inl e ↦
                  rw (found, e, del_users, managed-insert tag remaining b.managed_users)
                    (
                      (
                        keyed',
                        λ uuid. ground (
                          arith,
                          is_active-forget_users tag uuid us b.hook b.uid_map,
                          has-remove_users uuid us (managed tag b),
                          synced uuid,
                        ),
                      ),
                      (λ uuid. has-remove_users uuid us (managed tag b)),
                      λ uuid ok among.
                          forget_users-HasNone tag uuid us b.hook b.uid_map distinct (inr among),
                    )
              | inr e ↦
                  rw (found, e, del_users)
                    ((keyed, synced), (λ uuid. refl), λ uuid ok. ground (arith, ok))
            ]
      ]
