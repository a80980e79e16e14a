-- ===== src/Sing/Users/Closed.antt =====
-- Users that are deleted have no open connections.
use v2bx_outbound.Base.{
  ℕ, String, ◌<>◌, ◌==◌, eq_iff, true, some, List, [], ◌∷◌, ◌≡◌, ◌≢◌, ◌⊎◌, inl, inr, ap, sym, subst,
  arith, Bool-cases,
}
use v2bx_outbound.Base.Map.{lookup, delete, IsMap, string_key, int_key}
use v2bx_outbound.Panel.{UserInfo}
use v2bx_outbound.Sing.Hook.{Hook, user_key, revoke}
use v2bx_outbound.Sing.Hook.Routed.{lookup-close_all, close_all-IsMap}
use v2bx_outbound.Sing.Users.{drop_counter, forget_users}
use v2bx_outbound.Sing.Users.Active.{is_among, drop_counter-keeps}

-- No connection of the user is open.
abbrev pub HasNone : String → String → Hook → Type 0
HasNone tag uuid h = (c : ℕ) → lookup c h.connections ≢ some (user_key tag uuid)

pub revoke-IsMap :
    (tag user : String) (h : Hook) → IsMap h.connections → IsMap (revoke tag user h).connections
unfolding revoke
revoke-IsMap tag user h distinct = close_all-IsMap (user_key tag user) h.connections distinct

pub revoke-HasNone :
    (tag user uuid : String) (h : Hook)
    → IsMap h.connections
    → HasNone tag uuid h ⊎ (user ≡ uuid)
    → HasNone tag uuid (revoke tag user h)
unfolding revoke
revoke-HasNone tag user uuid h distinct (inl before) c e =
    ground (arith, e, before c, lookup-close_all c (user_key tag user) h.connections distinct)
revoke-HasNone tag user uuid h distinct (inr same) c e = ground (
  arith,
  e,
  ap (user_key tag) same,
  eq_iff (user_key tag uuid) (user_key tag user),
  lookup-close_all c (user_key tag user) h.connections distinct,
)

pub forget_users-HasNone :
    (tag uuid : String) (us : List UserInfo) (h : Hook) (ids : List (String × ℕ))
    → IsMap h.connections
    → HasNone tag uuid h ⊎ (is_among uuid us ≡ true)
    → HasNone tag uuid (forget_users tag us (h, ids)).0
unfolding forget_users
forget_users-HasNone tag uuid [] h ids distinct (inl before) = before
forget_users-HasNone tag uuid [] h ids distinct (inr among) = ground (arith, among)
forget_users-HasNone tag uuid (u ∷ us) h ids distinct cases =
    let revoked = revoke tag u.uuid h in
    let next = drop_counter tag u.uuid revoked in
    let ids' = delete (tag <> ("\0" <> u.uuid)) ids in
    let keeps = (drop_counter-keeps tag u.uuid revoked).1 in
    let distinct' = subst IsMap (sym keeps) (revoke-IsMap tag u.uuid h distinct) in
    let after : (HasNone tag uuid h ⊎ (u.uuid ≡ uuid)) → HasNone tag uuid next =
      λ first c. rw keeps (revoke-HasNone tag u.uuid uuid h distinct first c) in
    forget_users-HasNone tag uuid us next ids' distinct' (elim cases [
      | inl before ↦ inl (after (inl before))
      | inr among ↦ elim (Bool-cases (u.uuid == uuid)) [
        | inl e ↦ inl (after (inr ((eq_iff u.uuid uuid).0 e)))
        | inr e ↦ inr (ground (arith, among, e))
      ]
    ])
