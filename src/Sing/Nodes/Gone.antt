-- ===== src/Sing/Nodes/Gone.antt =====
-- A node that is deleted leaves no user behind that may open a connection, and no connection.
use v2bx_outbound.Base.{
  ℕ, String, ◌==◌, eq_iff, eq_refl, Bool, true, false, not, ◌&&◌, none, List, [], ◌∷◌, ◌≡◌, ◌⊎◌,
  inl, inr, refl, arith, Option, Bool-cases,
}
use v2bx_outbound.Base.Map.{lookup, lookup-delete, IsMap, string_key, int_key}
use v2bx_outbound.Panel.{UserInfo}
use v2bx_outbound.Sing.Hook.{Hook, has, allowed, revoke}
use v2bx_outbound.Sing.Users.{Sing, managed}
use v2bx_outbound.Sing.Users.Active.{is_active, is_active-revoke}
use v2bx_outbound.Sing.Users.Closed.{HasNone, revoke-IsMap, revoke-HasNone}
use v2bx_outbound.Sing.Users.Committed.{IsSynced}
use v2bx_outbound.Sing.Nodes.{revoke_all, del_node}

is_active-revoke_all :
    (tag uuid : String) (users : List (String × UserInfo)) (h : Hook)
    → is_active tag uuid (revoke_all tag users h) ≡ (not (has uuid users) && is_active tag uuid h)
unfolding revoke_all lookup
is_active-revoke_all tag uuid [] h = refl
is_active-revoke_all tag uuid ((user, u) ∷ users) h = ground (
  arith,
  is_active-revoke_all tag uuid users (revoke tag user h),
  is_active-revoke tag user uuid h,
)

revoke_all-HasNone :
    (tag uuid : String) (users : List (String × UserInfo)) (h : Hook)
    → IsMap h.connections
    → HasNone tag uuid h ⊎ (has uuid users ≡ true)
    → HasNone tag uuid (revoke_all tag users h)
unfolding revoke_all lookup
revoke_all-HasNone tag uuid [] h distinct (inl before) = before
revoke_all-HasNone tag uuid [] h distinct (inr among) = ground (arith, among)
revoke_all-HasNone tag uuid ((user, u) ∷ users) h distinct cases =
    let after : (HasNone tag uuid h ⊎ (user ≡ uuid)) → HasNone tag uuid (revoke tag user h) =
      λ first. revoke-HasNone tag user uuid h distinct first in
    revoke_all-HasNone tag uuid users (revoke tag user h) (revoke-IsMap tag user h distinct)
      (elim cases [
        | inl before ↦ inl (after (inl before))
        | inr among ↦ elim (Bool-cases (user == uuid)) [
          | inl e ↦ inl (after (inr ((eq_iff user uuid).0 e)))
          | inr e ↦ inr (ground (arith, among, e))
        ]
      ])

revoke_all-managed_nodes :
    (tag : String) (users : List (String × UserInfo)) (h : Hook)
    → (revoke_all tag users h).managed_nodes ≡ h.managed_nodes
unfolding revoke_all revoke
revoke_all-managed_nodes tag [] h = refl
revoke_all-managed_nodes tag ((user, u) ∷ users) h =
    revoke_all-managed_nodes tag users (revoke tag user h)

no_users-IsSynced :
    (tag : String) (b : Sing)
    → managed tag b ≡ []
    → ((uuid : String) → is_active tag uuid b.hook ≡ false)
    → IsSynced tag b
unfolding lookup
no_users-IsSynced tag b empty nobody = rw empty ((λ k u e. ground (arith, e)), nobody)

-- Whatever the library answers, once DelNode returns no user is let in at the node, which stays
-- managed, none of those it had has an open connection, and the core has no users or counters of it.
pub del_node-IsGone :
    {M I O : Type 0} (get_inbound_options : String → I → O → Option (String × O))
    (report_min_traffic : O → ℕ) (create : String → String × O → M → M × Bool)
    (remove : String → M → M × Bool) (tag uuid : String) (b : Sing) (m : M)
    → IsMap b.hook.connections
    → IsSynced tag b
    → has tag b.hook.managed_nodes ≡ true
    → let b' = (del_node get_inbound_options report_min_traffic create remove tag (b, m)).0.0 in
      (allowed tag uuid b'.hook ≡ false)
      × (has uuid (managed tag b) ≡ true → HasNone tag uuid b'.hook)
      × IsSynced tag b'
      × (lookup tag b'.hook.counter ≡ none)
unfolding del_node allowed
del_node-IsGone get_inbound_options report_min_traffic create remove tag uuid b m distinct synced
      known =
    let users = managed tag b in
    let revoked = revoke_all tag users b.hook in
    let nobody : (x : String) → is_active tag x revoked ≡ false =
      λ x. ground (arith, is_active-revoke_all tag x users b.hook, synced.1 x) in
    let b' = (del_node get_inbound_options report_min_traffic create remove tag (b, m)).0.0 in
    let empty : managed tag b' ≡ [] =
      rw (lookup-delete tag tag b.managed_users, eq_refl tag) refl in
    (
      ground (arith, nobody uuid, known, revoke_all-managed_nodes tag users b.hook),
      λ among. revoke_all-HasNone tag uuid users b.hook distinct (inr among),
      no_users-IsSynced tag b' empty nobody,
      rw (lookup-delete tag tag revoked.counter, eq_refl tag) refl,
    )
