-- ===== src/Sing/Users/Active.antt =====
-- The users of a managed node that may open connections are those that its inbound was given.
use text.Mathlib.TextLemmas.{append_cancel_left}
use v2bx_outbound.Base.{
  ℕ, String, ◌<>◌, ◌==◌, eq_iff, eq_refl, Bool, true, false, not, ◌&&◌, ◌||◌, some, List, [], ◌∷◌,
  ◌≡◌, inl, inr, refl, ap, arith, if◌then◌else◌, Option-cases,
}
use v2bx_outbound.Base.Map.{
  lookup, insert, delete, lookup-insert, lookup-delete, string_key, int_key,
}
use v2bx_outbound.Panel.{UserInfo}
use v2bx_outbound.Sing.Hook.{Hook, user_key, has, revoke}
use v2bx_outbound.Sing.Users.{
  put_users, remove_users, insert_sorted, sort_strings, keys, values_at, sorted_users,
  activate_users, revoke_new, drop_counter, forget_users,
}

user_key-injective : (tag x y : String) → user_key tag x ≡ user_key tag y → x ≡ y
unfolding user_key
user_key-injective tag x y e = append_cancel_left "\0" x y (append_cancel_left tag _ _ e)

pub user_key-eq : (tag x y : String) → (user_key tag x == user_key tag y) ≡ (x == y)
user_key-eq tag x y = ground (
  arith,
  eq_iff x y,
  eq_iff (user_key tag x) (user_key tag y),
  user_key-injective tag x y,
  λ (e : x ≡ y). ap (user_key tag) e,
)

abbrev pub is_among : String → List UserInfo → Bool
is_among uuid [] = false
is_among uuid (u ∷ us) = if u.uuid == uuid then true else is_among uuid us

abbrev pub elem : String → List String → Bool
elem k [] = false
elem k (j ∷ ks) = if j == k then true else elem k ks

-- Each user stands under its own uuid.
abbrev pub IsKeyed : List (String × UserInfo) → Type 0
IsKeyed m = (k : String) (u : UserInfo) → lookup k m ≡ some u → u.uuid ≡ k

pub has-put_users :
    (uuid : String) (us : List UserInfo) (m : List (String × UserInfo))
    → has uuid (put_users us m) ≡ (is_among uuid us || has uuid m)
unfolding put_users
has-put_users uuid [] m = refl
has-put_users uuid (u ∷ us) m =
    ground (arith, has-put_users uuid us (insert u.uuid u m), lookup-insert u.uuid uuid u m)

pub has-remove_users :
    (uuid : String) (us : List UserInfo) (m : List (String × UserInfo))
    → has uuid (remove_users us m) ≡ (not (is_among uuid us) && has uuid m)
unfolding remove_users
has-remove_users uuid [] m = refl
has-remove_users uuid (u ∷ us) m =
    ground (arith, has-remove_users uuid us (delete u.uuid m), lookup-delete u.uuid uuid m)

pub put_users-IsKeyed :
    (us : List UserInfo) (m : List (String × UserInfo)) → IsKeyed m → IsKeyed (put_users us m)
unfolding put_users
put_users-IsKeyed [] m h = h
put_users-IsKeyed (u ∷ us) m h =
    put_users-IsKeyed us (insert u.uuid u m)
      (λ k v e. ground (arith, h k v, lookup-insert u.uuid k u m, eq_iff u.uuid k))

pub remove_users-IsKeyed :
    (us : List UserInfo) (m : List (String × UserInfo)) → IsKeyed m → IsKeyed (remove_users us m)
unfolding remove_users
remove_users-IsKeyed [] m h = h
remove_users-IsKeyed (u ∷ us) m h =
    remove_users-IsKeyed us (delete u.uuid m)
      (λ k v e. ground (arith, h k v, lookup-delete u.uuid k m))

elem-insert_sorted :
    (less : String → String → Bool) (k j : String) (ks : List String)
    → elem k (insert_sorted less j ks) ≡ (if j == k then true else elem k ks)
unfolding insert_sorted
elem-insert_sorted less k j [] = refl
elem-insert_sorted less k j (i ∷ ks) = ground (arith, elem-insert_sorted less k j ks)

elem-sort_strings :
    (less : String → String → Bool) (k : String) (ks : List String)
    → elem k (sort_strings less ks) ≡ elem k ks
unfolding sort_strings
elem-sort_strings less k [] = refl
elem-sort_strings less k (j ∷ ks) =
    ground (arith, elem-insert_sorted less k j (sort_strings less ks), elem-sort_strings less k ks)

elem-keys : (k : String) (m : List (String × UserInfo)) → elem k (keys m) ≡ has k m
unfolding keys lookup
elem-keys k [] = refl
elem-keys k ((j, u) ∷ m) = ground (arith, elem-keys k m)

is_among-values_at :
    (k : String) (m : List (String × UserInfo)) (ks : List String)
    → IsKeyed m
    → ((j : String) → elem j ks ≡ true → has j m ≡ true)
    → is_among k (values_at m ks) ≡ elem k ks
unfolding values_at
is_among-values_at k m [] keyed present = refl
is_among-values_at k m (j ∷ ks) keyed present =
    let later = is_among-values_at k m ks keyed (λ i e. present i (ground (arith, e))) in
    let here = present j (ground (arith, eq_refl j)) in
    elim (Option-cases (lookup j m)) [
      | inl e ↦ ground (arith, e, here)
      | inr (u, e) ↦ rw (e, keyed j u e, later) refl
    ]

-- The users that the library is given are those of the map.
pub is_among-sorted_users :
    (less : String → String → Bool) (k : String) (m : List (String × UserInfo))
    → IsKeyed m
    → is_among k (sorted_users less m) ≡ has k m
unfolding sorted_users
is_among-sorted_users less k m keyed =
    let same : (j : String) → elem j (sort_strings less (keys m)) ≡ has j m =
      λ j. rw (elem-sort_strings less j (keys m), elem-keys j m) refl in
    rw (is_among-values_at k m (sort_strings less (keys m)) keyed (λ j e. cc (e, same j))) (same k)

-- The user may open connections to the node.
abbrev pub is_active : String → String → Hook → Bool
is_active tag uuid h = has (user_key tag uuid) h.active_users

pub is_active-activate_users :
    (tag uuid : String) (us : List UserInfo) (h : Hook)
    → is_active tag uuid (activate_users tag us h) ≡ (is_among uuid us || is_active tag uuid h)
unfolding activate_users
is_active-activate_users tag uuid [] h = refl
is_active-activate_users tag uuid (u ∷ us) h =
    let key = user_key tag u.uuid in
    let next = record h { active_users = insert key tt h.active_users } in
    ground (
      arith,
      is_active-activate_users tag uuid us next,
      user_key-eq tag u.uuid uuid,
      lookup-insert key (user_key tag uuid) tt h.active_users,
    )

pub is_active-revoke :
    (tag user uuid : String) (h : Hook)
    → is_active tag uuid (revoke tag user h) ≡ (not (user == uuid) && is_active tag uuid h)
unfolding revoke
is_active-revoke tag user uuid h = ground (
  arith,
  user_key-eq tag user uuid,
  lookup-delete (user_key tag user) (user_key tag uuid) h.active_users,
)

pub is_active-revoke_new :
    (tag uuid : String) (old users : List (String × UserInfo)) (h : Hook)
    → is_active tag uuid (revoke_new tag old users h)
      ≡ (not (has uuid users && not (has uuid old)) && is_active tag uuid h)
unfolding revoke_new lookup
is_active-revoke_new tag uuid old [] h = ground arith
is_active-revoke_new tag uuid old ((user, u) ∷ users) h =
    let next = if has user old then h else revoke tag user h in
    ground (
      arith,
      is_active-revoke_new tag uuid old users next,
      is_active-revoke tag user uuid h,
      eq_iff user uuid,
    )

pub drop_counter-keeps :
    (tag uuid : String) (h : Hook)
    → let h' = drop_counter tag uuid h in
      (h'.active_users ≡ h.active_users) × (h'.connections ≡ h.connections)
unfolding drop_counter
drop_counter-keeps tag uuid h = ground arith

pub is_active-forget_users :
    (tag uuid : String) (us : List UserInfo) (h : Hook) (ids : List (String × ℕ))
    → is_active tag uuid (forget_users tag us (h, ids)).0
      ≡ (not (is_among uuid us) && is_active tag uuid h)
unfolding forget_users
is_active-forget_users tag uuid [] h ids = refl
is_active-forget_users tag uuid (u ∷ us) h ids =
    let revoked = revoke tag u.uuid h in
    let next = drop_counter tag u.uuid revoked in
    let ids' = delete (tag <> ("\0" <> u.uuid)) ids in
    let same : is_active tag uuid next ≡ is_active tag uuid revoked =
      ap (λ m. has (user_key tag uuid) m) (drop_counter-keeps tag u.uuid revoked).0 in
    ground (
      arith,
      is_active-forget_users tag uuid us next ids',
      same,
      is_active-revoke tag u.uuid uuid h,
    )
