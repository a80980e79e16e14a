-- ===== src/Node/Users/Sync.antt =====
-- The limiter follows the panel's list: compareUserList, then UpdateUser.
use v2bx_outbound.Base.{
  ℕ, String, Option, none, some, List, ◌≡◌, ◌≢◌, subst, arith, Option-cases, inl, inr, ◌∙◌, sym,
}
use v2bx_outbound.Base.Map.{lookup, string_key}
use v2bx_outbound.Panel.{UserInfo, user_tag}
use v2bx_outbound.Panel.UserList.{last_user, IsUserList, last_user-found}
use v2bx_outbound.Limiter.{Limiter, UserLimitInfo}
use v2bx_outbound.Limiter.Users.{new_entry, new_limiter, update_user}
use v2bx_outbound.Limiter.Users.Entries.{entry_or, gone_if, update_user-entry, new_limiter-entry}
use v2bx_outbound.Node.Users.{user_key, compare_user_list}
use v2bx_outbound.Node.Users.Keyed.{find_key}
use v2bx_outbound.Node.Users.Changes.{
  unless_listed, find_key-found, find_key-present, compare_user_list-last_user,
}

abbrev pub entry_speed : Option UserLimitInfo → Option ℕ
entry_speed none = none
entry_speed (some info) = some info.speed_limit

abbrev pub user_speed : Option UserInfo → Option ℕ
user_speed none = none
user_speed (some user) = some user.speed_limit

-- The limiter has an entry for exactly the users of the list, each with its speed limit.
abbrev pub Follows : {B R : Type 0} → String → List UserInfo → Limiter B R → Type 0
Follows tag users l =
    (uuid : String)
    → entry_speed (lookup (user_tag tag uuid) l.user_limit_info) ≡ user_speed (last_user uuid users)

-- A user of one list that is found by key in the other is the one of its uuid there.
matched :
    (n : ℕ) (x : String) (users others : List UserInfo) (v w : UserInfo)
    → IsUserList n users
    → IsUserList n others
    → last_user x others ≡ some v
    → find_key (user_key v) users ≡ some w
    → (last_user x users ≡ some w) × (w.speed_limit ≡ v.speed_limit)
matched n x users others v w h k d f =
    let found = last_user-found n x others v k d in
    let hit = find_key-found n v w users h found.1 found.2 f in
    (subst (λ y. last_user y users ≡ some w) found.0 hit.0, hit.1)

same_key :
    (u v : UserInfo) → u.uuid ≡ v.uuid → u.speed_limit ≡ v.speed_limit → user_key u ≡ user_key v
unfolding user_key
same_key u v e d = rw (e, d)

module _ (n : ℕ) (x : String) (old new : List UserInfo) (h : IsUserList n old)
    (k : IsUserList n new) where
  -- A uuid that both lists hold stays as it is exactly if its speed limit does.
  kept :
      (u v w : UserInfo)
      → last_user x old ≡ some u
      → last_user x new ≡ some v
      → find_key (user_key v) old ≡ some w
      → (u.speed_limit ≡ v.speed_limit) × (find_key (user_key u) new ≢ none)
  kept u v w e d f =
      let hit = matched n x old new v w h k d f in
      let same : u.speed_limit ≡ v.speed_limit = ground (arith, hit, e) in
      let uuids = (last_user-found n x old u h e).0 ∙ sym (last_user-found n x new v k d).0 in
      (same, rw (same_key u v uuids same) (find_key-present x v new d))

  added_unknown :
      (v : UserInfo)
      → last_user x old ≡ none
      → last_user x new ≡ some v
      → unless_listed old (some v) ≡ some v
  added_unknown v e d = elim (Option-cases (find_key (user_key v) old)) [
    | inl f ↦ ground (arith, f)
    | inr (w, f) ↦ cc ((matched n x old new v w h k d f).0, e)
  ]

  deleted_unknown :
      (u : UserInfo)
      → last_user x old ≡ some u
      → last_user x new ≡ none
      → unless_listed new (some u) ≡ some u
  deleted_unknown u e d = elim (Option-cases (find_key (user_key u) new)) [
    | inl f ↦ ground (arith, f)
    | inr (w, f) ↦ cc ((matched n x new old u w k h e f).0, d)
  ]

  -- What happens at one uuid.
  entry_after :
      (before : Option UserLimitInfo)
      → entry_speed before ≡ user_speed (last_user x old)
      → entry_speed (
          entry_or
            (unless_listed old (last_user x new))
            (gone_if (unless_listed new (last_user x old)) before))
        ≡ user_speed (last_user x new)
  unfolding new_entry
  entry_after before same = elim (Option-cases (last_user x old)) [
    | inl e ↦ elim (Option-cases (last_user x new)) [
      | inl d ↦ ground (arith, e, d)
      | inr (v, d) ↦ ground (arith, e, d, added_unknown v e d)
    ]
    | inr (u, e) ↦ elim (Option-cases (last_user x new)) [
      | inl d ↦ ground (arith, e, d, deleted_unknown u e d)
      | inr (v, d) ↦ elim (Option-cases (find_key (user_key v) old)) [
        | inl f ↦ ground (arith, e, d, f)
        | inr (w, f) ↦ ground (arith, e, d, f, kept u v w e d f)
      ]
    ]
  ]

-- Of two lists that have distinct uuids, all of one length, and word-sized speed limits: if the
-- limiter follows the old list, then after UpdateUser with the differences that compareUserList finds
-- it follows the new one.
pub update_user-Follows :
    {B R : Type 0} (n : ℕ) (tag : String) (old new : List UserInfo) (l : Limiter B R)
    → IsUserList n old
    → IsUserList n new
    → Follows tag old l
    → let changes = compare_user_list old new in
      Follows tag new (update_user tag changes.1 changes.0 l)
update_user-Follows n tag old new l h k follows x =
    let changes = compare_user_list old new in
    let changed = compare_user_list-last_user n x old new h k in
    rw (update_user-entry tag x changes.1 changes.0 l, changed.0, changed.1)
      (entry_after n x old new h k _ (follows x))

-- A limiter that AddLimiter has just made follows its list.
pub new_limiter-Follows :
    (B R : Type 0) (tag : String) (speed_limit : ℕ) (users : List UserInfo)
    (alive_list : List (ℕ × ℕ))
    → let l : Limiter B R = new_limiter tag speed_limit users alive_list in Follows tag users l
unfolding new_entry
new_limiter-Follows B R tag speed_limit users alive_list x =
    let entry = new_limiter-entry B R tag x speed_limit users alive_list in
    elim (Option-cases (last_user x users)) [
      | inl e ↦ ground (arith, entry, e)
      | inr (u, e) ↦ ground (arith, entry, e)
    ]
