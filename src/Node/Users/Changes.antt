-- ===== src/Node/Users/Changes.antt =====
-- Which users compareUserList deletes and adds, by uuid.
use Prim.Native.String.{count}
use v2bx_outbound.Base.{
  ℕ, ◌<◌, String, ◌==◌, eq_iff, eq_refl, Option, none, some, List, [], ◌∷◌, ◌≡◌, ◌≢◌, refl, sym,
  ◌∙◌, subst, arith, if◌then◌else◌, int_mod, Option-cases, inl, inr,
}
use v2bx_outbound.Panel.{UserInfo}
use v2bx_outbound.Panel.UserList.{last_user, IsUserList, last_user-found}
use v2bx_outbound.Node.Users.{user_key, compare_user_list}
use v2bx_outbound.Node.Users.Keyed.{
  user_key-injective, find_key, drop_key, drop_keys, keep_new, compare_user_list-keyed,
}

-- The user, unless it has the key.
abbrev unless_key : String → Option UserInfo → Option UserInfo
unless_key k none = none
unless_key k (some u) = if user_key u == k then none else some u

-- The user, unless one of the list has its key.
abbrev pub unless_listed : List UserInfo → Option UserInfo → Option UserInfo
unless_listed users none = none
unless_listed users (some u) = elim (find_key (user_key u) users) [ none ↦ some u | some v ↦ none ]

-- A uuid stands once.
distinct :
    (x : String) (user : UserInfo) (users : List UserInfo)
    → last_user user.uuid users ≡ none
    → user.uuid ≡ x
    → last_user x users ≡ none
distinct x user users h e = subst (λ y. last_user y users ≡ none) e h

last_user-drop_key :
    (n : ℕ) (x k : String) (users : List UserInfo)
    → IsUserList n users
    → last_user x (drop_key k users) ≡ unless_key k (last_user x users)
last_user-drop_key n x k [] h = refl
last_user-drop_key n x k (user ∷ users) h =
    ground
      (arith, eq_iff user.uuid x, distinct x user users h.0, last_user-drop_key n x k users h.3)

drop_key-IsUserList :
    (n : ℕ) (k : String) (users : List UserInfo)
    → IsUserList n users
    → IsUserList n (drop_key k users)
drop_key-IsUserList n k [] h = tt
drop_key-IsUserList n k (user ∷ users) h =
    ground (arith, last_user-drop_key n user.uuid k users h.3, drop_key-IsUserList n k users h.3)

unless_listed-cons :
    (v : UserInfo) (users : List UserInfo) (o : Option UserInfo)
    → unless_listed users (unless_key (user_key v) o) ≡ unless_listed (v ∷ users) o
unless_listed-cons v users none = refl
unless_listed-cons v users (some u) =
    ground (arith, eq_iff (user_key u) (user_key v), eq_iff (user_key v) (user_key u))

last_user-drop_keys :
    (n : ℕ) (x : String) (new users : List UserInfo)
    → IsUserList n users
    → last_user x (drop_keys new users) ≡ unless_listed new (last_user x users)
last_user-drop_keys n x [] users h = ground arith
last_user-drop_keys n x (v ∷ new) users h =
    last_user-drop_keys n x new (drop_key (user_key v) users) (drop_key-IsUserList n _ users h)
    ∙ rw (last_user-drop_key n x (user_key v) users h)
        (unless_listed-cons v new (last_user x users))

find_key-drop_key :
    (j k : String) (users : List UserInfo)
    → find_key j (drop_key k users) ≡ (if k == j then none else find_key j users)
find_key-drop_key j k [] = ground arith
find_key-drop_key j k (user ∷ users) = ground (
  arith,
  eq_iff (user_key user) k,
  eq_iff (user_key user) j,
  eq_iff k j,
  find_key-drop_key j k users,
)

-- Users of one list have different keys.
keys_differ :
    (n : ℕ) (x : String) (user v : UserInfo) (new : List UserInfo)
    → IsUserList n (user ∷ new)
    → last_user x new ≡ some v
    → user_key user ≢ user_key v
keys_differ n x user v new h e same =
    let found = last_user-found n x new v h.3 e in
    let parts = user_key-injective user v (h.1 ∙ sym found.1) h.2 found.2 same in
    cc (e, distinct x user new h.0 (parts.0 ∙ found.0))

-- A later user of the list with another uuid is not affected by the deletion of a key.
unless_listed-drop_key :
    (n : ℕ) (x : String) (user : UserInfo) (new users : List UserInfo)
    → IsUserList n (user ∷ new)
    → unless_listed (drop_key (user_key user) users) (last_user x new)
      ≡ unless_listed users (last_user x new)
unless_listed-drop_key n x user new users h = elim (Option-cases (last_user x new)) [
  | inl e ↦ rw e
  | inr (v, e) ↦ ground (
    arith,
    e,
    eq_iff (user_key user) (user_key v),
    keys_differ n x user v new h e,
    find_key-drop_key (user_key v) (user_key user) users,
  )
]

last_user-keep_new :
    (n : ℕ) (x : String) (new users : List UserInfo)
    → IsUserList n new
    → last_user x (keep_new new users) ≡ unless_listed users (last_user x new)
last_user-keep_new n x [] users h = refl
last_user-keep_new n x (user ∷ new) users h = ground (
  arith,
  eq_iff user.uuid x,
  distinct x user new h.0,
  last_user-keep_new n x new (drop_key (user_key user) users) h.3,
  unless_listed-drop_key n x user new users h,
)

-- A user found by key is the user of its uuid, and has the speed limit of the key.
pub find_key-found :
    (n : ℕ) (v w : UserInfo) (users : List UserInfo)
    → IsUserList n users
    → count v.uuid ≡ n
    → v.speed_limit < int_mod
    → find_key (user_key v) users ≡ some w
    → (last_user v.uuid users ≡ some w) × (w.speed_limit ≡ v.speed_limit)
find_key-found n v w [] h c l e = ground arith
find_key-found n v w (user ∷ users) h c l e = ground (
  arith,
  eq_iff (user_key user) (user_key v),
  eq_iff user.uuid v.uuid,
  distinct v.uuid user users h.0,
  user_key-injective user v (h.1 ∙ sym c) h.2 l,
  find_key-found n v w users h.3 c l,
)

pub find_key-present :
    (x : String) (v : UserInfo) (users : List UserInfo)
    → last_user x users ≡ some v
    → find_key (user_key v) users ≢ none
find_key-present x v [] e = ground arith
find_key-present x v (user ∷ users) e =
    ground (arith, eq_refl (user_key v), find_key-present x v users)

pub compare_user_list-last_user :
    (n : ℕ) (x : String) (old new : List UserInfo)
    → IsUserList n old
    → IsUserList n new
    → (last_user x (compare_user_list old new).0 ≡ unless_listed new (last_user x old))
      × (last_user x (compare_user_list old new).1 ≡ unless_listed old (last_user x new))
compare_user_list-last_user n x old new h k =
    rw (compare_user_list-keyed n old new h)
      (last_user-drop_keys n x new old h, last_user-keep_new n x new old k)
