-- ===== src/Node/Users/Keyed.antt =====
-- The maps of compareUserList are keyed lists of users.
use Prim.Native.String.{count}
use text.Mathlib.TextLemmas.{append_inj}
use mathlib.Core.List.{append-nil, append_assoc}
use v2bx_outbound.Base.{
  ℕ, ◌<◌, String, ◌==◌, eq_iff, Option, none, some, List, [], ◌∷◌, ◌++◌, ◌≡◌, refl, ap, ◌∙◌, arith,
  if◌then◌else◌, int_mod, All, sym,
}
use v2bx_outbound.Base.Text.Decimal.{itoa-injective}
use v2bx_outbound.Base.Map.{lookup, insert, delete, string_key}
use v2bx_outbound.Panel.{UserInfo}
use v2bx_outbound.Panel.UserList.{last_user, IsUserList}
use v2bx_outbound.Node.Users.{user_key, index_users, match_users, left_over, compare_user_list}

-- Users of one uuid length have the same key exactly if uuid and speed limit agree.
pub user_key-injective :
    (u v : UserInfo)
    → count u.uuid ≡ count v.uuid
    → u.speed_limit < int_mod
    → v.speed_limit < int_mod
    → user_key u ≡ user_key v
    → (u.uuid ≡ v.uuid) × (u.speed_limit ≡ v.speed_limit)
unfolding user_key
user_key-injective u v h k l e =
    let parts = append_inj e h in (parts.0, itoa-injective u.speed_limit v.speed_limit k l parts.1)

abbrev pub keyed : List UserInfo → List (String × UserInfo)
keyed [] = []
keyed (user ∷ users) = (user_key user, user) ∷ keyed users

-- The first user of the list with this key.
abbrev pub find_key : String → List UserInfo → Option UserInfo
find_key k [] = none
find_key k (user ∷ users) = if user_key user == k then some user else find_key k users

abbrev pub drop_key : String → List UserInfo → List UserInfo
drop_key k [] = []
drop_key k (user ∷ users) =
    let rest = drop_key k users in if user_key user == k then rest else user ∷ rest

abbrev pub drop_keys : List UserInfo → List UserInfo → List UserInfo
drop_keys [] users = users
drop_keys (gone ∷ others) users = drop_keys others (drop_key (user_key gone) users)

-- Those of the list whose key the users left over from `users` do not have.
abbrev pub keep_new : List UserInfo → List UserInfo → List UserInfo
keep_new [] users = []
keep_new (user ∷ new) users =
    let added = keep_new new (drop_key (user_key user) users) in
    elim (find_key (user_key user) users) [ none ↦ user ∷ added | some found ↦ added ]

lookup-keyed : (k : String) (users : List UserInfo) → lookup k (keyed users) ≡ find_key k users
unfolding lookup
lookup-keyed k [] = refl
lookup-keyed k (user ∷ users) = ground (arith, lookup-keyed k users)

delete-keyed :
    (k : String) (users : List UserInfo) → delete k (keyed users) ≡ keyed (drop_key k users)
unfolding delete
delete-keyed k [] = refl
delete-keyed k (user ∷ users) = ground (arith, delete-keyed k users)

drop_key-none :
    (k : String) (users : List UserInfo) → find_key k users ≡ none → drop_key k users ≡ users
drop_key-none k [] h = refl
drop_key-none k (user ∷ users) h = ground (arith, drop_key-none k users)

insert-keyed :
    (user : UserInfo) (users : List UserInfo)
    → find_key (user_key user) users ≡ none
    → insert (user_key user) user (keyed users) ≡ keyed (users ++ user ∷ [])
unfolding insert
insert-keyed user [] h = refl
insert-keyed user (u ∷ users) h = ground (arith, insert-keyed user users)

left_over-keyed : (users : List UserInfo) → left_over (keyed users) ≡ users
unfolding left_over
left_over-keyed [] = refl
left_over-keyed (user ∷ users) = ap (◌∷◌ user) (left_over-keyed users)

match_users-keyed :
    (new users : List UserInfo)
    → match_users new (keyed users) ≡ (keep_new new users, keyed (drop_keys new users))
unfolding match_users
match_users-keyed [] users = refl
match_users-keyed (user ∷ new) users = ground (
  arith,
  lookup-keyed (user_key user) users,
  delete-keyed (user_key user) users,
  drop_key-none (user_key user) users,
  match_users-keyed new users,
  match_users-keyed new (drop_key (user_key user) users),
)

-- No user of the first list has the uuid of a user of the second.
abbrev Apart : List UserInfo → List UserInfo → Type 0
Apart users later = All (λ u. last_user u.uuid later ≡ none) users

find_key-Apart :
    (n : ℕ) (user : UserInfo) (users later : List UserInfo)
    → IsUserList n users
    → count user.uuid ≡ n
    → user.speed_limit < int_mod
    → Apart users (user ∷ later)
    → find_key (user_key user) users ≡ none
find_key-Apart n user [] later h c w a = refl
find_key-Apart n user (u ∷ users) later h c w a = ground (
  arith,
  eq_iff (user_key u) (user_key user),
  eq_iff user.uuid u.uuid,
  user_key-injective u user (h.1 ∙ sym c) h.2 w,
  find_key-Apart n user users later h.3 c w a.1,
)

Apart-snoc :
    (user : UserInfo) (users later : List UserInfo)
    → last_user user.uuid later ≡ none
    → Apart users (user ∷ later)
    → Apart (users ++ user ∷ []) later
Apart-snoc user [] later h a = (h, tt)
Apart-snoc user (u ∷ users) later h a = (ground arith, Apart-snoc user users later h a.1)

last_user-snoc :
    (x : String) (users : List UserInfo) (user : UserInfo)
    → last_user x users ≡ none
    → last_user x (user ∷ []) ≡ none
    → last_user x (users ++ user ∷ []) ≡ none
last_user-snoc x [] user h k = k
last_user-snoc x (u ∷ users) user h k = ground (arith, last_user-snoc x users user)

IsUserList-snoc :
    (n : ℕ) (user : UserInfo) (users later : List UserInfo)
    → IsUserList n users
    → count user.uuid ≡ n
    → user.speed_limit < int_mod
    → Apart users (user ∷ later)
    → IsUserList n (users ++ user ∷ [])
IsUserList-snoc n user [] later h c w a = (refl, c, w, tt)
IsUserList-snoc n user (u ∷ users) later h c w a = (
  last_user-snoc u.uuid users user h.0 (ground arith),
  h.1,
  h.2,
  IsUserList-snoc n user users later h.3 c w a.1,
)

index_users-keyed :
    (n : ℕ) (old seen : List UserInfo)
    → IsUserList n seen
    → IsUserList n old
    → Apart seen old
    → index_users old (keyed seen) ≡ keyed (seen ++ old)
unfolding index_users
index_users-keyed n [] seen h k a = rw append-nil
index_users-keyed n (user ∷ old) seen h k a =
    rw
      (
        insert-keyed user seen (find_key-Apart n user seen old h k.1 k.2 a),
        ← append_assoc seen (user ∷ []) old,
      )
      (index_users-keyed n old (seen ++ user ∷ []) (IsUserList-snoc n user seen old h k.1 k.2 a) k.3
        (Apart-snoc user seen old k.0 a))

-- The users that compareUserList deletes and adds.
pub compare_user_list-keyed :
    (n : ℕ) (old new : List UserInfo)
    → IsUserList n old
    → compare_user_list old new ≡ (drop_keys new old, keep_new new old)
unfolding compare_user_list
compare_user_list-keyed n old new h =
    rw (index_users-keyed n old [] tt h tt, match_users-keyed new old, left_over-keyed)
