-- ===== src/Panel/UserList.antt =====
-- Lists of users as the panel sends them: one entry for each uuid, all uuids of one length.
use Prim.Native.String.{count}
use v2bx_outbound.Base.{
  ℕ, ◌<◌, String, ◌==◌, eq_iff, Option, none, some, List, [], ◌∷◌, ◌≡◌, arith, if◌then◌else◌,
  int_mod,
}
use v2bx_outbound.Panel.{UserInfo}

-- The last user of a list with this uuid.
abbrev pub last_user : String → List UserInfo → Option UserInfo
last_user uuid [] = none
last_user uuid (user ∷ users) = elim (last_user uuid users) [
  | some later ↦ some later
  | none ↦ if user.uuid == uuid then some user else none
]

-- The uuids are distinct and of length `n`, and the speed limits are words.
abbrev pub IsUserList : ℕ → List UserInfo → Type 0
IsUserList n [] = Unit
IsUserList n (user ∷ users) =
    (last_user user.uuid users ≡ none)
    × (count user.uuid ≡ n)
    × (user.speed_limit < int_mod)
    × IsUserList n users

-- A user that is found is one of the list.
pub last_user-found :
    (n : ℕ) (uuid : String) (users : List UserInfo) (u : UserInfo)
    → IsUserList n users
    → last_user uuid users ≡ some u
    → (u.uuid ≡ uuid) × (count u.uuid ≡ n) × (u.speed_limit < int_mod)
last_user-found n uuid [] u h e = ground arith
last_user-found n uuid (user ∷ users) u h e =
    ground (arith, eq_iff user.uuid uuid, last_user-found n uuid users u h.3)
