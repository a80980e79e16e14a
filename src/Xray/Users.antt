-- ===== src/Xray/Users.antt =====
-- AddUsers of core/xray/user.go. The user manager of an inbound is a state of the Xray library: an
-- interface with what the code relies on.
pub mod Build
pub mod Atomic
use v2bx_outbound.Base.{
  ℕ, String, ◌==◌, Bool, true, false, not, ◌&&◌, ◌||◌, Option, none, some, List, [], ◌∷◌, ◌++◌,
  length, ◌≡◌, if◌then◌else◌,
}
use v2bx_outbound.Base.Map.{insert, delete, string_key}
use v2bx_outbound.Panel.{UserInfo, user_tag}
use v2bx_outbound.Xray.{Xray}
use v2bx_outbound.Xray.Users.Build.{AddUsersParams, User, build_users}

-- The library compares emails by a key, their lower case. AddUser refuses an email that is there, and
-- changes nothing when it fails; RemoveUser removes the email that it is given, and no other.
pub record UserManager (U M : Type 0) : Type 0 where
  pub email : U → String
  pub key : String → String
  pub to_memory_user : User → Option U
  pub get_user : String → M → Bool
  pub add_user : U → M → M × Bool
  pub remove_user : String → M → M × Bool
  pub get_user-key : (a b : String) (m : M) → key a ≡ key b → get_user a m ≡ get_user b m
  pub to_memory_user-email : (u : User) (v : U) → to_memory_user u ≡ some v → email v ≡ u.email
  pub add_user-refuses : (u : U) (m : M) → (add_user u m).1 ≡ true → get_user (email u) m ≡ false
  pub add_user-adds :
      (u : U) (m : M) (e : String)
      → get_user e (add_user u m).0 ≡ ((add_user u m).1 && key (email u) == key e || get_user e m)
  pub remove_user-removes :
      (x : String) (m : M) (e : String)
      → get_user e (remove_user x m).0 ≡ (not (key x == key e) && get_user e m)

-- What AddUsers changes of the core: ids, links and who is let in. A link manager is a reference.
pub record Server : Type 0 where
  pub uid_map : List (String × ℕ)
  pub link_managers : List (String × ℕ)
  pub allowed_users : List (String × Unit {0})

-- The last loop.
unfoldable pub register_users : String → List UserInfo → Server → Server
register_users tag [] c = c
register_users tag (u ∷ us) c =
    let email = user_tag tag u.uuid in
    register_users tag us (record c {
      uid_map = insert email u.id c.uid_map;
      link_managers = delete email c.link_managers;
      allowed_users = insert email tt c.allowed_users;
    })

module _ {U M : Type 0} (man : UserManager U M) where
  -- All users as users of the library, or `none` if one of them is invalid.
  unfoldable pub to_memory_users : List User → Option (List U)
  to_memory_users [] = some []
  to_memory_users (u ∷ us) = elim (man.to_memory_user u) [
    | none ↦ none
    | some m_user ↦ elim (to_memory_users us) [
      | none ↦ none
      | some memory_users ↦ some (m_user ∷ memory_users)
    ]
  ]

  unfoldable pub remove_installed : List String → M → M
  remove_installed [] m = m
  remove_installed (email ∷ installed) m = remove_installed installed (man.remove_user email m).0

  -- The loop of AddUser, with the emails that are installed so far.
  unfoldable pub install_users : List String → List U → M → M × Bool
  install_users installed [] m = (m, true)
  install_users installed (u ∷ us) m =
      let added = man.add_user u m in
      let rest = install_users (installed ++ man.email u ∷ []) us added.0 in
      if added.1 then rest else (remove_installed installed added.0, false)

  module _ (to_lower : String → String) (encode_to_string : ℕ → String → String)
      (has_manager : Bool) where
    -- `has_manager` says whether GetUserManager finds one. The number of users, or `none` for an error.
    unfoldable pub add_users : AddUsersParams → Server × M → (Server × M) × Option ℕ
    add_users p (c, m) = elim (build_users to_lower encode_to_string p) [
      | none ↦ ((c, m), none)
      | some users ↦
          let filled : (Server × M) × Option ℕ = elim (to_memory_users users) [
            | none ↦ ((c, m), none)
            | some memory_users ↦
                let installed = install_users [] memory_users m in
                if installed.1
                then ((register_users p.tag p.users c, installed.0), some (length users))
                else ((c, installed.0), none)
          ] in
          if has_manager then filled else ((c, m), none)
    ]
