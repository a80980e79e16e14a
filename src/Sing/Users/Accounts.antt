-- ===== src/Sing/Users/Accounts.antt =====
-- setUsers of core/sing/user.go: the account that the library gets for a user, by the type of the node.
use v2bx_outbound.Base.{
  ℕ, String, ◌==◌, Bool, true, false, ◌&&◌, Option, none, some, List, [], ◌∷◌, map, ltb,
  if◌then◌else◌,
}
use v2bx_outbound.Base.Text.{after_prefix}
use v2bx_outbound.Panel.{UserInfo}

-- AddUsersParams of core/interface.go, with the three fields of its NodeInfo that the core reads.
pub record AddUsersParams : Type 0 where
  pub tag : String
  pub users : List UserInfo
  pub kind : String
  pub flow : String
  pub cipher : String

pub data Account : Type 0 where
  vless_user : (name flow uuid : String) → Account
  vmess_user : (name uuid : String) → Account
  shadowsocks_user : (name password : String) → Account
  trojan_user : (name password : String) → Account
  tuic_user : (name uuid password : String) → Account
  hysteria_user : (name auth_string : String) → Account
  hysteria2_user : (name password : String) → Account
  any_tls_user : (name password : String) → Account

-- What is asked of the library: nothing for a type without a case, nothing for a key that is too
-- short, or to take these accounts.
pub data Request : Type 0 where
  no_call : Request
  invalid_key : Request
  accounts : List Account → Request

unfoldable pub each_user : (String → Account) → List UserInfo → Request
each_user account users = accounts (map (λ u. account u.uuid) users)

abbrev pub has_prefix : String → String → Bool
has_prefix p s = elim (after_prefix p s) [ none ↦ false | some rest ↦ true ]

module _ (byte_length : String → ℕ) (encode_to_string : ℕ → String → String) where
  -- The key of the first bytes of the uuid, for the ciphers that have one.
  unfoldable pub shadowsocks_password : String → String → String
  shadowsocks_password cipher uuid =
      if cipher == "2022-blake3-aes-128-gcm"
      then encode_to_string 16 uuid
      else if cipher == "2022-blake3-aes-256-gcm"
      then encode_to_string 32 uuid
      else uuid

  unfoldable pub shadowsocks_users : String → List UserInfo → Option (List Account)
  shadowsocks_users cipher [] = some []
  shadowsocks_users cipher (u ∷ us) =
      let rest : Option (List Account) = elim (shadowsocks_users cipher us) [
        | none ↦ none
        | some later ↦ some (shadowsocks_user u.uuid (shadowsocks_password cipher u.uuid) ∷ later)
      ] in
      if ltb (byte_length u.uuid) 32 && has_prefix "2022-" cipher then none else rest

  -- The switch over the type of the node.
  unfoldable pub build_accounts : AddUsersParams → Request
  build_accounts p =
      if p.kind == "vless"
      then each_user (λ uuid. vless_user uuid p.flow uuid) p.users
      else if p.kind == "vmess"
      then each_user (λ uuid. vmess_user uuid uuid) p.users
      else if p.kind == "shadowsocks"
      then elim (shadowsocks_users p.cipher p.users) [ none ↦ invalid_key | some us ↦ accounts us ]
      else if p.kind == "trojan"
      then each_user (λ uuid. trojan_user uuid uuid) p.users
      else if p.kind == "tuic"
      then each_user (λ uuid. tuic_user uuid uuid uuid) p.users
      else if p.kind == "hysteria"
      then each_user (λ uuid. hysteria_user uuid uuid) p.users
      else if p.kind == "hysteria2"
      then each_user (λ uuid. hysteria2_user uuid uuid) p.users
      else if p.kind == "anytls"
      then each_user (λ uuid. any_tls_user uuid uuid) p.users
      else no_call
