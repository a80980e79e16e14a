-- ===== src/Xray/Users/Build.antt =====
-- core/xray/vmess.go, trojan.go and ss.go: the user of the Xray library that stands for a user of the
-- panel. base64 of the first bytes of a text is an argument.
use v2bx_outbound.Base.{ℕ, String, ◌==◌, ◌||◌, Option, none, some, List, map, if◌then◌else◌}
use v2bx_outbound.Panel.{UserInfo, user_tag}

-- core.AddUsersParams, with the fields of its NodeInfo that the core reads.
pub record AddUsersParams : Type 0 where
  pub tag : String
  pub users : List UserInfo
  pub kind : String
  pub flow : String
  pub cipher : String
  pub server_key : String

pub data CipherType : Type 0 where
  unknown aes_128_gcm aes_256_gcm chacha20_poly1305 : CipherType

pub data Account : Type 0 where
  vmess_account : (id security : String) → Account
  vless_account : (id flow : String) → Account
  trojan_account : (password : String) → Account
  shadowsocks_account : (password : String) (cipher_type : CipherType) → Account
  shadowsocks_2022_account : (key : String) → Account

-- protocol.User; the level is 0.
pub record User : Type 0 where
  pub email : String
  pub account : Account

unfoldable pub get_cipher_from_string : (String → String) → String → CipherType
get_cipher_from_string to_lower c =
    let l = to_lower c in
    if l == "aes-128-gcm" || l == "aead_aes_128_gcm"
    then aes_128_gcm
    else if l == "aes-256-gcm" || l == "aead_aes_256_gcm"
    then aes_256_gcm
    else if l == "chacha20-poly1305"
        || l == "aead_chacha20_poly1305"
        || l == "chacha20-ietf-poly1305"
    then chacha20_poly1305
    else unknown

unfoldable pub key_length : String → ℕ
key_length cypher =
    if cypher == "2022-blake3-aes-128-gcm"
    then 16
    else if cypher == "2022-blake3-aes-256-gcm" || cypher == "2022-blake3-chacha20-poly1305"
    then 32
    else 0

unfoldable pub build_vmess_user : String → UserInfo → User
build_vmess_user tag u = record {
  email = user_tag tag u.uuid;
  account = vmess_account u.uuid "auto";
}

unfoldable pub build_vless_user : String → String → UserInfo → User
build_vless_user tag flow u = record {
  email = user_tag tag u.uuid;
  account = vless_account u.uuid (if flow == "none" then "" else flow);
}

unfoldable pub build_trojan_user : String → UserInfo → User
build_trojan_user tag u = record { email = user_tag tag u.uuid; account = trojan_account u.uuid }

module _ (to_lower : String → String) (encode_to_string : ℕ → String → String) where
  unfoldable pub build_ss_user : String → String → String → UserInfo → User
  build_ss_user tag cypher server_key u = record {
    email = user_tag tag u.uuid;
    account =
        if server_key == ""
        then shadowsocks_account u.uuid (get_cipher_from_string to_lower cypher)
        else shadowsocks_2022_account (encode_to_string (key_length cypher) u.uuid);
  }

  -- The switch of AddUsers; `none` for a type that is not supported.
  unfoldable pub build_users : AddUsersParams → Option (List User)
  build_users p =
      if p.kind == "vmess"
      then some (map (build_vmess_user p.tag) p.users)
      else if p.kind == "vless"
      then some (map (build_vless_user p.tag p.flow) p.users)
      else if p.kind == "trojan"
      then some (map (build_trojan_user p.tag) p.users)
      else if p.kind == "shadowsocks"
      then some (map (build_ss_user p.tag p.cipher p.server_key) p.users)
      else none
