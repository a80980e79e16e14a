-- ===== src/Panel/Tests.antt =====
-- A VLESS node with old fields, with both, and with fields that disagree.
use v2bx_outbound.Base.{
  ℕ, String, ◌==◌, true, ◌&&◌, if◌then◌else◌, Option, none, some, ◌≡◌, ◌↔◌, refl,
}
use v2bx_outbound.Panel.Vless.{
  EncSettings, VAllssNode, vless_decryption, validate_vless_decryption, split, before_s,
  digits_value, parse_uint, check_bounds, is_padding, count_keys, has_keys, check_ticket,
  join_legacy,
}
use v2bx_outbound.Panel.Vless.Valid.{is_decryption}
use v2bx_outbound.Panel.Vless.Source.{fits_legacy, fits_decryption, vless_decryption_iff}

-- Four characters of base64 are three bytes; the key of the node stands for 32 of them.
abbrev decoded_length : String → Option ℕ
decoded_length s = if s == "key" then some 32 else none

abbrev joined : String
joined = "mlkem768x25519plus.native.300-600s.100-111-1111.key"

abbrev settings : EncSettings
settings = record {
  mode = "native";
  ticket = "300-600s";
  server_padding = "100-111-1111";
  private_key = "key";
}

abbrev node : Option String → VAllssNode
node decryption = record {
  encryption = "mlkem768x25519plus";
  encryption_settings = settings;
  decryption = decryption;
}

node_accepted : vless_decryption decoded_length (some (node none)) ≡ some joined
unfolding vless_decryption validate_vless_decryption split before_s digits_value parse_uint
    check_bounds is_padding count_keys has_keys check_ticket join_legacy
node_accepted = refl

node_conflicts : vless_decryption decoded_length (some (node (some "none"))) ≡ none
unfolding vless_decryption join_legacy
node_conflicts = refl

vless_decryption_iff_example :
    (vless_decryption decoded_length (some (node (some joined))) ≡ some joined) ↔ (
      (is_decryption decoded_length joined
        && fits_legacy (node (some joined)) joined
        && fits_decryption (node (some joined)) joined)
      ≡ true)
vless_decryption_iff_example = vless_decryption_iff decoded_length (node (some joined)) joined
