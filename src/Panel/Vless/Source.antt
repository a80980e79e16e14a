-- ===== src/Panel/Vless/Source.antt =====
-- Which value VLESSDecryption takes from the two sources of a node.
use v2bx_outbound.Base.{
  String, ◌==◌, eq_iff, Bool, true, false, not, ◌&&◌, ◌||◌, Option, none, some, ◌≡◌, ◌↔◌, inl, inr,
  subst, refl, ap, arith, ℕ, if◌then◌else◌, Option-cases,
}
use v2bx_outbound.Panel.Vless.Valid.{
  dotted, legacy_parts, is_decryption, join_legacy_lem, validate_vless_decryption_lem,
}
use v2bx_outbound.Panel.Vless.{
  VAllssNode, no_settings, join_legacy, vless_decryption, validate_vless_decryption,
}

-- The value is what the old fields of the node say, if they say something.
abbrev fits_joined : String → VAllssNode → String → Bool
fits_joined joined n v =
    if n.encryption == "none"
    then no_settings n.encryption_settings && v == "none"
    else if n.encryption == "" && no_settings n.encryption_settings
    then true
    else n.encryption == "mlkem768x25519plus" && v == joined

-- The parts of the old fields stand with dots between them.
abbrev pub fits_legacy : VAllssNode → String → Bool
fits_legacy n v = fits_joined (dotted (legacy_parts n)) n v

-- The value is the new field, if there is one, and "none" if neither says something.
abbrev pub fits_decryption : VAllssNode → String → Bool
fits_decryption n v = elim n.decryption [
  | some d ↦ v == d
  | none ↦ not (n.encryption == "" && no_settings n.encryption_settings) || v == "none"
]

none-is_used : (x : String) → (x == "none") ≡ true → (x == "") ≡ false
none-is_used x e = rw ((eq_iff x "none").0 e) refl

module _ (decoded_length : String → Option ℕ) where
  vless_decryption-fits :
      (n : VAllssNode) (v : String)
      → (vless_decryption decoded_length (some n) ≡ some v) ↔ (
          (validate_vless_decryption decoded_length v
            && fits_joined (join_legacy n) n v
            && fits_decryption n v)
          ≡ true)
  unfolding vless_decryption
  vless_decryption-fits n v = elim (Option-cases n.decryption) [
    | inl e ↦ (
      λ h. ground (
        arith,
        e,
        h,
        eq_iff v "none",
        eq_iff v (join_legacy n),
        none-is_used n.encryption,
        eq_iff n.encryption "",
        eq_iff n.encryption "mlkem768x25519plus",
      ),
      λ h. ground (
        arith,
        e,
        h,
        eq_iff v "none",
        eq_iff v (join_legacy n),
        none-is_used n.encryption,
        eq_iff n.encryption "",
        eq_iff n.encryption "mlkem768x25519plus",
      ),
    )
    | inr (d, e) ↦ (
      λ h.
          let same : d ≡ v = ground (arith, e, h) in
          ground (
            arith,
            e,
            h,
            same,
            ap (λ x. x == "none") same,
            ap (λ x. x == join_legacy n) same,
            ap (λ x. validate_vless_decryption decoded_length x) same,
            eq_iff v "none",
            eq_iff v (join_legacy n),
            none-is_used n.encryption,
            eq_iff n.encryption "",
            eq_iff n.encryption "mlkem768x25519plus",
            eq_iff v d,
            eq_iff d "none",
            eq_iff d (join_legacy n),
          ),
      λ h. ground (
        arith,
        e,
        h,
        eq_iff v "none",
        eq_iff v (join_legacy n),
        none-is_used n.encryption,
        eq_iff n.encryption "",
        eq_iff n.encryption "mlkem768x25519plus",
        eq_iff v d,
        eq_iff d "none",
        eq_iff d (join_legacy n),
      ),
    )
  ]

  -- VLESSDecryption returns a value exactly if it is "none" or its parts between the dots are the
  -- algorithm, a mode, a ticket of one or two positive bounds that do not fall, and keys or padding with
  -- a key among them; if the old fields of the node, where they are used, say the same: encryption, mode,
  -- ticket, padding if there is one, and key with dots between them; if the new field, where there is
  -- one, is that value; and if, where neither is used, it is "none".
  pub vless_decryption_iff :
      (n : VAllssNode) (v : String)
      → (vless_decryption decoded_length (some n) ≡ some v)
        ↔ ((is_decryption decoded_length v && fits_legacy n v && fits_decryption n v) ≡ true)
  vless_decryption_iff n v =
      subst
        (λ joined. (vless_decryption decoded_length (some n) ≡ some v) ↔ (
          (is_decryption decoded_length v && fits_joined joined n v && fits_decryption n v) ≡ true))
        (join_legacy_lem n)
        (subst
          (λ valid.
            (vless_decryption decoded_length (some n) ≡ some v)
            ↔ ((valid && fits_joined (join_legacy n) n v && fits_decryption n v) ≡ true))
          (validate_vless_decryption_lem decoded_length v) (vless_decryption-fits n v))
