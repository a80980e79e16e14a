-- ===== src/Panel/Vless/Valid.antt =====
-- What a VLESS decryption is, apart from the loops that check one and the concatenation that makes one.
use text.Mathlib.TextLemmas.{append_assoc, nil-append}
use Prim.Native.Char.{Char}
use v2bx_outbound.Base.{
  ℕ, String, ◌<>◌, ◌==◌, Bool, true, false, not, ◌&&◌, ◌||◌, Option, none, some, List, [], ◌∷◌, ◌≡◌,
  eqb, leb, ltb, refl, arith, inl, inr, if◌then◌else◌, Option-cases, Bool-cases, length,
}
use v2bx_outbound.Panel.Vless.{
  VAllssNode, cons_first, split, before_s, parse_uint, check_bounds, is_padding, join_legacy,
  count_keys, has_keys, check_ticket, check_split, validate_vless_decryption,
}

-- Texts with dots between them.
abbrev pub dotted : List String → String
dotted [] = ""
dotted (part ∷ []) = part
dotted (part ∷ next ∷ parts) = part <> ("." <> dotted (next ∷ parts))

-- The old fields in order, the padding only if there is one.
abbrev pub legacy_parts : VAllssNode → List String
legacy_parts n =
    let s = n.encryption_settings in
    let padded =
      if s.server_padding == ""
      then s.private_key ∷ []
      else s.server_padding ∷ s.private_key ∷ [] in
    n.encryption ∷ s.mode ∷ s.ticket ∷ padded

pub join_legacy_lem : (n : VAllssNode) → join_legacy n ≡ dotted (legacy_parts n)
unfolding join_legacy
join_legacy_lem n =
    let s = n.encryption_settings in
    elim (Bool-cases (s.server_padding == "")) [
      | inl e ↦ rw (e, nil-append s.private_key) refl
      | inr e ↦ rw (e, append_assoc s.server_padding "." s.private_key) refl
    ]

-- One or two positive bounds, the second not below the first.
abbrev pub rises : List String → Bool
rises (low ∷ []) = elim (parse_uint low) as (λ p. Bool) [ none ↦ false | some x ↦ ltb 0 x ]
rises (low ∷ high ∷ []) = elim (parse_uint low) as (λ p. Bool) [
  | none ↦ false
  | some x ↦ elim (parse_uint high) as (λ p. Bool) [ none ↦ false | some y ↦ ltb 0 x && leb x y ]
]
rises _ = false

abbrev pub is_ticket : String → Bool
is_ticket ticket = elim (before_s ticket) [ none ↦ false | some bounds ↦ rises (split 45 bounds) ]

cons_first-nonempty : (c : Char) (parts : List String) → leb 1 (length (cons_first c parts)) ≡ true
cons_first-nonempty c [] = refl
cons_first-nonempty c (part ∷ parts) = ground arith

split-nonempty : (c : ℕ) (s : String) → leb 1 (length (split c s)) ≡ true
unfolding split
split-nonempty c String.[] = refl
split-nonempty c (String.◌∷◌ d s) = ground (arith, cons_first-nonempty d (split c s))

check_ticket-rises :
    (bounds : List String)
    → leb 1 (length bounds) ≡ true
    → (leb (length bounds) 2 && check_bounds none bounds) ≡ rises bounds
unfolding check_bounds
check_ticket-rises [] e = ground (arith, e)
check_ticket-rises (low ∷ []) e = ground arith
check_ticket-rises (low ∷ high ∷ []) e = ground arith
check_ticket-rises (low ∷ high ∷ more ∷ bounds) e = ground arith

check_ticket_lem :
    (decoded_length : String → Option ℕ) (ticket : String)
    → check_ticket decoded_length ticket ≡ is_ticket ticket
unfolding check_ticket
check_ticket_lem decoded_length ticket = elim (Option-cases (before_s ticket)) [
  | inl e ↦ ground (arith, e)
  | inr (t, e) ↦ ground (arith, e, check_ticket-rises (split 45 t), split-nonempty 45 t)
]

module _ (decoded_length : String → Option ℕ) where
  -- A part that is no padding and stands for 32 or 64 bytes.
  abbrev pub is_key : String → Bool
  is_key part = not (is_padding part) && (elim (decoded_length part) as (λ d. Bool) [
    | none ↦ false
    | some n ↦ eqb n 32 || eqb n 64
  ])

  abbrev pub all_known : List String → Bool
  all_known [] = true
  all_known (part ∷ parts) = (is_padding part || is_key part) && all_known parts

  abbrev pub any_key : List String → Bool
  any_key [] = false
  any_key (part ∷ parts) = is_key part || any_key parts

  count_keys_lem :
      (parts : List String)
      → (elim (count_keys decoded_length parts) as (λ k. Bool) [ none ↦ false | some k ↦ true ]
          ≡ all_known parts)
        × (has_keys decoded_length parts ≡ (all_known parts && any_key parts))
  unfolding count_keys has_keys
  count_keys_lem [] = (refl, refl)
  count_keys_lem (part ∷ parts) = ground (arith, count_keys_lem parts)

  abbrev pub is_full : List String → Bool
  is_full (algorithm ∷ mode ∷ ticket ∷ parts) =
      algorithm == "mlkem768x25519plus"
      && (mode == "native" || mode == "xorpub" || mode == "random")
      && is_ticket ticket
      && all_known parts
      && any_key parts
  is_full _ = false

  -- "none", or the parts between the dots are the algorithm, a mode, a ticket, and keys and padding,
  -- with a key among them.
  abbrev pub is_decryption : String → Bool
  is_decryption v = v == "none" || is_full (split 46 v)

  check_split_lem : (parts : List String) → check_split decoded_length parts ≡ is_full parts
  check_split_lem [] = refl
  check_split_lem (algorithm ∷ []) = refl
  check_split_lem (algorithm ∷ mode ∷ []) = refl
  check_split_lem (algorithm ∷ mode ∷ ticket ∷ []) = ground arith
  check_split_lem (algorithm ∷ mode ∷ ticket ∷ part ∷ parts) =
      ground (arith, check_ticket_lem decoded_length ticket, count_keys_lem (part ∷ parts))

  pub validate_vless_decryption_lem :
      (v : String) → validate_vless_decryption decoded_length v ≡ is_decryption v
  unfolding validate_vless_decryption
  validate_vless_decryption_lem v = ground (arith, check_split_lem (split 46 v))
