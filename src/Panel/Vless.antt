-- ===== src/Panel/Vless.antt =====
-- api/panel/vless.go: the decryption setting of a VLESS node. How long the bytes of a base64 text are is
-- an argument, `none` for a text that is none.
pub mod Source
pub mod Valid
use Prim.Native.Char.{Char, code}
use Prim.Native.String.{count}
use v2bx_outbound.Base.{
  ℕ, suc, ◌+◌, ◌-◌, ◌*◌, ◌^◌, String, ◌<>◌, ◌==◌, Bool, true, false, not, ◌&&◌, ◌||◌, Option, none,
  some, List, [], ◌∷◌, eqb, ltb, leb, if◌then◌else◌, length,
}

pub record EncSettings : Type 0 where
  pub mode : String
  pub ticket : String
  pub server_padding : String
  pub private_key : String

-- The fields of VAllssNode that are read here.
pub record VAllssNode : Type 0 where
  pub encryption : String
  pub encryption_settings : EncSettings
  pub decryption : Option String

-- strings.Split at a character; a text has a part at least.
abbrev pub cons_first : Char → List String → List String
cons_first c [] = String.◌∷◌ c "" ∷ []
cons_first c (part ∷ parts) = String.◌∷◌ c part ∷ parts

unfoldable pub split : ℕ → String → List String
split sep String.[] = "" ∷ []
split sep (String.◌∷◌ c s) =
    let rest = split sep s in if eqb (code c) sep then "" ∷ rest else cons_first c rest

-- strings.TrimSuffix(ticket, "s"), where it takes something off.
unfoldable pub before_s : String → Option String
before_s String.[] = none
before_s (String.◌∷◌ c String.[]) = if eqb (code c) 115 then some "" else none
before_s (String.◌∷◌ c (String.◌∷◌ d s)) = elim (before_s (String.◌∷◌ d s)) [
  | none ↦ none
  | some rest ↦ some (String.◌∷◌ c rest)
]

-- The digits of a text after a number.
unfoldable pub digits_value : ℕ → String → Option ℕ
digits_value n String.[] = some n
digits_value n (String.◌∷◌ c s) =
    let rest = digits_value (n * 10 + (code c - 48)) s in
    if leb 48 (code c) && leb (code c) 57 then rest else none

-- strconv.ParseUint(bound, 10, 32)
unfoldable pub parse_uint : String → Option ℕ
parse_uint bound = elim (digits_value 0 bound) [
  | none ↦ none
  | some n ↦ if not (bound == "") && ltb n (2 ^ 32) then some n else none
]

-- The loop over the bounds, with the previous one.
unfoldable pub check_bounds : Option ℕ → List String → Bool
check_bounds previous [] = true
check_bounds previous (bound ∷ bounds) = elim (parse_uint bound) [
  | none ↦ false
  | some seconds ↦
      let falls = elim previous as (λ p. Bool) [ none ↦ false | some p ↦ ltb seconds p ] in
      let rest = check_bounds (some seconds) bounds in
      if eqb seconds 0 || falls then false else rest
]

-- One digit at least.
abbrev pub is_number : String → Bool
is_number s =
    not (s == "") && (elim (digits_value 0 s) as (λ p. Bool) [ none ↦ false | some n ↦ true ])

abbrev pub three_numbers : List String → Bool
three_numbers (a ∷ b ∷ c ∷ []) = is_number a && is_number b && is_number c
three_numbers parts = false

-- `len(part) < 20 && vlessPaddingPattern.MatchString(part)`
unfoldable pub is_padding : String → Bool
is_padding part = ltb (count part) 20 && three_numbers (split 45 part)

abbrev pub no_settings : EncSettings → Bool
no_settings s = s.mode == "" && s.ticket == "" && s.server_padding == "" && s.private_key == ""

-- The parts, joined with dots.
unfoldable pub join_legacy : VAllssNode → String
join_legacy n =
    let s = n.encryption_settings in
    let padding = if s.server_padding == "" then "" else s.server_padding <> "." in
    n.encryption <> ("." <> (s.mode <> ("." <> (s.ticket <> ("." <> (padding <> s.private_key))))))

module _ (decoded_length : String → Option ℕ) where
  -- The loop over the parts: the number of keys, or `none` for an invalid part.
  unfoldable pub count_keys : List String → Option ℕ
  count_keys [] = some 0
  count_keys (part ∷ parts) =
      let rest = count_keys parts in
      let key : Option ℕ = elim (decoded_length part) [
        | none ↦ none
        | some n ↦
            let counted = elim rest as (λ k. Option ℕ) [
              | none ↦ none
              | some keys ↦ some (suc keys)
            ] in
            if eqb n 32 || eqb n 64 then counted else none
      ] in
      if is_padding part then rest else key

  unfoldable pub has_keys : List String → Bool
  has_keys parts = elim (count_keys parts) [ none ↦ false | some keys ↦ not (eqb keys 0) ]

  unfoldable pub check_ticket : String → Bool
  check_ticket part = elim (before_s part) [
    | none ↦ false
    | some ticket ↦
        let bounds = split 45 ticket in leb (length bounds) 2 && check_bounds none bounds
  ]

  abbrev pub check_split : List String → Bool
  check_split (algorithm ∷ mode ∷ ticket ∷ part ∷ parts) =
      algorithm == "mlkem768x25519plus"
      && (mode == "native" || mode == "xorpub" || mode == "random")
      && check_ticket ticket
      && has_keys (part ∷ parts)
  check_split parts = false

  -- true for a nil error
  unfoldable pub validate_vless_decryption : String → Bool
  validate_vless_decryption v = if v == "none" then true else check_split (split 46 v)

  -- `none` is an error, and a nil node.
  unfoldable pub vless_decryption : Option VAllssNode → Option String
  vless_decryption none = none
  vless_decryption (some n) =
      let bare = no_settings n.encryption_settings in
      let legacy_present = not (n.encryption == "" && bare) in
      let joins = legacy_present && not (n.encryption == "none") in
      let legacy = if joins then join_legacy n else "none" in
      let v = elim n.decryption as (λ d. String) [ none ↦ legacy | some d ↦ d ] in
      let conflicts = elim n.decryption as (λ d. Bool) [
        | none ↦ false
        | some d ↦ legacy_present && not (d == legacy)
      ] in
      if joins && not (n.encryption == "mlkem768x25519plus")
      then none
      else if n.encryption == "none" && not bare
      then none
      else if conflicts
      then none
      else if validate_vless_decryption v
      then some v
      else none
