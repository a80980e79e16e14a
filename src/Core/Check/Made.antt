-- ===== src/Core/Check/Made.antt =====
-- The cores that are made of a configuration have the names and the types that were checked.
use v2bx_outbound.Base.{
  ℕ, suc, String, ◌==◌, eq_iff, eq_refl, Bool, true, false, ◌||◌, some, List, [], ◌∷◌, ◌≡◌, inl,
  inr, arith, if◌then◌else◌, Option-cases,
}
use v2bx_outbound.Base.Map.{lookup, insert, lookup-insert, string_key}
use v2bx_outbound.Conf.{CoreConfig}
use v2bx_outbound.Core.{Core}
use v2bx_outbound.Core.Selector.{Factory, new_cores}
use v2bx_outbound.Core.Check.{Known, is_known, check_cores}

-- One of the cores has the type.
abbrev pub has_kind : {W O : Type 0} → String → List (String × Core W O) → Bool
has_kind kind [] = false
has_kind kind ((name, c) ∷ cs) = if kind == c.kind then true else has_kind kind cs

-- The cores that were made are those that were checked.
abbrev pub Agree : {W O : Type 0} → Known → List (String × Core W O) → Type 0
Agree known cs =
    (k : String)
    → (is_known k known.0 ≡ is_known k cs) × (is_known k known.1 ≡ true → has_kind k cs ≡ true)

has_kind-insert :
    {W O : Type 0} (name kind : String) (c : Core W O) (cs : List (String × Core W O))
    → is_known name cs ≡ false
    → has_kind kind (insert name c cs) ≡ (has_kind kind cs || kind == c.kind)
unfolding insert lookup
has_kind-insert name kind c [] fresh = ground arith
has_kind-insert name kind c ((j, d) ∷ cs) fresh = ground (arith, has_kind-insert name kind c cs)

-- A factory makes cores of the type that is configured.
abbrev pub MakesKind : {C W O : Type 0} → List (String × Factory C W O) → Type 0
MakesKind {C} {W} {O} factories =
    (k : String) (f : Factory C W O) (cfg : CoreConfig C) (c : Core W O)
    → lookup k factories ≡ some f
    → f cfg ≡ some c
    → c.kind ≡ cfg.kind

-- The name that a core is known by.
abbrev core_name : {C : Type 0} → CoreConfig C → String
core_name cfg = if cfg.name == "" then cfg.kind else cfg.name

Agree-insert :
    {C W O : Type 0} (cfg : CoreConfig C) (names : List (String × String))
    (types : List (String × Bool)) (c : Core W O) (cs : List (String × Core W O))
    → Agree (names, types) cs
    → is_known (core_name cfg) names ≡ false
    → c.kind ≡ cfg.kind
    → Agree
        (insert (core_name cfg) cfg.kind names, insert cfg.kind true types)
        (insert (core_name cfg) c cs)
Agree-insert cfg names types c cs agree fresh same k =
    let name = core_name cfg in
    (
      ground (arith, agree k, lookup-insert name k cfg.kind names, lookup-insert name k c cs),
      λ known. ground (
        arith,
        agree k,
        known,
        same,
        eq_iff cfg.kind k,
        eq_refl k,
        lookup-insert cfg.kind k true types,
        has_kind-insert name k c cs (cc ((agree name).0, fresh)),
      ),
    )

module _ {C W O : Type 0} (validators : List (String × (CoreConfig C → Bool)))
    (to_lower : String → String) (factories : List (String × Factory C W O))
    (makes_kind : MakesKind factories) where
  -- A round of the loop over the cores that goes on.
  check_cores-next :
      (i : ℕ) (cfg : CoreConfig C) (cfgs : List (CoreConfig C)) (names : List (String × String))
      (types : List (String × Bool)) (known' : Known)
      → check_cores validators i (cfg ∷ cfgs) (names, types) ≡ inr known'
      → (is_known (core_name cfg) names ≡ false)
        × (check_cores validators
              (suc i)
              cfgs
              (insert (core_name cfg) cfg.kind names, insert cfg.kind true types)
            ≡ inr known')
  unfolding check_cores
  check_cores-next i cfg cfgs names types known' checked = ground (arith, checked)

  -- A round of the loop of NewSelector that goes on.
  new_cores-next :
      (cfg : CoreConfig C) (cfgs : List (CoreConfig C)) (cs cs' : List (String × Core W O))
      → new_cores to_lower factories (cfg ∷ cfgs) cs ≡ some cs'
      → (c : Core W O) × (c.kind ≡ cfg.kind)
        × (new_cores to_lower factories cfgs (insert (core_name cfg) c cs) ≡ some cs')
  unfolding new_cores
  new_cores-next cfg cfgs cs cs' made = elim (Option-cases (lookup (to_lower cfg.kind) factories)) [
    | inl e ↦ ground (arith, made, e)
    | inr (f, e) ↦ elim (Option-cases (f cfg)) [
      | inl e' ↦ ground (arith, made, e, e')
      | inr (c, e') ↦ (c, makes_kind (to_lower cfg.kind) f cfg c e e', ground (arith, made, e, e'))
    ]
  ]

  pub new_cores-Agree :
      (i : ℕ) (cfgs : List (CoreConfig C)) (known known' : Known)
      (cs cs' : List (String × Core W O))
      → Agree known cs
      → check_cores validators i cfgs known ≡ inr known'
      → new_cores to_lower factories cfgs cs ≡ some cs'
      → Agree known' cs'
  unfolding check_cores new_cores
  new_cores-Agree i [] known known' cs cs' agree checked made =
      λ k. ground (arith, agree k, checked, made)
  new_cores-Agree i (cfg ∷ cfgs) (names, types) known' cs cs' agree checked made =
      let checked' = check_cores-next i cfg cfgs names types known' checked in
      let made' = new_cores-next cfg cfgs cs cs' made in
      new_cores-Agree (suc i) cfgs _ known' _ cs'
        (Agree-insert cfg names types made'.0 cs agree checked'.0 made'.1) checked'.1 made'.2
