-- ===== src/Base/Map.antt =====
-- Go's `map` and `sync.Map` as association lists. A key that is stored again keeps its place.
-- Go ranges over a map in no fixed order: a range here goes by the list, and what is proved of a
-- range holds of every list.
use Prim.Native.Nat.{ℕ}
use Prim.Native.String.{String}
use mathlib.Core.Path.{◌≡◌, refl}
use mathlib.Core.Logic.{◌↔◌}
use mathlib.Core.Bool.{Bool, true}
use mathlib.Core.Option.{Option, none, some}
use mathlib.Core.List.{List, [], ◌∷◌}
use native.Mathlib.Omega.{arith}
use text.Mathlib.Text.{◌==◌}
use text.Mathlib.TextEquality.{eq_iff}
use v2bx_outbound.Base.Tests.{eqb, eqb_iff, if◌then◌else◌}

-- Keys that can be compared.
pub record Key {ℓ} (K : Type ℓ) : Type ℓ where
  pub same : K → K → Bool
  pub same_iff : (a b : K) → (same a b ≡ true) ↔ (a ≡ b)

instance abbrev pub int_key : Key ℕ
int_key = record { same = eqb; same_iff = eqb_iff }

instance abbrev pub string_key : Key String
string_key = record { same = ◌==◌; same_iff = eq_iff }

module _ {ℓ κ} {K : Type ℓ} {V : Type κ} ⦃e : Key K⦄ where
  -- v, ok := m[k]
  unfoldable pub lookup : K → List (K × V) → Option V
  lookup k [] = none
  lookup k ((j, v) ∷ m) = if e.same j k then some v else lookup k m

  -- m[k] = v
  unfoldable pub insert : K → V → List (K × V) → List (K × V)
  insert k v [] = (k, v) ∷ []
  insert k v ((j, w) ∷ m) = if e.same j k then (j, v) ∷ m else (j, w) ∷ insert k v m

  -- delete(m, k)
  unfoldable pub delete : K → List (K × V) → List (K × V)
  delete k [] = []
  delete k ((j, v) ∷ m) = let rest = delete k m in if e.same j k then rest else (j, v) ∷ rest

  pub lookup-insert :
      (k j : K) (v : V) (m : List (K × V))
      → lookup j (insert k v m) ≡ (if e.same k j then some v else lookup j m)
  unfolding lookup insert
  lookup-insert k j v [] = refl
  lookup-insert k j v ((i, w) ∷ m) =
      ground (arith, e.same_iff k j, e.same_iff i k, e.same_iff i j, lookup-insert k j v m)

  pub lookup-single :
      (k j : K) (v : V) → lookup j ((k, v) ∷ []) ≡ (if e.same k j then some v else none)
  unfolding lookup
  lookup-single k j v = refl

  pub lookup-delete :
      (k j : K) (m : List (K × V))
      → lookup j (delete k m) ≡ (if e.same k j then none else lookup j m)
  unfolding lookup delete
  lookup-delete k j [] = ground arith
  lookup-delete k j ((i, w) ∷ m) =
      ground (arith, e.same_iff k j, e.same_iff i k, e.same_iff i j, lookup-delete k j m)

  -- Each key stands once, as in a map of the program.
  abbrev pub IsMap : List (K × V) → Type κ
  IsMap [] = Unit
  IsMap ((k, v) ∷ m) = (lookup k m ≡ none) × IsMap m

  pub insert-IsMap : (k : K) (v : V) (m : List (K × V)) → IsMap m → IsMap (insert k v m)
  unfolding lookup insert
  insert-IsMap k v [] h = (refl, tt)
  insert-IsMap k v ((j, w) ∷ m) h =
      ground (arith, e.same_iff j k, e.same_iff k j, insert-IsMap k v m h.1, lookup-insert k j v m)

  pub delete-IsMap : (k : K) (m : List (K × V)) → IsMap m → IsMap (delete k m)
  unfolding lookup delete
  delete-IsMap k [] h = tt
  delete-IsMap k ((j, w) ∷ m) h = ground (arith, delete-IsMap k m h.1, lookup-delete k j m)

-- The value at a key, or the zero value of a missing one: `m[k]` in Go.
abbrev pub value {ℓ} : {V : Type ℓ} → Option V → V → V
value none d = d
value (some v) d = v

pub ruleset map_laws = (lookup-insert, lookup-single, lookup-delete)
