-- ===== src/Base/Text.antt =====
-- Texts: Go's `strings.TrimPrefix`, and the library's tests and laws passed on.
pub mod Decimal
use Prim.Native.Char.{code}
use Prim.Native.String.{String}
use mathlib.Core.Option.{Option, none, some}
use v2bx_outbound.Base.Tests.{eqb, if◌then◌else◌}
pub use Prim.Native.String.{◌++◌ as ◌<>◌}
pub use text.Mathlib.Text.{◌==◌}
pub use text.Mathlib.TextEquality.{eq_iff}
pub use text.Mathlib.TextPositions.{eq_refl}

-- What follows the prefix, if the text has it.
unfoldable pub after_prefix : String → String → Option String
after_prefix String.[] s = some s
after_prefix (String.◌∷◌ c p) String.[] = none
after_prefix (String.◌∷◌ c p) (String.◌∷◌ d s) =
    if eqb (code c) (code d) then after_prefix p s else none

-- strings.TrimPrefix
unfoldable pub trim_prefix : String → String → String
unfolding after_prefix
trim_prefix p s = elim (after_prefix p s) [ none ↦ s | some rest ↦ rest ]
