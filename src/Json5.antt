-- ===== src/Json5.antt =====
-- common/json5/json5.go: blanks out comments and trailing commas in place. A text is its list of
-- bytes, and a loop has fuel for the bytes that are left.
pub mod Blank
pub mod Fuel
mod Tests
use v2bx_outbound.Base.{
  ℕ, zero, suc, ◌+◌, ◌-◌, Bool, true, false, not, ◌&&◌, ◌||◌, List, [], ◌∷◌, eqb, ltb, set, length,
  if◌then◌else◌,
}

-- The slice and the index of a scan.
pub record Cursor : Type 0 where
  pub bytes : List ℕ
  pub at : ℕ

-- s[i], which the code reads within the slice only.
abbrev pub byte_at : List ℕ → ℕ → ℕ
byte_at [] i = 0
byte_at (b ∷ s) zero = b
byte_at (b ∷ s) (suc i) = byte_at s i

abbrev pub blank : List ℕ → ℕ → List ℕ
blank s i = set s i b' '

unfoldable pub is_nl : ℕ → Bool
is_nl c = eqb c b'\n' || eqb c b'\r'

unfoldable pub is_ws : ℕ → Bool
is_ws c = eqb c b' ' || eqb c b'\t' || is_nl c

-- The loop of a `//` comment, which ends before the end of the line.
unfoldable pub line_comment : ℕ → List ℕ → ℕ → Cursor
line_comment zero s i = record { bytes = s; at = i }
line_comment (suc fuel) s i =
    let rest = line_comment fuel (blank s i) (i + 1) in
    if ltb i (length s) && not (is_nl (byte_at s i)) then rest else record { bytes = s; at = i }

-- The loop of a block comment. It ends on the slash; the byte after another star is passed over.
unfoldable pub block_comment : ℕ → List ℕ → ℕ → Cursor
block_comment zero s i = record { bytes = s; at = i }
block_comment (suc fuel) s i =
    let rest = block_comment fuel (blank s i) (i + 1) in
    let past = block_comment fuel (blank s i) (i + 2) in
    if not (ltb i (length s))
    then record { bytes = s; at = i }
    else if not (eqb (byte_at s i) b'*')
    then rest
    else if ltb (i + 1) (length s) && eqb (byte_at s (i + 1)) b'/'
    then record { bytes = blank (blank s i) (i + 1); at = i + 1 }
    else past

unfoldable pub open_line : List ℕ → ℕ → Cursor
open_line s i =
    if ltb i (length s) && eqb (byte_at s i) b'/'
    then line_comment (length s) (blank s (i - 1)) i
    else record { bytes = s; at = i }

unfoldable pub open_block : List ℕ → ℕ → Cursor
open_block s i =
    if ltb i (length s) && eqb (byte_at s i) b'*'
    then block_comment (length s) (blank (blank s (i - 1)) i) i
    else record { bytes = s; at = i }

-- `i` is the index after the first slash.
unfoldable pub consume_comment : List ℕ → ℕ → Cursor
consume_comment s i = let c = open_line s i in open_block c.bytes c.at

-- The loop over a string literal: the index behind the closing quote.
unfoldable pub skip_string : ℕ → List ℕ → ℕ → ℕ
skip_string zero s i = i
skip_string (suc fuel) s i =
    let next = skip_string fuel s (if eqb (byte_at s i) b'\\' then i + 2 else i + 1) in
    if not (ltb i (length s)) then i else if eqb (byte_at s i) b'"' then i + 1 else next

-- The loop behind a comma at `j`.
unfoldable pub skip_comma : ℕ → List ℕ → ℕ → ℕ → Cursor
skip_comma zero s i j = record { bytes = s; at = i }
skip_comma (suc fuel) s i j =
    let c = consume_comment s (i + 2) in
    let past = skip_comma fuel c.bytes c.at j in
    let next = skip_comma fuel s (i + 1) j in
    let b = byte_at s (i + 1) in
    if not (ltb (i + 1) (length s))
    then record { bytes = s; at = i + 1 }
    else if eqb b b'}' || eqb b b']'
    then record { bytes = blank s j; at = i + 1 }
    else if eqb b b'/'
    then past
    else if not (is_ws b)
    then record { bytes = s; at = i + 1 }
    else next

-- One round of prep's loop.
unfoldable pub prep_step : List ℕ → ℕ → Cursor
prep_step s i =
    let b = byte_at s i in
    if eqb b b'"'
    then record { bytes = s; at = skip_string (length s) s (i + 1) }
    else if eqb b b'/'
    then consume_comment s (i + 1)
    else if eqb b b','
    then skip_comma (length s) s i i
    else record { bytes = s; at = i + 1 }

unfoldable pub prep_loop : ℕ → List ℕ → ℕ → List ℕ
prep_loop zero s i = s
prep_loop (suc fuel) s i =
    let c = prep_step s i in
    let rest = prep_loop fuel c.bytes c.at in if ltb i (length s) then rest else s

unfoldable pub prep : List ℕ → List ℕ
prep s = prep_loop (length s) s 0
