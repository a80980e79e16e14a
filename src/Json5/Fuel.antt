-- ===== src/Json5/Fuel.antt =====
-- The fuel of each loop is enough: with more of it the result is the same.
use v2bx_outbound.Base.{ℕ, zero, suc, ◌+◌, ◌-◌, ◌≤◌, ◌<◌, List, ◌≡◌, refl, arith, length}
use native.Mathlib.Decide.{dec_lt}
use v2bx_outbound.Json5.{
  blank, line_comment, block_comment, open_line, open_block, consume_comment, skip_string,
  skip_comma, prep_step, prep_loop, prep,
}
use v2bx_outbound.Json5.Blank.{
  Blanked-blank, length-Blanked, consume_comment-Blanked, prep_step-Blanked,
}

length-blank : (s : List ℕ) (i : ℕ) → length (blank s i) ≡ length s
length-blank s i = length-Blanked s (blank s i) (Blanked-blank s i)

line_comment_fuel :
    (f g : ℕ) (s : List ℕ) (i : ℕ)
    → length s ≤ f + i
    → length s ≤ g + i
    → line_comment f s i ≡ line_comment g s i
unfolding line_comment
line_comment_fuel zero zero s i h k = refl
line_comment_fuel zero (suc g) s i h k = ground arith
line_comment_fuel (suc f) zero s i h k = ground arith
line_comment_fuel (suc f) (suc g) s i h k = ground (
  arith,
  line_comment_fuel f g (blank s i) (i + 1) (omega (arith, length-blank s i))
      (omega (arith, length-blank s i)),
)

block_comment_fuel :
    (f g : ℕ) (s : List ℕ) (i : ℕ)
    → length s ≤ f + i
    → length s ≤ g + i
    → block_comment f s i ≡ block_comment g s i
unfolding block_comment
block_comment_fuel zero zero s i h k = refl
block_comment_fuel zero (suc g) s i h k = ground arith
block_comment_fuel (suc f) zero s i h k = ground arith
block_comment_fuel (suc f) (suc g) s i h k =
    let same = length-blank s i in
    ground (
      arith,
      block_comment_fuel f g (blank s i) (i + 1) (omega (arith, same)) (omega (arith, same)),
      block_comment_fuel f g (blank s i) (i + 2) (omega (arith, same)) (omega (arith, same)),
    )

skip_string_fuel :
    (f g : ℕ) (s : List ℕ) (i : ℕ)
    → length s ≤ f + i
    → length s ≤ g + i
    → skip_string f s i ≡ skip_string g s i
unfolding skip_string
skip_string_fuel zero zero s i h k = refl
skip_string_fuel zero (suc g) s i h k = ground arith
skip_string_fuel (suc f) zero s i h k = ground arith
skip_string_fuel (suc f) (suc g) s i h k = ground (
  arith,
  skip_string_fuel f g s (i + 1) (omega arith) (omega arith),
  skip_string_fuel f g s (i + 2) (omega arith) (omega arith),
)

-- Each scan goes forward.
line_comment_at : (f : ℕ) (s : List ℕ) (i : ℕ) → i ≤ (line_comment f s i).at
unfolding line_comment
line_comment_at zero s i = omega arith
line_comment_at (suc f) s i = ground (arith, line_comment_at f (blank s i) (i + 1))

block_comment_at : (f : ℕ) (s : List ℕ) (i : ℕ) → i ≤ (block_comment f s i).at
unfolding block_comment
block_comment_at zero s i = omega arith
block_comment_at (suc f) s i =
    ground (arith, block_comment_at f (blank s i) (i + 1), block_comment_at f (blank s i) (i + 2))

consume_comment_at : (s : List ℕ) (i : ℕ) → i ≤ (consume_comment s i).at
unfolding consume_comment open_line open_block
consume_comment_at s i =
    let c = open_line s i in
    ground (
      arith,
      line_comment_at (length s) (blank s (i - 1)) i,
      block_comment_at (length c.bytes) (blank (blank c.bytes (c.at - 1)) c.at) c.at,
    )

skip_string_at : (f : ℕ) (s : List ℕ) (i : ℕ) → i ≤ skip_string f s i
unfolding skip_string
skip_string_at zero s i = omega arith
skip_string_at (suc f) s i = ground (arith, skip_string_at f s (i + 1), skip_string_at f s (i + 2))

length-consume_comment : (s : List ℕ) (i : ℕ) → length (consume_comment s i).bytes ≡ length s
length-consume_comment s i = length-Blanked s _ (consume_comment-Blanked s i)

-- A comma takes the scan past it.
skip_comma_at : (f : ℕ) (s : List ℕ) (i j : ℕ) → 0 < f → i < (skip_comma f s i j).at
unfolding skip_comma
skip_comma_at zero s i j h = absurd (omega arith)
skip_comma_at (suc zero) s i j h = ground (arith, consume_comment_at s (i + 2))
skip_comma_at (suc (suc f)) s i j h =
    let c = consume_comment s (i + 2) in
    ground (
      arith,
      consume_comment_at s (i + 2),
      skip_comma_at (suc f) s (i + 1) j,
      skip_comma_at (suc f) c.bytes c.at j,
    )

skip_comma_fuel :
    (f g : ℕ) (s : List ℕ) (i j : ℕ)
    → length s ≤ f + i
    → length s ≤ g + i
    → 0 < f
    → 0 < g
    → skip_comma f s i j ≡ skip_comma g s i j
unfolding skip_comma
skip_comma_fuel zero g s i j h k p q = absurd (omega arith)
skip_comma_fuel (suc f) zero s i j h k p q = absurd (omega arith)
skip_comma_fuel (suc f) (suc g) s i j h k p q = elim (dec_lt (i + 1) (length s)) [
  | yes inside ↦
      let c = consume_comment s (i + 2) in
      let forward = consume_comment_at s (i + 2) in
      let same = length-consume_comment s (i + 2) in
      ground (
        arith,
        skip_comma_fuel f g s (i + 1) j (omega arith) (omega arith) (omega arith) (omega arith),
        skip_comma_fuel f g c.bytes c.at j (omega (arith, forward, same))
            (omega (arith, forward, same)) (omega arith) (omega arith),
      )
  | no outside ↦ ground arith
]

-- A round of prep goes forward and keeps the length.
prep_step_at : (s : List ℕ) (i : ℕ) → i < length s → i < (prep_step s i).at
unfolding prep_step
prep_step_at s i h = ground (
  arith,
  skip_string_at (length s) s (i + 1),
  consume_comment_at s (i + 1),
  skip_comma_at (length s) s i i (omega arith),
)

prep_loop_fuel :
    (f g : ℕ) (s : List ℕ) (i : ℕ)
    → length s ≤ f + i
    → length s ≤ g + i
    → prep_loop f s i ≡ prep_loop g s i
unfolding prep_loop
prep_loop_fuel zero zero s i h k = refl
prep_loop_fuel zero (suc g) s i h k = ground arith
prep_loop_fuel (suc f) zero s i h k = ground arith
prep_loop_fuel (suc f) (suc g) s i h k = elim (dec_lt i (length s)) [
  | yes inside ↦
      let c = prep_step s i in
      let forward = prep_step_at s i inside in
      let same = length-Blanked s c.bytes (prep_step-Blanked s i) in
      ground (
        arith,
        prep_loop_fuel f g c.bytes c.at (omega (arith, forward, same))
            (omega (arith, forward, same)),
      )
  | no outside ↦ ground arith
]

-- Every loop of the scan ends by its own test: fuel for the bytes that are left is enough, and more
-- of it changes nothing, from any index in the text.
pub loops_fuel :
    (more : ℕ) (s : List ℕ) (i j : ℕ)
    → i < length s
    → (prep_loop (more + length s) s 0 ≡ prep s)
      × (line_comment (more + length s) s i ≡ line_comment (length s) s i)
      × (block_comment (more + length s) s i ≡ block_comment (length s) s i)
      × (skip_string (more + length s) s i ≡ skip_string (length s) s i)
      × (skip_comma (more + length s) s i j ≡ skip_comma (length s) s i j)
unfolding prep
loops_fuel more s i j inside = (
  prep_loop_fuel _ _ s 0 (omega arith) (omega arith),
  line_comment_fuel _ _ s i (omega arith) (omega arith),
  block_comment_fuel _ _ s i (omega arith) (omega arith),
  skip_string_fuel _ _ s i (omega arith) (omega arith),
  skip_comma_fuel _ _ s i j (omega arith) (omega arith) (omega arith) (omega arith),
)
