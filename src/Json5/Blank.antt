-- ===== src/Json5/Blank.antt =====
-- What prep writes: blanks, in place.
use v2bx_outbound.Base.{
  ℕ, zero, suc, ◌+◌, Bool, true, false, List, [], ◌∷◌, ◌≡◌, ◌⊎◌, inl, inr, refl, arith, length, eqb,
  ◌||◌, ◌-◌, if◌then◌else◌,
}
use v2bx_outbound.Json5.{
  byte_at, blank, line_comment, block_comment, open_line, open_block, consume_comment, skip_string,
  skip_comma, prep_step, prep_loop, prep,
}

-- Of the same length, and each byte is the same or blank.
abbrev pub Blanked : List ℕ → List ℕ → Type 0
Blanked [] [] = Unit
Blanked [] (b ∷ t) = ⊥
Blanked (a ∷ s) [] = ⊥
Blanked (a ∷ s) (b ∷ t) = ((b ≡ a) ⊎ (b ≡ b' ')) × Blanked s t

pub Blanked-refl : (s : List ℕ) → Blanked s s
Blanked-refl [] = tt
Blanked-refl (a ∷ s) = (inl refl, Blanked-refl s)

pub Blanked-trans : (s t u : List ℕ) → Blanked s t → Blanked t u → Blanked s u
Blanked-trans [] [] [] h k = tt
Blanked-trans (a ∷ s) (b ∷ t) (c ∷ u) h k = (ground arith, Blanked-trans s t u h.1 k.1)
Blanked-trans [] [] (c ∷ u) h k = absurd k
Blanked-trans [] (b ∷ t) u h k = absurd h
Blanked-trans (a ∷ s) [] u h k = absurd h
Blanked-trans (a ∷ s) (b ∷ t) [] h k = absurd k

pub Blanked-blank : (s : List ℕ) (i : ℕ) → Blanked s (blank s i)
Blanked-blank [] i = tt
Blanked-blank (a ∷ s) zero = (inr refl, Blanked-refl s)
Blanked-blank (a ∷ s) (suc i) = (inl refl, Blanked-blank s i)

pub length-Blanked : (s t : List ℕ) → Blanked s t → length t ≡ length s
length-Blanked [] [] h = refl
length-Blanked (a ∷ s) (b ∷ t) h = omega (arith, length-Blanked s t h.1)
length-Blanked [] (b ∷ t) h = absurd h
length-Blanked (a ∷ s) [] h = absurd h

-- A blank first, then what follows.
after_blank : (s t : List ℕ) (i : ℕ) → Blanked (blank s i) t → Blanked s t
after_blank s t i h = Blanked-trans s (blank s i) t (Blanked-blank s i) h

pub line_comment-Blanked : (fuel : ℕ) (s : List ℕ) (i : ℕ) → Blanked s (line_comment fuel s i).bytes
unfolding line_comment
line_comment-Blanked zero s i = Blanked-refl s
line_comment-Blanked (suc fuel) s i = ground (
  arith,
  Blanked-refl s,
  after_blank s (line_comment fuel (blank s i) (i + 1)).bytes i
      (line_comment-Blanked fuel (blank s i) (i + 1)),
)

pub block_comment-Blanked :
    (fuel : ℕ) (s : List ℕ) (i : ℕ) → Blanked s (block_comment fuel s i).bytes
unfolding block_comment
block_comment-Blanked zero s i = Blanked-refl s
block_comment-Blanked (suc fuel) s i = ground (
  arith,
  Blanked-refl s,
  after_blank s (block_comment fuel (blank s i) (i + 1)).bytes i
      (block_comment-Blanked fuel (blank s i) (i + 1)),
  after_blank s (block_comment fuel (blank s i) (i + 2)).bytes i
      (block_comment-Blanked fuel (blank s i) (i + 2)),
  after_blank s (blank (blank s i) (i + 1)) i (Blanked-blank (blank s i) (i + 1)),
)

open_line-Blanked : (s : List ℕ) (i : ℕ) → Blanked s (open_line s i).bytes
unfolding open_line
open_line-Blanked s i = ground (
  arith,
  Blanked-refl s,
  after_blank s (line_comment (length s) (blank s (i - 1)) i).bytes (i - 1)
      (line_comment-Blanked (length s) (blank s (i - 1)) i),
)

open_block-Blanked : (s : List ℕ) (i : ℕ) → Blanked s (open_block s i).bytes
unfolding open_block
open_block-Blanked s i =
    let opened = blank (blank s (i - 1)) i in
    let closed = block_comment (length s) opened i in
    ground (
      arith,
      Blanked-refl s,
      after_blank s closed.bytes (i - 1) (
          after_blank (blank s (i - 1)) closed.bytes i (block_comment-Blanked (length s) opened i)),
    )

pub consume_comment-Blanked : (s : List ℕ) (i : ℕ) → Blanked s (consume_comment s i).bytes
unfolding consume_comment
consume_comment-Blanked s i =
    let c = open_line s i in
    Blanked-trans s c.bytes _ (open_line-Blanked s i) (open_block-Blanked c.bytes c.at)

pub skip_comma-Blanked : (fuel : ℕ) (s : List ℕ) (i j : ℕ) → Blanked s (skip_comma fuel s i j).bytes
unfolding skip_comma
skip_comma-Blanked zero s i j = Blanked-refl s
skip_comma-Blanked (suc fuel) s i j =
    let c = consume_comment s (i + 2) in
    ground (
      arith,
      Blanked-refl s,
      Blanked-blank s j,
      skip_comma-Blanked fuel s (i + 1) j,
      Blanked-trans s c.bytes (skip_comma fuel c.bytes c.at j).bytes
          (consume_comment-Blanked s (i + 2)) (skip_comma-Blanked fuel c.bytes c.at j),
    )

pub prep_step-Blanked : (s : List ℕ) (i : ℕ) → Blanked s (prep_step s i).bytes
unfolding prep_step
prep_step-Blanked s i =
    ground (
      arith,
      Blanked-refl s,
      consume_comment-Blanked s (i + 1),
      skip_comma-Blanked (length s) s i i,
    )

prep_loop-Blanked : (fuel : ℕ) (s : List ℕ) (i : ℕ) → Blanked s (prep_loop fuel s i)
unfolding prep_loop
prep_loop-Blanked zero s i = Blanked-refl s
prep_loop-Blanked (suc fuel) s i =
    let c = prep_step s i in
    ground (
      arith,
      Blanked-refl s,
      Blanked-trans s c.bytes (prep_loop fuel c.bytes c.at) (prep_step-Blanked s i)
          (prep_loop-Blanked fuel c.bytes c.at),
    )

-- What prep returns has the length of the input, and each byte is the input's or a blank: nothing
-- moves, and an error position in the result is one in the input.
pub prep-Blanked : (s : List ℕ) → Blanked s (prep s) × (length (prep s) ≡ length s)
unfolding prep
prep-Blanked s =
    let blanked = prep_loop-Blanked (length s) s 0 in (blanked, length-Blanked s _ blanked)

-- The bytes that start a comment or may be a trailing comma.
abbrev pub has_special : List ℕ → Bool
has_special [] = false
has_special (b ∷ s) = if eqb b b'/' || eqb b b',' then true else has_special s

byte_at-special :
    (s : List ℕ) (i : ℕ)
    → has_special s ≡ false
    → (eqb (byte_at s i) b'/' ≡ false) × (eqb (byte_at s i) b',' ≡ false)
byte_at-special [] i h = (refl, refl)
byte_at-special (b ∷ s) zero h = ground arith
byte_at-special (b ∷ s) (suc i) h = byte_at-special s i (ground arith)

prep_loop_plain : (fuel : ℕ) (s : List ℕ) (i : ℕ) → has_special s ≡ false → prep_loop fuel s i ≡ s
unfolding prep_loop prep_step
prep_loop_plain zero s i h = refl
prep_loop_plain (suc fuel) s i h = ground (
  arith,
  byte_at-special s i h,
  prep_loop_plain fuel s (skip_string (length s) s (i + 1)) h,
  prep_loop_plain fuel s (i + 1) h,
)

-- A text with no slash and no comma is returned as it is.
pub prep_plain : (s : List ℕ) → has_special s ≡ false → prep s ≡ s
unfolding prep
prep_plain s h = prep_loop_plain (length s) s 0 h
