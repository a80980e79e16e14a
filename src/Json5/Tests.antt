-- ===== src/Json5/Tests.antt =====
-- Runs of prep: a comment behind a value, and the star that hides the end of a block comment.
use Prim.Native.Char.{code}
use v2bx_outbound.Base.{ℕ, ◌+◌, String, List, [], ◌∷◌, ◌≡◌, refl, arith, length}
use v2bx_outbound.Json5.{
  is_nl, is_ws, line_comment, block_comment, open_line, open_block, consume_comment, skip_string,
  skip_comma, prep_step, prep_loop, prep,
}
use v2bx_outbound.Json5.Blank.{Blanked, prep-Blanked}
use v2bx_outbound.Json5.Fuel.{loops_fuel}

-- The bytes of an ASCII text.
abbrev codes : String → List ℕ
codes String.[] = []
codes (String.◌∷◌ c s) = code c ∷ codes s

comment_blanked : prep (codes "{\"a,//\":1, // x\n }") ≡ codes "{\"a,//\":1      \n }"
unfolding is_nl is_ws line_comment block_comment open_line open_block consume_comment skip_string
    skip_comma prep_step prep_loop prep
comment_blanked = refl

-- The comment ends before the 1, yet the 1 is blanked and two bytes of the comment stay.
double_star : prep (codes "/* a*b **/1") ≡ codes "     b  *  "
unfolding is_nl is_ws line_comment block_comment open_line open_block consume_comment skip_string
    skip_comma prep_step prep_loop prep
double_star = refl

prep-Blanked_example :
    Blanked (codes "[1, /* one */]") (prep (codes "[1, /* one */]"))
    × (length (prep (codes "[1, /* one */]")) ≡ 14)
prep-Blanked_example = prep-Blanked (codes "[1, /* one */]")

loops_fuel_example :
    let s = codes "[1,//\n]" in
    (prep_loop (5 + length s) s 0 ≡ prep s)
    × (line_comment (5 + length s) s 2 ≡ line_comment (length s) s 2)
    × (block_comment (5 + length s) s 2 ≡ block_comment (length s) s 2)
    × (skip_string (5 + length s) s 2 ≡ skip_string (length s) s 2)
    × (skip_comma (5 + length s) s 2 2 ≡ skip_comma (length s) s 2 2)
loops_fuel_example = loops_fuel 5 (codes "[1,//\n]") 2 2 (omega arith)
