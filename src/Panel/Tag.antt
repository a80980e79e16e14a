-- ===== src/Panel/Tag.antt =====
-- UserTag (common/format/user.go): within a node no two users share a tag.
use text.Mathlib.TextLemmas.{append_cancel_left}
use v2bx_outbound.Base.{String, ◌==◌, eq_iff, ◌≡◌, arith, ap}
use v2bx_outbound.Panel.{user_tag}

user_tag-injective : (tag x y : String) → user_tag tag x ≡ user_tag tag y → x ≡ y
unfolding user_tag
user_tag-injective tag x y e = append_cancel_left "|" x y (append_cancel_left tag _ _ e)

pub user_tag-eq : (tag x y : String) → (user_tag tag x == user_tag tag y) ≡ (x == y)
user_tag-eq tag x y = ground (
  arith,
  eq_iff x y,
  eq_iff (user_tag tag x) (user_tag tag y),
  user_tag-injective tag x y,
  λ (e : x ≡ y). ap (user_tag tag) e,
)
