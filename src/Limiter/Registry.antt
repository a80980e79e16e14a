-- ===== src/Limiter/Registry.antt =====
-- The table of limiters, and GetLimiter, DeleteLimiter and RestoreLimiter (limiter/limiter.go).
-- Limiters are shared by reference: a reference is a number, and the heap has what it points to.
use v2bx_outbound.Base.{ℕ, ◌+◌, String, Option, List}
use v2bx_outbound.Base.Map.{lookup, insert, delete, string_key, int_key}
use v2bx_outbound.Panel.{UserInfo}
use v2bx_outbound.Limiter.{Limiter}
use v2bx_outbound.Limiter.Users.{new_limiter}

pub record Limiters (B R : Type 0) : Type 0 where
  pub table : List (String × ℕ)
  pub heap : List (ℕ × Limiter B R)
  pub next : ℕ

module _ {B R : Type 0} where
  -- AddLimiter: a new limiter under the tag, and the reference to it.
  unfoldable pub add_limiter :
      String → ℕ → List UserInfo → List (ℕ × ℕ) → Limiters B R → Limiters B R × ℕ
  add_limiter tag speed_limit users alive_list t = (
    record {
      table = insert tag t.next t.table;
      heap = insert t.next (new_limiter tag speed_limit users alive_list) t.heap;
      next = t.next + 1;
    },
    t.next,
  )

  -- `none` is the error "not found".
  unfoldable pub get_limiter : String → Limiters B R → Option ℕ
  get_limiter tag t = lookup tag t.table

  unfoldable pub delete_limiter : String → Limiters B R → Limiters B R
  delete_limiter tag t = record t { table = delete tag t.table }

  unfoldable pub restore_limiter : String → ℕ → Limiters B R → Limiters B R
  restore_limiter tag info t = record t { table = insert tag info t.table }

  -- What a reference points to, and a change of it.
  unfoldable pub deref : ℕ → Limiters B R → Option (Limiter B R)
  deref ref t = lookup ref t.heap

  unfoldable pub assign : ℕ → Limiter B R → Limiters B R → Limiters B R
  assign ref l t = record t { heap = insert ref l t.heap }
