-- ===== src/Hy2/Refusal.antt =====
-- A user that is refused once is not refused again.
use v2bx_outbound.Base.{ℕ, String, eq_refl, true, false, some, ◌≡◌, inl, inr, arith, Option-cases}
use v2bx_outbound.Base.Map.{lookup, insert, lookup-insert, string_key, int_key}
use v2bx_outbound.Panel.{user_tag}
use v2bx_outbound.Limiter.{Limiter}
use v2bx_outbound.Limiter.Registry.{Limiters, get_limiter, deref, assign}
use v2bx_outbound.Hy2.{HookServer, log_limited, log_traffic}

-- At a node with a limiter a refusal of LogTraffic counts nothing, and the next call for the user is
-- not refused.
pub log_traffic-again :
    {B R : Type 0} (id : String) (sent received : ℕ) (hook : HookServer) (t : Limiters B R)
    (ref : ℕ) (l : Limiter B R)
    → get_limiter hook.tag t ≡ some ref
    → deref ref t ≡ some l
    → (log_traffic id sent received (hook, t)).1 ≡ false
    → let s = (log_traffic id sent received (hook, t)).0 in
      (s.0 ≡ hook) × ((log_traffic id sent received s).1 ≡ true)
unfolding log_traffic log_limited get_limiter deref assign
log_traffic-again id sent received hook t ref l entry found refused =
    let key = user_tag hook.tag id in
    elim (Option-cases (lookup key l.user_limit_info)) [
      | inl e ↦ ground (arith, entry, found, refused, e)
      | inr (info, e) ↦
          let cleared = record l {
            user_limit_info = insert key (record info { over_limit = false }) l.user_limit_info;
          } in
          ground (
            arith,
            entry,
            found,
            refused,
            e,
            eq_refl key,
            lookup-insert ref ref cleared t.heap,
            lookup-insert key key (record info { over_limit = false }) l.user_limit_info,
          )
    ]
