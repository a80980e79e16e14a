-- ===== src/Sing/Race/Safety.antt =====
-- No connection of a revoked user stays open, in any interleaving.
use v2bx_outbound.Base.{ℕ, String, eq_iff, eqb_iff, true, false, ◌||◌, some, ◌≡◌, arith}
use v2bx_outbound.Sing.Race.{
  System, Step, Reach, activates, stores, looks_again, deactivates, ranges, closes, here, next,
  idle, activate, store, look_again, deactivate, range, close,
}

-- The user of an open connection is active, or a step that will close it is still to come.
abbrev pub IsGuarded : System → Type 0
IsGuarded s =
    (c : ℕ) (k : String)
    → s.open_conn c ≡ some k
    → (s.active k || s.routing c || s.revoking k || s.closing c) ≡ true

Step-IsGuarded : {s t : System} → Step s t → IsGuarded s → IsGuarded t
unfolding activate store look_again deactivate range close
Step-IsGuarded (activates key) h c k e = ground (arith, h c k)
Step-IsGuarded (stores conn key fresh) h c k e = ground (arith, h c k, eqb_iff conn c)
Step-IsGuarded (looks_again conn key busy mine) h c k e =
    ground (arith, h c k, eqb_iff conn c, eq_iff k key)
Step-IsGuarded (deactivates key) h c k e = ground (arith, h c k, eq_iff key k)
Step-IsGuarded (ranges key begun) h c k e = ground (arith, h c k, eq_iff key k, eq_iff k key)
Step-IsGuarded (closes conn) h c k e = ground (arith, h c k, eqb_iff conn c)

Reach-IsGuarded : {s : System} → Reach s → IsGuarded s
unfolding idle
Reach-IsGuarded here c k e = cc
Reach-IsGuarded (next r s) c k e = Step-IsGuarded s (Reach-IsGuarded r) c k e

-- In whatever order routings, revocations and closings of any users interleave: once nothing is
-- under way for a connection or its user, an open connection belongs to an active user.
pub Reach-active :
    (s : System) (c : ℕ) (k : String)
    → Reach s
    → s.routing c ≡ false
    → s.revoking k ≡ false
    → s.closing c ≡ false
    → s.open_conn c ≡ some k
    → s.active k ≡ true
Reach-active s c k r no_routing no_revoking no_closing e = ground (arith, Reach-IsGuarded r c k e)
