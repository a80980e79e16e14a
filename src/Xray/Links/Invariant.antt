-- ===== src/Xray/Links/Invariant.antt =====
-- What holds of links, link managers and the work of AddUsers, DelUsers and retireNodeUsers at
-- any time.
use v2bx_outbound.Base.{
  ℕ, ◌<◌, String, ◌==◌, eqb, Bool, true, false, not, ◌&&◌, ◌||◌, Option, none, some, ◌≡◌,
}
use v2bx_outbound.Xray.Links.{
  Work, idle, disallowed, loaded, closed_all, cleared, retiring, unloaded, System, is_of,
}

abbrev pub is_none : Option ℕ → Bool
is_none none = true
is_none (some k) = false

-- What is at work is a revocation that will still close the links of the user.
abbrev pub is_pending : String → Work → Bool
is_pending e (disallowed k) = k == e
is_pending e (loaded k m) = k == e
is_pending e (retiring k) = k == e
is_pending e (unloaded k m) = k == e
is_pending e _ = false

abbrev pub is_clearing : String → Work → Bool
is_clearing e (cleared k) = k == e
is_clearing e _ = false

abbrev pub works_on : String → Work → Bool
works_on e idle = false
works_on e (disallowed k) = k == e
works_on e (loaded k m) = k == e
works_on e (closed_all k) = k == e
works_on e (cleared k) = k == e
works_on e (retiring k) = k == e
works_on e (unloaded k m) = k == e

-- The revocation has loaded another manager than this one of the user's.
abbrev pub has_other : String → ℕ → Work → Bool
has_other e m (loaded k j) = k == e && not (eqb j m)
has_other e m (unloaded k j) = k == e && not (eqb j m)
has_other e m _ = false

-- The revocation has taken out this manager, and will close its links.
abbrev pub is_unloaded : ℕ → Work → Bool
is_unloaded m (unloaded k j) = eqb j m
is_unloaded m _ = false

abbrev pub is_dispatched : ℕ → ℕ → System → Bool
is_dispatched c m s = is_of m (s.waiting c) || is_of m (s.added c)

pub record IsSafe (s : System) : Type 0 where
  -- A manager that can still take links is the one that a revocation loads or has taken out, but for
  -- dispatches that will close it.
  pub kept :
      (c m : ℕ)
      → (is_dispatched c m s || is_of m (s.open_link c)) ≡ true
      → s.closed m ≡ false
      → (is_of m (s.manager_of (s.owner m))
          || not (s.allowed (s.owner m))
            && not (is_clearing (s.owner m) s.work)
            && is_dispatched c m s
          || is_unloaded m s.work)
        ≡ true
  pub held :
      (c m : ℕ)
      → is_of m (s.open_link c) ≡ true
      → s.closed m ≡ false
      → (s.allowed (s.owner m) || is_of m (s.added c) || is_pending (s.owner m) s.work) ≡ true
  pub found :
      (c m : ℕ)
      → is_of m (s.open_link c) ≡ true
      → s.closed m ≡ false
      → (not (has_other (s.owner m) m s.work) || is_of m (s.added c)) ≡ true
  pub taken : (c m : ℕ) → is_of m (s.open_link c) ≡ true → s.closed m ≡ true → s.closing c ≡ true
  pub worked : (e : String) → works_on e s.work ≡ true → s.allowed e ≡ false
  pub used :
      (c m : ℕ) → (is_dispatched c m s || is_of m (s.open_link c)) ≡ true → m < s.next_manager
  pub owned :
      (e : String) (m : ℕ)
      → is_of m (s.manager_of e) ≡ true
      → (m < s.next_manager) × (s.owner m ≡ e)
  pub single :
      (c m : ℕ)
      → is_of m (s.open_link c) ≡ true
      → (is_none (s.waiting c) && (is_none (s.added c) || is_of m (s.added c))) ≡ true
  pub staged : (c : ℕ) → (is_none (s.waiting c) || is_none (s.added c)) ≡ true

-- No dispatch for the email is under way.
abbrev pub IsQuiet : String → System → Type 0
IsQuiet e s = (c m : ℕ) → is_dispatched c m s ≡ true → (s.owner m == e) ≡ false
