-- ===== src/Xray/Links/Revocations.antt =====
-- The steps of AddUsers and DelUsers keep the invariant.
use v2bx_outbound.Base.{ℕ, String, eq_iff, eq_refl, eqb_iff, false, ◌≡◌, arith}
use v2bx_outbound.Xray.Links.{
  idle, disallowed, loaded, closed_all, cleared, System, close_all, disallow, load_manager,
  close_loaded, forget_manager, clear_manager, allow,
}
use v2bx_outbound.Xray.Links.Invariant.{IsSafe, IsQuiet}

pub load_manager-IsSafe :
    (email : String) (s : System)
    → s.work ≡ disallowed email
    → IsSafe s
    → IsSafe (load_manager email s)
unfolding load_manager
load_manager-IsSafe email s w h = record {
  kept = λ c m u l. ground (arith, h.kept c m, h.single c m, eq_iff email (s.owner m), w);
  held = λ c m u l. ground (
    arith,
    h.held c m,
    h.kept c m,
    h.single c m,
    eq_iff email (s.owner m),
    h.worked email,
    eq_refl email,
    w,
  );
  found =
      λ c m u l. ground (arith, h.found c m, h.kept c m, h.single c m, eq_iff email (s.owner m), w);
  taken = λ c m u l. ground (arith, h.taken c m, w);
  worked = λ e on. ground (arith, h.worked e, eq_iff email e, w);
  used = λ c m u. ground (arith, h.used c m, w);
  owned = λ e m u. ground (arith, h.owned e m, w);
  single = λ c m u. ground (arith, h.single c m, w);
  staged = λ c. ground (arith, h.staged c, w);
}

pub close_loaded-IsSafe :
    (email : String) (k : ℕ) (s : System)
    → s.work ≡ loaded email k
    → IsSafe s
    → IsSafe (close_loaded email k s)
unfolding close_loaded close_all
close_loaded-IsSafe email k s w h = record {
  kept =
      λ c m u l. ground (arith, h.kept c m, h.single c m, eqb_iff k m, eq_iff email (s.owner m), w);
  held =
      λ c m u l. ground (arith, h.held c m, eqb_iff k m, h.found c m, eq_iff email (s.owner m), w);
  found = λ c m u l. ground (arith, h.found c m, eqb_iff k m, w);
  taken = λ c m u l. ground (arith, h.taken c m, eqb_iff k m, w);
  worked = λ e on. ground (arith, h.worked e, eq_iff email e, w);
  used = λ c m u. ground (arith, h.used c m, w);
  owned = λ e m u. ground (arith, h.owned e m, w);
  single = λ c m u. ground (arith, h.single c m, w);
  staged = λ c. ground (arith, h.staged c, w);
}

pub forget_manager-IsSafe :
    (email : String) (s : System)
    → s.work ≡ closed_all email
    → IsSafe s
    → IsSafe (forget_manager email s)
unfolding forget_manager
forget_manager-IsSafe email s w h = record {
  kept = λ c m u l. ground (
    arith,
    h.kept c m,
    h.single c m,
    eq_iff email (s.owner m),
    h.held c m,
    h.worked (s.owner m),
    w,
  );
  held = λ c m u l. ground (arith, h.held c m, w);
  found = λ c m u l. ground (arith, h.found c m, w);
  taken = λ c m u l. ground (arith, h.taken c m, w);
  worked = λ e on. ground (arith, h.worked e, w);
  used = λ c m u. ground (arith, h.used c m, w);
  owned = λ e m u. ground (arith, h.owned e m, eq_iff email e, w);
  single = λ c m u. ground (arith, h.single c m, w);
  staged = λ c. ground (arith, h.staged c, w);
}

pub clear_manager-IsSafe :
    (email : String) (s : System)
    → s.work ≡ idle
    → s.allowed email ≡ false
    → IsQuiet email s
    → IsSafe s
    → IsSafe (clear_manager email s)
unfolding clear_manager
clear_manager-IsSafe email s w barred q h = record {
  kept = λ c m u l. ground (
    arith,
    h.kept c m,
    h.single c m,
    q c m,
    eq_iff email (s.owner m),
    eq_iff (s.owner m) email,
    h.held c m,
    barred,
    w,
  );
  held = λ c m u l. ground (arith, h.held c m, w);
  found = λ c m u l. ground (arith, h.found c m, w);
  taken = λ c m u l. ground (arith, h.taken c m, w);
  worked = λ e on. ground (arith, h.worked e, barred, eq_iff email e, w);
  used = λ c m u. ground (arith, h.used c m, w);
  owned = λ e m u. ground (arith, h.owned e m, eq_iff email e, w);
  single = λ c m u. ground (arith, h.single c m, w);
  staged = λ c. ground (arith, h.staged c, w);
}

pub disallow-IsSafe :
    (email : String) (s : System) → s.work ≡ idle → IsSafe s → IsSafe (disallow email s)
unfolding disallow
disallow-IsSafe email s w h = record {
  kept = λ c m u l. ground (arith, h.kept c m, h.single c m, eq_iff email (s.owner m), w);
  held = λ c m u l. ground (arith, h.held c m, eq_iff email (s.owner m), w);
  found = λ c m u l. ground (arith, h.found c m, eq_iff email (s.owner m), w);
  taken = λ c m u l. ground (arith, h.taken c m, w);
  worked = λ e on. ground (arith, h.worked e, eq_iff email e, w);
  used = λ c m u. ground (arith, h.used c m, w);
  owned = λ e m u. ground (arith, h.owned e m, w);
  single = λ c m u. ground (arith, h.single c m, w);
  staged = λ c. ground (arith, h.staged c, w);
}

pub allow-IsSafe :
    (email : String) (s : System) → s.work ≡ cleared email → IsSafe s → IsSafe (allow email s)
unfolding allow
allow-IsSafe email s w h = record {
  kept = λ c m u l. ground (arith, h.kept c m, h.single c m, eq_iff email (s.owner m), w);
  held = λ c m u l. ground (arith, h.held c m, eq_iff email (s.owner m), w);
  found = λ c m u l. ground (arith, h.found c m, w);
  taken = λ c m u l. ground (arith, h.taken c m, w);
  worked = λ e on. ground (arith, h.worked e, eq_iff email e, w);
  used = λ c m u. ground (arith, h.used c m, w);
  owned = λ e m u. ground (arith, h.owned e m, w);
  single = λ c m u. ground (arith, h.single c m, w);
  staged = λ c. ground (arith, h.staged c, w);
}
