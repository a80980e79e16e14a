-- ===== src/Xray/Links/Retirements.antt =====
-- The steps of retireNodeUsers keep the invariant.
use v2bx_outbound.Base.{ℕ, String, eq_iff, eq_refl, eqb_iff, ◌≡◌, arith}
use v2bx_outbound.Xray.Links.{
  idle, retiring, unloaded, System, close_all, retire, unload_manager, close_unloaded,
}
use v2bx_outbound.Xray.Links.Invariant.{IsSafe}

pub retire-IsSafe :
    (email : String) (s : System) → s.work ≡ idle → IsSafe s → IsSafe (retire email s)
unfolding retire
retire-IsSafe email s w h = record {
  kept = λ c m u l. ground (arith, h.kept c m, h.single c m, eq_iff email (s.owner m), w);
  held = λ c m u l. ground (arith, h.held c m, eq_iff email (s.owner m), w);
  found = λ c m u l. ground (arith, h.found c m, eq_iff email (s.owner m), w);
  taken = λ c m u l. ground (arith, h.taken c m, w);
  worked = λ e on. ground (arith, h.worked e, eq_iff email e, w);
  used = λ c m u. ground (arith, h.used c m, w);
  owned = λ e m u. ground (arith, h.owned e m, w);
  single = λ c m u. ground (arith, h.single c m, w);
  staged = λ c. ground (arith, h.staged c, w);
}

pub unload_manager-IsSafe :
    (email : String) (s : System)
    → s.work ≡ retiring email
    → IsSafe s
    → IsSafe (unload_manager email s)
unfolding unload_manager
unload_manager-IsSafe email s w h = record {
  kept = λ c m u l. ground (
    arith,
    h.kept c m,
    h.single c m,
    h.worked (s.owner m),
    eq_iff email (s.owner m),
    eqb_iff m m,
    w,
  );
  held = λ c m u l. ground (
    arith,
    h.held c m,
    h.kept c m,
    h.single c m,
    eq_iff email (s.owner m),
    h.worked email,
    eq_refl email,
    w,
  );
  found =
      λ c m u l. ground (arith, h.found c m, h.kept c m, h.single c m, eq_iff email (s.owner m), w);
  taken = λ c m u l. ground (arith, h.taken c m, w);
  worked = λ e on. ground (arith, h.worked e, eq_iff email e, w);
  used = λ c m u. ground (arith, h.used c m, w);
  owned = λ e m u. ground (arith, h.owned e m, eq_iff email e, w);
  single = λ c m u. ground (arith, h.single c m, w);
  staged = λ c. ground (arith, h.staged c, w);
}

pub close_unloaded-IsSafe :
    (email : String) (k : ℕ) (s : System)
    → s.work ≡ unloaded email k
    → IsSafe s
    → IsSafe (close_unloaded k s)
unfolding close_unloaded close_all
close_unloaded-IsSafe email k s w h = record {
  kept =
      λ c m u l. ground (arith, h.kept c m, h.single c m, eqb_iff k m, eq_iff email (s.owner m), w);
  held =
      λ c m u l. ground (arith, h.held c m, eqb_iff k m, h.found c m, eq_iff email (s.owner m), w);
  found = λ c m u l. ground (arith, h.found c m, eqb_iff k m, w);
  taken = λ c m u l. ground (arith, h.taken c m, eqb_iff k m, w);
  worked = λ e on. ground (arith, h.worked e, eq_iff email e, w);
  used = λ c m u. ground (arith, h.used c m, w);
  owned = λ e m u. ground (arith, h.owned e m, w);
  single = λ c m u. ground (arith, h.single c m, w);
  staged = λ c. ground (arith, h.staged c, w);
}
