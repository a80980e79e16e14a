-- ===== src/Xray/Links/Dispatches.antt =====
-- The start is safe, and the steps of a dispatch and the closing of a link keep the invariant.
use v2bx_outbound.Base.{ℕ, String, eq_iff, eq_refl, eqb_iff, none, some, ◌≡◌, arith}
use v2bx_outbound.Xray.Links.{
  System, start, link_manager, add_link, close_all, compare_and_delete, look_again, close_link,
}
use v2bx_outbound.Xray.Links.Invariant.{IsSafe}

pub start-IsSafe : IsSafe start
unfolding start
start-IsSafe = record {
  kept = λ c m. ground arith;
  held = λ c m. ground arith;
  found = λ c m. ground arith;
  taken = λ c m. ground arith;
  worked = λ e. ground arith;
  used = λ c m. ground arith;
  owned = λ e m. ground arith;
  single = λ c m. ground arith;
  staged = λ c. ground arith;
}

pub add_link-IsSafe :
    (link k : ℕ) (s : System) → s.waiting link ≡ some k → IsSafe s → IsSafe (add_link link k s)
unfolding add_link
add_link-IsSafe link k s w h = record {
  kept = λ c m u l. ground (arith, h.kept c m, h.single c m, w, eqb_iff link c, eqb_iff k m);
  held = λ c m u l. ground (arith, h.held c m, h.single c m, w, eqb_iff link c, eqb_iff k m);
  found = λ c m u l. ground (arith, h.found c m, h.single c m, w, eqb_iff link c, eqb_iff k m);
  taken = λ c m u l. ground (arith, h.taken c m, h.single c m, w, eqb_iff link c, eqb_iff k m);
  worked = h.worked;
  used = λ c m u. ground (arith, h.used c m, w, eqb_iff link c, eqb_iff k m);
  owned = h.owned;
  single = λ c m u. ground (arith, h.single c m, h.staged c, w, eqb_iff link c, eqb_iff k m);
  staged = λ c. ground (arith, h.staged c, w, eqb_iff link c);
}

pub close_link-IsSafe : (link : ℕ) (s : System) → IsSafe s → IsSafe (close_link link s)
unfolding close_link
close_link-IsSafe link s h = record {
  kept = λ c m u l. ground (arith, h.kept c m, h.single c m, eqb_iff link c);
  held = λ c m u l. ground (arith, h.held c m, eqb_iff link c);
  found = λ c m u l. ground (arith, h.found c m, eqb_iff link c);
  taken = λ c m u l. ground (arith, h.taken c m, eqb_iff link c);
  worked = λ e on. ground (arith, h.worked e);
  used = λ c m u. ground (arith, h.used c m, eqb_iff link c);
  owned = λ e m u. ground (arith, h.owned e m);
  single = λ c m u. ground (arith, h.single c m, eqb_iff link c);
  staged = λ c. ground (arith, h.staged c, eqb_iff link c);
}

pub link_manager-IsSafe :
    (link : ℕ) (email : String) (s : System)
    → s.open_link link ≡ none
    → s.waiting link ≡ none
    → s.added link ≡ none
    → IsSafe s
    → IsSafe (link_manager link email s)
unfolding link_manager
link_manager-IsSafe link email s o w a h = record {
  kept = λ c m u l. ground (
    arith,
    h.kept c m,
    h.used c m,
    h.owned email m,
    h.owned (s.owner m) m,
    h.worked email,
    o,
    w,
    a,
    eqb_iff link c,
    eqb_iff s.next_manager m,
    eq_iff email (s.owner m),
    eq_refl email,
  );
  held = λ c m u l.
      ground (arith, h.held c m, h.used c m, o, w, a, eqb_iff link c, eqb_iff s.next_manager m);
  found = λ c m u l.
      ground (arith, h.found c m, h.used c m, o, w, a, eqb_iff link c, eqb_iff s.next_manager m);
  taken = λ c m u l.
      ground (arith, h.taken c m, h.used c m, o, w, a, eqb_iff link c, eqb_iff s.next_manager m);
  worked = λ e on. ground (arith, h.worked e);
  used = λ c m u.
      ground (arith, h.used c m, h.owned email m, w, eqb_iff link c, eqb_iff s.next_manager m);
  owned = λ e m u. ground (arith, h.owned e m, eq_iff email e, eqb_iff s.next_manager m);
  single = λ c m u. ground (arith, h.single c m, o, w, a, eqb_iff link c);
  staged = λ c. ground (arith, h.staged c, o, w, a, eqb_iff link c);
}

pub look_again-IsSafe :
    (link k : ℕ) (s : System) → s.added link ≡ some k → IsSafe s → IsSafe (look_again link k s)
unfolding look_again close_all compare_and_delete
look_again-IsSafe link k s a h = record {
  kept = λ c m u l. ground (
    arith,
    h.kept c m,
    h.held c m,
    h.kept link k,
    h.single c m,
    h.owned (s.owner k) k,
    a,
    eqb_iff link c,
    eqb_iff k m,
    eq_iff (s.owner k) (s.owner m),
    h.worked (s.owner m),
  );
  held = λ c m u l. ground (arith, h.held c m, h.single c m, a, eqb_iff link c, eqb_iff k m);
  found = λ c m u l.
      ground
        (arith, h.found c m, h.single c m, a, eqb_iff link c, eqb_iff k m, h.worked (s.owner m));
  taken = λ c m u l. ground (arith, h.taken c m, h.single c m, a, eqb_iff link c, eqb_iff k m);
  worked = λ e on. ground (arith, h.worked e);
  used = λ c m u. ground (arith, h.used c m, a, eqb_iff link c);
  owned = λ e m u. ground (arith, h.owned e m);
  single = λ c m u. ground (arith, h.single c m, a, eqb_iff link c);
  staged = λ c. ground (arith, h.staged c, a, eqb_iff link c);
}
