-- ===== src/Node/Controller/Replace/Failure.antt =====
-- A replacement of a node that fails leaves the controller and the limiters as they were.
use v2bx_outbound.Base.{
  ℕ, ◌+◌, ◌≤◌, ◌<◌, String, ◌==◌, eq_iff, Bool, Option, some, List, ◌≡◌, ◌≢◌, refl, ◌∙◌, arith,
  if◌then◌else◌, eqb_iff, Option-cases, inl, inr,
}
use v2bx_outbound.Base.Map.{lookup, lookup-insert, string_key, int_key}
use v2bx_outbound.Panel.{UserInfo}
use v2bx_outbound.Limiter.Users.{new_limiter}
use v2bx_outbound.Limiter.Rules.{update_rule}
use v2bx_outbound.Limiter.Registry.{
  Limiters, add_limiter, restore_limiter, get_limiter, deref, assign,
}
use v2bx_outbound.Node.Controller.{NodeInfo, Core, Controller}
use v2bx_outbound.Node.Controller.Replace.{
  ReplaceError, call, flush, install, try_rules, change_limiter, roll_back, put_back, switch_node,
  snapshot, replace_vless_node,
}

-- The same limiters under the same tags, and no limiter of before is changed.
abbrev pub SameLimiters : {B R : Type 0} → Limiters B R → Limiters B R → Type 0
SameLimiters t t' =
    ((j : String) → get_limiter j t' ≡ get_limiter j t)
    × ((ref : ℕ) → ref < t.next → deref ref t' ≡ deref ref t)
    × (t.next ≤ t'.next)

add_limiter-limiters :
    {B R : Type 0} (tag : String) (speed_limit : ℕ) (users : List UserInfo) (alive : List (ℕ × ℕ))
    (t : Limiters B R) (j : String) (r : ℕ)
    → let t' = (add_limiter tag speed_limit users alive t).0 in
      (get_limiter j t' ≡ (if tag == j then some t.next else get_limiter j t))
      × (r ≢ t.next → deref r t' ≡ deref r t)
      × (t'.next ≡ t.next + 1)
unfolding add_limiter get_limiter deref
add_limiter-limiters tag speed_limit users alive t j r = (
  lookup-insert tag j t.next t.table,
  λ other. ground (
    arith,
    eqb_iff t.next r,
    lookup-insert t.next r (new_limiter tag speed_limit users alive) t.heap,
  ),
  refl,
)

restore_limiter-limiters :
    {B R : Type 0} (tag : String) (ref : ℕ) (t : Limiters B R) (j : String) (r : ℕ)
    → let t' = restore_limiter tag ref t in
      (get_limiter j t' ≡ (if tag == j then some ref else get_limiter j t))
      × (deref r t' ≡ deref r t)
      × (t'.next ≡ t.next)
unfolding restore_limiter get_limiter deref
restore_limiter-limiters tag ref t j r = (lookup-insert tag j ref t.table, refl, refl)

module _ {S B R : Type 0} where
  -- The two controllers agree on all but the core's state, the pending traffic and the limiters.
  abbrev pub SameNode : Controller S B R → Controller S B R → Type 0
  SameNode c c' =
      (c'.info ≡ c.info)
      × (c'.user_list ≡ c.user_list)
      × (c'.alive_map ≡ c.alive_map)
      × (c'.api_client ≡ c.api_client)
      × (c'.tag ≡ c.tag)
      × (c'.node_interval ≡ c.node_interval)
      × (c'.report_interval ≡ c.report_interval)
      × (c'.options ≡ c.options)

  module _ (core : Core S) (compile : String → Option R) (accepts : List (ℕ × (ℕ × ℕ)) → Bool) where
    install-frame :
        (node : NodeInfo) (list : List UserInfo) (c : Controller S B R)
        → let c' = (install core compile accepts node list c).0 in
          SameNode c c' × (c'.limiter ≡ c.limiter) × (c'.limiters ≡ c.limiters)
    unfolding install call
    install-frame node list c = ground arith

    call-frame :
        (f : S → S × Bool) (c : Controller S B R)
        → let c' = (call core compile accepts f c).0 in
          SameNode c c' × (c'.limiter ≡ c.limiter) × (c'.limiters ≡ c.limiters)
    unfolding call
    call-frame f c = ground arith

    flush-frame :
        (c : Controller S B R)
        → let c' = (flush core compile accepts c).0 in
          SameNode c c' × (c'.limiter ≡ c.limiter) × (c'.limiters ≡ c.limiters)
    unfolding flush
    flush-frame c = ground arith

    put_back-frame :
        (old : Controller S B R) (restore : S → S × Bool) (c : Controller S B R)
        → let c' = (put_back core compile accepts old restore c).0 in
          SameNode c c' × (c'.limiter ≡ c.limiter) × (c'.limiters ≡ c.limiters)
    unfolding put_back install call
    put_back-frame old restore c = ground arith

    roll_back-frame :
        (old : Controller S B R) (restore : S → S × Bool) (c : Controller S B R)
        → let c' = (roll_back core compile accepts old restore c).0 in
          SameNode c c'
          × (c'.limiter ≡ old.limiter)
          × (c'.limiters ≡ restore_limiter c.tag old.limiter c.limiters)
    unfolding roll_back install call
    roll_back-frame old restore c = ground arith

    change_limiter-frame :
        (candidate : NodeInfo) (users : List UserInfo) (alive : List (ℕ × ℕ)) (c : Controller S B R)
        → SameNode c (change_limiter core compile accepts candidate users alive c)
    unfolding change_limiter
    change_limiter-frame candidate users alive c = ground arith

    try_rules-SameLimiters :
        (node : NodeInfo) (ref : ℕ) (t : Limiters B R) (j : String) (r : ℕ)
        → let t' = try_rules core compile accepts node ref t in
          (get_limiter j t' ≡ get_limiter j t)
          × (r ≢ ref → deref r t' ≡ deref r t)
          × (t'.next ≡ t.next)
    unfolding try_rules get_limiter deref assign
    try_rules-SameLimiters node ref t j r =
        let rules = update_rule {B = B} compile node.rules in
        elim (Option-cases (lookup ref t.heap)) [
          | inl e ↦ ground (arith, e)
          | inr (l, e) ↦ elim (Option-cases (rules l)) [
            | inl f ↦ ground (arith, e, f)
            | inr (l', f) ↦ ground (arith, e, f, eqb_iff ref r, lookup-insert ref r l' t.heap)
          ]
        ]

    change_limiter-limiters :
        (candidate : NodeInfo) (users : List UserInfo) (alive : List (ℕ × ℕ)) (c : Controller S B R)
        (j : String) (r : ℕ)
        → let t' = (change_limiter core compile accepts candidate users alive c).limiters in
          (get_limiter j t'
            ≡ (if c.tag == j then some c.limiters.next else get_limiter j c.limiters))
          × (r ≢ c.limiters.next → deref r t' ≡ deref r c.limiters)
          × (t'.next ≡ c.limiters.next + 1)
    unfolding change_limiter add_limiter
    change_limiter-limiters candidate users alive c j r =
        let speed_limit = c.options.speed_limit in
        let added = add_limiter c.tag speed_limit users alive c.limiters in
        let first = add_limiter-limiters c.tag speed_limit users alive c.limiters j r in
        let second = try_rules-SameLimiters candidate added.1 added.0 j r in
        (second.0 ∙ first.0, λ other. second.1 other ∙ first.1 other, second.2 ∙ first.2)

    -- What holds of the limiters, at one tag and one reference.
    abbrev Untouched : String → ℕ → Controller S B R → Controller S B R → Type 0
    Untouched j r c c' =
        (c'.limiter ≡ c.limiter)
        × (get_limiter j c'.limiters ≡ get_limiter j c.limiters)
        × (deref r c'.limiters ≡ deref r c.limiters)
        × (c.limiters.next ≤ c'.limiters.next)

    roll_back-Untouched :
        (candidate : NodeInfo) (users : List UserInfo) (alive : List (ℕ × ℕ))
        (restore : S → S × Bool) (c deleted installed : Controller S B R) (j : String) (r : ℕ)
        → SameNode c deleted × (deleted.limiter ≡ c.limiter) × (deleted.limiters ≡ c.limiters)
        → let changed = change_limiter core compile accepts candidate users alive deleted in
          SameNode changed installed
            × (installed.limiter ≡ changed.limiter)
            × (installed.limiters ≡ changed.limiters)
          → get_limiter c.tag c.limiters ≡ some c.limiter
          → r < c.limiters.next
          → let c' = (roll_back core compile accepts c restore installed).0 in
            SameNode c c' × Untouched j r c c'
    roll_back-Untouched candidate users alive restore c deleted installed j r same same' entry old =
        let changed = change_limiter core compile accepts candidate users alive deleted in
        ground (
          arith,
          eq_iff c.tag j,
          same,
          same',
          change_limiter-frame candidate users alive deleted,
          change_limiter-limiters candidate users alive deleted j r,
          roll_back-frame c restore installed,
          restore_limiter-limiters installed.tag c.limiter installed.limiters j r,
        )

    switch_node-Untouched :
        (candidate : NodeInfo) (users : List UserInfo) (alive : List (ℕ × ℕ))
        (restore : S → S × Bool) (c : Controller S B R) (e : ReplaceError) (j : String) (r : ℕ)
        → (switch_node core compile accepts candidate users alive restore c).1 ≡ some e
        → get_limiter c.tag c.limiters ≡ some c.limiter
        → r < c.limiters.next
        → let c' = (switch_node core compile accepts candidate users alive restore c).0 in
          SameNode c c' × Untouched j r c c'
    unfolding switch_node
    switch_node-Untouched candidate users alive restore c e j r h entry old =
        let deleted = call core compile accepts (core.del_node c.tag) c in
        let same = call-frame (core.del_node c.tag) c in
        let changed = change_limiter core compile accepts candidate users alive deleted.0 in
        let installed = install core compile accepts candidate users changed in
        let same' = install-frame candidate users changed in
        ground (
          arith,
          same,
          put_back-frame c restore deleted.0,
          roll_back-Untouched candidate users alive restore c deleted.0 installed.0 j r same same'
              entry old,
        )

    replace-Untouched :
        (candidate : NodeInfo) (users : List UserInfo) (alive : List (ℕ × ℕ)) (c : Controller S B R)
        (e : ReplaceError) (j : String) (r : ℕ)
        → (replace_vless_node core compile accepts candidate users alive c).1 ≡ some e
        → get_limiter c.tag c.limiters ≡ some c.limiter
        → r < c.limiters.next
        → let c' = (replace_vless_node core compile accepts candidate users alive c).0 in
          SameNode c c' × Untouched j r c c'
    unfolding replace_vless_node
    replace-Untouched candidate users alive c e j r h entry old =
        let flushed = flush core compile accepts c in
        let same = flush-frame c in
        elim (Option-cases (snapshot core compile accepts flushed.0)) [
          | inl f ↦ ground (arith, f, same)
          | inr (restore, f) ↦
              ground (
                arith,
                f,
                same,
                switch_node-Untouched candidate users alive restore flushed.0 e j r,
              )
        ]

-- A replacement that fails, at whichever step, leaves the node's data and its users, the limiter in
-- use and the table of limiters as they were, and changes no limiter that existed; nothing is
-- accepted from the panel. The controller's limiter stands under its tag before.
pub replace_vless_node_failure :
    {S B R : Type 0} (core : Core S) (compile : String → Option R)
    (accepts : List (ℕ × (ℕ × ℕ)) → Bool) (candidate : NodeInfo) (users : List UserInfo)
    (alive : List (ℕ × ℕ)) (c : Controller S B R) (e : ReplaceError)
    → get_limiter c.tag c.limiters ≡ some c.limiter
    → c.limiter < c.limiters.next
    → (replace_vless_node core compile accepts candidate users alive c).1 ≡ some e
    → let c' = (replace_vless_node core compile accepts candidate users alive c).0 in
      SameNode c c' × (c'.limiter ≡ c.limiter) × SameLimiters c.limiters c'.limiters
replace_vless_node_failure core compile accepts candidate users alive c e entry old h =
    let untouched = replace-Untouched core compile accepts candidate users alive c e in
    let here = untouched c.tag c.limiter h entry old in
    (
      here.0,
      here.1.0,
      (
        λ j. (untouched j c.limiter h entry old).1.1,
        λ r older. (untouched c.tag r h entry older).1.2,
        here.1.3,
      ),
    )
