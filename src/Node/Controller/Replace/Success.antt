-- ===== src/Node/Controller/Replace/Success.antt =====
-- A replacement of a node that succeeds: the new limiter, and what is accepted from the panel.
use v2bx_outbound.Base.{
  ℕ, ◌+◌, String, eq_refl, false, Bool, Option, none, some, List, [], ◌≡◌, ◌≢◌, refl, arith,
  Option-cases, inl, inr, ◌⊎◌,
}
use v2bx_outbound.Base.Map.{insert, lookup-insert, string_key, int_key}
use v2bx_outbound.Panel.{UserInfo, UserTraffic, Rules}
use v2bx_outbound.Limiter.{Limiter}
use v2bx_outbound.Limiter.Users.{new_limiter}
use v2bx_outbound.Limiter.Rules.{compile_all, update_rule, check_domain_rule, check_protocol_rule}
use v2bx_outbound.Limiter.Rules.Atomic.{matches_any, listed, update_rule-rejects}
use v2bx_outbound.Limiter.Registry.{add_limiter, get_limiter, deref, assign}
use v2bx_outbound.Node.Users.Sync.{Follows, new_limiter-Follows}
use v2bx_outbound.Node.Traffic.{Flushed, failed, reported, flush_user_traffic, post_traffic}
use v2bx_outbound.Node.Controller.{NodeInfo, Core, Controller, accept_node_info, accept_user_list}
use v2bx_outbound.Node.Controller.Replace.{
  zero_limiter, call, flush, install, try_rules, change_limiter, roll_back, put_back,
  accept_candidate, switch_node, snapshot, preflight, replace_vless_node,
}

-- Whether the rules compile does not depend on the limiter.
update_rule-any :
    {B R : Type 0} (compile : String → Option R) (rule : Rules) (l l' trial : Limiter B R)
    → update_rule compile rule l ≡ some trial
    → update_rule compile rule l' ≢ none
unfolding update_rule
update_rule-any compile rule l l' trial h = ground arith

-- The rules of a limiter have no part in whom it follows.
pub update_rule-Follows :
    {B R : Type 0} (compile : String → Option R) (rule : Rules) (tag : String)
    (users : List UserInfo) (l l' : Limiter B R)
    → update_rule compile rule l ≡ some l'
    → Follows tag users l
    → Follows tag users l'
unfolding update_rule
update_rule-Follows compile rule tag users l l' h follows x =
    elim (Option-cases (compile_all compile rule.regexp)) [
      | inl e ↦ ground (arith, e, h)
      | inr (rules, e) ↦ ground (arith, e, h, follows x)
    ]

Flushed-cases : (f : Flushed) → (f ≡ failed) ⊎ ((sent : List UserTraffic) × (f ≡ reported sent))
Flushed-cases failed = inl refl
Flushed-cases (reported sent) = inr (sent, refl)

module _ {S B R : Type 0} (core : Core S) (compile : String → Option R)
    (accepts : List (ℕ × (ℕ × ℕ)) → Bool) where
  preflight-compiles :
      (candidate : NodeInfo) (c : Controller S B R) (l : Limiter B R)
      → preflight core compile accepts candidate c ≡ none
      → update_rule compile candidate.rules l ≢ none
  unfolding preflight
  preflight-compiles candidate c l h =
      elim (Option-cases (update_rule {B = B} compile candidate.rules zero_limiter)) [
        | inl e ↦ ground (arith, e)
        | inr (trial, e) ↦ update_rule-any compile candidate.rules zero_limiter l trial e
      ]

  preflight-passed :
      (candidate : NodeInfo) (users : List UserInfo) (alive : List (ℕ × ℕ)) (c : Controller S B R)
      → (replace_vless_node core compile accepts candidate users alive c).1 ≡ none
      → preflight core compile accepts candidate c ≡ none
  unfolding replace_vless_node
  preflight-passed candidate users alive c h =
      elim (Option-cases (preflight core compile accepts candidate c)) [
        | inl e ↦ e
        | inr (error, e) ↦ ground (arith, e, h)
      ]

  change_limiter-new :
      (candidate : NodeInfo) (users : List UserInfo) (alive : List (ℕ × ℕ)) (c : Controller S B R)
      (l : Limiter B R)
      → update_rule compile candidate.rules (new_limiter c.tag c.options.speed_limit users alive)
        ≡ some l
      → let c' = change_limiter core compile accepts candidate users alive c in
        (c'.limiter ≡ c.limiters.next)
        × (deref c'.limiter c'.limiters ≡ some l)
        × (get_limiter c.tag c'.limiters ≡ some c'.limiter)
        × (c'.tag ≡ c.tag)
        × (c'.pending_traffic ≡ c.pending_traffic)
        × (c'.limiters.next ≡ c.limiters.next + 1)
  unfolding change_limiter try_rules add_limiter deref get_limiter assign
  change_limiter-new candidate users alive c l h =
      let next = c.limiters.next in
      let fresh = new_limiter c.tag c.options.speed_limit users alive in
      let heap = insert next fresh c.limiters.heap in
      let found = lookup-insert next next fresh c.limiters.heap in
      ground (
        arith,
        found,
        lookup-insert next next l heap,
        lookup-insert c.tag c.tag next c.limiters.table,
        eq_refl c.tag,
        h,
      )

  -- What a success makes of the controller.
  abbrev pub Replaced :
      NodeInfo
      → List UserInfo
      → List (ℕ × ℕ)
      → Limiter B R
      → Controller S B R
      → Controller S B R
      → Type 0
  Replaced candidate users alive l c c' =
      (c'.info ≡ candidate)
      × (c'.user_list ≡ users)
      × (c'.api_client ≡ accept_user_list (accept_node_info candidate c.api_client))
      × (c'.tag ≡ c.tag)
      × (c'.limiter ≡ c.limiters.next)
      × (c'.limiters.next ≡ c.limiters.next + 1)
      × (get_limiter c.tag c'.limiters ≡ some c'.limiter)
      × (deref c'.limiter c'.limiters ≡ some l)

  install-frame :
      (node : NodeInfo) (list : List UserInfo) (c : Controller S B R)
      → let c' = (install core compile accepts node list c).0 in
        (c'.limiter ≡ c.limiter)
        × (c'.tag ≡ c.tag)
        × (c'.limiters ≡ c.limiters)
        × (c'.api_client ≡ c.api_client)
        × (c'.pending_traffic ≡ c.pending_traffic)
  unfolding install call
  install-frame node list c = ground arith

  change_limiter-client :
      (candidate : NodeInfo) (users : List UserInfo) (alive : List (ℕ × ℕ)) (c : Controller S B R)
      → (change_limiter core compile accepts candidate users alive c).api_client ≡ c.api_client
  unfolding change_limiter
  change_limiter-client candidate users alive c = refl

  switch_node-Replaced :
      (candidate : NodeInfo) (users : List UserInfo) (alive : List (ℕ × ℕ)) (restore : S → S × Bool)
      (c : Controller S B R) (l : Limiter B R)
      → (switch_node core compile accepts candidate users alive restore c).1 ≡ none
      → update_rule compile candidate.rules (new_limiter c.tag c.options.speed_limit users alive)
        ≡ some l
      → let c' = (switch_node core compile accepts candidate users alive restore c).0 in
        Replaced candidate users alive l c c' × (c'.pending_traffic ≡ c.pending_traffic)
  unfolding switch_node put_back roll_back accept_candidate call
  switch_node-Replaced candidate users alive restore c l h rules =
      let deleted = (call core compile accepts (core.del_node c.tag) c).0 in
      let changed = change_limiter core compile accepts candidate users alive deleted in
      ground (
        arith,
        h,
        install-frame candidate users changed,
        change_limiter-client candidate users alive deleted,
        change_limiter-new candidate users alive deleted l rules,
      )

  flush-sent :
      (c : Controller S B R) (sent : List UserTraffic)
      → (flush core compile accepts c).1 ≡ reported sent
      → let c' = (flush core compile accepts c).0 in
        (c'.pending_traffic ≡ [])
        × (c'.api_client ≡ c.api_client)
        × (c'.limiters ≡ c.limiters)
        × (c'.tag ≡ c.tag)
        × (c'.options ≡ c.options)
  unfolding flush flush_user_traffic post_traffic
  flush-sent c sent h = ground arith

  replace-Replaced :
      (candidate : NodeInfo) (users : List UserInfo) (alive : List (ℕ × ℕ)) (c : Controller S B R)
      (l : Limiter B R)
      → (replace_vless_node core compile accepts candidate users alive c).1 ≡ none
      → update_rule compile candidate.rules (new_limiter c.tag c.options.speed_limit users alive)
        ≡ some l
      → let c' = (replace_vless_node core compile accepts candidate users alive c).0 in
        Replaced candidate users alive l c c' × (c'.pending_traffic ≡ [])
  unfolding replace_vless_node
  replace-Replaced candidate users alive c l h rules =
      let flushed = flush core compile accepts c in
      elim (Flushed-cases flushed.1) [
        | inl failure ↦ ground (arith, failure, h)
        | inr (sent, success) ↦ elim (Option-cases (snapshot core compile accepts flushed.0)) [
          | inl f ↦ ground (arith, success, f, h)
          | inr (restore, f) ↦
              let after = flush-sent c sent success in
              ground (
                arith,
                success,
                f,
                h,
                rules,
                after,
                switch_node-Replaced candidate users alive restore flushed.0 l,
              )
        ]
      ]

-- A replacement that succeeds leaves no traffic pending, holds the candidate with its users and accepts
-- both etags; under the tag stands a new limiter that follows the users and rejects exactly the
-- destinations that an expression of the candidate's rules matches and the protocols that they name. The
-- rules are in force although the code drops the error of setting them: the preflight has compiled them.
pub replace_vless_node_success :
    {S B R : Type 0} (core : Core S) (compile : String → Option R)
    (accepts : List (ℕ × (ℕ × ℕ)) → Bool) (candidate : NodeInfo) (users : List UserInfo)
    (alive : List (ℕ × ℕ)) (c : Controller S B R)
    → (replace_vless_node core compile accepts candidate users alive c).1 ≡ none
    → let c' = (replace_vless_node core compile accepts candidate users alive c).0 in
      (l : Limiter B R) × (Replaced core compile accepts candidate users alive l c c')
      × (c'.pending_traffic ≡ [])
      × Follows c.tag users l
      × ((match_string : R → String → Bool) (destination : String)
          → check_domain_rule match_string destination l
            ≡ matches_any compile match_string candidate.rules.regexp destination)
      × ((protocol : String)
          → check_protocol_rule protocol l ≡ listed candidate.rules.protocol protocol)
replace_vless_node_success {S} {B} {R} core compile accepts candidate users alive c h =
    let start = new_limiter c.tag c.options.speed_limit users alive in
    let passed = preflight-passed core compile accepts candidate users alive c h in
    elim (Option-cases (update_rule compile candidate.rules start)) [
      | inl e ↦ absurd (preflight-compiles core compile accepts candidate c start passed e)
      | inr (l, e) ↦
          let replaced = replace-Replaced core compile accepts candidate users alive c l h e in
          (
            l,
            replaced.0,
            replaced.1,
            update_rule-Follows compile candidate.rules c.tag users start l e
                (new_limiter-Follows B R c.tag c.options.speed_limit users alive),
            λ match_string destination.
                (update_rule-rejects compile match_string candidate.rules start l destination ""
                  e).0,
            λ protocol.
                (update_rule-rejects compile (λ rule destination. false) candidate.rules start l ""
                  protocol e).1,
          )
    ]
