-- ===== src/Node/Controller/Replace.antt =====
-- replaceVLESSNode (node/reload.go). The update lock is held from the snapshot on, so that the calls
-- of the core stand in one sequence.
pub mod Failure
pub mod Success
use v2bx_outbound.Base.{
  ℕ, String, Bool, true, false, not, ◌&&◌, Option, none, some, List, [], if◌then◌else◌,
}
use v2bx_outbound.Base.Map.{lookup, insert, int_key}
use v2bx_outbound.Panel.{UserInfo}
use v2bx_outbound.Limiter.{Limiter}
use v2bx_outbound.Limiter.Rules.{update_rule}
use v2bx_outbound.Limiter.Registry.{Limiters, add_limiter, restore_limiter, deref, assign}
use v2bx_outbound.Node.Traffic.{Flushed, failed, reported, flush_user_traffic}
use v2bx_outbound.Node.Controller.{
  NodeInfo, Client, Core, Controller, accept_node_info, accept_user_list, set_interval,
}

-- The errors; the last two say whether the previous node is there again.
pub data ReplaceError : Type 0 where
  no_preflight : ReplaceError
  rejected : ReplaceError
  invalid_rules : ReplaceError
  traffic_not_preserved : ReplaceError
  no_snapshot : ReplaceError
  not_removed : Bool → ReplaceError
  not_installed : Bool → ReplaceError

-- `&limiter.Limiter{}`
abbrev pub zero_limiter : {B R : Type 0} → Limiter B R
zero_limiter = record {
  domain_rules = [];
  protocol_rules = [];
  speed_limit = 0;
  user_online_ip = [];
  old_user_online = [];
  uuid_to_uid = [];
  user_limit_info = [];
  speed_limiter = [];
  alive_list = [];
}

module _ {S B R : Type 0} (core : Core S) (compile : String → Option R)
    (accepts : List (ℕ × (ℕ × ℕ)) → Bool) where
  -- A call of the core, whose state it changes.
  unfoldable pub call : (S → S × Bool) → Controller S B R → Controller S B R × Bool
  call f c = let r = f c.server in (record c { server = r.0 }, r.1)

  -- flushUserTraffic on the controller.
  unfoldable pub flush : Controller S B R → Controller S B R × Flushed
  flush c =
      let slice = core.get_user_traffic_slice c.tag c.server in
      let flushed = flush_user_traffic slice.1 accepts c.pending_traffic in
      (record c { server = slice.0; pending_traffic = flushed.0 }, flushed.1)

  unfoldable pub install : NodeInfo → List UserInfo → Controller S B R → Controller S B R × Bool
  install node list c =
      let added = call (core.add_node c.tag node) c in
      if added.1 then call (core.add_users c.tag node list) added.0 else (added.0, false)

  -- `_ = c.limiter.UpdateRule(...)`
  unfoldable pub try_rules : NodeInfo → ℕ → Limiters B R → Limiters B R
  try_rules node ref t = elim (deref ref t) [
    | none ↦ t
    | some l ↦ elim (update_rule compile node.rules l) [ none ↦ t | some l' ↦ assign ref l' t ]
  ]

  -- The new limiter, under the controller's tag.
  unfoldable pub change_limiter :
      NodeInfo → List UserInfo → List (ℕ × ℕ) → Controller S B R → Controller S B R
  change_limiter candidate users alive c =
      let added = add_limiter c.tag c.options.speed_limit users alive c.limiters in
      record c { limiter = added.1; limiters = try_rules candidate added.1 added.0 }

  -- What follows a failed installation.
  unfoldable pub roll_back :
      Controller S B R → (S → S × Bool) → Controller S B R → Controller S B R × Option ReplaceError
  roll_back old restore c =
      let deleted = call (core.del_node c.tag) c in
      let back = record deleted.0 {
        limiters = restore_limiter c.tag old.limiter deleted.0.limiters;
        limiter = old.limiter;
      } in
      let installed = install old.info old.user_list back in
      let restored = call restore installed.0 in
      (restored.0, some (not_installed (installed.1 && restored.1)))

  -- What follows a failed removal.
  unfoldable pub put_back :
      Controller S B R → (S → S × Bool) → Controller S B R → Controller S B R × Option ReplaceError
  put_back old restore c =
      let again = call (core.del_node c.tag) c in
      let installed = install old.info old.user_list again.0 in
      let restored = call restore installed.0 in
      (restored.0, some (not_removed (installed.1 && restored.1)))

  unfoldable pub accept_candidate :
      NodeInfo → List UserInfo → List (ℕ × ℕ) → Controller S B R → Controller S B R
  accept_candidate candidate users alive c = record c {
    info = candidate;
    user_list = users;
    alive_map = alive;
    node_interval = set_interval candidate.pull_interval c.node_interval;
    report_interval = set_interval candidate.push_interval c.report_interval;
    api_client = accept_user_list (accept_node_info candidate c.api_client);
  }

  -- From the removal of the old node on.
  unfoldable pub switch_node :
      NodeInfo
      → List UserInfo
      → List (ℕ × ℕ)
      → (S → S × Bool)
      → Controller S B R
      → Controller S B R × Option ReplaceError
  switch_node candidate users alive restore c =
      let deleted = call (core.del_node c.tag) c in
      let changed = change_limiter candidate users alive deleted.0 in
      let installed = install candidate users changed in
      if not deleted.1
      then put_back c restore deleted.0
      else if installed.1
      then (accept_candidate candidate users alive installed.0, none)
      else roll_back c restore installed.0

  -- How to restore the state of the core, or `none` for an error.
  unfoldable pub snapshot : Controller S B R → Option (S → S × Bool)
  snapshot c = elim core.snapshot_node_state [
    | none ↦ some (λ s. (s, true))
    | some take ↦ take c.tag c.info c.server
  ]

  -- The node is usable: the core's preflight and the rules.
  unfoldable pub preflight : NodeInfo → Controller S B R → Option ReplaceError
  preflight candidate c = elim core.validate_node [
    | none ↦ some no_preflight
    | some validate ↦
        (if validate c.tag candidate c.server
          then elim (update_rule {B = B} compile candidate.rules zero_limiter) [
            | none ↦ some invalid_rules
            | some trial ↦ none
          ]
          else some rejected)
  ]

  unfoldable pub replace_vless_node :
      NodeInfo
      → List UserInfo
      → List (ℕ × ℕ)
      → Controller S B R
      → Controller S B R × Option ReplaceError
  replace_vless_node candidate users alive c = elim (preflight candidate c) [
    | some e ↦ (c, some e)
    | none ↦
        let flushed = flush c in
        elim flushed.1 [
          | failed ↦ (flushed.0, some traffic_not_preserved)
          | reported sent ↦ elim (snapshot flushed.0) [
            | none ↦ (flushed.0, some no_snapshot)
            | some restore ↦ switch_node candidate users alive restore flushed.0
          ]
        ]
  ]
