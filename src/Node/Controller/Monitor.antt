-- ===== src/Node/Controller/Monitor.antt =====
-- nodeInfoMonitor (node/task.go), one round of it. The certificate request of node/cert.go is the
-- argument `cert_ready`, which says whether it succeeds.
pub mod Users
pub mod Ready
use v2bx_outbound.Base.{
  ℕ, String, ◌==◌, Bool, true, false, not, ◌&&◌, Option, none, some, List, [], ◌∷◌, if◌then◌else◌,
  eqb,
}
use v2bx_outbound.Base.Map.{lookup, delete, value, string_key}
use v2bx_outbound.Panel.{UserInfo}
use v2bx_outbound.Limiter.{Limiter}
use v2bx_outbound.Limiter.Users.{update_user}
use v2bx_outbound.Limiter.Rules.{update_rule}
use v2bx_outbound.Limiter.Registry.{Limiters, add_limiter, delete_limiter, deref, assign}
use v2bx_outbound.Node.Users.{compare_user_list}
use v2bx_outbound.Node.Controller.{
  NodeInfo, Core, Controller, Poll, get_user_list, accept_node_info, accept_user_list, set_interval,
  build_node_tag,
}
use v2bx_outbound.Node.Controller.Replace.{call, replace_vless_node}

-- How a round ends; the log's Panic takes the process down.
pub data End : Type 0 where
  returned : End
  panicked : End

-- panel.Tls
abbrev pub tls : ℕ
tls = 1

abbrev pub is_empty : List UserInfo → Bool
is_empty [] = true
is_empty (user ∷ users) = false

-- `for i := range deleted { delete(c.traffic, deleted[i].Uuid) }`
unfoldable pub clear_traffic : List UserInfo → List (String × ℕ) → List (String × ℕ)
clear_traffic [] traffic = traffic
clear_traffic (user ∷ users) traffic = clear_traffic users (delete user.uuid traffic)

-- A change of the limiter that the controller refers to.
unfoldable pub change :
    {B R : Type 0} → (Limiter B R → Limiter B R) → ℕ → Limiters B R → Limiters B R
change f ref t = elim (deref ref t) [ none ↦ t | some l ↦ assign ref (f l) t ]

-- `c.limiter.AliveList = newA`, unless newA is nil
unfoldable pub set_alive :
    {S B R : Type 0} → Option (List (ℕ × ℕ)) → Controller S B R → Controller S B R
set_alive none c = c
set_alive (some alive) c = record c {
  limiters = change (λ l. record l { alive_list = alive }) c.limiter c.limiters;
}

-- Without a configured name: the new tag and a new limiter under it.
unfoldable pub renew_limiter :
    {S B R : Type 0} → NodeInfo → Option (List (ℕ × ℕ)) → Controller S B R → Controller S B R
renew_limiter node alive c =
    let tag = build_node_tag c.api_client.api_host node in
    let users = c.user_list in
    let added =
      add_limiter tag c.options.speed_limit users (value alive [])
        (delete_limiter tag c.limiters) in
    if c.options.name == ""
    then record c { tag = tag; limiter = added.1; limiters = added.0 }
    else c

-- The end of a round that changed the users.
unfoldable pub finish_users :
    {S B R : Type 0}
    → List UserInfo
    → List UserInfo
    → List UserInfo
    → Controller S B R
    → Controller S B R
finish_users new deleted added c =
    let changed = not (is_empty added && is_empty deleted) in
    record c {
      limiters =
          if changed
          then change (update_user c.tag added deleted) c.limiter c.limiters
          else c.limiters;
      traffic =
          if changed && c.options.enable_dynamic_speed_limit
          then clear_traffic deleted c.traffic
          else c.traffic;
      user_list = new;
      api_client = accept_user_list c.api_client;
    }

module _ {S B R : Type 0} (core : Core S) (compile : String → Option R)
    (accepts : List (ℕ × (ℕ × ℕ)) → Bool) (cert_ready : Bool) where
  -- A call that is left out where there is nothing to do.
  abbrev call_unless : Bool → (S → S × Bool) → Controller S B R → Controller S B R × Bool
  call_unless skip f c = if skip then (c, true) else call core compile accepts f c

  -- The node is as before; the users may have changed.
  unfoldable pub update_users : Option (List UserInfo) → Controller S B R → Controller S B R
  update_users none c = c
  update_users (some new) c =
      let changes = compare_user_list c.user_list new in
      let deleted = call_unless (is_empty changes.0) (core.del_users changes.0 c.tag c.info) c in
      let added =
        call_unless (is_empty changes.1) (core.add_users c.tag c.info changes.1) deleted.0 in
      if not deleted.1
      then deleted.0
      else if not added.1
      then added.0
      else finish_users new changes.0 changes.1 added.0

  -- From AddNode on.
  unfoldable pub add_again : NodeInfo → Controller S B R → Controller S B R × End
  add_again node c =
      let added = call core compile accepts (core.add_node c.tag node) c in
      let filled = call core compile accepts (core.add_users c.tag node c.user_list) added.0 in
      if not added.1 then (added.0, panicked) else if not filled.1 then (filled.0, returned) else (
        record filled.0 {
          node_interval = set_interval node.pull_interval c.node_interval;
          report_interval = set_interval node.push_interval c.report_interval;
          api_client = accept_user_list (accept_node_info node c.api_client);
        },
        returned,
      )

  -- From UpdateRule on.
  unfoldable pub start_again : NodeInfo → Controller S B R → Controller S B R × End
  start_again node c = elim (deref c.limiter c.limiters) [
    | none ↦ (c, returned)
    | some l ↦ elim (update_rule compile node.rules l) [
      | none ↦ (c, returned)
      | some l' ↦
          let c' = record c { limiters = assign c.limiter l' c.limiters } in
          if eqb node.security tls && not cert_ready then (c', returned) else add_again node c'
    ]
  ]

  -- A changed node that is not of type vless.
  unfoldable pub reload_node :
      NodeInfo
      → Option (List UserInfo)
      → Option (List (ℕ × ℕ))
      → Controller S B R
      → Controller S B R × End
  reload_node node new_users new_alive c =
      let c' = record c { info = node; user_list = value new_users c.user_list; traffic = [] } in
      let deleted = call core compile accepts (core.del_node c'.tag) c' in
      if not deleted.1
      then (deleted.0, panicked)
      else start_again node (set_alive new_alive (renew_limiter node new_alive deleted.0))

  unfoldable pub apply_answers :
      Option NodeInfo
      → Option (List UserInfo)
      → Option (List (ℕ × ℕ))
      → Controller S B R
      → Controller S B R × End
  apply_answers none new_users new_alive c =
      (update_users new_users (set_alive new_alive c), returned)
  apply_answers (some node) new_users new_alive c =
      let users = value new_users c.user_list in
      let replaced = replace_vless_node core compile accepts node users (value new_alive []) c in
      if node.kind == "vless"
      then (replaced.0, returned)
      else reload_node node new_users new_alive c

  unfoldable pub node_info_monitor : Poll → Controller S B R → Controller S B R × End
  node_info_monitor poll c = elim poll.node [
    | none ↦ (c, returned)
    | some new_node ↦
        let answer = get_user_list poll.users c.api_client in
        let c' = record c { api_client = answer.0 } in
        elim answer.1 [
          | none ↦ (c', returned)
          | some new_users ↦ elim poll.alive [
            | none ↦ (c', returned)
            | some new_alive ↦ apply_answers new_node new_users new_alive c'
          ]
        ]
  ]
