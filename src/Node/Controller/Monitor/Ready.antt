-- ===== src/Node/Controller/Monitor/Ready.antt =====
-- The limiter in use follows the users of the controller, round after round of nodeInfoMonitor.
use v2bx_outbound.Base.{
  ℕ, String, ◌==◌, eq_refl, Bool, true, false, not, ◌&&◌, Option, none, some, List, [], ◌≡◌, inl,
  inr, refl, ◌∙◌, ap, arith, eqb, eqb_iff, Option-cases, Bool-cases,
}
use v2bx_outbound.Base.Map.{value, lookup-insert, string_key, int_key}
use v2bx_outbound.Panel.{UserInfo}
use v2bx_outbound.Panel.UserList.{IsUserList}
use v2bx_outbound.Limiter.{Limiter}
use v2bx_outbound.Limiter.Users.{new_limiter}
use v2bx_outbound.Limiter.Rules.{update_rule}
use v2bx_outbound.Limiter.Registry.{
  Limiters, add_limiter, delete_limiter, get_limiter, deref, assign,
}
use v2bx_outbound.Node.Users.Sync.{new_limiter-Follows}
use v2bx_outbound.Node.Controller.{
  NodeInfo, Core, Controller, Poll, UserAnswer, failed, unmodified, listed, get_user_list,
  build_node_tag,
}
use v2bx_outbound.Node.Controller.Replace.{call, replace_vless_node}
use v2bx_outbound.Node.Controller.Replace.Failure.{replace_vless_node_failure}
use v2bx_outbound.Node.Controller.Replace.Success.{replace_vless_node_success, update_rule-Follows}
use v2bx_outbound.Node.Controller.Monitor.{
  returned, set_alive, renew_limiter, update_users, tls, add_again, start_again, reload_node,
  apply_answers, node_info_monitor,
}
use v2bx_outbound.Node.Controller.Monitor.Users.{
  IsLimited, IsReady, assign-IsLimited, set_alive-IsLimited, moved, update_users-IsReady,
}

-- AddLimiter puts a limiter that follows its users under the tag.
pub add_limiter-IsLimited :
    {B R : Type 0} (tag : String) (speed_limit : ℕ) (users : List UserInfo) (alive : List (ℕ × ℕ))
    (t : Limiters B R)
    → let added = add_limiter tag speed_limit users alive t in IsLimited tag added.1 users added.0
unfolding add_limiter get_limiter deref
add_limiter-IsLimited {B} {R} tag speed_limit users alive t =
    let fresh : Limiter B R = new_limiter tag speed_limit users alive in
    (
      ground (arith, lookup-insert tag tag t.next t.table, eq_refl tag),
      omega arith,
      (
        fresh,
        ground (arith, lookup-insert t.next t.next fresh t.heap, eqb_iff t.next t.next),
        new_limiter-Follows B R tag speed_limit users alive,
      ),
    )

renew_limiter-IsReady :
    {S B R : Type 0} (n : ℕ) (node : NodeInfo) (alive : Option (List (ℕ × ℕ)))
    (c : Controller S B R)
    → (c.options.name == "") ≡ true
    → IsUserList n c.user_list
    → IsReady n (renew_limiter node alive c)
unfolding renew_limiter
renew_limiter-IsReady n node alive c unnamed list =
    let tag = build_node_tag c.api_client.api_host node in
    rw unnamed (
      add_limiter-IsLimited tag c.options.speed_limit c.user_list (value alive [])
          (delete_limiter tag c.limiters),
      list,
    )

set_alive-IsReady :
    {S B R : Type 0} (n : ℕ) (alive : Option (List (ℕ × ℕ))) (c : Controller S B R)
    → IsReady n c
    → IsReady n (set_alive alive c)
unfolding set_alive
set_alive-IsReady n none c h = h
set_alive-IsReady n (some alive) c h = (set_alive-IsLimited (some alive) c c.user_list h.0, h.1)

module _ {S B R : Type 0} (core : Core S) (compile : String → Option R)
    (accepts : List (ℕ × (ℕ × ℕ)) → Bool) (cert_ready : Bool) (n : ℕ) where
  replace-IsReady :
      (node : NodeInfo) (users : List UserInfo) (alive : List (ℕ × ℕ)) (c : Controller S B R)
      → IsReady n c
      → IsUserList n users
      → IsReady n (replace_vless_node core compile accepts node users alive c).0
  replace-IsReady node users alive c ((entry, older, (l, found, follows)), list) k =
      let replaced = replace_vless_node core compile accepts node users alive c in
      elim (Option-cases replaced.1) [
        | inl e ↦
            let (l', done, sent, follows', rules, protocols) =
              replace_vless_node_success core compile accepts node users alive c e in
            rw (done.3, done.1) ((done.6, omega (arith, done.4, done.5), (l', done.7, follows')), k)
        | inr (error, e) ↦
            let (same, ref, (tags, heap, next)) =
              replace_vless_node_failure core compile accepts node users alive c error entry older
                e in
            rw (same.4, ref, same.1)
              (
                (
                  tags c.tag ∙ entry,
                  omega (arith, next),
                  (l, heap c.limiter older ∙ found, follows),
                ),
                list,
              )
      ]

  add_again-IsReady :
      (node : NodeInfo) (c : Controller S B R)
      → IsReady n c
      → IsReady n (add_again core compile accepts cert_ready node c).0
  unfolding add_again call
  add_again-IsReady node c h =
      let c' = (add_again core compile accepts cert_ready node c).0 in
      moved core compile accepts cert_ready n c c' (ground arith) h

  start_again-IsReady :
      (node : NodeInfo) (c : Controller S B R)
      → IsReady n c
      → IsReady n (start_again core compile accepts cert_ready node c).0
  unfolding start_again
  start_again-IsReady node c ((entry, older, (l, found, follows)), list) =
      elim (Option-cases (update_rule compile node.rules l)) [
        | inl e ↦ rw (found, start_again, e) ((entry, older, (l, found, follows)), list)
        | inr (l', e) ↦
            let c' = record c { limiters = assign c.limiter l' c.limiters } in
            let follows' =
              update_rule-Follows compile node.rules c.tag c.user_list l l' e follows in
            let ready : IsReady n c' = (
              assign-IsLimited c.tag c.limiter c.user_list c.limiters l' entry older follows',
              list,
            ) in
            elim (Bool-cases (eqb node.security tls && not cert_ready)) [
              | inl f ↦ rw (found, start_again, e, f) ready
              | inr f ↦ rw (found, start_again, e, f) (add_again-IsReady node c' ready)
            ]
      ]

  reload_node-IsReady :
      (node : NodeInfo) (users : Option (List UserInfo)) (alive : Option (List (ℕ × ℕ)))
      (c : Controller S B R)
      → (c.options.name == "") ≡ true
      → IsUserList n (value users c.user_list)
      → (reload_node core compile accepts cert_ready node users alive c).1 ≡ returned
      → IsReady n (reload_node core compile accepts cert_ready node users alive c).0
  unfolding reload_node call
  reload_node-IsReady node users alive c unnamed list h =
      let c' = record c { info = node; user_list = value users c.user_list; traffic = [] } in
      let deleted = call core compile accepts (core.del_node c'.tag) c' in
      let renewed = renew_limiter-IsReady n node alive deleted.0 unnamed list in
      let limited = set_alive-IsReady n alive (renew_limiter node alive deleted.0) renewed in
      elim (Bool-cases deleted.1) [
        | inl e ↦ rw e (
            start_again-IsReady node (set_alive alive (renew_limiter node alive deleted.0)) limited)
        | inr e ↦ absurd (ground (arith, e, h))
      ]

  apply_answers-IsReady :
      (node : Option NodeInfo) (users : Option (List UserInfo)) (alive : Option (List (ℕ × ℕ)))
      (c : Controller S B R)
      → IsReady n c
      → IsUserList n (value users c.user_list)
      → ((changed : NodeInfo)
          → node ≡ some changed
          → (changed.kind == "vless") ≡ false
          → (c.options.name == "") ≡ true)
      → (apply_answers core compile accepts cert_ready node users alive c).1 ≡ returned
      → IsReady n (apply_answers core compile accepts cert_ready node users alive c).0
  unfolding apply_answers set_alive update_users
  apply_answers-IsReady none none alive c ready list named h = set_alive-IsReady n alive c ready
  apply_answers-IsReady none (some users) alive c ready list named h =
      update_users-IsReady core compile accepts cert_ready n users (set_alive alive c)
        (set_alive-IsReady n alive c ready) list
  apply_answers-IsReady (some node) users alive c ready list named h =
      elim (Bool-cases (node.kind == "vless")) [
        | inl e ↦
            rw e (replace-IsReady node (value users c.user_list) (value alive []) c ready list)
        | inr e ↦ rw e (reload_node-IsReady node users alive c (named node refl e) list (rw e at h))
      ]

-- The list of an answer is one as the panel sends it.
abbrev pub IsAnswer : ℕ → UserAnswer → Type 0
IsAnswer n failed = Unit
IsAnswer n unmodified = Unit
IsAnswer n (listed users etag) = IsUserList n users

-- A round that changes a node of another type than vless needs a node without a configured name.
abbrev pub IsRenewed : {S B R : Type 0} → Poll → Controller S B R → Type 0
IsRenewed poll c =
    (node : NodeInfo)
    → poll.node ≡ some (some node)
    → (node.kind == "vless") ≡ false
    → (c.options.name == "") ≡ true

-- The round, for each answer of the panel.
answers-IsReady :
    {S B R : Type 0} (core : Core S) (compile : String → Option R)
    (accepts : List (ℕ × (ℕ × ℕ)) → Bool) (cert_ready : Bool) (n : ℕ)
    (node : Option (Option NodeInfo)) (users : UserAnswer) (alive : Option (Option (List (ℕ × ℕ))))
    (c : Controller S B R)
    → let poll : Poll = record { node = node; users = users; alive = alive } in
      IsReady n c
      → IsAnswer n users
      → IsRenewed poll c
      → (node_info_monitor core compile accepts cert_ready poll c).1 ≡ returned
      → IsReady n (node_info_monitor core compile accepts cert_ready poll c).0
unfolding node_info_monitor get_user_list
answers-IsReady core compile accepts cert_ready n none users alive c ready answer named h = ready
answers-IsReady core compile accepts cert_ready n (some new_node) failed alive c ready answer named
      h =
    ready
answers-IsReady core compile accepts cert_ready n (some new_node) unmodified none c ready answer
      named h =
    ready
answers-IsReady core compile accepts cert_ready n (some new_node) unmodified (some alive) c ready
      answer named h =
    let client = record c.api_client { pending_user_etag = c.api_client.user_etag } in
    apply_answers-IsReady core compile accepts cert_ready n new_node none alive
      (record c { api_client = client }) ready ready.1 (λ changed e. named changed (ap some e)) h
answers-IsReady core compile accepts cert_ready n (some new_node) (listed users etag) none c ready
      answer named h =
    ready
answers-IsReady core compile accepts cert_ready n (some new_node) (listed users etag) (some alive) c
      ready answer named h =
    let client = record c.api_client { pending_user_etag = etag } in
    apply_answers-IsReady core compile accepts cert_ready n new_node (some users) alive
      (record c { api_client = client }) ready answer (λ changed e. named changed (ap some e)) h

-- If the panel's answer has no users, or a list of users with distinct uuids, all of the length n, and
-- word-sized speed limits, then after a round of nodeInfoMonitor, whatever the core answers and unless
-- it panics, the controller's limiter stands under its tag and knows exactly the users of the
-- controller's list, and that list is such a list. It was so before the round, and the round does not
-- change a node with a configured name that is not of type vless.
pub node_info_monitor-IsReady :
    {S B R : Type 0} (core : Core S) (compile : String → Option R)
    (accepts : List (ℕ × (ℕ × ℕ)) → Bool) (cert_ready : Bool) (n : ℕ) (poll : Poll)
    (c : Controller S B R)
    → IsReady n c
    → IsAnswer n poll.users
    → IsRenewed poll c
    → (node_info_monitor core compile accepts cert_ready poll c).1 ≡ returned
    → IsReady n (node_info_monitor core compile accepts cert_ready poll c).0
node_info_monitor-IsReady core compile accepts cert_ready n poll c ready answer named h =
    answers-IsReady core compile accepts cert_ready n poll.node poll.users poll.alive c ready answer
      named h
