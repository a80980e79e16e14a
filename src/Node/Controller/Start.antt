-- ===== src/Node/Controller/Start.antt =====
-- Start, startTasks and Close (node/controller.go, node/task.go). The certificate request of
-- node/cert.go is the argument `cert_ready`. Deferred calls run in reverse order of their `defer`.
pub mod Ready
use v2bx_outbound.Base.{
  ℕ, String, ◌==◌, Bool, true, false, not, ◌&&◌, ◌||◌, Option, none, some, List, [], ◌∷◌,
  if◌then◌else◌, eqb, mul_int,
}
use v2bx_outbound.Base.Map.{lookup, value, string_key}
use v2bx_outbound.Panel.{UserInfo}
use v2bx_outbound.Limiter.{Limiter}
use v2bx_outbound.Limiter.Rules.{update_rule}
use v2bx_outbound.Limiter.Registry.{Limiters, add_limiter, delete_limiter, deref, assign}
use v2bx_outbound.Task.{Task, new_task, begin_start, end_start, close}
use v2bx_outbound.Node.Controller.{
  NodeInfo, Core, Controller, UserAnswer, get_user_list, accept_node_info, accept_user_list,
  build_node_tag,
}
use v2bx_outbound.Node.Controller.Replace.{call}
use v2bx_outbound.Node.Controller.Monitor.{tls, is_empty}

pub data StartError : Type 0 where
  node_unavailable users_unavailable no_users alive_unavailable : StartError
  bad_rules no_cert no_preflight rejected no_snapshot node_not_added users_not_added : StartError

-- How Start ends: with a nil error, with an error, or by a nil dereference where the panel calls the
-- first answer "not modified".
pub data StartEnd : Type 0 where
  started : StartEnd
  failed : StartError → StartEnd
  crashed : StartEnd

-- The answers of the panel.
pub record Answers : Type 0 where
  pub node : Option (Option NodeInfo)
  pub users : UserAnswer
  pub alive : Option (List (ℕ × ℕ))

-- Nothing to restore yet.
abbrev pub keep_state : {S : Type 0} → S → S × Bool
keep_state s = (s, true)

module _ {S B R : Type 0} (core : Core S) (compile : String → Option R) (cert_ready : Bool) where
  -- The deferred calls of a Start that fails: restore, then DeleteLimiter.
  unfoldable pub abandon :
      (S → S × Bool) → StartError → Controller S B R → Controller S B R × StartEnd
  abandon restore e c = (
    record c { server = (restore c.server).0; limiters = delete_limiter c.tag c.limiters },
    failed e,
  )

  -- From AddNode on.
  unfoldable pub add_first :
      NodeInfo → (S → S × Bool) → Controller S B R → Controller S B R × StartEnd
  add_first node restore c =
      let added = core.add_node c.tag node c.server in
      let filled = core.add_users c.tag node c.user_list added.0 in
      if not added.1
      then abandon restore node_not_added (record c { server = added.0 })
      else if not filled.1
      then abandon restore users_not_added (record c { server = (core.del_node c.tag filled.0).0 })
      else (
        record c {
          server = filled.0;
          info = node;
          api_client = accept_user_list (accept_node_info node c.api_client);
        },
        started,
      )

  -- The preflight of a VLESS node.
  unfoldable pub refusal : NodeInfo → Controller S B R → Option StartError
  refusal node c =
      let verdict : Option StartError = elim core.validate_node [
        | none ↦ some no_preflight
        | some validate ↦ if validate c.tag node c.server then none else some rejected
      ] in
      if node.kind == "vless" then verdict else none

  -- From the certificate on.
  unfoldable pub enter_core : NodeInfo → Controller S B R → Controller S B R × StartEnd
  enter_core node c =
      let entered : Controller S B R × StartEnd = elim (refusal node c) [
        | some e ↦ abandon keep_state e c
        | none ↦ elim core.snapshot_node_state [
          | none ↦ add_first node keep_state c
          | some take ↦ elim (take c.tag node c.server) [
            | none ↦ abandon keep_state no_snapshot c
            | some restore ↦ add_first node restore c
          ]
        ]
      ] in
      if eqb node.security tls && not cert_ready then abandon keep_state no_cert c else entered

  -- With the users and the alive list of the panel: the limiter. Where its rules fail, nothing is
  -- deferred yet, and the limiter stays in the table.
  unfoldable pub limit_under : String → NodeInfo → Controller S B R → Controller S B R × StartEnd
  limit_under tag node c =
      let added = add_limiter tag c.options.speed_limit c.user_list c.alive_map c.limiters in
      let tagged = record c { tag = tag; limiters = added.0 } in
      elim (deref added.1 added.0) [
        | none ↦ (tagged, crashed)
        | some l ↦ elim (update_rule compile node.rules l) [
          | none ↦ (tagged, failed bad_rules)
          | some l' ↦
              enter_core node
                (record tagged { limiter = added.1; limiters = assign added.1 l' added.0 })
        ]
      ]

  unfoldable pub limit_first : NodeInfo → Controller S B R → Controller S B R × StartEnd
  limit_first node c =
      let name = c.options.name in
      let tag = if name == "" then build_node_tag c.api_client.api_host node else name in
      limit_under tag node c

  -- With an answer to each request; `none` is a nil list of users.
  unfoldable pub start_with :
      Option NodeInfo
      → List UserInfo
      → Option (List (ℕ × ℕ))
      → Controller S B R
      → Controller S B R × StartEnd
  start_with new_node users alive c =
      let listed = record c { user_list = users } in
      if is_empty users then (listed, failed no_users) else elim alive [
        | none ↦ (record listed { alive_map = [] }, failed alive_unavailable)
        | some found ↦
            let ready = record listed { alive_map = found } in
            elim new_node [ none ↦ (ready, crashed) | some node ↦ limit_first node ready ]
      ]

  unfoldable pub start : Answers → Controller S B R → Controller S B R × StartEnd
  start answers c = elim answers.node [
    | none ↦ (c, failed node_unavailable)
    | some new_node ↦
        let answer = get_user_list answers.users c.api_client in
        let asked = record c { api_client = answer.0 } in
        elim answer.1 [
          | none ↦ (record asked { user_list = [] }, failed users_unavailable)
          | some users ↦ start_with new_node (value users []) answers.alive asked
        ]
  ]

  -- Close, less the tasks: DeleteLimiter, then DelNode; true for a nil error.
  unfoldable pub close_node : Controller S B R → Controller S B R × Bool
  close_node c =
      let deleted = core.del_node c.tag c.server in
      (record c { server = deleted.0; limiters = delete_limiter c.tag c.limiters }, deleted.1)

-- The tasks of a controller.
pub record Tasks : Type 0 where
  pub node_info_monitor : Task
  pub user_report : Task
  pub renew_cert : Option Task
  pub dynamic_speed_limit : Option Task

-- `task.Start(first)`, with the answer of Execute.
abbrev pub start_task : Bool → Bool → Task → Task
start_task first succeeds t = end_start first succeeds (begin_start t)

-- The modes in which a certificate is renewed.
abbrev pub is_renewed : String → Bool
is_renewed mode = not (mode == "none" || mode == "" || mode == "file" || mode == "self")

abbrev pub seconds : ℕ → ℕ
seconds n = mul_int n 1_000_000_000

-- The task of the dynamic speed limit is made and not started.
unfoldable pub start_tasks : NodeInfo → String → Bool → Bool → ℕ → Tasks
start_tasks node cert_mode renewal_succeeds enable_dynamic_speed_limit periodic = record {
  node_info_monitor = start_task false true (new_task node.pull_interval);
  user_report = start_task false true (new_task node.push_interval);
  renew_cert =
      if eqb node.security tls && is_renewed cert_mode
      then some (start_task true renewal_succeeds (new_task (seconds 86_400)))
      else none;
  dynamic_speed_limit =
      if enable_dynamic_speed_limit then some (new_task (seconds periodic)) else none;
}

abbrev pub close_present : Bool → Option Task → Option Task
close_present stopped none = none
close_present stopped (some t) = some (close stopped t)

-- The tasks in Close; `stopped` says for each whether its timer was stopped.
unfoldable pub close_tasks : Bool → Bool → Bool → Bool → Tasks → Tasks
close_tasks a b c d tasks = record {
  node_info_monitor = close a tasks.node_info_monitor;
  user_report = close b tasks.user_report;
  renew_cert = close_present c tasks.renew_cert;
  dynamic_speed_limit = close_present d tasks.dynamic_speed_limit;
}
