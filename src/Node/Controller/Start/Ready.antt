-- ===== src/Node/Controller/Start/Ready.antt =====
-- What Start leaves: a controller whose limiter knows its users, or none under its tag.
use v2bx_outbound.Base.{
  ℕ, String, ◌==◌, Bool, not, ◌&&◌, Option, none, some, List, [], ◌∷◌, ◌≡◌, inl, inr, refl, ap,
  arith, if◌then◌else◌, eqb, eqb_iff, Option-cases, Bool-cases,
}
use v2bx_outbound.Base.Map.{insert, lookup-insert, lookup-delete, string_key, int_key}
use v2bx_outbound.Panel.{UserInfo}
use v2bx_outbound.Panel.UserList.{IsUserList}
use v2bx_outbound.Limiter.{Limiter}
use v2bx_outbound.Limiter.Users.{new_limiter}
use v2bx_outbound.Limiter.Rules.{update_rule}
use v2bx_outbound.Limiter.Registry.{
  Limiters, add_limiter, delete_limiter, get_limiter, deref, assign,
}
use v2bx_outbound.Node.Users.Sync.{new_limiter-Follows}
use v2bx_outbound.Node.Controller.{
  NodeInfo, Core, Controller, UserAnswer, failed as no_list, unmodified, listed, get_user_list,
}
use v2bx_outbound.Node.Controller.Replace.Success.{update_rule-Follows}
use v2bx_outbound.Node.Controller.Monitor.{tls}
use v2bx_outbound.Node.Controller.Monitor.Users.{IsReady, assign-IsLimited}
use v2bx_outbound.Node.Controller.Monitor.Ready.{IsAnswer, add_limiter-IsLimited}
use v2bx_outbound.Node.Controller.Start.{
  StartError, node_unavailable, users_unavailable, no_users, alive_unavailable, bad_rules, no_cert,
  no_preflight, rejected, no_snapshot, node_not_added, users_not_added, StartEnd, started, failed,
  crashed, Answers, abandon, add_first, keep_state, refusal, enter_core, limit_under, limit_first,
  start_with, start,
}

-- Where Start fails, as far as the table of limiters goes.
pub data Stage : Type 0 where
  before_limiter : Stage  -- no limiter was made
  leaked : Stage  -- the limiter stays
  cleared : Stage  -- the limiter was made and deleted

abbrev pub stage : StartError → Stage
stage node_unavailable = before_limiter
stage users_unavailable = before_limiter
stage no_users = before_limiter
stage alive_unavailable = before_limiter
stage bad_rules = leaked
stage no_cert = cleared
stage no_preflight = cleared
stage rejected = cleared
stage no_snapshot = cleared
stage node_not_added = cleared
stage users_not_added = cleared

-- The error of an end.
abbrev error_of : StartEnd → StartError
error_of started = bad_rules
error_of crashed = bad_rules
error_of (failed e) = e

-- The table of limiters after a failure at the stage, at one tag.
abbrev pub table_after : Stage → String → String → ℕ → Option ℕ → Option ℕ
table_after before_limiter tag j next before = before
table_after leaked tag j next before = if tag == j then some next else before
table_after cleared tag j next before = if tag == j then none else before

add_limiter-deref :
    {B R : Type 0} (tag : String) (speed_limit : ℕ) (users : List UserInfo) (alive : List (ℕ × ℕ))
    (t : Limiters B R)
    → let added = add_limiter tag speed_limit users alive t in
      deref added.1 added.0 ≡ some (new_limiter tag speed_limit users alive)
unfolding add_limiter deref
add_limiter-deref {B} {R} tag speed_limit users alive t =
    let fresh : Limiter B R = new_limiter tag speed_limit users alive in
    ground (arith, lookup-insert t.next t.next fresh t.heap, eqb_iff t.next t.next)

-- The table with the new limiter, as it is or with the tag deleted.
add_limiter-table :
    {B R : Type 0} (tag : String) (speed_limit : ℕ) (users : List UserInfo) (alive : List (ℕ × ℕ))
    (t : Limiters B R) (l : Limiter B R) (j : String)
    → let added = add_limiter tag speed_limit users alive t in
      let before = get_limiter j t in
      (get_limiter j added.0 ≡ table_after leaked tag j t.next before)
      × (get_limiter j (delete_limiter tag (assign added.1 l added.0))
          ≡ table_after cleared tag j t.next before)
unfolding add_limiter get_limiter delete_limiter assign
add_limiter-table tag speed_limit users alive t l j =
    ground
      (arith, lookup-insert tag j t.next t.table, lookup-delete tag j (insert tag t.next t.table))

module _ {S B R : Type 0} (core : Core S) (compile : String → Option R) (cert_ready : Bool) where
  -- What add_first and enter_core do to the parts that the limiter depends on.
  abbrev Entered : Controller S B R → Controller S B R × StartEnd → Type 0
  Entered c r =
      (r.0.tag ≡ c.tag)
      × (r.0.limiter ≡ c.limiter)
      × (r.0.user_list ≡ c.user_list)
      × (r.1 ≡ started → r.0.limiters ≡ c.limiters)
      × ((e : StartError)
          → r.1 ≡ failed e
          → (stage e ≡ cleared) × (r.0.limiters ≡ delete_limiter c.tag c.limiters))

  abandon-Entered :
      (restore : S → S × Bool) (e : StartError) (c : Controller S B R)
      → stage e ≡ cleared
      → Entered c (abandon core compile cert_ready restore e c)
  unfolding abandon
  abandon-Entered restore e c late =
      (refl, refl, refl, λ h. cc, λ e' h. (ground (arith, late, h), refl))

  add_first-Entered :
      (node : NodeInfo) (restore : S → S × Bool) (c : Controller S B R)
      → Entered c (add_first core compile cert_ready node restore c)
  unfolding add_first abandon
  add_first-Entered node restore c =
      (ground arith, ground arith, ground arith, ground arith, λ e h. ground arith)

  refusal-stage :
      (node : NodeInfo) (c : Controller S B R) (e : StartError)
      → refusal core compile cert_ready node c ≡ some e
      → stage e ≡ cleared
  unfolding refusal
  refusal-stage node c e h = ground arith

  enter_core-Entered :
      (node : NodeInfo) (c : Controller S B R)
      → Entered c (enter_core core compile cert_ready node c)
  unfolding enter_core
  enter_core-Entered node c = elim (Bool-cases (eqb node.security tls && not cert_ready)) [
    | inl e ↦ rw e (abandon-Entered keep_state no_cert c refl)
    | inr e ↦ elim (Option-cases (refusal core compile cert_ready node c)) [
      | inr (error, f) ↦
          rw (e, enter_core, f) (abandon-Entered keep_state error c (refusal-stage node c error f))
      | inl f ↦ elim (Option-cases core.snapshot_node_state) [
        | inl g ↦ rw (e, enter_core, f, g) (add_first-Entered node keep_state c)
        | inr (take, g) ↦ elim (Option-cases (take c.tag node c.server)) [
          | inl k ↦ rw (e, enter_core, f, g, k) (abandon-Entered keep_state no_snapshot c refl)
          | inr (restore, k) ↦ rw (e, enter_core, f, g, k) (add_first-Entered node restore c)
        ]
      ]
    ]
  ]

  -- What the rest of Start makes of a controller.
  abbrev Limited : ℕ → Controller S B R → Controller S B R × StartEnd → Type 0
  Limited n c r =
      (r.1 ≡ started → IsUserList n c.user_list → IsReady n r.0)
      × ((e : StartError) (j : String)
          → r.1 ≡ failed e
          → get_limiter j r.0.limiters
            ≡ table_after (stage e) r.0.tag j c.limiters.next (get_limiter j c.limiters))

  limit_under-Limited :
      (n : ℕ) (tag : String) (node : NodeInfo) (c : Controller S B R)
      → Limited n c (limit_under core compile cert_ready tag node c)
  unfolding limit_under
  limit_under-Limited n tag node c =
      let speed_limit = c.options.speed_limit in
      let users = c.user_list in
      let added = add_limiter tag speed_limit users c.alive_map c.limiters in
      let fresh : Limiter B R = new_limiter tag speed_limit users c.alive_map in
      let known = add_limiter-deref {B = B} {R = R} tag speed_limit users c.alive_map c.limiters in
      let follows = new_limiter-Follows B R tag speed_limit users c.alive_map in
      elim (Option-cases (update_rule compile node.rules fresh)) [
        | inl e ↦
            let table = add_limiter-table tag speed_limit users c.alive_map c.limiters fresh in
            rw (known, limit_under, e) (λ h list. cc, λ error j h. rw (← ap error_of h) (table j).0)
        | inr (l, e) ↦
            let table = add_limiter-table tag speed_limit users c.alive_map c.limiters l in
            let limited = record c {
              tag = tag;
              limiter = added.1;
              limiters = assign added.1 l added.0;
            } in
            let entered = enter_core-Entered node limited in
            let follows' = update_rule-Follows compile node.rules tag users fresh l e follows in
            let place =
              add_limiter-IsLimited {B = B} {R = R} tag speed_limit users c.alive_map c.limiters in
            rw (known, limit_under, e)
              (
                λ h list.
                    rw (entered.0, entered.1, entered.2, entered.3 h)
                      (assign-IsLimited tag added.1 users added.0 l place.0 place.1 follows', list),
                λ error j h.
                    let late = entered.4 error h in rw (late.0, late.1, entered.0) (table j).1,
              )
      ]

  limit_first-Limited :
      (n : ℕ) (node : NodeInfo) (c : Controller S B R)
      → Limited n c (limit_first core compile cert_ready node c)
  unfolding limit_first
  limit_first-Limited n node c = limit_under-Limited n _ node c

  start_with-Limited :
      (n : ℕ) (answer : Option NodeInfo) (users : List UserInfo) (alive : Option (List (ℕ × ℕ)))
      (c : Controller S B R)
      → let r = start_with core compile cert_ready answer users alive c in
        (IsUserList n users → r.1 ≡ started → IsReady n r.0)
        × ((e : StartError) (j : String)
            → r.1 ≡ failed e
            → get_limiter j r.0.limiters
              ≡ table_after (stage e) r.0.tag j c.limiters.next (get_limiter j c.limiters))
  unfolding start_with
  start_with-Limited n answer [] alive c = (λ list h. cc, λ e j h. rw (← ap error_of h) refl)
  start_with-Limited n answer (user ∷ users) none c =
      (λ list h. cc, λ e j h. rw (← ap error_of h) refl)
  start_with-Limited n none (user ∷ users) (some alive) c = (λ list h. cc, λ e j h. cc)
  start_with-Limited n (some node) (user ∷ users) (some alive) c =
      let ready = record c { user_list = user ∷ users; alive_map = alive } in
      let limited = limit_first-Limited n node ready in (λ list h. limited.0 h list, limited.1)

  -- For each answer of the panel.
  answers-Limited :
      (n : ℕ) (answer : Option (Option NodeInfo)) (users : UserAnswer)
      (alive : Option (List (ℕ × ℕ))) (c : Controller S B R)
      → let answers : Answers = record { node = answer; users = users; alive = alive } in
        let r = start core compile cert_ready answers c in
        (IsAnswer n users → r.1 ≡ started → IsReady n r.0)
        × ((e : StartError) (j : String)
            → r.1 ≡ failed e
            → get_limiter j r.0.limiters
              ≡ table_after (stage e) r.0.tag j c.limiters.next (get_limiter j c.limiters))
  unfolding start get_user_list
  answers-Limited n none users alive c = (λ list h. cc, λ e j h. rw (← ap error_of h) refl)
  answers-Limited n (some answer) no_list alive c =
      (λ list h. cc, λ e j h. rw (← ap error_of h) refl)
  answers-Limited n (some answer) unmodified alive c =
      let client = record c.api_client { pending_user_etag = c.api_client.user_etag } in
      let limited = start_with-Limited n answer [] alive (record c { api_client = client }) in
      (λ list. limited.0 tt, limited.1)
  answers-Limited n (some answer) (listed users etag) alive c =
      let client = record c.api_client { pending_user_etag = etag } in
      start_with-Limited n answer users alive (record c { api_client = client })

-- If the panel answers a list of users with distinct uuids, all of one length, and word-sized speed
-- limits, a Start that succeeds leaves a limiter under the controller's tag that knows exactly the users
-- of the controller's list, and that list is such a list: what each later round of nodeInfoMonitor
-- starts from.
pub start-IsReady :
    {S B R : Type 0} (core : Core S) (compile : String → Option R) (cert_ready : Bool) (n : ℕ)
    (answers : Answers) (c : Controller S B R)
    → IsAnswer n answers.users
    → (start core compile cert_ready answers c).1 ≡ started
    → IsReady n (start core compile cert_ready answers c).0
start-IsReady core compile cert_ready n answers c list =
    (answers-Limited core compile cert_ready n answers.node answers.users answers.alive c).0 list

-- A Start that fails leaves the table of limiters as it was, if the panel's answers were missing or
-- had no user; with no limiter under the controller's tag, if certificate, preflight or core were
-- what failed; and with its new limiter in the table, if the rules of the node did not compile.
pub start_failure :
    {S B R : Type 0} (core : Core S) (compile : String → Option R) (cert_ready : Bool)
    (answers : Answers) (c : Controller S B R) (e : StartError) (j : String)
    → (start core compile cert_ready answers c).1 ≡ failed e
    → let c' = (start core compile cert_ready answers c).0 in
      get_limiter j c'.limiters
      ≡ table_after (stage e) c'.tag j c.limiters.next (get_limiter j c.limiters)
start_failure core compile cert_ready answers c e j =
    (answers-Limited core compile cert_ready 0 answers.node answers.users answers.alive c).1 e j
