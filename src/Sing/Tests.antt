-- ===== src/Sing/Tests.antt =====
-- A managed node of the sing-box core with one user, who has a connection open.
use v2bx_outbound.Base.{
  ℕ, String, Bool, true, false, not, ◌&&◌, ◌||◌, Option, none, some, List, [], ◌∷◌, ◌≡◌, inl, refl,
  arith, eq_iff,
}
use v2bx_outbound.Base.Map.{lookup, IsMap, string_key, int_key}
use v2bx_outbound.Panel.{UserInfo, user_tag}
use v2bx_outbound.Limiter.{Limiter}
use v2bx_outbound.Limiter.Registry.{Limiters, get_limiter, deref}
use v2bx_outbound.Limiter.Check.{check_limit}
use v2bx_outbound.Limiter.Check.Refusal.{must_refuse}
use v2bx_outbound.Base.Text.{trim_prefix}
use v2bx_outbound.Sing.Hook.{Hook, user_key, has, allowed, routed_connection}
use v2bx_outbound.Sing.Hook.Routed.{
  with_connection, fate_of, breaks_rule, lets_in_user, routed_connection-fate,
}
use v2bx_outbound.Sing.Race.{
  System, Reach, here, next, activates, stores, looks_again, deactivates, idle, activate, store,
  look_again, deactivate,
}
use v2bx_outbound.Sing.Race.Safety.{Reach-active}
use v2bx_outbound.Sing.Users.{Sing, managed, add_users, del_users}
use v2bx_outbound.Sing.Users.Accounts.{AddUsersParams, Account}
use v2bx_outbound.Sing.Users.Active.{user_key-eq, is_among}
use v2bx_outbound.Sing.Users.Closed.{HasNone}
use v2bx_outbound.Sing.Users.Committed.{IsSynced, is_some, add_users-commits, del_users-commits}
use v2bx_outbound.Sing.Nodes.{del_node}
use v2bx_outbound.Sing.Nodes.Gone.{del_node-IsGone}

abbrev alice : UserInfo
alice = record { id = 1; uuid = "alice"; speed_limit = 0; device_limit = 0 }

abbrev bob : UserInfo
bob = record { id = 2; uuid = "bob"; speed_limit = 0; device_limit = 0 }

abbrev hook : Hook
hook = record {
  active_users = ("n\0alice", tt) ∷ [];
  managed_nodes = ("n", tt) ∷ [];
  connections = (7, "n\0alice") ∷ [];
  counter = [];
}

abbrev params : AddUsersParams
params = record { tag = "n"; users = bob ∷ []; kind = "trojan"; flow = ""; cipher = "" }

abbrev sing : Sing
sing = record {
  hook = hook;
  uid_map = ("n\0alice", 1) ∷ [];
  node_report_min_traffic_bytes = [];
  managed_users = ("n", ("alice", alice) ∷ []) ∷ [];
  managed_params = ("n", params) ∷ [];
}

-- The library has the inbound, and takes every table; the state is the number of calls.
abbrev inbound_get : String → ℕ → Bool
inbound_get tag m = true

abbrev set_managed_users : String → List Account → ℕ → ℕ × Bool
set_managed_users tag users m = (m, true)

abbrev byte_length : String → ℕ
byte_length s = 36

abbrev encode : ℕ → String → String
encode n s = s

abbrev less : String → String → Bool
less a b = false

sing-IsSynced : IsSynced "n" sing
unfolding lookup user_key
sing-IsSynced = (
  λ k u e. ground (arith, e, eq_iff "alice" k),
  λ uuid. ground (arith, user_key-eq "n" "alice" uuid),
)

one_connection : IsMap hook.connections
unfolding lookup
one_connection = (refl, tt)

add_users-commits_example :
    let r = add_users inbound_get set_managed_users byte_length encode less params (sing, 0) in
    IsSynced "n" r.0.0
    × ((uuid : String)
        → has uuid (managed "n" r.0.0)
          ≡ (is_some r.1 && is_among uuid (bob ∷ []) || has uuid (managed "n" sing)))
add_users-commits_example =
    add_users-commits inbound_get set_managed_users byte_length encode less params sing 0
      sing-IsSynced

del_users-commits_example :
    let r =
      del_users inbound_get set_managed_users byte_length encode less (alice ∷ []) "n" (sing, 0) in
    IsSynced "n" r.0.0
    × ((uuid : String)
        → has uuid (managed "n" r.0.0)
          ≡ (not (r.1 && is_among uuid (alice ∷ [])) && has uuid (managed "n" sing)))
    × ((uuid : String)
        → r.1 ≡ true
        → is_among uuid (alice ∷ []) ≡ true
        → HasNone "n" uuid r.0.0.hook)
del_users-commits_example =
    del_users-commits inbound_get set_managed_users byte_length encode less (alice ∷ []) "n" sing 0
      one_connection sing-IsSynced

abbrev get_inbound_options : String → String → ℕ → Option (String × ℕ)
get_inbound_options tag info config = some (info, config)

abbrev report_min_traffic : ℕ → ℕ
report_min_traffic config = config

abbrev create : String → String × ℕ → ℕ → ℕ × Bool
create tag c m = (m, true)

abbrev remove_inbound : String → ℕ → ℕ × Bool
remove_inbound tag m = (m, false)

managed_node : has "n" hook.managed_nodes ≡ true
unfolding lookup
managed_node = refl

del_node-IsGone_example :
    let b' =
      (del_node get_inbound_options report_min_traffic create remove_inbound "n" (sing, 0)).0.0 in
    (allowed "n" "alice" b'.hook ≡ false)
    × (has "alice" (managed "n" sing) ≡ true → HasNone "n" "alice" b'.hook)
    × IsSynced "n" b'
    × (lookup "n" b'.hook.counter ≡ none)
del_node-IsGone_example =
    del_node-IsGone get_inbound_options report_min_traffic create remove_inbound "n" "alice" sing 0
      one_connection sing-IsSynced managed_node

-- A connection that is stored while its user is deleted, and looked up again before the range.
abbrev raced : System
raced = look_again 7 "k" (deactivate "k" (store 7 "k" (activate "k" idle)))

raced-Reach : Reach raced
unfolding idle activate store deactivate
raced-Reach =
    next (next (next (next here (activates "k")) (stores 7 "k" refl)) (deactivates "k"))
      (looks_again 7 "k" refl (inl refl))

abbrev kept : System
kept = look_again 7 "k" (store 7 "k" (activate "k" idle))

kept-Reach : Reach kept
unfolding idle activate store
kept-Reach =
    next (next (next here (activates "k")) (stores 7 "k" refl)) (looks_again 7 "k" refl (inl refl))

raced_closed : raced.open_conn 7 ≡ none
unfolding idle activate store deactivate look_again
raced_closed = refl

Reach-active_example : kept.active "k" ≡ true
unfolding idle activate store look_again
Reach-active_example = Reach-active kept 7 "k" kept-Reach refl refl refl refl

-- The limiter of the node.
abbrev limiter : Limiter ℕ String
limiter = record {
  domain_rules = [];
  protocol_rules = [];
  speed_limit = 0;
  user_online_ip = [];
  old_user_online = [];
  uuid_to_uid = ("alice", 1) ∷ [];
  user_limit_info = [];
  speed_limiter = [];
  alive_list = [];
}

abbrev limiters : Limiters ℕ String
limiters = record { table = ("n", 3) ∷ []; heap = (3, limiter) ∷ []; next = 4 }

abbrev new_bucket : ℕ → ℕ
new_bucket rate = rate

abbrev match_string : String → String → Bool
match_string rule text = false

limiter_found : (get_limiter "n" limiters ≡ some 3) × (deref 3 limiters ≡ some limiter)
unfolding get_limiter deref lookup
limiter_found = (refl, refl)

routed_connection-fate_example :
    let r =
      routed_connection new_bucket match_string 8 "n" "alice" "10.0.0.1" "example.org" "" 100
        (hook, limiters) in
    let checked = check_limit new_bucket (user_tag "n" "alice") "10.0.0.1" true true 100 limiter in
    let refused =
      must_refuse (user_tag "n" "alice") (trim_prefix "::ffff:" "10.0.0.1") true limiter in
    let ruled_out = breaks_rule match_string "example.org" "" checked.0 in
    (r.1 ≡ fate_of (lets_in_user "n" "alice" hook && not refused && not ruled_out) checked.1)
    × (lookup 8 r.0.0.connections
        ≡ with_connection 8 (user_key "n" "alice") r.1 8 (lookup 8 hook.connections))
routed_connection-fate_example =
    routed_connection-fate new_bucket match_string 8 "n" "alice" "10.0.0.1" "example.org" "" 100
      hook limiters 3 limiter 8 limiter_found.0 limiter_found.1
