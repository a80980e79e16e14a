-- ===== src/Limiter/Tests.antt =====
-- The limiter of a node with two users: runs of CheckLimit, UpdateUser and the rules.
use v2bx_outbound.Base.{
  List, [], ◌∷◌, ℕ, String, true, false, Option, none, some, [], ◌∷◌, ◌≡◌, refl, arith, ◌==◌,
}
use v2bx_outbound.Base.Text.{trim_prefix, after_prefix}
use v2bx_outbound.Base.Map.{lookup, insert, delete, string_key, int_key}
use v2bx_outbound.Panel.{UserInfo, Rules, user_tag}
use v2bx_outbound.Limiter.{Limiter, UserLimitInfo}
use v2bx_outbound.Limiter.Speed.{determine_speed_limit}
use v2bx_outbound.Limiter.Check.{
  check_limit, byte_rate, at_device_limit, check_user, user_speed, device_check, settle_new_ip,
  take_bucket,
}
use v2bx_outbound.Limiter.Check.Online.{online_uid, check_limit-online}
use v2bx_outbound.Limiter.Check.Refusal.{must_refuse, check_limit-refuses}
use v2bx_outbound.Limiter.Check.Limits.{check_limit-bucket}
use v2bx_outbound.Limiter.Check.Expiry.{Attempt, run_attempts, check_limit_expiry_refuses}
use v2bx_outbound.Limiter.Users.{new_limiter, new_entry}
use v2bx_outbound.Limiter.Users.Entries.{new_limiter-entry}
use v2bx_outbound.Limiter.Rules.{compile_all, update_rule, check_domain_rule, check_protocol_rule}
use v2bx_outbound.Limiter.Rules.Atomic.{update_rule-rejects}
use v2bx_outbound.Limiter.Online.{get_online_device}
use v2bx_outbound.Limiter.Online.Period.{check_limit_after_report}

-- Two users; the first may use one device and has one online, the panel counts it.
abbrev alice : UserLimitInfo
alice = record {
  uid = 1;
  speed_limit = 0;
  device_limit = 1;
  dynamic_speed_limit = 0;
  expire_time = 0;
  over_limit = false;
}

abbrev bob : UserLimitInfo
bob = record {
  uid = 2;
  speed_limit = 0;
  device_limit = 0;
  dynamic_speed_limit = 10;
  expire_time = 50;
  over_limit = false;
}

abbrev busy : Limiter ℕ String
busy = record {
  domain_rules = [];
  protocol_rules = [];
  speed_limit = 100;
  user_online_ip = ("n|alice", ("10.0.0.1", 1) ∷ []) ∷ [];
  old_user_online = [];
  uuid_to_uid = ("alice", 1) ∷ ("bob", 2) ∷ [];
  user_limit_info = ("n|alice", alice) ∷ ("n|bob", bob) ∷ [];
  speed_limiter = [];
  alive_list = (1, 1) ∷ [];
}

-- A bucket is its rate.
abbrev rate_bucket : ℕ → ℕ
rate_bucket rate = rate

abbrev carol : UserInfo
carol = record { id = 3; uuid = "carol"; speed_limit = 20; device_limit = 2 }

abbrev old_alice : UserInfo
old_alice = record { id = 1; uuid = "alice"; speed_limit = 0; device_limit = 1 }

-- An expression compiles unless it is empty, and matches the text that it is.
abbrev compile : String → Option String
compile String.[] = none
compile (String.◌∷◌ c text) = some (String.◌∷◌ c text)

abbrev rules : Rules
rules = record { regexp = "ads" ∷ []; protocol = "bittorrent" ∷ [] }

abbrev with_rules : Limiter ℕ String
with_rules = record busy { domain_rules = "ads" ∷ []; protocol_rules = "bittorrent" ∷ [] }

alice_known : lookup "n|alice" busy.user_limit_info ≡ some alice
unfolding lookup
alice_known = refl

bob_known : lookup "n|bob" busy.user_limit_info ≡ some bob
unfolding lookup
bob_known = refl

alice_online : online_uid "n|alice" (trim_prefix "::ffff:" "10.0.0.1") busy.user_online_ip ≡ some 1
unfolding lookup trim_prefix after_prefix
alice_online = refl

second_device_refused : must_refuse "n|alice" "10.0.0.2" true busy ≡ true
unfolding lookup
second_device_refused = refl

check_limit-refuses_example :
    (check_limit rate_bucket "n|alice" "::ffff:10.0.0.2" true true 7 busy).2
    ≡ must_refuse "n|alice" (trim_prefix "::ffff:" "::ffff:10.0.0.2") true busy
check_limit-refuses_example =
    check_limit-refuses rate_bucket "n|alice" "::ffff:10.0.0.2" true true 7 busy

check_limit-online_example :
    let result = check_limit rate_bucket "n|bob" "10.0.0.9" true true 7 busy in
    online_uid "n|bob" "10.0.0.9" result.0.user_online_ip ≡ some 2
unfolding check_limit check_user user_speed device_check settle_new_ip at_device_limit take_bucket
    lookup insert delete trim_prefix after_prefix determine_speed_limit byte_rate
check_limit-online_example =
    check_limit-online rate_bucket "n|bob" "10.0.0.9" true true 7 busy "n|bob" "10.0.0.9"

-- Bob is let in and gets a bucket of the least of 100 and 10 Mbit/s.
bob_let_in : (check_limit rate_bucket "n|bob" "10.0.0.9" true true 7 busy).2 ≡ false
unfolding check_limit check_user user_speed device_check settle_new_ip at_device_limit take_bucket
    lookup insert delete trim_prefix after_prefix determine_speed_limit byte_rate
bob_let_in = refl

check_limit-bucket_example :
    (check_limit rate_bucket "n|bob" "10.0.0.9" true true 7 busy).1 ≡ some 1_250_000
unfolding lookup
check_limit-bucket_example =
    check_limit-bucket rate_bucket "n|bob" "10.0.0.9" true true 7 busy bob bob_known (omega arith)
      (omega arith) (omega arith) bob_let_in

-- Alice connects in between.
abbrev between : List Attempt
between =
    record { taguuid = "n|alice"; ip = "10.0.0.1"; is_tcp = true; no_ss_udp = true; now = 55 } ∷ []

check_limit_expiry_refuses_example :
    let first = (check_limit rate_bucket "n|bob" "10.0.0.9" true true 51 busy).0 in
    let l' = run_attempts rate_bucket between first in
    (check_limit rate_bucket "n|bob" "10.0.0.8" false true 60 l').2 ≡ true
check_limit_expiry_refuses_example =
    check_limit_expiry_refuses rate_bucket "n|bob" "10.0.0.9" "10.0.0.8" true true false true 51 60
      between busy bob bob_known refl refl

check_limit_after_report_example :
    (check_limit rate_bucket "n|alice" "10.0.0.1" true true 7 (get_online_device busy).0).2 ≡ false
check_limit_after_report_example =
    check_limit_after_report rate_bucket "n|alice" "n|alice" "10.0.0.1" true true 7 1 busy alice
      alice_known alice_online

new_limiter-entry_example :
    let l : Limiter ℕ String = new_limiter "n" 100 (old_alice ∷ carol ∷ []) [] in
    lookup (user_tag "n" "alice") l.user_limit_info ≡ some (new_entry old_alice)
new_limiter-entry_example = new_limiter-entry ℕ String "n" "alice" 100 (old_alice ∷ carol ∷ []) []

ruled : update_rule compile rules busy ≡ some with_rules
unfolding update_rule compile_all
ruled = refl

update_rule-rejects_example :
    (check_domain_rule ◌==◌ "ads" with_rules ≡ true)
    × (check_protocol_rule "http" with_rules ≡ false)
    × (with_rules.user_limit_info ≡ busy.user_limit_info)
    × (with_rules.user_online_ip ≡ busy.user_online_ip)
update_rule-rejects_example =
    update_rule-rejects compile ◌==◌ rules busy with_rules "ads" "http" ruled
