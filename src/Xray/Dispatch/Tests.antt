-- ===== src/Xray/Dispatch/Tests.antt =====
-- An allowed user of a node with a limiter connects.
use v2bx_outbound.Base.{arith, ℕ, String, true, false, not, ◌&&◌, none, some, [], ◌∷◌, ◌≡◌, refl}
use v2bx_outbound.Base.Map.{lookup, string_key}
use v2bx_outbound.Base.Text.{trim_prefix}
use v2bx_outbound.Limiter.{Limiter}
use v2bx_outbound.Limiter.Check.{check_limit}
use v2bx_outbound.Limiter.Check.Refusal.{must_refuse}
use v2bx_outbound.Limiter.Registry.{Limiters, get_limiter, deref}
use v2bx_outbound.Xray.Links.{System, start, allow, clear_manager}
use v2bx_outbound.Xray.Dispatch.{
  Dispatcher, get_link, dispatch_link, dispatch_user, no_user, no_limiter,
}
use v2bx_outbound.Xray.Dispatch.Linked.{is_live, outcome_of, get_link-serves}

abbrev links : System
links = allow "n|a" (clear_manager "n|a" start)

-- The limiter knows another user only.
abbrev limiter : Limiter ℕ String
limiter = record {
  domain_rules = [];
  protocol_rules = [];
  speed_limit = 0;
  user_online_ip = [];
  old_user_online = [];
  uuid_to_uid = ("a", 1) ∷ [];
  user_limit_info = [];
  speed_limiter = [];
  alive_list = [];
}

abbrev limiters : Limiters ℕ String
limiters = record { table = ("n", 3) ∷ []; heap = (3, limiter) ∷ []; next = 4 }

abbrev dispatcher : Dispatcher ℕ String
dispatcher = record { links = links; limiters = limiters; counter = [] }

abbrev new_bucket : ℕ → ℕ
new_bucket rate = rate

limiter_found : (get_limiter "n" limiters ≡ some 3) × (deref 3 limiters ≡ some limiter)
unfolding get_limiter deref lookup
limiter_found = (refl, refl)

no_link : (links.open_link 7 ≡ none) × (links.closing 7 ≡ false) × (links.manager_of "n|a" ≡ none)
unfolding start allow clear_manager
no_link = (refl, refl, refl)

managers_open :
    (m : ℕ) → links.manager_of "n|a" ≡ some m → (links.closed m ≡ false) × (links.owner m ≡ "n|a")
unfolding start allow clear_manager
managers_open m e = ground (arith, e)

get_link-serves_example :
    let r = get_link new_bucket 7 "n|a" "n" "10.0.0.1" 100 true true dispatcher in
    let checked = check_limit new_bucket "n|a" "10.0.0.1" true true 100 limiter in
    let refused = must_refuse "n|a" (trim_prefix "::ffff:" "10.0.0.1") true limiter in
    (r.1 ≡ outcome_of refused (links.allowed "n|a") checked.1)
    × (is_live 7 r.0.links ≡ (not refused && links.allowed "n|a"))
get_link-serves_example =
    get_link-serves new_bucket 7 "n|a" "n" "10.0.0.1" 100 true true dispatcher 3 limiter refl
      limiter_found.0 limiter_found.1 no_link.0 no_link.1 managers_open

-- Without a user, and at a node without a limiter.
unchecked :
    ((get_link new_bucket 7 "" "n" "10.0.0.1" 100 true true dispatcher).1 ≡ no_user)
    × ((dispatch_link new_bucket 7 "m|a" "m" "10.0.0.1" 100 true true dispatcher).1 ≡ no_limiter)
unfolding get_link dispatch_link dispatch_user get_limiter lookup
unchecked = (refl, refl)
