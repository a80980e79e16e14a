-- ===== src/Limiter/Online/Period.antt =====
-- The report of a period, and what the next period knows of it.
use v2bx_outbound.Base.{
  ℕ, String, eq_iff, Bool, true, false, none, some, List, [], ◌∷◌, ◌++◌, map, ◌≡◌, refl, ◌∙◌, ◌||◌,
  arith, if◌then◌else◌,
}
use mathlib.Core.List.{append-nil, append_assoc}
use v2bx_outbound.Base.Map.{lookup, insert, lookup-insert, lookup-delete, string_key}
use v2bx_outbound.Panel.{OnlineUser}
use v2bx_outbound.Base.Text.{trim_prefix}
use v2bx_outbound.Limiter.{Limiter, UserLimitInfo}
use v2bx_outbound.Limiter.Check.{check_limit}
use v2bx_outbound.Limiter.Check.Refusal.{check_limit-refuses}
use v2bx_outbound.Limiter.Check.Online.{online_uid}
use v2bx_outbound.Limiter.Online.{report_ips, report_users, get_online_device}

-- The devices of one user, and of all.
abbrev pub devices : List (String × ℕ) → List OnlineUser
devices =
    map λ (entry : String × ℕ). let u : OnlineUser = record { uid = entry.1; ip = entry.0 } in u

abbrev pub all_devices : List (String × List (String × ℕ)) → List OnlineUser
all_devices [] = []
all_devices ((taguuid, ips) ∷ users) = devices ips ++ all_devices users

-- The map has the key.
abbrev pub has {κ} : {V : Type κ} → String → List (String × V) → Bool
has k m = elim (lookup k m) [ none ↦ false | some v ↦ true ]

abbrev pub has_any : String → List (String × List (String × ℕ)) → Bool
has_any i [] = false
has_any i ((taguuid, ips) ∷ users) = has i ips || has_any i users

module _ {B R : Type 0} where
  report_ips-devices :
      (ips : List (String × ℕ)) (l : Limiter B R) (online : List OnlineUser)
      → ((report_ips ips (l, online)).1 ≡ online ++ devices ips)
        × ((report_ips ips (l, online)).0.user_online_ip ≡ l.user_online_ip)
  unfolding report_ips
  report_ips-devices [] l online = (rw append-nil, refl)
  report_ips-devices ((ip, uid) ∷ ips) l online =
      let later = record l { old_user_online = insert ip uid l.old_user_online } in
      let device : OnlineUser = record { uid = uid; ip = ip } in
      let rest = report_ips-devices ips later (online ++ device ∷ []) in
      (rest.0 ∙ append_assoc online (device ∷ []) (devices ips), rest.1)

  report_ips-old :
      (i : String) (ips : List (String × ℕ)) (l : Limiter B R) (online : List OnlineUser)
      → has i (report_ips ips (l, online)).0.old_user_online
        ≡ (has i ips || has i l.old_user_online)
  unfolding report_ips lookup
  report_ips-old i [] l online = refl
  report_ips-old i ((ip, uid) ∷ ips) l online =
      rw (report_ips-old i ips _ _)
        (ground (arith, lookup-insert ip i uid l.old_user_online, eq_iff ip i))

  report_users-online :
      (users : List (String × List (String × ℕ))) (l : Limiter B R) (online : List OnlineUser)
      → (report_users users (l, online)).1 ≡ online ++ all_devices users
  unfolding report_users
  report_users-online [] l online = rw append-nil
  report_users-online ((taguuid, ips) ∷ users) l online =
      let seen = report_ips-devices ips l online in
      rw (report_users-online users _ _, seen.0)
        (append_assoc online (devices ips) (all_devices users))

  report_users-old :
      (i : String) (users : List (String × List (String × ℕ))) (l : Limiter B R)
      (online : List OnlineUser)
      → has i (report_users users (l, online)).0.old_user_online
        ≡ (has_any i users || has i l.old_user_online)
  unfolding report_users
  report_users-old i [] l online = refl
  report_users-old i ((taguuid, ips) ∷ users) l online =
      rw (report_users-old i users _ _, report_ips-old i ips l online) (ground arith)

  report_users-reset :
      (j : String) (users : List (String × List (String × ℕ))) (l : Limiter B R)
      (online : List OnlineUser)
      → lookup j (report_users users (l, online)).0.user_online_ip
        ≡ (if has j users then none else lookup j l.user_online_ip)
  unfolding report_users lookup
  report_users-reset j [] l online = refl
  report_users-reset j ((taguuid, ips) ∷ users) l online =
      rw (report_users-reset j users _ _, lookup-delete, (report_ips-devices ips l online).1)
        (ground arith)

online_uid-has_any :
    (j i : String) (users : List (String × List (String × ℕ))) (v : ℕ)
    → online_uid j i users ≡ some v
    → has_any i users ≡ true
unfolding lookup
online_uid-has_any j i [] v h = ground arith
online_uid-has_any j i ((taguuid, ips) ∷ users) v h =
    ground (arith, eq_iff taguuid j, online_uid-has_any j i users v)

-- GetOnlineDevice reports each recorded address once for each user that holds it and clears the
-- records; the addresses of the last period are then exactly those that were recorded.
pub get_online_device_report :
    {B R : Type 0} (l : Limiter B R) (j i : String)
    → ((get_online_device l).1 ≡ all_devices l.user_online_ip)
      × (lookup j (get_online_device l).0.user_online_ip ≡ none)
      × (has i (get_online_device l).0.old_user_online ≡ has_any i l.user_online_ip)
unfolding get_online_device lookup
get_online_device_report l j i =
    let start = record l { old_user_online = [] } in
    (
      report_users-online l.user_online_ip start [],
      rw (report_users-reset j l.user_online_ip start []) (ground arith),
      rw (report_users-old i l.user_online_ip start []) (ground arith),
    )

module _ {B R : Type 0} where
  report_ips-infos :
      (ips : List (String × ℕ)) (l : Limiter B R) (online : List OnlineUser)
      → (report_ips ips (l, online)).0.user_limit_info ≡ l.user_limit_info
  unfolding report_ips
  report_ips-infos [] l online = refl
  report_ips-infos ((ip, uid) ∷ ips) l online = report_ips-infos ips _ _

  report_users-infos :
      (users : List (String × List (String × ℕ))) (l : Limiter B R) (online : List OnlineUser)
      → (report_users users (l, online)).0.user_limit_info ≡ l.user_limit_info
  unfolding report_users
  report_users-infos [] l online = refl
  report_users-infos ((taguuid, ips) ∷ users) l online =
      report_users-infos users _ _ ∙ report_ips-infos ips l online

  get_online_device-infos :
      (l : Limiter B R) → (get_online_device l).0.user_limit_info ≡ l.user_limit_info
  unfolding get_online_device
  get_online_device-infos l = report_users-infos l.user_online_ip _ _

-- A CheckLimit directly on the limiter that GetOnlineDevice leaves lets in a known user from each
-- address that was recorded for anybody when GetOnlineDevice was called, whatever the device limit says.
pub check_limit_after_report :
    {B R : Type 0} (new_bucket : ℕ → B) (taguuid j ip : String) (is_tcp no_ss_udp : Bool)
    (now v : ℕ) (l : Limiter B R) (u : UserLimitInfo)
    → lookup taguuid l.user_limit_info ≡ some u
    → online_uid j (trim_prefix "::ffff:" ip) l.user_online_ip ≡ some v
    → (check_limit new_bucket taguuid ip is_tcp no_ss_udp now (get_online_device l).0).2 ≡ false
check_limit_after_report new_bucket taguuid j ip is_tcp no_ss_udp now v l u entry online =
    let address = trim_prefix "::ffff:" ip in
    let l' = (get_online_device l).0 in
    let entry' : lookup taguuid l'.user_limit_info ≡ some u =
      rw (get_online_device-infos l) entry in
    ground (
      arith,
      check_limit-refuses new_bucket taguuid ip is_tcp no_ss_udp now l',
      entry',
      (get_online_device_report l j address).2,
      online_uid-has_any j address l.user_online_ip v online,
    )
