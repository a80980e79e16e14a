-- ===== src/Limiter/Check/Online.antt =====
-- What CheckLimit records of the addresses that are online.
use v2bx_outbound.Base.{
  ℕ, String, ◌==◌, eq_iff, Bool, true, false, not, ◌&&◌, Option, none, some, List, [], ◌∷◌, ◌≡◌,
  inl, inr, arith, if◌then◌else◌, Option-cases,
}
use v2bx_outbound.Base.Text.{trim_prefix}
use v2bx_outbound.Base.Map.{
  lookup, insert, delete, value, lookup-insert, lookup-single, lookup-delete, int_key, string_key,
}
use v2bx_outbound.Limiter.{Limiter, UserLimitInfo}
use v2bx_outbound.Limiter.Check.Steps.{online-user_speed, online-check_user}
use v2bx_outbound.Limiter.Check.{
  settle_new_ip, device_check, check_limit, known_uid, check_user, user_speed,
}

-- The user id under which the address of the user is recorded.
abbrev pub online_uid : String → String → List (String × List (String × ℕ)) → Option ℕ
online_uid taguuid ip online = elim (lookup taguuid online) [
  | none ↦ none
  | some ips ↦ lookup ip ips
]

-- The user holds exactly this address list after a store.
online_uid-insert :
    (t j i : String) (ips : List (String × ℕ)) (online : List (String × List (String × ℕ)))
    → online_uid j i (insert t ips online)
      ≡ (if t == j then lookup i ips else online_uid j i online)
online_uid-insert t j i ips online = ground (arith, lookup-insert t j ips online)

online_uid-delete :
    (t j i : String) (online : List (String × List (String × ℕ)))
    → online_uid j i (delete t online) ≡ (if t == j then none else online_uid j i online)
online_uid-delete t j i online = ground (arith, lookup-delete t j online)

settle_new_ip-online :
    {B R : Type 0} (ip : String) (uid : ℕ) (full : Bool) (stored undone : Limiter B R)
    → (settle_new_ip ip uid full stored undone).0.user_online_ip ≡ (
        if (settle_new_ip ip uid full stored undone).1
        then undone.user_online_ip
        else stored.user_online_ip)
unfolding settle_new_ip
settle_new_ip-online ip uid full stored undone = ground arith

-- The records after a first address of the user, refused or not.
first_ip-online :
    (refused : Bool) (t ip j i : String) (uid : ℕ) (online : List (String × List (String × ℕ)))
    → lookup t online ≡ none
    → let stored = insert t ((ip, uid) ∷ []) online in
      online_uid j i (if refused then delete t stored else stored) ≡ (
        if not refused && (t == j) && (ip == i)
        then some (value (online_uid j i online) uid)
        else online_uid j i online)
first_ip-online true t ip j i uid online h =
    let stored = insert t ((ip, uid) ∷ []) online in
    ground (
      arith,
      eq_iff t j,
      online_uid-delete t j i stored,
      online_uid-insert t j i ((ip, uid) ∷ []) online,
    )
first_ip-online false t ip j i uid online h = ground (
  arith,
  eq_iff t j,
  eq_iff ip i,
  online_uid-insert t j i ((ip, uid) ∷ []) online,
  lookup-single ip i uid,
)

-- The records after a further address of the user, refused or not.
further_ip-online :
    (refused : Bool) (t ip j i : String) (uid : ℕ) (online : List (String × List (String × ℕ)))
    (ips : List (String × ℕ))
    → lookup t online ≡ some ips
    → lookup ip ips ≡ none
    → let stored = insert ip uid ips in
      online_uid j i
        (if refused then insert t (delete ip stored) online else insert t stored online)
      ≡ (if not refused && (t == j) && (ip == i)
          then some (value (online_uid j i online) uid)
          else online_uid j i online)
further_ip-online true t ip j i uid online ips h k = ground (
  arith,
  eq_iff t j,
  eq_iff ip i,
  online_uid-insert t j i (delete ip (insert ip uid ips)) online,
  lookup-insert ip i uid ips,
  lookup-delete ip i (insert ip uid ips),
)
further_ip-online false t ip j i uid online ips h k = ground (
  arith,
  eq_iff t j,
  eq_iff ip i,
  online_uid-insert t j i (insert ip uid ips) online,
  lookup-insert ip i uid ips,
)

-- An accepted address is recorded for its user, under the id of its first record, and a refused
-- one leaves no trace; no other address or user is touched.
pub device_check-online :
    {B R : Type 0} (taguuid ip : String) (uid device_limit : ℕ) (l : Limiter B R) (j i : String)
    → let checked = device_check taguuid ip uid device_limit l in
      online_uid j i checked.0.user_online_ip ≡ (
        if not checked.1 && (taguuid == j) && (ip == i)
        then some (value (online_uid j i l.user_online_ip) uid)
        else online_uid j i l.user_online_ip)
unfolding device_check
device_check-online taguuid ip uid device_limit l j i =
    elim (Option-cases (lookup taguuid l.user_online_ip)) [
      | inl first ↦
          rw (first, device_check, settle_new_ip-online)
            (first_ip-online _ taguuid ip j i uid l.user_online_ip first)
      | inr (ips, held) ↦ elim (Option-cases (lookup ip ips)) [
        | inl new ↦
            rw (held, device_check, new, settle_new_ip-online)
              (further_ip-online _ taguuid ip j i uid l.user_online_ip ips held new)
        | inr (v, known) ↦
            rw (held, device_check, known) (ground (arith, eq_iff taguuid j, eq_iff ip i))
      ]
    ]

check_user-online :
    {B R : Type 0} (new_bucket : ℕ → B) (taguuid ip : String) (no_ss_udp : Bool) (u : UserLimitInfo)
    (l : Limiter B R) (speed : Limiter B R × ℕ)
    → speed.0.user_online_ip ≡ l.user_online_ip
    → (j i : String)
    → let result = check_user new_bucket taguuid ip no_ss_udp u speed in
      online_uid j i result.0.user_online_ip ≡ (
        if no_ss_udp && not result.2 && (taguuid == j) && (ip == i)
        then some (value (online_uid j i l.user_online_ip) u.uid)
        else online_uid j i l.user_online_ip)
check_user-online new_bucket taguuid ip true u l speed same j i =
    let steps = online-check_user new_bucket taguuid ip true u speed in
    rw (steps.0, steps.1, ← same) (device_check-online taguuid ip u.uid u.device_limit speed.0 j i)
check_user-online new_bucket taguuid ip false u l speed same j i =
    let steps = online-check_user new_bucket taguuid ip false u speed in rw (steps.0, ← same)

-- After CheckLimit the address is recorded online for its user exactly if it was let in and devices
-- are counted; whatever else is recorded, of any user, is as before, also after a refusal.
pub check_limit-online :
    {B R : Type 0} (new_bucket : ℕ → B) (taguuid ip : String) (is_tcp no_ss_udp : Bool) (now : ℕ)
    (l : Limiter B R) (j i : String)
    → let result = check_limit new_bucket taguuid ip is_tcp no_ss_udp now l in
      online_uid j i result.0.user_online_ip ≡ (
        if no_ss_udp && not result.2 && (taguuid == j) && (trim_prefix "::ffff:" ip == i)
        then some (value (online_uid j i l.user_online_ip) (known_uid taguuid l))
        else online_uid j i l.user_online_ip)
unfolding check_limit
check_limit-online new_bucket taguuid ip is_tcp no_ss_udp now l j i =
    elim (Option-cases (lookup taguuid l.user_limit_info)) [
      | inl unknown ↦ rw (unknown, check_limit) (ground arith)
      | inr (u, entry) ↦
          let speed = user_speed taguuid now u l in
          let address = trim_prefix "::ffff:" ip in
          rw (entry, check_limit, known_uid)
            (check_user-online new_bucket taguuid address no_ss_udp u l speed
              (online-user_speed taguuid l now u).0 j i)
    ]
