-- ===== src/Limiter/Check/Limits.antt =====
-- The speed limits of CheckLimit: which bucket a connection gets.
use Prim.Native.Nat.{min}
use v2bx_outbound.Base.{
  zero, suc, ◌∙◌, int_half, subst, ℕ, ◌*◌, ◌<◌, String, Bool, true, false, not, ◌&&◌, Option, none,
  some, List, ◌≡◌, arith, if◌then◌else◌, slt, eqb, eq_refl, ap,
}
use v2bx_outbound.Base.Map.{lookup, value, lookup-insert, string_key}
use v2bx_outbound.Base.Text.{trim_prefix}
use v2bx_outbound.Limiter.{Limiter, UserLimitInfo}
use v2bx_outbound.Limiter.Speed.{determine_speed_limit}
use v2bx_outbound.Limiter.Check.Steps.{online-user_speed}
use v2bx_outbound.Limiter.Check.{
  device_check, settle_new_ip, take_bucket, check_limit, check_user, user_speed, byte_rate,
}

-- The least of the limits that are set, 0 for no limit.
abbrev pub least_set : ℕ → ℕ → ℕ
least_set zero b = b
least_set (suc a) zero = suc a
least_set (suc a) (suc b) = min (suc a) (suc b)

-- A dynamic limit that has run out.
abbrev pub is_expired : ℕ → UserLimitInfo → Bool
is_expired now u = slt u.expire_time now && not (eqb u.expire_time 0)

-- The user's own limit in force at a time.
abbrev pub limit_in_force : ℕ → UserLimitInfo → ℕ
limit_in_force now u =
    if is_expired now u
    then u.speed_limit
    else determine_speed_limit u.speed_limit u.dynamic_speed_limit

pub byte_rate_lem :
    (node user : ℕ)
    → determine_speed_limit node user < 2_000_000_000_000
    → byte_rate node user ≡ determine_speed_limit node user * 125_000
unfolding byte_rate
byte_rate_lem node user h = ground arith

user_speed-limit :
    {B R : Type 0} (taguuid : String) (now : ℕ) (u : UserLimitInfo) (l : Limiter B R)
    → (user_speed taguuid now u l).1 ≡ limit_in_force now u
unfolding user_speed
user_speed-limit taguuid now u l = ground arith

buckets-device_check :
    {B R : Type 0} (taguuid ip : String) (uid device_limit : ℕ) (l : Limiter B R)
    → (device_check taguuid ip uid device_limit l).0.speed_limiter ≡ l.speed_limiter
unfolding device_check settle_new_ip
buckets-device_check taguuid ip uid device_limit l = ground arith

-- The bucket that a rate and a stored bucket give.
abbrev pub bucket_for : {B : Type 0} → (ℕ → B) → ℕ → Option B → Option B
bucket_for new_bucket rate stored =
    if slt 0 rate then some (value stored (new_bucket rate)) else none

take_bucket-bucket :
    {B R : Type 0} (new_bucket : ℕ → B) (taguuid : String) (rate : ℕ) (l : Limiter B R)
    → let taken = take_bucket new_bucket taguuid rate l in
      (taken.1 ≡ bucket_for new_bucket rate (lookup taguuid l.speed_limiter))
      × (lookup taguuid taken.0.speed_limiter ≡ (
          if slt 0 rate
          then bucket_for new_bucket rate (lookup taguuid l.speed_limiter)
          else lookup taguuid l.speed_limiter))
unfolding take_bucket
take_bucket-bucket new_bucket taguuid rate l =
    ground (arith, eq_refl taguuid, lookup-insert taguuid taguuid (new_bucket rate) l.speed_limiter)

module _ {B R : Type 0} (new_bucket : ℕ → B) (taguuid ip : String) (no_ss_udp : Bool) where
  check_user-bucket :
      (u : UserLimitInfo) (speed : Limiter B R × ℕ) (node user : ℕ) (buckets : List (String × B))
      → speed.0.speed_limit ≡ node
      → speed.1 ≡ user
      → speed.0.speed_limiter ≡ buckets
      → let result = check_user new_bucket taguuid ip no_ss_udp u speed in
        result.2 ≡ false
        → result.1 ≡ bucket_for new_bucket (byte_rate node user) (lookup taguuid buckets)
  unfolding check_user
  check_user-bucket u speed node user buckets node_limit user_limit stored h =
      let rate = byte_rate speed.0.speed_limit speed.1 in
      let checked = device_check taguuid ip u.uid u.device_limit speed.0 in
      rw (← node_limit, ← user_limit, ← stored)
        (ground (
          arith,
          buckets-device_check taguuid ip u.uid u.device_limit speed.0,
          take_bucket-bucket new_bucket taguuid rate speed.0,
          take_bucket-bucket new_bucket taguuid rate checked.0,
        ))

  pub infos-check_user :
      (u : UserLimitInfo) (speed : Limiter B R × ℕ)
      → (check_user new_bucket taguuid ip no_ss_udp u speed).0.user_limit_info
        ≡ speed.0.user_limit_info
  unfolding check_user device_check settle_new_ip take_bucket
  infos-check_user u speed = ground arith

module _ {B R : Type 0} (new_bucket : ℕ → B) (taguuid ip : String) (is_tcp no_ss_udp : Bool) where
  pub check_limit_known :
      (now : ℕ) (l : Limiter B R) (u : UserLimitInfo)
      → lookup taguuid l.user_limit_info ≡ some u
      → check_limit new_bucket taguuid ip is_tcp no_ss_udp now l
        ≡ check_user new_bucket taguuid
            (trim_prefix "::ffff:" ip)
            no_ss_udp
            u
            (user_speed taguuid now u l)
  unfolding check_limit
  check_limit_known now l u entry = rw (entry, check_limit)

  pub check_limit_unknown :
      (now : ℕ) (l : Limiter B R)
      → lookup taguuid l.user_limit_info ≡ none
      → check_limit new_bucket taguuid ip is_tcp no_ss_udp now l ≡ (l, none, true)
  unfolding check_limit
  check_limit_unknown now l gone = rw (gone, check_limit)

-- The limits in force on a user: those of the node and the user, and the dynamic one until it runs out.
abbrev pub least_in_force : ℕ → ℕ → UserLimitInfo → ℕ
least_in_force node now u =
    least_set node
      (if is_expired now u then u.speed_limit else least_set u.speed_limit u.dynamic_speed_limit)

determine_speed_limit-least_set :
    (a b : ℕ) → a < int_half → b < int_half → determine_speed_limit a b ≡ least_set a b
unfolding determine_speed_limit
determine_speed_limit-least_set zero b h k = ground arith
determine_speed_limit-least_set (suc a) zero h k = ground arith
determine_speed_limit-least_set (suc a) (suc b) h k = ground arith

-- Two million million Mbit/s, below which no rate overflows.
abbrev pub rate_bound : ℕ
rate_bound = 2_000_000_000_000

least_set-small : (a b : ℕ) → a < rate_bound → b < rate_bound → least_set a b < rate_bound
least_set-small zero b h k = k
least_set-small (suc a) zero h k = h
least_set-small (suc a) (suc b) h k = omega arith

byte_rate-least_set :
    (node user : ℕ)
    → node < rate_bound
    → user < rate_bound
    → byte_rate node user ≡ least_set node user * 125_000
byte_rate-least_set node user h k =
    let same = determine_speed_limit-least_set node user (omega arith) (omega arith) in
    let small = least_set-small node user h k in
    byte_rate_lem node user (rw same small) ∙ ap (λ x. x * 125_000) same

limit_in_force_lem :
    (now : ℕ) (u : UserLimitInfo)
    → u.speed_limit < rate_bound
    → u.dynamic_speed_limit < rate_bound
    → let own =
        if is_expired now u then u.speed_limit else least_set u.speed_limit u.dynamic_speed_limit in
      (limit_in_force now u ≡ own) × (limit_in_force now u < rate_bound)
limit_in_force_lem now u s d = ground (
  arith,
  determine_speed_limit-least_set u.speed_limit u.dynamic_speed_limit (omega arith) (omega arith),
  least_set-small u.speed_limit u.dynamic_speed_limit s d,
)

least_in_force-small :
    (node now : ℕ) (u : UserLimitInfo)
    → node < rate_bound
    → u.speed_limit < rate_bound
    → u.dynamic_speed_limit < rate_bound
    → least_in_force node now u < rate_bound
least_in_force-small node now u n s d =
    let own = limit_in_force_lem now u s d in
    least_set-small node
      (if is_expired now u then u.speed_limit else least_set u.speed_limit u.dynamic_speed_limit) n
      (subst (λ x. x < rate_bound) own.0 own.1)

byte_rate-least_in_force :
    (node now : ℕ) (u : UserLimitInfo)
    → node < rate_bound
    → u.speed_limit < rate_bound
    → u.dynamic_speed_limit < rate_bound
    → byte_rate node (limit_in_force now u) ≡ least_in_force node now u * 125_000
byte_rate-least_in_force node now u n s d =
    let own = limit_in_force_lem now u s d in
    let least = byte_rate-least_set node (limit_in_force now u) n own.1 in
    least ∙ ap (λ x. least_set node x * 125_000) own.0

bucket_for-least :
    {B : Type 0} (new_bucket : ℕ → B) (least : ℕ) (stored : Option B)
    → least < rate_bound
    → bucket_for new_bucket (least * 125_000) stored
      ≡ (if eqb least 0 then none else some (value stored (new_bucket (least * 125_000))))
bucket_for-least new_bucket least stored h = ground arith

-- A connection of a known user that is let in gets the bucket that is stored for its user, or else a new
-- one of 125,000 bytes per second for each Mbit/s of the least limit in force: that of the node, that of
-- the user, and the dynamic one unless it has run out, where they are set. Where none is set it gets no
-- bucket. The three limits are below two million million Mbit/s.
pub check_limit-bucket :
    {B R : Type 0} (new_bucket : ℕ → B) (taguuid ip : String) (is_tcp no_ss_udp : Bool) (now : ℕ)
    (l : Limiter B R) (u : UserLimitInfo)
    → lookup taguuid l.user_limit_info ≡ some u
    → l.speed_limit < rate_bound
    → u.speed_limit < rate_bound
    → u.dynamic_speed_limit < rate_bound
    → (check_limit new_bucket taguuid ip is_tcp no_ss_udp now l).2 ≡ false
    → let least = least_in_force l.speed_limit now u in
      (check_limit new_bucket taguuid ip is_tcp no_ss_udp now l).1 ≡ (
        if eqb least 0
        then none
        else some (value (lookup taguuid l.speed_limiter) (new_bucket (least * 125_000))))
check_limit-bucket new_bucket taguuid ip is_tcp no_ss_udp now l u entry n s d let_in =
    let speed = user_speed taguuid now u l in
    let known = check_limit_known new_bucket taguuid ip is_tcp no_ss_udp now l u entry in
    let same = online-user_speed taguuid l now u in
    let address = trim_prefix "::ffff:" ip in
    let rate = byte_rate-least_in_force l.speed_limit now u n s d in
    rw known (
      check_user-bucket new_bucket taguuid address no_ss_udp u speed _ _ _ same.4
        (user_speed-limit taguuid now u l) same.2 (rw known at let_in)
      ∙ (ap (λ r. bucket_for new_bucket r (lookup taguuid l.speed_limiter)) rate
          ∙ bucket_for-least new_bucket _ (lookup taguuid l.speed_limiter)
              (least_in_force-small l.speed_limit now u n s d)))
