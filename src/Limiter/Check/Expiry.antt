-- ===== src/Limiter/Check/Expiry.antt =====
-- What CheckLimit does to a user whose dynamic speed limit has run out.
use v2bx_outbound.Base.{
  [], ◌∷◌, inl, inr, Option-cases, eq_iff, ℕ, String, Bool, true, Option, none, some, List, ◌≡◌,
  arith, eq_refl, ap,
}
use v2bx_outbound.Base.Map.{lookup, lookup-insert, lookup-delete, string_key}
use v2bx_outbound.Base.Text.{trim_prefix}
use v2bx_outbound.Limiter.{Limiter, UserLimitInfo}
use v2bx_outbound.Limiter.Check.Limits.{
  is_expired, check_limit_known, check_limit_unknown, infos-check_user,
}
use v2bx_outbound.Limiter.Check.{check_limit, user_speed}

user_speed_expired :
    {B R : Type 0} (taguuid : String) (now : ℕ) (l : Limiter B R) (u : UserLimitInfo)
    → is_expired now u ≡ true
    → u.speed_limit ≡ 0
    → lookup taguuid (user_speed taguuid now u l).0.user_limit_info ≡ none
unfolding user_speed
user_speed_expired taguuid now l u expired unset =
    ground (arith, eq_refl taguuid, lookup-delete taguuid taguuid l.user_limit_info)

user_speed-absent :
    {B R : Type 0} (other taguuid : String) (now : ℕ) (l : Limiter B R) (u : UserLimitInfo)
    → lookup other l.user_limit_info ≡ some u
    → lookup taguuid l.user_limit_info ≡ none
    → lookup taguuid (user_speed other now u l).0.user_limit_info ≡ none
unfolding user_speed
user_speed-absent other taguuid now l u found gone = ground (
  arith,
  found,
  gone,
  eq_iff other taguuid,
  lookup-delete other taguuid l.user_limit_info,
  lookup-insert other taguuid (record u { dynamic_speed_limit = 0; expire_time = 0 })
      l.user_limit_info,
)

-- CheckLimits of any users, one after the other.
pub record Attempt : Type 0 where
  pub taguuid : String
  pub ip : String
  pub is_tcp : Bool
  pub no_ss_udp : Bool
  pub now : ℕ

abbrev pub run_attempts : {B R : Type 0} → (ℕ → B) → List Attempt → Limiter B R → Limiter B R
run_attempts new_bucket [] l = l
run_attempts new_bucket (a ∷ attempts) l =
    run_attempts new_bucket attempts
      (check_limit new_bucket a.taguuid a.ip a.is_tcp a.no_ss_udp a.now l).0

-- CheckLimit enters no user.
check_limit-absent :
    {B R : Type 0} (new_bucket : ℕ → B) (taguuid : String) (a : Attempt) (l : Limiter B R)
    → lookup taguuid l.user_limit_info ≡ none
    → lookup taguuid
        (check_limit new_bucket a.taguuid a.ip a.is_tcp a.no_ss_udp a.now l).0.user_limit_info
      ≡ none
check_limit-absent new_bucket taguuid a l gone =
    elim (Option-cases (lookup a.taguuid l.user_limit_info)) [
      | inl e ↦
          rw (check_limit_unknown new_bucket a.taguuid a.ip a.is_tcp a.no_ss_udp a.now l e) gone
      | inr (u, e) ↦
          rw
            (
              check_limit_known new_bucket a.taguuid a.ip a.is_tcp a.no_ss_udp a.now l u e,
              infos-check_user new_bucket a.taguuid (trim_prefix "::ffff:" a.ip) a.no_ss_udp u
                  (user_speed a.taguuid a.now u l),
            )
            (user_speed-absent a.taguuid taguuid a.now l u e gone)
    ]

run_attempts-absent :
    {B R : Type 0} (new_bucket : ℕ → B) (taguuid : String) (attempts : List Attempt)
    (l : Limiter B R)
    → lookup taguuid l.user_limit_info ≡ none
    → lookup taguuid (run_attempts new_bucket attempts l).user_limit_info ≡ none
run_attempts-absent new_bucket taguuid [] l gone = gone
run_attempts-absent new_bucket taguuid (a ∷ attempts) l gone =
    run_attempts-absent new_bucket taguuid attempts _
      (check_limit-absent new_bucket taguuid a l gone)

-- Once the dynamic limit of a user without a limit of its own has run out and the user connects, each
-- later connection of the user is refused, whatever other CheckLimits of any users come in between.
pub check_limit_expiry_refuses :
    {B R : Type 0} (new_bucket : ℕ → B) (taguuid ip ip' : String)
    (is_tcp no_ss_udp is_tcp' no_ss_udp' : Bool) (now later : ℕ) (attempts : List Attempt)
    (l : Limiter B R) (u : UserLimitInfo)
    → lookup taguuid l.user_limit_info ≡ some u
    → is_expired now u ≡ true
    → u.speed_limit ≡ 0
    → let first = (check_limit new_bucket taguuid ip is_tcp no_ss_udp now l).0 in
      let l' = run_attempts new_bucket attempts first in
      (check_limit new_bucket taguuid ip' is_tcp' no_ss_udp' later l').2 ≡ true
check_limit_expiry_refuses {B} {R} new_bucket taguuid ip ip' is_tcp no_ss_udp is_tcp' no_ss_udp' now
      later attempts l u entry expired unset =
    let speed = user_speed taguuid now u l in
    let gone : lookup taguuid
          (check_limit new_bucket taguuid ip is_tcp no_ss_udp now l).0.user_limit_info
        ≡ none =
      rw
        (
          check_limit_known new_bucket taguuid ip is_tcp no_ss_udp now l u entry,
          infos-check_user new_bucket taguuid (trim_prefix "::ffff:" ip) no_ss_udp u speed,
        )
        (user_speed_expired taguuid now l u expired unset) in
    let still = run_attempts-absent new_bucket taguuid attempts _ gone in
    ap (λ (r : Limiter B R × Option B × Bool). r.2)
      (check_limit_unknown new_bucket taguuid ip' is_tcp' no_ss_udp' later _ still)
