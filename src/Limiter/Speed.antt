-- ===== src/Limiter/Speed.antt =====
-- determineSpeedLimit (limiter/dynamic.go).
use v2bx_outbound.Base.{
  ℕ, ◌≤◌, ◌<◌, ◌≡◌, ◌≢◌, ◌⊎◌, ◌↔◌, ◌||◌, arith, eqb, if◌then◌else◌, int_half, slt,
}

unfoldable pub determine_speed_limit : ℕ → ℕ → ℕ
determine_speed_limit limit1 limit2 =
    if eqb limit1 0 || eqb limit2 0
    then (if slt limit2 limit1 then limit1 else if slt limit1 limit2 then limit2 else 0)
    else if slt limit2 limit1
    then limit2
    else if slt limit1 limit2
    then limit1
    else limit1

-- On limits that are not negative the result is one of the two, it is at most each limit that is
-- set, and it is unset exactly if both are.
pub determine_speed_limit_least :
    (a b : ℕ)
    → a < int_half
    → b < int_half
    → ((determine_speed_limit a b ≡ a) ⊎ (determine_speed_limit a b ≡ b))
      × (a ≢ 0 → determine_speed_limit a b ≤ a)
      × (b ≢ 0 → determine_speed_limit a b ≤ b)
      × ((determine_speed_limit a b ≡ 0) ↔ ((a ≡ 0) × (b ≡ 0)))
unfolding determine_speed_limit
determine_speed_limit_least a b h k =
    (ground arith, λ p. ground arith, λ p. ground arith, (λ p. ground arith, λ p. ground arith))
