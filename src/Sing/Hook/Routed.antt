-- ===== src/Sing/Hook/Routed.antt =====
-- When a connection is tracked, and whose open connections remain after a revocation.
use v2bx_outbound.Base.{
  ℕ, String, ◌==◌, eqb_iff, Bool, true, not, ◌&&◌, ◌||◌, false, Option, none, some, List, [], ◌∷◌,
  ◌≡◌, inl, inr, refl, arith, if◌then◌else◌, eqb, Bool-cases,
}
use v2bx_outbound.Base.Text.{trim_prefix}
use v2bx_outbound.Base.Map.{lookup, lookup-insert, lookup-delete, IsMap, string_key, int_key}
use v2bx_outbound.Panel.{user_tag}
use v2bx_outbound.Limiter.{Limiter}
use v2bx_outbound.Limiter.Check.{check_limit}
use v2bx_outbound.Limiter.Check.Refusal.{must_refuse, check_limit-refuses}
use v2bx_outbound.Limiter.Rules.{match_any, equal_any, check_domain_rule, check_protocol_rule}
use v2bx_outbound.Limiter.Registry.{Limiters, get_limiter, deref}
use v2bx_outbound.Sing.Hook.{
  Hook, Fate, closed, untracked, tracked, user_key, has, allowed, close_all, revoke, count_user,
  track, is_ruled_out, after_check, routed, routed_connection,
}

-- The connections after one was routed.
abbrev pub with_connection : {B : Type 0} → ℕ → String → Fate B → ℕ → Option String → Option String
with_connection conn key closed c before = before
with_connection conn key untracked c before = before
with_connection conn key (tracked bucket) c before = if eqb conn c then some key else before

-- With the limiter known: tracked with this bucket, or closed.
abbrev pub fate_of : {B : Type 0} → Bool → Option B → Fate B
fate_of lets_in bucket = if lets_in then tracked bucket else closed

-- An expression of the limiter matches the destination, or its list names the protocol, if there is one.
abbrev pub some_match : {R : Type 0} → (R → String → Bool) → String → List R → Bool
some_match match_string destination [] = false
some_match match_string destination (rule ∷ rules) =
    match_string rule destination || some_match match_string destination rules

abbrev pub some_equal : String → List String → Bool
some_equal protocol [] = false
some_equal protocol (rule ∷ rules) = rule == protocol || some_equal protocol rules

abbrev pub breaks_rule : {B R : Type 0} → (R → String → Bool) → String → String → Limiter B R → Bool
breaks_rule match_string destination protocol l =
    some_match match_string destination l.domain_rules
    || (some_equal protocol l.protocol_rules && not (protocol == ""))

match_any-some_match :
    {R : Type 0} (match_string : R → String → Bool) (destination : String) (rules : List R)
    → match_any match_string rules destination ≡ some_match match_string destination rules
unfolding match_any
match_any-some_match match_string destination [] = refl
match_any-some_match match_string destination (rule ∷ rules) =
    ground (arith, match_any-some_match match_string destination rules)

equal_any-some_equal :
    (protocol : String) (rules : List String) → equal_any rules protocol ≡ some_equal protocol rules
unfolding equal_any
equal_any-some_equal protocol [] = refl
equal_any-some_equal protocol (rule ∷ rules) = ground (arith, equal_any-some_equal protocol rules)

is_ruled_out-breaks_rule :
    {B R : Type 0} (match_string : R → String → Bool) (destination protocol : String)
    (l : Limiter B R)
    → is_ruled_out match_string destination protocol l
      ≡ breaks_rule match_string destination protocol l
unfolding check_domain_rule check_protocol_rule
is_ruled_out-breaks_rule match_string destination protocol l = ground (
  arith,
  match_any-some_match match_string destination l.domain_rules,
  equal_any-some_equal protocol l.protocol_rules,
)

-- A managed node lets in its active users, an unmanaged one everybody.
abbrev pub lets_in_user : String → String → Hook → Bool
lets_in_user tag user h = not (has tag h.managed_nodes) || has (user_key tag user) h.active_users

allowed-lets_in_user : (tag user : String) (h : Hook) → allowed tag user h ≡ lets_in_user tag user h
unfolding allowed
allowed-lets_in_user tag user h = ground arith

track-allowed :
    {B : Type 0} (conn : ℕ) (tag user : String) (bucket : Option B) (h : Hook) (c : ℕ)
    → allowed tag user h ≡ true
    → let r = track conn tag user bucket h in
      (r.1 ≡ tracked bucket)
      × (lookup c r.0.connections
          ≡ (if eqb conn c then some (user_key tag user) else lookup c h.connections))
unfolding track count_user allowed
track-allowed conn tag user bucket h c ok =
    ground (arith, ok, lookup-insert conn c (user_key tag user) h.connections)

module _ {B R : Type 0} (new_bucket : ℕ → B) (match_string : R → String → Bool) (conn : ℕ)
    (tag user ip destination protocol : String) (now : ℕ) where
  after_check_lem :
      (ref : ℕ) (h : Hook) (t : Limiters B R) (checked : Limiter B R × Option B × Bool) (c : ℕ)
      → allowed tag user h ≡ true
      → let r =
          after_check new_bucket match_string conn tag user ip destination protocol now true ref h t
            checked in
        let lets_in =
          not checked.2 && not (is_ruled_out match_string destination protocol checked.0) in
        (r.1 ≡ fate_of lets_in checked.1)
        × (lookup c r.0.0.connections
            ≡ with_connection conn (user_key tag user) r.1 c (lookup c h.connections))
  unfolding after_check
  after_check_lem ref h t (l, bucket, reject) c ok =
      ground (arith, track-allowed conn tag user bucket h c ok)

routed_connection_lem :
    {B R : Type 0} (new_bucket : ℕ → B) (match_string : R → String → Bool) (conn : ℕ)
    (tag user ip destination protocol : String) (now : ℕ) (h : Hook) (t : Limiters B R) (ref : ℕ)
    (l : Limiter B R) (c : ℕ)
    → get_limiter tag t ≡ some ref
    → deref ref t ≡ some l
    → let r =
        routed_connection new_bucket match_string conn tag user ip destination protocol now
          (h, t) in
      let checked = check_limit new_bucket (user_tag tag user) ip true true now l in
      let refused = must_refuse (user_tag tag user) (trim_prefix "::ffff:" ip) true l in
      let ruled_out = is_ruled_out match_string destination protocol checked.0 in
      (r.1 ≡ fate_of (allowed tag user h && not refused && not ruled_out) checked.1)
      × (lookup c r.0.0.connections
          ≡ with_connection conn (user_key tag user) r.1 c (lookup c h.connections))
unfolding routed_connection routed
routed_connection_lem new_bucket match_string conn tag user ip destination protocol now h t ref l c
      entry found =
    let checked = check_limit new_bucket (user_tag tag user) ip true true now l in
    let refuses = check_limit-refuses new_bucket (user_tag tag user) ip true true now l in
    elim (Bool-cases (allowed tag user h)) [
      | inl ok ↦
          rw (entry, routed_connection, routed, found, ok, ← refuses)
            (after_check_lem new_bucket match_string conn tag user ip destination protocol now ref h
              t checked c ok)
      | inr bad ↦ rw bad (refl, refl)
    ]

-- At a node with a limiter a connection is tracked exactly if its node is unmanaged or its user is active,
-- CheckLimit does not refuse it, no expression of the limiter matches its destination and the limiter's
-- list does not name its protocol; it is then stored under its user's key, with the bucket of CheckLimit.
-- Otherwise it is closed, and none is stored.
pub routed_connection-fate :
    {B R : Type 0} (new_bucket : ℕ → B) (match_string : R → String → Bool) (conn : ℕ)
    (tag user ip destination protocol : String) (now : ℕ) (h : Hook) (t : Limiters B R) (ref : ℕ)
    (l : Limiter B R) (c : ℕ)
    → get_limiter tag t ≡ some ref
    → deref ref t ≡ some l
    → let r =
        routed_connection new_bucket match_string conn tag user ip destination protocol now
          (h, t) in
      let checked = check_limit new_bucket (user_tag tag user) ip true true now l in
      let refused = must_refuse (user_tag tag user) (trim_prefix "::ffff:" ip) true l in
      let ruled_out = breaks_rule match_string destination protocol checked.0 in
      (r.1 ≡ fate_of (lets_in_user tag user h && not refused && not ruled_out) checked.1)
      × (lookup c r.0.0.connections
          ≡ with_connection conn (user_key tag user) r.1 c (lookup c h.connections))
routed_connection-fate new_bucket match_string conn tag user ip destination protocol now h t ref l c
      entry found =
    let checked = check_limit new_bucket (user_tag tag user) ip true true now l in
    let fate =
      routed_connection_lem new_bucket match_string conn tag user ip destination protocol now h t
        ref l c entry found in
    rw
      (
        ← is_ruled_out-breaks_rule match_string destination protocol checked.0,
        ← allowed-lets_in_user tag user h,
      )
      fate

-- The key of a connection, unless it is the one.
abbrev pub unless_key : String → Option String → Option String
unless_key key none = none
unless_key key (some k) = if k == key then none else some k

close_all-absent :
    (c : ℕ) (key : String) (m : List (ℕ × String))
    → lookup c m ≡ none
    → lookup c (close_all key m) ≡ none
unfolding lookup close_all
close_all-absent c key [] h = refl
close_all-absent c key ((j, k) ∷ m) h = ground (arith, close_all-absent c key m)

pub lookup-close_all :
    (c : ℕ) (key : String) (m : List (ℕ × String))
    → IsMap m
    → lookup c (close_all key m) ≡ unless_key key (lookup c m)
unfolding lookup close_all
lookup-close_all c key [] h = refl
lookup-close_all c key ((j, k) ∷ m) h =
    ground (arith, eqb_iff j c, lookup-close_all c key m h.1, close_all-absent c key m)

pub close_all-IsMap : (key : String) (m : List (ℕ × String)) → IsMap m → IsMap (close_all key m)
unfolding close_all lookup
close_all-IsMap key [] h = tt
close_all-IsMap key ((j, k) ∷ m) h =
    ground (arith, close_all-IsMap key m h.1, close_all-absent j key m h.0)

-- A revoked user of a managed node is not let in, and has no open connection; the connections of
-- other users are left alone, and so is who else is let in.
pub revoke_lem :
    (tag user other : String) (c : ℕ) (h : Hook)
    → IsMap h.connections
    → has tag h.managed_nodes ≡ true
    → let h' = revoke tag user h in
      (allowed tag other h'
        ≡ (not (user_key tag user == user_key tag other) && allowed tag other h))
      × (lookup c h'.connections ≡ unless_key (user_key tag user) (lookup c h.connections))
unfolding revoke allowed
revoke_lem tag user other c h distinct managed = (
  ground (arith, managed, lookup-delete (user_key tag user) (user_key tag other) h.active_users),
  lookup-close_all c (user_key tag user) h.connections distinct,
)
