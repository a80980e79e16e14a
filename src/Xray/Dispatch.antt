-- ===== src/Xray/Dispatch.antt =====
-- getLink and the first half of DispatchLink (core/xray/app/dispatcher/default.go): what a connection of
-- a user of the Xray core passes before it is routed. The steps on links are those of Xray/Links, here
-- one after the other.
pub mod Linked
mod Tests
use v2bx_outbound.Base.{ℕ, String, ◌==◌, Bool, true, false, Option, none, some, List, if◌then◌else◌}
use v2bx_outbound.Base.Map.{lookup, insert, value, string_key}
use v2bx_outbound.Limiter.{Limiter}
use v2bx_outbound.Limiter.Check.{check_limit}
use v2bx_outbound.Limiter.Registry.{Limiters, get_limiter, deref, assign}
use v2bx_outbound.Counter.{TrafficCounter, new_traffic_counter, get_counter}
use v2bx_outbound.Xray.Links.{System, link_manager, add_link, look_again}

pub record Dispatcher (B R : Type 0) : Type 0 where
  pub links : System
  pub limiters : Limiters B R
  pub counter : List (String × TrafficCounter)

-- How it ends: without a user, with one of the three errors, or with a link that the bucket limits.
pub data Outcome (B : Type 0) : Type 0 where
  no_user : Outcome B
  no_limiter : Outcome B
  limited : Outcome B
  revoked : Outcome B
  linked : Option B → Outcome B

-- `d.trafficCounter(sessionInbound.Tag)`, and the storage of the user in it.
unfoldable pub traffic_counter :
    String → String → List (String × TrafficCounter) → List (String × TrafficCounter)
traffic_counter tag email counter =
    insert tag (get_counter email (value (lookup tag counter) new_traffic_counter)).0 counter

-- The manager that the dispatch has got; 0 is never read.
abbrev pub manager_got : ℕ → System → ℕ
manager_got link s = elim (s.waiting link) [ none ↦ 0 | some m ↦ m ]

module _ {B R : Type 0} (new_bucket : ℕ → B) (link : ℕ) (email tag ip : String) (now : ℕ) where
  -- What follows CheckLimit.
  unfoldable pub add_user_link :
      ℕ → Dispatcher B R → Limiter B R × Option B × Bool → Dispatcher B R × Outcome B
  add_user_link ref d (l, w, reject) =
      let checked = record d { limiters = assign ref l d.limiters } in
      let found = link_manager link email d.links in
      let lm = manager_got link found in
      let looked = look_again link lm (add_link link lm found) in
      let counted = record checked {
        links = looked;
        counter = traffic_counter tag email d.counter;
      } in
      if reject
      then (checked, limited)
      else (counted, if d.links.allowed email then linked w else revoked)

  -- An empty email is that of a connection without a user.
  unfoldable pub dispatch_user : Bool → Bool → Dispatcher B R → Dispatcher B R × Outcome B
  dispatch_user is_tcp no_ss_udp d =
      let known : Dispatcher B R × Outcome B = elim (get_limiter tag d.limiters) [
        | none ↦ (d, no_limiter)
        | some ref ↦ elim (deref ref d.limiters) [
          | none ↦ (d, no_limiter)
          | some l ↦ add_user_link ref d (check_limit new_bucket email ip is_tcp no_ss_udp now l)
        ]
      ] in
      if email == "" then (d, no_user) else known

  -- The Boolean arguments: the network of the connection, and of its source, is TCP.
  unfoldable pub get_link : Bool → Bool → Dispatcher B R → Dispatcher B R × Outcome B
  get_link = dispatch_user

  -- DispatchLink counts before it adds the link, and takes the network of the destination.
  unfoldable pub dispatch_link : Bool → Bool → Dispatcher B R → Dispatcher B R × Outcome B
  dispatch_link = dispatch_user
