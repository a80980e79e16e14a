-- ===== src/Xray/Nodes/Retired.antt =====
-- A node that is retired takes no bytes along.
pub mod Counts
use mathlib.Core.List.{append-nil}
use v2bx_outbound.Base.{
  ℕ, ◌+◌, ◌<◌, String, ◌<>◌, ◌==◌, eq_iff, eq_refl, Bool, true, false, not, ◌&&◌, Option, none,
  some, List, [], ◌∷◌, ◌++◌, ◌≡◌, ◌≢◌, ◌⊎◌, refl, arith, add_int, slt, int_half, if◌then◌else◌,
  Option-cases, Bool-cases, ap, sym, ◌∙◌, subst, inl, inr,
}
use v2bx_outbound.Base.Map.{
  lookup, insert, delete, value, lookup-insert, lookup-delete, IsMap, insert-IsMap, string_key,
}
use v2bx_outbound.Panel.{UserTraffic}
use v2bx_outbound.Counter.{TrafficStorage, TrafficCounter, new_storage}
use v2bx_outbound.Node.Traffic.Flush.{sum_word, sum-append}
use v2bx_outbound.Xray.{Xray, retain_user_traffic}
use v2bx_outbound.Xray.Slice.{as_traffic, held}
use v2bx_outbound.Xray.Retire.{sums, record_of, kept_of, sums-kept_of, sums-swap, as_traffic-absent}
use v2bx_outbound.Xray.Nodes.{has_prefix, retire_user, retire_users, retire_node_users}
use v2bx_outbound.Xray.Nodes.Retired.Counts.{
  zero_counts, IsCounted, IsOwned, zero_counts-IsOwned, retire_user-parts, retire_user-held,
}

-- The entries of the loop that are still to come agree with the map on the node's users.
abbrev pub IsCurrent : (String → Bool) → List (String × ℕ) → List (String × ℕ) → Type 0
IsCurrent is_own entries uid_map =
    IsMap entries × ((k : String) → is_own k ≡ true → lookup k entries ≡ lookup k uid_map)

IsCurrent-first :
    (is_own : String → Bool) (email : String) (id : ℕ) (entries uid_map : List (String × ℕ))
    → IsCurrent is_own ((email, id) ∷ entries) uid_map
    → is_own email ≡ true
    → lookup email uid_map ≡ some id
unfolding lookup
IsCurrent-first is_own email id entries uid_map (distinct, current) own =
    ground (arith, eq_refl email, current email own)

IsCurrent-deleted :
    (is_own : String → Bool) (email : String) (id : ℕ) (entries uid_map : List (String × ℕ))
    → IsCurrent is_own ((email, id) ∷ entries) uid_map
    → IsCurrent is_own entries (delete email uid_map)
unfolding lookup
IsCurrent-deleted is_own email id entries uid_map (distinct, current) = (
  distinct.1,
  λ k own. ground (
    arith,
    own,
    distinct.0,
    current k own,
    eq_iff email k,
    eq_iff k email,
    lookup-delete email k uid_map,
  ),
)

IsCurrent-skipped :
    (is_own : String → Bool) (email : String) (id : ℕ) (entries uid_map : List (String × ℕ))
    → IsCurrent is_own ((email, id) ∷ entries) uid_map
    → is_own email ≡ false
    → IsCurrent is_own entries uid_map
unfolding lookup
IsCurrent-skipped is_own email id entries uid_map (distinct, current) foreign = (
  distinct.1,
  λ k own. elim (Bool-cases (email == k)) [
    | inl e ↦ ground (arith, own, foreign, ap is_own ((eq_iff email k).0 e))
    | inr e ↦ ground (arith, e, current k own)
  ],
)

-- Users without an id have no bytes of a known user.
as_traffic-unknown :
    (uid : ℕ) (uid_map : List (String × ℕ)) (c : TrafficCounter)
    → uid ≢ 0
    → IsMap c
    → ((k : String) (s : TrafficStorage) → lookup k c ≡ some s → lookup k uid_map ≡ none)
    → sums uid (as_traffic uid_map c) ≡ (0, 0)
unfolding lookup
as_traffic-unknown uid uid_map [] known distinct absent = refl
as_traffic-unknown uid uid_map ((j, s) ∷ c) known distinct absent =
    let first = absent j s (ground (arith, eq_refl j)) in
    let rest =
      as_traffic-unknown uid uid_map c known distinct.1
        (λ k t h. absent k t (ground (arith, h, distinct.0, eq_iff j k))) in
    ground (arith, rest, first, known)

retire_users-held :
    (uid : ℕ) (tag : String) (entries : List (String × ℕ)) (x : Xray) (c : TrafficCounter)
    → uid ≢ 0
    → IsCounted tag c x
    → IsOwned tag c
    → IsCurrent (has_prefix (tag <> "|")) entries x.uid_map
    → sums uid (value (lookup tag (retire_users tag entries x).retired_traffic) [])
      ≡ sums uid (held tag x)
unfolding retire_users lookup
retire_users-held uid tag [] x c user (found, distinct, small) owned current =
    let R = value (lookup tag x.retired_traffic) [] in
    let none_left =
      as_traffic-unknown uid x.uid_map c user distinct (λ k s h. sym (current.1 k (owned k s h))) in
    rw found (ground (arith, none_left, sum-append uid R (as_traffic x.uid_map c), sum_word uid R))
retire_users-held uid tag ((email, id) ∷ entries) x c user counted owned current =
    let is_own = has_prefix (tag <> "|") in
    let after : Bool → ℕ × ℕ = λ b.
      let later = retire_users tag entries (if b then retire_user tag email id x else x) in
      sums uid (value (lookup tag later.retired_traffic) []) in
    elim (Bool-cases (is_own email)) [
      | inl e ↦
          let retired = retire_user tag email id x in
          let known = IsCurrent-first is_own email id entries x.uid_map current e in
          let one = retire_user-held uid tag email id x c counted known in
          let parts = retire_user-parts tag email id x c counted.0 in
          let rest =
            subst (IsCurrent is_own entries) (sym parts.2)
              (IsCurrent-deleted is_own email id entries x.uid_map current) in
          let later =
            retire_users-held uid tag entries retired (zero_counts email c) user one.0
              (zero_counts-IsOwned tag email c owned) rest in
          ap after e ∙ (later ∙ one.1)
      | inr e ↦
          ap after e
          ∙ retire_users-held uid tag entries x c user counted owned
              (IsCurrent-skipped is_own email id entries x.uid_map current e)
    ]

-- A node that is retired takes no bytes along: what the core holds of it is, for each known user id,
-- what it held before. The node is counted, all its counters are those of its users, and none of them
-- overflows.
pub retire_node_users_conserves :
    (uid : ℕ) (tag : String) (x : Xray) (c : TrafficCounter)
    → uid ≢ 0
    → IsMap x.uid_map
    → IsCounted tag c x
    → IsOwned tag c
    → sums uid (held tag (retire_node_users tag x)) ≡ sums uid (held tag x)
unfolding retire_node_users
retire_node_users_conserves uid tag x c user ids counted owned =
    let retired = retire_users tag x.uid_map x in
    let R = value (lookup tag retired.retired_traffic) [] in
    rw (lookup-delete tag tag retired.counter, eq_refl tag)
      (ap (sums uid) (append-nil R)
        ∙ retire_users-held uid tag x.uid_map x c user counted owned (ids, λ k own. refl))
