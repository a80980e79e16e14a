-- ===== src/Xray/Nodes/Retired/Counts.antt =====
-- The counters of a user that is retired.
use mathlib.Core.List.{append-nil}
use v2bx_outbound.Base.{
  ℕ, ◌+◌, ◌<◌, String, ◌<>◌, ◌==◌, eq_iff, eq_refl, true, false, none, some, List, [], ◌∷◌, ◌++◌,
  ◌≡◌, refl, arith, int_half, Option-cases, Bool-cases, sym, subst, inl, inr,
}
use v2bx_outbound.Base.Map.{
  lookup, insert, delete, value, lookup-insert, lookup-delete, IsMap, insert-IsMap, string_key,
}
use v2bx_outbound.Panel.{UserTraffic}
use v2bx_outbound.Counter.{TrafficStorage, TrafficCounter, new_storage}
use v2bx_outbound.Node.Traffic.Flush.{sum_word, sum-append}
use v2bx_outbound.Xray.{Xray, retain_user_traffic}
use v2bx_outbound.Xray.Slice.{as_traffic, held}
use v2bx_outbound.Xray.Retire.{sums, record_of, kept_of, sums-kept_of, sums-swap, as_traffic-absent}
use v2bx_outbound.Xray.Nodes.{has_prefix, retire_user}

-- The counter of a user that is counted, set to zero.
abbrev pub zero_counts : String → TrafficCounter → TrafficCounter
zero_counts email c = elim (lookup email c) [ none ↦ c | some s ↦ insert email new_storage c ]

zero_counts-first :
    (email j : String) (s : TrafficStorage) (c : TrafficCounter)
    → (j == email) ≡ true
    → (zero_counts email ((j, s) ∷ c) ≡ (j, new_storage) ∷ c) × (lookup email ((j, s) ∷ c) ≡ some s)
unfolding lookup insert
zero_counts-first email j s c e = ground (arith, e)

zero_counts-later :
    (email j : String) (s : TrafficStorage) (c : TrafficCounter)
    → (j == email) ≡ false
    → (zero_counts email ((j, s) ∷ c) ≡ (j, s) ∷ zero_counts email c)
      × (lookup email ((j, s) ∷ c) ≡ lookup email c)
unfolding lookup insert
zero_counts-later email j s c e = elim (Option-cases (lookup email c)) [
  | inl missing ↦ ground (arith, e, missing)
  | inr (t, found) ↦ ground (arith, e, found)
]

-- The bytes of a user that goes, put in front of what is left.
as_traffic-zero_counts :
    (uid : ℕ) (email : String) (uid_map : List (String × ℕ)) (c : TrafficCounter)
    → IsMap c
    → let gone = record_of (value (lookup email uid_map) 0) (lookup email c) in
      sums uid (gone ++ as_traffic (delete email uid_map) (zero_counts email c))
      ≡ sums uid (as_traffic uid_map c)
unfolding lookup insert
as_traffic-zero_counts uid email uid_map [] h = refl
as_traffic-zero_counts uid email uid_map ((j, s) ∷ c) h =
    let ids = delete email uid_map in
    let id = value (lookup email uid_map) 0 in
    let one : UserTraffic = record {
      uid = value (lookup j uid_map) 0;
      upload = s.up_counter;
      download = s.down_counter;
    } in
    elim (Bool-cases (j == email)) [
      | inl e ↦
          let same = (eq_iff j email).0 e in
          let absent = subst (λ k. lookup k c ≡ none) same h.0 in
          let rest = as_traffic-absent email uid_map c absent in
          let parts = zero_counts-first email j s c e in
          rw (parts.0, parts.1, rest, same) (ground (arith, sum_word uid (as_traffic uid_map c)))
      | inr e ↦
          let other : (email == j) ≡ false = ground (arith, eq_iff email j, eq_iff j email, e) in
          let later = as_traffic-zero_counts uid email uid_map c h.1 in
          let parts = zero_counts-later email j s c e in
          rw (parts.0, parts.1, lookup-delete email j uid_map, other)
            (sums-swap uid one (record_of id (lookup email c))
              (as_traffic ids (zero_counts email c)) (as_traffic uid_map c) later)
    ]

-- The counters of a node before its users are retired: each user once, and no sum overflows.
abbrev pub IsCounted : String → TrafficCounter → Xray → Type 0
IsCounted tag c x =
    (lookup tag x.counter ≡ some c)
    × IsMap c
    × ((k : String) (s : TrafficStorage)
        → lookup k c ≡ some s
        → s.up_counter + s.down_counter < int_half)

pub retire_user-parts :
    (tag email : String) (id : ℕ) (x : Xray) (c : TrafficCounter)
    → lookup tag x.counter ≡ some c
    → let x' = retire_user tag email id x in
      (lookup tag x'.counter ≡ some (zero_counts email c))
      × (value (lookup tag x'.retired_traffic) []
          ≡ value (lookup tag x.retired_traffic) [] ++ kept_of id (lookup email c))
      × (x'.uid_map ≡ delete email x.uid_map)
unfolding retire_user retain_user_traffic
retire_user-parts tag email id x c found = elim (Option-cases (lookup email c)) [
  | inl e ↦ ground (arith, found, e, append-nil (value (lookup tag x.retired_traffic) []))
  | inr (s, e) ↦
      let retired = value (lookup tag x.retired_traffic) [] in
      ground (
        arith,
        found,
        e,
        append-nil retired,
        eq_refl tag,
        lookup-insert tag tag (insert email new_storage c) x.counter,
        lookup-insert tag tag (retired ++ record_of id (some s)) x.retired_traffic,
      )
]

zero_counts-none :
    (email : String) (c : TrafficCounter) → lookup email c ≡ none → zero_counts email c ≡ c
zero_counts-none email c e = ground (arith, e)

zero_counts-some :
    (email : String) (s : TrafficStorage) (c : TrafficCounter)
    → lookup email c ≡ some s
    → zero_counts email c ≡ insert email new_storage c
zero_counts-some email s c e = ground (arith, e)

zero_counts-IsMap : (email : String) (c : TrafficCounter) → IsMap c → IsMap (zero_counts email c)
zero_counts-IsMap email c h = elim (Option-cases (lookup email c)) [
  | inl e ↦ subst IsMap (sym (zero_counts-none email c e)) h
  | inr (s, e) ↦
      subst IsMap (sym (zero_counts-some email s c e)) (insert-IsMap email new_storage c h)
]

-- Where the counts are small they stay so.
zero_counts-small :
    (email k : String) (c : TrafficCounter) (s : TrafficStorage)
    → ((k : String) (s : TrafficStorage)
        → lookup k c ≡ some s
        → s.up_counter + s.down_counter < int_half)
    → lookup k (zero_counts email c) ≡ some s
    → s.up_counter + s.down_counter < int_half
zero_counts-small email k c s small h = elim (Option-cases (lookup email c)) [
  | inl e ↦ ground (arith, h, zero_counts-none email c e, small k s)
  | inr (t, e) ↦
      ground
        (arith, h, zero_counts-some email t c e, lookup-insert email k new_storage c, small k s)
]

-- The node's counters are those of its users.
abbrev pub IsOwned : String → TrafficCounter → Type 0
IsOwned tag c =
    (k : String) (s : TrafficStorage) → lookup k c ≡ some s → has_prefix (tag <> "|") k ≡ true

-- A user that is counted after the zeroing was counted before.
zero_counts-counted :
    (email k : String) (c : TrafficCounter) (s : TrafficStorage)
    → lookup k (zero_counts email c) ≡ some s
    → (t : TrafficStorage) × (lookup k c ≡ some t)
zero_counts-counted email k c s h = elim (Option-cases (lookup email c)) [
  | inl e ↦ (s, ground (arith, h, zero_counts-none email c e))
  | inr (t, e) ↦ elim (Bool-cases (email == k)) [
    | inl same ↦ (t, subst (λ j. lookup j c ≡ some t) ((eq_iff email k).0 same) e)
    | inr other ↦ (
      s,
      ground (arith, h, other, zero_counts-some email t c e, lookup-insert email k new_storage c),
    )
  ]
]

pub zero_counts-IsOwned :
    (tag email : String) (c : TrafficCounter) → IsOwned tag c → IsOwned tag (zero_counts email c)
zero_counts-IsOwned tag email c owned k s h =
    let (t, counted) = zero_counts-counted email k c s h in owned k t counted

pub retire_user-held :
    (uid : ℕ) (tag email : String) (id : ℕ) (x : Xray) (c : TrafficCounter)
    → IsCounted tag c x
    → lookup email x.uid_map ≡ some id
    → let x' = retire_user tag email id x in
      IsCounted tag (zero_counts email c) x' × (sums uid (held tag x') ≡ sums uid (held tag x))
retire_user-held uid tag email id x c (found, distinct, small) known =
    let parts = retire_user-parts tag email id x c found in
    let R = value (lookup tag x.retired_traffic) [] in
    let kept = kept_of id (lookup email c) in
    let gone = record_of id (lookup email c) in
    let rest = as_traffic (delete email x.uid_map) (zero_counts email c) in
    let first =
      subst
        (λ o.
          sums uid (record_of (value o 0) (lookup email c) ++ rest)
          ≡ sums uid (as_traffic x.uid_map c))
        known (as_traffic-zero_counts uid email x.uid_map c distinct) in
    (
      (parts.0, zero_counts-IsMap email c distinct, λ k s. zero_counts-small email k c s small),
      rw (parts.0, parts.1, parts.2, found)
          (ground (
            arith,
            sums-kept_of uid id (lookup email c) (small email),
            first,
            sum-append uid (R ++ kept) rest,
            sum-append uid R kept,
            sum-append uid gone rest,
            sum-append uid R (as_traffic x.uid_map c),
            sum_word uid R,
            sum_word uid kept,
            sum_word uid rest,
          )),
    )
