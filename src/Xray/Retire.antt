-- ===== src/Xray/Retire.antt =====
-- The traffic of users that are deleted is kept for the next read.
use mathlib.Core.List.{append-nil}
use v2bx_outbound.Base.{
  ℕ, ◌+◌, ◌<◌, String, ◌==◌, eq_iff, eq_refl, false, Option, none, some, List, [], ◌∷◌, ◌++◌, ◌≡◌,
  refl, arith, add_int, slt, int_half, if◌then◌else◌, Option-cases, Bool-cases, ap, subst, inl, inr,
}
use v2bx_outbound.Base.Map.{
  lookup, insert, delete, value, lookup-insert, lookup-delete, IsMap, string_key,
}
use v2bx_outbound.Panel.{UserTraffic}
use v2bx_outbound.Counter.{TrafficStorage, TrafficCounter, new_storage}
use v2bx_outbound.Node.Traffic.Merge.{sum_upload, sum_download}
use v2bx_outbound.Node.Traffic.Flush.{sum_word, sum-append}
use v2bx_outbound.Xray.{Xray, retain_user_traffic, drop_user, forget_user}
use v2bx_outbound.Xray.Slice.{as_traffic, held}

-- The record of one user, if it is counted.
abbrev pub record_of : ℕ → Option TrafficStorage → List UserTraffic
record_of uid none = []
record_of uid (some s) =
    let one : UserTraffic = record {
      uid = uid;
      upload = s.up_counter;
      download = s.down_counter;
    } in
    one ∷ []

-- A user's bytes of a list.
abbrev pub sums : ℕ → List UserTraffic → ℕ × ℕ
sums uid traffic = (sum_upload uid traffic, sum_download uid traffic)

delete-absent :
    {V : Type 0} (k : String) (m : List (String × V)) → lookup k m ≡ none → delete k m ≡ m
unfolding lookup delete
delete-absent k [] h = refl
delete-absent k ((j, v) ∷ m) h = ground (arith, delete-absent k m)

-- Without an entry of the user among the counters, the user's id does not matter.
pub as_traffic-absent :
    (email : String) (uid_map : List (String × ℕ)) (c : TrafficCounter)
    → lookup email c ≡ none
    → as_traffic (delete email uid_map) c ≡ as_traffic uid_map c
unfolding lookup
as_traffic-absent email uid_map [] h = refl
as_traffic-absent email uid_map ((j, s) ∷ c) h = ground (
  arith,
  eq_iff email j,
  eq_iff j email,
  lookup-delete email j uid_map,
  as_traffic-absent email uid_map c,
)

-- The first entry is the user's.
as_traffic-first :
    (email : String) (uid_map : List (String × ℕ)) (s : TrafficStorage) (c : TrafficCounter)
    → lookup email c ≡ none
    → let gone = record_of (value (lookup email uid_map) 0) (some s) in
      gone ++ as_traffic (delete email uid_map) (delete email c)
      ≡ as_traffic uid_map ((email, s) ∷ c)
as_traffic-first email uid_map s c h =
    rw (delete-absent email c h, as_traffic-absent email uid_map c h) refl

-- A record in front of two lists of the same sums.
pub sums-swap :
    (uid : ℕ) (one : UserTraffic) (gone rest all : List UserTraffic)
    → sums uid (gone ++ rest) ≡ sums uid all
    → sums uid (gone ++ one ∷ rest) ≡ sums uid (one ∷ all)
sums-swap uid one gone rest all h = ground (
  arith,
  sum-append uid gone rest,
  sum-append uid gone (one ∷ rest),
  sum_word uid gone,
  sum_word uid rest,
  sum_word uid all,
)

as_traffic-delete :
    (uid : ℕ) (email : String) (uid_map : List (String × ℕ)) (c : TrafficCounter)
    → IsMap c
    → let gone = record_of (value (lookup email uid_map) 0) (lookup email c) in
      sums uid (gone ++ as_traffic (delete email uid_map) (delete email c))
      ≡ sums uid (as_traffic uid_map c)
unfolding lookup delete
as_traffic-delete uid email uid_map [] h = refl
as_traffic-delete uid email uid_map ((j, s) ∷ c) h =
    let gone = record_of (value (lookup email uid_map) 0) (lookup email c) in
    let rest = as_traffic (delete email uid_map) (delete email c) in
    let one : UserTraffic = record {
      uid = value (lookup j uid_map) 0;
      upload = s.up_counter;
      download = s.down_counter;
    } in
    elim (Bool-cases (j == email)) [
      | inl e ↦
          let same = (eq_iff j email).0 e in
          rw (e, same)
            (ap (sums uid)
              (as_traffic-first email uid_map s c (subst (λ k. lookup k c ≡ none) same h.0)))
      | inr e ↦
          let other : (email == j) ≡ false = ground (arith, eq_iff email j, eq_iff j email, e) in
          rw (e, lookup-delete email j uid_map, other)
            (sums-swap uid one gone rest (as_traffic uid_map c)
              (as_traffic-delete uid email uid_map c h.1))
    ]

delete-insert :
    {V : Type 0} (k : String) (v : V) (m : List (String × V)) → delete k (insert k v m) ≡ delete k m
unfolding insert delete
delete-insert k v [] = ground (arith, eq_refl k)
delete-insert k v ((j, w) ∷ m) = ground (arith, eq_refl k, delete-insert k v m)

-- What is kept of a user that goes.
abbrev pub kept_of : ℕ → Option TrafficStorage → List UserTraffic
kept_of uid none = []
kept_of uid (some s) =
    if slt 0 (add_int s.up_counter s.down_counter) then record_of uid (some s) else []

-- The two words are zero or their sum is positive.
pub sums-kept_of :
    (uid id : ℕ) (o : Option TrafficStorage)
    → ((s : TrafficStorage) → o ≡ some s → s.up_counter + s.down_counter < int_half)
    → sums uid (kept_of id o) ≡ sums uid (record_of id o)
sums-kept_of uid id none small = refl
sums-kept_of uid id (some s) small = ground (arith, small s refl)

forget_user-parts :
    (tag user : String) (x : Xray) (c : TrafficCounter)
    → lookup tag x.counter ≡ some c
    → let x' = forget_user tag user x in
      let id = value (lookup user x.uid_map) 0 in
      (value (lookup tag x'.retired_traffic) []
        ≡ value (lookup tag x.retired_traffic) [] ++ kept_of id (lookup user c))
      × (x'.uid_map ≡ delete user x.uid_map)
      × (value (lookup tag x'.counter) [] ≡ delete user c)
unfolding forget_user retain_user_traffic drop_user
forget_user-parts tag user x c found = elim (Option-cases (lookup user c)) [
  | inl e ↦ ground (
    arith,
    found,
    e,
    append-nil (value (lookup tag x.retired_traffic) []),
    lookup-insert tag tag (delete user c) x.counter,
    eq_refl tag,
  )
  | inr (s, e) ↦
      let retired = value (lookup tag x.retired_traffic) [] in
      let zeroed = insert user new_storage c in
      let stored = insert tag zeroed x.counter in
      let id = value (lookup user x.uid_map) 0 in
      ground (
        arith,
        found,
        e,
        append-nil retired,
        eq_refl tag,
        delete-insert user new_storage c,
        lookup-insert tag tag zeroed x.counter,
        lookup-insert tag tag (delete user zeroed) stored,
        lookup-insert tag tag (retired ++ record_of id (some s)) x.retired_traffic,
      )
]

-- A user that is deleted takes no bytes along: what the core holds of the node is, for each user id,
-- what it held before. The counts of the deleted user do not overflow, and the node is counted.
pub forget_user_conserves :
    (uid : ℕ) (tag user : String) (x : Xray) (c : TrafficCounter)
    → lookup tag x.counter ≡ some c
    → IsMap c
    → ((s : TrafficStorage) → lookup user c ≡ some s → s.up_counter + s.down_counter < int_half)
    → sums uid (held tag (forget_user tag user x)) ≡ sums uid (held tag x)
forget_user_conserves uid tag user x c found distinct small =
    let retired = value (lookup tag x.retired_traffic) [] in
    let id = value (lookup user x.uid_map) 0 in
    let kept = kept_of id (lookup user c) in
    let gone = record_of id (lookup user c) in
    let rest = as_traffic (delete user x.uid_map) (delete user c) in
    let parts = forget_user-parts tag user x c found in
    rw (parts.0, parts.1, parts.2, found)
      (ground (
        arith,
        sums-kept_of uid id (lookup user c) small,
        as_traffic-delete uid user x.uid_map c distinct,
        sum-append uid (retired ++ kept) rest,
        sum-append uid retired kept,
        sum-append uid gone rest,
        sum-append uid retired (as_traffic x.uid_map c),
        sum_word uid retired,
        sum_word uid kept,
        sum_word uid rest,
      ))
