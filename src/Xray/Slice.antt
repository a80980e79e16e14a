-- ===== src/Xray/Slice.antt =====
-- Reading the traffic of a node moves it out of the core, and loses none of a known user.
use v2bx_outbound.Base.{
  ℕ, String, eq_refl, true, none, List, [], ◌∷◌, ◌++◌, ◌≡◌, ◌≢◌, refl, arith, Option-cases, inl,
  inr,
}
use v2bx_outbound.Base.Map.{lookup, insert, delete, value, lookup-insert, lookup-delete, string_key}
use v2bx_outbound.Panel.{UserTraffic}
use v2bx_outbound.Counter.{TrafficCounter}
use v2bx_outbound.Node.Traffic.Merge.{sum_upload, sum_download}
use v2bx_outbound.Node.Traffic.Flush.{both_sums, sum_word, sum-append}
use v2bx_outbound.Xray.{Xray, read_counters, get_user_traffic_slice}

-- The counters of a node as traffic records, whatever their size.
abbrev pub as_traffic : List (String × ℕ) → TrafficCounter → List UserTraffic
as_traffic uid_map [] = []
as_traffic uid_map ((email, storage) ∷ c) =
    let all : UserTraffic = record {
      uid = value (lookup email uid_map) 0;
      upload = storage.up_counter;
      download = storage.down_counter;
    } in
    all ∷ as_traffic uid_map c

-- All that the core holds of a node.
abbrev pub held : String → Xray → List UserTraffic
held tag x =
    value (lookup tag x.retired_traffic) []
    ++ as_traffic x.uid_map (value (lookup tag x.counter) [])

read_counters_conserves :
    (uid min_bytes : ℕ) (uid_map : List (String × ℕ)) (c : TrafficCounter)
    → uid ≢ 0
    → let read = read_counters min_bytes true uid_map c in
      both_sums uid (as_traffic uid_map read.0) read.1 ≡ both_sums uid [] (as_traffic uid_map c)
unfolding read_counters
read_counters_conserves uid min_bytes uid_map [] known = refl
read_counters_conserves uid min_bytes uid_map ((email, storage) ∷ c) known =
    ground (arith, read_counters_conserves uid min_bytes uid_map c known)

-- What is held after the counters of a node were read.
held_after :
    (tag : String) (c : TrafficCounter) (x : Xray)
    → held tag (record x {
      retired_traffic = delete tag x.retired_traffic;
      counter = insert tag c x.counter;
    })
      ≡ as_traffic x.uid_map c
held_after tag c x =
    rw (lookup-insert tag tag c x.counter, lookup-delete tag tag x.retired_traffic)
      (ground (arith, eq_refl tag))

held_unread :
    (tag : String) (x : Xray)
    → lookup tag x.counter ≡ none
    → held tag (record x { retired_traffic = delete tag x.retired_traffic }) ≡ []
held_unread tag x none_counted =
    rw (lookup-delete tag tag x.retired_traffic, none_counted) (ground (arith, eq_refl tag))

-- A read of a node's traffic with a reset takes the bytes of a known user out of the core, counters
-- and retired traffic, without loss: what is read together with what stays is what was held.
pub get_user_traffic_slice_conserves :
    (uid : ℕ) (tag : String) (x : Xray)
    → uid ≢ 0
    → let read = get_user_traffic_slice tag true x in
      both_sums uid (held tag read.0) read.1
      ≡ (sum_upload uid (held tag x), sum_download uid (held tag x))
unfolding get_user_traffic_slice
get_user_traffic_slice_conserves uid tag x known =
    let retired = value (lookup tag x.retired_traffic) [] in
    elim (Option-cases (lookup tag x.counter)) [
      | inl e ↦
          rw (e, get_user_traffic_slice, held_unread tag x e)
            (ground (arith, sum-append uid retired [], sum_word uid retired))
      | inr (c, e) ↦
          let min_bytes = value (lookup tag x.node_report_min_traffic_bytes) 0 in
          let read = read_counters min_bytes true x.uid_map c in
          rw (e, get_user_traffic_slice, held_after tag read.0 x)
            (ground (
              arith,
              read_counters_conserves uid min_bytes x.uid_map c known,
              sum-append uid retired read.1,
              sum-append uid retired (as_traffic x.uid_map c),
              sum_word uid (as_traffic x.uid_map c),
              sum_word uid retired,
              sum_word uid read.1,
              sum_word uid (as_traffic x.uid_map read.0),
            ))
    ]
