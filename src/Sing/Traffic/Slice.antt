-- ===== src/Sing/Traffic/Slice.antt =====
-- Reading the traffic of a node moves it out of the sing-box core, and loses none of a known user.
use v2bx_outbound.Base.{
  ℕ, String, ◌<>◌, eq_refl, true, List, [], ◌∷◌, ◌≡◌, ◌≢◌, refl, arith, Option-cases, inl, inr,
}
use v2bx_outbound.Base.Map.{lookup, value, lookup-insert, string_key}
use v2bx_outbound.Panel.{UserTraffic}
use v2bx_outbound.Counter.{TrafficCounter}
use v2bx_outbound.Node.Traffic.Merge.{sum_upload, sum_download}
use v2bx_outbound.Node.Traffic.Flush.{both_sums, sum_word}
use v2bx_outbound.Sing.Users.{Sing}
use v2bx_outbound.Sing.Traffic.{range_counters, get_user_traffic_slice}

-- The counters of a node as traffic records, whatever their size.
abbrev pub as_traffic : String → List (String × ℕ) → TrafficCounter → List UserTraffic
as_traffic tag uid_map [] = []
as_traffic tag uid_map ((uuid, storage) ∷ c) =
    let all : UserTraffic = record {
      uid = value (lookup (tag <> ("\0" <> uuid)) uid_map) 0;
      upload = storage.up_counter;
      download = storage.down_counter;
    } in
    all ∷ as_traffic tag uid_map c

abbrev pub held : String → Sing → List UserTraffic
held tag b = as_traffic tag b.uid_map (value (lookup tag b.hook.counter) [])

range_counters_conserves :
    (uid : ℕ) (tag : String) (min_bytes : ℕ) (uid_map : List (String × ℕ)) (c : TrafficCounter)
    → uid ≢ 0
    → let read = range_counters tag min_bytes true uid_map c in
      both_sums uid (as_traffic tag uid_map read.0) read.1
      ≡ both_sums uid [] (as_traffic tag uid_map c)
unfolding range_counters
range_counters_conserves uid tag min_bytes uid_map [] known = refl
range_counters_conserves uid tag min_bytes uid_map ((uuid, storage) ∷ c) known =
    ground (arith, range_counters_conserves uid tag min_bytes uid_map c known)

-- A read of a node's traffic with a reset takes the bytes of a known user out of the counters without
-- loss: what is read together with what stays is what was held.
pub traffic_slice_conserves :
    (uid : ℕ) (tag : String) (b : Sing)
    → uid ≢ 0
    → let read = get_user_traffic_slice tag true b in
      both_sums uid (held tag read.0) read.1
      ≡ (sum_upload uid (held tag b), sum_download uid (held tag b))
unfolding get_user_traffic_slice
traffic_slice_conserves uid tag b known = elim (Option-cases (lookup tag b.hook.counter)) [
  | inl e ↦ rw (e, get_user_traffic_slice, e) refl
  | inr (c, e) ↦
      let min_bytes = value (lookup tag b.node_report_min_traffic_bytes) 0 in
      let read = range_counters tag min_bytes true b.uid_map c in
      rw (e, get_user_traffic_slice, lookup-insert tag tag read.0 b.hook.counter, eq_refl tag)
        (ground (
          arith,
          range_counters_conserves uid tag min_bytes b.uid_map c known,
          sum_word uid (as_traffic tag b.uid_map c),
        ))
]
