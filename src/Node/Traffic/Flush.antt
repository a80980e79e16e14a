-- ===== src/Node/Traffic/Flush.antt =====
-- Traffic between the core and the panel: what the panel's ledger gets and what a node keeps.
use v2bx_outbound.Base.{
  ℕ, ◌<◌, Bool, false, Option, none, some, List, [], ◌∷◌, ◌++◌, ◌≡◌, refl, arith, inl, inr, add_int,
  int_mod, if◌then◌else◌, Bool-cases, ◌||◌,
}
use v2bx_outbound.Base.Map.{lookup, value, int_key}
use v2bx_outbound.Panel.{UserTraffic}
use v2bx_outbound.Node.Traffic.{Body, report_data, merge_user_traffic, post_traffic}
use v2bx_outbound.Node.Traffic.Merge.{
  sum_upload, sum_download, occurs, sum-merge_user_traffic, report_data-merge_user_traffic,
}

-- What the core handed over.
abbrev pub handed_over : Option (List UserTraffic) → List UserTraffic
handed_over none = []
handed_over (some traffic) = traffic

-- The user's bytes of the two lists together.
abbrev pub both_sums : ℕ → List UserTraffic → List UserTraffic → ℕ × ℕ
both_sums uid a b = (
  add_int (sum_upload uid a) (sum_upload uid b),
  add_int (sum_download uid a) (sum_download uid b),
)

pub sum_word :
    (uid : ℕ) (a : List UserTraffic) → (sum_upload uid a < int_mod) × (sum_download uid a < int_mod)
sum_word uid [] = omega arith
sum_word uid (item ∷ a) = ground (arith, sum_word uid a)

pub sum-append :
    (uid : ℕ) (a b : List UserTraffic)
    → (sum_upload uid (a ++ b) ≡ add_int (sum_upload uid a) (sum_upload uid b))
      × (sum_download uid (a ++ b) ≡ add_int (sum_download uid a) (sum_download uid b))
sum-append uid [] b = omega (arith, sum_word uid b)
sum-append uid (item ∷ a) b = ground (arith, sum-append uid a b)

-- A panel that keeps the bodies of the reports it takes: it takes a report if it answers it without
-- an error, and not otherwise.
abbrev pub take_report : (Body → Bool) → Body → List Body → List Body × Bool
take_report accepts body ledger = (if accepts body then body ∷ ledger else ledger, accepts body)

-- Upload and download of a user in the panel's ledger.
abbrev pub ledger_sums : ℕ → List Body → ℕ × ℕ
ledger_sums uid [] = (0, 0)
ledger_sums uid (body ∷ ledger) =
    let entry : ℕ × ℕ = value (lookup uid body) (0, 0) in
    let sums = ledger_sums uid ledger in (add_int entry.0 sums.0, add_int entry.1 sums.1)

ledger_sums_word :
    (uid : ℕ) (ledger : List Body)
    → ((ledger_sums uid ledger).0 < int_mod) × ((ledger_sums uid ledger).1 < int_mod)
ledger_sums_word uid [] = omega arith
ledger_sums_word uid (body ∷ ledger) = omega arith

occurs-sums :
    (uid : ℕ) (a : List UserTraffic)
    → occurs uid a ≡ false
    → (sum_upload uid a ≡ 0) × (sum_download uid a ≡ 0)
occurs-sums uid [] absent = (refl, refl)
occurs-sums uid (item ∷ a) absent = ground (arith, occurs-sums uid a, absent)

-- The body of a report has, for each user, the sums of what was pending and what is new.
report_data-sums :
    (uid : ℕ) (pending next : List UserTraffic)
    → let entry : ℕ × ℕ =
        value (lookup uid (report_data (merge_user_traffic pending next) [])) (0, 0) in
      (entry.0 ≡ add_int (sum_upload uid pending) (sum_upload uid next))
      × (entry.1 ≡ add_int (sum_download uid pending) (sum_download uid next))
report_data-sums uid pending next =
    let body = report_data-merge_user_traffic uid pending next in
    elim (Bool-cases (occurs uid next || occurs uid pending)) [
      | inl e ↦ ground (arith, body, e)
      | inr e ↦ ground (arith, body, e, occurs-sums uid pending, occurs-sums uid next)
    ]

-- A flush, whatever fails in it, leaves with each user the bytes that were pending and the bytes
-- that the core handed over: they stay pending, or the panel's ledger gets them.
post_traffic_conserves :
    (uid : ℕ) (slice : Option (List UserTraffic)) (accepts : Body → Bool)
    (pending : List UserTraffic) (ledger : List Body)
    → let r = post_traffic slice (take_report accepts) pending ledger in
      let before = ledger_sums uid ledger in
      let after = ledger_sums uid r.1 in
      (add_int (sum_upload uid r.0.0) after.0
        ≡ add_int (add_int (sum_upload uid pending) before.0) (sum_upload uid (handed_over slice)))
      × (add_int (sum_download uid r.0.0) after.1
          ≡ add_int
              (add_int (sum_download uid pending) before.1)
              (sum_download uid (handed_over slice)))
unfolding post_traffic
post_traffic_conserves uid none accepts pending ledger = omega arith
post_traffic_conserves uid (some traffic) accepts pending ledger = ground (
  arith,
  sum-merge_user_traffic uid pending traffic,
  report_data-sums uid pending traffic,
  ledger_sums_word uid ledger,
)

-- The rounds of reportUserTrafficTask: the core's answers and the panel's, in order.
abbrev pub Round : Type 0
Round = Option (List UserTraffic) × (Body → Bool)

-- What is pending after the rounds, and the panel's ledger.
abbrev pub run_rounds : List Round → List UserTraffic × List Body → List UserTraffic × List Body
run_rounds [] s = s
run_rounds ((slice, accepts) ∷ rounds) (pending, ledger) =
    let flushed = post_traffic slice (take_report accepts) pending ledger in
    run_rounds rounds (flushed.0.0, flushed.1)

abbrev pub all_handed_over : List Round → List UserTraffic
all_handed_over [] = []
all_handed_over ((slice, accepts) ∷ rounds) = handed_over slice ++ all_handed_over rounds

run_rounds-sums :
    (uid : ℕ) (rounds : List Round) (pending : List UserTraffic) (ledger : List Body)
    → let s = run_rounds rounds (pending, ledger) in
      let before = ledger_sums uid ledger in
      let after = ledger_sums uid s.1 in
      let handed = all_handed_over rounds in
      (add_int (sum_upload uid s.0) after.0
        ≡ add_int (add_int (sum_upload uid pending) before.0) (sum_upload uid handed))
      × (add_int (sum_download uid s.0) after.1
          ≡ add_int (add_int (sum_download uid pending) before.1) (sum_download uid handed))
run_rounds-sums uid [] pending ledger = omega arith
run_rounds-sums uid ((slice, accepts) ∷ rounds) pending ledger =
    let flushed = post_traffic slice (take_report accepts) pending ledger in
    omega (
      arith,
      run_rounds-sums uid rounds flushed.0.0 flushed.1,
      post_traffic_conserves uid slice accepts pending ledger,
      sum-append uid (handed_over slice) (all_handed_over rounds),
    )

-- Over any rounds, whichever of them fail, the bytes of each user in the request bodies that the panel
-- took, together with what is still pending, are what the core handed over, upload and download each;
-- the sums wrap as `int64` does. The panel takes a report exactly if it answers it without an error.
pub run_rounds_conserve :
    (uid : ℕ) (rounds : List Round)
    → let s = run_rounds rounds ([], []) in
      let taken = ledger_sums uid s.1 in
      let handed = all_handed_over rounds in
      (add_int (sum_upload uid s.0) taken.0 ≡ sum_upload uid handed)
      × (add_int (sum_download uid s.0) taken.1 ≡ sum_download uid handed)
run_rounds_conserve uid rounds =
    omega (arith, run_rounds-sums uid rounds [] [], sum_word uid (all_handed_over rounds))
