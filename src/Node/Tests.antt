-- ===== src/Node/Tests.antt =====
-- A node with a few users: a change of the list, rounds of traffic, and a device report.
use v2bx_outbound.Base.{
  ℕ, String, Bool, true, false, none, some, List, [], ◌∷◌, ◌≡◌, refl, arith, add_int,
}
use v2bx_outbound.Base.Map.{lookup, insert, value, string_key, int_key}
use v2bx_outbound.Panel.{UserInfo, OnlineUser, UserTraffic}
use v2bx_outbound.Panel.UserList.{IsUserList}
use v2bx_outbound.Limiter.{Limiter}
use v2bx_outbound.Limiter.Users.{new_limiter, update_user}
use v2bx_outbound.Node.Users.{compare_user_list}
use v2bx_outbound.Node.Users.Sync.{Follows, update_user-Follows, new_limiter-Follows}
use v2bx_outbound.Node.Traffic.{
  Body, merge_user_traffic, report_data, post_traffic, merged_values, merge_batch, merge_item,
}
use v2bx_outbound.Node.Traffic.Merge.{sum_upload, sum_download}
use v2bx_outbound.Node.Traffic.Flush.{
  take_report, ledger_sums, Round, run_rounds, run_rounds_conserve,
}
use v2bx_outbound.Node.Devices.{online_report, nocount_uid, counted, device_data}
use v2bx_outbound.Node.Devices.Report.{online_report_lem}

abbrev alice : UserInfo
alice = record { id = 1; uuid = "alice"; speed_limit = 0; device_limit = 1 }

-- The same user with another speed limit.
abbrev fast_alice : UserInfo
fast_alice = record alice { speed_limit = 100 }

abbrev carol : UserInfo
carol = record { id = 3; uuid = "carol"; speed_limit = 20; device_limit = 2 }

abbrev old_list : List UserInfo
old_list = alice ∷ []

abbrev new_list : List UserInfo
new_list = carol ∷ fast_alice ∷ []

old_list-IsUserList : IsUserList 5 old_list
old_list-IsUserList = (refl, refl, omega arith, tt)

new_list-IsUserList : IsUserList 5 new_list
new_list-IsUserList = (refl, refl, omega arith, (refl, refl, omega arith, tt))

abbrev first_limiter : Limiter ℕ String
first_limiter = new_limiter "n" 0 old_list []

update_user-Follows_example :
    let changes = compare_user_list old_list new_list in
    Follows "n" new_list (update_user "n" changes.1 changes.0 first_limiter)
update_user-Follows_example =
    update_user-Follows 5 "n" old_list new_list first_limiter old_list-IsUserList
      new_list-IsUserList (new_limiter-Follows ℕ String "n" 0 old_list [])

abbrev first : UserTraffic
first = record { uid = 1; upload = 10; download = 20 }

abbrev second : UserTraffic
second = record { uid = 1; upload = 5; download = 7 }

-- The panel refuses the first request; the core fails in the second round.
abbrev rounds : List Round
rounds =
    (some (first ∷ []), λ body. false)
    ∷ (none, λ body. true)
    ∷ (some (second ∷ []), λ body. true)
    ∷ []

all_arrives : (run_rounds rounds ([], [])).1 ≡ ((1, (15, 27)) ∷ []) ∷ []
unfolding post_traffic merge_user_traffic merged_values merge_batch merge_item report_data lookup
    insert
all_arrives = refl

-- A panel that takes the report and whose answer is lost: the next round sends the bytes again.
abbrev lossy : Body → List Body → List Body × Bool
lossy body ledger = (body ∷ ledger, false)

lost_answer_counts_twice :
    let lost = post_traffic {0} (some (first ∷ [])) lossy [] [] in
    (post_traffic {0} (some []) (take_report (λ body. true)) lost.0.0 lost.1).1
    ≡ ((1, (10, 20)) ∷ []) ∷ ((1, (10, 20)) ∷ []) ∷ []
unfolding post_traffic merge_user_traffic merged_values merge_batch merge_item report_data lookup
    insert
lost_answer_counts_twice = refl

run_rounds_conserve_example :
    let s = run_rounds rounds ([], []) in
    let taken = ledger_sums 1 s.1 in
    (add_int (sum_upload 1 s.0) taken.0 ≡ 15) × (add_int (sum_download 1 s.0) taken.1 ≡ 27)
run_rounds_conserve_example = run_rounds_conserve 1 rounds

abbrev online : List OnlineUser
online = record { uid = 1; ip = "10.0.0.1" } ∷ record { uid = 3; ip = "10.0.0.3" } ∷ []

-- The first user is below one kilobyte, the third has no traffic record.
reported : online_report 1 (first ∷ []) online ≡ some ((3, "10.0.0.3" ∷ []) ∷ [])
unfolding online_report nocount_uid counted device_data lookup insert
reported = refl

online_report_lem_example :
    value {V = List String} (lookup {K = ℕ} 3 ((3, "10.0.0.3" ∷ []) ∷ [])) [] ≡ "10.0.0.3" ∷ []
unfolding lookup
online_report_lem_example =
    online_report_lem 1 3 (first ∷ []) online ((3, "10.0.0.3" ∷ []) ∷ []) reported
