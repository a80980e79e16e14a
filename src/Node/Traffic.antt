-- ===== src/Node/Traffic.antt =====
-- mergeUserTraffic, flushUserTraffic (node/reload.go) and ReportUserTraffic (api/panel/user.go).
-- The core's counters and the panel's answer are arguments.
pub mod Merge
pub mod Flush
use v2bx_outbound.Base.{
  ℕ, Bool, true, false, Option, none, some, List, [], ◌∷◌, add_int, if◌then◌else◌,
}
use v2bx_outbound.Base.Map.{lookup, insert, value, int_key}
use v2bx_outbound.Panel.{UserTraffic}

abbrev pub no_traffic : UserTraffic
no_traffic = record { uid = 0; upload = 0; download = 0 }

-- The body of the loop of mergeUserTraffic.
unfoldable pub merge_item : UserTraffic → List (ℕ × UserTraffic) → List (ℕ × UserTraffic)
merge_item item merged =
    let total = value (lookup item.uid merged) no_traffic in
    insert item.uid
      (record {
        uid = item.uid;
        upload = add_int total.upload item.upload;
        download = add_int total.download item.download;
      })
      merged

unfoldable pub merge_batch : List UserTraffic → List (ℕ × UserTraffic) → List (ℕ × UserTraffic)
merge_batch [] merged = merged
merge_batch (item ∷ batch) merged = merge_batch batch (merge_item item merged)

unfoldable pub merged_values : List (ℕ × UserTraffic) → List UserTraffic
merged_values [] = []
merged_values ((uid, item) ∷ merged) = item ∷ merged_values merged

unfoldable pub merge_user_traffic : List UserTraffic → List UserTraffic → List UserTraffic
merge_user_traffic pending next = merged_values (merge_batch next (merge_batch pending []))

-- The request body of ReportUserTraffic: upload and download for each user id.
unfoldable pub report_data : List UserTraffic → List (ℕ × (ℕ × ℕ)) → List (ℕ × (ℕ × ℕ))
report_data [] body = body
report_data (item ∷ traffic) body =
    report_data traffic (insert item.uid (item.upload, item.download) body)

-- What flushUserTraffic returns: an error, or the traffic that it reported.
pub data Flushed : Type 0 where
  failed : Flushed
  reported : List UserTraffic → Flushed

abbrev pub Body : Type 0
Body = List (ℕ × (ℕ × ℕ))

-- flushUserTraffic with ReportUserTraffic. `slice` is the core's answer, `none` for its error; `post`
-- is the request, which may change the panel, with whether it answers without an error. The result has
-- the traffic that stays pending, what is returned, and the panel.
unfoldable pub post_traffic {ℓ} :
    {P : Type ℓ}
    → Option (List UserTraffic)
    → (Body → P → P × Bool)
    → List UserTraffic
    → P
    → (List UserTraffic × Flushed) × P
post_traffic none post pending panel = ((pending, failed), panel)
post_traffic (some traffic) post pending panel = elim (merge_user_traffic pending traffic) [
  | [] ↦ (([], reported []), panel)
  | item ∷ rest ↦
      let answer = post (report_data (item ∷ rest) []) panel in
      if answer.1
      then (([], reported (item ∷ rest)), answer.0)
      else ((item ∷ rest, failed), answer.0)
]

-- The same where only the answers of the panel matter: `accepts` says whether it takes a request.
unfoldable pub flush_user_traffic :
    Option (List UserTraffic) → (Body → Bool) → List UserTraffic → List UserTraffic × Flushed
flush_user_traffic slice accepts pending =
    (post_traffic {0} slice (λ body panel. (panel, accepts body)) pending tt).0
