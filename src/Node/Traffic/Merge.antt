-- ===== src/Node/Traffic/Merge.antt =====
-- Merging keeps each user's totals, and reports them once.
use v2bx_outbound.Base.{
  ℕ, ◌+◌, ◌%◌, ◌<◌, Bool, true, false, none, some, List, [], ◌∷◌, ◌≡◌, refl, arith, if◌then◌else◌,
  add_int, int_mod, eqb, eqb_iff, ◌||◌,
}
use v2bx_outbound.Base.Map.{lookup, insert, value, int_key, lookup-insert, IsMap, insert-IsMap}
use v2bx_outbound.Panel.{UserTraffic}
use v2bx_outbound.Node.Traffic.{
  no_traffic, merge_item, merge_batch, merged_values, merge_user_traffic, report_data,
}

-- The map has the user.
abbrev pub has {κ} : {V : Type κ} → ℕ → List (ℕ × V) → Bool
has k m = elim (lookup k m) [ none ↦ false | some v ↦ true ]

-- The traffic of one user in a list, wrapping as `int64` does.
abbrev pub sum_upload : ℕ → List UserTraffic → ℕ
sum_upload uid [] = 0
sum_upload uid (item ∷ traffic) =
    if eqb item.uid uid
    then add_int item.upload (sum_upload uid traffic)
    else sum_upload uid traffic

abbrev pub sum_download : ℕ → List UserTraffic → ℕ
sum_download uid [] = 0
sum_download uid (item ∷ traffic) =
    if eqb item.uid uid
    then add_int item.download (sum_download uid traffic)
    else sum_download uid traffic

abbrev pub occurs : ℕ → List UserTraffic → Bool
occurs uid [] = false
occurs uid (item ∷ traffic) = eqb item.uid uid || occurs uid traffic

-- Every value stands under its own user id, and holds words.
abbrev IsKeyed : List (ℕ × UserTraffic) → Type 0
IsKeyed [] = Unit
IsKeyed ((k, item) ∷ m) =
    (item.uid ≡ k) × (item.upload < int_mod) × (item.download < int_mod) × IsKeyed m

insert-IsKeyed :
    (k : ℕ) (t : UserTraffic) (m : List (ℕ × UserTraffic))
    → t.uid ≡ k
    → t.upload < int_mod
    → t.download < int_mod
    → IsKeyed m
    → IsKeyed (insert k t m)
unfolding insert
insert-IsKeyed k t [] e u d h = (e, u, d, tt)
insert-IsKeyed k t ((j, s) ∷ m) e u d h = ground (arith, insert-IsKeyed k t m e u d h.3)

-- The maps of mergeUserTraffic.
record IsMerged (m : List (ℕ × UserTraffic)) : Type 0 where
  keyed : IsKeyed m
  distinct : IsMap m

merge_item-IsMerged :
    (item : UserTraffic) (m : List (ℕ × UserTraffic)) → IsMerged m → IsMerged (merge_item item m)
unfolding merge_item
merge_item-IsMerged item m h = record {
  keyed = insert-IsKeyed item.uid _ m refl (omega arith) (omega arith) h.keyed;
  distinct = insert-IsMap item.uid _ m h.distinct;
}

merge_batch-IsMerged :
    (batch : List UserTraffic) (m : List (ℕ × UserTraffic))
    → IsMerged m
    → IsMerged (merge_batch batch m)
unfolding merge_batch
merge_batch-IsMerged [] m h = h
merge_batch-IsMerged (item ∷ batch) m h =
    merge_batch-IsMerged batch (merge_item item m) (merge_item-IsMerged item m h)

-- One item, at one user.
lookup-merge_item :
    (uid : ℕ) (item : UserTraffic) (m : List (ℕ × UserTraffic))
    → let before = value (lookup uid m) no_traffic in
      let after = value (lookup uid (merge_item item m)) no_traffic in
      (after.upload
        ≡ (if eqb item.uid uid then add_int before.upload item.upload else before.upload))
      × (after.download
          ≡ (if eqb item.uid uid then add_int before.download item.download else before.download))
      × (has uid (merge_item item m) ≡ (eqb item.uid uid || has uid m))
unfolding merge_item
lookup-merge_item uid item m =
    let total = value (lookup item.uid m) no_traffic in
    ground (
      arith,
      lookup-insert item.uid uid
          (record {
            uid = item.uid;
            upload = add_int total.upload item.upload;
            download = add_int total.download item.download;
          })
          m,
    )

-- A batch, at one user.
lookup-merge_batch :
    (uid : ℕ) (batch : List UserTraffic) (m : List (ℕ × UserTraffic))
    → let before = value (lookup uid m) no_traffic in
      let after = value (lookup uid (merge_batch batch m)) no_traffic in
      (after.upload % int_mod ≡ (before.upload + sum_upload uid batch) % int_mod)
      × (after.download % int_mod ≡ (before.download + sum_download uid batch) % int_mod)
      × (has uid (merge_batch batch m) ≡ (occurs uid batch || has uid m))
unfolding merge_batch
lookup-merge_batch uid [] m = (omega arith, omega arith, refl)
lookup-merge_batch uid (item ∷ batch) m =
    ground (arith, lookup-merge_item uid item m, lookup-merge_batch uid batch (merge_item item m))

-- The values of a merged map: what one user has in them, and what the panel is told of it.
sum-merged_values :
    (uid : ℕ) (m : List (ℕ × UserTraffic))
    → IsMap m
    → IsKeyed m
    → (sum_upload uid (merged_values m) ≡ (value (lookup uid m) no_traffic).upload)
      × (sum_download uid (merged_values m) ≡ (value (lookup uid m) no_traffic).download)
unfolding merged_values lookup
sum-merged_values uid [] h k = (refl, refl)
sum-merged_values uid ((j, item) ∷ m) h k =
    ground (arith, sum-merged_values uid m h.1 k.3, eqb_iff j uid)

report_data-merged_values :
    (uid : ℕ) (m : List (ℕ × UserTraffic)) (body : List (ℕ × (ℕ × ℕ)))
    → IsMap m
    → IsKeyed m
    → lookup uid (report_data (merged_values m) body)
      ≡ elim (lookup uid m) [ none ↦ lookup uid body | some t ↦ some (t.upload, t.download) ]
unfolding merged_values report_data lookup
report_data-merged_values uid [] body h k = refl
report_data-merged_values uid ((j, item) ∷ m) body h k =
    let entry : ℕ × ℕ = (item.upload, item.download) in
    ground (
      arith,
      report_data-merged_values uid m (insert item.uid entry body) h.1 k.3,
      lookup-insert item.uid uid entry body,
      eqb_iff j uid,
    )

lookup-IsKeyed :
    (uid : ℕ) (m : List (ℕ × UserTraffic))
    → IsKeyed m
    → ((value (lookup uid m) no_traffic).upload < int_mod)
      × ((value (lookup uid m) no_traffic).download < int_mod)
unfolding lookup
lookup-IsKeyed uid [] k = omega arith
lookup-IsKeyed uid ((j, item) ∷ m) k = ground (arith, lookup-IsKeyed uid m k.3)

start-IsMerged : IsMerged []
start-IsMerged = record { keyed = tt; distinct = tt }

module _ (uid : ℕ) (pending next : List UserTraffic) where
  abbrev merged : List (ℕ × UserTraffic)
  merged = merge_batch next (merge_batch pending [])

  merged-IsMerged : IsMerged merged
  merged-IsMerged = merge_batch-IsMerged next _ (merge_batch-IsMerged pending [] start-IsMerged)

  -- Merging neither loses nor invents traffic of any user.
  pub sum-merge_user_traffic :
      (sum_upload uid (merge_user_traffic pending next)
        ≡ add_int (sum_upload uid pending) (sum_upload uid next))
      × (sum_download uid (merge_user_traffic pending next)
          ≡ add_int (sum_download uid pending) (sum_download uid next))
  unfolding merge_user_traffic lookup
  sum-merge_user_traffic = ground (
    arith,
    sum-merged_values uid merged merged-IsMerged.distinct merged-IsMerged.keyed,
    lookup-IsKeyed uid merged merged-IsMerged.keyed,
    lookup-merge_batch uid next (merge_batch pending []),
    lookup-merge_batch uid pending [],
  )

  -- The request body has one entry for each user that occurs, with the sums of both lists.
  pub report_data-merge_user_traffic :
      lookup uid (report_data (merge_user_traffic pending next) []) ≡ (
        if occurs uid next || occurs uid pending
        then some (
          add_int (sum_upload uid pending) (sum_upload uid next),
          add_int (sum_download uid pending) (sum_download uid next),
        )
        else none)
  unfolding merge_user_traffic lookup
  report_data-merge_user_traffic = ground (
    arith,
    report_data-merged_values uid merged [] merged-IsMerged.distinct merged-IsMerged.keyed,
    lookup-IsKeyed uid merged merged-IsMerged.keyed,
    lookup-merge_batch uid next (merge_batch pending []),
    lookup-merge_batch uid pending [],
  )
