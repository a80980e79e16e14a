-- ===== src/Xray/Nodes/Tests.antt =====
-- Handlers in an association list, where the handler 0 does not start; a node that is added, and one
-- whose users are retired.
use v2bx_outbound.Base.{
  ℕ, String, ◌==◌, eq_refl, eqb, Bool, true, false, not, Option, none, some, List, [], ◌∷◌, sym,
  ◌≡◌, ◌≢◌, ◌⊎◌, ◌<◌, ◌+◌, eq_iff, subst, refl, arith, ap, inl, inr, int_half, mul_int,
  if◌then◌else◌, Option-cases, Bool-cases,
}
use v2bx_outbound.Base.Map.{lookup, insert, delete, lookup-insert, lookup-delete, IsMap, string_key}
use v2bx_outbound.Base.Text.{after_prefix}
use v2bx_outbound.Counter.{TrafficStorage, TrafficCounter}
use v2bx_outbound.Xray.{Xray, retain_user_traffic}
use v2bx_outbound.Xray.Slice.{held}
use v2bx_outbound.Xray.Retire.{sums}
use v2bx_outbound.Xray.Nodes.{
  Handlers, has_prefix, add_handler_of, update_dns_config, snapshot_node_state, add_node,
  retire_user, retire_users, retire_node_users, NodeSettings, check_vless, validate_node,
  vision_without_tls,
}
use v2bx_outbound.Xray.Nodes.Rollback.{is_installed, add_node-installs}
use v2bx_outbound.Xray.Nodes.Retired.{retire_node_users_conserves}
use v2bx_outbound.Xray.Nodes.Retired.Counts.{IsCounted, IsOwned}

abbrev Table : Type 0
Table = List (String × ℕ)

abbrev add_entry : String → ℕ → Table → Table × Bool
add_entry tag h m = elim (lookup tag m) [
  | none ↦ (insert tag h m, not (eqb h 0))
  | some old ↦ (m, false)
]

add_entry-gets :
    (tag : String) (h : ℕ) (m : Table)
    → (add_entry tag h m).1 ≡ true
    → lookup tag (add_entry tag h m).0 ≡ some h
add_entry-gets tag h m added = elim (Option-cases (lookup tag m)) [
  | inl e ↦ ground (arith, e, lookup-insert tag tag h m, eq_refl tag)
  | inr (old, e) ↦ ground (arith, e, added)
]

add_entry-fails :
    (tag : String) (h : ℕ) (m : Table)
    → (add_entry tag h m).1 ≡ false
    → lookup tag m ≡ none
    → (lookup tag (add_entry tag h m).0 ≡ some h) ⊎ (lookup tag (add_entry tag h m).0 ≡ none)
add_entry-fails tag h m refused free =
    inl (ground (arith, free, lookup-insert tag tag h m, eq_refl tag))

delete-frees : (tag : String) (m : Table) → lookup tag (delete tag m) ≡ none
delete-frees tag m = ground (arith, lookup-delete tag tag m, eq_refl tag)

abbrev table : Handlers (String × ℕ) Table
table = record {
  create_object = λ c m. some c.1;
  tag_of = λ c. c.0;
  get_handler = λ tag m. lookup tag m;
  add_handler = add_entry;
  remove_handler = λ tag m. (delete tag m, true);
  add_handler-gets = add_entry-gets;
  add_handler-fails = add_entry-fails;
  remove_handler-frees = delete-frees;
}

abbrev empty : Xray
empty = record {
  uid_map = [];
  counter = [];
  retired_traffic = [];
  node_report_min_traffic_bytes = [];
}

abbrev writable : String → Bool
writable bytes = true

abbrev others : Table
others = ("m", 4) ∷ []

tagged : (h : ℕ) (c : String × ℕ) → some ("n", h) ≡ some c → c.0 ≡ "n"
tagged h c e = ap (λ o. elim o as (λ x. String) [ none ↦ "n" | some d ↦ d.0 ]) (sym e)

free_tag : lookup "n" others ≡ none
unfolding lookup
free_tag = refl

-- The outbound's handler does not start, so the inbound's goes.
add_node-installs_example :
    let r =
      add_node table table
        (some (some "new"))
        writable
        (some ("n", 7))
        (some ("n", 0))
        1
        "n"
        (some "old", empty, others, others) in
    (is_installed table "n" r.0.2 ≡ r.1)
    × (is_installed table "n" r.0.3 ≡ r.1)
    × (r.0.1 ≡ (
        if r.1
        then record empty {
          node_report_min_traffic_bytes =
              insert "n" (mul_int 1 1024) empty.node_report_min_traffic_bytes;
        }
        else empty))
    × (r.0.0 ≡ some "new")
add_node-installs_example =
    add_node-installs table table (some (some "new")) writable (some ("n", 7)) (some ("n", 0)) 1 "n"
      (some "old") empty others others (tagged 7) (tagged 0) free_tag free_tag

undone :
    add_node table table
      (some (some "new"))
      writable
      (some ("n", 7))
      (some ("n", 0))
      1
      "n"
      (some "old", empty, others, others)
    ≡ ((some "new", empty, others, others), false)
unfolding add_node update_dns_config add_handler_of lookup insert delete
undone = refl

-- The snapshot that was taken before restores the file.
restored :
    (elim (snapshot_node_state true writable (some "old")) as (λ r. Option String) [
      | none ↦ none
      | some restore ↦ (restore (some "new")).0
    ])
    ≡ some "old"
unfolding snapshot_node_state
restored = refl

installed :
    (add_node table table
      (some none)
      writable
      (some ("n", 7))
      (some ("n", 8))
      1
      "n"
      (some "old", empty, others, others)).1
    ≡ true
unfolding add_node update_dns_config add_handler_of lookup insert delete
installed = refl

abbrev counters : TrafficCounter
counters =
    ("n|a", record { up_counter = 50; down_counter = 60 })
    ∷ ("n|gone", record { up_counter = 5; down_counter = 6 })
    ∷ []

abbrev core : Xray
core = record {
  uid_map = ("m|a", 2) ∷ ("n|a", 1) ∷ [];
  counter = ("n", counters) ∷ [];
  retired_traffic = ("n", record { uid = 1; upload = 1; download = 2 } ∷ []) ∷ [];
  node_report_min_traffic_bytes = ("n", 10) ∷ [];
}

one_known : ◌≢◌ {A = ℕ} 1 0
one_known = ground arith

ids-IsMap : IsMap core.uid_map
unfolding lookup
ids-IsMap = (refl, (refl, tt))

small_counts :
    (k : String) (s : TrafficStorage)
    → lookup k counters ≡ some s
    → s.up_counter + s.down_counter < int_half
unfolding lookup
small_counts k s h = ground (arith, h)

core-IsCounted : IsCounted "n" counters core
unfolding lookup
core-IsCounted = (refl, (refl, (refl, tt)), λ k s h. small_counts k s h)

owned_key : (j k : String) → has_prefix "n|" j ≡ true → (j == k) ≡ true → has_prefix "n|" k ≡ true
unfolding after_prefix
owned_key j k own e = subst (λ i. has_prefix "n|" i ≡ true) ((eq_iff j k).0 e) own

core-IsOwned : IsOwned "n" counters
unfolding lookup after_prefix
core-IsOwned k s h = elim (Bool-cases ("n|a" == k)) [
  | inl e ↦ owned_key "n|a" k refl e
  | inr e ↦ elim (Bool-cases ("n|gone" == k)) [
    | inl e' ↦ owned_key "n|gone" k refl e'
    | inr e' ↦ ground (arith, h, e, e')
  ]
]

retire_node_users_conserves_example : sums 1 (held "n" (retire_node_users "n" core)) ≡ (51, 62)
unfolding lookup
retire_node_users_conserves_example =
    retire_node_users_conserves 1 "n" core counters one_known ids-IsMap core-IsCounted core-IsOwned

-- The user of the other node stays.
retired : (retire_node_users "n" core).uid_map ≡ ("m|a", 2) ∷ []
unfolding retire_node_users retire_users retire_user retain_user_traffic lookup insert delete
    after_prefix
retired = refl

abbrev vless : NodeSettings
vless = record {
  kind = "vless";
  security = 1;
  server_port = some 443;
  flow = "xtls-rprx-vision";
  network = "tcp";
  has_vallss = true;
  has_xray_options = true;
  cert_mode = some "file";
  report_min_traffic = 0;
}

valid : validate_node true true true true vless ≡ none
unfolding validate_node check_vless
valid = refl

without_tls :
    validate_node true true true true (record vless { security = 0 }) ≡ some vision_without_tls
unfolding validate_node check_vless
without_tls = refl
