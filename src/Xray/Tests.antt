-- ===== src/Xray/Tests.antt =====
-- A node with a known user, one that is gone, and traffic that was kept apart.
use v2bx_outbound.Base.{ℕ, List, [], ◌∷◌, ◌≡◌, ◌≢◌, arith, true, ◌<◌, ◌+◌, int_half, some, refl}
use v2bx_outbound.Base.{
  String, ◌==◌, eq_iff, Bool, false, not, ◌&&◌, ◌||◌, Option, ap, if◌then◌else◌,
}
use v2bx_outbound.Panel.{user_tag}
use v2bx_outbound.Xray.Users.Build.{AddUsersParams, User, build_users, build_trojan_user}
use v2bx_outbound.Xray.Users.{
  UserManager, Server, to_memory_users, install_users, remove_installed, add_users,
}
use v2bx_outbound.Xray.Users.Atomic.{elem, is_some, is_one, is_allowed, tags_of, add_users-installs}
use v2bx_outbound.Base.Map.{lookup, insert, delete, string_key, IsMap}
use v2bx_outbound.Panel.{UserTraffic}
use v2bx_outbound.Counter.{TrafficCounter, TrafficStorage}
use v2bx_outbound.Node.Traffic.Flush.{both_sums}
use v2bx_outbound.Xray.{Xray, read_counters, get_user_traffic_slice}
use v2bx_outbound.Xray.Slice.{held, get_user_traffic_slice_conserves}

abbrev counters : TrafficCounter
counters =
    ("n|a", record { up_counter = 50; down_counter = 60 })
    ∷ ("n|gone", record { up_counter = 5; down_counter = 6 })
    ∷ []

abbrev core : Xray
core = record {
  uid_map = ("n|a", 1) ∷ [];
  counter =
      (
        "n",
        ("n|a", record { up_counter = 50; down_counter = 60 })
            ∷ ("n|gone", record { up_counter = 5; down_counter = 6 })
            ∷ [],
      )
      ∷ [];
  retired_traffic = ("n", record { uid = 1; upload = 1; download = 2 } ∷ []) ∷ [];
  node_report_min_traffic_bytes = ("n", 10) ∷ [];
}

abbrev expected : List UserTraffic
expected =
    record { uid = 1; upload = 1; download = 2 }
    ∷ record { uid = 1; upload = 50; download = 60 }
    ∷ []

all_read : (get_user_traffic_slice "n" true core).1 ≡ expected
unfolding get_user_traffic_slice read_counters lookup insert delete
all_read = refl

one_known : ◌≢◌ {A = ℕ} 1 0
one_known = ground arith

get_user_traffic_slice_conserves_example :
    let read = get_user_traffic_slice "n" true core in
    both_sums 1 (held "n" read.0) read.1 ≡ (51, 62)
unfolding lookup
get_user_traffic_slice_conserves_example = get_user_traffic_slice_conserves 1 "n" core one_known

counters_known : lookup "n" core.counter ≡ some counters
unfolding lookup
counters_known = refl

counters-IsMap : IsMap counters
unfolding lookup
counters-IsMap = (refl, (refl, tt))

small_counts :
    (s : TrafficStorage) → lookup "n|a" counters ≡ some s → s.up_counter + s.down_counter < int_half
unfolding lookup
small_counts s e = ground (arith, e)

-- A user manager that is the list of its emails, and compares them as they are.
abbrev all_but : String → List String → List String
all_but e [] = []
all_but e (x ∷ m) = let rest = all_but e m in if x == e then rest else x ∷ rest

abbrev add_email : User → List String → List String × Bool
add_email u m = if elem u.email m then (m, false) else (u.email ∷ m, true)

abbrev memory_user : User → Option User
memory_user u = some u

abbrev same_text : String → String
same_text e = e

elem-all_but :
    (x : String) (m : List String) (e : String) → elem e (all_but x m) ≡ (not (x == e) && elem e m)
elem-all_but x [] e = ground arith
elem-all_but x (y ∷ m) e = ground (arith, elem-all_but x m e, eq_iff y x, eq_iff y e, eq_iff x e)

add_email-refuses : (u : User) (m : List String) → (add_email u m).1 ≡ true → elem u.email m ≡ false
add_email-refuses u m ok = ground (arith, ok)

add_email-adds :
    (u : User) (m : List String) (e : String)
    → elem e (add_email u m).0 ≡ ((add_email u m).1 && u.email == e || elem e m)
add_email-adds u m e = ground (arith, eq_iff u.email e)

memory_user-email : (u v : User) → memory_user u ≡ some v → v.email ≡ u.email
memory_user-email u v e = ground (arith, e)

abbrev manager : UserManager User (List String)
manager = record {
  email = λ u. u.email;
  key = same_text;
  to_memory_user = memory_user;
  get_user = elem;
  add_user = add_email;
  remove_user = λ e m. (all_but e m, true);
  get_user-key = λ a b m same. ap (λ k. elem k m) same;
  to_memory_user-email = memory_user-email;
  add_user-refuses = add_email-refuses;
  add_user-adds = add_email-adds;
  remove_user-removes = elem-all_but;
}

abbrev params : AddUsersParams
params = record {
  tag = "n";
  users =
      record { id = 1; uuid = "a"; speed_limit = 0; device_limit = 0 }
      ∷ record { id = 2; uuid = "b"; speed_limit = 0; device_limit = 0 }
      ∷ [];
  kind = "trojan";
  flow = "";
  cipher = "";
  server_key = "";
}

abbrev server : Server
server = record { uid_map = []; link_managers = []; allowed_users = [] }

abbrev encode : ℕ → String → String
encode n s = s

-- The second user is there already: the first is taken out again.
rolled_back :
    (add_users manager same_text encode true params (server, "n|b" ∷ [])).0.1 ≡ ("n|b" ∷ [])
unfolding add_users build_users build_trojan_user to_memory_users install_users remove_installed
    user_tag
rolled_back = refl

add_users-installs_example :
    let r = add_users manager same_text encode true params (server, "n|b" ∷ []) in
    (elem "n|a" r.0.1
      ≡ (is_some r.1 && is_one manager "n|a" (tags_of params) || elem "n|a" ("n|b" ∷ [])))
    × (is_allowed "n|a" r.0.0
        ≡ (is_some r.1 && elem "n|a" (tags_of params) || is_allowed "n|a" server))
add_users-installs_example =
    add_users-installs manager same_text encode true params server ("n|b" ∷ []) "n|a"
