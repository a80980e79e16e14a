-- ===== src/Node/Devices/Report.antt =====
-- What the report of the devices says of one user.
use mathlib.Core.List.{append-nil, append_assoc}
use v2bx_outbound.Base.{
  ℕ, String, Bool, true, false, none, some, List, [], ◌∷◌, ◌++◌, ◌≡◌, refl, arith, eqb, eqb_iff,
  ◌||◌, ◌&&◌, add_int, mul_int, slt, if◌then◌else◌,
}
use v2bx_outbound.Base.Map.{lookup, insert, value, int_key, lookup-insert}
use v2bx_outbound.Panel.{UserTraffic, OnlineUser}
use v2bx_outbound.Node.Devices.{nocount_uid, counted, device_data, online_report}

-- Some traffic record of the user is below the minimum.
abbrev pub is_idle : ℕ → ℕ → List UserTraffic → Bool
is_idle min_traffic uid [] = false
is_idle min_traffic uid (traffic ∷ rest) =
    (eqb traffic.uid uid
      && slt (add_int traffic.upload traffic.download) (mul_int min_traffic 1000))
    || is_idle min_traffic uid rest

-- The addresses of one user, in order.
abbrev pub addresses : ℕ → List OnlineUser → List String
addresses uid [] = []
addresses uid (online ∷ rest) =
    if eqb online.uid uid then online.ip ∷ addresses uid rest else addresses uid rest

abbrev has : ℕ → List (ℕ × Unit {0}) → Bool
has uid found = elim (lookup uid found) [ none ↦ false | some x ↦ true ]

has-nocount_uid :
    (min_traffic uid : ℕ) (traffic : List UserTraffic) (found : List (ℕ × Unit {0}))
    → has uid (nocount_uid min_traffic traffic found)
      ≡ (is_idle min_traffic uid traffic || has uid found)
unfolding nocount_uid
has-nocount_uid min_traffic uid [] found = refl
has-nocount_uid min_traffic uid (t ∷ traffic) found = ground (
  arith,
  has-nocount_uid min_traffic uid traffic found,
  has-nocount_uid min_traffic uid traffic (insert t.uid tt found),
  lookup-insert t.uid uid tt found,
)

addresses-counted :
    (uid : ℕ) (nocount : List (ℕ × Unit {0})) (online : List OnlineUser)
    → addresses uid (counted nocount online)
      ≡ (if has uid nocount then [] else addresses uid online)
unfolding counted
addresses-counted uid nocount [] = ground arith
addresses-counted uid nocount (o ∷ online) =
    ground (arith, addresses-counted uid nocount online, eqb_iff o.uid uid)

lookup-device_data :
    (uid : ℕ) (online : List OnlineUser) (found : List (ℕ × List String))
    → value (lookup uid (device_data online found)) []
      ≡ value (lookup uid found) [] ++ addresses uid online
unfolding device_data
lookup-device_data uid [] found = rw append-nil
lookup-device_data uid (o ∷ online) found = ground (
  arith,
  lookup-device_data uid online (insert o.uid (value (lookup o.uid found) [] ++ o.ip ∷ []) found),
  lookup-insert o.uid uid (value (lookup o.uid found) [] ++ o.ip ∷ []) found,
  append_assoc (value (lookup uid found) []) (o.ip ∷ []) (addresses uid online),
  eqb_iff o.uid uid,
)

-- The panel is told of exactly the addresses that are online for a user, in order, unless a traffic
-- record of the user in this round is below the minimum; then of none. A user without a record in
-- this round is not held back.
pub online_report_lem :
    (min_traffic uid : ℕ) (traffic : List UserTraffic) (online : List OnlineUser)
    (body : List (ℕ × List String))
    → online_report min_traffic traffic online ≡ some body
    → value (lookup uid body) []
      ≡ (if is_idle min_traffic uid traffic then [] else addresses uid online)
unfolding online_report lookup
online_report_lem min_traffic uid traffic [] body h = ground arith
online_report_lem min_traffic uid traffic (o ∷ online) body h =
    let nocount = nocount_uid min_traffic traffic [] in
    ground (
      arith,
      lookup-device_data uid (counted nocount (o ∷ online)) [],
      addresses-counted uid nocount (o ∷ online),
      has-nocount_uid min_traffic uid traffic [],
    )
