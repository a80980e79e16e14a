-- ===== src/Node/Devices.antt =====
-- The second half of reportUserTrafficTask (node/user.go): which devices the panel is told of.
pub mod Report
use v2bx_outbound.Base.{
  ℕ, String, Bool, true, false, Option, none, some, List, [], ◌∷◌, ◌++◌, add_int, mul_int, slt,
  if◌then◌else◌,
}
use v2bx_outbound.Base.Map.{lookup, insert, value, int_key}
use v2bx_outbound.Panel.{UserTraffic, OnlineUser}

-- The users whose traffic is below the minimum. A set is a map to the one value of `Unit`.
unfoldable pub nocount_uid : ℕ → List UserTraffic → List (ℕ × Unit {0}) → List (ℕ × Unit {0})
nocount_uid min_traffic [] found = found
nocount_uid min_traffic (traffic ∷ rest) found =
    let total = add_int traffic.upload traffic.download in
    nocount_uid min_traffic rest
      (if slt total (mul_int min_traffic 1000) then insert traffic.uid tt found else found)

unfoldable pub counted : List (ℕ × Unit {0}) → List OnlineUser → List OnlineUser
counted nocount [] = []
counted nocount (online ∷ rest) =
    let kept = counted nocount rest in
    elim (lookup online.uid nocount) [ none ↦ online ∷ kept | some found ↦ kept ]

-- `data[UID] = append(data[UID], IP)`
unfoldable pub device_data : List OnlineUser → List (ℕ × List String) → List (ℕ × List String)
device_data [] found = found
device_data (online ∷ rest) found =
    device_data rest
      (insert online.uid (value (lookup online.uid found) [] ++ online.ip ∷ []) found)

-- The body of ReportNodeOnlineUsers; there is no request where no device is online.
unfoldable pub online_report :
    ℕ → List UserTraffic → List OnlineUser → Option (List (ℕ × List String))
online_report min_traffic traffic [] = none
online_report min_traffic traffic (online ∷ rest) =
    some (device_data (counted (nocount_uid min_traffic traffic []) (online ∷ rest)) [])
