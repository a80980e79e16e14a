-- ===== src/Limiter/Online.antt =====
-- GetOnlineDevice (limiter/limiter.go): the report of the addresses that are online, and the start
-- of a new period.
pub mod Period
use v2bx_outbound.Base.{ℕ, String, List, [], ◌∷◌, ◌++◌}
use v2bx_outbound.Base.Map.{insert, delete, string_key}
use v2bx_outbound.Panel.{OnlineUser}
use v2bx_outbound.Limiter.{Limiter}

-- The inner range, over the addresses of one user.
unfoldable pub report_ips :
    {B R : Type 0}
    → List (String × ℕ)
    → Limiter B R × List OnlineUser
    → Limiter B R × List OnlineUser
report_ips [] s = s
report_ips ((ip, uid) ∷ ips) (l, online) = report_ips ips (
  record l { old_user_online = insert ip uid l.old_user_online },
  online ++ record { uid = uid; ip = ip } ∷ [],
)

-- The outer range, over the users; each is reset.
unfoldable pub report_users :
    {B R : Type 0}
    → List (String × List (String × ℕ))
    → Limiter B R × List OnlineUser
    → Limiter B R × List OnlineUser
report_users [] s = s
report_users ((taguuid, ips) ∷ users) s =
    let s' = report_ips ips s in
    report_users users (record s'.0 { user_online_ip = delete taguuid s'.0.user_online_ip }, s'.1)

unfoldable pub get_online_device : {B R : Type 0} → Limiter B R → Limiter B R × List OnlineUser
get_online_device l = report_users l.user_online_ip (record l { old_user_online = [] }, [])
