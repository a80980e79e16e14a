-- ===== src/Node/Controller/Monitor/Users.antt =====
-- A round of nodeInfoMonitor in which the node is as before, and the state in which a round starts.
use v2bx_outbound.Base.{
  ℕ, ◌<◌, String, Bool, not, ◌&&◌, Option, none, some, List, [], ◌∷◌, ◌≡◌, inl, inr, ◌∙◌, arith,
  if◌then◌else◌, eqb_iff, Bool-cases,
}
use v2bx_outbound.Base.Map.{lookup-insert, string_key, int_key}
use v2bx_outbound.Panel.{UserInfo}
use v2bx_outbound.Panel.UserList.{IsUserList}
use v2bx_outbound.Limiter.{Limiter}
use v2bx_outbound.Limiter.Users.{update_user, store_users, remove_users}
use v2bx_outbound.Limiter.Registry.{Limiters, get_limiter, deref, assign}
use v2bx_outbound.Node.Users.{compare_user_list}
use v2bx_outbound.Node.Users.Sync.{Follows, update_user-Follows}
use v2bx_outbound.Node.Controller.{Core, Controller}
use v2bx_outbound.Node.Controller.Replace.{call}
use v2bx_outbound.Node.Controller.Monitor.{
  is_empty, change, set_alive, finish_users, update_users, call_unless,
}

-- The reference is to a limiter that follows the users under the tag, and no later limiter can take
-- its place in the heap.
abbrev pub IsLimited : {B R : Type 0} → String → ℕ → List UserInfo → Limiters B R → Type 0
IsLimited {B} {R} tag ref users t =
    (get_limiter tag t ≡ some ref)
    × (ref < t.next)
    × ((l : Limiter B R) × (deref ref t ≡ some l) × Follows tag users l)

-- The controller's limiter stands under its tag and follows its users, a list as the panel sends it.
abbrev pub IsReady : {S B R : Type 0} → ℕ → Controller S B R → Type 0
IsReady n c = IsLimited c.tag c.limiter c.user_list c.limiters × IsUserList n c.user_list

pub change_known :
    {B R : Type 0} (f : Limiter B R → Limiter B R) (ref : ℕ) (t : Limiters B R) (l : Limiter B R)
    → deref ref t ≡ some l
    → change f ref t ≡ assign ref (f l) t
unfolding change
change_known f ref t l found = rw (found, change)

pub assign-IsLimited :
    {B R : Type 0} (tag : String) (ref : ℕ) (users : List UserInfo) (t : Limiters B R)
    (l : Limiter B R)
    → get_limiter tag t ≡ some ref
    → ref < t.next
    → Follows tag users l
    → IsLimited tag ref users (assign ref l t)
unfolding assign deref get_limiter
assign-IsLimited tag ref users t l entry older follows =
    (entry, older, (l, ground (arith, lookup-insert ref ref l t.heap, eqb_iff ref ref), follows))

-- A change of the limiter in use that takes it from one list to another.
change-IsLimited :
    {B R : Type 0} (f : Limiter B R → Limiter B R) (tag : String) (ref : ℕ)
    (old new : List UserInfo) (t : Limiters B R)
    → ((l : Limiter B R) → Follows tag old l → Follows tag new (f l))
    → IsLimited tag ref old t
    → IsLimited tag ref new (change f ref t)
change-IsLimited f tag ref old new t step (entry, older, (l, found, follows)) =
    rw (change_known f ref t l found)
      (assign-IsLimited tag ref new t (f l) entry older (step l follows))

pub set_alive-IsLimited :
    {S B R : Type 0} (alive : Option (List (ℕ × ℕ))) (c : Controller S B R) (users : List UserInfo)
    → IsLimited c.tag c.limiter users c.limiters
    → let c' = set_alive alive c in IsLimited c'.tag c'.limiter users c'.limiters
unfolding set_alive
set_alive-IsLimited none c users h = h
set_alive-IsLimited (some alive) c users h =
    change-IsLimited (λ l. record l { alive_list = alive }) c.tag c.limiter users users c.limiters
      (λ l follows. follows) h

-- The second half of a round in which the users changed, or not.
update_changed :
    {B R : Type 0} (tag : String) (ref : ℕ) (old new added deleted : List UserInfo)
    (t : Limiters B R)
    → ((l : Limiter B R) → Follows tag old l → Follows tag new (update_user tag added deleted l))
    → IsLimited tag ref old t
    → IsLimited tag ref new (
        if not (is_empty added && is_empty deleted)
        then change (update_user tag added deleted) ref t
        else t)
unfolding update_user store_users remove_users
update_changed tag ref old new [] [] t step (entry, older, (l, found, follows)) =
    (entry, older, (l, found, step l follows))
update_changed tag ref old new [] (u ∷ deleted) t step h =
    change-IsLimited (update_user tag [] (u ∷ deleted)) tag ref old new t step h
update_changed tag ref old new (u ∷ added) deleted t step h =
    change-IsLimited (update_user tag (u ∷ added) deleted) tag ref old new t step h

module _ {S B R : Type 0} (core : Core S) (compile : String → Option R)
    (accepts : List (ℕ × (ℕ × ℕ)) → Bool) (cert_ready : Bool) (n : ℕ) where
  finish_users-IsReady :
      (new : List UserInfo) (c c' : Controller S B R)
      → c'.tag ≡ c.tag
      → c'.limiter ≡ c.limiter
      → c'.limiters ≡ c.limiters
      → IsReady n c
      → IsUserList n new
      → let changes = compare_user_list c.user_list new in
        IsReady n (finish_users new changes.0 changes.1 c')
  unfolding finish_users
  finish_users-IsReady new c c' same_tag same_ref same h k =
      let changes = compare_user_list c.user_list new in
      rw (same_tag, same_ref, same)
        (
          update_changed c.tag c.limiter c.user_list new changes.1 changes.0 c.limiters
              (λ l follows. update_user-Follows n c.tag c.user_list new l h.1 k follows) h.0,
          k,
        )

  abbrev pub Unmoved : Controller S B R → Controller S B R → Type 0
  Unmoved c c' =
      (c'.tag ≡ c.tag)
      × (c'.limiter ≡ c.limiter)
      × (c'.limiters ≡ c.limiters)
      × (c'.user_list ≡ c.user_list)

  -- A call of the core changes nothing here, and may be left out.
  pub call-IsReady :
      (skip : Bool) (f : S → S × Bool) (c : Controller S B R)
      → let c' = (call_unless core compile accepts cert_ready skip f c).0 in Unmoved c c'
  unfolding call
  call-IsReady skip f c = ground arith

  pub moved : (c c' : Controller S B R) → Unmoved c c' → IsReady n c → IsReady n c'
  moved c c' (tag, ref, limiters, users) h = rw (tag, ref, limiters, users) h

  pub update_users-IsReady :
      (new : List UserInfo) (c : Controller S B R)
      → IsReady n c
      → IsUserList n new
      → IsReady n (update_users core compile accepts cert_ready (some new) c)
  unfolding update_users
  update_users-IsReady new c h k =
      let changes = compare_user_list c.user_list new in
      let deleted =
        call_unless core compile accepts cert_ready (is_empty changes.0)
          (core.del_users changes.0 c.tag c.info) c in
      let added =
        call_unless core compile accepts cert_ready (is_empty changes.1)
          (core.add_users c.tag c.info changes.1) deleted.0 in
      let first = call-IsReady (is_empty changes.0) (core.del_users changes.0 c.tag c.info) c in
      let second =
        call-IsReady (is_empty changes.1) (core.add_users c.tag c.info changes.1) deleted.0 in
      let both : Unmoved c added.0 =
        (second.0 ∙ first.0, second.1 ∙ first.1, second.2 ∙ first.2, second.3 ∙ first.3) in
      elim (Bool-cases deleted.1) [
        | inl e ↦ elim (Bool-cases added.1) [
          | inl f ↦ rw (e, f) (finish_users-IsReady new c added.0 both.0 both.1 both.2 h k)
          | inr f ↦ rw (e, f) (moved c added.0 both h)
        ]
        | inr e ↦ rw e (moved c deleted.0 first h)
      ]
