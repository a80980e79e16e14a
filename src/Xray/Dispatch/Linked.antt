-- ===== src/Xray/Dispatch/Linked.antt =====
-- Who gets a link.
use v2bx_outbound.Base.{
  ℕ, String, ◌==◌, eqb_iff, Bool, false, not, ◌&&◌, Option, none, some, ◌≡◌, inl, inr, arith, ap,
  ◌∙◌, if◌then◌else◌, Option-cases,
}
use v2bx_outbound.Base.Text.{trim_prefix}
use v2bx_outbound.Limiter.{Limiter}
use v2bx_outbound.Limiter.Check.{check_limit}
use v2bx_outbound.Limiter.Check.Refusal.{must_refuse, check_limit-refuses}
use v2bx_outbound.Limiter.Registry.{get_limiter, deref}
use v2bx_outbound.Xray.Links.{
  System, link_manager, add_link, look_again, close_all, compare_and_delete,
}
use v2bx_outbound.Xray.Links.Invariant.{is_none}
use v2bx_outbound.Xray.Dispatch.{
  Dispatcher, Outcome, limited, revoked, linked, manager_got, add_user_link, dispatch_user,
  get_link,
}

-- The link is open, and no CloseAll has taken it.
abbrev pub is_live : ℕ → System → Bool
is_live link s = not (is_none (s.open_link link)) && not (s.closing link)

-- How a connection ends that the limiter refuses or not, of a user that is allowed or not.
abbrev pub outcome_of : {B : Type 0} → Bool → Bool → Option B → Outcome B
outcome_of refused allowed bucket =
    if refused then limited else if allowed then linked bucket else revoked

is_live-look_again :
    (link k : ℕ) (s : System)
    → s.open_link link ≡ some k
    → s.closing link ≡ false
    → is_live link (look_again link k s) ≡ s.allowed (s.owner k)
unfolding look_again close_all compare_and_delete
is_live-look_again link k s is_open not_closing = ground (arith, eqb_iff k k, is_open, not_closing)

-- The manager that a dispatch gets takes links, and is that of the email.
link_manager_lem :
    (link : ℕ) (email : String) (s : System)
    → ((m : ℕ) → s.manager_of email ≡ some m → (s.closed m ≡ false) × (s.owner m ≡ email))
    → let found = link_manager link email s in
      let lm = manager_got link found in
      (found.closed lm ≡ false)
      × (found.owner lm ≡ email)
      × (found.closing ≡ s.closing)
      × (found.allowed ≡ s.allowed)
unfolding link_manager
link_manager_lem link email s open_manager = elim (Option-cases (s.manager_of email)) [
  | inl e ↦
      rw (e, link_manager)
        (ground (arith, eqb_iff link link, eqb_iff s.next_manager s.next_manager))
  | inr (m, e) ↦ rw (e, link_manager) (ground (arith, eqb_iff link link, open_manager m e))
]

links_after :
    (link : ℕ) (email : String) (s : System)
    → s.closing link ≡ false
    → ((m : ℕ) → s.manager_of email ≡ some m → (s.closed m ≡ false) × (s.owner m ≡ email))
    → let found = link_manager link email s in
      let lm = manager_got link found in
      is_live link (look_again link lm (add_link link lm found)) ≡ s.allowed email
unfolding add_link
links_after link email s not_closing open_manager =
    let found = link_manager link email s in
    let lm = manager_got link found in
    let got = link_manager_lem link email s open_manager in
    let looked =
      is_live-look_again link lm (add_link link lm found) (ground (arith, got, eqb_iff link link))
        (ground (arith, got, not_closing)) in
    looked ∙ (ap (λ f. f (found.owner lm)) got.3 ∙ ap s.allowed got.1)

-- A connection of a user at a node with a limiter gets a link exactly if CheckLimit does not refuse it
-- and the user is allowed; the link is then limited by the bucket of CheckLimit, and otherwise none is
-- left open. The user's link manager takes links, and the link is a new one.
pub get_link-serves :
    {B R : Type 0} (new_bucket : ℕ → B) (link : ℕ) (email tag ip : String) (now : ℕ)
    (is_tcp no_ss_udp : Bool) (d : Dispatcher B R) (ref : ℕ) (l : Limiter B R)
    → (email == "") ≡ false
    → get_limiter tag d.limiters ≡ some ref
    → deref ref d.limiters ≡ some l
    → d.links.open_link link ≡ none
    → d.links.closing link ≡ false
    → ((m : ℕ)
        → d.links.manager_of email ≡ some m
        → (d.links.closed m ≡ false) × (d.links.owner m ≡ email))
    → let r = get_link new_bucket link email tag ip now is_tcp no_ss_udp d in
      let checked = check_limit new_bucket email ip is_tcp no_ss_udp now l in
      let refused = must_refuse email (trim_prefix "::ffff:" ip) no_ss_udp l in
      (r.1 ≡ outcome_of refused (d.links.allowed email) checked.1)
      × (is_live link r.0.links ≡ (not refused && d.links.allowed email))
unfolding get_link dispatch_user add_user_link
get_link-serves new_bucket link email tag ip now is_tcp no_ss_udp d ref l named entry found fresh
      not_closing open_manager =
    let checked = check_limit new_bucket email ip is_tcp no_ss_udp now l in
    let refuses = check_limit-refuses new_bucket email ip is_tcp no_ss_udp now l in
    let after = links_after link email d.links not_closing open_manager in
    rw (named, entry, get_link, dispatch_user, found, ← refuses)
      (ground (arith, after, fresh, not_closing))
