-- ===== src/Xray/Links.antt =====
-- Who may keep a link open: core/xray/app/dispatcher/linkmanager.go, getLink and DispatchLink of
-- core/xray/app/dispatcher/default.go, and the part of AddUsers, DelUsers and retireNodeUsers of
-- core/xray/user.go that allows and revokes, in steps that interleave. These three hold one lock, so
-- that one of them is at work at a time; a dispatch takes no lock. Links and link managers are numbers.
pub mod Invariant
pub mod Dispatches
pub mod Revocations
pub mod Retirements
pub mod Safety
mod Tests
use v2bx_outbound.Base.{
  ℕ, ◌+◌, String, ◌==◌, Bool, true, false, not, ◌&&◌, Option, none, some, ◌≡◌, eqb, if◌then◌else◌,
}

-- What AddUsers, DelUsers or retireNodeUsers is doing under the lock.
pub data Work : Type 0 where
  idle : Work
  disallowed : (email : String) → Work  -- deleted from AllowedUsers
  loaded : (email : String) (manager : ℕ) → Work  -- and the link manager is loaded
  closed_all : (email : String) → Work  -- and its links are closed
  cleared : (email : String) → Work  -- AddUsers has deleted the old link manager
  retiring : (email : String) → Work  -- retireNodeUsers has deleted the user from AllowedUsers
  unloaded : (email : String) (manager : ℕ) → Work  -- and has taken the link manager out

pub record System : Type 0 where
  pub allowed : String → Bool
  pub manager_of : String → Option ℕ  -- LinkManagers
  pub owner : ℕ → String  -- the email that a link manager was made for
  pub closed : ℕ → Bool
  pub next_manager : ℕ
  pub open_link : ℕ → Option ℕ  -- the manager of an open link
  pub waiting : ℕ → Option ℕ  -- a dispatch has its manager, and has not added the link
  pub added : ℕ → Option ℕ  -- it has, and has not looked the user up again
  pub closing : ℕ → Bool  -- CloseAll took the link, and has not closed it yet
  pub work : Work

abbrev pub at_email : {A : Type 0} → String → A → (String → A) → String → A
at_email email a f e = if email == e then a else f e

abbrev pub at_number : {A : Type 0} → ℕ → A → (ℕ → A) → ℕ → A
at_number n a f k = if eqb n k then a else f k

unfoldable pub start : System
start = record {
  allowed = λ e. false;
  manager_of = λ e. none;
  owner = λ m. "";
  closed = λ m. false;
  next_manager = 0;
  open_link = λ c. none;
  waiting = λ c. none;
  added = λ c. none;
  closing = λ c. false;
  work = idle;
}

-- `d.linkManager(user.Email)`, which stores a new link manager if there is none.
unfoldable pub link_manager : ℕ → String → System → System
link_manager link email s = elim (s.manager_of email) [
  | some m ↦ record s { waiting = at_number link (some m) s.waiting }
  | none ↦ record s {
    manager_of = at_email email (some s.next_manager) s.manager_of;
    owner = at_number s.next_manager email s.owner;
    closed = at_number s.next_manager false s.closed;
    next_manager = s.next_manager + 1;
    waiting = at_number link (some s.next_manager) s.waiting;
  }
]

-- AddLink: a closed manager closes the link at once.
unfoldable pub add_link : ℕ → ℕ → System → System
add_link link m s = record s {
  waiting = at_number link none s.waiting;
  added = at_number link (some m) s.added;
  open_link = if s.closed m then s.open_link else at_number link (some m) s.open_link;
}

abbrev pub is_of : ℕ → Option ℕ → Bool
is_of m none = false
is_of m (some k) = eqb k m

-- CloseAll takes the links of the manager; each is closed in a step of its own.
unfoldable pub close_all : ℕ → System → System
close_all m s = record s {
  closed = at_number m true s.closed;
  closing = λ c. if is_of m (s.open_link c) then true else s.closing c;
}

-- CompareAndDelete
unfoldable pub compare_and_delete : String → ℕ → System → System
compare_and_delete email m s =
    if is_of m (s.manager_of email)
    then record s { manager_of = at_email email none s.manager_of }
    else s

-- The end of a dispatch: `if _, allowed := d.AllowedUsers.Load(user.Email); !allowed`.
unfoldable pub look_again : ℕ → ℕ → System → System
look_again link m s =
    let looked = record s { added = at_number link none s.added } in
    let revoked = compare_and_delete (s.owner m) m (close_all m looked) in
    if s.allowed (s.owner m) then looked else revoked

-- A link is closed, by CloseAll or by itself.
unfoldable pub close_link : ℕ → System → System
close_link link s = record s {
  open_link = at_number link none s.open_link;
  closing = at_number link false s.closing;
}

-- DelUsers: `c.dispatcher.AllowedUsers.Delete(user)`
unfoldable pub disallow : String → System → System
disallow email s = record s { allowed = at_email email false s.allowed; work = disallowed email }

-- `c.dispatcher.LinkManagers.Load(user)`
unfoldable pub load_manager : String → System → System
load_manager email s = elim (s.manager_of email) [
  | some m ↦ record s { work = loaded email m }
  | none ↦ record s { work = closed_all email }
]

-- `lm.CloseAll()`
unfoldable pub close_loaded : String → ℕ → System → System
close_loaded email m s = record (close_all m s) { work = closed_all email }

-- `c.dispatcher.LinkManagers.Delete(user)`
unfoldable pub forget_manager : String → System → System
forget_manager email s = record s { manager_of = at_email email none s.manager_of; work = idle }

-- AddUsers: `c.dispatcher.LinkManagers.Delete(email)`
unfoldable pub clear_manager : String → System → System
clear_manager email s = record s {
  manager_of = at_email email none s.manager_of;
  work = cleared email;
}

-- `c.dispatcher.AllowedUsers.Store(email, true)`
unfoldable pub allow : String → System → System
allow email s = record s { allowed = at_email email true s.allowed; work = idle }

-- retireNodeUsers, for each email of the node: `c.dispatcher.AllowedUsers.Delete(email)`
unfoldable pub retire : String → System → System
retire email s = record s { allowed = at_email email false s.allowed; work = retiring email }

-- `c.dispatcher.LinkManagers.LoadAndDelete(email)`
unfoldable pub unload_manager : String → System → System
unload_manager email s = elim (s.manager_of email) [
  | some m ↦ record s { manager_of = at_email email none s.manager_of; work = unloaded email m }
  | none ↦ record s { work = idle }
]

-- `v.(*dispatcher.LinkManager).CloseAll()`
unfoldable pub close_unloaded : ℕ → System → System
close_unloaded m s = record (close_all m s) { work = idle }

-- What may happen. AddUsers adds users that are not allowed yet: the library refuses those it has.
pub data Step (s : System) : System → Type 0 where
  dispatches :
      (link : ℕ) (email : String)
      → s.open_link link ≡ none
      → s.waiting link ≡ none
      → s.added link ≡ none
      → s.closing link ≡ false
      → Step s (link_manager link email s)
  adds : (link m : ℕ) → s.waiting link ≡ some m → Step s (add_link link m s)
  looks_again : (link m : ℕ) → s.added link ≡ some m → Step s (look_again link m s)
  closes : (link : ℕ) → Step s (close_link link s)
  disallows : (email : String) → s.work ≡ idle → Step s (disallow email s)
  loads : (email : String) → s.work ≡ disallowed email → Step s (load_manager email s)
  closes_loaded :
      (email : String) (m : ℕ) → s.work ≡ loaded email m → Step s (close_loaded email m s)
  forgets : (email : String) → s.work ≡ closed_all email → Step s (forget_manager email s)
  clears :
      (email : String) → s.work ≡ idle → s.allowed email ≡ false → Step s (clear_manager email s)
  allows : (email : String) → s.work ≡ cleared email → Step s (allow email s)
  retires : (email : String) → s.work ≡ idle → Step s (retire email s)
  unloads : (email : String) → s.work ≡ retiring email → Step s (unload_manager email s)
  closes_unloaded :
      (email : String) (m : ℕ) → s.work ≡ unloaded email m → Step s (close_unloaded m s)

pub data Reach : System → Type 0 where
  here : Reach start
  next : {s t : System} → Reach s → Step s t → Reach t
