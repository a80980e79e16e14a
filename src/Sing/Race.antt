-- ===== src/Sing/Race.antt =====
-- The hook of core/sing/connections.go and hook.go while calls interleave, for the users of managed
-- nodes. A routing stores its connection in one step and looks the user up again in another; a
-- revocation deletes the user in one step, starts to range over the connections in another, and
-- closes each that it saw in a step of its own. A new connection has a new number.
pub mod Safety
use v2bx_outbound.Base.{
  ℕ, String, ◌==◌, Bool, true, false, Option, none, some, ◌≡◌, ◌⊎◌, eqb, if◌then◌else◌,
}

pub record System : Type 0 where
  pub active : String → Bool  -- by user key
  pub open_conn : ℕ → Option String  -- the user key of an open connection
  pub routing : ℕ → Bool  -- stored, and not looked up again yet
  pub revoking : String → Bool  -- deleted, and the range has not begun
  pub closing : ℕ → Bool  -- seen by a range, and not closed yet

abbrev pub at_key : {A : Type 0} → String → A → (String → A) → String → A
at_key key a f k = if key == k then a else f k

abbrev pub at_conn : {A : Type 0} → ℕ → A → (ℕ → A) → ℕ → A
at_conn conn a f c = if eqb conn c then a else f c

unfoldable pub idle : System
idle = record {
  active = λ k. false;
  open_conn = λ c. none;
  routing = λ c. false;
  revoking = λ k. false;
  closing = λ c. false;
}

-- `activeUsers.Store`
unfoldable pub activate : String → System → System
activate key s = record s { active = at_key key true s.active }

unfoldable pub store : ℕ → String → System → System
store conn key s = record s {
  open_conn = at_conn conn (some key) s.open_conn;
  routing = at_conn conn true s.routing;
}

-- `if !h.allowed(...) { tracked.Close() }`
unfoldable pub look_again : ℕ → String → System → System
look_again conn key s = record s {
  routing = at_conn conn false s.routing;
  open_conn = if s.active key then s.open_conn else at_conn conn none s.open_conn;
}

-- `h.activeUsers.Delete(key)`
unfoldable pub deactivate : String → System → System
deactivate key s = record s {
  active = at_key key false s.active;
  revoking = at_key key true s.revoking;
}

abbrev pub has_key : String → Option String → Bool
has_key key none = false
has_key key (some k) = k == key

-- The range begins: it comes to each connection that is stored by now.
unfoldable pub range : String → System → System
range key s = record s {
  revoking = at_key key false s.revoking;
  closing = λ c. if has_key key (s.open_conn c) then true else s.closing c;
}

-- A connection is closed, by a range or by itself.
unfoldable pub close : ℕ → System → System
close conn s = record s {
  open_conn = at_conn conn none s.open_conn;
  closing = at_conn conn false s.closing;
}

pub data Step (s : System) : System → Type 0 where
  activates : (key : String) → Step s (activate key s)
  stores : (conn : ℕ) (key : String) → s.open_conn conn ≡ none → Step s (store conn key s)
  looks_again :
      (conn : ℕ) (key : String)
      → s.routing conn ≡ true
      → (has_key key (s.open_conn conn) ≡ true) ⊎ (s.open_conn conn ≡ none)
      → Step s (look_again conn key s)
  deactivates : (key : String) → Step s (deactivate key s)
  ranges : (key : String) → s.revoking key ≡ true → Step s (range key s)
  closes : (conn : ℕ) → Step s (close conn s)

pub data Reach : System → Type 0 where
  here : Reach idle
  next : {s t : System} → Reach s → Step s t → Reach t
