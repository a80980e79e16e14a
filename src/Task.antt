-- ===== src/Task.antt =====
-- common/task/task.go: a periodic task. The lock makes each method one step, but for Start, which
-- sets the flag in one step, runs checkedExecute in another, and after an error takes the lock again. A timer that is armed, or that has
-- fired and waits for the lock, is pending. Durations are words of nanoseconds.
pub mod Chains
mod Tests
use v2bx_outbound.Base.{
  ℕ, zero, suc, ◌+◌, ◌-◌, ◌<◌, ◌≡◌, Bool, true, false, not, ◌&&◌, slt, if◌then◌else◌,
}

pub record Task : Type 0 where
  pub interval : ℕ
  pub override : ℕ  -- the atomic `interval`
  pub running : Bool
  pub pending : ℕ  -- timers that will call checkedExecute
  pub starting : ℕ  -- calls of Start that have set the flag and not yet gone on
  pub failing : ℕ  -- calls of Start that have got an error and not yet taken the lock again
  pub delay : ℕ  -- that of the last timer
  pub executed : ℕ  -- calls of Execute so far
  pub started : ℕ  -- calls of Start that have set the flag so far

unfoldable pub new_task : ℕ → Task
new_task interval = record {
  interval = interval;
  override = 0;
  running = false;
  pending = 0;
  starting = 0;
  failing = 0;
  delay = 0;
  executed = 0;
  started = 0;
}

abbrev pub next_delay : Task → ℕ
next_delay t = if slt 0 t.override then t.override else t.interval

-- The end of checkedExecute: the next timer.
unfoldable pub arm : Task → Task
arm t = record t { pending = t.pending + 1; delay = next_delay t }

-- `succeeds` is the answer of Execute; the result is true for a nil error.
unfoldable pub checked_execute : Bool → Bool → Task → Task × Bool
unfolding arm
checked_execute first succeeds t =
    let ran = record t { executed = t.executed + 1 } in
    if not t.running
    then (t, true)
    else if not first
    then (arm t, true)
    else if succeeds
    then (arm ran, true)
    else (record ran { running = false }, false)

unfoldable pub set_interval : ℕ → Task → Task
set_interval interval t = if slt 0 interval then record t { override = interval } else t

-- The first part of Start, where the task does not run yet.
unfoldable pub begin_start : Task → Task
begin_start t = record t { running = true; starting = t.starting + 1; started = t.started + 1 }

-- The second part, up to the error of checkedExecute.
unfoldable pub end_start : Bool → Bool → Task → Task
unfolding checked_execute
end_start first succeeds t =
    let r = checked_execute first succeeds (record t { starting = t.starting - 1 }) in
    if r.1 then r.0 else record r.0 { failing = r.0.failing + 1 }

-- The end of Start after an error.
unfoldable pub give_up : Task → Task
give_up t = record t { running = false; failing = t.failing - 1 }

-- A pending timer gets the lock.
unfoldable pub fire : Bool → Task → Task
unfolding checked_execute
fire succeeds t = (checked_execute true succeeds (record t { pending = t.pending - 1 })).0

-- `stopped` says whether Stop came before the last timer fired.
unfoldable pub close : Bool → Task → Task
close stopped t = record t {
  running = false;
  pending = if stopped then t.pending - 1 else t.pending;
}

-- What can happen to a task.
pub data Step (t : Task) : Task → Type 0 where
  starts : t.running ≡ false → Step t (begin_start t)
  goes_on : (first succeeds : Bool) → 0 < t.starting → Step t (end_start first succeeds t)
  gives_up : 0 < t.failing → Step t (give_up t)
  fires : (succeeds : Bool) → 0 < t.pending → Step t (fire succeeds t)
  closes : (stopped : Bool) → (stopped ≡ true → 0 < t.pending) → Step t (close stopped t)
  sets : (interval : ℕ) → Step t (set_interval interval t)

pub data Reach (interval : ℕ) : Task → Type 0 where
  here : Reach interval (new_task interval)
  next : {t u : Task} → Reach interval t → Step t u → Reach interval u
