-- ===== src/Task/Chains.antt =====
-- When a task has a timer, and when it executes.
use v2bx_outbound.Base.{
  ℕ, ◌+◌, ◌-◌, ◌<◌, ◌≤◌, ◌≡◌, Bool, true, false, arith, refl, ◌∙◌, List, [], ◌∷◌, length,
}
use v2bx_outbound.Task.{
  Task, Step, Reach, starts, goes_on, fires, closes, sets, here, next, new_task, begin_start,
  end_start, gives_up, give_up, fire, close, set_interval,
}

-- A task that runs has a timer, or a call of Start that will arm one.
abbrev pub IsAlive : Task → Type 0
IsAlive t = t.running ≡ true → 0 < t.pending + t.starting

Step-IsAlive : {t u : Task} → Step t u → IsAlive t → IsAlive u
unfolding begin_start end_start give_up fire close set_interval
Step-IsAlive (starts idle) h runs = ground arith
Step-IsAlive (goes_on first succeeds busy) h runs = ground (arith, h, runs)
Step-IsAlive (gives_up failed) h runs = ground (arith, runs)
Step-IsAlive (fires succeeds armed) h runs = ground (arith, h, runs)
Step-IsAlive (closes stopped armed) h runs = ground (arith, runs)
Step-IsAlive (sets interval) h runs = ground (arith, h, runs)

-- At any time a task whose flag says that it runs has a timer on its way, or a call of Start that has
-- set the flag and is still to run checkedExecute: it never stands still with the flag set.
pub Reach-IsAlive : {interval : ℕ} {t : Task} → Reach interval t → IsAlive t
unfolding new_task
Reach-IsAlive here runs = ground (arith, runs)
Reach-IsAlive (next r s) runs = Step-IsAlive s (Reach-IsAlive r) runs

-- The steps of a task that nobody starts again.
pub data Quiet (t : Task) : Task → Type 0 where
  stay : Quiet t t
  and_then : {u v : Task} → Quiet t u → Step u v → v.started ≡ u.started → Quiet t v

quiet-Step :
    {t u : Task}
    → Step t u
    → u.started ≡ t.started
    → t.running ≡ false
    → (u.running ≡ false)
      × (u.executed ≡ t.executed)
      × (u.pending + u.starting ≤ t.pending + t.starting)
unfolding begin_start end_start give_up fire close set_interval
quiet-Step (starts idle) same h = absurd (omega (arith, same))
quiet-Step (goes_on first succeeds busy) same h = ground arith
quiet-Step (gives_up failed) same h = ground arith
quiet-Step (fires succeeds armed) same h = ground arith
quiet-Step (closes stopped armed) same h = ground arith
quiet-Step (sets interval) same h = ground arith

-- From a task that does not run.
Quiet-steps :
    {t u : Task}
    → t.running ≡ false
    → Quiet t u
    → (u.running ≡ false)
      × (u.executed ≡ t.executed)
      × (u.pending + u.starting ≤ t.pending + t.starting)
Quiet-steps idle stay = (idle, refl, omega arith)
Quiet-steps idle (and_then r s same) =
    let before = Quiet-steps idle r in
    let after = quiet-Step s same before.0 in
    (after.0, after.1 ∙ before.1, omega (arith, before, after))

-- A closed task that is not started again never executes, whatever timers were already on their way,
-- and arms no new timer.
pub closed_is_Quiet :
    (stopped : Bool) (t u : Task)
    → Quiet (close stopped t) u
    → (u.running ≡ false)
      × (u.executed ≡ t.executed)
      × (u.pending + u.starting ≤ t.pending + t.starting)
unfolding close
closed_is_Quiet stopped t u r =
    let quiet = Quiet-steps refl r in (quiet.0, quiet.1, ground (arith, quiet))

close_stops : (stopped : Bool) (t : Task) → (close stopped t).running ≡ false
unfolding close
close_stops stopped t = refl

close_executes : (stopped : Bool) (t : Task) → (close stopped t).executed ≡ t.executed
unfolding close
close_executes stopped t = refl

-- Timers that get the lock one after the other, with the answers of Execute.
abbrev pub fire_each : List Bool → Task → Task
fire_each [] t = t
fire_each (succeeds ∷ answers) t = fire_each answers (fire succeeds t)

fire_idle :
    (succeeds : Bool) (t : Task)
    → t.running ≡ false
    → let t' = fire succeeds t in
      (t'.running ≡ false) × (t'.pending ≡ t.pending - 1) × (t'.executed ≡ t.executed)
unfolding fire
fire_idle succeeds t idle = ground arith

fire_each_idle :
    (answers : List Bool) (t : Task)
    → t.running ≡ false
    → t.pending ≡ length answers
    → ((fire_each answers t).pending ≡ 0) × ((fire_each answers t).executed ≡ t.executed)
fire_each_idle [] t idle h = (h, refl)
fire_each_idle (succeeds ∷ answers) t idle h =
    let fired = fire_idle succeeds t idle in
    let last = fire_each_idle answers (fire succeeds t) fired.0 (omega (arith, fired.1, h)) in
    (last.0, last.1 ∙ fired.2)

-- Once a task is closed, its timers come to an end: when each that is on its way has got the lock
-- once, none is left, and Execute was not called.
pub closed_drains :
    (stopped : Bool) (answers : List Bool) (t : Task)
    → (close stopped t).pending ≡ length answers
    → let u = fire_each answers (close stopped t) in (u.pending ≡ 0) × (u.executed ≡ t.executed)
closed_drains stopped answers t h =
    let last = fire_each_idle answers (close stopped t) (close_stops stopped t) h in
    (last.0, last.1 ∙ close_executes stopped t)
