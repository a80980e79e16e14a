-- ===== src/Task/Tests.antt =====
-- A task that is started, fires, and is closed; and one that is started again too soon.
use v2bx_outbound.Base.{◌+◌, ◌<◌, true, false, [], ◌∷◌, ◌≡◌, refl, arith}
use v2bx_outbound.Task.{
  Task, Reach, here, next, starts, goes_on, new_task, begin_start, end_start, give_up, fire, close,
}
use v2bx_outbound.Task.Chains.{fire_each, Reach-IsAlive, closed_drains}

abbrev idle : Task
idle = new_task 60

abbrev armed : Task
armed = end_start false true (begin_start idle)

armed-Reach : Reach 60 armed
unfolding new_task begin_start
armed-Reach = next (next here (starts refl)) (goes_on false true (omega arith))

armed_runs : armed.running ≡ true
unfolding new_task begin_start end_start
armed_runs = refl

Reach-IsAlive_example : 0 < armed.pending + armed.starting
Reach-IsAlive_example = Reach-IsAlive armed-Reach armed_runs

-- Closed after its timer fired, and started again before that timer got the lock: two timers.
abbrev twice : Task
twice = fire true (end_start false true (begin_start (close false armed)))

two_chains : twice.pending ≡ 2
unfolding new_task begin_start end_start fire close
two_chains = refl

-- The first start gets an error; before it takes the lock again, a second one starts the task and
-- returns no error. The first then clears the flag, and the timer finds a task that does not run.
abbrev lost : Task
lost = give_up (end_start false true (begin_start (end_start true false (begin_start idle))))

second_start_lost : (lost.running ≡ false) × ((fire true lost).pending ≡ 0)
unfolding new_task begin_start end_start give_up fire
second_start_lost = (refl, refl)

closed_drains_example :
    let u = fire_each (true ∷ []) (close false armed) in
    (u.pending ≡ 0) × (u.executed ≡ armed.executed)
unfolding new_task begin_start end_start close
closed_drains_example = closed_drains false (true ∷ []) armed refl
