-- ===== src/Core/Timer/Periods.antt =====
-- When a periodic task runs.
use common_embedded_platform.Prelude.{ℕ, ◌+◌, ◌-◌, ◌≤◌, ◌<◌, ◌≡◌, true, false, arith}
use common_embedded_platform.Core.Timer.{TimerTask, on_timer_shift, iteration}

-- A task that has run does not run again before its period has gone by, when the timer does not wrap
-- within the period.
pub iteration-period :
    (now later : ℕ) (task : TimerTask)
    → now + task.period < 4294967296
    → later < now + task.period
    → (iteration now task).0 ≡ true
    → (iteration later (iteration now task).1).0 ≡ false
unfolding iteration
iteration-period now later task small early ran = ground arith

-- A task that has run runs again at a call from the end of its period on, when the timer does not wrap
-- within the period.
pub iteration-due :
    (now later : ℕ) (task : TimerTask)
    → now + task.period < 4294967296
    → now + task.period ≤ later
    → (iteration now task).0 ≡ true
    → (iteration later (iteration now task).1).0 ≡ true
unfolding iteration
iteration-due now later task small late ran = ground arith

-- A task whose target is beyond `delta` is due after the timer has been set back by `delta` exactly if it was
-- due before, at a time from `delta` on.
pub iteration-on_timer_shift :
    (delta now : ℕ) (task : TimerTask)
    → delta ≤ now
    → delta < task.target
    → (iteration (now - delta) (on_timer_shift delta task)).0 ≡ (iteration now task).0
unfolding iteration on_timer_shift
iteration-on_timer_shift delta now task p q = ground arith

-- A task whose target is at most `delta` is due at a time from `delta` on; after the timer has been set back
-- by `delta` the task is not due at any time before the same target, which it keeps.
pub on_timer_shift-late :
    (delta now later : ℕ) (task : TimerTask)
    → delta ≤ now
    → task.target ≤ delta
    → later < task.target
    → ((iteration now task).0 ≡ true) × ((iteration later (on_timer_shift delta task)).0 ≡ false)
unfolding iteration on_timer_shift
on_timer_shift-late delta now later task p q r = (ground arith, ground arith)
