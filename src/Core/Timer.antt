-- ===== src/Core/Timer.antt =====
-- `TimerTask` (core/TimerTask.h and core/TimerTask.cpp) and the part of the main loop of core/main.cpp
-- that concerns timer tasks. A reading of `g_logTimer.GetCount()` is an argument `now`.
pub mod Periods
use common_embedded_platform.Prelude.{
  ℕ, zero, suc, ◌+◌, ◌-◌, Bool, true, false, List, [], ◌∷◌, map, u32, ltb, leb, if◌then◌else◌,
}

pub record TimerTask : Type 0 where
  pub target : ℕ
  pub period : ℕ

abbrev pub construct : ℕ → ℕ → ℕ → TimerTask
construct now initial_offset period = record {
  target = u32 (now + initial_offset);
  period = period;
}

unfoldable pub on_timer_shift : ℕ → TimerTask → TimerTask
on_timer_shift delta task =
    if ltb delta task.target then record task { target = task.target - delta } else task

unfoldable pub restart : ℕ → TimerTask → TimerTask
restart now task = record task { target = u32 (now + task.period) }

-- Whether `OnTimer` runs, and the task afterwards.
unfoldable pub iteration : ℕ → TimerTask → Bool × TimerTask
iteration now task =
    if leb task.target now
    then (true, record task { target = u32 (now + task.period) })
    else (false, task)

-- The tasks of the list one after another, task `i` at the time `clock i`: the indices of those that
-- ran, and the tasks.
unfoldable pub iterate_all : (ℕ → ℕ) → ℕ → List TimerTask → List ℕ × List TimerTask
iterate_all clock i [] = ([], [])
iterate_all clock i (task ∷ tasks) =
    let rest = iterate_all clock (suc i) tasks in
    let here = iteration (clock i) task in (if here.0 then i ∷ rest.0 else rest.0, here.1 ∷ rest.1)

-- One round of the main loop. `shifted` is the answer of `g_log.UpdateOffset`, which is of another
-- repository: whether the log timer was set back.
unfoldable pub main_loop_round : Bool → (ℕ → ℕ) → List TimerTask → List ℕ × List TimerTask
main_loop_round shifted clock tasks =
    iterate_all clock 0 (if shifted then map (on_timer_shift 60000) tasks else tasks)
