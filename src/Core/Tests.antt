-- ===== src/Core/Tests.antt =====
-- Runs of the core parts at concrete inputs.
use common_embedded_platform.Prelude.{
  ℕ, ◌-◌, ◌<◌, ◌≡◌, refl, true, false, List, [], ◌∷◌, arith, All, All-append, replicate, ◌++◌, suc,
  zero,
}
use common_embedded_platform.Core.Timer.{
  TimerTask, iteration, on_timer_shift, main_loop_round, iterate_all,
}
use common_embedded_platform.Core.Timer.Periods.{
  iteration-period, iteration-due, iteration-on_timer_shift, on_timer_shift-late,
}
use common_embedded_platform.Core.BuildId.{format_build_id}
use common_embedded_platform.Core.BuildId.Decoding.{decode, bytes_from, decode-format_build_id}

abbrev every_second : TimerTask
every_second = record { target = 5000; period = 10000 }

-- The log timer was set back by a minute: the first task waits although it was due, the second one runs.
main_loop_round_test :
    (main_loop_round true
      (λ i. 1200)
      (every_second ∷ record { target = 61000; period = 10000 } ∷ [])).0
    ≡ 1 ∷ []
unfolding main_loop_round iterate_all iteration on_timer_shift
main_loop_round_test = refl

iteration-period_test : (iteration 14999 (iteration 5000 every_second).1).0 ≡ false
unfolding iteration
iteration-period_test = iteration-period 5000 14999 every_second (omega arith) (omega arith) refl

iteration-due_test : (iteration 15000 (iteration 5000 every_second).1).0 ≡ true
unfolding iteration
iteration-due_test = iteration-due 5000 15000 every_second (omega arith) (omega arith) refl

iteration-on_timer_shift_example :
    (iteration (61500 - 60000) (on_timer_shift 60000 (record { target = 61000; period = 10000 }))).0
    ≡ (iteration 61500 (record { target = 61000; period = 10000 })).0
iteration-on_timer_shift_example =
    iteration-on_timer_shift 60000 61500 (record { target = 61000; period = 10000 }) (omega arith)
      (omega arith)

on_timer_shift-late_example :
    ((iteration 61200 every_second).0 ≡ true)
    × ((iteration 1200 (on_timer_shift 60000 every_second)).0 ≡ false)
on_timer_shift-late_example =
    on_timer_shift-late 60000 61200 1200 every_second (omega arith) (omega arith) (omega arith)

-- A header of 16 bytes and a build ID of 20.
abbrev note : List ℕ
note = replicate 16 4 ++ (0xde ∷ 0xad ∷ 0xbe ∷ 0xef ∷ replicate 16 0x5a)

All-replicate : (n v : ℕ) → v < 256 → All (λ b. b < 256) (replicate n v)
All-replicate zero v h = tt
All-replicate (suc n) v h = (h, All-replicate n v h)

note_bytes : All (λ b. b < 256) note
note_bytes =
    All-append (λ b. b < 256) (replicate 16 4) (0xde ∷ 0xad ∷ 0xbe ∷ 0xef ∷ replicate 16 0x5a)
      (All-replicate 16 4 (omega arith))
      (
        omega arith,
        (omega arith, (omega arith, (omega arith, All-replicate 16 0x5a (omega arith)))),
      )

decode-format_build_id_example : decode (format_build_id note) ≡ bytes_from 20 16 note
decode-format_build_id_example = decode-format_build_id note note_bytes
