-- ===== src/Supervisor/Tests.antt =====
-- A board with two rails and two reset lines.
use common_embedded_platform.Supervisor.Since.{length-Since}
use common_embedded_platform.Prelude.{
  length, subst, ℕ, zero, suc, ◌+◌, ◌≤◌, ◌<◌, ◌≡◌, ◌↔◌, ◌⊎◌, inl, refl, true, false, not, some, [],
  ◌∷◌, arith, All, drop, ltb, ◌==◌, if◌then◌else◌,
}
use common_embedded_platform.Supervisor.Board.{
  write_pin, sample_pin, sample_timer, sleep, call_hook, power_on_hook, Board, Trace, log_timer,
  driven, slept,
}
use common_embedded_platform.Supervisor.Rail.{
  has_feedback, read_pin, wait_ready, Rail, with_enable_and_pgood, with_enable, off_level, turn_off,
  turn_on, is_power_good, power_good,
}
use common_embedded_platform.Supervisor.Rail.Timing.{
  turn_on_time, turn_on-first_good, turn_on-never_good, driven-turn_on, sample_point,
}
use common_embedded_platform.Supervisor.Reset.{
  assert, deassert, deassert_kind, start_delay, Reset, active_low, active_low_with_delay, is_ready,
}
use common_embedded_platform.Supervisor.Reset.Timing.{is_ready_with_delay, is_ready_early}
use common_embedded_platform.Supervisor.Sequencer.{
  Supervisor, turn_off_slowly, assert_reverse, turn_on_all, deassert_at, start_resets, with_hook,
  is_empty, returns, panic_shutdown, power_on, power_off, iteration,
}
use common_embedded_platform.Supervisor.Sequencer.Lines.{Held}
use common_embedded_platform.Supervisor.Sequencer.Shutdown.{
  Ensures, all_come_up, IsSafe, IsUp, Wired, panic_shutdown-IsSafe, power_off-IsSafe, power_on_lem,
}
use common_embedded_platform.Supervisor.Sequencer.Ordering.{IsOrdered, first_held, IsSafe-IsOrdered}
use common_embedded_platform.Supervisor.Sequencer.Ordering.Runs.{
  iteration-IsOrdered, power_on-IsOrdered, OrderlyReach, OrderlyStep, reset_order,
}
use common_embedded_platform.Supervisor.Sequencer.Monitor.{
  StaysBad, IsDown, iterations, critical_failure_detected,
}

-- Every pin reads low, and the timers stand at `now`.
abbrev board_at : ℕ → Board ℕ
board_at now = record {
  pin = λ t p. false;
  count = λ t n. now;
  adc = λ t c n v. 0;
  mul = λ x y. x;
  ge = λ x y. not (ltb x y);
  le = λ x y. not (ltb y x);
  fault_returns = true;
}

abbrev dark : Board ℕ
dark = board_at 1000

abbrev core_rail : Rail ℕ
core_rail = record {
  kind = with_enable_and_pgood 10;
  enable = 1;
  timer = log_timer;
  delay = 3;
  is_critical = true;
  is_input_supply = false;
}

abbrev io_rail : Rail ℕ
io_rail = record {
  kind = with_enable;
  enable = 2;
  timer = log_timer;
  delay = 3;
  is_critical = false;
  is_input_supply = false;
}

abbrev cpu_reset : Reset
cpu_reset = record { kind = active_low_with_delay 0 50; pin = 3; done = false; tstart = 900 }

abbrev phy_reset : Reset
phy_reset = record { kind = active_low; pin = 4; done = false; tstart = 0 }

abbrev initial : Supervisor ℕ
initial = record {
  rails = core_rail ∷ io_rail ∷ [];
  resets = cpu_reset ∷ phy_reset ∷ [];
  is_power_on = false;
  is_resets_done = false;
  reset_index = 0;
  monitor_index = 0;
  trace = [];
}

initial-Wired : Wired initial
initial-Wired = record {
  resets_apart = ((λ e. omega (arith, e), tt), (tt, tt));
  rails_apart = ((λ e. omega (arith, e), tt), (tt, tt));
  apart = (
    (λ e. omega (arith, e), (λ e. omega (arith, e), tt)),
    ((λ e. omega (arith, e), (λ e. omega (arith, e), tt)), tt),
  );
}

panic_shutdown-IsSafe_example : Ensures IsSafe (panic_shutdown dark initial)
panic_shutdown-IsSafe_example = panic_shutdown-IsSafe dark initial initial-Wired

power_off-IsSafe_example : IsSafe (power_off dark initial)
power_off-IsSafe_example = power_off-IsSafe dark initial initial-Wired

-- The power was turned off once.
abbrev off : Supervisor ℕ
off = power_off dark initial

off-IsSafe : IsSafe off
off-IsSafe = power_off-IsSafe dark initial initial-Wired

off-IsOrdered : IsOrdered off
unfolding power_off
off-IsOrdered =
    IsSafe-IsOrdered (power_off-IsSafe dark initial initial-Wired) initial-Wired (omega arith)
      (omega arith)

power_on-IsOrdered_test : Ensures IsOrdered (power_on dark off)
unfolding power_off
power_on-IsOrdered_test = power_on-IsOrdered dark off off-IsOrdered refl

iteration-IsOrdered_test : Ensures IsOrdered (iteration dark off)
iteration-IsOrdered_test = iteration-IsOrdered dark off off-IsOrdered

core_bad : (t : Trace) → (is_power_good dark core_rail t).0 ≡ false
unfolding is_power_good power_good
core_bad t = refl

driven-turn_on_test :
    driven 1 (turn_on dark core_rail []).1
    ≡ (if core_rail.enable == 1 then some (not (off_level core_rail.kind)) else driven 1 [])
driven-turn_on_test = driven-turn_on dark core_rail 1 []

turn_on_time_example :
    (slept log_timer (turn_on dark core_rail []).1 ≤ slept log_timer [] + 3)
    × (((turn_on dark core_rail []).0 ≡ true)
        ⊎ (slept log_timer (turn_on dark core_rail []).1 ≡ slept log_timer [] + 3))
turn_on_time_example = turn_on_time dark core_rail []

turn_on-never_good_test :
    turn_on dark core_rail []
    ≡ (false, (is_power_good dark core_rail (sample_point dark core_rail [] 3)).1)
turn_on-never_good_test =
    turn_on-never_good dark core_rail [] refl (λ j h. core_bad (sample_point dark core_rail [] j))

-- The power-good pin goes high when something has been slept.
abbrev slow : Board ℕ
slow = record (board_at 1000) { pin = λ t p. ltb 0 (slept log_timer t) }

slow_first :
    (j : ℕ) → j < 1 → (is_power_good slow core_rail (sample_point slow core_rail [] j)).0 ≡ false
unfolding is_power_good power_good
slow_first zero h = refl
slow_first (suc j) h = absurd (omega arith)

slow_second : (is_power_good slow core_rail (sample_point slow core_rail [] 1)).0 ≡ true
unfolding is_power_good power_good
slow_second = refl

turn_on-first_good_test :
    turn_on slow core_rail []
    ≡ (true, (is_power_good slow core_rail (sample_point slow core_rail [] 1)).1)
turn_on-first_good_test =
    turn_on-first_good slow core_rail [] 1 refl (omega arith) slow_first slow_second

is_ready_with_delay_test :
    (((is_ready dark cpu_reset []).0 ≡ true)
      ↔ ((cpu_reset.done ≡ true) ⊎ (950 < 1000) ⊎ (1000 < 900)))
    × ((is_ready dark cpu_reset []).1.done ≡ (is_ready dark cpu_reset []).0)
is_ready_with_delay_test = is_ready_with_delay dark 0 50 cpu_reset [] (inl refl) (omega arith)

abbrev late_reset : Reset
late_reset = record {
  kind = active_low_with_delay 0 50;
  pin = 3;
  done = false;
  tstart = 4294967290;
}

is_ready_early_example : (is_ready (board_at 4294967291) late_reset []).0 ≡ true
is_ready_early_example =
    is_ready_early (board_at 4294967291) 0 50 late_reset [] (inl refl) (omega arith) (omega arith)
      (omega arith) (omega arith)

-- The core rail comes up at its first sample; once ten things were done to the board its power-good pin
-- reads low.
abbrev fading : Board ℕ
fading = record (board_at 1000) { pin = λ t p. ltb (length t) 10 }

-- Both rails on, the first line released.
abbrev up : Supervisor ℕ
up = record off {
  is_power_on = true;
  resets = record cpu_reset { tstart = 1000 } ∷ phy_reset ∷ [];
  trace =
      call_hook power_on_hook
      ∷ sample_timer 0
      ∷ write_pin 3 true
      ∷ sleep 0 3
      ∷ write_pin 2 true
      ∷ sample_pin 10
      ∷ write_pin 1 true
      ∷ off.trace;
}

up_test : power_on fading off ≡ returns up
unfolding power_on turn_on_all start_resets deassert_at with_hook is_empty turn_on wait_ready
    has_feedback read_pin is_power_good power_good deassert deassert_kind start_delay power_off
    turn_off_slowly assert_reverse turn_off assert
up_test = refl

up-IsOrdered : IsOrdered up
unfolding power_off
up-IsOrdered = subst (Ensures IsOrdered) up_test (power_on-IsOrdered fading off off-IsOrdered refl)

power_on_lem_example :
    Ensures
      (λ s'. if all_come_up fading initial.rails initial.trace then IsUp fading s' else IsSafe s')
      (power_on fading initial)
power_on_lem_example = power_on_lem fading initial initial-Wired

up_to_here : OrderlyReach fading off up
unfolding power_off
up_to_here = OrderlyReach.next OrderlyReach.here (OrderlyStep.turns_on_from_off refl up_test)

reset_order_example :
    All (Held up.trace) (drop (first_held up) up.resets) × Ensures IsOrdered (iteration fading up)
unfolding power_off
reset_order_example =
    reset_order fading off-IsSafe initial-Wired (omega arith) (omega arith) up_to_here

core_fades : StaysBad fading core_rail up.trace
unfolding is_power_good power_good power_off turn_off_slowly assert_reverse turn_off assert
core_fades t since = let long = length-Since since in ground arith

critical_failure_detected_example : Ensures IsDown (iterations fading 2 up)
unfolding power_off
critical_failure_detected_example =
    critical_failure_detected fading up 0 core_rail up-IsOrdered refl refl refl core_fades

-- The timers count what is slept on them.
abbrev ticking : Board ℕ
ticking = record (board_at 1000) { count = λ t n. 1000 + slept n t }
