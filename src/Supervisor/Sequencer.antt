-- ===== src/Supervisor/Sequencer.antt =====
-- supervisor/PowerResetSupervisor.cpp and .h: the sequencing of rails and resets.
pub mod Lines
pub mod Effects
pub mod Steps
pub mod Shutdown
pub mod Ordering
pub mod Frame
pub mod Monitor
use common_embedded_platform.Prelude.{
  ℕ, zero, suc, ◌+◌, ◌%◌, Bool, true, false, none, some, List, [], ◌∷◌, leb, length, get_elem?, set,
  drop, if◌then◌else◌,
}
use common_embedded_platform.Supervisor.Board.{
  Board, Trace, call_hook, sleep, log_timer, power_on_hook, reset_done_hook, power_off_hook,
  fault_hook, power_lost_hook,
}
use common_embedded_platform.Supervisor.Rail
use common_embedded_platform.Supervisor.Rail.{Rail}
use common_embedded_platform.Supervisor.Reset
use common_embedded_platform.Supervisor.Reset.{Reset}

-- `PowerResetSupervisor`, with the trace of what has been done to the board.
pub record Supervisor (F : Type 0) : Type 0 where
  pub rails : List (Rail F)
  pub resets : List Reset
  pub is_power_on : Bool
  pub is_resets_done : Bool
  pub reset_index : ℕ
  pub monitor_index : ℕ
  pub trace : Trace

-- A call returns, or never returns because `OnFault` does not, or indexes a vector out of range,
-- which the C++ standard leaves undefined.
pub data Outcome (A : Type 0) : Type 0 where
  returns : A → Outcome A
  hangs : A → Outcome A
  out_of_range : Outcome A

infixl 5 ◌>>=◌
abbrev pub ◌>>=◌ : {A : Type 0} → Outcome A → (A → Outcome A) → Outcome A
returns a >>= f = f a
hangs a >>= f = hangs a
out_of_range >>= f = out_of_range

-- `for(int i = size - 1; i >= 0; i--) m_railSequence[i]->TurnOff();`
pub turn_off_reverse : {F : Type 0} → List (Rail F) → Trace → Trace
turn_off_reverse [] t = t
turn_off_reverse (r ∷ rs) t = Rail.turn_off r (turn_off_reverse rs t)

-- The same with `g_logTimer.Sleep(10)` after each rail.
unfoldable pub turn_off_slowly : {F : Type 0} → List (Rail F) → Trace → Trace
turn_off_slowly [] t = t
turn_off_slowly (r ∷ rs) t = sleep log_timer 10 ∷ Rail.turn_off r (turn_off_slowly rs t)

pub assert_all : List Reset → Trace → Trace
assert_all [] t = t
assert_all (r ∷ rs) t = assert_all rs (Reset.assert r t)

unfoldable pub assert_reverse : List Reset → Trace → Trace
assert_reverse [] t = t
assert_reverse (r ∷ rs) t = Reset.assert r (assert_reverse rs t)

unfoldable pub is_empty : List Reset → Bool
is_empty [] = true
is_empty (r ∷ rs) = false

module _ {F : Type 0} (b : Board F) where
  pub shut_down : Supervisor F → Supervisor F
  shut_down s = record s {
    is_power_on = false;
    is_resets_done = false;
    reset_index = 0;
    trace = call_hook fault_hook ∷ assert_all s.resets (turn_off_reverse s.rails s.trace);
  }

  pub panic_shutdown : Supervisor F → Outcome (Supervisor F)
  unfolding shut_down
  panic_shutdown s = if b.fault_returns then returns (shut_down s) else hangs (shut_down s)

  -- The loop of `PowerOn`; false at the first rail that fails to come up.
  unfoldable pub turn_on_all : List (Rail F) → Trace → Bool × Trace
  turn_on_all [] t = (true, t)
  turn_on_all (r ∷ rs) t =
      let (up, t') = Rail.turn_on b r t in
      let rest = turn_on_all rs t' in if up then rest else (false, t')

  -- `m_resetSequence[i]->Deassert()`
  unfoldable pub deassert_at : ℕ → Supervisor F → Outcome (Supervisor F)
  deassert_at i s = elim (get_elem? s.resets i) [
    | none ↦ out_of_range
    | some r ↦
        let (r', t') = Reset.deassert b r s.trace in
        returns (record s { resets = set s.resets i r'; trace = t' })
  ]

  unfoldable pub with_hook : Supervisor F → Outcome (Supervisor F)
  with_hook s = returns (record s { trace = call_hook power_on_hook ∷ s.trace })

  -- `PowerOn` after its loop has succeeded.
  unfoldable pub start_resets : Supervisor F → Outcome (Supervisor F)
  unfolding deassert_at is_empty with_hook
  start_resets s =
      let s' = record s { is_power_on = true; is_resets_done = false; reset_index = 0 } in
      (if is_empty s'.resets then returns s' else deassert_at 0 s') >>= with_hook

  unfoldable pub power_on : Supervisor F → Outcome (Supervisor F)
  power_on s =
      let (up, t) = turn_on_all s.rails s.trace in
      if up then start_resets (record s { trace = t }) else panic_shutdown (record s { trace = t })

  unfoldable pub power_off : Supervisor F → Supervisor F
  power_off s = record s {
    is_power_on = false;
    is_resets_done = false;
    reset_index = 0;
    trace = call_hook power_off_hook ∷ turn_off_slowly s.rails (assert_reverse s.resets s.trace);
  }

  -- The first half of `UpdateResets` once the active line is ready.
  pub advance : Supervisor F → Outcome (Supervisor F)
  unfolding deassert_at
  advance s =
      let i = s.reset_index + 1 in
      if leb (length s.resets) i
      then returns (record s {
        reset_index = i;
        is_resets_done = true;
        trace = call_hook reset_done_hook ∷ s.trace;
      })
      else deassert_at i (record s { reset_index = i })

  -- `m_resetSequence[i]->IsReady()`
  pub poll_at : ℕ → Reset → Supervisor F → Bool × Supervisor F
  poll_at i r s =
      let (ready, r', t') = Reset.is_ready b r s.trace in
      (ready, record s { resets = set s.resets i r'; trace = t' })

  pub update_active : Supervisor F → Outcome (Supervisor F)
  unfolding poll_at
  update_active s =
      if s.is_resets_done then returns s else (elim (get_elem? s.resets s.reset_index) [
        | none ↦ out_of_range
        | some r ↦
            let (ready, s') = poll_at s.reset_index r s in if ready then advance s' else returns s'
      ])

  -- Back to stage `i`: every later line is asserted again.
  pub back_up : ℕ → Supervisor F → Supervisor F
  back_up i s = record s {
    reset_index = i;
    is_resets_done = false;
    trace = assert_all (drop (i + 1) s.resets) s.trace;
  }

  -- The second half of `UpdateResets`, with the rounds that are left.
  pub check_earlier : ℕ → ℕ → Supervisor F → Outcome (Supervisor F)
  unfolding poll_at back_up
  check_earlier zero i s = returns s
  check_earlier (suc n) i s = elim (get_elem? s.resets i) [
    | none ↦ out_of_range
    | some r ↦
        let (ready, s') = poll_at i r s in
        let rest = check_earlier n (i + 1) s' in if ready then rest else returns (back_up i s')
  ]

  pub update_resets : Supervisor F → Outcome (Supervisor F)
  update_resets s = update_active s >>= λ s'. check_earlier s'.reset_index 0 s'

  -- The reaction of `MonitorRails` to a rail that is not good.
  pub rail_lost : Rail F → Supervisor F → Outcome (Supervisor F)
  rail_lost r s =
      if r.is_critical
      then panic_shutdown s
      else if r.is_input_supply
      then returns (power_off (record s { trace = call_hook power_lost_hook ∷ s.trace }))
      else returns s

  pub next_rail : Supervisor F → Outcome (Supervisor F)
  next_rail s = returns (record s { monitor_index = (s.monitor_index + 1) % length s.rails })

  pub monitor_rails : Supervisor F → Outcome (Supervisor F)
  unfolding next_rail
  monitor_rails s = elim (get_elem? s.rails s.monitor_index) [
    | none ↦ out_of_range
    | some r ↦
        let (good, t') = Rail.is_power_good b r s.trace in
        let s' = record s { trace = t' } in
        (if good then returns s' else rail_lost r s') >>= next_rail
  ]

  pub iteration : Supervisor F → Outcome (Supervisor F)
  iteration s = if s.is_power_on then update_resets s >>= monitor_rails else returns s
