-- ===== src/Supervisor/Rail.antt =====
-- supervisor/RailDescriptor.h: the control signals of one power rail. A class of the hierarchy is a
-- constructor of `RailKind`; `is_critical` and `is_input_supply` are virtual functions, which
-- applications override, and so fields. Names and log output are left out,
-- and so is the voltage that the failure message of the ADC rail reads once more to print it.
pub mod Timing
use common_embedded_platform.Prelude.{
  ℕ, zero, suc, Bool, true, false, not, ◌&&◌, List, ◌∷◌, if◌then◌else◌,
}
use common_embedded_platform.Supervisor.Board.{
  Board, Trace, write_pin, sample_pin, sample_adc, sleep,
}

pub data RailKind (F : Type 0) : Type 0 where
  with_enable : RailKind F
  with_enable_and_pgood : ℕ → RailKind F
  with_active_low_enable_and_pgood : ℕ → RailKind F
  -- the channel, m_vmin, m_vmax, m_scale, m_vdd, m_navg
  with_enable_and_adc : ℕ → F → F → F → F → ℕ → RailKind F

-- `delay` is a uint16_t.
pub record Rail (F : Type 0) : Type 0 where
  pub kind : RailKind F
  pub enable : ℕ
  pub timer : ℕ
  pub delay : ℕ
  pub is_critical : Bool
  pub is_input_supply : Bool

-- The level of the enable pin that turns a rail off.
abbrev pub off_level : {F : Type 0} → RailKind F → Bool
off_level with_enable = false
off_level (with_enable_and_pgood p) = false
off_level (with_active_low_enable_and_pgood p) = true
off_level (with_enable_and_adc c lo hi k vdd n) = false

-- Whether `TurnOn` polls a feedback signal; `RailDescriptorWithEnable` sleeps instead.
abbrev pub has_feedback : {F : Type 0} → RailKind F → Bool
has_feedback with_enable = false
has_feedback (with_enable_and_pgood p) = true
has_feedback (with_active_low_enable_and_pgood p) = true
has_feedback (with_enable_and_adc c lo hi k vdd n) = true

-- The writes of the constructors, base class first. `gpio` is `std::is_same_v<T, GPIOPin>`.
construct_enable : Bool → ℕ → Trace → Trace
construct_enable gpio p t = if gpio then write_pin p false ∷ t else t

unfoldable pub construct : {F : Type 0} → Bool → RailKind F → ℕ → Trace → Trace
unfolding construct_enable
construct gpio with_enable p t = construct_enable gpio p t
construct gpio (with_enable_and_pgood g) p t = write_pin p false ∷ construct_enable gpio p t
construct gpio (with_active_low_enable_and_pgood g) p t =
    write_pin p true ∷ write_pin p false ∷ construct_enable gpio p t
construct gpio (with_enable_and_adc c lo hi k vdd n) p t = construct_enable gpio p t

unfoldable pub turn_off : {F : Type 0} → Rail F → Trace → Trace
turn_off r t = write_pin r.enable (off_level r.kind) ∷ t

-- The loop of the `TurnOn` functions that wait for feedback: sample, and sleep one tick between two
-- samples; after `m_delay` rounds there is one more sample.
unfoldable pub wait_ready : (Trace → Bool × Trace) → ℕ → ℕ → Trace → Bool × Trace
wait_ready sample tm zero t = sample t
wait_ready sample tm (suc n) t =
    let rest = wait_ready sample tm n (sleep tm 1 ∷ (sample t).1) in
    if (sample t).0 then (true, (sample t).1) else rest

module _ {F : Type 0} (b : Board F) where
  unfoldable pub read_pin : ℕ → Trace → Bool × Trace
  read_pin p t = (b.pin t p, sample_pin p ∷ t)

  -- `GetVoltage` of the ADC rail, and its window.
  in_window : ℕ → F → F → F → F → ℕ → Trace → Bool × Trace
  in_window c lo hi k vdd n t =
      let v = b.mul k (b.adc t c n vdd) in (b.ge v lo && b.le v hi, sample_adc c n ∷ t)

  unfoldable pub power_good : RailKind F → Trace → Bool × Trace
  unfolding read_pin in_window
  power_good with_enable t = (true, t)
  power_good (with_enable_and_pgood g) t = read_pin g t
  power_good (with_active_low_enable_and_pgood g) t = read_pin g t
  power_good (with_enable_and_adc c lo hi k vdd n) t = in_window c lo hi k vdd n t

  unfoldable pub is_power_good : Rail F → Trace → Bool × Trace
  unfolding power_good
  is_power_good r t = power_good r.kind t

  unfoldable pub turn_on : Rail F → Trace → Bool × Trace
  turn_on r t =
      let t' = write_pin r.enable (not (off_level r.kind)) ∷ t in
      if has_feedback r.kind
      then wait_ready (power_good r.kind) r.timer r.delay t'
      else (true, sleep r.timer r.delay ∷ t')
