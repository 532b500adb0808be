-- ===== src/Supervisor/Board.antt =====
-- What the supervisor does to its board, and what the board answers. GPIO pins, timers and the ADC
-- are drivers of other repositories: the code's calls of them are events of a trace, and each
-- answer is a function of the whole trace so far, so that any board that reacts to the calls in a
-- deterministic way is an instance. A read is an event too, so that two reads in a row may differ.
use common_embedded_platform.Prelude.{
  ℕ, Bool, Option, none, some, List, [], ◌∷◌, ◌==◌, ◌+◌, if◌then◌else◌,
}

-- The virtual hooks of `PowerResetSupervisor`, which applications override.
pub data Hook : Type 0 where
  power_on_hook reset_done_hook power_off_hook fault_hook power_lost_hook : Hook

pub data Event : Type 0 where
  write_pin : ℕ → Bool → Event
  sample_pin : ℕ → Event
  sample_adc : ℕ → ℕ → Event
  sample_timer : ℕ → Event
  sleep : ℕ → ℕ → Event
  call_hook : Hook → Event

-- The newest event comes first.
abbrev pub Trace : Type 0
Trace = List Event

-- `g_logTimer`; other timers have other numbers.
abbrev pub log_timer : ℕ
log_timer = 0

-- `F` stands for `float`. `fault_returns` says whether the application overrides `OnFault` by a
-- function that returns: the default one never does.
pub record Board (F : Type 0) : Type 0 where
  pub pin : Trace → ℕ → Bool
  pub count : Trace → ℕ → ℕ
  pub adc : Trace → ℕ → ℕ → F → F
  pub mul : F → F → F
  pub ge : F → F → Bool
  pub le : F → F → Bool
  pub fault_returns : Bool

-- The level that the code last drove a pin to.
abbrev pub driven : ℕ → Trace → Option Bool
driven p [] = none
driven p (write_pin q v ∷ t) = if q == p then some v else driven p t
driven p (sample_pin q ∷ t) = driven p t
driven p (sample_adc c n ∷ t) = driven p t
driven p (sample_timer n ∷ t) = driven p t
driven p (sleep n k ∷ t) = driven p t
driven p (call_hook h ∷ t) = driven p t

-- The ticks that the code has slept on a timer.
abbrev pub slept : ℕ → Trace → ℕ
slept n [] = 0
slept n (sleep m k ∷ t) = (if m == n then k else 0) + slept n t
slept n (write_pin q v ∷ t) = slept n t
slept n (sample_pin q ∷ t) = slept n t
slept n (sample_adc c m ∷ t) = slept n t
slept n (sample_timer m ∷ t) = slept n t
slept n (call_hook h ∷ t) = slept n t
