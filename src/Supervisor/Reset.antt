-- ===== src/Supervisor/Reset.antt =====
-- supervisor/ResetDescriptor.h: one reset line. A class of the hierarchy is a constructor of
-- `ResetKind`; `done` and `tstart` are the members m_done and m_tstart of the classes with a delay.
pub mod Timing
use common_embedded_platform.Prelude.{
  ℕ, ◌+◌, Bool, true, false, not, List, ◌∷◌, ltb, u32, if◌then◌else◌,
}
use common_embedded_platform.Supervisor.Board.{Board, Trace, write_pin, sample_pin, sample_timer}

pub data ResetKind : Type 0 where
  active_low : ResetKind
  -- the timer, and the delay in its ticks, a uint16_t
  active_low_with_delay : ℕ → ℕ → ResetKind
  -- the pin that the device drives when it is operational
  active_low_with_active_high_done : ℕ → ResetKind
  active_low_with_active_low_done : ℕ → ResetKind
  active_high : ResetKind
  active_high_with_delay : ℕ → ℕ → ResetKind

pub record Reset : Type 0 where
  pub kind : ResetKind
  pub pin : ℕ
  pub done : Bool
  pub tstart : ℕ

-- The level that holds the device in reset.
abbrev pub assert_level : ResetKind → Bool
assert_level active_high = true
assert_level (active_high_with_delay tm d) = true
assert_level _ = false

-- The writes of the constructors: the line is asserted if it is a GPIO pin of the MCU.
unfoldable pub construct : Bool → ResetKind → ℕ → Trace → Trace
construct gpio k p t = if gpio then write_pin p (assert_level k) ∷ t else t

unfoldable pub assert : Reset → Trace → Trace
assert r t = write_pin r.pin (assert_level r.kind) ∷ t

module _ {F : Type 0} (b : Board F) where
  -- `m_done = false; m_tstart = m_timer.GetCount();`
  unfoldable pub start_delay : ℕ → Reset → Trace → Reset × Trace
  start_delay tm r t = (record r { done = false; tstart = b.count t tm }, sample_timer tm ∷ t)

  unfoldable pub deassert_kind : ResetKind → Reset → Trace → Reset × Trace
  unfolding start_delay
  deassert_kind (active_low_with_delay tm d) r t = start_delay tm r t
  deassert_kind (active_high_with_delay tm d) r t = start_delay tm r t
  deassert_kind _ r t = (r, t)

  unfoldable pub deassert : Reset → Trace → Reset × Trace
  unfolding deassert_kind
  deassert r t = deassert_kind r.kind r (write_pin r.pin (not (assert_level r.kind)) ∷ t)

  -- Done at once when the timer has wrapped; the sum `m_tstart + m_delay` is a uint32_t.
  elapsed : ℕ → ℕ → ℕ → Bool → Bool
  elapsed tnow tstart d done =
      let wrapped = if ltb tnow tstart then true else done in
      if ltb (u32 (tstart + d)) tnow then true else wrapped

  delay_ready : ℕ → ℕ → Reset → Trace → Bool × Reset × Trace
  unfolding elapsed
  delay_ready tm d r t =
      let done' = elapsed (b.count t tm) r.tstart d r.done in
      (done', record r { done = done' }, sample_timer tm ∷ t)

  ready_kind : ResetKind → Reset → Trace → Bool × Reset × Trace
  unfolding delay_ready
  ready_kind (active_low_with_delay tm d) r t = delay_ready tm d r t
  ready_kind (active_high_with_delay tm d) r t = delay_ready tm d r t
  ready_kind (active_low_with_active_high_done p) r t = (b.pin t p, r, sample_pin p ∷ t)
  ready_kind (active_low_with_active_low_done p) r t = (not (b.pin t p), r, sample_pin p ∷ t)
  ready_kind _ r t = (true, r, t)

  pub is_ready : Reset → Trace → Bool × Reset × Trace
  unfolding ready_kind
  is_ready r t = ready_kind r.kind r t
