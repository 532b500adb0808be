-- ===== src/Supervisor/Rail/Timing.antt =====
-- How long `TurnOn` waits, which samples decide it, and what it drives.
use common_embedded_platform.Prelude.{
  ℕ, zero, suc, ◌+◌, ◌≤◌, ◌<◌, ◌≡◌, refl, Bool, true, false, not, some, ◌∷◌, arith, ◌==◌,
  if◌then◌else◌, Bool-cases, ◌⊎◌, inl, inr,
}
use common_embedded_platform.Supervisor.Board.{Board, Trace, write_pin, sleep, driven, slept}
use common_embedded_platform.Supervisor.Since.{Since, now, did}
use common_embedded_platform.Supervisor.Rail.{
  Rail, RailKind, with_enable, off_level, has_feedback, wait_ready, turn_off, power_good,
  is_power_good, turn_on,
}

module _ (sample : Trace → Bool × Trace) (tm : ℕ) where
  -- The trace at which sample number `k` is taken, if no sample before it was good.
  abbrev pub before : ℕ → Trace → Trace
  before zero t = t
  before (suc k) t = before k (sleep tm 1 ∷ (sample t).1)

  wait_ready-first_good :
      (n k : ℕ) (t : Trace)
      → k ≤ n
      → ((j : ℕ) → j < k → (sample (before j t)).0 ≡ false)
      → (sample (before k t)).0 ≡ true
      → wait_ready sample tm n t ≡ (true, (sample (before k t)).1)
  unfolding wait_ready
  wait_ready-first_good zero zero t h bad good = ground arith
  wait_ready-first_good zero (suc k) t h bad good = absurd (omega arith)
  wait_ready-first_good (suc n) zero t h bad good = rw good
  wait_ready-first_good (suc n) (suc k) t h bad good = rw (bad 0 (omega arith)) (
      wait_ready-first_good n k (sleep tm 1 ∷ (sample t).1) (omega arith)
        (λ j hj. bad (suc j) (omega arith)) good)

  wait_ready-never_good :
      (n : ℕ) (t : Trace)
      → ((j : ℕ) → j ≤ n → (sample (before j t)).0 ≡ false)
      → wait_ready sample tm n t ≡ (false, (sample (before n t)).1)
  unfolding wait_ready
  wait_ready-never_good zero t bad = ground (arith, bad 0 (omega arith))
  wait_ready-never_good (suc n) t bad =
      rw (bad 0 (omega arith))
        (wait_ready-never_good n (sleep tm 1 ∷ (sample t).1) (λ j hj. bad (suc j) (omega arith)))

  module _ (q : ℕ) (quiet : (t : Trace) → driven q (sample t).1 ≡ driven q t) where
    driven-wait_ready : (n : ℕ) (t : Trace) → driven q (wait_ready sample tm n t).1 ≡ driven q t
    unfolding wait_ready
    driven-wait_ready zero t = quiet t
    driven-wait_ready (suc n) t =
        ground (arith, quiet t, driven-wait_ready n (sleep tm 1 ∷ (sample t).1))

  module _ (awake : (t : Trace) → slept tm (sample t).1 ≡ slept tm t) where
    slept-wait_ready : (n : ℕ) (t : Trace) → slept tm (wait_ready sample tm n t).1 ≤ slept tm t + n
    unfolding wait_ready
    slept-wait_ready zero t = omega (arith, awake t)
    slept-wait_ready (suc n) t =
        ground (arith, awake t, slept-wait_ready n (sleep tm 1 ∷ (sample t).1))

    slept-wait_ready_failed :
        (n : ℕ) (t : Trace)
        → (wait_ready sample tm n t).0 ≡ false
        → slept tm (wait_ready sample tm n t).1 ≡ slept tm t + n
    unfolding wait_ready
    slept-wait_ready_failed zero t h = omega (arith, awake t)
    slept-wait_ready_failed (suc n) t h =
        ground (arith, awake t, slept-wait_ready_failed n (sleep tm 1 ∷ (sample t).1))

pub driven-turn_off :
    {F : Type 0} (r : Rail F) (q : ℕ) (t : Trace)
    → driven q (turn_off r t) ≡ (if r.enable == q then some (off_level r.kind) else driven q t)
unfolding turn_off
driven-turn_off r q t = refl

module _ {F : Type 0} (b : Board F) where
  driven-power_good :
      (k : RailKind F) (q : ℕ) (t : Trace) → driven q (power_good b k t).1 ≡ driven q t
  unfolding power_good
  driven-power_good with_enable q t = refl
  driven-power_good _ q t = refl

  pub driven-is_power_good :
      (r : Rail F) (q : ℕ) (t : Trace) → driven q (is_power_good b r t).1 ≡ driven q t
  unfolding is_power_good
  driven-is_power_good r q t = driven-power_good r.kind q t

  Since-power_good : (k : RailKind F) (t : Trace) → Since t (power_good b k t).1
  unfolding power_good
  Since-power_good with_enable t = now
  Since-power_good _ t = did _ now

  pub Since-is_power_good : (r : Rail F) (t : Trace) → Since t (is_power_good b r t).1
  unfolding is_power_good
  Since-is_power_good r t = Since-power_good r.kind t

  slept-power_good : (k : RailKind F) (n : ℕ) (t : Trace) → slept n (power_good b k t).1 ≡ slept n t
  unfolding power_good
  slept-power_good with_enable n t = refl
  slept-power_good _ n t = refl

  -- `TurnOn`, whether it succeeds or fails, leaves the enable pin driven to the level that turns the
  -- rail on, and leaves every other pin as the code last drove it.
  pub driven-turn_on :
      (r : Rail F) (q : ℕ) (t : Trace)
      → driven q (turn_on b r t).1
        ≡ (if r.enable == q then some (not (off_level r.kind)) else driven q t)
  unfolding turn_on
  driven-turn_on r q t = elim (Bool-cases (has_feedback r.kind)) [
    | inl feedback ↦ rw feedback (
        driven-wait_ready (power_good b r.kind) r.timer q (driven-power_good r.kind q) r.delay
          (write_pin r.enable (not (off_level r.kind)) ∷ t))
    | inr blind ↦ rw blind
  ]

  -- `TurnOn` sleeps at most `m_delay` ticks on its timer, and it succeeds or sleeps exactly
  -- `m_delay` ticks.
  pub turn_on_time :
      (r : Rail F) (t : Trace)
      → (slept r.timer (turn_on b r t).1 ≤ slept r.timer t + r.delay)
        × (((turn_on b r t).0 ≡ true)
            ⊎ (slept r.timer (turn_on b r t).1 ≡ slept r.timer t + r.delay))
  unfolding turn_on
  turn_on_time r t =
      let t' = write_pin r.enable (not (off_level r.kind)) ∷ t in
      ground (
        arith,
        slept-wait_ready (power_good b r.kind) r.timer (slept-power_good r.kind r.timer) r.delay t',
        slept-wait_ready_failed (power_good b r.kind) r.timer (slept-power_good r.kind r.timer)
            r.delay t',
      )

  -- The trace at which `TurnOn` takes sample number `k`, if the samples before it were bad.
  abbrev pub sample_point : Rail F → Trace → ℕ → Trace
  sample_point r t k =
      before (power_good b r.kind) r.timer k (write_pin r.enable (not (off_level r.kind)) ∷ t)

  -- `TurnOn` of a rail with feedback returns true, with no further wait, at its first good sample,
  -- if that is one of the `m_delay + 1` samples that it takes.
  pub turn_on-first_good :
      (r : Rail F) (t : Trace) (k : ℕ)
      → has_feedback r.kind ≡ true
      → k ≤ r.delay
      → ((j : ℕ) → j < k → (is_power_good b r (sample_point r t j)).0 ≡ false)
      → (is_power_good b r (sample_point r t k)).0 ≡ true
      → turn_on b r t ≡ (true, (is_power_good b r (sample_point r t k)).1)
  unfolding turn_on is_power_good
  turn_on-first_good r t k feedback h bad good = rw feedback (
      wait_ready-first_good (power_good b r.kind) r.timer r.delay k
        (write_pin r.enable (not (off_level r.kind)) ∷ t) h bad good)

  -- `TurnOn` of a rail with feedback reports failure if its `m_delay + 1` samples are all bad.
  pub turn_on-never_good :
      (r : Rail F) (t : Trace)
      → has_feedback r.kind ≡ true
      → ((j : ℕ) → j ≤ r.delay → (is_power_good b r (sample_point r t j)).0 ≡ false)
      → turn_on b r t ≡ (false, (is_power_good b r (sample_point r t r.delay)).1)
  unfolding turn_on is_power_good
  turn_on-never_good r t feedback bad = rw feedback (
      wait_ready-never_good (power_good b r.kind) r.timer r.delay
        (write_pin r.enable (not (off_level r.kind)) ∷ t) bad)
