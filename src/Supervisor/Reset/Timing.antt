-- ===== src/Supervisor/Reset/Timing.antt =====
-- When a reset line reports ready, and what its operations drive.
use common_embedded_platform.Prelude.{
  ℕ, ◌+◌, ◌≤◌, ◌<◌, ◌^◌, ◌≡◌, ◌↔◌, ◌⊎◌, refl, true, not, some, ◌∷◌, arith, ◌==◌, if◌then◌else◌,
}
use common_embedded_platform.Supervisor.Board.{Board, Trace, write_pin, driven}
use common_embedded_platform.Supervisor.Since.{Since, now, did, Since-trans}
use common_embedded_platform.Supervisor.Reset.{
  active_high, Reset, ResetKind, active_low, active_low_with_delay, active_high_with_delay,
  assert_level, assert, deassert, deassert_kind, is_ready, ready_kind,
}

pub driven-assert :
    (r : Reset) (q : ℕ) (t : Trace)
    → driven q (assert r t) ≡ (if r.pin == q then some (assert_level r.kind) else driven q t)
unfolding assert
driven-assert r q t = refl

pub Since-assert : (r : Reset) (t : Trace) → Since t (assert r t)
unfolding assert
Since-assert r t = did _ now

module _ {F : Type 0} (b : Board F) where
  driven-deassert_kind :
      (k : ResetKind) (r : Reset) (q : ℕ) (t : Trace)
      → driven q (deassert_kind b k r t).1 ≡ driven q t
  unfolding deassert_kind
  driven-deassert_kind active_low r q t = refl
  driven-deassert_kind _ r q t = refl

  pub driven-deassert :
      (r : Reset) (q : ℕ) (t : Trace)
      → driven q (deassert b r t).1
        ≡ (if r.pin == q then some (not (assert_level r.kind)) else driven q t)
  unfolding deassert
  driven-deassert r q t =
      driven-deassert_kind r.kind r q (write_pin r.pin (not (assert_level r.kind)) ∷ t)

  deassert_kind_same :
      (k : ResetKind) (r : Reset) (t : Trace)
      → ((deassert_kind b k r t).0.pin ≡ r.pin) × ((deassert_kind b k r t).0.kind ≡ r.kind)
  unfolding deassert_kind
  deassert_kind_same active_low r t = (refl, refl)
  deassert_kind_same _ r t = (refl, refl)

  pub deassert_same :
      (r : Reset) (t : Trace)
      → ((deassert b r t).0.pin ≡ r.pin) × ((deassert b r t).0.kind ≡ r.kind)
  unfolding deassert
  deassert_same r t = deassert_kind_same r.kind r (write_pin r.pin (not (assert_level r.kind)) ∷ t)

  driven-ready_kind :
      (k : ResetKind) (r : Reset) (q : ℕ) (t : Trace) → driven q (ready_kind b k r t).2 ≡ driven q t
  unfolding ready_kind
  driven-ready_kind active_low r q t = refl
  driven-ready_kind _ r q t = refl

  pub driven-is_ready : (r : Reset) (q : ℕ) (t : Trace) → driven q (is_ready b r t).2 ≡ driven q t
  unfolding is_ready
  driven-is_ready r q t = driven-ready_kind r.kind r q t

  Since-deassert_kind : (k : ResetKind) (r : Reset) (t : Trace) → Since t (deassert_kind b k r t).1
  unfolding deassert_kind
  Since-deassert_kind active_low r t = now
  Since-deassert_kind (active_low_with_delay tm d) r t = did _ now
  Since-deassert_kind (active_high_with_delay tm d) r t = did _ now
  Since-deassert_kind _ r t = now

  pub Since-deassert : (r : Reset) (t : Trace) → Since t (deassert b r t).1
  unfolding deassert
  Since-deassert r t =
      Since-trans (did (write_pin r.pin (not (assert_level r.kind))) now)
        (Since-deassert_kind r.kind r (write_pin r.pin (not (assert_level r.kind)) ∷ t))

  Since-ready_kind : (k : ResetKind) (r : Reset) (t : Trace) → Since t (ready_kind b k r t).2
  unfolding ready_kind
  Since-ready_kind active_low r t = now
  Since-ready_kind active_high r t = now
  Since-ready_kind _ r t = did _ now

  pub Since-is_ready : (r : Reset) (t : Trace) → Since t (is_ready b r t).2
  unfolding is_ready
  Since-is_ready r t = Since-ready_kind r.kind r t

  ready_kind_same :
      (k : ResetKind) (r : Reset) (t : Trace)
      → ((ready_kind b k r t).1.pin ≡ r.pin) × ((ready_kind b k r t).1.kind ≡ r.kind)
  unfolding ready_kind
  ready_kind_same active_low r t = (refl, refl)
  ready_kind_same _ r t = (refl, refl)

  pub is_ready_same :
      (r : Reset) (t : Trace)
      → ((is_ready b r t).1.pin ≡ r.pin) × ((is_ready b r t).1.kind ≡ r.kind)
  unfolding is_ready
  is_ready_same r t = ready_kind_same r.kind r t

  module _ (tm d : ℕ) (r : Reset) (t : Trace) where
    -- A line with a delay that was released at time `m_tstart`, where the sum with the delay fits 32
    -- bits: `IsReady` reports true exactly if it has done so before, or more than the delay has
    -- passed, or the timer has wrapped to before the release; and then it goes on reporting true.
    pub is_ready_with_delay :
        (r.kind ≡ active_low_with_delay tm d) ⊎ (r.kind ≡ active_high_with_delay tm d)
        → r.tstart + d < 2 ^ 32
        → (((is_ready b r t).0 ≡ true)
            ↔ ((r.done ≡ true) ⊎ (r.tstart + d < b.count t tm) ⊎ (b.count t tm < r.tstart)))
          × ((is_ready b r t).1.done ≡ (is_ready b r t).0)
    unfolding is_ready
    is_ready_with_delay k fits = ground arith

    -- The count of the timer when the line has just been driven to its released level.
    abbrev pub released : ℕ
    released = b.count (write_pin r.pin (not (assert_level r.kind)) ∷ t) tm

    -- Where the sum of the release time and the delay passes 32 bits, `IsReady` reports true before
    -- the delay is over: at any time from the release on that is past the wrapped sum.
    pub is_ready_early :
        (r.kind ≡ active_low_with_delay tm d) ⊎ (r.kind ≡ active_high_with_delay tm d)
        → r.tstart < 2 ^ 32
        → d < 2 ^ 16
        → 2 ^ 32 ≤ r.tstart + d
        → r.tstart ≤ b.count t tm
        → (is_ready b r t).0 ≡ true
    unfolding is_ready
    is_ready_early k small short wraps later = ground arith
