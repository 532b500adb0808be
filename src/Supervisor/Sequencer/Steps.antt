-- ===== src/Supervisor/Sequencer/Steps.antt =====
-- The steps of `UpdateResets`, one equation for each way that a step can go.
use common_embedded_platform.Prelude.{
  ℕ, zero, suc, ◌+◌, ◌≡◌, refl, true, false, none, some, arith, if◌then◌else◌, get_elem?, set,
  length, length-set,
}
use common_embedded_platform.Supervisor.Board.{Board}
use common_embedded_platform.Supervisor.Reset
use common_embedded_platform.Supervisor.Reset.{Reset}
use common_embedded_platform.Supervisor.Sequencer.{
  Supervisor, returns, out_of_range, poll_at, deassert_at, advance, update_active, back_up,
  check_earlier,
}

module _ {F : Type 0} (b : Board F) where
  -- The state after releasing line `r` at index `i`.
  abbrev pub released_at : ℕ → Reset → Supervisor F → Supervisor F
  released_at i r s = record s {
    resets = set s.resets i (Reset.deassert b r s.trace).0;
    trace = (Reset.deassert b r s.trace).1;
  }

  pub deassert_at-some :
      (i : ℕ) (r : Reset) (s : Supervisor F)
      → get_elem? s.resets i ≡ some r
      → deassert_at b i s ≡ returns (released_at i r s)
  unfolding deassert_at
  deassert_at-some i r s e = rw (e, deassert_at)

  pub update_active_done :
      (s : Supervisor F) → s.is_resets_done ≡ true → update_active b s ≡ returns s
  unfolding update_active
  update_active_done s done = ground arith

  pub update_active_busy :
      (s : Supervisor F) (r : Reset)
      → s.is_resets_done ≡ false
      → get_elem? s.resets s.reset_index ≡ some r
      → update_active b s ≡ (
          if (poll_at b s.reset_index r s).0
          then advance b (poll_at b s.reset_index r s).1
          else returns (poll_at b s.reset_index r s).1)
  unfolding update_active
  update_active_busy s r busy e = ground arith

  pub check_earlier-zero : (i : ℕ) (s : Supervisor F) → check_earlier b zero i s ≡ returns s
  unfolding check_earlier
  check_earlier-zero i s = refl

  pub check_earlier-suc :
      (n i : ℕ) (r : Reset) (s : Supervisor F)
      → get_elem? s.resets i ≡ some r
      → check_earlier b (suc n) i s ≡ (
          if (poll_at b i r s).0
          then check_earlier b n (i + 1) (poll_at b i r s).1
          else returns (back_up b i (poll_at b i r s).1))
  unfolding check_earlier
  check_earlier-suc n i r s e = ground arith

  pub power_on-poll_at :
      (i : ℕ) (r : Reset) (s : Supervisor F) → (poll_at b i r s).1.is_power_on ≡ s.is_power_on
  unfolding poll_at
  power_on-poll_at i r s = refl

  pub index-poll_at :
      (i : ℕ) (r : Reset) (s : Supervisor F) → (poll_at b i r s).1.reset_index ≡ s.reset_index
  unfolding poll_at
  index-poll_at i r s = refl

  pub length-poll_at :
      (i : ℕ) (r : Reset) (s : Supervisor F) → length (poll_at b i r s).1.resets ≡ length s.resets
  unfolding poll_at
  length-poll_at i r s = length-set s.resets i (Reset.is_ready b r s.trace).1

  pub update_active-none :
      (s : Supervisor F)
      → s.is_resets_done ≡ false
      → get_elem? s.resets s.reset_index ≡ none
      → update_active b s ≡ out_of_range
  unfolding update_active
  update_active-none s busy e = ground arith

  pub check_earlier-none :
      (n i : ℕ) (s : Supervisor F)
      → get_elem? s.resets i ≡ none
      → check_earlier b (suc n) i s ≡ out_of_range
  unfolding check_earlier
  check_earlier-none n i s e = ground arith
