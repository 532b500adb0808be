-- ===== src/Supervisor/Sequencer/Ordering.antt =====
-- The order of the reset sequence, as an invariant: while the power is on, every line after the
-- active one is held in reset.
pub mod Update
pub mod Runs
use common_embedded_platform.Prelude.{
  ℕ, zero, suc, ◌+◌, ◌≤◌, ◌<◌, ◌≡◌, ◌≢◌, refl, sym, ap, subst, ◌∙◌, Bool, true, false, none, some,
  List, [], ◌∷◌, arith, inl, inr, All, if◌then◌else◌, Bool-cases, get_elem?, set, drop, length,
  length-set, leb, get_elem?-in_range, get_elem?-some-lt,
}
use native.Mathlib.Numerals.{add-one}
use common_embedded_platform.Supervisor.Board.{
  Board, Trace, call_hook, power_on_hook, reset_done_hook, driven,
}
use common_embedded_platform.Supervisor.Rail
use common_embedded_platform.Supervisor.Rail.{Rail}
use common_embedded_platform.Supervisor.Rail.Timing.{driven-is_power_good}
use common_embedded_platform.Supervisor.Reset
use common_embedded_platform.Supervisor.Reset.{Reset}
use common_embedded_platform.Supervisor.Reset.Timing.{
  driven-deassert, driven-is_ready, deassert_same, is_ready_same,
}
use common_embedded_platform.Supervisor.Sequencer.{
  Supervisor, Outcome, returns, hangs, out_of_range, assert_all, shut_down, panic_shutdown,
  start_resets, turn_on_all, power_on, power_off, poll_at, deassert_at, advance, update_active,
  back_up, check_earlier, update_resets, rail_lost, next_rail, monitor_rails, iteration, ◌>>=◌,
}
use common_embedded_platform.Supervisor.Sequencer.Lines.{
  Held, pins, enables, Absent, AreDistinct, IsWired, Held-frame, All-map, All_of, pins-set,
  drop-set, drop_drop, later_apart, drop-AreDistinct, drop-apart,
}
use common_embedded_platform.Supervisor.Sequencer.Effects.{assert_all-Held, driven-turn_on_all}
use common_embedded_platform.Supervisor.Sequencer.Shutdown.{
  Ensures, Ensures-bind, IsSafe, Wired, panic_shutdown-IsSafe, power_off-IsSafe, released,
  start_resets-cons, shut_down-IsSafe,
}

-- The first line that has to be held.
abbrev pub first_held : {F : Type 0} → Supervisor F → ℕ
first_held s = if s.is_power_on then suc s.reset_index else 0

pub record IsOrdered {F : Type 0} (s : Supervisor F) : Type 0 where
  pub wired : Wired s
  pub index_in : s.reset_index ≤ length s.resets
  pub at_end : s.is_resets_done ≡ true → s.reset_index ≡ length s.resets
  pub active_in : s.is_power_on ≡ true → s.is_resets_done ≡ false → s.reset_index < length s.resets
  pub monitor_in : s.monitor_index < length s.rails
  pub some_line : 0 < length s.resets
  pub held : All (Held s.trace) (drop (first_held s) s.resets)

pub IsWired-pins :
    {F : Type 0} {rails : List (Rail F)} {rs rs' : List Reset}
    → pins rs' ≡ pins rs
    → IsWired rails rs
    → IsWired rails rs'
IsWired-pins {rails = rails} e w = record {
  resets_apart = subst AreDistinct (sym e) w.resets_apart;
  rails_apart = w.rails_apart;
  apart = subst (All (λ p. Absent p (enables rails))) (sym e) w.apart;
}

pub IsSafe-IsOrdered :
    {F : Type 0} {s : Supervisor F}
    → IsSafe s
    → Wired s
    → s.monitor_index < length s.rails
    → 0 < length s.resets
    → IsOrdered s
IsSafe-IsOrdered {s = s} safe w m n = record {
  wired = w;
  index_in = omega (arith, safe.index_cleared);
  at_end = λ e. absurd (ground (arith, safe.done_flag));
  active_in = λ e. absurd (ground (arith, safe.power_flag));
  monitor_in = m;
  some_line = n;
  held = rw safe.power_flag safe.resets_held;
}

module _ {F : Type 0} (b : Board F) where
  pub panic_shutdown-IsOrdered :
      (s : Supervisor F)
      → Wired s
      → s.monitor_index < length s.rails
      → 0 < length s.resets
      → Ensures IsOrdered (panic_shutdown b s)
  unfolding panic_shutdown shut_down
  panic_shutdown-IsOrdered s w m n = elim (Bool-cases b.fault_returns) [
    | inl back ↦ rw back (IsSafe-IsOrdered (shut_down-IsSafe b s w) w m n)
    | inr stuck ↦ rw stuck (IsSafe-IsOrdered (shut_down-IsSafe b s w) w m n)
  ]

  pub power_off-IsOrdered :
      (s : Supervisor F)
      → Wired s
      → s.monitor_index < length s.rails
      → 0 < length s.resets
      → IsOrdered (power_off b s)
  unfolding power_off
  power_off-IsOrdered s w m n = IsSafe-IsOrdered (power_off-IsSafe b s w) w m n

  pub start_resets-IsOrdered :
      (s : Supervisor F)
      → Wired s
      → s.monitor_index < length s.rails
      → 0 < length s.resets
      → All (Held s.trace) s.resets
      → Ensures IsOrdered (start_resets b s)
  start_resets-IsOrdered s w m some_line held = go s.resets refl
    where
      go : (rs : List Reset) → s.resets ≡ rs → Ensures IsOrdered (start_resets b s)
      go [] e = absurd (omega (arith, ap length e))
      go (r ∷ rs) e =
          let held' : All (Held s.trace) (r ∷ rs) = subst (All (Held s.trace)) e held in
          let w' : IsWired s.rails (r ∷ rs) = subst (IsWired s.rails) e w in
          rw (start_resets-cons b s r rs e) (record {
            wired = IsWired-pins (ap (λ p. p ∷ pins rs) (deassert_same b r s.trace).0) w';
            index_in = omega arith;
            at_end = λ h. absurd (cc);
            active_in = λ h k. omega arith;
            monitor_in = m;
            some_line = omega arith;
            held =
                Held-frame rs s.trace (call_hook power_on_hook ∷ (Reset.deassert b r s.trace).1)
                  (All-map (λ q. r.pin ≢ q)
                    (λ q. driven q (Reset.deassert b r s.trace).1 ≡ driven q s.trace) (pins rs)
                    (λ q ne. ground (arith, driven-deassert b r q s.trace)) w'.resets_apart.0)
                  held'.1;
          })

  -- The invariant is about what is driven: reading the board keeps it.
  pub trace-IsOrdered :
      (s : Supervisor F) (t' : Trace)
      → ((q : ℕ) → driven q t' ≡ driven q s.trace)
      → IsOrdered s
      → IsOrdered (record s { trace = t' })
  trace-IsOrdered s t' same h = record {
    wired = h.wired;
    index_in = h.index_in;
    at_end = h.at_end;
    active_in = h.active_in;
    monitor_in = h.monitor_in;
    some_line = h.some_line;
    held =
        Held-frame (drop (first_held s) s.resets) s.trace t'
          (All_of (λ q. driven q t' ≡ driven q s.trace) (pins (drop (first_held s) s.resets)) same)
          h.held;
  }
