-- ===== src/Supervisor/Sequencer/Ordering/Update.antt =====
-- `UpdateResets` keeps the order of the resets.
use common_embedded_platform.Prelude.{
  ℕ, zero, suc, ◌+◌, ◌≤◌, ◌<◌, ◌≡◌, ◌≢◌, refl, ◌∙◌, true, some, ◌∷◌, arith, inl, inr, All,
  Bool-cases, get_elem?, drop, length, length-set, leb, get_elem?-in_range,
}
use native.Mathlib.Numerals.{add-one}
use common_embedded_platform.Supervisor.Board.{Board, call_hook, reset_done_hook, driven}
use common_embedded_platform.Supervisor.Reset
use common_embedded_platform.Supervisor.Reset.{Reset}
use common_embedded_platform.Supervisor.Reset.Timing.{
  driven-deassert, driven-is_ready, deassert_same, is_ready_same,
}
use common_embedded_platform.Supervisor.Sequencer.{
  Supervisor, poll_at, deassert_at, advance, update_active, back_up, check_earlier, update_resets,
}
use common_embedded_platform.Supervisor.Sequencer.Lines.{
  Held, pins, Held-frame, All-map, All_of, pins-set, drop-set, drop_drop, later_apart,
  drop-AreDistinct,
}
use common_embedded_platform.Supervisor.Sequencer.Effects.{assert_all-Held}
use common_embedded_platform.Supervisor.Sequencer.Shutdown.{Ensures, Ensures-bind}
use common_embedded_platform.Supervisor.Sequencer.Steps.{
  deassert_at-some, update_active_done, update_active_busy, check_earlier-zero, check_earlier-suc,
  power_on-poll_at, index-poll_at, length-poll_at,
}
use common_embedded_platform.Supervisor.Sequencer.Ordering.{IsOrdered, IsWired-pins}

module _ {F : Type 0} (b : Board F) where
  -- Polling a line up to the active one keeps the invariant.
  poll_at-IsOrdered :
      (i : ℕ) (r : Reset) (s : Supervisor F)
      → IsOrdered s
      → s.is_power_on ≡ true
      → i ≤ s.reset_index
      → get_elem? s.resets i ≡ some r
      → IsOrdered (poll_at b i r s).1
  unfolding poll_at
  poll_at-IsOrdered i r s h on i_le e =
      let r' = (Reset.is_ready b r s.trace).1 in
      let t' = (Reset.is_ready b r s.trace).2 in
      record {
        wired = IsWired-pins (pins-set s.resets i r r' e (is_ready_same b r s.trace).0) h.wired;
        index_in = omega (arith, length-set s.resets i r', h.index_in);
        at_end = λ d. omega (arith, length-set s.resets i r', h.at_end d);
        active_in = λ o d. omega (arith, length-set s.resets i r', h.active_in o d);
        monitor_in = h.monitor_in;
        some_line = omega (arith, length-set s.resets i r', h.some_line);
        held =
            let old : All (Held s.trace) (drop (suc s.reset_index) s.resets) = rw on at (h.held) in
            rw on (
              rw (drop-set s.resets i (suc s.reset_index) r' (omega arith)) (
                Held-frame (drop (suc s.reset_index) s.resets) s.trace t'
                  (All_of (λ q. driven q t' ≡ driven q s.trace)
                    (pins (drop (suc s.reset_index) s.resets)) (λ q. driven-is_ready b r q s.trace))
                  old));
      }

  abbrev pub IsRunning : Supervisor F → Type 0
  IsRunning s = IsOrdered s × (s.is_power_on ≡ true)

  -- Releasing the line after the last released one, which is the new active line.
  deassert_next-IsRunning :
      (s : Supervisor F)
      → IsRunning s
      → suc s.reset_index < length s.resets
      → Ensures IsRunning
          (deassert_at b (suc s.reset_index) (record s { reset_index = suc s.reset_index }))
  deassert_next-IsRunning s (h, on) lt =
      let i : ℕ = suc s.reset_index in
      let (r, e) = get_elem?-in_range s.resets i lt in
      let r' = (Reset.deassert b r s.trace).0 in
      let t' = (Reset.deassert b r s.trace).1 in
      let old : All (Held s.trace) (drop i s.resets) = rw on at (h.held) in
      rw (deassert_at-some b i r (record s { reset_index = i }) e) (
        record {
          wired = IsWired-pins (pins-set s.resets i r r' e (deassert_same b r s.trace).0) h.wired;
          index_in = omega (arith, length-set s.resets i r');
          at_end = λ d. absurd (omega (arith, h.at_end d));
          active_in = λ o d. omega (arith, length-set s.resets i r');
          monitor_in = h.monitor_in;
          some_line = omega (arith, length-set s.resets i r', h.some_line);
          held = rw on (
              rw (drop-set s.resets i (suc i) r' (omega arith)) (
                Held-frame (drop (suc i) s.resets) s.trace t'
                  (All-map (λ q. r.pin ≢ q) (λ q. driven q t' ≡ driven q s.trace)
                    (pins (drop (suc i) s.resets))
                    (λ q ne. ground (arith, driven-deassert b r q s.trace))
                    (later_apart s.resets i r h.wired.resets_apart e))
                  (drop_drop (Held s.trace) s.resets i (suc i) (omega arith) old)));
        },
        on,
      )

  advance-IsRunning :
      (s : Supervisor F)
      → IsRunning s
      → s.reset_index < length s.resets
      → Ensures IsRunning (advance b s)
  unfolding advance
  advance-IsRunning s (h, on) lt = elim (Bool-cases (leb (length s.resets) (s.reset_index + 1))) [
    | inl last ↦
        let i : ℕ = suc s.reset_index in
        let old : All (Held s.trace) (drop i s.resets) = rw on at (h.held) in
        rw (last, add-one)
          (
            record {
              wired = h.wired;
              index_in = omega arith;
              at_end = λ d. ground arith;
              active_in = λ o d. absurd (cc);
              monitor_in = h.monitor_in;
              some_line = h.some_line;
              held = rw on (
                  Held-frame (drop (suc i) s.resets) s.trace (call_hook reset_done_hook ∷ s.trace)
                    (All_of (λ q. driven q s.trace ≡ driven q s.trace)
                      (pins (drop (suc i) s.resets)) (λ q. refl))
                    (drop_drop (Held s.trace) s.resets i (suc i) (omega arith) old));
            },
            on,
          )
    | inr more ↦ rw (more, add-one) (deassert_next-IsRunning s (h, on) (ground arith))
  ]

  update_active-IsRunning : (s : Supervisor F) → IsRunning s → Ensures IsRunning (update_active b s)
  update_active-IsRunning s (h, on) = elim (Bool-cases s.is_resets_done) [
    | inl done ↦ rw (update_active_done b s done) (h, on)
    | inr busy ↦
        let i = s.reset_index in
        let (r, e) = get_elem?-in_range s.resets i (h.active_in on busy) in
        let h' : IsOrdered (poll_at b i r s).1 = poll_at-IsOrdered i r s h on (omega arith) e in
        let on' : (poll_at b i r s).1.is_power_on ≡ true = power_on-poll_at b i r s ∙ on in
        rw (update_active_busy b s r busy e) (elim (Bool-cases (poll_at b i r s).0) [
          | inl ready ↦ rw ready (
              advance-IsRunning (poll_at b i r s).1 (h', on')
                (omega (arith, index-poll_at b i r s, length-poll_at b i r s, h.active_in on busy)))
          | inr waiting ↦ rw waiting (h', on')
        ])
  ]

  back_up-IsRunning :
      (i : ℕ) (s : Supervisor F) → IsRunning s → i < s.reset_index → IsRunning (back_up b i s)
  unfolding back_up
  back_up-IsRunning i s (h, on) lt =
      let later = drop (suc i) s.resets in
      (
        record {
          wired = h.wired;
          index_in = omega (arith, h.index_in);
          at_end = λ d. absurd (cc);
          active_in = λ o d. omega (arith, h.index_in);
          monitor_in = h.monitor_in;
          some_line = h.some_line;
          held =
              rw (on, add-one)
                (assert_all-Held later s.trace
                  (drop-AreDistinct s.resets (suc i) h.wired.resets_apart));
        },
        on,
      )

  check_earlier-IsRunning :
      (n i : ℕ) (s : Supervisor F)
      → IsRunning s
      → i + n ≤ s.reset_index
      → Ensures IsRunning (check_earlier b n i s)
  check_earlier-IsRunning zero i s (h, on) le = rw (check_earlier-zero b i s) (h, on)
  check_earlier-IsRunning (suc n) i s (h, on) le =
      let (r, e) = get_elem?-in_range s.resets i (omega (arith, h.index_in)) in
      let s' = (poll_at b i r s).1 in
      let h' : IsOrdered s' = poll_at-IsOrdered i r s h on (omega arith) e in
      let on' : s'.is_power_on ≡ true = power_on-poll_at b i r s ∙ on in
      rw (check_earlier-suc b n i r s e) (elim (Bool-cases (poll_at b i r s).0) [
        | inl ready ↦
            rw ready (
              check_earlier-IsRunning n (i + 1) s' (h', on') (omega (arith, index-poll_at b i r s)))
        | inr down ↦
            rw down (back_up-IsRunning i s' (h', on') (omega (arith, index-poll_at b i r s)))
      ])

  -- `UpdateResets` never reads past the reset sequence and keeps the order of the resets, in a
  -- state that keeps it and has the power on.
  pub update_resets-IsRunning :
      (s : Supervisor F) → IsRunning s → Ensures IsRunning (update_resets b s)
  unfolding update_resets
  update_resets-IsRunning s h =
      Ensures-bind IsRunning IsRunning (update_active b s)
        (λ s'. check_earlier b s'.reset_index 0 s') (update_active-IsRunning s h)
        (λ s' h'. check_earlier-IsRunning s'.reset_index 0 s' h' (omega arith)) (λ s' h'. h')
