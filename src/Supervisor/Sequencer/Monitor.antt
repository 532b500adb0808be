-- ===== src/Supervisor/Sequencer/Monitor.antt =====
-- `MonitorRails` looks at one rail in each iteration, in turn: how soon a failure is seen.
use common_embedded_platform.Prelude.{
  ℕ, zero, suc, ◌+◌, ◌-◌, ◌%◌, ◌<◌, ◌≡◌, ◌⊎◌, refl, ◌∙◌, true, false, some, arith, inl, inr,
  if◌then◌else◌, Bool-cases, get_elem?, length, leb, ltb, get_elem?-in_range, get_elem?-some-lt,
}
use native.Mathlib.Nat.{mod-eq_of_lt, mod_self}
use common_embedded_platform.Supervisor.Board.{Board, Trace}
use common_embedded_platform.Supervisor.Since.{Since, Since-trans}
use common_embedded_platform.Supervisor.Rail
use common_embedded_platform.Supervisor.Rail.{Rail}
use common_embedded_platform.Supervisor.Rail.Timing.{Since-is_power_good}
use common_embedded_platform.Supervisor.Sequencer.{
  Supervisor, Outcome, returns, hangs, out_of_range, shut_down, panic_shutdown, power_off,
  update_resets, rail_lost, next_rail, monitor_rails, iteration, ◌>>=◌,
}
use common_embedded_platform.Supervisor.Sequencer.Shutdown.{Ensures}
use common_embedded_platform.Supervisor.Sequencer.Ordering.{IsOrdered}
use common_embedded_platform.Supervisor.Sequencer.Ordering.Update.{
  IsRunning, update_resets-IsRunning,
}
use common_embedded_platform.Supervisor.Sequencer.Ordering.Runs.{
  iteration-IsOrdered, monitor_rails-some,
}
use common_embedded_platform.Supervisor.Sequencer.Frame.{
  Leaves, Proceeds, Splits, Splits-bind, SameRails, update_resets-SameRails,
}

Ensures-Splits-bind :
    {A : Type 0} (P Q R S : A → Type 0) (m : Outcome A) (f : A → Outcome A)
    → Ensures P m
    → Splits Q R m
    → ((a : A) → P a → Q a → Ensures S (f a))
    → ((a : A) → R a → S a)
    → Ensures S (m >>= f)
Ensures-Splits-bind P Q R S (returns a) f h g k l = k a h g
Ensures-Splits-bind P Q R S (hangs a) f h g k l = l a g
Ensures-Splits-bind P Q R S out_of_range f h g k l = h

Splits-map :
    {A : Type 0} (P Q R : A → Type 0) (m : Outcome A)
    → Splits P R m
    → ((a : A) → P a → Q a)
    → Splits Q R m
Splits-map P Q R (returns a) h f = f a h
Splits-map P Q R (hangs a) h f = h
Splits-map P Q R out_of_range h f = tt

-- One step round a ring of `n` places brings place `j` one step nearer.
go_round :
    (n m d j : ℕ)
    → m < n
    → j < n
    → (m + suc d ≡ j) ⊎ (m + suc d ≡ j + n)
    → ((m + 1) % n + d ≡ j) ⊎ ((m + 1) % n + d ≡ j + n)
go_round n m d j hm hj at = elim (Bool-cases (ltb (m + 1) n)) [
  | inl inside ↦ let lt : m + 1 < n = ground arith in rw (mod-eq_of_lt lt) (go at)
  | inr last ↦ let e : m + 1 ≡ n = ground arith in rw (e, mod_self) (inl (ground arith))
]
  where
    go : (m + suc d ≡ j) ⊎ (m + suc d ≡ j + n) → (m + 1 + d ≡ j) ⊎ (m + 1 + d ≡ j + n)
    go (inl h) = inl (omega arith)
    go (inr h) = inr (omega arith)

abbrev pub IsDown : {F : Type 0} → Supervisor F → Type 0
IsDown s = s.is_power_on ≡ false

Ensures-Proceeds :
    {A : Type 0} (P Q : A → Type 0) (m : Outcome A)
    → Ensures P m
    → Proceeds Q m
    → Splits (λ a. P a × Q a) (λ _. ⊥) m
Ensures-Proceeds P Q (returns a) h k = (h, k)
Ensures-Proceeds P Q (hangs a) h k = k
Ensures-Proceeds P Q out_of_range h k = k

module _ {F : Type 0} (b : Board F) where
  -- The power is off, or the monitor has gone on to the next rail.
  abbrev Onward : Supervisor F → Supervisor F → Type 0
  Onward s s' =
      (s'.is_power_on ≡ false)
      ⊎ ((s'.rails ≡ s.rails)
          × (s'.monitor_index ≡ (s.monitor_index + 1) % length s.rails)
          × (s'.is_power_on ≡ true)
          × Since s.trace s'.trace)

  panic_shutdown-off : (s : Supervisor F) → Leaves IsDown (panic_shutdown b s)
  unfolding panic_shutdown shut_down
  panic_shutdown-off s = ground arith

  next_rail-off : (s : Supervisor F) → s.is_power_on ≡ false → Leaves IsDown (next_rail b s)
  unfolding next_rail
  next_rail-off s h = h

  rail_lost-critical :
      (r : Rail F) (s : Supervisor F) → r.is_critical ≡ true → rail_lost b r s ≡ panic_shutdown b s
  unfolding rail_lost
  rail_lost-critical r s h = rw h

  -- `MonitorRails` at a critical rail that is not good turns the power off.
  monitor_rails-caught :
      (s : Supervisor F) (r : Rail F)
      → get_elem? s.rails s.monitor_index ≡ some r
      → r.is_critical ≡ true
      → (Rail.is_power_good b r s.trace).0 ≡ false
      → Leaves IsDown (monitor_rails b s)
  monitor_rails-caught s r e critical bad =
      let s' = record s { trace = (Rail.is_power_good b r s.trace).1 } in
      rw (monitor_rails-some b s r e) (
        rw (bad, rail_lost-critical r s' critical)
          (Splits-bind IsDown IsDown IsDown IsDown (panic_shutdown b s') (next_rail b)
            (panic_shutdown-off s') next_rail-off (λ u h. h)))

  next_rail-Onward :
      (s s' : Supervisor F)
      → s.is_power_on ≡ true
      → (s'.is_power_on ≡ false) ⊎ SameRails s s'
      → Splits (Onward s) IsDown (next_rail b s')
  unfolding next_rail
  next_rail-Onward s s' on (inl off) = inl off
  next_rail-Onward s s' on (inr same) =
      inr (same.rails, rw (same.rails, same.monitor) refl, same.power ∙ on, same.trace)

  rail_lost-after_sample :
      (r : Rail F) (s : Supervisor F) (t' : Trace)
      → s.is_power_on ≡ true
      → Since s.trace t'
      → Splits
          (λ s'. (s'.is_power_on ≡ false) ⊎ SameRails s s')
          IsDown
          (rail_lost b r (record s { trace = t' }))
  unfolding rail_lost panic_shutdown shut_down power_off
  rail_lost-after_sample r s t' on after = elim (Bool-cases r.is_critical) [
    | inl critical ↦ elim (Bool-cases b.fault_returns) [
      | inl back ↦ rw (critical, back) (inl refl)
      | inr stuck ↦ rw (critical, stuck) refl
    ]
    | inr spare ↦ elim (Bool-cases r.is_input_supply) [
      | inl input ↦ rw (spare, input) (inl refl)
      | inr other ↦
          rw (spare, other)
            (inr (record { rails = refl; monitor = refl; power = refl; trace = after }))
    ]
  ]

  monitor_rails-Onward :
      (s : Supervisor F)
      → s.monitor_index < length s.rails
      → s.is_power_on ≡ true
      → Splits (Onward s) IsDown (monitor_rails b s)
  monitor_rails-Onward s lt on =
      let (r, e) = get_elem?-in_range s.rails s.monitor_index lt in
      let s' = record s { trace = (Rail.is_power_good b r s.trace).1 } in
      rw (monitor_rails-some b s r e) (
        Splits-bind (λ u. (u.is_power_on ≡ false) ⊎ SameRails s u) IsDown (Onward s) IsDown
          (if (Rail.is_power_good b r s.trace).0 then returns s' else rail_lost b r s')
          (next_rail b)
          (elim (Bool-cases (Rail.is_power_good b r s.trace).0) [
            | inl good ↦ rw good (
                inr (record {
                  rails = refl;
                  monitor = refl;
                  power = refl;
                  trace = Since-is_power_good b r s.trace;
                }))
            | inr bad ↦ rw bad (
                rail_lost-after_sample r s (Rail.is_power_good b r s.trace).1 on
                  (Since-is_power_good b r s.trace))
          ])
          (λ u h. next_rail-Onward s u on h) (λ u h. h))

  -- `Iteration` while the power is on.
  iteration_on :
      (s : Supervisor F)
      → s.is_power_on ≡ true
      → iteration b s ≡ (update_resets b s >>= monitor_rails b)
  unfolding iteration
  iteration_on s on = ground arith

  iteration_off : (s : Supervisor F) → s.is_power_on ≡ false → iteration b s ≡ returns s
  unfolding iteration
  iteration_off s off = ground arith

  Onward-frame : (s s' u : Supervisor F) → SameRails s s' → Onward s' u → Onward s u
  Onward-frame s s' u same (inl off) = inl off
  Onward-frame s s' u same (inr (rails, monitor, power, after)) = inr (
    rails ∙ same.rails,
    ground (arith, same.rails, same.monitor),
    power,
    Since-trans same.trace after,
  )

  iteration-Onward :
      (s : Supervisor F)
      → IsOrdered s
      → s.is_power_on ≡ true
      → Splits (Onward s) IsDown (iteration b s)
  iteration-Onward s h on = rw (iteration_on s on) (
      Splits-bind (λ s'. IsRunning b s' × SameRails s s') (λ _. ⊥) (Onward s) IsDown
        (update_resets b s) (monitor_rails b)
        (Ensures-Proceeds (IsRunning b) (SameRails s) (update_resets b s)
          (update_resets-IsRunning b s (h, on)) (update_resets-SameRails b s))
        (λ s' k.
          Splits-map (Onward s') (Onward s) IsDown (monitor_rails b s')
            (monitor_rails-Onward s' k.0.0.monitor_in k.0.1) (λ u o. Onward-frame s s' u k.1 o))
        (λ s' k. absurd k))

  -- Whenever the rail is looked at after the trace, it is not good.
  abbrev pub StaysBad : Rail F → Trace → Type 0
  StaysBad r t = (u : Trace) → Since t u → (Rail.is_power_good b r u).0 ≡ false

  -- One iteration at a critical rail that is not good turns the power off.
  iteration-caught :
      (s : Supervisor F) (r : Rail F)
      → IsOrdered s
      → s.is_power_on ≡ true
      → get_elem? s.rails s.monitor_index ≡ some r
      → r.is_critical ≡ true
      → StaysBad r s.trace
      → Leaves IsDown (iteration b s)
  iteration-caught s r h on e critical bad = rw (iteration_on s on) (
      Splits-bind (λ s'. IsRunning b s' × SameRails s s') (λ _. ⊥) _ IsDown (update_resets b s)
        (monitor_rails b)
        (Ensures-Proceeds (IsRunning b) (SameRails s) (update_resets b s)
          (update_resets-IsRunning b s (h, on)) (update_resets-SameRails b s))
        (λ s' k.
          monitor_rails-caught s' r (rw (k.1.rails, k.1.monitor) e) critical
            (bad s'.trace k.1.trace))
        (λ s' k. absurd k))

  -- `n` rounds of the main loop, as far as this task goes.
  pub iterations : ℕ → Supervisor F → Outcome (Supervisor F)
  iterations zero s = returns s
  iterations (suc n) s = iteration b s >>= iterations n

  iterations_off : (n : ℕ) (s : Supervisor F) → s.is_power_on ≡ false → iterations n s ≡ returns s
  unfolding iterations
  iterations_off zero s off = refl
  iterations_off (suc n) s off = rw (iteration_off s off) (iterations_off n s off)

  module _ (j : ℕ) (r : Rail F) (critical : r.is_critical ≡ true) where
    -- The rail stands `d` places on from the monitor's position, going round.
    caught_after :
        (m d : ℕ) (s : Supervisor F)
        → d < m
        → IsOrdered s
        → StaysBad r s.trace
        → s.is_power_on ≡ true
        → get_elem? s.rails j ≡ some r
        → d < length s.rails
        → (s.monitor_index + d ≡ j) ⊎ (s.monitor_index + d ≡ j + length s.rails)
        → Ensures IsDown (iterations m s)
    unfolding iterations
    caught_after zero d s lt h bad on e near at = absurd (omega arith)
    caught_after (suc m) zero s lt h bad on e near at =
        let here : s.monitor_index ≡ j = grind (arith, h.monitor_in) in
        Ensures-Splits-bind IsOrdered IsDown IsDown IsDown (iteration b s) (iterations m)
          (iteration-IsOrdered b s h) (iteration-caught s r h on (rw here e) critical bad)
          (λ s' _ off. rw (iterations_off m s' off) off) (λ s' off. off)
    caught_after (suc m) (suc d) s lt h bad on e near at =
        Ensures-Splits-bind IsOrdered (Onward s) IsDown IsDown (iteration b s) (iterations m)
          (iteration-IsOrdered b s h) (iteration-Onward s h on)
          (λ s' h' o. elim o [
            | inl off ↦ rw (iterations_off m s' off) off
            | inr (rails, monitor, on', after) ↦
                caught_after m d s' (omega arith) h' (λ u k. bad u (Since-trans after k)) on'
                  (rw rails e) (rw rails (omega arith))
                  (rw (rails, monitor)
                    (go_round (length s.rails) s.monitor_index d j h.monitor_in
                      (get_elem?-some-lt s.rails j r e) at))
          ])
          (λ s' off. off)

  -- The power is on, in a state as `PowerOn` leaves it when the power was off: there is a reset line, no two
  -- of the rails and reset lines share a pin, the indices are in range, and the lines after the
  -- active one are asserted. If from now on, whatever is still done to the board, `IsPowerGood` of a
  -- critical rail is false, then the supervisor has turned the power off after as many iterations as
  -- there are rails, wherever the monitor stands and whatever the resets do.
  pub critical_failure_detected :
      (s : Supervisor F) (j : ℕ) (r : Rail F)
      → IsOrdered s
      → s.is_power_on ≡ true
      → get_elem? s.rails j ≡ some r
      → r.is_critical ≡ true
      → StaysBad r s.trace
      → Ensures IsDown (iterations (length s.rails) s)
  critical_failure_detected s j r h on e critical bad =
      let lt : j < length s.rails = get_elem?-some-lt s.rails j r e in
      elim (Bool-cases (leb s.monitor_index j)) [
        | inl ahead ↦
            caught_after j r critical (length s.rails) (j - s.monitor_index) s (omega arith) h bad
              on e (omega arith) (inl (ground arith))
        | inr behind ↦
            caught_after j r critical (length s.rails) (j + length s.rails - s.monitor_index) s
              (ground (arith, h.monitor_in)) h bad on e (ground (arith, h.monitor_in))
              (inr (ground (arith, h.monitor_in)))
      ]
