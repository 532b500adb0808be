-- ===== src/Supervisor/Sequencer/Ordering/Runs.antt =====
-- Every state that the supervisor reaches keeps the order of the resets.
use common_embedded_platform.Prelude.{
  ◌<◌, length, ◌≡◌, subst, false, some, ◌∷◌, arith, inl, inr, All, if◌then◌else◌, Bool-cases,
  get_elem?, drop, get_elem?-in_range,
}
use common_embedded_platform.Supervisor.Board.{Board, call_hook, power_lost_hook, driven}
use common_embedded_platform.Supervisor.Rail
use common_embedded_platform.Supervisor.Rail.{Rail}
use common_embedded_platform.Supervisor.Rail.Timing.{driven-is_power_good}
use common_embedded_platform.Supervisor.Sequencer.{
  Supervisor, Outcome, returns, panic_shutdown, turn_on_all, power_on, power_off, update_resets,
  rail_lost, next_rail, monitor_rails, iteration, ◌>>=◌,
}
use common_embedded_platform.Supervisor.Sequencer.Lines.{
  Held, pins, enables, Absent, Held-frame, All-map,
}
use common_embedded_platform.Supervisor.Sequencer.Effects.{driven-turn_on_all}
use common_embedded_platform.Supervisor.Sequencer.Shutdown.{Ensures, Ensures-bind, IsSafe, Wired}
use common_embedded_platform.Supervisor.Sequencer.Ordering.{
  IsOrdered, IsSafe-IsOrdered, first_held, trace-IsOrdered, panic_shutdown-IsOrdered,
  power_off-IsOrdered, start_resets-IsOrdered,
}
use common_embedded_platform.Supervisor.Sequencer.Ordering.Update.{
  IsRunning, update_resets-IsRunning,
}

module _ {F : Type 0} (b : Board F) where
  rail_lost-IsOrdered :
      (r : Rail F) (s : Supervisor F) → IsOrdered s → Ensures IsOrdered (rail_lost b r s)
  unfolding rail_lost
  rail_lost-IsOrdered r s h = elim (Bool-cases r.is_critical) [
    | inl critical ↦ rw critical (panic_shutdown-IsOrdered b s h.wired h.monitor_in h.some_line)
    | inr spare ↦ elim (Bool-cases r.is_input_supply) [
      | inl input ↦
          rw (spare, input)
            (power_off-IsOrdered b (record s { trace = call_hook power_lost_hook ∷ s.trace })
              h.wired h.monitor_in h.some_line)
      | inr other ↦ rw (spare, other) h
    ]
  ]

  next_rail-IsOrdered : (s : Supervisor F) → IsOrdered s → Ensures IsOrdered (next_rail b s)
  unfolding next_rail
  next_rail-IsOrdered s h = record {
    wired = h.wired;
    index_in = h.index_in;
    at_end = h.at_end;
    active_in = h.active_in;
    monitor_in = grind (arith, h.monitor_in);
    some_line = h.some_line;
    held = h.held;
  }

  -- `MonitorRails` in range reads the power-good state of its rail, reacts, and goes to the next one.
  pub monitor_rails-some :
      (s : Supervisor F) (r : Rail F)
      → get_elem? s.rails s.monitor_index ≡ some r
      → let (good, t') = Rail.is_power_good b r s.trace in
        monitor_rails b s ≡ (
          (if good
            then returns (record s { trace = t' })
            else rail_lost b r (record s { trace = t' }))
          >>= next_rail b)
  unfolding monitor_rails
  monitor_rails-some s r e = rw (e, monitor_rails)

  monitor_rails-IsOrdered : (s : Supervisor F) → IsOrdered s → Ensures IsOrdered (monitor_rails b s)
  monitor_rails-IsOrdered s h =
      let (r, e) = get_elem?-in_range s.rails s.monitor_index h.monitor_in in
      let s' = record s { trace = (Rail.is_power_good b r s.trace).1 } in
      let h' : IsOrdered s' =
        trace-IsOrdered b s (Rail.is_power_good b r s.trace).1
          (λ q. driven-is_power_good b r q s.trace) h in
      rw (monitor_rails-some s r e) (
        Ensures-bind IsOrdered IsOrdered
          (if (Rail.is_power_good b r s.trace).0 then returns s' else rail_lost b r s')
          (next_rail b)
          (elim (Bool-cases (Rail.is_power_good b r s.trace).0) [
            | inl good ↦ rw good h'
            | inr bad ↦ rw bad (rail_lost-IsOrdered r s' h')
          ])
          next_rail-IsOrdered (λ a k. k))

  -- `Iteration`, from a state that keeps the order of the resets, never reads past the rails or the
  -- resets, and keeps that order.
  pub iteration-IsOrdered : (s : Supervisor F) → IsOrdered s → Ensures IsOrdered (iteration b s)
  unfolding iteration
  iteration-IsOrdered s h = elim (Bool-cases s.is_power_on) [
    | inl on ↦ simp on (
        Ensures-bind (IsRunning b) IsOrdered (update_resets b s) (monitor_rails b)
          (update_resets-IsRunning b s (h, on)) (λ s' k. monitor_rails-IsOrdered s' k.0)
          (λ s' k. k.0))
    | inr off ↦ simp off h
  ]

  -- `PowerOn`, from a state that keeps the order of the resets and has the power off, keeps that order.
  pub power_on-IsOrdered :
      (s : Supervisor F) → IsOrdered s → s.is_power_on ≡ false → Ensures IsOrdered (power_on b s)
  unfolding power_on
  power_on-IsOrdered s h off =
      let t = (turn_on_all b s.rails s.trace).1 in
      let held : All (Held s.trace) s.resets = rw off at (h.held) in
      elim (Bool-cases (turn_on_all b s.rails s.trace).0) [
        | inl up ↦ rw up (
            start_resets-IsOrdered b (record s { trace = t }) h.wired h.monitor_in h.some_line
              (Held-frame s.resets s.trace t
                (All-map (λ q. Absent q (enables s.rails)) (λ q. driven q t ≡ driven q s.trace)
                  (pins s.resets) (λ q a. driven-turn_on_all b s.rails q s.trace a) h.wired.apart)
                held))
        | inr down ↦
            rw down
              (panic_shutdown-IsOrdered b (record s { trace = t }) h.wired h.monitor_in h.some_line)
      ]

  -- What an orderly application does with a supervisor: it turns the power on while it is off, off at any
  -- time, panics, and runs iterations of the main loop. `PowerOn` itself does not look whether the power is
  -- on already.
  pub data OrderlyStep (s : Supervisor F) : Supervisor F → Type 0 where
    turns_on_from_off :
        {s' : Supervisor F} → s.is_power_on ≡ false → power_on b s ≡ returns s' → OrderlyStep s s'
    turns_off : {s' : Supervisor F} → power_off b s ≡ s' → OrderlyStep s s'
    panics : {s' : Supervisor F} → panic_shutdown b s ≡ returns s' → OrderlyStep s s'
    iterates : {s' : Supervisor F} → iteration b s ≡ returns s' → OrderlyStep s s'

  pub data OrderlyReach (s : Supervisor F) : Supervisor F → Type 0 where
    here : OrderlyReach s s
    next : {t u : Supervisor F} → OrderlyReach s t → OrderlyStep t u → OrderlyReach s u

  Ensures-returns :
      (P : Supervisor F → Type 0) (m : Outcome (Supervisor F)) {s' : Supervisor F}
      → Ensures P m
      → m ≡ returns s'
      → P s'
  Ensures-returns P m h e = subst (Ensures P) e h

  OrderlyStep-IsOrdered : {s s' : Supervisor F} → OrderlyStep s s' → IsOrdered s → IsOrdered s'
  OrderlyStep-IsOrdered {s = s} (turns_on_from_off off e) h =
      Ensures-returns IsOrdered (power_on b s) (power_on-IsOrdered s h off) e
  OrderlyStep-IsOrdered {s = s} (turns_off e) h =
      subst IsOrdered e (power_off-IsOrdered b s h.wired h.monitor_in h.some_line)
  OrderlyStep-IsOrdered {s = s} (panics e) h =
      Ensures-returns IsOrdered (panic_shutdown b s)
        (panic_shutdown-IsOrdered b s h.wired h.monitor_in h.some_line) e
  OrderlyStep-IsOrdered {s = s} (iterates e) h =
      Ensures-returns IsOrdered (iteration b s) (iteration-IsOrdered s h) e

  OrderlyReach-IsOrdered : {s s' : Supervisor F} → OrderlyReach s s' → IsOrdered s → IsOrdered s'
  OrderlyReach-IsOrdered here h = h
  OrderlyReach-IsOrdered (next r st) h = OrderlyStep-IsOrdered st (OrderlyReach-IsOrdered r h)

  -- There are at least one rail and one reset line, no two of these lines share a pin, and the run
  -- starts with all rails off, all resets asserted and the flags cleared. The application calls `PowerOn` only
  -- while the power is off, and `PowerOff`, `PanicShutdown` and `Iteration` at any time. Then in every
  -- state that it reaches, the lines after the active one are driven to their asserted level while the
  -- power is on, and all lines are while it is off; and the next `Iteration` reads no element out of
  -- range.
  pub reset_order :
      {s s' : Supervisor F}
      → IsSafe s
      → Wired s
      → s.monitor_index < length s.rails
      → 0 < length s.resets
      → OrderlyReach s s'
      → All (Held s'.trace) (drop (first_held s') s'.resets) × Ensures IsOrdered (iteration b s')
  reset_order {s' = s'} safe wired monitor line r =
      let h' : IsOrdered s' = OrderlyReach-IsOrdered r (IsSafe-IsOrdered safe wired monitor line) in
      (h'.held, iteration-IsOrdered s' h')
