-- ===== src/Supervisor/Sequencer/Shutdown.antt =====
-- What `PanicShutdown`, `PowerOff` and a failing or successful `PowerOn` leave on the board.
use common_embedded_platform.Supervisor.Rail
use common_embedded_platform.Supervisor.Rail.{Rail}
use common_embedded_platform.Prelude.{
  Bool, ◌&&◌, ◌≡◌, refl, true, false, List, [], ◌∷◌, arith, inl, inr, All, if◌then◌else◌,
  Bool-cases, ◌≢◌,
}
use common_embedded_platform.Supervisor.Board.{
  Trace, Board, call_hook, fault_hook, power_off_hook, power_on_hook, driven,
}
use common_embedded_platform.Supervisor.Reset
use common_embedded_platform.Supervisor.Reset.{Reset}
use common_embedded_platform.Supervisor.Reset.Timing.{driven-deassert}
use common_embedded_platform.Supervisor.Sequencer.{
  Supervisor, Outcome, returns, hangs, out_of_range, turn_off_reverse, turn_off_slowly, assert_all,
  assert_reverse, turn_on_all, shut_down, panic_shutdown, start_resets, power_on, power_off, ◌>>=◌,
}
use common_embedded_platform.Supervisor.Sequencer.Lines.{
  Held, IsOff, IsOn, pins, enables, Absent, IsWired, Held-frame, All-map, Absent-swap,
}
use common_embedded_platform.Supervisor.Sequencer.Effects.{
  IsOff-frame, IsOn-frame, driven-assert_all, assert_all-Held, assert_reverse-Held,
  driven-turn_off_slowly, turn_off_reverse-IsOff, turn_off_slowly-IsOff, turn_on_all-IsOn,
}

-- The call comes to a defined state, also where it never returns, and `P` holds of that state.
abbrev pub Ensures : {A : Type 0} → (A → Type 0) → Outcome A → Type 0
Ensures P (returns a) = P a
Ensures P (hangs a) = P a
Ensures P out_of_range = ⊥

pub Ensures-bind :
    {A : Type 0} (P Q : A → Type 0) (m : Outcome A) (f : A → Outcome A)
    → Ensures P m
    → ((a : A) → P a → Ensures Q (f a))
    → ((a : A) → P a → Q a)
    → Ensures Q (m >>= f)
Ensures-bind P Q (returns a) f h k l = k a h
Ensures-bind P Q (hangs a) f h k l = l a h
Ensures-bind P Q out_of_range f h k l = absurd h

-- Every rail is off, every line is held in reset, and the flags say so.
pub record IsSafe {F : Type 0} (s : Supervisor F) : Type 0 where
  pub rails_off : All (IsOff s.trace) s.rails
  pub resets_held : All (Held s.trace) s.resets
  pub power_flag : s.is_power_on ≡ false
  pub done_flag : s.is_resets_done ≡ false
  pub index_cleared : s.reset_index ≡ 0

abbrev pub Wired : {F : Type 0} → Supervisor F → Type 0
Wired s = IsWired s.rails s.resets

module _ {F : Type 0} (b : Board F) where
  pub shut_down-IsSafe : (s : Supervisor F) → Wired s → IsSafe (shut_down b s)
  unfolding shut_down
  shut_down-IsSafe s w =
      let t = turn_off_reverse s.rails s.trace in
      record {
        rails_off =
            IsOff-frame s.rails t (call_hook fault_hook ∷ assert_all s.resets t)
              (All-map (λ q. Absent q (pins s.resets))
                (λ q. driven q (assert_all s.resets t) ≡ driven q t) (enables s.rails)
                (λ q a. driven-assert_all s.resets q t a)
                (Absent-swap (enables s.rails) (pins s.resets) w.apart))
              (turn_off_reverse-IsOff s.rails s.trace w.rails_apart);
        resets_held =
            Held-frame s.resets (assert_all s.resets t)
              (call_hook fault_hook ∷ assert_all s.resets t)
              (All-map (λ q. Absent q (enables s.rails)) _ (pins s.resets) (λ q a. refl) w.apart)
              (assert_all-Held s.resets t w.resets_apart);
        power_flag = refl;
        done_flag = refl;
        index_cleared = refl;
      }

  -- `PanicShutdown`, whether or not `OnFault` returns, leaves every rail driven off and every reset
  -- line asserted, with the power and reset flags and the reset index cleared, if no two lines share
  -- a pin.
  pub panic_shutdown-IsSafe : (s : Supervisor F) → Wired s → Ensures IsSafe (panic_shutdown b s)
  unfolding panic_shutdown
  panic_shutdown-IsSafe s w = elim (Bool-cases b.fault_returns) [
    | inl back ↦ rw back (shut_down-IsSafe s w)
    | inr stuck ↦ rw stuck (shut_down-IsSafe s w)
  ]

  -- `PowerOff` leaves every rail driven off and every reset line asserted, with the flags cleared, if
  -- no two lines share a pin.
  pub power_off-IsSafe : (s : Supervisor F) → Wired s → IsSafe (power_off b s)
  unfolding power_off
  power_off-IsSafe s w =
      let t = assert_reverse s.resets s.trace in
      record {
        rails_off =
            IsOff-frame s.rails (turn_off_slowly s.rails t)
              (call_hook power_off_hook ∷ turn_off_slowly s.rails t)
              (All-map (λ q. Absent q (pins s.resets)) _ (enables s.rails) (λ q a. refl)
                (Absent-swap (enables s.rails) (pins s.resets) w.apart))
              (turn_off_slowly-IsOff s.rails t w.rails_apart);
        resets_held =
            Held-frame s.resets t (call_hook power_off_hook ∷ turn_off_slowly s.rails t)
              (All-map (λ q. Absent q (enables s.rails))
                (λ q. driven q (turn_off_slowly s.rails t) ≡ driven q t) (pins s.resets)
                (λ q a. driven-turn_off_slowly s.rails q t a) w.apart)
              (assert_reverse-Held s.resets s.trace w.resets_apart);
        power_flag = refl;
        done_flag = refl;
        index_cleared = refl;
      }

  -- The state of `start_resets` when there is a line to release.
  abbrev pub released : Supervisor F → Reset → List Reset → Supervisor F
  released s r rs = record s {
    is_power_on = true;
    is_resets_done = false;
    reset_index = 0;
    resets = (Reset.deassert b r s.trace).0 ∷ rs;
    trace = call_hook power_on_hook ∷ (Reset.deassert b r s.trace).1;
  }

  pub start_resets-cons :
      (s : Supervisor F) (r : Reset) (rs : List Reset)
      → s.resets ≡ r ∷ rs
      → start_resets b s ≡ returns (released s r rs)
  unfolding start_resets
  start_resets-cons s r rs e = rw e

  start_resets-nil :
      (s : Supervisor F)
      → s.resets ≡ []
      → start_resets b s
        ≡ returns (record s {
          is_power_on = true;
          is_resets_done = false;
          reset_index = 0;
          trace = call_hook power_on_hook ∷ s.trace;
        })
  unfolding start_resets
  start_resets-nil s e = rw e

  -- Every rail is driven on, and the reset sequence is at its start.
  pub record IsUp (s : Supervisor F) : Type 0 where
    pub rails_on : All (IsOn s.trace) s.rails
    pub power_flag : s.is_power_on ≡ true
    pub done_flag : s.is_resets_done ≡ false
    pub index_cleared : s.reset_index ≡ 0

  start_resets-IsUp :
      (s : Supervisor F) → Wired s → All (IsOn s.trace) s.rails → Ensures IsUp (start_resets b s)
  start_resets-IsUp s w on = go s.resets refl
    where
      go : (rs : List Reset) → s.resets ≡ rs → Ensures IsUp (start_resets b s)
      go [] e = rw (start_resets-nil s e) (record {
        rails_on =
            IsOn-frame s.rails s.trace (call_hook power_on_hook ∷ s.trace)
              (All-map (λ q. Absent q (pins s.resets)) _ (enables s.rails) (λ q a. refl)
                (Absent-swap (enables s.rails) (pins s.resets) w.apart))
              on;
        power_flag = refl;
        done_flag = refl;
        index_cleared = refl;
      })
      go (r ∷ rs) e = rw (start_resets-cons s r rs e) (record {
        rails_on =
            IsOn-frame s.rails s.trace (call_hook power_on_hook ∷ (Reset.deassert b r s.trace).1)
              (All-map (λ q. Absent q (pins s.resets)) _ (enables s.rails)
                (λ q a.
                  let ne : All (λ p. q ≢ p) (pins (r ∷ rs)) = rw e at a in
                  ground (arith, driven-deassert b r q s.trace, ne.0))
                (Absent-swap (enables s.rails) (pins s.resets) w.apart))
              on;
        power_flag = refl;
        done_flag = refl;
        index_cleared = refl;
      })

  -- Whether the `TurnOn` of each rail reports true, each called on the board that the one before it leaves.
  abbrev pub all_come_up : List (Rail F) → Trace → Bool
  all_come_up [] t = true
  all_come_up (r ∷ rs) t = (Rail.turn_on b r t).0 && all_come_up rs (Rail.turn_on b r t).1

  turn_on_all-all_come_up :
      (rs : List (Rail F)) (t : Trace) → (turn_on_all b rs t).0 ≡ all_come_up rs t
  unfolding turn_on_all
  turn_on_all-all_come_up [] t = refl
  turn_on_all-all_come_up (r ∷ rs) t =
      let rest = turn_on_all-all_come_up rs (Rail.turn_on b r t).1 in ground arith

  -- No two lines share a pin. If the `TurnOn` of every rail, called one after the other in the order of
  -- the sequence, reports true, `PowerOn` ends with every rail driven on and the reset sequence at its
  -- start; if that of any rail reports false, it ends with every rail driven off and every reset line
  -- asserted.
  pub power_on_lem :
      (s : Supervisor F)
      → Wired s
      → Ensures (λ s'. if all_come_up s.rails s.trace then IsUp s' else IsSafe s') (power_on b s)
  unfolding power_on
  power_on_lem s w =
      let (up, t) = turn_on_all b s.rails s.trace in
      let same = turn_on_all-all_come_up s.rails s.trace in
      elim (Bool-cases (turn_on_all b s.rails s.trace).0) [
        | inl yes_up ↦
            rw (← same, yes_up)
              (start_resets-IsUp (record s { trace = t }) w
                (turn_on_all-IsOn b s.rails s.trace w.rails_apart yes_up))
        | inr failed ↦ rw (← same, failed) (panic_shutdown-IsSafe (record s { trace = t }) w)
      ]
