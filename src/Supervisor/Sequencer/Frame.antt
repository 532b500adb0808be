-- ===== src/Supervisor/Sequencer/Frame.antt =====
-- What `UpdateResets` leaves alone: the rails, the monitor's position, the power flag and the past.
use common_embedded_platform.Prelude.{
  List, [], ◌∷◌, drop, ℕ, zero, suc, ◌+◌, ◌≡◌, refl, ◌∙◌, inl, inr, Bool-cases, Option-cases,
  get_elem?, length, leb,
}
use common_embedded_platform.Supervisor.Board.{Board, Trace}
use common_embedded_platform.Supervisor.Since.{Since, now, did, Since-trans}
use common_embedded_platform.Supervisor.Reset
use common_embedded_platform.Supervisor.Reset.{Reset}
use common_embedded_platform.Supervisor.Reset.Timing.{Since-assert, Since-deassert, Since-is_ready}
use common_embedded_platform.Supervisor.Sequencer.{
  Supervisor, Outcome, returns, hangs, out_of_range, poll_at, deassert_at, advance, update_active,
  assert_all, back_up, check_earlier, update_resets, ◌>>=◌,
}
use common_embedded_platform.Supervisor.Sequencer.Steps.{
  update_active_done, update_active_busy, update_active-none, check_earlier-zero, check_earlier-suc,
  check_earlier-none,
}

-- `P` holds of the state that a call returns, and `Q` of one that it never returns from.
abbrev pub Splits : {A : Type 0} → (A → Type 0) → (A → Type 0) → Outcome A → Type 0
Splits P Q (returns a) = P a
Splits P Q (hangs a) = Q a
Splits P Q out_of_range = Unit

-- `P` holds of the state that a call comes to, if it is defined.
abbrev pub Leaves : {A : Type 0} → (A → Type 0) → Outcome A → Type 0
Leaves P m = Splits P P m

-- A call returns, if it is defined, and `P` holds of the state.
abbrev pub Proceeds : {A : Type 0} → (A → Type 0) → Outcome A → Type 0
Proceeds P m = Splits P (λ _. ⊥) m

pub Splits-bind :
    {A : Type 0} (P Q R S : A → Type 0) (m : Outcome A) (f : A → Outcome A)
    → Splits P Q m
    → ((a : A) → P a → Splits R S (f a))
    → ((a : A) → Q a → S a)
    → Splits R S (m >>= f)
Splits-bind P Q R S (returns a) f h k l = k a h
Splits-bind P Q R S (hangs a) f h k l = l a h
Splits-bind P Q R S out_of_range f h k l = tt

Since-assert_all : (rs : List Reset) (t : Trace) → Since t (assert_all rs t)
unfolding assert_all
Since-assert_all [] t = now
Since-assert_all (r ∷ rs) t =
    Since-trans (Since-assert r t) (Since-assert_all rs (Reset.assert r t))

module _ {F : Type 0} where
  -- What `UpdateResets` leaves alone.
  pub record SameRails (s s' : Supervisor F) : Type 0 where
    pub rails : s'.rails ≡ s.rails
    pub monitor : s'.monitor_index ≡ s.monitor_index
    pub power : s'.is_power_on ≡ s.is_power_on
    pub trace : Since s.trace s'.trace

  pub SameRails-refl : (s : Supervisor F) → SameRails s s
  SameRails-refl s = record { rails = refl; monitor = refl; power = refl; trace = now }

  pub SameRails-trans : {s t u : Supervisor F} → SameRails s t → SameRails t u → SameRails s u
  SameRails-trans h k = record {
    rails = k.rails ∙ h.rails;
    monitor = k.monitor ∙ h.monitor;
    power = k.power ∙ h.power;
    trace = Since-trans h.trace k.trace;
  }

  pub Proceeds-SameRails :
      (u v : Supervisor F) (m : Outcome (Supervisor F))
      → SameRails u v
      → Proceeds (SameRails v) m
      → Proceeds (SameRails u) m
  Proceeds-SameRails u v (returns a) h k = SameRails-trans h k
  Proceeds-SameRails u v (hangs a) h k = k
  Proceeds-SameRails u v out_of_range h k = tt

module _ {F : Type 0} (b : Board F) where
  deassert_at-SameRails : (i : ℕ) (s : Supervisor F) → Proceeds (SameRails s) (deassert_at b i s)
  unfolding deassert_at
  deassert_at-SameRails i s = elim (Option-cases (get_elem? s.resets i)) [
    | inl e ↦ rw (e, deassert_at) tt
    | inr (r, e) ↦
        rw (e, deassert_at)
          (record {
            rails = refl;
            monitor = refl;
            power = refl;
            trace = Since-deassert b r s.trace;
          })
  ]

  poll_at-SameRails : (i : ℕ) (r : Reset) (s : Supervisor F) → SameRails s (poll_at b i r s).1
  unfolding poll_at
  poll_at-SameRails i r s = record {
    rails = refl;
    monitor = refl;
    power = refl;
    trace = Since-is_ready b r s.trace;
  }

  advance-SameRails : (s : Supervisor F) → Proceeds (SameRails s) (advance b s)
  unfolding advance
  advance-SameRails s = elim (Bool-cases (leb (length s.resets) (s.reset_index + 1))) [
    | inl last ↦ rw last (record { rails = refl; monitor = refl; power = refl; trace = did _ now })
    | inr more ↦
        let s' = record s { reset_index = s.reset_index + 1 } in
        rw more (
          Proceeds-SameRails s s' (deassert_at b (s.reset_index + 1) s')
            (record { rails = refl; monitor = refl; power = refl; trace = now })
            (deassert_at-SameRails (s.reset_index + 1) s'))
  ]

  update_active-SameRails : (s : Supervisor F) → Proceeds (SameRails s) (update_active b s)
  update_active-SameRails s = elim (Bool-cases s.is_resets_done) [
    | inl done ↦ rw (update_active_done b s done) (SameRails-refl s)
    | inr busy ↦ elim (Option-cases (get_elem? s.resets s.reset_index)) [
      | inl e ↦ rw (update_active-none b s busy e) tt
      | inr (r, e) ↦
          let s' = (poll_at b s.reset_index r s).1 in
          rw (update_active_busy b s r busy e) (elim (Bool-cases (poll_at b s.reset_index r s).0) [
            | inl ready ↦ rw ready (
                Proceeds-SameRails s s' (advance b s') (poll_at-SameRails s.reset_index r s)
                  (advance-SameRails s'))
            | inr waiting ↦ rw waiting (poll_at-SameRails s.reset_index r s)
          ])
    ]
  ]

  back_up-SameRails : (i : ℕ) (s : Supervisor F) → SameRails s (back_up b i s)
  unfolding back_up
  back_up-SameRails i s = record {
    rails = refl;
    monitor = refl;
    power = refl;
    trace = Since-assert_all (drop (i + 1) s.resets) s.trace;
  }

  check_earlier-SameRails :
      (n i : ℕ) (s : Supervisor F) → Proceeds (SameRails s) (check_earlier b n i s)
  check_earlier-SameRails zero i s = rw (check_earlier-zero b i s) (SameRails-refl s)
  check_earlier-SameRails (suc n) i s = elim (Option-cases (get_elem? s.resets i)) [
    | inl e ↦ rw (check_earlier-none b n i s e) tt
    | inr (r, e) ↦
        let s' = (poll_at b i r s).1 in
        rw (check_earlier-suc b n i r s e) (elim (Bool-cases (poll_at b i r s).0) [
          | inl ready ↦ rw ready (
              Proceeds-SameRails s s' (check_earlier b n (i + 1) s') (poll_at-SameRails i r s)
                (check_earlier-SameRails n (i + 1) s'))
          | inr down ↦ rw down (SameRails-trans (poll_at-SameRails i r s) (back_up-SameRails i s'))
        ])
  ]

  pub update_resets-SameRails : (s : Supervisor F) → Proceeds (SameRails s) (update_resets b s)
  unfolding update_resets
  update_resets-SameRails s =
      Splits-bind (SameRails s) (λ _. ⊥) (SameRails s) (λ _. ⊥) (update_active b s)
        (λ s'. check_earlier b s'.reset_index 0 s') (update_active-SameRails s)
        (λ s' h.
          Proceeds-SameRails s s' (check_earlier b s'.reset_index 0 s') h
            (check_earlier-SameRails s'.reset_index 0 s'))
        (λ s' h. h)
