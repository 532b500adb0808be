-- ===== src/Supervisor/Sequencer/Effects.antt =====
-- What switching the rails and asserting the lines of a whole list drives, and what it leaves alone.
use common_embedded_platform.Prelude.{
  ℕ, ◌≡◌, ◌≢◌, refl, sym, subst, Bool, true, false, List, [], ◌∷◌, arith, All, Bool-cases, inl, inr,
}
use common_embedded_platform.Supervisor.Board.{Board, Trace, driven}
use common_embedded_platform.Supervisor.Rail
use common_embedded_platform.Supervisor.Rail.{Rail, off_level, turn_off}
use common_embedded_platform.Supervisor.Rail.Timing.{driven-turn_on, driven-turn_off}
use common_embedded_platform.Supervisor.Reset
use common_embedded_platform.Supervisor.Reset.{Reset, assert_level}
use common_embedded_platform.Supervisor.Reset.Timing.{driven-assert}
use common_embedded_platform.Supervisor.Sequencer.{
  turn_off_reverse, turn_off_slowly, assert_all, assert_reverse, turn_on_all,
}
use common_embedded_platform.Supervisor.Sequencer.Lines.{
  Held, IsOff, IsOn, pins, enables, Absent, AreDistinct, Held-frame, All-map,
}

pub driven-assert_all :
    (rs : List Reset) (q : ℕ) (t : Trace)
    → Absent q (pins rs)
    → driven q (assert_all rs t) ≡ driven q t
unfolding assert_all
driven-assert_all [] q t a = refl
driven-assert_all (r ∷ rs) q t a =
    ground (arith, driven-assert_all rs q (Reset.assert r t) a.1, driven-assert r q t, a.0)

pub assert_all-Held :
    (rs : List Reset) (t : Trace) → AreDistinct (pins rs) → All (Held (assert_all rs t)) rs
unfolding assert_all
assert_all-Held [] t d = tt
assert_all-Held (r ∷ rs) t d = (
  ground (arith, driven-assert_all rs r.pin (Reset.assert r t) d.0, driven-assert r r.pin t),
  assert_all-Held rs (Reset.assert r t) d.1,
)

pub assert_reverse-Held :
    (rs : List Reset) (t : Trace) → AreDistinct (pins rs) → All (Held (assert_reverse rs t)) rs
unfolding assert_reverse
assert_reverse-Held [] t d = tt
assert_reverse-Held (r ∷ rs) t d =
    let t' = assert_reverse rs t in
    (
      ground (arith, driven-assert r r.pin t'),
      Held-frame rs t' (Reset.assert r t')
          (All-map (λ q. r.pin ≢ q) (λ q. driven q (Reset.assert r t') ≡ driven q t') (pins rs)
            (λ q ne. ground (arith, driven-assert r q t')) d.0)
          (assert_reverse-Held rs t d.1),
    )

module _ {F : Type 0} where
  pub driven-turn_off_reverse :
      (rs : List (Rail F)) (q : ℕ) (t : Trace)
      → Absent q (enables rs)
      → driven q (turn_off_reverse rs t) ≡ driven q t
  unfolding turn_off_reverse
  driven-turn_off_reverse [] q t a = refl
  driven-turn_off_reverse (r ∷ rs) q t a =
      ground (
        arith,
        driven-turn_off r q (turn_off_reverse rs t),
        driven-turn_off_reverse rs q t a.1,
        a.0,
      )

  pub driven-turn_off_slowly :
      (rs : List (Rail F)) (q : ℕ) (t : Trace)
      → Absent q (enables rs)
      → driven q (turn_off_slowly rs t) ≡ driven q t
  unfolding turn_off_slowly
  driven-turn_off_slowly [] q t a = refl
  driven-turn_off_slowly (r ∷ rs) q t a =
      ground
        (arith, driven-turn_off r q (turn_off_slowly rs t), driven-turn_off_slowly rs q t a.1, a.0)

  -- Rails keep their levels under what drives none of their enable pins.
  pub IsOff-frame :
      (rs : List (Rail F)) (t t' : Trace)
      → All (λ p. driven p t' ≡ driven p t) (enables rs)
      → All (IsOff t) rs
      → All (IsOff t') rs
  IsOff-frame [] t t' same h = tt
  IsOff-frame (r ∷ rs) t t' same h = (rw same.0 h.0, IsOff-frame rs t t' same.1 h.1)

  pub IsOn-frame :
      (rs : List (Rail F)) (t t' : Trace)
      → All (λ p. driven p t' ≡ driven p t) (enables rs)
      → All (IsOn t) rs
      → All (IsOn t') rs
  IsOn-frame [] t t' same h = tt
  IsOn-frame (r ∷ rs) t t' same h = (rw same.0 h.0, IsOn-frame rs t t' same.1 h.1)

  pub turn_off_reverse-IsOff :
      (rs : List (Rail F)) (t : Trace)
      → AreDistinct (enables rs)
      → All (IsOff (turn_off_reverse rs t)) rs
  unfolding turn_off_reverse
  turn_off_reverse-IsOff [] t d = tt
  turn_off_reverse-IsOff (r ∷ rs) t d =
      let t' = turn_off_reverse rs t in
      (
        ground (arith, driven-turn_off r r.enable t'),
        IsOff-frame rs t' (turn_off r t')
            (All-map (λ q. r.enable ≢ q) (λ q. driven q (turn_off r t') ≡ driven q t') (enables rs)
              (λ q ne. ground (arith, driven-turn_off r q t')) d.0)
            (turn_off_reverse-IsOff rs t d.1),
      )

  pub turn_off_slowly-IsOff :
      (rs : List (Rail F)) (t : Trace)
      → AreDistinct (enables rs)
      → All (IsOff (turn_off_slowly rs t)) rs
  unfolding turn_off_slowly
  turn_off_slowly-IsOff [] t d = tt
  turn_off_slowly-IsOff (r ∷ rs) t d =
      let t' = turn_off_slowly rs t in
      (
        ground (arith, driven-turn_off r r.enable t'),
        IsOff-frame rs t' (turn_off r t')
            (All-map (λ q. r.enable ≢ q) (λ q. driven q (turn_off r t') ≡ driven q t') (enables rs)
              (λ q ne. ground (arith, driven-turn_off r q t')) d.0)
            (turn_off_slowly-IsOff rs t d.1),
      )

module _ {F : Type 0} (b : Board F) where
  pub driven-turn_on_all :
      (rs : List (Rail F)) (q : ℕ) (t : Trace)
      → Absent q (enables rs)
      → driven q (turn_on_all b rs t).1 ≡ driven q t
  unfolding turn_on_all
  driven-turn_on_all [] q t a = refl
  driven-turn_on_all (r ∷ rs) q t a =
      ground
        (arith, driven-turn_on b r q t, driven-turn_on_all rs q (Rail.turn_on b r t).1 a.1, a.0)

  turn_on_all-up :
      (r : Rail F) (rs : List (Rail F)) (t : Trace)
      → (Rail.turn_on b r t).0 ≡ true
      → turn_on_all b (r ∷ rs) t ≡ turn_on_all b rs (Rail.turn_on b r t).1
  unfolding turn_on_all
  turn_on_all-up r rs t up = rw up

  turn_on_all-down :
      (r : Rail F) (rs : List (Rail F)) (t : Trace)
      → (Rail.turn_on b r t).0 ≡ false
      → (turn_on_all b (r ∷ rs) t).0 ≡ false
  unfolding turn_on_all
  turn_on_all-down r rs t down = rw down

  pub turn_on_all-IsOn :
      (rs : List (Rail F)) (t : Trace)
      → AreDistinct (enables rs)
      → (turn_on_all b rs t).0 ≡ true
      → All (IsOn (turn_on_all b rs t).1) rs
  turn_on_all-IsOn [] t d h = tt
  turn_on_all-IsOn (r ∷ rs) t d h = elim (Bool-cases (Rail.turn_on b r t).0) [
    | inl up ↦
        let t' = (Rail.turn_on b r t).1 in
        subst (λ (u : Bool × Trace). All (IsOn u.1) (r ∷ rs)) (sym (turn_on_all-up r rs t up))
          (
            ground (arith, driven-turn_on_all rs r.enable t' d.0, driven-turn_on b r r.enable t),
            turn_on_all-IsOn rs t' d.1 (cc (turn_on_all-up r rs t up)),
          )
    | inr down ↦ absurd (ground (arith, turn_on_all-down r rs t down))
  ]
