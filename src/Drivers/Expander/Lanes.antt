-- ===== src/Drivers/Expander/Lanes.antt =====
-- One bit of a byte.
use common_embedded_platform.Prelude.{
  ℕ, ◌+◌, ◌*◌, ◌/◌, ◌%◌, ◌^◌, ◌<◌, ◌≡◌, refl, sym, ap, ◌∙◌, Bool, true, false, ◌&&◌, ltb, ◌==◌,
  ==_iff, if◌then◌else◌, passes, passes_at, arith,
}
use common_embedded_platform.Drivers.Expander.{with_lane}

abbrev pub bit : ℕ → ℕ → ℕ
bit b j = b / 2 ^ j % 2

abbrev pub level : Bool → ℕ
level true = 1
level false = 0

abbrev one_lane : Bool → ℕ → ℕ → ℕ → Bool
one_lane value b lane j =
    (bit (with_lane value lane b) j == (if lane == j then level value else bit b j))
    && ltb (with_lane value lane b) 256

-- The test of all bytes, lanes and bits.
abbrev lane_test : Bool → ℕ → Bool
lane_test value n = one_lane value (n % 256) (n / 256 % 8) (n / 2048 % 8)

lanes : (value : Bool) → passes (lane_test value) 0 16384 ≡ true
unfolding passes
lanes true = refl
lanes false = refl

every_lane :
    (value : Bool) (b lane j : ℕ) → b < 256 → lane < 8 → j < 8 → one_lane value b lane j ≡ true
every_lane value b lane j byte low in_byte =
    let n = j * 2048 + lane * 256 + b in
    let at_b : n % 256 ≡ b = omega (arith, byte) in
    let at_lane : n / 256 % 8 ≡ lane = omega (arith, byte, low) in
    let at_j : n / 2048 % 8 ≡ j = omega (arith, byte, low, in_byte) in
    sym (ap (λ x. one_lane value x lane j) at_b)
    ∙ sym (ap (λ x. one_lane value (n % 256) x j) at_lane)
    ∙ sym (ap (λ x. one_lane value (n % 256) (n / 256 % 8) x) at_j)
    ∙ passes_at (lane_test value) 0 16384 n (lanes value) (omega arith)
        (omega (arith, byte, low, in_byte))

-- Only the bit of the lane is changed.
pub bit-with_lane :
    (value : Bool) (b lane j : ℕ)
    → b < 256
    → lane < 8
    → j < 8
    → bit (with_lane value lane b) j ≡ (if lane == j then level value else bit b j)
bit-with_lane value b lane j byte low in_byte =
    let all = every_lane value b lane j byte low in_byte in
    (==_iff (bit (with_lane value lane b) j) (if lane == j then level value else bit b j)).0
      (ground arith)

pub with_lane_lt : (value : Bool) (b lane : ℕ) → b < 256 → lane < 8 → with_lane value lane b < 256
with_lane_lt value b lane byte low =
    let all = every_lane value b lane 0 byte low (omega arith) in
    lower (bit (with_lane value lane b) 0 == (if lane == 0 then level value else bit b 0))
      (with_lane value lane b) all
  where
    lower : (x : Bool) (n : ℕ) → (x && ltb n 256) ≡ true → n < 256
    lower true n h = ground arith
    lower false n h = absurd (ground arith)
