-- ===== src/Prelude/Bits.antt =====
-- `|` of a byte and a word that was shifted past it.
use Prim.Native.Nat.{
  ℕ, zero, suc, ◌+◌, ◌*◌, ◌/◌, ◌%◌, ◌≤◌, ◌<◌, max, bit_or, digits, bit_or-bitwise,
}
use mathlib.Core.Path.{◌≡◌, sym, subst, ◌∙◌}
use native.Mathlib.Omega.{arith}

-- `b << k`.
abbrev shift : ℕ → ℕ → ℕ
shift zero b = b
shift (suc k) b = shift k b * 2

-- The digits of `a` and of `b << k` stand apart if `a` has at most `k` of them, whatever the fuel of
-- the digit recursion that `|` stands for.
digits-shift :
    (k n a b : ℕ)
    → a ≤ n
    → a < shift k 1
    → digits (λ rest. rest) max n a (shift k b) ≡ a + shift k b
digits-shift k zero zero b fuel fits = omega arith
digits-shift k (suc n) zero b fuel fits = omega arith
digits-shift k zero (suc a) b fuel fits = absurd (omega (arith, fuel))
digits-shift zero (suc n) (suc a) b fuel fits = absurd (omega (arith, fits))
digits-shift (suc k) (suc n) (suc a) b fuel fits =
    let low : shift k b * 2 % 2 ≡ 0 = omega arith in
    let high : shift k b * 2 / 2 ≡ shift k b = omega arith in
    let above = digits-shift k n (suc a / 2) b (omega (arith, fuel)) (omega (arith, fits)) in
    subst
      (λ half.
        digits (λ rest. rest) max n (suc a / 2) half * 2 + max (suc a % 2) (shift k b * 2 % 2)
        ≡ suc a + shift k b * 2)
      (sym high)
      (subst
        (λ bit.
          digits (λ rest. rest) max n (suc a / 2) (shift k b) * 2 + max (suc a % 2) bit
          ≡ suc a + shift k b * 2)
        (sym low) (omega (arith, above)))

-- `a | (b << 8)` for a byte `a`.
pub bit_or_byte : (a b : ℕ) → a < 256 → bit_or a (b * 256) ≡ a + b * 256
bit_or_byte a b byte =
    let shifted : shift 8 b ≡ b * 256 = omega arith in
    subst (λ word. bit_or a word ≡ a + word) shifted
      (bit_or-bitwise a (shift 8 b) ∙ digits-shift 8 a a b (omega arith) byte)
