-- ===== src/Drivers/Expander/Pins.antt =====
-- The pins of the expander.
use common_embedded_platform.Prelude.{
  ℕ, zero, suc, ◌+◌, ◌/◌, ◌%◌, ◌<◌, ◌≡◌, ◌≢◌, inl, inr, refl, sym, ap, ◌∙◌, subst, Bool, false,
  ◌&&◌, List, [], ◌∷◌, get_or, set, length, get_or-set_self, ◌==◌, ==_iff, if◌then◌else◌,
  Bool-cases, arith,
}
use common_embedded_platform.Drivers.Expander.{BusEvent, write_register, Expander, with_lane}
use common_embedded_platform.Drivers.Expander.Lanes.{bit, level, bit-with_lane}

-- What a register of the device holds after the writes; 0xff at power-up, as the driver assumes.
abbrev pub held : List BusEvent → ℕ → ℕ → ℕ
held [] address register = 0xff
held (write_register a r v ∷ t) address register =
    let older = held t address register in if (a == address) && (r == register) then v else older

-- The level that a pin outputs when it is an output, and whether it is an input: the bits of the device.
abbrev pub output_bit : Expander → ℕ → ℕ
output_bit e chan = bit (held e.trace e.address (4 + chan / 8)) (chan % 8)

abbrev pub input_bit : Expander → ℕ → ℕ
input_bit e chan = bit (held e.trace e.address (12 + chan / 8)) (chan % 8)

-- The driver's copies are what the device holds.
pub record IsSynced (e : Expander) : Type 0 where
  pub outputs : (g : ℕ) → g < 3 → held e.trace e.address (4 + g) ≡ get_or e.outvals g 0
  pub directions : (g : ℕ) → g < 3 → held e.trace e.address (12 + g) ≡ get_or e.dirmask g 0
  pub output_bytes : (g : ℕ) → get_or e.outvals g 0 < 256
  pub direction_bytes : (g : ℕ) → get_or e.dirmask g 0 < 256
  pub three_outputs : length e.outvals ≡ 3
  pub three_directions : length e.dirmask ≡ 3

get_or-set_ne : (xs : List ℕ) (i j v : ℕ) → i ≢ j → get_or (set xs i v) j 0 ≡ get_or xs j 0
get_or-set_ne [] i j v h = refl
get_or-set_ne (x ∷ xs) zero zero v h = absurd (h refl)
get_or-set_ne (x ∷ xs) zero (suc j) v h = refl
get_or-set_ne (x ∷ xs) (suc i) zero v h = refl
get_or-set_ne (x ∷ xs) (suc i) (suc j) v h = get_or-set_ne xs i j v (λ e. h (ap suc e))

pub set-bytes :
    (xs : List ℕ) (i j v : ℕ)
    → ((g : ℕ) → get_or xs g 0 < 256)
    → v < 256
    → i < length xs
    → get_or (set xs i v) j 0 < 256
set-bytes xs i j v bytes byte inside = elim (Bool-cases (i == j)) [
  | inl here ↦
      let same : i ≡ j = (==_iff i j).0 here in
      subst (λ k. get_or (set xs i v) k 0 < 256) same
        (subst (λ w. w < 256) (sym (get_or-set_self xs i v 0 inside)) byte)
  | inr other ↦
      let apart : i ≢ j = λ e. absurd (ground arith) in
      subst (λ w. w < 256) (sym (get_or-set_ne xs i j v apart)) (bytes j)
]

held_new : (t : List BusEvent) (a r v : ℕ) → held (write_register a r v ∷ t) a r ≡ v
held_new t a r v = ground arith

pub held_old :
    (t : List BusEvent) (a r s v : ℕ) → r ≢ s → held (write_register a r v ∷ t) a s ≡ held t a s
held_old t a r s v apart = ground arith

-- A copy follows its register when one of them is written.
pub held-copy :
    (t : List BusEvent) (a base g i v : ℕ) (xs : List ℕ)
    → i < length xs
    → held t a (base + g) ≡ get_or xs g 0
    → held (write_register a (base + i) v ∷ t) a (base + g) ≡ get_or (set xs i v) g 0
held-copy t a base g i v xs inside before = elim (Bool-cases (i == g)) [
  | inl here ↦
      let same : i ≡ g = (==_iff i g).0 here in
      subst (λ k. held (write_register a (base + i) v ∷ t) a (base + k) ≡ get_or (set xs i v) k 0)
        same (held_new t a (base + i) v ∙ sym (get_or-set_self xs i v 0 inside))
  | inr other ↦
      let apart : i ≢ g = λ e. absurd (ground arith) in
      held_old t a (base + i) (base + g) v (λ e. apart (omega (arith, e)))
      ∙ before
      ∙ sym (get_or-set_ne xs i g v apart)
]

-- A write of the byte with one lane changed, at the level of bits.
pub held-bit :
    (t : List BusEvent) (a base chan other byte : ℕ) (value : Bool)
    → held t a (base + chan / 8) ≡ byte
    → byte < 256
    → bit
        (held
          (write_register a (base + chan / 8) (with_lane value (chan % 8) byte) ∷ t)
          a
          (base + other / 8))
        (other % 8)
      ≡ (if chan == other then level value else bit (held t a (base + other / 8)) (other % 8))
held-bit t a base chan other byte value before small =
    let v = with_lane value (chan % 8) byte in
    let lane = bit-with_lane value byte (chan % 8) (other % 8) small (omega arith) (omega arith) in
    elim (Bool-cases (chan / 8 == other / 8)) [
      | inl here ↦
          let same : chan / 8 ≡ other / 8 = (==_iff (chan / 8) (other / 8)).0 here in
          let lanes : (chan % 8 == other % 8) ≡ (chan == other) = ground arith in
          ap (λ g. bit (held (write_register a (base + chan / 8) v ∷ t) a (base + g)) (other % 8))
            (sym same)
          ∙ ap (λ b. bit b (other % 8)) (held_new t a (base + chan / 8) v)
          ∙ lane
          ∙ ap (λ c. if c then level value else bit byte (other % 8)) lanes
          ∙ ap (λ b. if chan == other then level value else bit b (other % 8))
              (sym before ∙ ap (λ g. held t a (base + g)) same)
      | inr apart ↦
          let different : (chan == other) ≡ false = ground arith in
          ap (λ b. bit b (other % 8))
            (held_old t a (base + chan / 8) (base + other / 8) v
              (λ e. absurd (let g : chan / 8 ≡ other / 8 = omega (arith, e) in ground arith)))
          ∙ sym (
              ap (λ c. if c then level value else bit (held t a (base + other / 8)) (other % 8))
                different)
    ]
