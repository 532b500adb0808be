-- ===== src/Drivers/Tests.antt =====
-- The expander at its power-up state.
use common_embedded_platform.Prelude.{
  ℕ, zero, suc, ◌<◌, ◌≡◌, refl, true, false, [], ◌∷◌, get_or, if◌then◌else◌, ◌==◌, ◌/◌, ◌%◌, arith,
}
use common_embedded_platform.Drivers.Expander.{
  write_register, Expander, construct, set_direction, set_output_value, batch_commit_value,
  batch_update_value, ExpanderPin, construct_pin, set_pin_direction, assign, read_pin,
}
use common_embedded_platform.Drivers.Expander.Lanes.{bit, level}
use common_embedded_platform.Drivers.Expander.Pins.{output_bit, input_bit, IsSynced}
use common_embedded_platform.Drivers.Expander.Writes.{
  set_output_value-pins, set_direction-pins, batch_commit_value-pins, read_pin-unassigned,
  read_pin-assign,
}

abbrev powered_up : Expander
powered_up = construct 34 []

abbrev all_ones : ℕ
all_ones = 255

ones : (g : ℕ) → g < 3 → all_ones ≡ get_or (255 ∷ 255 ∷ 255 ∷ []) g 0
ones zero h = refl
ones (suc zero) h = refl
ones (suc (suc zero)) h = refl
ones (suc (suc (suc g))) h = absurd (omega (arith, h))

small_ones : (g : ℕ) → get_or (255 ∷ 255 ∷ 255 ∷ []) g 0 < 256
small_ones zero = omega arith
small_ones (suc zero) = omega arith
small_ones (suc (suc zero)) = omega arith
small_ones (suc (suc (suc g))) = omega arith

powered_up-IsSynced : IsSynced powered_up
powered_up-IsSynced = record {
  outputs = ones;
  directions = ones;
  output_bytes = small_ones;
  direction_bytes = small_ones;
  three_outputs = refl;
  three_directions = refl;
}

set_output_value-pins_example :
    (output_bit (set_output_value 11 false powered_up) 11
      ≡ (if 11 == 11 then level false else output_bit powered_up 11))
    × (input_bit (set_output_value 11 false powered_up) 11 ≡ input_bit powered_up 11)
    × IsSynced (set_output_value 11 false powered_up)
set_output_value-pins_example =
    set_output_value-pins 11 11 false powered_up powered_up-IsSynced (omega arith) (omega arith)

set_direction-pins_example :
    (input_bit (set_direction 11 false powered_up) 12
      ≡ (if 11 == 12 then level false else input_bit powered_up 12))
    × (output_bit (set_direction 11 false powered_up) 12 ≡ output_bit powered_up 12)
    × IsSynced (set_direction 11 false powered_up)
set_direction-pins_example =
    set_direction-pins 11 12 false powered_up powered_up-IsSynced (omega arith) (omega arith)

-- Channel 11 is bit 3 of register 5.
register_test : (set_output_value 11 false powered_up).trace ≡ write_register 34 5 247 ∷ []
unfolding set_output_value
register_test = refl

batch_commit_value-pins_test :
    (output_bit (batch_commit_value (batch_update_value 1 8 powered_up)) 11
      ≡ bit (get_or (batch_update_value 1 8 powered_up).outvals (11 / 8) 0) (11 % 8))
    × (input_bit (batch_commit_value (batch_update_value 1 8 powered_up)) 11
        ≡ input_bit (batch_update_value 1 8 powered_up) 11)
batch_commit_value-pins_test =
    batch_commit_value-pins 11 (batch_update_value 1 8 powered_up) (omega arith)

read_pin-unassigned_test :
    (read_pin (set_pin_direction false (construct_pin powered_up 11)) ≡ false)
    × (output_bit (set_pin_direction false (construct_pin powered_up 11)).parent 11
        ≡ output_bit powered_up 11)
read_pin-unassigned_test =
    read_pin-unassigned (construct_pin powered_up 11) powered_up-IsSynced (omega arith) refl

abbrev driven : ExpanderPin
driven = record { parent = powered_up; channel = 11; output = true; output_value = false }

read_pin-assign_test :
    (read_pin (assign true driven) ≡ true)
    × (output_bit (assign true driven).parent 11 ≡ level true)
read_pin-assign_test = read_pin-assign true driven powered_up-IsSynced (omega arith) refl
