-- ===== src/Drivers/Expander/Writes.antt =====
-- What the operations of the expander do to its pins.
use common_embedded_platform.Prelude.{
  ℕ, zero, suc, ◌+◌, ◌/◌, ◌%◌, ◌≤◌, ◌<◌, ◌≡◌, refl, ap, ◌∙◌, Bool, true, false, get_or, length,
  length-set, ◌==◌, ==_refl, if◌then◌else◌, arith,
}
use common_embedded_platform.Drivers.Expander.{
  Expander, with_lane, set_direction, set_output_value, batch_commit_value, ExpanderPin,
  set_pin_direction, assign, read_pin,
}
use common_embedded_platform.Drivers.Expander.Lanes.{bit, level, with_lane_lt}
use common_embedded_platform.Drivers.Expander.Pins.{
  held, output_bit, input_bit, IsSynced, set-bytes, held_old, held-copy, held-bit,
}

-- `SetOutputValue` of one of the 24 channels, while the driver's copies are what the device holds: the
-- output level of this pin is the value, no other output level and no direction changes, and the
-- copies are still what the device holds.
pub set_output_value-pins :
    (chan other : ℕ) (value : Bool) (e : Expander)
    → IsSynced e
    → chan < 24
    → other < 24
    → (output_bit (set_output_value chan value e) other
        ≡ (if chan == other then level value else output_bit e other))
      × (input_bit (set_output_value chan value e) other ≡ input_bit e other)
      × IsSynced (set_output_value chan value e)
unfolding set_output_value
set_output_value-pins chan other value e synced in_range other_range =
    let g = chan / 8 in
    let v = with_lane value (chan % 8) (get_or e.outvals g 0) in
    let inside : g < length e.outvals = omega (arith, synced.three_outputs, in_range) in
    let byte =
      with_lane_lt value (get_or e.outvals g 0) (chan % 8) (synced.output_bytes g) (omega arith) in
    (
      held-bit e.trace e.address 4 chan other (get_or e.outvals g 0) value
          (synced.outputs g (omega (arith, in_range))) (synced.output_bytes g),
      ap (λ b. bit b (other % 8))
          (held_old e.trace e.address (4 + g) (12 + other / 8) v
            (λ same. omega (arith, same, in_range))),
      record {
        outputs = λ k small.
            held-copy e.trace e.address 4 k g v e.outvals inside (synced.outputs k small);
        directions = λ k small.
            held_old e.trace e.address (4 + g) (12 + k) v (λ same. omega (arith, same, in_range))
            ∙ synced.directions k small;
        output_bytes = λ k. set-bytes e.outvals g k v synced.output_bytes byte inside;
        direction_bytes = synced.direction_bytes;
        three_outputs = length-set e.outvals g v ∙ synced.three_outputs;
        three_directions = synced.three_directions;
      },
    )

-- `SetDirection` of one of the 24 channels, while the driver's copies are what the device holds: this pin
-- is an input or an output as asked, no other direction and no output level changes, and the copies
-- are still what the device holds.
pub set_direction-pins :
    (chan other : ℕ) (input : Bool) (e : Expander)
    → IsSynced e
    → chan < 24
    → other < 24
    → (input_bit (set_direction chan input e) other
        ≡ (if chan == other then level input else input_bit e other))
      × (output_bit (set_direction chan input e) other ≡ output_bit e other)
      × IsSynced (set_direction chan input e)
unfolding set_direction
set_direction-pins chan other input e synced in_range other_range =
    let g = chan / 8 in
    let v = with_lane input (chan % 8) (get_or e.dirmask g 0) in
    let inside : g < length e.dirmask = omega (arith, synced.three_directions, in_range) in
    let byte =
      with_lane_lt input (get_or e.dirmask g 0) (chan % 8) (synced.direction_bytes g)
        (omega arith) in
    (
      held-bit e.trace e.address 12 chan other (get_or e.dirmask g 0) input
          (synced.directions g (omega (arith, in_range))) (synced.direction_bytes g),
      ap (λ b. bit b (other % 8))
          (held_old e.trace e.address (12 + g) (4 + other / 8) v
            (λ same. omega (arith, same, other_range))),
      record {
        outputs = λ k small.
            held_old e.trace e.address (12 + g) (4 + k) v (λ same. omega (arith, same, small))
            ∙ synced.outputs k small;
        directions = λ k small.
            held-copy e.trace e.address 12 k g v e.dirmask inside (synced.directions k small);
        output_bytes = synced.output_bytes;
        direction_bytes = λ k. set-bytes e.dirmask g k v synced.direction_bytes byte inside;
        three_outputs = synced.three_outputs;
        three_directions = length-set e.dirmask g v ∙ synced.three_directions;
      },
    )

committed :
    (g : ℕ) (e : Expander)
    → g < 3
    → held (batch_commit_value e).trace e.address (4 + g) ≡ get_or e.outvals g 0
unfolding batch_commit_value
committed zero e h = ground arith
committed (suc zero) e h = ground arith
committed (suc (suc zero)) e h = ground arith
committed (suc (suc (suc g))) e h = absurd (omega (arith, h))

directions_kept :
    (r : ℕ) (e : Expander)
    → 12 ≤ r
    → held (batch_commit_value e).trace e.address r ≡ held e.trace e.address r
unfolding batch_commit_value
directions_kept r e h = ground arith

-- After `BatchCommitValue` the device outputs what the copies say, whatever it held, and the directions
-- are what they were.
pub batch_commit_value-pins :
    (chan : ℕ) (e : Expander)
    → chan < 24
    → (output_bit (batch_commit_value e) chan ≡ bit (get_or e.outvals (chan / 8) 0) (chan % 8))
      × (input_bit (batch_commit_value e) chan ≡ input_bit e chan)
unfolding batch_commit_value
batch_commit_value-pins chan e in_range = (
  ap (λ b. bit b (chan % 8)) (committed (chan / 8) e (omega (arith, in_range))),
  ap (λ b. bit b (chan % 8)) (directions_kept (12 + chan / 8) e (omega arith)),
)

-- A pin that was made an output reads as low until a value is assigned, although the device drives what
-- it had before.
pub read_pin-unassigned :
    (p : ExpanderPin)
    → IsSynced p.parent
    → p.channel < 24
    → p.output_value ≡ false
    → (read_pin (set_pin_direction false p) ≡ false)
      × (output_bit (set_pin_direction false p).parent p.channel ≡ output_bit p.parent p.channel)
unfolding read_pin set_pin_direction
read_pin-unassigned p synced in_range unassigned =
    (unassigned, (set_direction-pins p.channel p.channel false p.parent synced in_range in_range).1)

-- A pin that is an output reads as the value that was assigned last, and the device drives it.
pub read_pin-assign :
    (value : Bool) (p : ExpanderPin)
    → IsSynced p.parent
    → p.channel < 24
    → p.output ≡ true
    → (read_pin (assign value p) ≡ value)
      × (output_bit (assign value p).parent p.channel ≡ level value)
unfolding read_pin assign
read_pin-assign value p synced in_range is_output = (
  rw is_output refl,
  (set_output_value-pins p.channel p.channel value p.parent synced in_range in_range).0
      ∙ rw (==_refl p.channel) refl,
)
