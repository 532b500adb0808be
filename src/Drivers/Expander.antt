-- ===== src/Drivers/Expander.antt =====
-- The I/O expander (drivers/TCA6424A.cpp and .h). The I2C bus is of another repository: what is written
-- to it is a trace.
pub mod Lanes
pub mod Pins
pub mod Writes
use common_embedded_platform.Prelude.{
  ℕ, zero, suc, ◌+◌, ◌-◌, ◌*◌, ◌/◌, ◌%◌, ◌^◌, bit_and, bit_or, Bool, true, false, not, List, [],
  ◌∷◌, get_or, set, if◌then◌else◌,
}

-- `BlockingWrite` of two bytes: the register and its value.
pub data BusEvent : Type 0 where
  write_register : ℕ → ℕ → ℕ → BusEvent

-- `TCA6424A`: three bytes of directions, three of output values. The newest event comes first.
pub record Expander : Type 0 where
  pub address : ℕ
  pub dirmask : List ℕ
  pub outvals : List ℕ
  pub trace : List BusEvent

abbrev pub construct : ℕ → List BusEvent → Expander
construct addr trace = record {
  address = addr;
  dirmask = 0xff ∷ 0xff ∷ 0xff ∷ [];
  outvals = 0xff ∷ 0xff ∷ 0xff ∷ [];
  trace = trace;
}

-- `|= (1 << lane)` or `&= ~(1 << lane)` of a byte.
abbrev pub with_lane : Bool → ℕ → ℕ → ℕ
with_lane value lane b = if value then bit_or b (2 ^ lane) else bit_and b (255 - 2 ^ lane)

unfoldable pub set_direction : ℕ → Bool → Expander → Expander
set_direction chan input e =
    let group = chan / 8 in
    let mask = with_lane input (chan % 8) (get_or e.dirmask group 0) in
    record e {
      dirmask = set e.dirmask group mask;
      trace = write_register e.address (0x0c + group) mask ∷ e.trace;
    }

unfoldable pub set_output_value : ℕ → Bool → Expander → Expander
set_output_value chan value e =
    let group = chan / 8 in
    let vals = with_lane value (chan % 8) (get_or e.outvals group 0) in
    record e {
      outvals = set e.outvals group vals;
      trace = write_register e.address (0x04 + group) vals ∷ e.trace;
    }

unfoldable pub batch_update_value : ℕ → ℕ → Expander → Expander
batch_update_value block value e = record e { outvals = set e.outvals block value }

unfoldable pub batch_commit_value : Expander → Expander
batch_commit_value e = record e {
  trace =
      write_register e.address 6 (get_or e.outvals 2 0)
      ∷ write_register e.address 5 (get_or e.outvals 1 0)
      ∷ write_register e.address 4 (get_or e.outvals 0 0)
      ∷ e.trace;
}

-- `TCA6424A_GPIO`, with the state of its parent beside it.
pub record ExpanderPin : Type 0 where
  pub parent : Expander
  pub channel : ℕ
  pub output : Bool
  pub output_value : Bool

abbrev pub construct_pin : Expander → ℕ → ExpanderPin
construct_pin parent channel = record {
  parent = parent;
  channel = channel;
  output = false;
  output_value = false;
}

unfoldable pub set_pin_direction : Bool → ExpanderPin → ExpanderPin
set_pin_direction input p = record p {
  parent = set_direction p.channel input p.parent;
  output = not input;
}

unfoldable pub assign : Bool → ExpanderPin → ExpanderPin
assign value p = record p {
  parent = set_output_value p.channel value p.parent;
  output_value = value;
}

-- The conversion to `bool`.
unfoldable pub read_pin : ExpanderPin → Bool
read_pin p = if p.output then p.output_value else false
