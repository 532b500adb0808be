-- ===== src/Access/Link.antt =====
-- `PhyPollTask` (tcpip/PhyPollTask.cpp): the link state of the management interface. The values of the PHY
-- registers are arguments; what is called when the state changes is the result. Log output is left out.
pub mod Replay
use common_embedded_platform.Prelude.{
  ℕ, Bool, true, false, not, ◌&&◌, List, [], ◌∷◌, ◌++◌, bit_and, bit_or, ◌==◌, if◌then◌else◌,
}

-- g_basetLinkUp and g_basetLinkSpeed.
pub record Link : Type 0 where
  pub up : Bool
  pub speed : ℕ

-- `OnEthernetLinkStateChanged` with the speed that is set by then, `OnLinkUp` and `OnLinkDown`.
pub data LinkEvent : Type 0 where
  link_state_changed : ℕ → LinkEvent
  on_link_up on_link_down : LinkEvent

-- The register values of one poll.
pub record PhyRegisters : Type 0 where
  pub basic_control : ℕ
  pub basic_status : ℕ

abbrev pub link_up : PhyRegisters → Bool
link_up r = bit_and r.basic_status 4 == 4

abbrev pub speed_of : PhyRegisters → ℕ
speed_of r =
    bit_or (if bit_and r.basic_control 0x40 == 0x40 then 2 else 0)
      (if bit_and r.basic_control 0x2000 == 0x2000 then 1 else 0)

-- `PollPHYs`; 0 is LINK_SPEED_10M.
unfoldable pub poll_phys : PhyRegisters → Link → List LinkEvent × Link
poll_phys r s =
    if link_up r && not s.up
    then (
      link_state_changed (speed_of r) ∷ on_link_up ∷ [],
      record { up = link_up r; speed = speed_of r },
    )
    else if not (link_up r) && s.up
    then (link_state_changed 0 ∷ on_link_down ∷ [], record { up = link_up r; speed = 0 })
    else ([], record s { up = link_up r })

-- The task's timer runs again and again.
unfoldable pub poll_all : List PhyRegisters → Link → List LinkEvent × Link
poll_all [] s = ([], s)
poll_all (r ∷ rs) s =
    let first = poll_phys r s in let rest = poll_all rs first.1 in (first.0 ++ rest.0, rest.1)
