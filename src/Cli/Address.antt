-- ===== src/Cli/Address.antt =====
-- The commands that set IPv4 addresses (cli/CommonCommands.cpp). A text is the list of its characters. The
-- output stream is left out, and so is what is printed.
pub mod Parse
pub mod Subnet
use common_embedded_platform.Prelude.{
  ℕ, suc, ◌+◌, ◌-◌, ◌*◌, ◌/◌, ◌%◌, ◌^◌, bit_or, Bool, true, false, ◌&&◌, ◌||◌, Option, none, some,
  List, [], ◌∷◌, get_or, set, u32, leb, ltb, ◌==◌, if◌then◌else◌,
}

-- `IPv4Address`: the octets in the order in which they are printed.
pub record IPv4Address : Type 0 where
  pub octet0 : ℕ
  pub octet1 : ℕ
  pub octet2 : ℕ
  pub octet3 : ℕ

-- `IPv4Config` of the network stack, as far as it is set here.
pub record IPv4Config : Type 0 where
  pub address : IPv4Address
  pub netmask : IPv4Address
  pub broadcast : IPv4Address

abbrev pub is_digit : ℕ → Bool
is_digit c = leb b'0' c && leb c b'9'

abbrev pub add_digit : ℕ → ℕ → List ℕ → List ℕ
add_digit c nfield fields = set fields nfield (u32 (u32 (get_or fields nfield 0 * 10) + (c - b'0')))

-- The loop over the characters; `slash` says whether a slash may follow the last octet.
unfoldable pub scan : Bool → List ℕ → ℕ → List ℕ → Option (ℕ × List ℕ)
scan slash [] nfield fields = some (nfield, fields)
scan slash (c ∷ cs) nfield fields =
    let next = scan slash cs (suc nfield) fields in
    let digit = scan slash cs nfield (add_digit c nfield fields) in
    if (c == b'.') && ltb nfield 3
    then next
    else if slash && ((c == b'/') && (nfield == 3))
    then next
    else if is_digit c
    then digit
    else none

abbrev pub octets_valid : List ℕ → Bool
octets_valid fields =
    leb (get_or fields 0 0) 255
    && (leb (get_or fields 1 0) 255 && (leb (get_or fields 2 0) 255 && leb (get_or fields 3 0) 255))

abbrev pub address_of : List ℕ → IPv4Address
address_of fields = record {
  octet0 = get_or fields 0 0;
  octet1 = get_or fields 1 0;
  octet2 = get_or fields 2 0;
  octet3 = get_or fields 3 0;
}

abbrev pub checked_address : Option (ℕ × List ℕ) → Option IPv4Address
checked_address none = none
checked_address (some (nfield, fields)) =
    if (nfield == 3) && octets_valid fields then some (address_of fields) else none

-- `none` where the source returns false, without a change.
unfoldable pub parse_ip_address : List ℕ → Option IPv4Address
parse_ip_address addr = checked_address (scan false addr 0 (0 ∷ 0 ∷ 0 ∷ 0 ∷ []))

abbrev pub mask_of : ℕ → ℕ
mask_of prefix = u32 (0xffffffff * 2 ^ (32 - prefix))

abbrev pub checked_subnet : Option (ℕ × List ℕ) → Option (IPv4Address × ℕ)
checked_subnet none = none
checked_subnet (some (nfield, fields)) =
    let prefix = get_or fields 4 0 in
    if (nfield == 4) && (octets_valid fields && (leb 1 prefix && leb prefix 32))
    then some (address_of fields, mask_of prefix)
    else none

unfoldable pub parse_ip_address_with_subnet : List ℕ → Option (IPv4Address × ℕ)
parse_ip_address_with_subnet addr = checked_subnet (scan true addr 0 (0 ∷ 0 ∷ 0 ∷ 0 ∷ 0 ∷ []))

-- `a | ~m` of two octets.
abbrev pub host_ones : ℕ → ℕ → ℕ
host_ones a m = bit_or a (255 - m)

abbrev pub netmask_of : ℕ → IPv4Address
netmask_of mask = record {
  octet0 = mask / 16777216 % 256;
  octet1 = mask / 65536 % 256;
  octet2 = mask / 256 % 256;
  octet3 = mask % 256;
}

abbrev pub broadcast_of : IPv4Address → IPv4Address → IPv4Address
broadcast_of address netmask = record {
  octet0 = host_ones address.octet0 netmask.octet0;
  octet1 = host_ones address.octet1 netmask.octet1;
  octet2 = host_ones address.octet2 netmask.octet2;
  octet3 = host_ones address.octet3 netmask.octet3;
}

abbrev pub with_subnet : Option (IPv4Address × ℕ) → IPv4Config → IPv4Config
with_subnet none config = config
with_subnet (some (address, mask)) config = record {
  address = address;
  netmask = netmask_of mask;
  broadcast = broadcast_of address (netmask_of mask);
}

-- `SetIPAddress`.
unfoldable pub set_ip_address : List ℕ → IPv4Config → IPv4Config
set_ip_address addr config = with_subnet (parse_ip_address_with_subnet addr) config
