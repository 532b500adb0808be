-- ===== src/Cli/Tests.antt =====
-- Texts given to the address commands.
use common_embedded_platform.Prelude.{◌-◌, ◌^◌, ◌≡◌, refl, some, [], ◌∷◌, ◌++◌, arith, inr}
use common_embedded_platform.Cli.Address.{
  IPv4Address, IPv4Config, scan, parse_ip_address, parse_ip_address_with_subnet, set_ip_address,
}
use common_embedded_platform.Cli.Address.Parse.{decimal, dotted, IsAddress, parse_ip_address-dotted}
use common_embedded_platform.Cli.Address.Subnet.{
  word, IsBroadcast, set_ip_address-subnet, set_ip_address-refused,
}

abbrev host : IPv4Address
host = record { octet0 = 192; octet1 = 168; octet2 = 1; octet3 = 5 }

host-IsAddress : IsAddress host
host-IsAddress = (omega arith, omega arith, omega arith, omega arith)

abbrev start : IPv4Config
start = record { address = host; netmask = host; broadcast = host }

parse_ip_address-dotted_test : parse_ip_address (dotted host) ≡ some host
parse_ip_address-dotted_test = parse_ip_address-dotted host host-IsAddress

set_ip_address-subnet_example :
    ((set_ip_address (dotted host ++ (b'/' ∷ decimal 20)) start).address ≡ host)
    × (word (set_ip_address (dotted host ++ (b'/' ∷ decimal 20)) start).netmask
        ≡ 2 ^ 32 - 2 ^ (32 - 20))
    × IsBroadcast
        (32 - 20)
        host
        (set_ip_address (dotted host ++ (b'/' ∷ decimal 20)) start).broadcast
set_ip_address-subnet_example =
    set_ip_address-subnet host 20 start host-IsAddress (omega arith) (omega arith)

set_ip_address-refused_test : set_ip_address (dotted host ++ (b'/' ∷ decimal 33)) start ≡ start
set_ip_address-refused_test =
    set_ip_address-refused host 33 start host-IsAddress (omega arith) (inr (omega arith))

-- 192.168.1.5/20: the broadcast address is 192.168.15.255.
broadcast_test :
    (set_ip_address (dotted host ++ (b'/' ∷ decimal 20)) start).broadcast
    ≡ record { octet0 = 192; octet1 = 168; octet2 = 15; octet3 = 255 }
unfolding set_ip_address parse_ip_address_with_subnet scan
broadcast_test = refl

-- 4294967297.0.0.0, whose first number is 2 ^ 32 + 1, is taken for 1.0.0.0.
wrapped_test :
    parse_ip_address
      (52 ∷ 50 ∷ 57 ∷ 52 ∷ 57 ∷ 54 ∷ 55 ∷ 50 ∷ 57 ∷ 55 ∷ 46 ∷ 48 ∷ 46 ∷ 48 ∷ 46 ∷ 48 ∷ [])
    ≡ some (record { octet0 = 1; octet1 = 0; octet2 = 0; octet3 = 0 })
unfolding parse_ip_address scan
wrapped_test = refl

-- Three dots are taken for 0.0.0.0.
empty_fields_test :
    parse_ip_address (46 ∷ 46 ∷ 46 ∷ [])
    ≡ some (record { octet0 = 0; octet1 = 0; octet2 = 0; octet3 = 0 })
unfolding parse_ip_address scan
empty_fields_test = refl
