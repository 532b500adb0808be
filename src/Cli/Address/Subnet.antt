-- ===== src/Cli/Address/Subnet.antt =====
-- `ip address x.x.x.x/yy`.
use common_embedded_platform.Prelude.{
  ℕ, ◌+◌, ◌-◌, ◌*◌, ◌/◌, ◌%◌, ◌^◌, ◌≤◌, ◌<◌, ◌≡◌, ◌⊎◌, refl, sym, ap, ◌∙◌, min, Bool, true, false,
  ◌&&◌, none, some, List, [], ◌∷◌, ◌++◌, append-nil, leb, ◌==◌, ==_iff, if◌then◌else◌, passes,
  passes_at, arith,
}
use common_embedded_platform.Cli.Address.{
  IPv4Address, IPv4Config, scan, mask_of, checked_subnet, parse_ip_address_with_subnet, host_ones,
  netmask_of, broadcast_of, set_ip_address,
}
use common_embedded_platform.Cli.Address.Parse.{
  decimal, dotted, IsAddress, scan-decimal, scan-dotted, valid_octets,
}

-- The 32-bit number that an address is.
abbrev pub word : IPv4Address → ℕ
word ip = ip.octet0 * 16777216 + ip.octet1 * 65536 + ip.octet2 * 256 + ip.octet3

-- How many of the `host` low bits of an address stand in its octet `i`.
abbrev host_bits : ℕ → ℕ → ℕ
host_bits host i = min 8 (host - 8 * (3 - i))

-- The octet of an address, with ones for its `k` low bits.
abbrev ones_below : ℕ → ℕ → ℕ
ones_below k octet = octet / 2 ^ k * 2 ^ k + (2 ^ k - 1)

abbrev pub IsBroadcast : ℕ → IPv4Address → IPv4Address → Type 0
IsBroadcast host ip b =
    (b.octet0 ≡ ones_below (host_bits host 0) ip.octet0)
    × (b.octet1 ≡ ones_below (host_bits host 1) ip.octet1)
    × (b.octet2 ≡ ones_below (host_bits host 2) ip.octet2)
    × (b.octet3 ≡ ones_below (host_bits host 3) ip.octet3)

abbrev ones_test : ℕ → Bool
ones_test n = host_ones (n % 256) (256 - 2 ^ (n / 256)) == ones_below (n / 256) (n % 256)

ones_pass : passes ones_test 0 2304 ≡ true
unfolding passes
ones_pass = refl

abbrev mask_octet : ℕ → ℕ → ℕ
mask_octet prefix i = 256 - 2 ^ host_bits (32 - prefix) i

abbrev mask_test : ℕ → Bool
mask_test prefix =
    ((netmask_of (mask_of prefix)).octet0 == mask_octet prefix 0)
    && (((netmask_of (mask_of prefix)).octet1 == mask_octet prefix 1)
        && (((netmask_of (mask_of prefix)).octet2 == mask_octet prefix 2)
            && (((netmask_of (mask_of prefix)).octet3 == mask_octet prefix 3)
                && (word (netmask_of (mask_of prefix)) == 2 ^ 32 - 2 ^ (32 - prefix)))))

mask_pass : passes mask_test 1 32 ≡ true
unfolding passes
mask_pass = refl

host_ones_at :
    (k octet : ℕ) → k ≤ 8 → octet < 256 → host_ones octet (256 - 2 ^ k) ≡ ones_below k octet
host_ones_at k octet small byte =
    let n = k * 256 + octet in
    let at =
      (==_iff (host_ones (n % 256) (256 - 2 ^ (n / 256))) (ones_below (n / 256) (n % 256))).0
        (passes_at ones_test 0 2304 n ones_pass (omega arith) (omega (arith, small, byte))) in
    let low : n % 256 ≡ octet = omega arith in
    let high : n / 256 ≡ k = omega arith in
    sym (ap (λ o. host_ones o (256 - 2 ^ k)) low)
    ∙ sym (ap (λ j. host_ones (n % 256) (256 - 2 ^ j)) high)
    ∙ at
    ∙ ap (λ j. ones_below j (n % 256)) high
    ∙ ap (λ o. ones_below k o) low

and_split : (a b : Bool) → (a && b) ≡ true → (a ≡ true) × (b ≡ true)
and_split true b h = (refl, h)
and_split false b h = absurd (ground arith)

octets-equal :
    (prefix : ℕ)
    → 1 ≤ prefix
    → prefix ≤ 32
    → (netmask_of (mask_of prefix) ≡ record {
      octet0 = mask_octet prefix 0;
      octet1 = mask_octet prefix 1;
      octet2 = mask_octet prefix 2;
      octet3 = mask_octet prefix 3;
    })
      × (word (netmask_of (mask_of prefix)) ≡ 2 ^ 32 - 2 ^ (32 - prefix))
octets-equal prefix low high =
    let all = passes_at mask_test 1 32 prefix mask_pass low (omega (arith, high)) in
    let m = netmask_of (mask_of prefix) in
    let equal = λ (a b : ℕ) (h : (a == b) ≡ true). (==_iff a b).0 h in
    let a = and_split (m.octet0 == mask_octet prefix 0) _ all in
    let b = and_split (m.octet1 == mask_octet prefix 1) _ a.1 in
    let c = and_split (m.octet2 == mask_octet prefix 2) _ b.1 in
    let d = and_split (m.octet3 == mask_octet prefix 3) _ c.1 in
    let p0 = equal m.octet0 (mask_octet prefix 0) a.0 in
    let p1 = equal m.octet1 (mask_octet prefix 1) b.0 in
    let p2 = equal m.octet2 (mask_octet prefix 2) c.0 in
    let p3 = equal m.octet3 (mask_octet prefix 3) d.0 in
    (
      λ i. record { octet0 = p0 i; octet1 = p1 i; octet2 = p2 i; octet3 = p3 i },
      equal (word m) (2 ^ 32 - 2 ^ (32 - prefix)) d.1,
    )

host_bits_le : (host i : ℕ) → host_bits host i ≤ 8
host_bits_le host i = omega arith

broadcast_of-IsBroadcast :
    (prefix : ℕ) (ip : IPv4Address)
    → 1 ≤ prefix
    → prefix ≤ 32
    → IsAddress ip
    → IsBroadcast (32 - prefix) ip (broadcast_of ip (netmask_of (mask_of prefix)))
broadcast_of-IsBroadcast prefix ip low high bytes =
    let same = (octets-equal prefix low high).0 in
    let host = 32 - prefix in
    (
      ap (λ m. host_ones ip.octet0 m.octet0) same
          ∙ host_ones_at (host_bits host 0) ip.octet0 (host_bits_le host 0) bytes.0,
      ap (λ m. host_ones ip.octet1 m.octet1) same
          ∙ host_ones_at (host_bits host 1) ip.octet1 (host_bits_le host 1) bytes.1,
      ap (λ m. host_ones ip.octet2 m.octet2) same
          ∙ host_ones_at (host_bits host 2) ip.octet2 (host_bits_le host 2) bytes.2,
      ap (λ m. host_ones ip.octet3 m.octet3) same
          ∙ host_ones_at (host_bits host 3) ip.octet3 (host_bits_le host 3) bytes.3,
    )

scan_slash : (cs fields : List ℕ) → scan true (b'/' ∷ cs) 3 fields ≡ scan true cs 4 fields
unfolding scan
scan_slash cs fields = refl

-- What is scanned of an address, a slash and a number in decimal.
scan-subnet :
    (ip : IPv4Address) (prefix : ℕ)
    → IsAddress ip
    → prefix < 256
    → scan true (dotted ip ++ (b'/' ∷ decimal prefix)) 0 (0 ∷ 0 ∷ 0 ∷ 0 ∷ 0 ∷ [])
      ≡ some (4, ip.octet0 ∷ ip.octet1 ∷ ip.octet2 ∷ ip.octet3 ∷ prefix ∷ [])
unfolding scan
scan-subnet ip prefix bytes byte =
    let fields = ip.octet0 ∷ ip.octet1 ∷ ip.octet2 ∷ ip.octet3 ∷ 0 ∷ [] in
    scan-dotted true ip (b'/' ∷ decimal prefix) (0 ∷ []) bytes
    ∙ scan_slash (decimal prefix) fields
    ∙ ap (λ text. scan true text 4 fields) (sym (append-nil (decimal prefix)))
    ∙ scan-decimal true prefix 4 [] fields byte (omega arith) refl

-- The prefixes that are accepted.
abbrev prefix_valid : ℕ → Bool
prefix_valid prefix = leb 1 prefix && leb prefix 32

parse-subnet :
    (ip : IPv4Address) (prefix : ℕ)
    → IsAddress ip
    → prefix < 256
    → parse_ip_address_with_subnet (dotted ip ++ (b'/' ∷ decimal prefix))
      ≡ (if prefix_valid prefix then some (ip, mask_of prefix) else none)
unfolding parse_ip_address_with_subnet
parse-subnet ip prefix bytes byte =
    ap checked_subnet (scan-subnet ip prefix bytes byte)
    ∙ rw
        (valid_octets ip.octet0 ip.octet1 ip.octet2 ip.octet3 (prefix ∷ []) bytes.0 bytes.1 bytes.2
          bytes.3)
        refl

-- `ip address` with an address and a prefix length from 1 to 32, as they are printed in decimal: the
-- address is set to it, the netmask to as many ones as the prefix says, and the broadcast address to the
-- address with ones for all bits behind the prefix.
pub set_ip_address-subnet :
    (ip : IPv4Address) (prefix : ℕ) (config : IPv4Config)
    → IsAddress ip
    → 1 ≤ prefix
    → prefix ≤ 32
    → ((set_ip_address (dotted ip ++ (b'/' ∷ decimal prefix)) config).address ≡ ip)
      × (word (set_ip_address (dotted ip ++ (b'/' ∷ decimal prefix)) config).netmask
          ≡ 2 ^ 32 - 2 ^ (32 - prefix))
      × IsBroadcast
          (32 - prefix)
          ip
          (set_ip_address (dotted ip ++ (b'/' ∷ decimal prefix)) config).broadcast
unfolding set_ip_address
set_ip_address-subnet ip prefix config bytes low high =
    let valid : prefix_valid prefix ≡ true = ground arith in
    let parsed =
      parse-subnet ip prefix bytes (omega (arith, high))
      ∙ ap (λ b. if b then some (ip, mask_of prefix) else none) valid in
    rw parsed
      (refl, (octets-equal prefix low high).1, broadcast_of-IsBroadcast prefix ip low high bytes)

-- A prefix length of 0 or above 32, up to 255, leaves the configuration as it is.
pub set_ip_address-refused :
    (ip : IPv4Address) (prefix : ℕ) (config : IPv4Config)
    → IsAddress ip
    → prefix < 256
    → (prefix ≡ 0) ⊎ (32 < prefix)
    → set_ip_address (dotted ip ++ (b'/' ∷ decimal prefix)) config ≡ config
unfolding set_ip_address
set_ip_address-refused ip prefix config bytes byte outside =
    let invalid : prefix_valid prefix ≡ false = ground arith in
    let parsed =
      parse-subnet ip prefix bytes byte
      ∙ ap (λ b. if b then some (ip, mask_of prefix) else none) invalid in
    rw parsed refl
