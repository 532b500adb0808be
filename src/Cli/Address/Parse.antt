-- ===== src/Cli/Address/Parse.antt =====
-- Texts that are addresses.
use common_embedded_platform.Prelude.{
  ℕ, suc, ◌+◌, ◌-◌, ◌*◌, ◌/◌, ◌%◌, ◌<◌, ◌≡◌, refl, sym, ap, ◌∙◌, Bool, true, false, ◌&&◌, Option,
  none, some, List, [], ◌∷◌, ◌++◌, append_assoc, append-nil, get_or, length, get_or-set_self,
  set-set, if-either, set, u32, ltb, ◌==◌, if◌then◌else◌, arith,
}
use common_embedded_platform.Cli.Address.{
  IPv4Address, is_digit, add_digit, scan, octets_valid, checked_address, parse_ip_address,
}

-- What `%d` prints for an octet.
abbrev pub decimal : ℕ → List ℕ
decimal n =
    if ltb n 10
    then (b'0' + n) ∷ []
    else if ltb n 100
    then (b'0' + n / 10) ∷ (b'0' + n % 10) ∷ []
    else (b'0' + n / 100) ∷ (b'0' + n / 10 % 10) ∷ (b'0' + n % 10) ∷ []

-- The format "%d.%d.%d.%d" of `PrintIPAddress`.
abbrev pub dotted : IPv4Address → List ℕ
dotted ip =
    decimal ip.octet0
    ++ (b'.' ∷ (decimal ip.octet1 ++ (b'.' ∷ (decimal ip.octet2 ++ (b'.' ∷ decimal ip.octet3)))))

abbrev pub IsAddress : IPv4Address → Type 0
IsAddress ip = (ip.octet0 < 256) × (ip.octet1 < 256) × (ip.octet2 < 256) × (ip.octet3 < 256)

-- A digit behind the number `n` in the field.
scan_digit :
    (slash : Bool) (n d i : ℕ) (cs fields : List ℕ)
    → d < 10
    → n < 26
    → get_or fields i 0 ≡ n
    → scan slash ((b'0' + d) ∷ cs) i fields ≡ scan slash cs i (set fields i (n * 10 + d))
unfolding scan
scan_digit slash n d i cs fields small below held =
    let value : u32 (u32 (get_or fields i 0 * 10) + (b'0' + d - b'0')) ≡ n * 10 + d =
      rw held (omega (arith, small, below)) in
    let next = scan slash cs (suc i) fields in
    let digit = scan slash cs i (add_digit (b'0' + d) i fields) in
    let goal = scan slash cs i (set fields i (n * 10 + d)) in
    let P : Option (ℕ × List ℕ) → Type 0 = λ o. o ≡ goal in
    if-either P (((b'0' + d) == b'.') && ltb i 3) next
      (if slash && (((b'0' + d) == b'/') && (i == 3))
        then next
        else if is_digit (b'0' + d)
        then digit
        else none)
      (λ x. absurd (ground arith))
      (λ x.
        if-either P (slash && (((b'0' + d) == b'/') && (i == 3))) next
          (if is_digit (b'0' + d) then digit else none) (λ y. absurd (ground arith))
          (λ y.
            if-either P (is_digit (b'0' + d)) digit none
              (λ z. ap (λ v. scan slash cs i (set fields i v)) value) (λ z. absurd (ground arith))))

-- A further digit in the same field.
scan_more :
    (slash : Bool) (n d i : ℕ) (cs fields : List ℕ)
    → d < 10
    → n < 26
    → i < length fields
    → scan slash ((b'0' + d) ∷ cs) i (set fields i n) ≡ scan slash cs i (set fields i (n * 10 + d))
scan_more slash n d i cs fields small below inside =
    scan_digit slash n d i cs (set fields i n) small below (get_or-set_self fields i n 0 inside)
    ∙ ap (λ f. scan slash cs i f) (set-set fields i n (n * 10 + d))

scan_first :
    (slash : Bool) (d i : ℕ) (cs fields : List ℕ)
    → d < 10
    → get_or fields i 0 ≡ 0
    → scan slash ((b'0' + d) ∷ cs) i fields ≡ scan slash cs i (set fields i d)
scan_first slash d i cs fields small zeroed =
    scan_digit slash 0 d i cs fields small (omega arith) zeroed
    ∙ ap (λ v. scan slash cs i (set fields i v)) (omega arith)

-- An octet in decimal goes into the field.
pub scan-decimal :
    (slash : Bool) (n i : ℕ) (cs fields : List ℕ)
    → n < 256
    → i < length fields
    → get_or fields i 0 ≡ 0
    → scan slash (decimal n ++ cs) i fields ≡ scan slash cs i (set fields i n)
scan-decimal slash n i cs fields byte inside zeroed =
    let P : List ℕ → Type 0 =
      λ text. scan slash (text ++ cs) i fields ≡ scan slash cs i (set fields i n) in
    let two = (b'0' + n / 10) ∷ (b'0' + n % 10) ∷ [] in
    let three = (b'0' + n / 100) ∷ (b'0' + n / 10 % 10) ∷ (b'0' + n % 10) ∷ [] in
    if-either P (ltb n 10) ((b'0' + n) ∷ []) (if ltb n 100 then two else three)
      (λ x. scan_first slash n i cs fields (ground arith) zeroed)
      (λ x.
        if-either P (ltb n 100) two three
          (λ y.
            scan_first slash (n / 10) i ((b'0' + n % 10) ∷ cs) fields (ground arith) zeroed
            ∙ scan_more slash (n / 10) (n % 10) i cs fields (omega arith) (ground arith) inside
            ∙ ap (λ v. scan slash cs i (set fields i v)) (omega arith))
          (λ y.
            scan_first slash (n / 100) i ((b'0' + n / 10 % 10) ∷ (b'0' + n % 10) ∷ cs) fields
              (omega arith) zeroed
            ∙ scan_more slash (n / 100) (n / 10 % 10) i ((b'0' + n % 10) ∷ cs) fields (omega arith)
                (omega arith) inside
            ∙ scan_more slash (n / 100 * 10 + n / 10 % 10) (n % 10) i cs fields (omega arith)
                (omega arith) inside
            ∙ ap (λ v. scan slash cs i (set fields i v)) (omega arith)))

-- A dot behind one of the first three octets.
scan_dot :
    (slash : Bool) (i : ℕ) (cs fields : List ℕ)
    → i < 3
    → scan slash (b'.' ∷ cs) i fields ≡ scan slash cs (suc i) fields
unfolding scan
scan_dot slash i cs fields low = ground arith

scan_octet :
    (slash : Bool) (n i : ℕ) (rest cs fields : List ℕ)
    → n < 256
    → i < 3
    → i < length fields
    → get_or fields i 0 ≡ 0
    → scan slash ((decimal n ++ (b'.' ∷ rest)) ++ cs) i fields
      ≡ scan slash (rest ++ cs) (suc i) (set fields i n)
scan_octet slash n i rest cs fields byte low inside zeroed =
    ap (λ text. scan slash text i fields) (append_assoc (decimal n) (b'.' ∷ rest) cs)
    ∙ scan-decimal slash n i (b'.' ∷ (rest ++ cs)) fields byte inside zeroed
    ∙ scan_dot slash i (rest ++ cs) (set fields i n) low

-- The four octets and what stands behind them.
pub scan-dotted :
    (slash : Bool) (ip : IPv4Address) (cs more : List ℕ)
    → IsAddress ip
    → scan slash (dotted ip ++ cs) 0 (0 ∷ 0 ∷ 0 ∷ 0 ∷ more)
      ≡ scan slash cs 3 (ip.octet0 ∷ ip.octet1 ∷ ip.octet2 ∷ ip.octet3 ∷ more)
scan-dotted slash ip cs more bytes =
    let rest2 = decimal ip.octet2 ++ (b'.' ∷ decimal ip.octet3) in
    let rest1 = decimal ip.octet1 ++ (b'.' ∷ rest2) in
    scan_octet slash ip.octet0 0 rest1 cs (0 ∷ 0 ∷ 0 ∷ 0 ∷ more) bytes.0 (omega arith) (omega arith)
      refl
    ∙ scan_octet slash ip.octet1 1 rest2 cs (ip.octet0 ∷ 0 ∷ 0 ∷ 0 ∷ more) bytes.1 (omega arith)
        (omega arith) refl
    ∙ scan_octet slash ip.octet2 2 (decimal ip.octet3) cs (ip.octet0 ∷ ip.octet1 ∷ 0 ∷ 0 ∷ more)
        bytes.2 (omega arith) (omega arith) refl
    ∙ scan-decimal slash ip.octet3 3 cs (ip.octet0 ∷ ip.octet1 ∷ ip.octet2 ∷ 0 ∷ more) bytes.3
        (omega arith) refl

pub valid_octets :
    (a b c d : ℕ) (more : List ℕ)
    → a < 256
    → b < 256
    → c < 256
    → d < 256
    → octets_valid (a ∷ b ∷ c ∷ d ∷ more) ≡ true
valid_octets a b c d more ha hb hc hd = ground arith

-- What the print command shows of an address is parsed to that address.
pub parse_ip_address-dotted :
    (ip : IPv4Address) → IsAddress ip → parse_ip_address (dotted ip) ≡ some ip
unfolding parse_ip_address scan
parse_ip_address-dotted ip bytes =
    ap (λ text. checked_address (scan false text 0 (0 ∷ 0 ∷ 0 ∷ 0 ∷ [])))
      (sym (append-nil (dotted ip)))
    ∙ ap checked_address (scan-dotted false ip [] [] bytes)
    ∙ rw (valid_octets ip.octet0 ip.octet1 ip.octet2 ip.octet3 [] bytes.0 bytes.1 bytes.2 bytes.3)
        refl
