-- ===== src/Core/BuildId/Decoding.antt =====
-- The text of a build ID determines the bytes of the build ID.
use common_embedded_platform.Prelude.{
  ℕ, zero, suc, ◌+◌, ◌-◌, ◌*◌, ◌/◌, ◌%◌, ◌<◌, ◌≡◌, refl, ap, ◌∙◌, List, [], ◌∷◌, All, arith, get_or,
  ltb, if◌then◌else◌,
}
use common_embedded_platform.Core.BuildId.{hex, hex_from, format_build_id}

abbrev pub digit_of : ℕ → ℕ
digit_of c = if ltb c 58 then c - 48 else c - 87

-- Two digits for each byte, up to the terminator.
abbrev pub decode : List ℕ → List ℕ
decode [] = []
decode (c ∷ []) = []
decode (c ∷ d ∷ text) = (digit_of c * 16 + digit_of d) ∷ decode text

abbrev pub bytes_from : ℕ → ℕ → List ℕ → List ℕ
bytes_from zero i build_id = []
bytes_from (suc n) i build_id = get_or build_id i 0 ∷ bytes_from n (suc i) build_id

digit_of-hex : (n : ℕ) → n < 16 → digit_of (hex n) ≡ n
unfolding hex
digit_of-hex n h = ground arith

decode-hex_from :
    (n i : ℕ) (build_id : List ℕ)
    → ((j : ℕ) → get_or build_id j 0 < 256)
    → decode (hex_from n i build_id) ≡ bytes_from n i build_id
unfolding hex_from
decode-hex_from zero i build_id byte = refl
decode-hex_from (suc n) i build_id byte =
    let b : get_or build_id i 0 < 256 = byte i in
    let high = digit_of-hex (get_or build_id i 0 / 16) (omega (arith, b)) in
    let low = digit_of-hex (get_or build_id i 0 % 16) (omega arith) in
    let here : digit_of (hex (get_or build_id i 0 / 16)) * 16
          + digit_of (hex (get_or build_id i 0 % 16))
        ≡ get_or build_id i 0 =
      omega (arith, high, low) in
    ap (λ v. v ∷ decode (hex_from n (suc i) build_id)) here
    ∙ ap (λ v. get_or build_id i 0 ∷ v) (decode-hex_from n (suc i) build_id byte)

get_or_below : (xs : List ℕ) (j : ℕ) → All (λ b. b < 256) xs → get_or xs j 0 < 256
get_or_below [] j a = omega arith
get_or_below (x ∷ xs) zero a = a.0
get_or_below (x ∷ xs) (suc j) a = get_or_below xs j a.1

-- The text that `FormatBuildID` writes for a note made of bytes reads back as the 20 bytes of its build ID.
pub decode-format_build_id :
    (build_id : List ℕ)
    → All (λ b. b < 256) build_id
    → decode (format_build_id build_id) ≡ bytes_from 20 16 build_id
unfolding format_build_id
decode-format_build_id build_id bytes =
    decode-hex_from 20 16 build_id (λ j. get_or_below build_id j bytes)
