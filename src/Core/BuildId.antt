-- ===== src/Core/BuildId.antt =====
-- `FormatBuildID` (core/main.cpp): a character is its ASCII code, and the note is the bytes from
-- `buildID` on.
pub mod Decoding
use common_embedded_platform.Prelude.{
  ℕ, zero, suc, ◌+◌, ◌/◌, ◌%◌, List, [], ◌∷◌, get_or, ltb, if◌then◌else◌,
}

-- `hex[n]` of "0123456789abcdef".
unfoldable pub hex : ℕ → ℕ
hex n = if ltb n 10 then 48 + n else 87 + n

unfoldable pub hex_from : ℕ → ℕ → List ℕ → List ℕ
hex_from zero i build_id = 0 ∷ []
hex_from (suc n) i build_id =
    let byte = get_or build_id i 0 in
    hex (byte / 16) ∷ hex (byte % 16) ∷ hex_from n (suc i) build_id

-- The 20 bytes from offset 16 on.
unfoldable pub format_build_id : List ℕ → List ℕ
format_build_id build_id = hex_from 20 16 build_id
