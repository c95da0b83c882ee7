-- ===== src/Music/Url.antt =====
-- `urlencode` of crates/music/src/url.rs.
pub mod RoundTrip
mod Tests
use peerless_server.Prelude.{
  ℕ, ◌+◌, ◌/◌, ◌%◌, Bool, ◌&&◌, ◌||◌, List, [], ◌∷◌, ◌++◌, ltb, leb, ◌==◌, if◌then◌else◌, Text,
}

-- The bytes of a character, by `str::bytes`.
unfoldable pub encode_utf8 : ℕ → List ℕ
encode_utf8 c =
    if ltb c 0x80
    then c ∷ []
    else if ltb c 0x800
    then (0xc0 + c / 64) ∷ (0x80 + c % 64) ∷ []
    else if ltb c 0x10000
    then (0xe0 + c / 4096) ∷ (0x80 + c / 64 % 64) ∷ (0x80 + c % 64) ∷ []
    else (0xf0 + c / 262144) ∷ (0x80 + c / 4096 % 64) ∷ (0x80 + c / 64 % 64) ∷ (0x80 + c % 64) ∷ []

unfoldable pub bytes : Text → List ℕ
unfolding encode_utf8
bytes [] = []
bytes (c ∷ s) = encode_utf8 c ++ bytes s

abbrev between : ℕ → ℕ → ℕ → Bool
between low high c = leb low c && leb c high

abbrev pub is_unreserved : ℕ → Bool
is_unreserved byte =
    between b'A' b'Z' byte
    || between b'a' b'z' byte
    || between b'0' b'9' byte
    || byte == b'-'
    || byte == b'_'
    || byte == b'.'
    || byte == b'~'

abbrev pub upper_hex_digit : ℕ → ℕ
upper_hex_digit n = if ltb n 10 then b'0' + n else 55 + n

-- What one byte is written as; `{byte:02X}` has two digits.
abbrev pub encoded_byte : ℕ → Text
encoded_byte byte =
    if is_unreserved byte
    then byte ∷ []
    else b'%' ∷ upper_hex_digit (byte / 16) ∷ upper_hex_digit (byte % 16) ∷ []

unfoldable pub encode_bytes : List ℕ → Text
encode_bytes [] = []
encode_bytes (byte ∷ rest) = encoded_byte byte ++ encode_bytes rest

unfoldable pub urlencode : Text → Text
unfolding bytes encode_bytes
urlencode value = encode_bytes (bytes value)
