-- ===== src/Music/Url/Tests.antt =====
-- `urlencode` of crates/music/src/url.rs at concrete texts.
use peerless_server.Prelude.{◌≡◌, refl, ◌∷◌, [], All, text, arith}
use peerless_server.Music.Url.{encode_utf8, bytes, encode_bytes, urlencode}
use peerless_server.Music.Url.RoundTrip.{
  IsWritten, plain, decode_from, chars_from, urlencode-chars_from,
}

-- The texts of the tests of the source.
space_encoded : urlencode (text "Jay-Z & 4eva") ≡ text "Jay-Z%20%26%204eva"
unfolding urlencode bytes encode_utf8 encode_bytes
space_encoded = refl

accent_encoded : urlencode (0xe9 ∷ []) ≡ text "%C3%A9"
unfolding urlencode bytes encode_utf8 encode_bytes
accent_encoded = refl

note_encoded : urlencode (0x1f3b5 ∷ []) ≡ text "%F0%9F%8E%B5"
unfolding urlencode bytes encode_utf8 encode_bytes
note_encoded = refl

urlencode-chars_from_example :
    (All IsWritten (urlencode (b'a' ∷ b' ' ∷ 0x1f3b5 ∷ [])))
    × (chars_from 0 0 (decode_from plain (urlencode (b'a' ∷ b' ' ∷ 0x1f3b5 ∷ [])))
        ≡ b'a' ∷ b' ' ∷ 0x1f3b5 ∷ [])
urlencode-chars_from_example =
    urlencode-chars_from (b'a' ∷ b' ' ∷ 0x1f3b5 ∷ [])
      (omega arith, (omega arith, (omega arith, tt)))
