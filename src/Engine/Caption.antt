-- ===== src/Engine/Caption.antt =====
-- The texts of captions in crates/engine/src/orchestrator/helpers.rs: `html_escape` and `clamp_str_utf16`.
pub mod Escape
pub mod Clamp
mod Tests
use peerless_server.Prelude.{
  ℕ, ◌+◌, ◌-◌, List, [], ◌∷◌, ◌++◌, ltb, leb, ◌==◌, if◌then◌else◌, Text, text,
}

abbrev pub escaped : ℕ → Text
escaped ch =
    if ch == b'&'
    then text "&amp;"
    else if ch == b'<'
    then text "&lt;"
    else if ch == b'>'
    then text "&gt;"
    else if ch == b'"'
    then text "&quot;"
    else if ch == 0x27
    then text "&#39;"
    else ch ∷ []

unfoldable pub html_escape : Text → Text
html_escape [] = []
html_escape (ch ∷ input) = escaped ch ++ html_escape input

-- `char::len_utf16`.
abbrev pub len_utf16 : ℕ → ℕ
len_utf16 ch = if ltb ch 0x10000 then 1 else 2

-- The number of UTF-16 code units.
unfoldable pub count_utf16 : Text → ℕ
count_utf16 [] = 0
count_utf16 (ch ∷ s) = len_utf16 ch + count_utf16 s

-- The loop over the characters: what stands before the first one that does not fit.
unfoldable pub fitting : ℕ → ℕ → Text → Text
fitting curr_len limit [] = []
fitting curr_len limit (ch ∷ s) =
    let rest = fitting (curr_len + len_utf16 ch) limit s in
    if ltb limit (curr_len + len_utf16 ch) then [] else ch ∷ rest

abbrev pub ellipsis : ℕ
ellipsis = 0x2026

unfoldable pub clamp_str_utf16 : Text → ℕ → Text
unfolding count_utf16 fitting
clamp_str_utf16 s max_utf16 =
    if leb (count_utf16 s) max_utf16 then s else fitting 0 (max_utf16 - 1) s ++ ellipsis ∷ []
