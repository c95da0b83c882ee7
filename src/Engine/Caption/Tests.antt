-- ===== src/Engine/Caption/Tests.antt =====
-- Runs of the caption helpers of crates/engine/src/orchestrator/helpers.rs.
use peerless_server.Prelude.{
  ℕ, ◌+◌, ◌-◌, ◌≤◌, ◌<◌, ◌≡◌, refl, ◌⊎◌, length, All, ◌++◌, [], ◌∷◌, Text, text, arith,
}
use peerless_server.Engine.Caption.{html_escape, clamp_str_utf16, count_utf16, fitting, ellipsis}
use peerless_server.Engine.Caption.Escape.{IsInert, read_html, html_escape-read_html}
use peerless_server.Engine.Caption.Clamp.{LongestPrefix, clamp_str_utf16-count_utf16}

abbrev markup : Text
markup = text "<b>Rock & \"Roll\"</b>"

html_escape-markup : html_escape markup ≡ text "&lt;b&gt;Rock &amp; &quot;Roll&quot;&lt;/b&gt;"
unfolding html_escape
html_escape-markup = refl

html_escape-read_html_example :
    All IsInert (html_escape markup)
    × ((n : ℕ) → read_html (length markup + n) (html_escape markup) ≡ markup)
html_escape-read_html_example = html_escape-read_html markup

-- A note sign above the basic plane takes two units: it does not fit beside the ellipsis.
abbrev notes : Text
notes = b'a' ∷ b'b' ∷ 0x1F3B5 ∷ b'c' ∷ []

clamp_str_utf16-notes : clamp_str_utf16 notes 4 ≡ b'a' ∷ b'b' ∷ ellipsis ∷ []
unfolding clamp_str_utf16 fitting count_utf16
clamp_str_utf16-notes = refl

clamp_str_utf16-count_utf16_example :
    (count_utf16 (clamp_str_utf16 notes 4) ≤ 4)
    × (((count_utf16 notes ≤ 4) × (clamp_str_utf16 notes 4 ≡ notes))
        ⊎ ((4 < count_utf16 notes)
            × (prefix : Text) × LongestPrefix (4 - 1) notes prefix
            × (clamp_str_utf16 notes 4 ≡ prefix ++ ellipsis ∷ [])))
clamp_str_utf16-count_utf16_example = clamp_str_utf16-count_utf16 notes 4 (omega arith)
