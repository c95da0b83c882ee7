-- ===== src/Music.antt =====
-- crates/music/src/lib.rs: `Codec`, its name and its reading from a text, and the items of a request.
pub mod Url
use peerless_server.Prelude.{
  ◌+◌, List, [], ◌∷◌, Bool, ◌&&◌, ◌||◌, leb, if◌then◌else◌, Option, none, some, Text, text, trim,
  eq_text, ◌≡◌, refl, false,
}

pub data Codec : Type 0 where
  alac ec3 aac : Codec

pub data TargetKind : Type 0 where
  track album playlist artist : TargetKind

-- The fields of a parsed item that the scheduling of jobs reads.
pub record ParsedTargetItem : Type 0 where
  pub kind : TargetKind
  pub id : Text
  pub storefront : Option Text

unfoldable pub as_str : Codec → Text
as_str alac = text "alac"
as_str ec3 = text "ec-3"
as_str aac = text "aac"

-- `str::to_ascii_lowercase`.
unfoldable pub to_ascii_lowercase : Text → Text
to_ascii_lowercase [] = []
to_ascii_lowercase (ch ∷ s) =
    (if leb b'A' ch && leb ch b'Z' then ch + 32 else ch) ∷ to_ascii_lowercase s

abbrev pub is_one_of : Text → List Text → Bool
is_one_of s [] = false
is_one_of s (name ∷ names) = eq_text s name || is_one_of s names

-- `from_str`; `none` is the error for an unknown codec.
unfoldable pub from_str : Text → Option Codec
unfolding trim to_ascii_lowercase eq_text
from_str value =
    let clean = to_ascii_lowercase (trim value) in
    if is_one_of clean (text "alac" ∷ [])
    then some alac
    else if is_one_of clean (
        text "ec-3"
        ∷ text "ec3"
        ∷ text "atmos"
        ∷ text "dolby"
        ∷ text "dolby atmos"
        ∷ text "eac3"
        ∷ [])
    then some ec3
    else if is_one_of clean (text "aac" ∷ text "mp4a.40.2" ∷ text "mp4a.40.5" ∷ text "heaac" ∷ [])
    then some aac
    else none

pub from_str-as_str : (codec : Codec) → from_str (as_str codec) ≡ some codec
unfolding from_str as_str trim to_ascii_lowercase eq_text
from_str-as_str alac = refl
from_str-as_str ec3 = refl
from_str-as_str aac = refl
