-- ===== src/Stream/Range/Parse.antt =====
-- What `ByteRange::parse` returns: its bounds, and each of the three forms of a range.
use mathlib.Core.List.{reverse, reverse-cons, append-nil, append_assoc}
use peerless_server.Prelude.{
  split_onto, IsGraphic, Text, split, ℕ, ◌≡◌, ap, ◌∙◌, false, [], ◌∷◌, ◌++◌, ◌==◌, All, arith,
}
use peerless_server.Stream.Range.Decimal.{IsDigit}

pub digit-IsGraphic : (c : ℕ) → IsDigit c → IsGraphic c
digit-IsGraphic c h = ground arith

abbrev pub Avoids : ℕ → ℕ → Type 0
Avoids sep c = (c == sep) ≡ false

split_onto_last :
    (sep : ℕ) (s piece : Text)
    → All (Avoids sep) s
    → split_onto piece sep s ≡ (reverse piece ++ s) ∷ []
unfolding split_onto
split_onto_last sep [] piece h = rw append-nil
split_onto_last sep (c ∷ cs) piece h =
    rw (h.0, split_onto_last sep cs (c ∷ piece) h.1, reverse-cons c piece, append_assoc)

split_onto_next :
    (sep : ℕ) (s rest piece : Text)
    → All (Avoids sep) s
    → split_onto piece sep (s ++ sep ∷ rest) ≡ (reverse piece ++ s) ∷ split_onto [] sep rest
unfolding split_onto
split_onto_next sep [] rest piece h = rw append-nil (ground arith)
split_onto_next sep (c ∷ cs) rest piece h =
    rw (h.0, split_onto_next sep cs rest (c ∷ piece) h.1, reverse-cons c piece, append_assoc)

pub split_single : (sep : ℕ) (s : Text) → All (Avoids sep) s → split sep s ≡ s ∷ []
unfolding split
split_single sep s h = split_onto_last sep s [] h

pub split-append :
    (sep : ℕ) (a b : Text) → All (Avoids sep) a → split sep (a ++ sep ∷ b) ≡ a ∷ split sep b
unfolding split
split-append sep a b h = split_onto_next sep a b [] h

pub split_dash :
    (a b : Text)
    → All (Avoids b'-') a
    → All (Avoids b'-') b
    → split b'-' (a ++ b'-' ∷ b) ≡ a ∷ b ∷ []
split_dash a b ha hb = split-append b'-' a b ha ∙ ap (◌∷◌ a) (split_single b'-' b hb)
