-- ===== src/Engine/Filename/Tags.antt =====
-- The suffix of a name that crates/engine/src/zip.rs makes of tags with a dash between them.
use mathlib.Core.List.{map-append, append_assoc, reverse-append, reverse-cons, reverse-reverse}
use peerless_server.Prelude.{
  ℕ, ◌<◌, ◌≡◌, refl, ap, sym, ◌∙◌, inl, inr, [], ◌∷◌, ◌++◌, reverse, some, Bool-cases, All, Text,
  text, byte_len, trim, trim_start, strip_prefix, strip_suffix, is_whitespace, IsGraphic, arith,
}
use peerless_server.Engine.Filename.{sanitize_and_bound, replace_forbidden, candidate}
use peerless_server.Engine.Filename.Bounds.{IsAllowed, byte_len-append}
use peerless_server.Engine.Filename.Suffix.{or_track_long, sanitize_and_bound-suffix}

replace_forbidden-IsAllowed : (s : Text) → All IsAllowed s → replace_forbidden s ≡ s
unfolding replace_forbidden
replace_forbidden-IsAllowed [] h = refl
replace_forbidden-IsAllowed (c ∷ s) h = rw h.0 (ap (◌∷◌ c) (replace_forbidden-IsAllowed s h.1))

-- A text is trimmed at its start at most up to a character that is no white space.
trim_start-graphic :
    (u v : Text) (c : ℕ) → IsGraphic c → (w : Text) × (trim_start (u ++ c ∷ v) ≡ w ++ c ∷ v)
unfolding trim_start
trim_start-graphic [] v c h = ([], rw h refl)
trim_start-graphic (d ∷ u) v c h = elim (Bool-cases (is_whitespace d)) [
  | inl e ↦ let (w, eq) = trim_start-graphic u v c h in (w, rw e eq)
  | inr e ↦ (d ∷ u, rw e refl)
]

trim_end_graphic :
    (u : Text) (d : ℕ) → IsGraphic d → reverse (trim_start (reverse (u ++ d ∷ []))) ≡ u ++ d ∷ []
unfolding trim_start
trim_end_graphic u d h =
    rw (reverse-append u (d ∷ []), h)
      (reverse-cons d (reverse u) ∙ ap (λ t. t ++ d ∷ []) (reverse-reverse u))

-- A text with such a character, and one at its end, keeps what follows the first.
trim-graphic :
    (u v : Text) (c d : ℕ)
    → IsGraphic c
    → IsGraphic d
    → (w : Text) × (trim (u ++ c ∷ (v ++ d ∷ [])) ≡ w ++ c ∷ (v ++ d ∷ []))
unfolding trim
trim-graphic u v c d h k =
    let (w, e) = trim_start-graphic u (v ++ d ∷ []) c h in
    let whole = append_assoc w (c ∷ v) (d ∷ []) in
    (w, rw e (rw whole at (trim_end_graphic (w ++ c ∷ v) d k)))

strip_prefix-append : (t s : Text) → strip_prefix t (t ++ s) ≡ some s
unfolding strip_prefix
strip_prefix-append [] s = refl
strip_prefix-append (c ∷ t) s = ground (arith, strip_prefix-append t s)

strip_suffix-append : (s t : Text) → strip_suffix t (s ++ t) ≡ some s
unfolding strip_suffix
strip_suffix-append s t =
    rw (reverse-append s t, strip_prefix-append (reverse t) (reverse s))
      (ap some (reverse-reverse s))

replace_forbidden-append :
    (a b : Text) → replace_forbidden (a ++ b) ≡ replace_forbidden a ++ replace_forbidden b
unfolding replace_forbidden
replace_forbidden-append a b = map-append _ a b

-- What is in front of the suffix once the name is cleaned, and before it is trimmed.
abbrev cleaned : Text → Text → Text
cleaned tags title = replace_forbidden tags ++ (replace_forbidden title ++ b' ' ∷ [])

replace_forbidden-tags :
    (tags title artist suffix : Text)
    → replace_forbidden suffix ≡ suffix
    → replace_forbidden (tags ++ (title ++ (text " - " ++ (artist ++ suffix))))
      ≡ cleaned tags title ++ b'-' ∷ ((b' ' ∷ replace_forbidden artist) ++ suffix)
unfolding replace_forbidden
replace_forbidden-tags tags title artist suffix h = simp (replace_forbidden-append, append_assoc, h)

-- The cleaned name still ends with the suffix.
candidate-tags :
    (tags title artist suffix start : Text) (d : ℕ)
    → All IsAllowed suffix
    → IsGraphic d
    → suffix ≡ start ++ d ∷ []
    → 2 < byte_len suffix
    → (prefix : Text) × (candidate (tags ++ (title ++ (text " - " ++ (artist ++ suffix))))
        ≡ prefix ++ suffix)
candidate-tags tags title artist suffix start d h g ends more =
    let body = b' ' ∷ replace_forbidden artist in
    let replaced =
      replace_forbidden-tags tags title artist suffix (replace_forbidden-IsAllowed suffix h) in
    let (w, trimmed) = trim-graphic (cleaned tags title) (body ++ start) b'-' d refl g in
    let joined : (body ++ start) ++ d ∷ [] ≡ body ++ suffix =
      append_assoc body start (d ∷ []) ∙ ap (λ x. body ++ x) (sym ends) in
    let prefix = w ++ b'-' ∷ body in
    let kept : trim (cleaned tags title ++ b'-' ∷ (body ++ suffix)) ≡ prefix ++ suffix =
      rw joined at trimmed ∙ sym (append_assoc w (b'-' ∷ body) suffix) in
    let long : 2 < byte_len (prefix ++ suffix) = omega (arith, byte_len-append prefix suffix) in
    (prefix, rw replaced (rw kept (or_track_long (prefix ++ suffix) long)))

-- A name of tags with a dash between them keeps a suffix without forbidden characters that ends with a
-- graphic one, has more than two bytes and leaves room.
pub sanitize_and_bound-tags :
    (limit : ℕ) (tags title artist suffix start : Text) (d : ℕ)
    → All IsAllowed suffix
    → IsGraphic d
    → suffix ≡ start ++ d ∷ []
    → 2 < byte_len suffix
    → byte_len suffix < limit
    → (p : Text) × (sanitize_and_bound limit
          (tags ++ (title ++ (text " - " ++ (artist ++ suffix))))
          (some suffix)
        ≡ some (p ++ suffix))
sanitize_and_bound-tags limit tags title artist suffix start d h g e long room =
    let name = tags ++ (title ++ (text " - " ++ (artist ++ suffix))) in
    let (prefix, cleaned_name) = candidate-tags tags title artist suffix start d h g e long in
    let ends : strip_suffix suffix (candidate name) ≡ some prefix =
      rw cleaned_name (strip_suffix-append prefix suffix) in
    let (p, q, built, _, _, _) =
      sanitize_and_bound-suffix limit name suffix {prefix = prefix} ends long room in
    (p, built)
