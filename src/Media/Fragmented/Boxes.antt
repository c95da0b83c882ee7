-- ===== src/Media/Fragmented/Boxes.antt =====
-- The boxes that `children` finds.
use peerless_server.Prelude.{
  ℕ, zero, suc, ◌+◌, ◌-◌, ◌≤◌, ◌≡◌, refl, ap, sym, ◌∙◌, ◌⊎◌, inl, inr, Bool, true, false, List, [],
  ◌∷◌, Option, none, some, ltb, ◌==◌, if◌then◌else◌, ◌>>◌, checked, Bool-cases, Option-cases, arith,
  take, drop,
}
use peerless_server.Media.Fragmented.{
  File, BoxHeader, box_end, read_at, from_be, header_size, number_at, read_header, children_fuel,
  children,
}

>>-eq-some :
    {A B : Type 0} (o : Option A) (f : A → Option B) {b : B}
    → (o >> f) ≡ some b
    → (a : A) × (o ≡ some a) × (f a ≡ some b)
>>-eq-some none f h = cc
>>-eq-some (some a) f h = (a, refl, h)

if-eq-some :
    {A : Type 0} (b : Bool) (o : Option A) {a : A}
    → (if b then none else o) ≡ some a
    → (b ≡ false) × (o ≡ some a)
if-eq-some true o h = cc
if-eq-some false o h = (refl, h)

-- A box that starts at the offset, has a header of 8 or 16 bytes, and ends by the limit.
pub record IsWithin (offset limit : ℕ) (h : BoxHeader) : Type 0 where
  pub at : h.start ≡ offset
  pub headed : 8 ≤ h.header
  pub holds : h.header ≤ h.size
  pub ends : offset + h.size ≤ limit

header_size-ge :
    (file : File) (offset limit size : ℕ) {sized : ℕ × ℕ}
    → header_size file offset limit size ≡ some sized
    → 8 ≤ sized.1
unfolding header_size
header_size-ge file offset limit size {sized} h = elim (Bool-cases (size == 1)) [
  | inl e ↦
      let (wide, _, k) = >>-eq-some (number_at file (offset + 8) 8) _ (rw e at h) in
      let z : sized.1 ≡ 16 = cc in omega arith
  | inr e ↦ let z : sized.1 ≡ 8 = cc (rw e at h) in omega arith
]

read_header-IsWithin :
    (file : File) (offset limit : ℕ) {h : BoxHeader}
    → read_header file offset limit ≡ some h
    → IsWithin offset limit h
unfolding read_header
read_header-IsWithin file offset limit {h} e =
    let (first, c, e1) = >>-eq-some (checked (offset + 8)) _ e in
    let (b, e2) = if-eq-some (ltb limit first) _ e1 in
    let (head, r, e3) = >>-eq-some (read_at file offset 8) _ e2 in
    let (sized, s, e4) =
      >>-eq-some (header_size file offset limit (from_be 0 (take 4 head))) _ e3 in
    let (k, e5) = if-eq-some (ltb sized.0 sized.1) _ e4 in
    let (last, d, e6) = >>-eq-some (checked (offset + sized.0)) _ e5 in
    let (l, e7) = if-eq-some (ltb limit last) _ e6 in
    let g = header_size-ge file offset limit (from_be 0 (take 4 head)) s in
    let z : h ≡ record { start = offset; size = sized.0; kind = drop 4 head; header = sized.1 } =
      cc in
    rw z (record { at = refl; headed = g; holds = ground arith; ends = ground arith })

children_fuel-none :
    (fuel : ℕ) (file : File) (offset end : ℕ)
    → read_header file offset end ≡ none
    → children_fuel fuel file offset end ≡ []
unfolding children_fuel
children_fuel-none zero file offset end e = refl
children_fuel-none (suc fuel) file offset end e = rw (children_fuel, e) refl

children_fuel-some :
    (fuel : ℕ) (file : File) (offset end : ℕ) (b : BoxHeader)
    → read_header file offset end ≡ some b
    → children_fuel (suc fuel) file offset end ≡ b ∷ children_fuel fuel file (box_end b) end
unfolding children_fuel
children_fuel-some fuel file offset end b e = rw (children_fuel, e) refl

-- Two amounts of fuel that reach the end find the same boxes.
children_fuel-enough :
    (n m : ℕ) (file : File) (offset end : ℕ)
    → end - offset ≤ n
    → end - offset ≤ m
    → children_fuel n file offset end ≡ children_fuel m file offset end
unfolding children_fuel
children_fuel-enough zero m file offset end h k =
    elim (Option-cases (read_header file offset end)) [
      | inl e ↦
          children_fuel-none zero file offset end e ∙ sym (children_fuel-none m file offset end e)
      | inr (b, e) ↦
          let w = read_header-IsWithin file offset end e in
          absurd (omega (arith, w.at, w.ends, w.headed, w.holds))
    ]
children_fuel-enough (suc n) zero file offset end h k =
    elim (Option-cases (read_header file offset end)) [
      | inl e ↦ children_fuel-none (suc n) file offset end e
      | inr (b, e) ↦
          let w = read_header-IsWithin file offset end e in
          absurd (omega (arith, w.at, w.ends, w.headed, w.holds))
    ]
children_fuel-enough (suc n) (suc m) file offset end h k =
    elim (Option-cases (read_header file offset end)) [
      | inl e ↦
          children_fuel-none (suc n) file offset end e
          ∙ sym (children_fuel-none (suc m) file offset end e)
      | inr (b, e) ↦
          let w = read_header-IsWithin file offset end e in
          let rest =
            children_fuel-enough n m file (box_end b) end
              (omega (arith, w.at, w.ends, w.headed, w.holds))
              (omega (arith, w.at, w.ends, w.headed, w.holds)) in
          children_fuel-some n file offset end b e
          ∙ (ap (◌∷◌ b) rest ∙ sym (children_fuel-some m file offset end b e))
    ]

-- The loop of `children` terminates, and its fuel is enough: it goes on from the end of each box
-- that it reads until it reads none.
children-unroll :
    (file : File) (offset end : ℕ)
    → ((read_header file offset end ≡ none) × (children file offset end ≡ []))
      ⊎ ((h : BoxHeader) × (read_header file offset end ≡ some h)
          × (children file offset end ≡ h ∷ children file (box_end h) end))
unfolding children
children-unroll file offset end = elim (Option-cases (read_header file offset end)) [
  | inl e ↦ inl (e, children_fuel-none (end - offset) file offset end e)
  | inr (b, e) ↦
      let w = read_header-IsWithin file offset end e in
      let more = end - offset - 1 in
      let k : end - offset ≡ suc more = omega (arith, w.at, w.ends, w.headed, w.holds) in
      inr (
        b,
        e,
        ap (λ n. children_fuel n file offset end) k
            ∙ (children_fuel-some more file offset end b e
                ∙ ap (◌∷◌ b) (
                    children_fuel-enough more (end - box_end b) file (box_end b) end
                      (omega (arith, w.at, w.headed, w.holds)) (omega arith))),
      )
]

-- The boxes stand one behind another from the offset on, each with its header, and end by the limit.
abbrev pub Tiles : ℕ → ℕ → List BoxHeader → Type 0
Tiles offset limit [] = Unit {0}
Tiles offset limit (h ∷ hs) = IsWithin offset limit h × Tiles (box_end h) limit hs

children_fuel-Tiles :
    (fuel : ℕ) (file : File) (offset end : ℕ)
    → Tiles offset end (children_fuel fuel file offset end)
children_fuel-Tiles zero file offset end = unfold children_fuel in tt
children_fuel-Tiles (suc fuel) file offset end = elim (Option-cases (read_header file offset end)) [
  | inl e ↦ rw (children_fuel-none (suc fuel) file offset end e) tt
  | inr (b, e) ↦
      rw (children_fuel-some fuel file offset end b e)
        (read_header-IsWithin file offset end e, children_fuel-Tiles fuel file (box_end b) end)
]

-- Whatever the bytes are, the boxes found between two offsets do not overlap: each starts where the
-- one before it ends, has room for its header of at least 8 bytes, and ends by the second offset.
pub children-Tiles : (file : File) (offset end : ℕ) → Tiles offset end (children file offset end)
unfolding children
children-Tiles file offset end = children_fuel-Tiles (end - offset) file offset end
