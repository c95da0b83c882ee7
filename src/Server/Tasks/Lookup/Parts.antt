-- ===== src/Server/Tasks/Lookup/Parts.antt =====
-- What a complete archive of crates/server/src/lookup.rs consists of.
use peerless_server.Prelude.{
  ℕ, zero, suc, ◌<◌, ◌≡◌, ◌≢◌, refl, ap, sym, ◌∙◌, inl, inr, Bool, true, false, not, ◌&&◌, List, [],
  ◌∷◌, Option, none, some, ◌==◌, Bool-cases, Option-cases, length, get_elem?, set, replicate, All,
  arith, get_elem?-set_ne,
}
use peerless_server.Server.Tasks.Lookup.{
  Album, to_usize, index_of, marked, unseen, all_seen, is_same_archive, all_unseen, is_complete,
  has_complete_archive_parts,
}

&&-both : (a b : Bool) → (a && b) ≡ true → (a ≡ true) × (b ≡ true)
&&-both true b h = (refl, h)
&&-both false b h = cc

all_seen-get_elem? :
    (seen : List Bool) (i : ℕ) (s : Bool)
    → all_seen seen ≡ true
    → get_elem? seen i ≡ some s
    → s ≡ true
all_seen-get_elem? [] i s h g = cc
all_seen-get_elem? (b ∷ seen) zero s h g =
    let k = &&-both b (all_seen seen) h in let e : b ≡ s = cc in sym e ∙ k.0
all_seen-get_elem? (b ∷ seen) (suc i) s h g =
    all_seen-get_elem? seen i s (&&-both b (all_seen seen) h).1 g

marked-set :
    (seen seen' : List Bool) (i : ℕ) (found : Option Bool)
    → get_elem? seen i ≡ found
    → marked seen i found ≡ some seen'
    → (get_elem? seen i ≡ some false) × (seen' ≡ set seen i true)
marked-set seen seen' i none e h = cc
marked-set seen seen' i (some true) e h = cc
marked-set seen seen' i (some false) e h = (e, cc)

-- What a part marks: an index that was not seen.
unseen-set :
    (seen seen' : List Bool) (index : Option ℕ)
    → unseen seen index ≡ some seen'
    → (i : ℕ) × (index ≡ some i) × (get_elem? seen i ≡ some false) × (seen' ≡ set seen i true)
unseen-set seen seen' none h = cc
unseen-set seen seen' (some i) h =
    let m = marked-set seen seen' i (get_elem? seen i) refl h in (i, refl, m.0, m.1)

-- The part of an index, if the loop is to see it.
abbrev pub PartOf : List Album → ℕ → Type 0
PartOf parts i =
    (j : ℕ) × (part : Album) × (get_elem? parts j ≡ some part) × (index_of part.part_index ≡ some i)

all_unseen-PartOf :
    (first : Album) (parts : List Album) (seen : List Bool) (i : ℕ)
    → all_unseen first parts seen ≡ true
    → get_elem? seen i ≡ some false
    → PartOf parts i
unfolding all_unseen
all_unseen-PartOf first [] seen i h g = let k = all_seen-get_elem? seen i false h g in cc
all_unseen-PartOf first (part ∷ parts) seen i h g = elim (Bool-cases (is_same_archive first part)) [
  | inr e ↦ let k = rw (all_unseen, e) at h in cc
  | inl e ↦ elim (Option-cases (unseen seen (index_of part.part_index))) [
    | inl u ↦ let k = rw (all_unseen, e, u) at h in cc
    | inr (seen', u) ↦
        let k = rw (all_unseen, e, u) at h in
        let (n, x, f, q) = unseen-set seen seen' (index_of part.part_index) u in
        elim (Bool-cases (n == i)) [
          | inl s ↦ let same : n ≡ i = ground arith in (0, part, refl, x ∙ ap some same)
          | inr s ↦
              let other : n ≢ i = ground arith in
              let still : get_elem? seen' i ≡ some false =
                ap (λ l. get_elem? l i) q ∙ (get_elem?-set_ne seen true other ∙ g) in
              let (j, found, a, b) = all_unseen-PartOf first parts seen' i k still in
              (suc j, found, a, b)
        ]
  ]
]

all_unseen-same :
    (first : Album) (parts : List Album) (seen : List Bool)
    → all_unseen first parts seen ≡ true
    → All (λ part. is_same_archive first part ≡ true) parts
unfolding all_unseen
all_unseen-same first [] seen h = tt
all_unseen-same first (part ∷ parts) seen h = elim (Bool-cases (is_same_archive first part)) [
  | inr e ↦ let k = rw (all_unseen, e) at h in cc
  | inl e ↦ elim (Option-cases (unseen seen (index_of part.part_index))) [
    | inl u ↦ let k = rw (all_unseen, e, u) at h in cc
    | inr (seen', u) ↦ (e, all_unseen-same first parts seen' (rw (all_unseen, e, u) at h))
  ]
]

replicate-get_elem? : (n i : ℕ) → i < n → get_elem? (replicate n false) i ≡ some false
replicate-get_elem? zero i h = absurd (omega arith)
replicate-get_elem? (suc n) zero h = refl
replicate-get_elem? (suc n) (suc i) h = replicate-get_elem? n i (omega arith)

is_complete-PartOf :
    (first : Album) (parts : List Album) (expected : Option ℕ)
    → is_complete first parts expected ≡ true
    → (expected ≡ some (length parts))
      × ((i : ℕ) → i < length parts → PartOf parts i)
      × All (λ part. is_same_archive first part ≡ true) parts
is_complete-PartOf first parts none h = cc
is_complete-PartOf first parts (some n) h =
    let both =
      &&-both (not (n == 0) && length parts == n) (all_unseen first parts (replicate n false)) h in
    let sizes = &&-both (not (n == 0)) (length parts == n) both.0 in
    let same : length parts ≡ n = ground arith in
    (
      ap some (sym same),
      λ i low.
          all_unseen-PartOf first parts (replicate n false) i both.1
            (replicate-get_elem? n i (omega arith)),
      all_unseen-same first parts (replicate n false) both.1,
    )

-- An archive counts as complete only if it has as many parts as its first part says, each of the same
-- number of parts and the same generation as the first, and a part for each index from the first to the
-- last.
pub has_complete_archive_parts-PartOf :
    (first : Album) (parts : List Album)
    → has_complete_archive_parts (first ∷ parts) ≡ true
    → (to_usize first.total_parts ≡ some (length (first ∷ parts)))
      × ((i : ℕ) → i < length (first ∷ parts) → PartOf (first ∷ parts) i)
      × All (λ part. is_same_archive first part ≡ true) (first ∷ parts)
unfolding has_complete_archive_parts
has_complete_archive_parts-PartOf first parts h =
    is_complete-PartOf first (first ∷ parts) (to_usize first.total_parts) h
