-- ===== src/Server/Tasks/Lookup.antt =====
-- Whether all parts of an album's archive are stored: `has_complete_archive_parts` of
-- crates/server/src/lookup.rs.
pub mod Parts
use peerless_server.Prelude.{
  ℕ, zero, suc, ◌+◌, ◌-◌, Bool, true, false, not, ◌&&◌, ◌||◌, List, [], ◌∷◌, Option, none, some,
  ltb, ◌==◌, if◌then◌else◌, Text, eq_text, length, get_elem?, set, replicate,
}

-- An `i32`.
pub data ℤ : Type 0 where
  pos negsuc : ℕ → ℤ

abbrev pub same_int : ℤ → ℤ → Bool
same_int (pos a) (pos b) = a == b
same_int (pos a) (negsuc b) = false
same_int (negsuc a) (pos b) = false
same_int (negsuc a) (negsuc b) = a == b

pub record Album : Type 0 where
  pub total_parts : ℤ
  pub part_index : ℤ
  pub generation_hash : Text

-- `usize::try_from`.
abbrev pub to_usize : ℤ → Option ℕ
to_usize (pos n) = some n
to_usize (negsuc n) = none

-- The index from 0; an `i32` that is not positive has none.
abbrev pub index_of : ℤ → Option ℕ
index_of (pos zero) = none
index_of (pos (suc n)) = some n
index_of (negsuc n) = none

abbrev pub marked : List Bool → ℕ → Option Bool → Option (List Bool)
marked seen index none = none
marked seen index (some true) = none
marked seen index (some false) = some (set seen index true)

abbrev pub unseen : List Bool → Option ℕ → Option (List Bool)
unseen seen none = none
unseen seen (some index) = marked seen index (get_elem? seen index)

abbrev pub all_seen : List Bool → Bool
all_seen [] = true
all_seen (seen ∷ rest) = seen && all_seen rest

abbrev pub is_same_archive : Album → Album → Bool
is_same_archive first part =
    same_int part.total_parts first.total_parts
    && eq_text part.generation_hash first.generation_hash

-- The loop over the parts: `false` as soon as a part is of another generation, has an index out of range
-- or one that was seen.
unfoldable pub all_unseen : Album → List Album → List Bool → Bool
all_unseen first [] seen = all_seen seen
all_unseen first (part ∷ parts) seen =
    is_same_archive first part && elim (unseen seen (index_of part.part_index)) [
      | none ↦ false
      | some seen' ↦ all_unseen first parts seen'
    ]

abbrev pub is_complete : Album → List Album → Option ℕ → Bool
is_complete first parts none = false
is_complete first parts (some expected_parts) =
    not (expected_parts == 0)
    && length parts == expected_parts
    && all_unseen first parts (replicate expected_parts false)

unfoldable pub has_complete_archive_parts : List Album → Bool
unfolding all_unseen
has_complete_archive_parts [] = false
has_complete_archive_parts (first ∷ parts) =
    is_complete first (first ∷ parts) (to_usize first.total_parts)
