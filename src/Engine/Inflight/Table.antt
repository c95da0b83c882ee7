-- ===== src/Engine/Inflight/Table.antt =====
-- The table of entries in crates/engine/src/orchestrator/inflight.rs: what a look-up finds.
use peerless_server.Prelude.{
  All, ℕ, ◌≡◌, refl, sym, ◌∙◌, inl, inr, List, [], ◌∷◌, Option, none, some, Option-cases, true,
  Bool-cases, if◌then◌else◌, arith,
}
use peerless_server.Engine.Inflight.{
  Table, get, insert_all, remove_key, remove_keys, maybe_inflight,
}
use peerless_server.Engine.Inflight.Keys.{InflightTargetKey, same_key, same_key_iff, has_key}

-- A key that equals another finds what the other does.
get-same_key :
    (items : Table) (a b : InflightTargetKey) → same_key a b ≡ true → get items a ≡ get items b
get-same_key items a b h = rw ((same_key_iff a b).0 h) refl

pub get-insert_all :
    (keys : List InflightTargetKey) (entry : ℕ) (items : Table) (key : InflightTargetKey)
    → get (insert_all keys entry items) key
      ≡ (if has_key key keys then some entry else get items key)
unfolding insert_all has_key get
get-insert_all [] entry items key = refl
get-insert_all (other ∷ keys) entry items key =
    ground (arith, get-insert_all keys entry ((other, entry) ∷ items) key)

get-remove_key :
    (other : InflightTargetKey) (items : Table) (key : InflightTargetKey)
    → get (remove_key other items) key ≡ (if same_key other key then none else get items key)
unfolding remove_key get
get-remove_key other [] key = ground arith
get-remove_key other ((k, v) ∷ items) key = ground (
  arith,
  same_key_iff k other,
  same_key_iff k key,
  same_key_iff other key,
  get-remove_key other items key,
)

pub get-remove_keys :
    (keys : List InflightTargetKey) (items : Table) (key : InflightTargetKey)
    → get (remove_keys keys items) key ≡ (if has_key key keys then none else get items key)
unfolding remove_keys has_key
get-remove_keys [] items key = refl
get-remove_keys (other ∷ keys) items key =
    ground
      (arith, get-remove_key other items key, get-remove_keys keys (remove_key other items) key)

-- A look for the entries of other jobs fails only if there is none for any of the keys.
pub maybe_inflight-get :
    (keys : List InflightTargetKey) (items : Table) (key : InflightTargetKey)
    → maybe_inflight keys items ≡ none
    → has_key key keys ≡ true
    → get items key ≡ none
unfolding maybe_inflight has_key
maybe_inflight-get [] items key h k = cc
maybe_inflight-get (other ∷ keys) items key h k = elim (Option-cases (get items other)) [
  | inr (entry, e) ↦ let h' : ◌≡◌ {A = Option ℕ} (some entry) none = rw e at h in cc
  | inl e ↦
      let h' : maybe_inflight keys items ≡ none = rw e at h in
      elim (Bool-cases (same_key other key)) [
        | inl s ↦ sym (get-same_key items other key s) ∙ e
        | inr s ↦ maybe_inflight-get keys items key h' (rw s at k)
      ]
]

-- What holds of each key that a list has holds of the list's keys.
All-has_key :
    (P : InflightTargetKey → Type 0) (keys : List InflightTargetKey)
    → ((key : InflightTargetKey) → has_key key keys ≡ true → P key)
    → All P keys
unfolding has_key
All-has_key P [] h = tt
All-has_key P (key ∷ keys) h = (
  h key (ground (arith, same_key_iff key key)),
  All-has_key P keys (λ other has. h other (ground arith)),
)

pub remove_keys-All_none :
    (keys : List InflightTargetKey) (items : Table)
    → All (λ key. get (remove_keys keys items) key ≡ none) keys
remove_keys-All_none keys items =
    All-has_key (λ key. get (remove_keys keys items) key ≡ none) keys
      (λ key h. get-remove_keys keys items key ∙ rw h refl)
