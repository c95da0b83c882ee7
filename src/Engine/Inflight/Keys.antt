-- ===== src/Engine/Inflight/Keys.antt =====
-- `InflightTargetKey` of crates/engine/src/orchestrator/inflight.rs and its equality.
use peerless_server.Prelude.{
  ◌≡◌, ◌↔◌, List, [], ◌∷◌, Option, none, some, Bool, true, false, ◌&&◌, ◌||◌, Text, eq_text,
  eq_text_iff, arith,
}
use peerless_server.Music.{TargetKind, track, album, playlist, artist}

pub record InflightTargetKey : Type 0 where
  pub kind : TargetKind
  pub id : Text
  pub storefront : Option Text

abbrev pub same_kind : TargetKind → TargetKind → Bool
same_kind track track = true
same_kind album album = true
same_kind playlist playlist = true
same_kind artist artist = true
same_kind _ _ = false

abbrev pub same_storefront : Option Text → Option Text → Bool
same_storefront none none = true
same_storefront (some a) (some b) = eq_text a b
same_storefront _ _ = false

unfoldable pub same_key : InflightTargetKey → InflightTargetKey → Bool
same_key a b =
    same_kind a.kind b.kind && eq_text a.id b.id && same_storefront a.storefront b.storefront

-- Whether a list of keys has a key.
unfoldable pub has_key : InflightTargetKey → List InflightTargetKey → Bool
has_key key [] = false
has_key key (other ∷ keys) = same_key other key || has_key key keys

same_kind_iff : (a b : TargetKind) → (same_kind a b ≡ true) ↔ (a ≡ b)
same_kind_iff track b = ground arith
same_kind_iff album b = ground arith
same_kind_iff playlist b = ground arith
same_kind_iff artist b = ground arith

same_storefront_iff : (a b : Option Text) → (same_storefront a b ≡ true) ↔ (a ≡ b)
same_storefront_iff none none = ground arith
same_storefront_iff none (some b) = ground arith
same_storefront_iff (some a) none = ground arith
same_storefront_iff (some a) (some b) = ground (arith, eq_text_iff a b)

pub same_key_iff : (a b : InflightTargetKey) → (same_key a b ≡ true) ↔ (a ≡ b)
unfolding same_key
same_key_iff a b = ground (
  arith,
  same_kind_iff a.kind b.kind,
  eq_text_iff a.id b.id,
  same_storefront_iff a.storefront b.storefront,
)
