-- ===== src/Engine/Priority.antt =====
-- crates/engine/src/orchestrator/priority.rs: the score of a job. A signed score `n` is kept as the
-- natural number `n + score_zero`, in the order of the scores; `score_zero` is that of the smallest `i16`.
pub mod Range
use peerless_server.Prelude.{ℕ, ◌+◌, ◌-◌, ◌*◌, Bool, List, [], ◌∷◌, if◌then◌else◌}

pub data RequestSource : Type 0 where
  client telegram_bot : RequestSource

pub record JobOrigin : Type 0 where
  pub source : RequestSource
  pub expanded_from_artist : Bool

pub data TargetKind : Type 0 where
  track album playlist artist : TargetKind

-- The fields of `RipTaskOptions` that count.
pub record RipTaskOptions : Type 0 where
  pub parsed_items : List TargetKind
  pub is_admin : Bool
  pub origin : JobOrigin

abbrev pub score_zero : ℕ
score_zero = 32768

unfoldable pub source_points : RequestSource → ℕ
source_points client = score_zero + 100
source_points telegram_bot = score_zero

unfoldable pub add_items : List TargetKind → ℕ → ℕ
add_items (track ∷ []) score = score + 60
add_items (album ∷ []) score = score + 10
add_items (playlist ∷ []) score = score - 60
add_items (artist ∷ []) score = score
add_items [] score = score
add_items (_ ∷ _ ∷ _) score = score - 40

unfoldable pub base_score : RipTaskOptions → ℕ
base_score options =
    let sourced = add_items options.parsed_items (source_points options.origin.source) in
    let expanded = if options.origin.expanded_from_artist then sourced - 60 else sourced in
    if options.is_admin then expanded - 200 else expanded

-- Of a base and the seconds waited, with `100 * score_zero` for the zero of the result.
unfoldable pub effective_score : ℕ → ℕ → ℕ
effective_score base waited_secs = base * 100 + waited_secs * 5
