-- ===== src/Engine/Priority/Range.antt =====
-- The range of the scores, and how waiting makes up for a base.
use peerless_server.Prelude.{ℕ, ◌+◌, ◌≤◌, List, [], ◌∷◌, Bool-cases, inl, inr, arith}
use peerless_server.Engine.Priority.{
  RequestSource, client, telegram_bot, TargetKind, track, album, playlist, artist, RipTaskOptions,
  score_zero, source_points, add_items, base_score, effective_score,
}

source_points_range :
    (s : RequestSource) → (score_zero ≤ source_points s) × (source_points s ≤ score_zero + 100)
unfolding source_points
source_points_range client = (omega arith, omega arith)
source_points_range telegram_bot = (omega arith, omega arith)

add_items_range :
    (items : List TargetKind) (score : ℕ)
    → (score ≤ add_items items score + 60) × (add_items items score ≤ score + 60)
unfolding add_items
add_items_range [] score = (omega arith, omega arith)
add_items_range (track ∷ []) score = (omega arith, omega arith)
add_items_range (album ∷ []) score = (omega arith, omega arith)
add_items_range (playlist ∷ []) score = (omega arith, omega arith)
add_items_range (artist ∷ []) score = (omega arith, omega arith)
add_items_range (_ ∷ _ ∷ _) score = (omega arith, omega arith)

-- The base score of a job is between -320 and 160, so that its sums in `i16` never overflow.
base_score_range :
    (options : RipTaskOptions)
    → (score_zero ≤ base_score options + 320) × (base_score options ≤ score_zero + 160)
unfolding base_score
base_score_range options =
    let a = source_points_range options.origin.source in
    let b = add_items_range options.parsed_items (source_points options.origin.source) in
    elim (Bool-cases options.origin.expanded_from_artist) [
      | inl e ↦ elim (Bool-cases options.is_admin) [
        | inl f ↦ rw (e, f) (omega (arith, a, b), omega (arith, a, b))
        | inr f ↦ rw (e, f) (omega (arith, a, b), omega (arith, a, b))
      ]
      | inr e ↦ elim (Bool-cases options.is_admin) [
        | inl f ↦ rw (e, f) (omega (arith, a, b), omega (arith, a, b))
        | inr f ↦ rw (e, f) (omega (arith, a, b), omega (arith, a, b))
      ]
    ]

-- Waiting overtakes any base in the end: a job that has waited at least 9600 seconds longer than
-- another scores at least as high, whatever the two jobs are.
effective_score_overtakes :
    (old new : RipTaskOptions) (waited_old waited_new : ℕ)
    → waited_new + 9600 ≤ waited_old
    → effective_score (base_score new) waited_new ≤ effective_score (base_score old) waited_old
unfolding effective_score
effective_score_overtakes old new waited_old waited_new h =
    omega (arith, base_score_range old, base_score_range new)
