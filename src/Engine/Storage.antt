-- ===== src/Engine/Storage.antt =====
-- The cache storage retries of crates/engine/src/orchestrator/helpers.rs:
-- `find_cached_tracks_with_retry` and `save_track_with_retry`. The cache is a parameter that gives
-- its answer to the request of each attempt.
pub mod Settled
mod Tests
use peerless_server.Prelude.{
  ℕ, zero, suc, ◌+◌, max, List, [], ◌∷◌, Option, none, some, Bool, true, false, ◌&&◌, ltb,
  if◌then◌else◌, Result, ok, err,
}
use peerless_server.Core.Retry.{RetryPolicy, delay_before_retry}

-- What the loop returns, and the sleeps before, in milliseconds.
pub record Finished (A E : Type 0) : Type 0 where
  pub sleeps : List ℕ
  pub reply : Result A E

-- The guard `is_unavailable` of the error arm.
abbrev pub unavailable : {A E : Type 0} → (E → Bool) → Result A E → Bool
unavailable is_unavailable (ok value) = false
unavailable is_unavailable (err error) = is_unavailable error

abbrev pub slept : {A E : Type 0} → ℕ → Option (Finished A E) → Option (Finished A E)
slept delay none = none
slept delay (some f) = some (record { sleeps = delay ∷ f.sleeps; reply = f.reply })

-- The loop from one attempt on, on fuel.
unfoldable pub retry_from :
    {A E : Type 0} → (E → Bool) → (ℕ → Result A E) → RetryPolicy → ℕ → ℕ → ℕ → Option (Finished A E)
retry_from is_unavailable call policy attempts zero attempt = none
retry_from is_unavailable call policy attempts (suc fuel) attempt =
    let rest = retry_from is_unavailable call policy attempts fuel (attempt + 1) in
    if unavailable is_unavailable (call attempt) && ltb (attempt + 1) attempts
    then slept (delay_before_retry policy attempt) rest
    else some (record { sleeps = []; reply = call attempt })

abbrev pub attempts_of : RetryPolicy → ℕ
attempts_of policy = max policy.total_attempts 1

unfoldable pub find_cached_tracks_with_retry :
    {Tracks E : Type 0}
    → (E → Bool)
    → (ℕ → Result Tracks E)
    → RetryPolicy
    → Option (Finished Tracks E)
unfolding retry_from
find_cached_tracks_with_retry is_unavailable find_cached_tracks policy =
    retry_from is_unavailable find_cached_tracks policy (attempts_of policy) (attempts_of policy) 0

unfoldable pub save_track_with_retry :
    {E : Type 0}
    → (E → Bool)
    → (ℕ → Result (Unit {0}) E)
    → RetryPolicy
    → Option (Finished (Unit {0}) E)
unfolding retry_from
save_track_with_retry is_unavailable save_track policy =
    retry_from is_unavailable save_track policy (attempts_of policy) (attempts_of policy) 0
