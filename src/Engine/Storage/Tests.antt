-- ===== src/Engine/Storage/Tests.antt =====
-- Runs of the storage retries of crates/engine/src/orchestrator/helpers.rs.
use peerless_server.Prelude.{ℕ, zero, suc, ◌≡◌, refl, [], ◌∷◌, some, Bool, true, Result, ok, err}
use peerless_server.Core.Retry.{RetryPolicy, delay_before_retry, exponential_delay}
use peerless_server.Engine.Storage.{
  find_cached_tracks_with_retry, save_track_with_retry, retry_from,
}
use peerless_server.Engine.Storage.Settled.{
  Settled, find_cached_tracks_with_retry-save_track_with_retry,
}

abbrev policy_of_three : RetryPolicy
policy_of_three = record { total_attempts = 3; base_delay_ms = 100 }

-- An error that is `true` says that the store is unavailable.
abbrev is_down : Bool → Bool
is_down error = error

abbrev third_time : ℕ → Result ℕ Bool
third_time zero = err true
third_time (suc zero) = err true
third_time (suc (suc n)) = ok 7

abbrev always_down : ℕ → Result (Unit {0}) Bool
always_down n = err true

find_cached_tracks_with_retry_third :
    find_cached_tracks_with_retry is_down third_time policy_of_three
    ≡ some (record { sleeps = 100 ∷ 200 ∷ []; reply = ok 7 })
unfolding find_cached_tracks_with_retry retry_from delay_before_retry exponential_delay
find_cached_tracks_with_retry_third = refl

save_track_with_retry_down :
    save_track_with_retry is_down always_down policy_of_three
    ≡ some (record { sleeps = 100 ∷ 200 ∷ []; reply = err true })
unfolding save_track_with_retry retry_from delay_before_retry exponential_delay
save_track_with_retry_down = refl

find_cached_tracks_with_retry-save_track_with_retry_example :
    Settled is_down third_time policy_of_three 0
      (find_cached_tracks_with_retry is_down third_time policy_of_three)
    × Settled is_down always_down policy_of_three 0
        (save_track_with_retry is_down always_down policy_of_three)
find_cached_tracks_with_retry-save_track_with_retry_example =
    find_cached_tracks_with_retry-save_track_with_retry is_down third_time always_down
      policy_of_three
