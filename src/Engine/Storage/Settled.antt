-- ===== src/Engine/Storage/Settled.antt =====
-- The storage retries of crates/engine/src/orchestrator/helpers.rs settle within the attempts.
use peerless_server.Prelude.{
  ℕ, zero, suc, ◌+◌, ◌-◌, ◌≤◌, ◌<◌, ◌≡◌, refl, ap, ◌⊎◌, inl, inr, List, [], ◌∷◌, Option, some, Bool,
  true, false, ◌==◌, ltb, Bool-cases, Result, arith,
}
use peerless_server.Core.Retry.{RetryPolicy, delay_before_retry}
use peerless_server.Engine.Storage.{
  Finished, unavailable, slept, retry_from, attempts_of, find_cached_tracks_with_retry,
  save_track_with_retry,
}

-- The delays before so many retries from one on.
unfoldable pub delays_from : RetryPolicy → ℕ → ℕ → List ℕ
delays_from policy attempt zero = []
delays_from policy attempt (suc n) =
    delay_before_retry policy attempt ∷ delays_from policy (attempt + 1) n

-- From an attempt on: each request before the last was answered that the store is unavailable, the
-- last one was not or was the last allowed, and its answer is returned after the sleeps between.
abbrev pub Settled :
    {A E : Type 0}
    → (E → Bool)
    → (ℕ → Result A E)
    → RetryPolicy
    → ℕ
    → Option (Finished A E)
    → Type 0
Settled is_unavailable call policy attempt result =
    (last : ℕ) × (attempt ≤ last)
    × (last < attempts_of policy)
    × ((i : ℕ) → attempt ≤ i → i < last → unavailable is_unavailable (call i) ≡ true)
    × ((unavailable is_unavailable (call last) ≡ false) ⊎ (last + 1 ≡ attempts_of policy))
    × (result
        ≡ some (record { sleeps = delays_from policy attempt (last - attempt); reply = call last }))

Earlier-true :
    (test : ℕ → Bool) (attempt last : ℕ)
    → test attempt ≡ true
    → ((i : ℕ) → attempt + 1 ≤ i → i < last → test i ≡ true)
    → (i : ℕ) → attempt ≤ i
    → i < last
    → test i ≡ true
Earlier-true test attempt last h rest i low high = elim (Bool-cases (i == attempt)) [
  | inl e ↦ let same : i ≡ attempt = ground arith in rw same h
  | inr e ↦ let later : attempt + 1 ≤ i = ground arith in rest i later high
]

retry_from-Settled :
    {A E : Type 0} (is_unavailable : E → Bool) (call : ℕ → Result A E) (policy : RetryPolicy)
    (fuel attempt : ℕ)
    → attempt < attempts_of policy
    → attempts_of policy ≤ attempt + fuel
    → Settled is_unavailable call policy attempt
        (retry_from is_unavailable call policy (attempts_of policy) fuel attempt)
unfolding retry_from delays_from
retry_from-Settled is_unavailable call policy zero attempt h k = absurd (omega arith)
retry_from-Settled is_unavailable call policy (suc fuel) attempt h k =
    let none_left : attempt - attempt ≡ 0 = omega arith in
    let nothing : (i : ℕ) → attempt ≤ i → i < attempt → unavailable is_unavailable (call i) ≡ true =
      λ i low high. absurd (omega arith) in
    elim (Bool-cases (unavailable is_unavailable (call attempt))) [
      | inr e ↦ rw (retry_from, e) (attempt, omega arith, h, nothing, inl e, rw none_left refl)
      | inl e ↦ elim (Bool-cases (ltb (attempt + 1) (attempts_of policy))) [
        | inr l ↦
            let end : attempt + 1 ≡ attempts_of policy = ground arith in
            rw (retry_from, e, l) (attempt, omega arith, h, nothing, inr end, rw none_left refl)
        | inl l ↦
            let more : attempt + 1 < attempts_of policy = ground arith in
            let (last, low, high, earlier, stop, eq) =
              retry_from-Settled is_unavailable call policy fuel (attempt + 1) more (omega arith) in
            let one : last - attempt ≡ suc (last - (attempt + 1)) = omega (arith, low) in
            rw (retry_from, e, l)
              (
                last,
                omega (arith, low),
                high,
                Earlier-true (λ i. unavailable is_unavailable (call i)) attempt last e earlier,
                stop,
                rw one (ap (slept (delay_before_retry policy attempt)) eq),
              )
      ]
    ]

-- Both storage loops return: at the first request that is not answered as unavailable, or at the last
-- allowed one, with its answer, and after the delays of the policy between the requests.
pub find_cached_tracks_with_retry-save_track_with_retry :
    {Tracks E : Type 0} (is_unavailable : E → Bool) (find_cached_tracks : ℕ → Result Tracks E)
    (save_track : ℕ → Result (Unit {0}) E) (policy : RetryPolicy)
    → Settled is_unavailable find_cached_tracks policy 0
        (find_cached_tracks_with_retry is_unavailable find_cached_tracks policy)
      × Settled is_unavailable save_track policy 0
          (save_track_with_retry is_unavailable save_track policy)
unfolding find_cached_tracks_with_retry save_track_with_retry
find_cached_tracks_with_retry-save_track_with_retry is_unavailable find_cached_tracks save_track
      policy =
    let few : 0 < attempts_of policy = ground arith in
    (
      retry_from-Settled is_unavailable find_cached_tracks policy (attempts_of policy) 0 few
          (omega arith),
      retry_from-Settled is_unavailable save_track policy (attempts_of policy) 0 few (omega arith),
    )
