-- ===== src/Apple/Mirror.antt =====
-- `MirrorPolicyManager` of crates/apple/src/mirror_policy.rs: the cached endpoint and the last
-- failure, behind a mutex that the clones share. Parameters are the HTTP adapter, `http`, and the two
-- readings of a body by serde_json. Instants and durations are in milliseconds.
pub mod Memory
pub mod Outcome
use peerless_server.Prelude.{
  ℕ, ◌+◌, ◌-◌, ◌*◌, Bool, true, false, not, ◌&&◌, ◌||◌, List, [], ◌∷◌, ◌++◌, reverse, Option, none,
  some, ltb, leb, ◌==◌, if◌then◌else◌, Result, ok, err, Text, text, decimal, trim,
}

pub record MirrorEndpoint : Type 0 where
  pub mirror_url : Text
  pub api_key : Text

pub data MirrorError : Type 0 where
  message : (text : Text) → MirrorError
  json : MirrorError

pub record CachedEndpoint : Type 0 where
  pub endpoint : MirrorEndpoint
  pub expires_at : ℕ

pub record Failure : Type 0 where
  pub time : ℕ
  pub error : Text

pub record PolicyState : Type 0 where
  pub cached : Option CachedEndpoint
  pub last_failure : Option Failure

pub record Config : Type 0 where
  pub env_override : Option (Text × Text)
  pub failure_cooldown : ℕ
  pub cache_ttl : ℕ

pub data MirrorHttpError : Type 0 where
  status : (code : ℕ) → MirrorHttpError
  timeout : (elapsed_ms : ℕ) → MirrorHttpError
  cancelled : MirrorHttpError
  network : (reason : Text) → MirrorHttpError

pub record Manifest : Type 0 where
  pub source : Option (Option Text)
  pub mirrors : Option (Option Text)
  pub key : Option Text
  pub api_key : Option Text

-- Of the instances only their number counts.
pub record Status : Type 0 where
  pub wrapper_lossless_available : Option Bool
  pub wrapper_instances : Option ℕ

unfoldable pub with_config : PolicyState
with_config = record { cached = none; last_failure = none }

unfoldable pub new : Option (Text × Text) → Config
new env_override = record {
  env_override = env_override;
  failure_cooldown = 30 * 1000;
  cache_ttl = 60 * 60 * 1000;
}

unfoldable pub clear_cache : PolicyState → PolicyState
clear_cache state = record { cached = none; last_failure = none }

unfoldable pub recent : ℕ → ℕ → Option Failure → Option Text
recent cooldown now none = none
recent cooldown now (some failure) =
    if ltb (now - failure.time) cooldown then some failure.error else none

unfoldable pub is_circuit_open : Config → ℕ → PolicyState → Bool
unfolding recent
is_circuit_open config now state = elim (recent config.failure_cooldown now state.last_failure) [
  | none ↦ false
  | some error ↦ true
]

unfoldable pub record_failure : ℕ → Text → PolicyState → PolicyState
record_failure now error state = record {
  cached = state.cached;
  last_failure = some (record { time = now; error = error });
}

unfoldable pub record_success : PolicyState → PolicyState
record_success state = record { cached = state.cached; last_failure = none }

abbrev pub is_empty : Text → Bool
is_empty [] = true
is_empty (_ ∷ _) = false

-- `filter(|value| !value.is_empty())`.
abbrev pub filled : Option Text → Option Text
filled none = none
filled (some value) = if is_empty value then none else some value

abbrev pub or_else {ℓ} : {A : Type ℓ} → Option A → Option A → Option A
or_else none b = b
or_else (some a) b = some a

abbrev pub unwrap_or {ℓ} : {A : Type ℓ} → Option A → A → A
unwrap_or none d = d
unwrap_or (some a) d = a

abbrev flat : Option (Option Text) → Option Text
flat none = none
flat (some o) = o

unfoldable pub trim_start_slash : Text → Text
trim_start_slash [] = []
trim_start_slash (c ∷ cs) = let rest = trim_start_slash cs in if c == b'/' then rest else c ∷ cs

-- `trim_end_matches('/')`.
unfoldable pub trim_slash : Text → Text
unfolding trim_start_slash
trim_slash s = reverse (trim_start_slash (reverse s))

unfoldable pub manifest_mirror : Manifest → Text
unfolding trim_slash
manifest_mirror manifest =
    trim_slash
      (unwrap_or (or_else (filled (flat manifest.source)) (filled (flat manifest.mirrors))) [])

unfoldable pub manifest_key : Manifest → Text
unfolding trim
manifest_key manifest = trim (unwrap_or (or_else (filled manifest.key) manifest.api_key) [])

unfoldable pub adapter_elapsed : MirrorHttpError → ℕ → ℕ
adapter_elapsed (timeout elapsed_ms) elapsed = elapsed_ms
adapter_elapsed (status code) elapsed = elapsed
adapter_elapsed cancelled elapsed = elapsed
adapter_elapsed (network reason) elapsed = elapsed

unfoldable pub adapter_message : MirrorHttpError → Text
adapter_message (timeout elapsed_ms) = text "request timed out"
adapter_message cancelled = text "request cancelled"
adapter_message (network reason) = reason
adapter_message (status code) = text "HTTP " ++ decimal code

-- The message of a request that failed, `elapsed` after it started.
unfoldable pub failed_request : Text → Text → MirrorHttpError → ℕ → Text
unfolding adapter_elapsed adapter_message
failed_request on_status on_timeout (status code) elapsed =
    on_status ++ (text " (HTTP " ++ (decimal code ++ text ")"))
failed_request on_status on_timeout (timeout ms) elapsed =
    on_timeout
    ++ (text " timed out after "
        ++ (decimal (adapter_elapsed (timeout ms) elapsed)
            ++ (text "ms: " ++ adapter_message (timeout ms))))
failed_request on_status on_timeout cancelled elapsed =
    on_timeout
    ++ (text " timed out after "
        ++ (decimal (adapter_elapsed cancelled elapsed)
            ++ (text "ms: " ++ adapter_message cancelled)))
failed_request on_status on_timeout (network reason) elapsed =
    on_timeout
    ++ (text " timed out after "
        ++ (decimal (adapter_elapsed (network reason) elapsed)
            ++ (text "ms: " ++ adapter_message (network reason))))

unfoldable pub override_endpoint : Option (Text × Text) → Option MirrorEndpoint
unfolding trim_slash
override_endpoint none = none
override_endpoint (some pair) =
    if not (is_empty pair.0) && not (is_empty pair.1)
    then some (record { mirror_url = trim_slash pair.0; api_key = pair.1 })
    else none

unfoldable pub live : ℕ → Option CachedEndpoint → Option MirrorEndpoint
live now none = none
live now (some cached) = if ltb now cached.expires_at then some cached.endpoint else none

-- What is answered without a request.
unfoldable pub remembered : Config → ℕ → PolicyState → Option (Result MirrorEndpoint MirrorError)
unfolding recent live
remembered config now state = elim (recent config.failure_cooldown now state.last_failure) [
  | some error ↦ some (err (message error))
  | none ↦ elim (live now state.cached) [ none ↦ none | some endpoint ↦ some (ok endpoint) ]
]

unfoldable pub is_offline : Status → Bool
is_offline s =
    elim s.wrapper_lossless_available [ none ↦ false | some available ↦ not available ]
    || elim s.wrapper_instances [ none ↦ false | some n ↦ n == 0 ]

abbrev pub Answer : Type 0
Answer = PolicyState × Result MirrorEndpoint MirrorError

unfoldable pub fail : ℕ → Text → PolicyState → Answer
unfolding record_failure
fail now error state = (record_failure now error state, err (message error))

module _ (http : Text → Option Text → Result Text MirrorHttpError)
    (parse_manifest : Text → Option Manifest) (parse_status : Text → Status) where
  -- From the health check on. `elapsed` is the time it took, `now` the instant after it.
  unfoldable pub check_status : Config → ℕ → ℕ → Text → Text → PolicyState → Answer
  unfolding failed_request is_offline fail
  check_status config now elapsed mirror api_key state =
      elim (http (mirror ++ text "/status") (some api_key)) [
        | err e ↦
            fail now
              (failed_request (text "Mirror /status check failed") (text "Mirror /status check") e
                elapsed)
              state
        | ok body ↦
            if is_offline (parse_status body)
            then fail now (text "Lossless wrapper is currently offline on mirror") state
            else (
              record {
                cached = some (record {
                  endpoint = record { mirror_url = mirror; api_key = api_key };
                  expires_at = now + config.cache_ttl;
                });
                last_failure = none;
              },
              ok (record { mirror_url = mirror; api_key = api_key }),
            )
      ]

  unfoldable pub use_manifest : Config → ℕ → ℕ → Manifest → PolicyState → Answer
  unfolding manifest_mirror manifest_key fail check_status
  use_manifest config now elapsed manifest state =
      if is_empty (manifest_mirror manifest) || is_empty (manifest_key manifest)
      then fail now (text "Mirror manifest returned empty apple endpoint or api key") state
      else check_status config now elapsed (manifest_mirror manifest) (manifest_key manifest) state

  unfoldable pub fetch_endpoint : Config → ℕ → ℕ → ℕ → Text → PolicyState → Answer
  unfolding failed_request fail use_manifest
  fetch_endpoint config now manifest_elapsed status_elapsed manifest_url state =
      elim (http manifest_url none) [
        | err e ↦
            fail now
              (failed_request (text "Failed to fetch mirror manifest")
                (text "Mirror manifest lookup") e manifest_elapsed)
              state
        | ok body ↦ elim (parse_manifest body) [
          | none ↦ (state, err json)
          | some manifest ↦ use_manifest config now status_elapsed manifest state
        ]
      ]

  -- `started` is the instant of the call, and `now` that at which it records what came of its requests,
  -- with the time that each of them took.
  unfoldable pub get_endpoint : Config → Text → Bool → ℕ → ℕ → ℕ → ℕ → PolicyState → Answer
  unfolding override_endpoint remembered fetch_endpoint
  get_endpoint config manifest_url force_refresh started now manifest_elapsed status_elapsed state =
      elim (override_endpoint config.env_override) [
        | some endpoint ↦ (state, ok endpoint)
        | none ↦ elim (if force_refresh then none else remembered config started state) [
          | some answer ↦ (state, answer)
          | none ↦ fetch_endpoint config now manifest_elapsed status_elapsed manifest_url state
        ]
      ]
