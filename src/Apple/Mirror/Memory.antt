-- ===== src/Apple/Mirror/Memory.antt =====
-- What `get_endpoint` remembers from one call to the next.
use peerless_server.Prelude.{
  ℕ, ◌+◌, ◌-◌, ◌<◌, ◌≡◌, refl, inl, inr, true, false, Option, none, some, ltb, Result, ok, err,
  Text, arith,
}
use peerless_server.Apple.Mirror.{
  MirrorEndpoint, MirrorError, MirrorHttpError, Manifest, Status, Config, PolicyState, message,
  json, record_failure, override_endpoint, recent, live, remembered, fetch_endpoint, get_endpoint,
}
use peerless_server.Apple.Mirror.Outcome.{stored, fetch_endpoint-cases}

-- The answers that are remembered at an instant, by what they are.
abbrev pub Fresh : Config → ℕ → ℕ → Result MirrorEndpoint MirrorError → Type 0
Fresh config now later (ok endpoint) = later < now + config.cache_ttl
Fresh config now later (err (message error)) = later - now < config.failure_cooldown
Fresh config now later (err json) = ⊥

remembered-failure :
    (config : Config) (now later : ℕ) (error : Text) (state : PolicyState)
    → later - now < config.failure_cooldown
    → remembered config later (record_failure now error state) ≡ some (err (message error))
unfolding remembered recent record_failure
remembered-failure config now later error state h =
    let b : ltb (later - now) config.failure_cooldown ≡ true = ground arith in
    rw (remembered, b) refl

remembered-stored :
    (config : Config) (now later : ℕ) (endpoint : MirrorEndpoint)
    → later < now + config.cache_ttl
    → remembered config later (stored config now endpoint) ≡ some (ok endpoint)
unfolding remembered recent live
remembered-stored config now later endpoint h =
    let b : ltb later (now + config.cache_ttl) ≡ true = ground arith in rw (remembered, b) refl

module _ (http : Text → Option Text → Result Text MirrorHttpError)
    (parse_manifest : Text → Option Manifest) (parse_status : Text → Status) where
  get_endpoint-remembered :
      (config : Config) (manifest_url : Text) (started now m s : ℕ) (state : PolicyState)
      (answer : Result MirrorEndpoint MirrorError)
      → override_endpoint config.env_override ≡ none
      → remembered config started state ≡ some answer
      → get_endpoint http parse_manifest parse_status config manifest_url false started now m s
          state
        ≡ (state, answer)
  unfolding get_endpoint
  get_endpoint-remembered config manifest_url started now m s state answer o r =
      rw (get_endpoint, o, r) refl

module _ (http : Text → Option Text → Result Text MirrorHttpError)
    (parse_manifest : Text → Option Manifest) (parse_status : Text → Status) where
  get_endpoint-forced :
      (config : Config) (manifest_url : Text) (started now m s : ℕ) (state : PolicyState)
      → override_endpoint config.env_override ≡ none
      → get_endpoint http parse_manifest parse_status config manifest_url true started now m s state
        ≡ fetch_endpoint http parse_manifest parse_status config now m s manifest_url state
  unfolding get_endpoint
  get_endpoint-forced config manifest_url started now m s state o = rw (get_endpoint, o) refl

  fetch_endpoint-remembered :
      (config : Config) (now later m s : ℕ) (manifest_url : Text) (state : PolicyState)
      → let answer =
          fetch_endpoint http parse_manifest parse_status config now m s manifest_url state in
        Fresh config now later answer.1 → remembered config later answer.0 ≡ some answer.1
  fetch_endpoint-remembered config now later m s manifest_url state h =
      elim (fetch_endpoint-cases http parse_manifest parse_status config now m s manifest_url
        state) [
          | inl f ↦ rw f.1 (remembered-failure config now later f.0 state (rw f.1 at h))
          | inr (inl f) ↦ elim (rw f at h) [ ]
          | inr (inr f) ↦ rw f.1 (remembered-stored config now later f.0 (rw f.1 at h))
        ]

  -- With no override in the environment, the answer of a forced refresh is repeated by a later call
  -- without a request, whatever the mirror would then say: an endpoint for the time to live of the
  -- cache, and a failure for the cooldown. A manifest that is no JSON is not remembered.
  pub get_endpoint_again :
      (http' : Text → Option Text → Result Text MirrorHttpError) (config : Config)
      (manifest_url : Text) (started now later m s now' m' s' : ℕ) (state : PolicyState)
      → override_endpoint config.env_override ≡ none
      → Fresh config now later
          (get_endpoint http parse_manifest parse_status config manifest_url true started now m s
            state).1
      → get_endpoint http' parse_manifest parse_status config manifest_url false later now' m' s'
          (get_endpoint http parse_manifest parse_status config manifest_url true started now m s
            state).0
        ≡ get_endpoint http parse_manifest parse_status config manifest_url true started now m s
            state
  get_endpoint_again http' config manifest_url started now later m s now' m' s' state o h =
      let e = get_endpoint-forced config manifest_url started now m s state o in
      rw e (
        get_endpoint-remembered http' parse_manifest parse_status config manifest_url later now' m'
          s' (fetch_endpoint http parse_manifest parse_status config now m s manifest_url state).0
          (fetch_endpoint http parse_manifest parse_status config now m s manifest_url state).1 o
          (fetch_endpoint-remembered config now later m s manifest_url state (rw e at h)))
