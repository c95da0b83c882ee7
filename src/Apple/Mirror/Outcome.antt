-- ===== src/Apple/Mirror/Outcome.antt =====
-- What the requests of `get_endpoint` can come to.
use peerless_server.Prelude.{
  ℕ, ◌+◌, ◌≡◌, ◌≢◌, refl, ◌⊎◌, inl, inr, Bool, true, false, ◌||◌, [], ◌∷◌, ◌++◌, Option, none, some,
  Bool-cases, Option-cases, Result, Result-cases, ok, err, Text, text,
}
use peerless_server.Apple.Mirror.{
  MirrorEndpoint, MirrorHttpError, Manifest, Status, Config, PolicyState, Answer, message, json,
  is_empty, record_failure, fail, is_offline, failed_request, manifest_mirror, manifest_key,
  check_status, use_manifest, fetch_endpoint,
}

pub record IsUsable (endpoint : MirrorEndpoint) : Type 0 where
  pub url : endpoint.mirror_url ≢ []
  pub key : endpoint.api_key ≢ []

abbrev pub Failed : ℕ → PolicyState → Answer → Type 0
Failed now state answer =
    (error : Text) × (answer ≡ (record_failure now error state, err (message error)))

abbrev pub stored : Config → ℕ → MirrorEndpoint → PolicyState
stored config now endpoint = record {
  cached = some (record { endpoint = endpoint; expires_at = now + config.cache_ttl });
  last_failure = none;
}

abbrev pub Found : Config → ℕ → Answer → Type 0
Found config now answer =
    (endpoint : MirrorEndpoint) × (answer ≡ (stored config now endpoint, ok endpoint))
    × IsUsable endpoint

is_empty-ne : (s : Text) → is_empty s ≡ false → s ≢ []
is_empty-ne [] h e = cc
is_empty-ne (c ∷ cs) h e = cc

or-false : (a b : Bool) → (a || b) ≡ false → (a ≡ false) × (b ≡ false)
or-false true b h = cc
or-false false b h = (refl, h)

module _ (http : Text → Option Text → Result Text MirrorHttpError)
    (parse_manifest : Text → Option Manifest) (parse_status : Text → Status) where
  check_status-cases :
      (config : Config) (now elapsed : ℕ) (mirror api_key : Text) (state : PolicyState)
      → IsUsable (record { mirror_url = mirror; api_key = api_key })
      → let answer =
          check_status http parse_manifest parse_status config now elapsed mirror api_key state in
        Failed now state answer ⊎ Found config now answer
  unfolding check_status fail
  check_status-cases config now elapsed mirror api_key state u =
      elim (Result-cases (http (mirror ++ text "/status") (some api_key))) [
        | inr (e, h) ↦ inl (
          failed_request (text "Mirror /status check failed") (text "Mirror /status check") e
              elapsed,
          rw (check_status, h) refl,
        )
        | inl (body, h) ↦ elim (Bool-cases (is_offline (parse_status body))) [
          | inl o ↦
              inl (
                text "Lossless wrapper is currently offline on mirror",
                rw (check_status, h, o) refl,
              )
          | inr o ↦
              inr
                (record { mirror_url = mirror; api_key = api_key }, rw (check_status, h, o) refl, u)
        ]
      ]

  use_manifest-cases :
      (config : Config) (now elapsed : ℕ) (manifest : Manifest) (state : PolicyState)
      → let answer =
          use_manifest http parse_manifest parse_status config now elapsed manifest state in
        Failed now state answer ⊎ Found config now answer
  unfolding use_manifest fail
  use_manifest-cases config now elapsed manifest state =
      elim (Bool-cases (is_empty (manifest_mirror manifest) || is_empty (manifest_key manifest))) [
        | inl e ↦ inl (text "Mirror manifest returned empty apple endpoint or api key", rw e refl)
        | inr e ↦
            let (m, k) =
              or-false (is_empty (manifest_mirror manifest)) (is_empty (manifest_key manifest)) e in
            rw e (
              check_status-cases config now elapsed (manifest_mirror manifest)
                (manifest_key manifest) state
                (record {
                  url = is_empty-ne (manifest_mirror manifest) m;
                  key = is_empty-ne (manifest_key manifest) k;
                }))
      ]

  -- The requests end in a failure that is recorded, a manifest that is no JSON, which is not, or an
  -- endpoint that is stored.
  pub fetch_endpoint-cases :
      (config : Config) (now manifest_elapsed status_elapsed : ℕ) (manifest_url : Text)
      (state : PolicyState)
      → let answer =
          fetch_endpoint http parse_manifest parse_status config now manifest_elapsed status_elapsed
            manifest_url state in
        Failed now state answer ⊎ ((answer ≡ (state, err json)) ⊎ Found config now answer)
  unfolding fetch_endpoint fail
  fetch_endpoint-cases config now manifest_elapsed status_elapsed manifest_url state =
      elim (Result-cases (http manifest_url none)) [
        | inr (e, h) ↦ inl (
          failed_request (text "Failed to fetch mirror manifest") (text "Mirror manifest lookup") e
              manifest_elapsed,
          rw (fetch_endpoint, h) refl,
        )
        | inl (body, h) ↦ elim (Option-cases (parse_manifest body)) [
          | inl p ↦ inr (inl (rw (fetch_endpoint, h, p) refl))
          | inr (manifest, p) ↦ elim (use_manifest-cases config now status_elapsed manifest state) [
            | inl f ↦ inl (f.0, rw (fetch_endpoint, h, p) f.1)
            | inr f ↦ inr (inr (f.0, rw (fetch_endpoint, h, p) f.1, f.2))
          ]
        ]
      ]
