-- ===== src/Core/Retry/Backoff.antt =====
-- The delays of a retry budget.
use peerless_server.Prelude.{ℕ, ◌≤◌, Option, none, some, ◌>>◌, Text, text, arith}
use peerless_server.Stream.Range.{parse_u64}
use peerless_server.Core.Retry.{
  max_retries, max_retry_base_ms, at_most, unwrap_or, from_lookup, policy,
}

at_most-le : (limit d : ℕ) (o : Option ℕ) → d ≤ limit → unwrap_or (o >> at_most limit) d ≤ limit
at_most-le limit d none h = h
at_most-le limit d (some n) h = ground arith

-- Whatever the environment holds, the budget is within its caps: at most 10 retries and a base delay
-- of at most one minute, hence at most 11 attempts, and at least one.
policy-from_lookup :
    (lookup : Text → Option Text)
    → (1 ≤ (policy (from_lookup lookup)).total_attempts)
      × ((policy (from_lookup lookup)).total_attempts ≤ 11)
      × ((policy (from_lookup lookup)).base_delay_ms ≤ 60000)
unfolding policy from_lookup
policy-from_lookup lookup =
    let a =
      at_most-le max_retries 3
        (lookup (text "ALAC_MAX_RETRIES") >> parse_u64 >> at_most 0xffff_ffff) (omega arith) in
    let b =
      at_most-le max_retry_base_ms 2000 (lookup (text "ALAC_RETRY_BASE_MS") >> parse_u64)
        (omega arith) in
    (omega (arith, a), omega (arith, a), b)
