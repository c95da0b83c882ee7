-- ===== src/Core/Retry.antt =====
-- crates/core/src/retry.rs: the exponential backoff and the retry budget. Delays are in milliseconds.
-- The jitter, a floating-point number, is left out. `lookup` reads a variable of the environment.
pub mod Backoff
use peerless_server.Prelude.{
  ℕ, ◌+◌, ◌*◌, ◌^◌, min, Option, none, some, leb, if◌then◌else◌, ◌>>◌, Text, text,
}
use peerless_server.Stream.Range.{parse_u64, u64_max}

abbrev pub u32_max : ℕ
u32_max = 0xffff_ffff

abbrev pub max_retries : ℕ
max_retries = 10

abbrev pub max_retry_base_ms : ℕ
max_retry_base_ms = 60000

abbrev pub default_retries : ℕ
default_retries = 3

abbrev pub default_retry_base_ms : ℕ
default_retry_base_ms = 2000

abbrev pub max_backoff_exponent : ℕ
max_backoff_exponent = 31

-- The shift never passes 31 bits, so that `checked_shl` gives a number.
unfoldable pub exponential_delay : ℕ → ℕ → ℕ
exponential_delay base_delay_ms retry_index =
    min (base_delay_ms * 2 ^ min retry_index max_backoff_exponent) u64_max

pub record RetryPolicy : Type 0 where
  pub total_attempts : ℕ
  pub base_delay_ms : ℕ

unfoldable pub delay_before_retry : RetryPolicy → ℕ → ℕ
unfolding exponential_delay
delay_before_retry policy retry_index = exponential_delay policy.base_delay_ms retry_index

pub record RetryConfig : Type 0 where
  pub retries : ℕ
  pub base_delay_ms : ℕ

abbrev pub at_most : ℕ → ℕ → Option ℕ
at_most limit n = if leb n limit then some n else none

abbrev pub unwrap_or : Option ℕ → ℕ → ℕ
unwrap_or none d = d
unwrap_or (some n) d = n

unfoldable pub from_lookup : (Text → Option Text) → RetryConfig
unfolding parse_u64
from_lookup lookup = record {
  retries =
      unwrap_or
        (lookup (text "ALAC_MAX_RETRIES") >> parse_u64 >> at_most u32_max >> at_most max_retries)
        default_retries;
  base_delay_ms =
      unwrap_or (lookup (text "ALAC_RETRY_BASE_MS") >> parse_u64 >> at_most max_retry_base_ms)
        default_retry_base_ms;
}

unfoldable pub total_attempts : RetryConfig → ℕ
total_attempts config = min (config.retries + 1) u32_max

unfoldable pub policy : RetryConfig → RetryPolicy
unfolding total_attempts
policy config = record {
  total_attempts = total_attempts config;
  base_delay_ms = config.base_delay_ms;
}
