-- ===== src/Stream/Metrics.antt =====
-- crates/stream/src/metrics.rs. The counters are 64-bit atomics: `fetch_add` wraps around. A
-- duration is its number of microseconds, which `duration_micros` cuts at the largest 64-bit number.
pub mod Updates
pub mod Consistency
use peerless_server.Prelude.{
  ℕ, ◌+◌, ◌/◌, ◌%◌, ◌^◌, Bool, true, false, Option, none, some, ltb, if◌then◌else◌, min, max,
}

pub data RetryReason : Type 0 where
  network timeout flood_wait connection_not_inited dc_migration primary_fallback : RetryReason

pub record StreamMetrics : Type 0 where
  pub streams_started : ℕ
  pub streams_with_first_chunk : ℕ
  pub first_chunk_latency_micros_total : ℕ
  pub first_chunk_latency_micros_max : ℕ
  pub chunk_fetches : ℕ
  pub chunk_fetch_failures : ℕ
  pub chunk_fetch_latency_micros_total : ℕ
  pub chunk_fetch_latency_micros_max : ℕ
  pub rpc_attempts : ℕ
  pub retries : ℕ
  pub network_retries : ℕ
  pub timeout_retries : ℕ
  pub flood_wait_retries : ℕ
  pub connection_not_inited_retries : ℕ
  pub dc_migration_retries : ℕ
  pub primary_fallback_retries : ℕ
  pub telegram_bytes_received : ℕ
  pub bytes_enqueued : ℕ
  pub file_reference_refreshes : ℕ
  pub worker_lock_waits : ℕ
  pub worker_lock_wait_micros_total : ℕ
  pub worker_lock_wait_micros_max : ℕ
  pub rpc_slot_waits : ℕ
  pub rpc_slot_wait_micros_total : ℕ
  pub rpc_slot_wait_micros_max : ℕ

-- `StreamMetrics::default()`.
abbrev pub default : StreamMetrics
default = record {
  streams_started = 0;
  streams_with_first_chunk = 0;
  first_chunk_latency_micros_total = 0;
  first_chunk_latency_micros_max = 0;
  chunk_fetches = 0;
  chunk_fetch_failures = 0;
  chunk_fetch_latency_micros_total = 0;
  chunk_fetch_latency_micros_max = 0;
  rpc_attempts = 0;
  retries = 0;
  network_retries = 0;
  timeout_retries = 0;
  flood_wait_retries = 0;
  connection_not_inited_retries = 0;
  dc_migration_retries = 0;
  primary_fallback_retries = 0;
  telegram_bytes_received = 0;
  bytes_enqueued = 0;
  file_reference_refreshes = 0;
  worker_lock_waits = 0;
  worker_lock_wait_micros_total = 0;
  worker_lock_wait_micros_max = 0;
  rpc_slot_waits = 0;
  rpc_slot_wait_micros_total = 0;
  rpc_slot_wait_micros_max = 0;
}

unfoldable pub fetch_add : ℕ → ℕ → ℕ
fetch_add counter n = (counter + n) % 2 ^ 64

abbrev pub fetch_max : ℕ → ℕ → ℕ
fetch_max counter n = max counter n

unfoldable pub duration_micros : ℕ → ℕ
duration_micros duration = min duration 0xffff_ffff_ffff_ffff

unfoldable pub record_stream_started : StreamMetrics → StreamMetrics
record_stream_started m = record m { streams_started = fetch_add m.streams_started 1 }

unfoldable pub record_first_chunk : StreamMetrics → ℕ → StreamMetrics
record_first_chunk m elapsed =
    let micros = duration_micros elapsed in
    record m {
      streams_with_first_chunk = fetch_add m.streams_with_first_chunk 1;
      first_chunk_latency_micros_total = fetch_add m.first_chunk_latency_micros_total micros;
      first_chunk_latency_micros_max = fetch_max m.first_chunk_latency_micros_max micros;
    }

unfoldable pub record_chunk_fetch : StreamMetrics → ℕ → Bool → StreamMetrics
record_chunk_fetch m elapsed succeeded =
    let micros = duration_micros elapsed in
    record m {
      chunk_fetches = fetch_add m.chunk_fetches 1;
      chunk_fetch_failures =
          if succeeded then m.chunk_fetch_failures else fetch_add m.chunk_fetch_failures 1;
      chunk_fetch_latency_micros_total = fetch_add m.chunk_fetch_latency_micros_total micros;
      chunk_fetch_latency_micros_max = fetch_max m.chunk_fetch_latency_micros_max micros;
    }

unfoldable pub record_rpc_attempt : StreamMetrics → StreamMetrics
record_rpc_attempt m = record m { rpc_attempts = fetch_add m.rpc_attempts 1 }

-- The counter of one reason, as the `match` of `record_retry` picks it.
unfoldable pub count_reason : RetryReason → StreamMetrics → StreamMetrics
count_reason network m = record m { network_retries = fetch_add m.network_retries 1 }
count_reason timeout m = record m { timeout_retries = fetch_add m.timeout_retries 1 }
count_reason flood_wait m = record m { flood_wait_retries = fetch_add m.flood_wait_retries 1 }
count_reason connection_not_inited m = record m {
  connection_not_inited_retries = fetch_add m.connection_not_inited_retries 1;
}
count_reason dc_migration m = record m { dc_migration_retries = fetch_add m.dc_migration_retries 1 }
count_reason primary_fallback m = record m {
  primary_fallback_retries = fetch_add m.primary_fallback_retries 1;
}

unfoldable pub record_retry : StreamMetrics → RetryReason → StreamMetrics
unfolding count_reason
record_retry m reason = count_reason reason (record m { retries = fetch_add m.retries 1 })

unfoldable pub record_telegram_bytes : StreamMetrics → ℕ → StreamMetrics
record_telegram_bytes m bytes = record m {
  telegram_bytes_received = fetch_add m.telegram_bytes_received bytes;
}

unfoldable pub record_bytes_enqueued : StreamMetrics → ℕ → StreamMetrics
record_bytes_enqueued m bytes = record m { bytes_enqueued = fetch_add m.bytes_enqueued bytes }

unfoldable pub record_file_reference_refresh : StreamMetrics → StreamMetrics
record_file_reference_refresh m = record m {
  file_reference_refreshes = fetch_add m.file_reference_refreshes 1;
}

unfoldable pub record_worker_lock_wait : StreamMetrics → ℕ → StreamMetrics
record_worker_lock_wait m elapsed =
    let micros = duration_micros elapsed in
    record m {
      worker_lock_waits = fetch_add m.worker_lock_waits 1;
      worker_lock_wait_micros_total = fetch_add m.worker_lock_wait_micros_total micros;
      worker_lock_wait_micros_max = fetch_max m.worker_lock_wait_micros_max micros;
    }

unfoldable pub record_rpc_slot_wait : StreamMetrics → ℕ → StreamMetrics
record_rpc_slot_wait m elapsed =
    let micros = duration_micros elapsed in
    record m {
      rpc_slot_waits = fetch_add m.rpc_slot_waits 1;
      rpc_slot_wait_micros_total = fetch_add m.rpc_slot_wait_micros_total micros;
      rpc_slot_wait_micros_max = fetch_max m.rpc_slot_wait_micros_max micros;
    }

unfoldable pub average_millis : ℕ → ℕ → Option ℕ
average_millis total_micros count = if ltb 0 count then some (total_micros / count / 1000) else none

unfoldable pub nonzero_millis : ℕ → ℕ → Option ℕ
nonzero_millis micros count = if ltb 0 count then some (micros / 1000) else none

pub record StreamMetricsSnapshot : Type 0 where
  pub streams_started : ℕ
  pub streams_with_first_chunk : ℕ
  pub first_chunk_latency_avg_ms : Option ℕ
  pub first_chunk_latency_max_ms : Option ℕ
  pub chunk_fetches : ℕ
  pub chunk_fetch_failures : ℕ
  pub chunk_fetch_latency_avg_ms : Option ℕ
  pub chunk_fetch_latency_max_ms : Option ℕ
  pub rpc_attempts : ℕ
  pub retries : ℕ
  pub network_retries : ℕ
  pub timeout_retries : ℕ
  pub flood_wait_retries : ℕ
  pub connection_not_inited_retries : ℕ
  pub dc_migration_retries : ℕ
  pub primary_fallback_retries : ℕ
  pub telegram_bytes_received : ℕ
  pub bytes_enqueued : ℕ
  pub file_reference_refreshes : ℕ
  pub worker_lock_waits : ℕ
  pub worker_lock_wait_avg_ms : Option ℕ
  pub worker_lock_wait_max_ms : Option ℕ
  pub rpc_slot_waits : ℕ
  pub rpc_slot_wait_avg_ms : Option ℕ
  pub rpc_slot_wait_max_ms : Option ℕ

unfoldable pub snapshot : StreamMetrics → StreamMetricsSnapshot
snapshot m = record {
  streams_started = m.streams_started;
  streams_with_first_chunk = m.streams_with_first_chunk;
  first_chunk_latency_avg_ms =
      average_millis m.first_chunk_latency_micros_total m.streams_with_first_chunk;
  first_chunk_latency_max_ms =
      nonzero_millis m.first_chunk_latency_micros_max m.streams_with_first_chunk;
  chunk_fetches = m.chunk_fetches;
  chunk_fetch_failures = m.chunk_fetch_failures;
  chunk_fetch_latency_avg_ms = average_millis m.chunk_fetch_latency_micros_total m.chunk_fetches;
  chunk_fetch_latency_max_ms = nonzero_millis m.chunk_fetch_latency_micros_max m.chunk_fetches;
  rpc_attempts = m.rpc_attempts;
  retries = m.retries;
  network_retries = m.network_retries;
  timeout_retries = m.timeout_retries;
  flood_wait_retries = m.flood_wait_retries;
  connection_not_inited_retries = m.connection_not_inited_retries;
  dc_migration_retries = m.dc_migration_retries;
  primary_fallback_retries = m.primary_fallback_retries;
  telegram_bytes_received = m.telegram_bytes_received;
  bytes_enqueued = m.bytes_enqueued;
  file_reference_refreshes = m.file_reference_refreshes;
  worker_lock_waits = m.worker_lock_waits;
  worker_lock_wait_avg_ms = average_millis m.worker_lock_wait_micros_total m.worker_lock_waits;
  worker_lock_wait_max_ms = nonzero_millis m.worker_lock_wait_micros_max m.worker_lock_waits;
  rpc_slot_waits = m.rpc_slot_waits;
  rpc_slot_wait_avg_ms = average_millis m.rpc_slot_wait_micros_total m.rpc_slot_waits;
  rpc_slot_wait_max_ms = nonzero_millis m.rpc_slot_wait_micros_max m.rpc_slot_waits;
}
