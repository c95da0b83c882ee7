-- ===== src/Stream/Metrics/Updates.antt =====
-- The calls of `StreamMetrics`, as values, and what any sequence of them leaves.
use peerless_server.Prelude.{ℕ, Bool, List, [], ◌∷◌}
use peerless_server.Stream.Metrics.{
  RetryReason, StreamMetrics, record_stream_started, record_first_chunk, record_chunk_fetch,
  record_rpc_attempt, record_retry, record_telegram_bytes, record_bytes_enqueued,
  record_file_reference_refresh, record_worker_lock_wait, record_rpc_slot_wait,
}

pub data Update : Type 0 where
  stream_started rpc_attempt file_reference_refresh : Update
  first_chunk worker_lock_wait rpc_slot_wait : (elapsed : ℕ) → Update
  chunk_fetch : (elapsed : ℕ) (succeeded : Bool) → Update
  retry : RetryReason → Update
  telegram_bytes bytes_enqueues : (bytes : ℕ) → Update

unfoldable pub apply : Update → StreamMetrics → StreamMetrics
apply stream_started m = record_stream_started m
apply rpc_attempt m = record_rpc_attempt m
apply file_reference_refresh m = record_file_reference_refresh m
apply (first_chunk elapsed) m = record_first_chunk m elapsed
apply (worker_lock_wait elapsed) m = record_worker_lock_wait m elapsed
apply (rpc_slot_wait elapsed) m = record_rpc_slot_wait m elapsed
apply (chunk_fetch elapsed succeeded) m = record_chunk_fetch m elapsed succeeded
apply (retry reason) m = record_retry m reason
apply (telegram_bytes bytes) m = record_telegram_bytes m bytes
apply (bytes_enqueues bytes) m = record_bytes_enqueued m bytes

abbrev pub apply_all : StreamMetrics → List Update → StreamMetrics
apply_all m [] = m
apply_all m (u ∷ us) = apply_all (apply u m) us
