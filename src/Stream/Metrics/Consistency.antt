-- ===== src/Stream/Metrics/Consistency.antt =====
-- An average of the snapshot never passes the maximum beside it, while nothing overflows.
use peerless_server.Prelude.{
  ℕ, suc, ◌+◌, ◌*◌, ◌/◌, ◌%◌, ◌^◌, ◌≤◌, ◌<◌, ◌≡◌, List, [], ◌∷◌, Option, some, none, inl, inr,
  length, ltb, min, max, Bool-cases, arith,
}
use peerless_server.Stream.Metrics.{
  network, StreamMetrics, default, record_stream_started, record_first_chunk, record_chunk_fetch,
  record_rpc_attempt, record_retry, record_telegram_bytes, record_bytes_enqueued,
  record_file_reference_refresh, record_worker_lock_wait, record_rpc_slot_wait, fetch_add,
  fetch_max, duration_micros, average_millis, nonzero_millis, snapshot,
}
use peerless_server.Stream.Metrics.Updates.{
  Update, first_chunk, worker_lock_wait, rpc_slot_wait, chunk_fetch, retry, apply, apply_all,
}

-- A count, a total and a maximum, after `n` updates that spent `spent` microseconds.
abbrev Timed : ℕ → ℕ → ℕ → ℕ → ℕ → Type 0
Timed n spent count total peak = (total ≤ count * peak) × (count ≤ n) × (total ≤ spent)

Timed-later :
    (n spent elapsed count total peak : ℕ)
    → Timed n spent count total peak
    → Timed (suc n) (spent + elapsed) count total peak
Timed-later n s e c t p h = (h.0, omega arith, omega arith)

total_le : (c t p e q : ℕ) → t ≤ c * p → p ≤ q → e ≤ q → t + e ≤ (c + 1) * q
total_le c t p e q h hp he = grind arith

Timed-record :
    (n spent elapsed count total peak : ℕ)
    → suc n < 2 ^ 64
    → spent + elapsed < 2 ^ 64
    → Timed n spent count total peak
    → Timed
        (suc n)
        (spent + elapsed)
        (fetch_add count 1)
        (fetch_add total (duration_micros elapsed))
        (fetch_max peak (duration_micros elapsed))
unfolding fetch_add duration_micros
Timed-record n s e c t p hn hs h =
    let ec : (c + 1) % 2 ^ 64 ≡ c + 1 = omega arith in
    let ee : min e 0xffff_ffff_ffff_ffff ≡ e = omega arith in
    let et : (t + e) % 2 ^ 64 ≡ t + e = omega arith in
    rw (ee, ec, et)
      (total_le c t p e (max p e) h.0 (omega arith) (omega arith), omega arith, omega arith)

-- The four timers of the metrics: first chunks, fetches, lock waits and slot waits.
abbrev IsTimed : ℕ → ℕ → StreamMetrics → Type 0
IsTimed n spent m =
    Timed n spent m.streams_with_first_chunk m.first_chunk_latency_micros_total
      m.first_chunk_latency_micros_max
    × Timed n spent m.chunk_fetches m.chunk_fetch_latency_micros_total
        m.chunk_fetch_latency_micros_max
    × Timed n spent m.worker_lock_waits m.worker_lock_wait_micros_total
        m.worker_lock_wait_micros_max
    × Timed n spent m.rpc_slot_waits m.rpc_slot_wait_micros_total m.rpc_slot_wait_micros_max

-- The microseconds that one update reports.
abbrev pub micros : Update → ℕ
micros (first_chunk elapsed) = elapsed
micros (worker_lock_wait elapsed) = elapsed
micros (rpc_slot_wait elapsed) = elapsed
micros (chunk_fetch elapsed succeeded) = elapsed
micros _ = 0

abbrev pub micros_all : List Update → ℕ
micros_all [] = 0
micros_all (u ∷ us) = micros u + micros_all us

module _ (n spent : ℕ) (m : StreamMetrics) (hn : suc n < 2 ^ 64) (v : IsTimed n spent m) where
  later : (elapsed : ℕ) → IsTimed (suc n) (spent + elapsed) m
  later e = (
    Timed-later n spent e _ _ m.first_chunk_latency_micros_max v.0,
    Timed-later n spent e _ _ m.chunk_fetch_latency_micros_max v.1,
    Timed-later n spent e _ _ m.worker_lock_wait_micros_max v.2,
    Timed-later n spent e _ _ m.rpc_slot_wait_micros_max v.3,
  )

  apply-IsTimed :
      (u : Update) → spent + micros u < 2 ^ 64 → IsTimed (suc n) (spent + micros u) (apply u m)
  unfolding apply record_stream_started record_rpc_attempt record_file_reference_refresh
      record_first_chunk record_worker_lock_wait record_rpc_slot_wait record_chunk_fetch
      record_telegram_bytes record_bytes_enqueued record_retry
  apply-IsTimed (first_chunk e) h =
      let l = later e in (Timed-record n spent e _ _ _ hn h v.0, l.1, l.2, l.3)
  apply-IsTimed (chunk_fetch e succeeded) h =
      let l = later e in (l.0, Timed-record n spent e _ _ _ hn h v.1, l.2, l.3)
  apply-IsTimed (worker_lock_wait e) h =
      let l = later e in (l.0, l.1, Timed-record n spent e _ _ _ hn h v.2, l.3)
  apply-IsTimed (rpc_slot_wait e) h =
      let l = later e in (l.0, l.1, l.2, Timed-record n spent e _ _ _ hn h v.3)
  apply-IsTimed (retry network) h = later 0
  apply-IsTimed _ h = later 0

apply_all-IsTimed :
    (us : List Update) (n spent : ℕ) (m : StreamMetrics)
    → n + length us < 2 ^ 64
    → spent + micros_all us < 2 ^ 64
    → IsTimed n spent m
    → IsTimed (n + length us) (spent + micros_all us) (apply_all m us)
apply_all-IsTimed [] n spent m hn hs v = later'
  where
    later' : IsTimed (n + 0) (spent + 0) m
    later' =
        let a : n + 0 ≡ n = omega arith in let b : spent + 0 ≡ spent = omega arith in rw (a, b) v
apply_all-IsTimed (u ∷ us) n spent m hn hs v =
    let a : n + suc (length us) ≡ suc n + length us = omega arith in
    let b : spent + (micros u + micros_all us) ≡ (spent + micros u) + micros_all us = omega arith in
    rw (a, b)
      (apply_all-IsTimed us (suc n) (spent + micros u) (apply u m) (omega arith) (omega arith)
        (apply-IsTimed n spent m (omega arith) v u (omega arith)))

-- Both absent, or the first at most the second.
abbrev pub AtMost : Option ℕ → Option ℕ → Type 0
AtMost none none = Unit {0}
AtMost (some a) (some b) = a ≤ b
AtMost _ _ = ⊥

div-le_of_le_mul : (t c p : ℕ) → 0 < c → t ≤ c * p → t / c ≤ p
div-le_of_le_mul t c p h k = grind arith

average_millis-AtMost :
    (n spent count total peak : ℕ)
    → Timed n spent count total peak
    → AtMost (average_millis total count) (nonzero_millis peak count)
unfolding average_millis nonzero_millis
average_millis-AtMost n s c t p h = elim (Bool-cases (ltb 0 c)) [
  | inl e ↦ rw e (omega (arith, div-le_of_le_mul t c p (ground arith) h.0))
  | inr e ↦ rw e tt
]

-- From `StreamMetrics::default()` on, as long as the updates and the microseconds that they report
-- stay below 2^64, each average of the snapshot is present exactly where its maximum is, and is at
-- most that maximum.
snapshot_averages :
    (us : List Update)
    → length us < 2 ^ 64
    → micros_all us < 2 ^ 64
    → let s = snapshot (apply_all default us) in
      AtMost s.first_chunk_latency_avg_ms s.first_chunk_latency_max_ms
      × AtMost s.chunk_fetch_latency_avg_ms s.chunk_fetch_latency_max_ms
      × AtMost s.worker_lock_wait_avg_ms s.worker_lock_wait_max_ms
      × AtMost s.rpc_slot_wait_avg_ms s.rpc_slot_wait_max_ms
unfolding snapshot
snapshot_averages us hn hs =
    let v = apply_all-IsTimed us 0 0 default (omega arith) (omega arith) (omega arith) in
    (
      average_millis-AtMost _ _ _ _ _ v.0,
      average_millis-AtMost _ _ _ _ _ v.1,
      average_millis-AtMost _ _ _ _ _ v.2,
      average_millis-AtMost _ _ _ _ _ v.3,
    )
