-- ===== src/Stream/Fetch/Step.antt =====
-- One round of the loop of `fetch_chunk_with_budget` of crates/stream/src/worker_pool.rs. Ids of workers
-- are distinct, so that the counter of a worker is found by its id.
use peerless_server.Prelude.{
  ℕ, ◌+◌, ◌-◌, ◌*◌, ◌%◌, ◌^◌, Bool, true, false, not, ◌||◌, map, Option, none, some, leb, ◌==◌,
  if◌then◌else◌, ok, err, length, Text, text, eq_text,
}
use peerless_server.Stream.Breaker.{quarantine, record_success, available_count}
use peerless_server.Stream.Metrics.{
  RetryReason, network, timeout, flood_wait, connection_not_inited, dc_migration, StreamMetrics,
  record_rpc_slot_wait, record_worker_lock_wait, record_rpc_attempt, record_retry,
  record_telegram_bytes,
}
use peerless_server.Stream.Pool.{WorkerInstance, StreamWorkerPool}
use peerless_server.Stream.Fetch.{
  ErrorKind, stale_file_reference, file_reference_expired, network_error, transfer, unhandled,
  flood, rpc, migration, Client, all_workers_unavailable, unsupported_cdn_redirect, telegram, Reply,
  file, cdn_redirect, failed, Request, Slot, permit, closed, slot_timeout, Round, Job, FetchState,
  Exit, continues, breaks, returns, panics, Choice, chosen, wait, unavailable, out_of_bounds,
  choose, retry_backoff, sleep_before_retry, second, in_time, ended_at, acquire, answer,
  request_deadline,
}

abbrev pub with_metrics : (StreamMetrics → StreamMetrics) → FetchState → FetchState
with_metrics f s = record s { pool = record s.pool { metrics = f s.pool.metrics } }

abbrev pub count_retry : RetryReason → FetchState → FetchState
count_retry reason s = with_metrics (λ m. record_retry m reason) s

abbrev pub success_of : Bool → ℕ → StreamWorkerPool → StreamWorkerPool
success_of is_primary worker_id pool =
    if is_primary
    then pool
    else record pool { circuit_breaker = record_success pool.circuit_breaker worker_id }

abbrev pub quarantine_of : Bool → ℕ → ℕ → ℕ → StreamWorkerPool → StreamWorkerPool
quarantine_of is_primary worker_id now secs pool = if is_primary then pool else record pool {
  circuit_breaker = quarantine pool.circuit_breaker now worker_id ((secs + 1) * second);
}

-- Saturating at 64 bits.
abbrev pub saturating_next : ℕ → ℕ
saturating_next secs = if leb 0xffff_ffff_ffff_ffff secs then secs else secs + 1

abbrev pub noted : Text → FetchState → FetchState
noted error s = record s { last_error = some error; last_flood_wait = none }

-- The counters that `InFlightGuard` moves, of the worker or of the primary.
abbrev pub count_flight : (ℕ → ℕ) → WorkerInstance → WorkerInstance
count_flight f worker = record worker { in_flight = f worker.in_flight }

abbrev pub count_flight_of : (ℕ → ℕ) → ℕ → WorkerInstance → WorkerInstance
count_flight_of f worker_id worker =
    if worker.id == worker_id then count_flight f worker else worker

abbrev pub map_primary :
    (WorkerInstance → WorkerInstance) → Option WorkerInstance → Option WorkerInstance
map_primary f none = none
map_primary f (some primary) = some (f primary)

unfoldable pub in_flight_guard : (ℕ → ℕ) → WorkerInstance → Bool → FetchState → FetchState
in_flight_guard f worker true s = record s {
  pool = record s.pool { primary_fallback = map_primary (count_flight f) s.pool.primary_fallback };
}
in_flight_guard f worker false s = record s {
  pool = record s.pool { workers = map (count_flight_of f worker.id) s.pool.workers };
}

abbrev pub entered : ℕ → ℕ
entered n = (n + 1) % 2 ^ 64

abbrev pub left : ℕ → ℕ
left n = (n + (2 ^ 64 - 1)) % 2 ^ 64

unfoldable pub on_migration : {E : Type 0} → ℕ → ℕ → Text → FetchState → Exit E
on_migration limit new_dc error s =
    let s' = record s {
      last_error = some error;
      last_flood_wait = none;
      target_dc = new_dc;
      dc_id = new_dc;
    } in
    if leb limit s.attempts then breaks s' else continues (count_retry dc_migration s')

abbrev pub request_of :
    {Location : Type 0} → Job Location → WorkerInstance → FetchState → Request Location
request_of job worker s = record {
  worker_id = worker.id;
  dc = s.target_dc;
  location = job.location;
  offset = job.offset;
  limit = job.limit;
}

module _ {Location E : Type 0} where
  abbrev pub after_sleep : Round Location E → ℕ → FetchState → FetchState
  after_sleep round delay s = record s { now = s.now + delay + round.oversleep }

  -- `sleep_before_retry`: where the code sleeps, it does at least for the delay, and goes on with
  -- `slept` of the later state; otherwise the loop ends.
  unfoldable pub sleep_then :
      Job Location → Round Location E → ℕ → FetchState → (FetchState → FetchState) → Exit E
  unfolding sleep_before_retry
  sleep_then job round delay s slept =
      if sleep_before_retry delay s.now job.deadline
      then continues (slept (after_sleep round delay s))
      else breaks s

  -- A retry after the backoff, of a timeout or a failure of the connection.
  unfoldable pub back_off : Job Location → Round Location E → ℕ → RetryReason → FetchState → Exit E
  unfolding sleep_then retry_backoff
  back_off job round limit reason s =
      if leb limit s.attempts
      then breaks s
      else sleep_then job round (retry_backoff s.attempts round.random * 1000) s
          (count_retry reason)

  unfoldable pub on_flood_wait :
      Job Location → Round Location E → ℕ → WorkerInstance → Bool → ℕ → Text → FetchState → Exit E
  unfolding sleep_then
  on_flood_wait job round limit worker is_primary secs error s =
      let s' = record s {
        last_error = some error;
        last_flood_wait = some secs;
        pool = quarantine_of is_primary worker.id s.now secs s.pool;
      } in
      if leb limit s.attempts
      then breaks s'
      else if available_count s'.pool.circuit_breaker s'.now == 0
      then sleep_then job round (saturating_next secs * second) s' (λ slept.
        count_retry flood_wait (record slept { pool = success_of is_primary worker.id slept.pool }))
      else continues (count_retry flood_wait s')

  unfoldable pub on_error :
      Job Location
      → Round Location E
      → ℕ
      → WorkerInstance
      → Bool
      → FetchState
      → E
      → Text
      → ErrorKind
      → Exit E
  unfolding back_off on_flood_wait on_migration
  on_error job round limit worker is_primary s e error stale_file_reference =
      returns s (err file_reference_expired)
  on_error job round limit worker is_primary s e error network_error =
      back_off job round limit network (noted error s)
  on_error job round limit worker is_primary s e error transfer = returns s (err (telegram e))
  on_error job round limit worker is_primary s e error unhandled = returns s (err (telegram e))
  on_error job round limit worker is_primary s e error (flood secs) =
      on_flood_wait job round limit worker is_primary secs error s
  on_error job round limit worker is_primary s e error (rpc name) =
      if eq_text name (text "CONNECTION_NOT_INITED")
      then back_off job round limit connection_not_inited (noted error s)
      else returns s (err (telegram e))
  on_error job round limit worker is_primary s e error (migration new_dc) =
      on_migration limit new_dc error s

  unfoldable pub on_reply :
      Client E
      → Job Location
      → Round Location E
      → ℕ
      → WorkerInstance
      → Bool
      → FetchState
      → Option (Reply E)
      → Exit E
  unfolding back_off on_error
  on_reply client job round limit worker is_primary s none =
      back_off job round limit timeout (noted (text "upload.getFile request timed out") s)
  on_reply client job round limit worker is_primary s (some (file bytes)) =
      let counted = with_metrics (λ m. record_telegram_bytes m (length bytes)) s in
      returns (record counted { pool = success_of is_primary worker.id counted.pool }) (ok bytes)
  on_reply client job round limit worker is_primary s (some cdn_redirect) =
      returns s (err unsupported_cdn_redirect)
  on_reply client job round limit worker is_primary s (some (failed e)) =
      on_error job round limit worker is_primary s e (client.to_string e) (client.kind e)

  -- `timeout_at` of the lock, with its time in the metrics.
  abbrev pub waited_for_lock : Job Location → Round Location E → FetchState → FetchState
  waited_for_lock job round s =
      let end = ended_at job.deadline s.now round.lock_wait round.lateness in
      with_metrics (λ m. record_worker_lock_wait m (end - s.now)) (record s { now = end })

  abbrev pub called : Job Location → Round Location E → FetchState → FetchState
  called job round s = with_metrics record_rpc_attempt (record s {
    attempts = s.attempts + 1;
    now = ended_at (request_deadline job s.now) s.now round.reply_time round.lateness;
  })

  -- A call of the chosen worker, from the guard that counts it to the reply.
  unfoldable pub attempt :
      Client E → Job Location → Round Location E → ℕ → WorkerInstance → Bool → FetchState → Exit E
  unfolding in_flight_guard on_reply
  attempt client job round limit worker is_primary s =
      let s' = record s { primary_attempted = is_primary || s.primary_attempted } in
      let held = waited_for_lock job round (in_flight_guard entered worker is_primary s') in
      if not (in_time job.deadline s.now round.lock_wait)
      then breaks (
          in_flight_guard left worker is_primary
            (record held { last_error = some (text "timed out waiting for the worker lock") }))
      else on_reply client job round limit worker is_primary
          (in_flight_guard left worker is_primary (called job round held))
          (answer job round held.now (request_of job worker s))

  unfoldable pub on_choice :
      Client E → Job Location → Round Location E → ℕ → FetchState → Choice → Exit E
  unfolding attempt sleep_then
  on_choice client job round limit s (chosen worker is_primary) =
      attempt client job round limit worker is_primary s
  on_choice client job round limit s (wait delay) = sleep_then job round delay s (λ slept. slept)
  on_choice client job round limit s unavailable = returns s (err all_workers_unavailable)
  on_choice client job round limit s out_of_bounds = panics

  abbrev pub slot_end : Job Location → Round Location E → FetchState → ℕ
  slot_end job round s = ended_at job.deadline s.now round.slot_wait round.lateness

  abbrev pub waited_for_slot : Job Location → Round Location E → FetchState → FetchState
  waited_for_slot job round s =
      with_metrics (λ m. record_rpc_slot_wait m (slot_end job round s - s.now))
        (record s { now = slot_end job round s; pool = round.others s.pool })

  unfoldable pub on_slot :
      Client E → Job Location → Round Location E → ℕ → FetchState → Slot → Exit E
  unfolding choose on_choice
  on_slot client job round limit s permit =
      let s' = waited_for_slot job round s in
      let choice = choose job.pinned_worker_id s'.now s'.primary_attempted s'.pool in
      on_choice client job round limit (record s' { pool = choice.0 }) choice.1
  on_slot client job round limit s closed =
      returns (record s { now = slot_end job round s }) (err all_workers_unavailable)
  on_slot client job round limit s slot_timeout = breaks (record (waited_for_slot job round s) {
    last_error = some (text "timed out waiting for an RPC slot");
  })

  unfoldable pub fetch_round : Client E → Job Location → ℕ → FetchState → Round Location E → Exit E
  unfolding on_slot
  fetch_round client job limit s round = on_slot client job round limit s (acquire job round s.now)
