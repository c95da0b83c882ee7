-- ===== src/Stream/Fetch/Loop.antt =====
-- The loop of `fetch_chunk_with_budget` of crates/stream/src/worker_pool.rs, the last call of the
-- primary client behind it, and the callers that give the deadline and count the fetch. A loop runs
-- on the list of its rounds: `continues` at the end means that the list was too short.
use peerless_server.Prelude.{
  ℕ, ◌-◌, Bool, true, false, not, ◌&&◌, List, [], ◌∷◌, false, Option, none, some, ltb,
  if◌then◌else◌, Result, ok, err, length, Text, text,
}
use peerless_server.Stream.Metrics.{primary_fallback, record_chunk_fetch, record_telegram_bytes}
use peerless_server.Stream.Pipe.{Bytes, is_empty}
use peerless_server.Stream.Pool.{WorkerInstance, StreamWorkerPool}
use peerless_server.Stream.Fetch.{
  ErrorKind, stale_file_reference, file_reference_expired, network_error, transfer, unhandled,
  flood, rpc, migration, Client, StreamError, all_workers_unavailable, unsupported_cdn_redirect,
  flood_wait_error, chunk_fetch_failed, telegram, Reply, file, cdn_redirect, failed, Slot, permit,
  closed, slot_timeout, Round, Job, FetchState, Exit, continues, breaks, returns, panics,
  retry_summary, max_fetch_attempts, in_time, acquire, answer,
}
use peerless_server.Stream.Fetch.Step.{
  fetch_round, with_metrics, count_retry, waited_for_slot, waited_for_lock, in_flight_guard,
  entered, left, called, request_of, noted, slot_end,
}

abbrev pub is_some {ℓ} : {A : Type ℓ} → Option A → Bool
is_some none = false
is_some (some a) = true

unfoldable pub worker_attempt_limit : {Location : Type 0} → Job Location → FetchState → ℕ
worker_attempt_limit job s =
    if is_some job.pinned_worker_id
    then max_fetch_attempts
    else if is_some s.pool.primary_fallback && not (is_empty s.pool.workers)
    then max_fetch_attempts - 1
    else max_fetch_attempts

-- The variables of the function as it starts.
unfoldable pub initial : ℕ → ℕ → StreamWorkerPool → FetchState
initial dc_id now pool = record {
  attempts = 0;
  target_dc = dc_id;
  dc_id = dc_id;
  primary_attempted = false;
  last_error = none;
  last_flood_wait = none;
  now = now;
  pool = pool;
}

abbrev pub count_fallback : FetchState → FetchState
count_fallback s = if ltb 0 s.attempts then count_retry primary_fallback s else s

module _ {E : Type 0} where
  -- What follows a round: the rest of the loop, if the round went on to it.
  abbrev pub resume : (FetchState → Exit E) → Exit E → Exit E
  resume rest (continues s) = rest s
  resume rest (breaks s) = breaks s
  resume rest (returns s result) = returns s result
  resume rest panics = panics

  -- The error behind the loop: a flood wait that no later error has cleared, or the summary.
  abbrev pub give_up : FetchState → Option ℕ → Exit E
  give_up s (some secs) = returns s (err (flood_wait_error secs))
  give_up s none = returns s (err (chunk_fetch_failed (retry_summary s.attempts s.last_error)))

  abbrev pub failed_with : Text → FetchState → Exit E
  failed_with error s = returns s (err (chunk_fetch_failed (retry_summary s.attempts (some error))))

  unfoldable pub on_primary_error : FetchState → E → Text → ErrorKind → Exit E
  on_primary_error s e error stale_file_reference = returns s (err file_reference_expired)
  on_primary_error s e error network_error = give_up (noted error s) none
  on_primary_error s e error transfer = returns s (err (telegram e))
  on_primary_error s e error unhandled = returns s (err (telegram e))
  on_primary_error s e error (flood secs) = returns s (err (flood_wait_error secs))
  on_primary_error s e error (rpc name) = returns s (err (telegram e))
  on_primary_error s e error (migration new_dc) = returns s (err (telegram e))

  unfoldable pub on_primary_reply : Client E → FetchState → Option (Reply E) → Exit E
  unfolding on_primary_error
  on_primary_reply client s none = failed_with (text "primary upload.getFile request timed out") s
  on_primary_reply client s (some (file bytes)) =
      returns (with_metrics (λ m. record_telegram_bytes m (length bytes)) s) (ok bytes)
  on_primary_reply client s (some cdn_redirect) = returns s (err unsupported_cdn_redirect)
  on_primary_reply client s (some (failed e)) =
      on_primary_error s e (client.to_string e) (client.kind e)

  abbrev pub is_ok : Result Bytes (StreamError E) → Bool
  is_ok (ok bytes) = true
  is_ok (err error) = false

  abbrev pub counted : ℕ → Exit E → Exit E
  counted started (returns s result) =
      returns (with_metrics (λ m. record_chunk_fetch m (s.now - started) (is_ok result)) s) result
  counted started (continues s) = continues s
  counted started (breaks s) = breaks s
  counted started panics = panics

module _ {Location E : Type 0} where
  unfoldable pub fetch_loop :
      Client E → Job Location → ℕ → List (Round Location E) → FetchState → Exit E
  unfolding fetch_round
  fetch_loop client job limit [] s =
      if ltb s.attempts limit && ltb s.now job.deadline then continues s else breaks s
  fetch_loop client job limit (round ∷ rounds) s =
      let rest =
        resume (λ s'. fetch_loop client job limit rounds s')
          (fetch_round client job limit s round) in
      if ltb s.attempts limit && ltb s.now job.deadline then rest else breaks s

  unfoldable pub primary_attempt :
      Client E → Job Location → Round Location E → FetchState → WorkerInstance → Slot → Exit E
  unfolding in_flight_guard on_primary_reply
  primary_attempt client job round s primary closed =
      returns (record s { now = slot_end job round s }) (err all_workers_unavailable)
  primary_attempt client job round s primary slot_timeout =
      failed_with (text "timed out waiting for an RPC slot") (waited_for_slot job round s)
  primary_attempt client job round s primary permit =
      let held =
        waited_for_lock job round
          (in_flight_guard entered primary true (waited_for_slot job round s)) in
      if not (in_time job.deadline (waited_for_slot job round s).now round.lock_wait)
      then failed_with (text "timed out waiting for the primary worker lock")
          (in_flight_guard left primary true held)
      else on_primary_reply client
          (in_flight_guard left primary true (called job round (count_fallback held)))
          (answer job round held.now (request_of job primary s))

  unfoldable pub after_loop :
      Client E → Job Location → Round Location E → FetchState → Option WorkerInstance → Exit E
  unfolding primary_attempt
  after_loop client job round s none = give_up s s.last_flood_wait
  after_loop client job round s (some primary) =
      if not (is_some job.pinned_worker_id)
        && not s.primary_attempted
        && ltb s.attempts max_fetch_attempts
        && ltb s.now job.deadline
      then primary_attempt client job round s primary (acquire job round s.now)
      else give_up s s.last_flood_wait

  unfoldable pub finish : Client E → Job Location → Round Location E → Exit E → Exit E
  unfolding after_loop
  finish client job last (continues s) = continues s
  finish client job last (breaks s) = after_loop client job last s s.pool.primary_fallback
  finish client job last (returns s result) = returns s result
  finish client job last panics = panics

  -- `last` is the round of the call behind the loop.
  unfoldable pub fetch_chunk_with_budget :
      Client E → Job Location → List (Round Location E) → Round Location E → FetchState → Exit E
  unfolding worker_attempt_limit fetch_loop finish
  fetch_chunk_with_budget client job rounds last s =
      finish client job last (fetch_loop client job (worker_attempt_limit job s) rounds s)

  -- `fetch_chunk_until` with no worker pinned, and `fetch_chunk_until_on_worker` with one.
  unfoldable pub fetch_chunk_until :
      Client E
      → Job Location
      → List (Round Location E)
      → Round Location E
      → ℕ
      → ℕ
      → StreamWorkerPool
      → Exit E
  unfolding fetch_chunk_with_budget initial
  fetch_chunk_until client job rounds last dc_id now pool =
      counted now (fetch_chunk_with_budget client job rounds last (initial dc_id now pool))
