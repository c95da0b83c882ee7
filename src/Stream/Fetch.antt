-- ===== src/Stream/Fetch.antt =====
-- `fetch_chunk_with_budget` of crates/stream/src/worker_pool.rs: the attempts to get one chunk from
-- Telegram. Instants and durations are numbers of microseconds.
--
-- What the function does not decide itself is given round by round: the pool as the other tasks leave
-- it, what the client answers, and how long the slot, the lock and the answer would take; the timeouts
-- decide whether they come. An error of the client is of a type `E`, of which the code reads `kind()` and
-- `to_string()`; these and the type of a file's location are parameters.
pub mod Step
pub mod Loop
pub mod Waiting
pub mod Progress
pub mod Punctual
pub mod Bounded
pub mod Deadline
pub mod Served
pub mod Origin
pub mod Flights
pub mod Balance
pub mod Refresh
mod Tests
use peerless_server.Prelude.{
  ℕ, zero, suc, ◌+◌, ◌-◌, ◌*◌, ◌/◌, ◌%◌, ◌^◌, Bool, true, false, not, ◌&&◌, ◌||◌, List, [], ◌∷◌,
  ◌++◌, map, Option, none, some, ltb, leb, ◌==◌, if◌then◌else◌, Result, ok, err, min, length,
  get_elem?, Text, text, eq_text, decimal,
}
use peerless_server.Core.Retry.{exponential_delay, unwrap_or}
use peerless_server.Stream.Breaker.{
  CircuitBreaker, is_available, quarantine, quarantine_remaining, record_success, available_count,
}
use peerless_server.Stream.Metrics.{
  StreamMetrics, RetryReason, network, timeout, flood_wait, connection_not_inited, dc_migration,
  record_rpc_slot_wait, record_worker_lock_wait, record_rpc_attempt, record_retry,
  record_telegram_bytes,
}
use peerless_server.Stream.Pipe.{Bytes, is_empty}
use peerless_server.Stream.Pool.{WorkerInstance, StreamWorkerPool, pick_least_loaded}

abbrev pub max_fetch_attempts : ℕ
max_fetch_attempts = 4

abbrev pub fetch_retry_base_ms : ℕ
fetch_retry_base_ms = 200

abbrev pub max_retry_backoff_ms : ℕ
max_retry_backoff_ms = 2000

-- The kinds of `ferogram::ErrorKind` that the code tells apart.
pub data ErrorKind : Type 0 where
  stale_file_reference network_error transfer unhandled : ErrorKind
  flood : (secs : ℕ) → ErrorKind
  rpc : (name : Text) → ErrorKind
  migration : (new_dc : ℕ) → ErrorKind

pub record Client (E : Type 0) : Type 0 where
  pub kind : E → ErrorKind
  pub to_string : E → Text

pub data StreamError (E : Type 0) : Type 0 where
  file_reference_expired all_workers_unavailable unsupported_cdn_redirect : StreamError E
  flood_wait_error : (secs : ℕ) → StreamError E
  chunk_fetch_failed : (summary : Text) → StreamError E
  telegram : (error : E) → StreamError E

pub data Reply (E : Type 0) : Type 0 where
  file : Bytes → Reply E
  cdn_redirect : Reply E
  failed : E → Reply E

-- One call of `upload.getFile`: the worker's client, the data centre, and the part of the file.
pub record Request (Location : Type 0) : Type 0 where
  pub worker_id : ℕ
  pub dc : ℕ
  pub location : Location
  pub offset : ℕ
  pub limit : ℕ

pub data Slot : Type 0 where
  permit closed slot_timeout : Slot

-- What one round of the loop finds: how long the slot, the lock and the reply would take, whether the
-- semaphore of the slots is closed, what the client replies, and how late a timer and a sleep end.
pub record Round (Location E : Type 0) : Type 0 where
  pub others : StreamWorkerPool → StreamWorkerPool
  pub rpc_slots_closed : Bool
  pub slot_wait : ℕ
  pub lock_wait : ℕ
  pub reply : Request Location → Reply E
  pub reply_time : ℕ
  pub lateness : ℕ
  pub random : ℕ
  pub oversleep : ℕ

-- `timeout_at`: a future is done in time if it is ready at once or by the deadline.
abbrev pub in_time : ℕ → ℕ → ℕ → Bool
in_time deadline now duration = duration == 0 || leb (now + duration) deadline

-- When `timeout_at` ends: with the future, or at the deadline.
unfoldable pub ended_at : ℕ → ℕ → ℕ → ℕ → ℕ
ended_at deadline now duration lateness =
    if in_time deadline now duration
    then now + duration
    else (if leb now deadline then deadline else now) + lateness

-- The arguments of one fetch.
pub record Job (Location : Type 0) : Type 0 where
  pub location : Location
  pub offset : ℕ
  pub limit : ℕ
  pub deadline : ℕ
  pub pinned_worker_id : Option ℕ

pub record FetchState : Type 0 where
  pub attempts : ℕ
  pub target_dc : ℕ
  pub dc_id : ℕ
  pub primary_attempted : Bool
  pub last_error : Option Text
  pub last_flood_wait : Option ℕ
  pub now : ℕ
  pub pool : StreamWorkerPool

-- How one round ends. `panics` is an index out of bounds.
pub data Exit (E : Type 0) : Type 0 where
  continues : FetchState → Exit E
  breaks : FetchState → Exit E
  returns : FetchState → Result Bytes (StreamError E) → Exit E
  panics : Exit E

-- Whether a slot comes by the deadline.
unfoldable pub acquire : {Location E : Type 0} → Job Location → Round Location E → ℕ → Slot
acquire job round now =
    if in_time job.deadline now round.slot_wait
    then (if round.rpc_slots_closed then closed else permit)
    else slot_timeout

abbrev pub rpc_timeout : ℕ
rpc_timeout = 12000000

-- The deadline of a call that is made now.
abbrev pub request_deadline : {Location : Type 0} → Job Location → ℕ → ℕ
request_deadline job now = min (now + rpc_timeout) job.deadline

-- The reply, if it comes in time.
unfoldable pub answer :
    {Location E : Type 0}
    → Job Location
    → Round Location E
    → ℕ
    → Request Location
    → Option (Reply E)
answer job round now request =
    if in_time (request_deadline job now) now round.reply_time
    then some (round.reply request)
    else none

-- The delay in milliseconds before the retry behind attempt `attempt`; `random` is the random number.
unfoldable pub retry_backoff : ℕ → ℕ → ℕ
retry_backoff attempt random =
    let capped_ms =
      min (exponential_delay fetch_retry_base_ms (attempt - 1)) max_retry_backoff_ms in
    capped_ms / 2 + random % (capped_ms / 2 + 1)

-- Whether the code sleeps: it does not where the delay would reach the deadline.
unfoldable pub sleep_before_retry : ℕ → ℕ → ℕ → Bool
sleep_before_retry delay now deadline =
    let remaining = deadline - now in not (leb remaining delay || remaining == 0)

unfoldable pub retry_summary : ℕ → Option Text → Text
retry_summary attempts none =
    decimal attempts ++ text " RPC attempts; deadline or attempt limit reached"
retry_summary attempts (some error) =
    decimal attempts ++ text " RPC attempts; last error: " ++ error

abbrev pub or_worker : Option WorkerInstance → Option WorkerInstance → Option WorkerInstance
or_worker none fallback = fallback
or_worker (some worker) fallback = some worker

abbrev pub with_id : ℕ → Option WorkerInstance → Option WorkerInstance
with_id worker_id none = none
with_id worker_id (some worker) = if worker.id == worker_id then some worker else none

abbrev pub find_worker : ℕ → List WorkerInstance → Option WorkerInstance
find_worker worker_id [] = none
find_worker worker_id (worker ∷ workers) =
    or_worker (with_id worker_id (some worker)) (find_worker worker_id workers)

unfoldable pub worker_by_id : StreamWorkerPool → ℕ → Option WorkerInstance
worker_by_id pool worker_id =
    or_worker (find_worker worker_id pool.workers) (with_id worker_id pool.primary_fallback)

abbrev pub is_primary_id : ℕ → Option WorkerInstance → Bool
is_primary_id worker_id none = false
is_primary_id worker_id (some primary) = primary.id == worker_id

-- `min` of the quarantines that are left, of the workers that have one.
abbrev pub lesser : Option ℕ → Option ℕ → Option ℕ
lesser none rest = rest
lesser (some wait) none = some wait
lesser (some wait) (some rest) = some (min wait rest)

unfoldable pub least_remaining : CircuitBreaker → ℕ → List WorkerInstance → Option ℕ
least_remaining breaker now [] = none
least_remaining breaker now (worker ∷ workers) =
    lesser (quarantine_remaining breaker now worker.id) (least_remaining breaker now workers)

abbrev pub half_second : ℕ
half_second = 500000

abbrev pub second : ℕ
second = 1000000

-- What a round does with the pool: call a worker, wait for one, or give up.
pub data Choice : Type 0 where
  chosen : (worker : WorkerInstance) (is_primary : Bool) → Choice
  wait : (delay : ℕ) → Choice
  unavailable out_of_bounds : Choice

abbrev pub choose_pinned : ℕ → StreamWorkerPool → ℕ → Option WorkerInstance → Choice
choose_pinned now pool worker_id none = unavailable
choose_pinned now pool worker_id (some worker) =
    let is_primary = is_primary_id worker_id pool.primary_fallback in
    if not is_primary && not (is_available pool.circuit_breaker now worker_id)
    then wait (unwrap_or (quarantine_remaining pool.circuit_breaker now worker_id) half_second)
    else chosen worker is_primary

abbrev pub choose_worker : Option WorkerInstance → Choice
choose_worker none = out_of_bounds
choose_worker (some worker) = chosen worker false

-- No worker is free, and the primary, if there is one, is not to be called.
abbrev pub choose_wait : ℕ → StreamWorkerPool → Choice
choose_wait now pool =
    if is_empty pool.workers
    then unavailable
    else wait (unwrap_or (least_remaining pool.circuit_breaker now pool.workers) half_second)

abbrev pub choose_primary : ℕ → StreamWorkerPool → Bool → Option WorkerInstance → Choice
choose_primary now pool primary_attempted none = choose_wait now pool
choose_primary now pool primary_attempted (some primary) =
    if not primary_attempted || is_empty pool.workers
    then chosen primary true
    else choose_wait now pool

abbrev pub choose_picked : ℕ → Bool → StreamWorkerPool × Option ℕ → StreamWorkerPool × Choice
choose_picked now primary_attempted (pool, some worker_id) =
    (pool, choose_worker (get_elem? pool.workers worker_id))
choose_picked now primary_attempted (pool, none) =
    (pool, choose_primary now pool primary_attempted pool.primary_fallback)

unfoldable pub choose : Option ℕ → ℕ → Bool → StreamWorkerPool → StreamWorkerPool × Choice
unfolding pick_least_loaded worker_by_id least_remaining
choose (some worker_id) now primary_attempted pool =
    (pool, choose_pinned now pool worker_id (worker_by_id pool worker_id))
choose none now primary_attempted pool =
    choose_picked now primary_attempted (pick_least_loaded now pool)
