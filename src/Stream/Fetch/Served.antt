-- ===== src/Stream/Fetch/Served.antt =====
-- What one call of crates/stream/src/worker_pool.rs returns is what the client answered to a request for
-- that part of the file.
use peerless_server.Prelude.{
  ℕ, ◌*◌, leb, ◌==◌, ◌||◌, true, false, if◌then◌else◌, ◌≡◌, refl, sym, ◌∙◌, ◌⊎◌, inl, inr, Bool,
  Option, none, some, Result, ok, err, Bool-cases, Text, text, eq_text,
}
use peerless_server.Stream.Breaker.{available_count}
use peerless_server.Stream.Metrics.{
  RetryReason, network, timeout, flood_wait, connection_not_inited,
}
use peerless_server.Stream.Pipe.{Bytes}
use peerless_server.Stream.Pool.{WorkerInstance}
use peerless_server.Stream.Fetch.{
  ErrorKind, stale_file_reference, file_reference_expired, network_error, transfer, unhandled,
  flood, rpc, migration, Client, StreamError, telegram, unsupported_cdn_redirect,
  all_workers_unavailable, flood_wait_error, chunk_fetch_failed, Reply, file, cdn_redirect, failed,
  Request, Round, Job, FetchState, Exit, continues, breaks, returns, panics, in_time, answer,
  request_deadline, sleep_before_retry, retry_backoff, second,
}
use peerless_server.Stream.Fetch.Step.{
  sleep_then, back_off, on_flood_wait, on_migration, on_error, on_reply, attempt, noted, request_of,
  in_flight_guard, entered, left, waited_for_lock, after_sleep, count_retry, quarantine_of,
  success_of, saturating_next,
}
use peerless_server.Stream.Fetch.Loop.{on_primary_error, on_primary_reply}

-- The worker that the caller asks for, if it asks for one.
abbrev pub Pinned : Option ℕ → ℕ → Type 0
Pinned none worker_id = Unit
Pinned (some pinned) worker_id = worker_id ≡ pinned

-- A request for the part of the file that the job is about, of the worker that it asks for.
abbrev pub Asks : {Location : Type 0} → Job Location → Request Location → Type 0
Asks job request =
    (request.location ≡ job.location)
    × (request.offset ≡ job.offset)
    × (request.limit ≡ job.limit)
    × Pinned job.pinned_worker_id request.worker_id

-- The reply that a result stands for. The lack of a worker and a failure at the limit of attempts or at
-- the deadline stand for none.
abbrev pub Stands :
    {Location E : Type 0}
    → Client E
    → Job Location
    → Round Location E
    → Result Bytes (StreamError E)
    → Type 0
Stands {Location} {E} client job round (ok bytes) =
    (request : Request Location) × Asks job request × (round.reply request ≡ file bytes)
Stands {Location} {E} client job round (err file_reference_expired) =
    (request : Request Location) × (e : E) × Asks job request
    × (round.reply request ≡ failed e)
    × (client.kind e ≡ stale_file_reference)
Stands {Location} {E} client job round (err (telegram e)) =
    (request : Request Location) × Asks job request × (round.reply request ≡ failed e)
Stands {Location} {E} client job round (err unsupported_cdn_redirect) =
    (request : Request Location) × Asks job request × (round.reply request ≡ cdn_redirect)
Stands client job round (err all_workers_unavailable) = Unit
Stands {Location} {E} client job round (err (flood_wait_error secs)) =
    (request : Request Location) × (e : E) × Asks job request
    × (round.reply request ≡ failed e)
    × (client.kind e ≡ flood secs)
Stands client job round (err (chunk_fetch_failed summary)) = Unit

-- An answer that comes in time is the client's reply.
pub answer-reply :
    {Location E : Type 0} (job : Job Location) (round : Round Location E) (now : ℕ)
    (request : Request Location) (r : Reply E)
    → answer job round now request ≡ some r
    → round.reply request ≡ r
unfolding answer
answer-reply job round now request r h =
    elim (Bool-cases (in_time (request_deadline job now) now round.reply_time)) [
      | inl e ↦ let k = rw e at h in cc
      | inr e ↦ let k = rw e at h in cc
    ]

in_flight_guard-last_flood_wait :
    (f : ℕ → ℕ) (worker : WorkerInstance) (is_primary : Bool) (s : FetchState)
    → (in_flight_guard f worker is_primary s).last_flood_wait ≡ s.last_flood_wait
unfolding in_flight_guard
in_flight_guard-last_flood_wait f worker true s = refl
in_flight_guard-last_flood_wait f worker false s = refl

-- A round starts with the flood wait `old`. What it leaves as the last flood wait is that one, or one of
-- its own reply.
module _ {Location E : Type 0} (client : Client E) (job : Job Location) (old : Option ℕ) where
  abbrev pub Recalls : Round Location E → Option ℕ → Type 0
  Recalls round last_wait =
      (secs : ℕ)
      → last_wait ≡ some secs
      → (old ≡ some secs) ⊎ Stands client job round (err (flood_wait_error secs))

  abbrev pub StandsIn : Round Location E → Exit E → Type 0
  StandsIn round (continues s) = Recalls round s.last_flood_wait
  StandsIn round (breaks s) = Recalls round s.last_flood_wait
  StandsIn round (returns s result) = Stands client job round result
  StandsIn round panics = Unit

  if-StandsIn :
      (round : Round Location E) (test : Bool) (a b : Exit E)
      → StandsIn round a
      → StandsIn round b
      → StandsIn round (if test then a else b)
  if-StandsIn round true a b h k = h
  if-StandsIn round false a b h k = k

  Recalls-none : (round : Round Location E) → Recalls round none
  Recalls-none round secs e = cc

  pub sleep_then-StandsIn :
      (round : Round Location E) (delay : ℕ) (s : FetchState) (slept : FetchState → FetchState)
      → ((t : FetchState) → (slept t).last_flood_wait ≡ t.last_flood_wait)
      → Recalls round s.last_flood_wait
      → StandsIn round (sleep_then job round delay s slept)
  unfolding sleep_then
  sleep_then-StandsIn round delay s slept same h =
      if-StandsIn round (sleep_before_retry delay s.now job.deadline) _ _
        (λ secs e. h secs (sym (same (after_sleep round delay s)) ∙ e)) h

  back_off-StandsIn :
      (round : Round Location E) (limit : ℕ) (reason : RetryReason) (s : FetchState)
      → Recalls round s.last_flood_wait
      → StandsIn round (back_off job round limit reason s)
  unfolding back_off
  back_off-StandsIn round limit reason s h =
      if-StandsIn round (leb limit s.attempts) (breaks s) _ h (
        sleep_then-StandsIn round (retry_backoff s.attempts round.random * 1000) s
          (count_retry reason) (λ t. refl) h)

  noted-StandsIn :
      (round : Round Location E) (limit : ℕ) (reason : RetryReason) (error : Text) (s : FetchState)
      → StandsIn round (back_off job round limit reason (noted error s))
  noted-StandsIn round limit reason error s =
      back_off-StandsIn round limit reason (noted error s) (Recalls-none round)

  on_flood_wait-StandsIn :
      (round : Round Location E) (limit : ℕ) (worker : WorkerInstance) (is_primary : Bool)
      (secs : ℕ) (error : Text) (s : FetchState)
      → Stands client job round (err (flood_wait_error secs))
      → StandsIn round (on_flood_wait job round limit worker is_primary secs error s)
  unfolding on_flood_wait
  on_flood_wait-StandsIn round limit worker is_primary secs error s stands =
      let s' : FetchState = record s {
        last_error = some error;
        last_flood_wait = some secs;
        pool = quarantine_of is_primary worker.id s.now secs s.pool;
      } in
      let own : Recalls round (some secs) =
        λ n e. let same : secs ≡ n = cc in rw (← same) (inr stands) in
      if-StandsIn round (leb limit s.attempts) (breaks s') _ own (
        if-StandsIn round (available_count s'.pool.circuit_breaker s'.now == 0) _ _
          (sleep_then-StandsIn round (saturating_next secs * second) s'
            (λ t.
              count_retry flood_wait (record t { pool = success_of is_primary worker.id t.pool }))
            (λ t. refl) own)
          own)

  module _ (round : Round Location E) (request : Request Location) (asks : Asks job request) where
    on_error-StandsIn :
        (limit : ℕ) (worker : WorkerInstance) (is_primary : Bool) (s : FetchState) (e : E)
        (error : Text) (kind : ErrorKind)
        → round.reply request ≡ failed e
        → client.kind e ≡ kind
        → StandsIn round (on_error job round limit worker is_primary s e error kind)
    unfolding on_error on_migration
    on_error-StandsIn limit worker is_primary s e error stale_file_reference h k =
        (request, e, asks, h, k)
    on_error-StandsIn limit worker is_primary s e error network_error h k =
        noted-StandsIn round limit network error s
    on_error-StandsIn limit worker is_primary s e error transfer h k = (request, asks, h)
    on_error-StandsIn limit worker is_primary s e error unhandled h k = (request, asks, h)
    on_error-StandsIn limit worker is_primary s e error (flood secs) h k =
        on_flood_wait-StandsIn round limit worker is_primary secs error s (request, e, asks, h, k)
    on_error-StandsIn limit worker is_primary s e error (rpc name) h k =
        elim (Bool-cases (eq_text name (text "CONNECTION_NOT_INITED"))) [
          | inl g ↦ rw g (noted-StandsIn round limit connection_not_inited error s)
          | inr g ↦ rw g (request, asks, h)
        ]
    on_error-StandsIn limit worker is_primary s e error (migration new_dc) h k =
        if-StandsIn round (leb limit s.attempts) _ _ (Recalls-none round) (Recalls-none round)

    on_reply-StandsIn :
        (limit : ℕ) (worker : WorkerInstance) (is_primary : Bool) (s : FetchState)
        (reply : Option (Reply E))
        → ((r : Reply E) → reply ≡ some r → round.reply request ≡ r)
        → StandsIn round (on_reply client job round limit worker is_primary s reply)
    unfolding on_reply
    on_reply-StandsIn limit worker is_primary s none h =
        noted-StandsIn round limit timeout (text "upload.getFile request timed out") s
    on_reply-StandsIn limit worker is_primary s (some (file bytes)) h =
        (request, asks, h (file bytes) refl)
    on_reply-StandsIn limit worker is_primary s (some cdn_redirect) h =
        (request, asks, h cdn_redirect refl)
    on_reply-StandsIn limit worker is_primary s (some (failed e)) h =
        on_error-StandsIn limit worker is_primary s e (client.to_string e) (client.kind e)
          (h (failed e) refl) refl

    on_primary_error-StandsIn :
        (s : FetchState) (e : E) (error : Text) (kind : ErrorKind)
        → round.reply request ≡ failed e
        → client.kind e ≡ kind
        → StandsIn round (on_primary_error s e error kind)
    unfolding on_primary_error
    on_primary_error-StandsIn s e error stale_file_reference h k = (request, e, asks, h, k)
    on_primary_error-StandsIn s e error network_error h k = tt
    on_primary_error-StandsIn s e error transfer h k = (request, asks, h)
    on_primary_error-StandsIn s e error unhandled h k = (request, asks, h)
    on_primary_error-StandsIn s e error (flood secs) h k = (request, e, asks, h, k)
    on_primary_error-StandsIn s e error (rpc name) h k = (request, asks, h)
    on_primary_error-StandsIn s e error (migration new_dc) h k = (request, asks, h)

    pub on_primary_reply-StandsIn :
        (s : FetchState) (reply : Option (Reply E))
        → ((r : Reply E) → reply ≡ some r → round.reply request ≡ r)
        → StandsIn round (on_primary_reply client s reply)
    unfolding on_primary_reply
    on_primary_reply-StandsIn s none h = tt
    on_primary_reply-StandsIn s (some (file bytes)) h = (request, asks, h (file bytes) refl)
    on_primary_reply-StandsIn s (some cdn_redirect) h = (request, asks, h cdn_redirect refl)
    on_primary_reply-StandsIn s (some (failed e)) h =
        on_primary_error-StandsIn s e (client.to_string e) (client.kind e) (h (failed e) refl) refl

  pub attempt-StandsIn :
      (round : Round Location E) (limit : ℕ) (worker : WorkerInstance) (is_primary : Bool)
      (s : FetchState)
      → Pinned job.pinned_worker_id worker.id
      → Recalls round s.last_flood_wait
      → StandsIn round (attempt client job round limit worker is_primary s)
  unfolding attempt
  attempt-StandsIn round limit worker is_primary s pinned old_wait =
      let s' : FetchState = record s { primary_attempted = is_primary || s.primary_attempted } in
      let held = waited_for_lock job round (in_flight_guard entered worker is_primary s') in
      let late : FetchState = record held {
        last_error = some (text "timed out waiting for the worker lock");
      } in
      let kept =
        in_flight_guard-last_flood_wait left worker is_primary late
        ∙ in_flight_guard-last_flood_wait entered worker is_primary s' in
      elim (Bool-cases (in_time job.deadline s.now round.lock_wait)) [
        | inl h ↦ rw h (
            on_reply-StandsIn round (request_of job worker s) (refl, refl, refl, pinned) limit
              worker is_primary _ _ (answer-reply job round _ (request_of job worker s)))
        | inr h ↦ rw h (λ secs e. old_wait secs (sym kept ∙ e))
      ]
