-- ===== src/Stream/Fetch/Flights.antt =====
-- The guards of the calls in flight in crates/stream/src/worker_pool.rs, in one round of a fetch.
use peerless_server.Prelude.{
  ℕ, ◌*◌, ◌^◌, ◌<◌, ◌≡◌, refl, ap, ◌∙◌, inl, inr, Bool, true, false, not, ◌||◌, List, [], ◌∷◌, map,
  Option, none, some, leb, ◌==◌, Bool-cases, if◌then◌else◌, All, Text, text, eq_text, arith,
}
use peerless_server.Stream.Breaker.{available_count}
use peerless_server.Stream.Metrics.{
  RetryReason, network, timeout, flood_wait, connection_not_inited,
}
use peerless_server.Stream.Pool.{WorkerInstance, StreamWorkerPool}
use peerless_server.Stream.Fetch.{
  ErrorKind, network_error, flood, rpc, migration, Client, Reply, file, cdn_redirect, failed, Round,
  Job, FetchState, Exit, continues, breaks, returns, panics, Choice, chosen, wait, unavailable,
  out_of_bounds, sleep_before_retry, second, in_time, answer,
}
use peerless_server.Stream.Fetch.Step.{
  count_flight, count_flight_of, map_primary, entered, left, count_retry, quarantine_of, success_of,
  noted, after_sleep, saturating_next, waited_for_lock, called, sleep_then, back_off, on_flood_wait,
  on_migration, on_error, on_reply, in_flight_guard, attempt, on_choice, request_of,
}

-- Two pools with the same workers and the same primary, their counters included.
abbrev pub SameFlights : StreamWorkerPool → StreamWorkerPool → Type 0
SameFlights p q = (q.workers ≡ p.workers) × (q.primary_fallback ≡ p.primary_fallback)

-- The counter of a worker is that of an `AtomicUsize`.
abbrev pub IsCounted : WorkerInstance → Type 0
IsCounted worker = worker.in_flight < 2 ^ 64

abbrev pub AllCounted : StreamWorkerPool → Type 0
AllCounted p =
    All IsCounted p.workers
    × ((primary : WorkerInstance) → p.primary_fallback ≡ some primary → IsCounted primary)

-- A round ends with the counters of the pool.
abbrev pub Restores : {E : Type 0} → StreamWorkerPool → Exit E → Type 0
Restores p (continues s) = SameFlights p s.pool
Restores p (breaks s) = SameFlights p s.pool
Restores p (returns s result) = SameFlights p s.pool
Restores p panics = Unit

-- What the other tasks do between the rounds leaves the counters.
abbrev pub Leaves : {Location E : Type 0} → Round Location E → Type 0
Leaves round = (p : StreamWorkerPool) → SameFlights p (round.others p)

left-entered : (n : ℕ) → n < 2 ^ 64 → left (entered n) ≡ n
left-entered n h = omega arith

count_flight_of-restores :
    (worker_id : ℕ) (worker : WorkerInstance)
    → IsCounted worker
    → count_flight_of left worker_id (count_flight_of entered worker_id worker) ≡ worker
count_flight_of-restores worker_id worker h = elim (Bool-cases (worker.id == worker_id)) [
  | inl e ↦ rw (e, e) (ap (λ n. record worker { in_flight = n }) (left-entered worker.in_flight h))
  | inr e ↦ rw (e, e) refl
]

map-count_flight_of :
    (worker_id : ℕ) (workers : List WorkerInstance)
    → All IsCounted workers
    → map (count_flight_of left worker_id) (map (count_flight_of entered worker_id) workers)
      ≡ workers
map-count_flight_of worker_id [] h = refl
map-count_flight_of worker_id (worker ∷ workers) h =
    cc (count_flight_of-restores worker_id worker h.0, map-count_flight_of worker_id workers h.1)

map_primary-restores :
    (primary : Option WorkerInstance)
    → ((worker : WorkerInstance) → primary ≡ some worker → IsCounted worker)
    → map_primary (count_flight left) (map_primary (count_flight entered) primary) ≡ primary
map_primary-restores none h = refl
map_primary-restores (some worker) h =
    ap (λ n. some (record worker { in_flight = n })) (left-entered worker.in_flight (h worker refl))

success_of-SameFlights :
    (is_primary : Bool) (worker_id : ℕ) (p q : StreamWorkerPool)
    → SameFlights p q
    → SameFlights p (success_of is_primary worker_id q)
success_of-SameFlights true worker_id p q h = h
success_of-SameFlights false worker_id p q h = h

quarantine_of-SameFlights :
    (is_primary : Bool) (worker_id now secs : ℕ) (p q : StreamWorkerPool)
    → SameFlights p q
    → SameFlights p (quarantine_of is_primary worker_id now secs q)
quarantine_of-SameFlights true worker_id now secs p q h = h
quarantine_of-SameFlights false worker_id now secs p q h = h

pub if-Restores :
    {E : Type 0} (p : StreamWorkerPool) (test : Bool) (a b : Exit E)
    → Restores p a
    → Restores p b
    → Restores p (if test then a else b)
if-Restores p true a b h k = h
if-Restores p false a b h k = k

module _ {Location E : Type 0} (job : Job Location) (round : Round Location E)
    (p : StreamWorkerPool) where
  sleep_then-Restores :
      (delay : ℕ) (s : FetchState) (slept : FetchState → FetchState)
      → ((t : FetchState) → SameFlights p t.pool → SameFlights p (slept t).pool)
      → SameFlights p s.pool
      → Restores p (sleep_then job round delay s slept)
  unfolding sleep_then
  sleep_then-Restores delay s slept keeps h =
      if-Restores p (sleep_before_retry delay s.now job.deadline) _ _
        (keeps (after_sleep round delay s) h) h

  back_off-Restores :
      (limit : ℕ) (reason : RetryReason) (s : FetchState)
      → SameFlights p s.pool
      → Restores p (back_off job round limit reason s)
  unfolding back_off
  back_off-Restores limit reason s h =
      if-Restores p (leb limit s.attempts) (breaks s) _ h
        (sleep_then-Restores _ s (count_retry reason) (λ t k. k) h)

  on_flood_wait-Restores :
      (limit : ℕ) (worker : WorkerInstance) (is_primary : Bool) (secs : ℕ) (error : Text)
      (s : FetchState)
      → SameFlights p s.pool
      → Restores p (on_flood_wait job round limit worker is_primary secs error s)
  unfolding on_flood_wait
  on_flood_wait-Restores limit worker is_primary secs error s h =
      let h' = quarantine_of-SameFlights is_primary worker.id s.now secs p s.pool h in
      let s' : FetchState = record s {
        last_error = some error;
        last_flood_wait = some secs;
        pool = quarantine_of is_primary worker.id s.now secs s.pool;
      } in
      let slept =
        sleep_then-Restores (saturating_next secs * second) s'
          (λ t. count_retry flood_wait (record t { pool = success_of is_primary worker.id t.pool }))
          (λ t k. success_of-SameFlights is_primary worker.id p t.pool k) h' in
      elim (Bool-cases (leb limit s.attempts)) [
        | inl e ↦ rw e h'
        | inr e ↦ elim (Bool-cases (available_count s'.pool.circuit_breaker s'.now == 0)) [
          | inl k ↦ rw (e, k) slept
          | inr k ↦ rw (e, k) h'
        ]
      ]

  on_error-Restores :
      (limit : ℕ) (worker : WorkerInstance) (is_primary : Bool) (s : FetchState) (e : E)
      (error : Text) (kind : ErrorKind)
      → SameFlights p s.pool
      → Restores p (on_error job round limit worker is_primary s e error kind)
  unfolding on_error on_migration
  on_error-Restores limit worker is_primary s e error network_error h =
      back_off-Restores limit network (noted error s) h
  on_error-Restores limit worker is_primary s e error (flood secs) h =
      on_flood_wait-Restores limit worker is_primary secs error s h
  on_error-Restores limit worker is_primary s e error (rpc name) h =
      if-Restores p (eq_text name (text "CONNECTION_NOT_INITED")) _ _
        (back_off-Restores limit connection_not_inited (noted error s) h) h
  on_error-Restores limit worker is_primary s e error (migration new_dc) h =
      if-Restores p (leb limit s.attempts) _ _ h h
  on_error-Restores limit worker is_primary s e error _ h = h

  on_reply-Restores :
      (client : Client E) (limit : ℕ) (worker : WorkerInstance) (is_primary : Bool) (s : FetchState)
      (reply : Option (Reply E))
      → SameFlights p s.pool
      → Restores p (on_reply client job round limit worker is_primary s reply)
  unfolding on_reply
  on_reply-Restores client limit worker is_primary s none h =
      back_off-Restores limit timeout (noted _ s) h
  on_reply-Restores client limit worker is_primary s (some (file bytes)) h =
      success_of-SameFlights is_primary worker.id p _ h
  on_reply-Restores client limit worker is_primary s (some cdn_redirect) h = h
  on_reply-Restores client limit worker is_primary s (some (failed e)) h =
      on_error-Restores limit worker is_primary s e (client.to_string e) (client.kind e) h

  -- The guard of a call counts its worker or the primary up, and down again when it is dropped.
  pub guarded :
      (worker : WorkerInstance) (is_primary : Bool) (s t : FetchState)
      → AllCounted p
      → SameFlights p s.pool
      → (t.pool.workers ≡ (in_flight_guard entered worker is_primary s).pool.workers)
        × (t.pool.primary_fallback
            ≡ (in_flight_guard entered worker is_primary s).pool.primary_fallback)
      → SameFlights p (in_flight_guard left worker is_primary t).pool
  unfolding in_flight_guard
  guarded worker true s t counts h e = (
    e.0 ∙ h.0,
    ap (map_primary (count_flight left)) (e.1 ∙ ap (map_primary (count_flight entered)) h.1)
        ∙ map_primary-restores p.primary_fallback counts.1,
  )
  guarded worker false s t counts h e = (
    ap (map (count_flight_of left worker.id))
          (e.0 ∙ ap (map (count_flight_of entered worker.id)) h.0)
        ∙ map-count_flight_of worker.id p.workers counts.0,
    e.1 ∙ h.1,
  )

  attempt-Restores :
      (client : Client E) (limit : ℕ) (worker : WorkerInstance) (is_primary : Bool) (s : FetchState)
      → AllCounted p
      → SameFlights p s.pool
      → Restores p (attempt client job round limit worker is_primary s)
  unfolding attempt
  attempt-Restores client limit worker is_primary s counts h =
      let s' : FetchState = record s { primary_attempted = is_primary || s.primary_attempted } in
      let held = waited_for_lock job round (in_flight_guard entered worker is_primary s') in
      let late : FetchState = record held {
        last_error = some (text "timed out waiting for the worker lock");
      } in
      if-Restores p (not (in_time job.deadline s.now round.lock_wait))
        (breaks (in_flight_guard left worker is_primary late))
        (on_reply client job round limit worker is_primary
          (in_flight_guard left worker is_primary (called job round held))
          (answer job round held.now (request_of job worker s)))
        (guarded worker is_primary s' late counts h (refl, refl))
        (on_reply-Restores client limit worker is_primary _ _
          (guarded worker is_primary s' (called job round held) counts h (refl, refl)))

  pub on_choice-Restores :
      (client : Client E) (limit : ℕ) (s : FetchState) (choice : Choice)
      → AllCounted p
      → SameFlights p s.pool
      → Restores p (on_choice client job round limit s choice)
  unfolding on_choice
  on_choice-Restores client limit s (chosen worker is_primary) counts h =
      attempt-Restores client limit worker is_primary s counts h
  on_choice-Restores client limit s (wait delay) counts h =
      sleep_then-Restores delay s (λ t. t) (λ t k. k) h
  on_choice-Restores client limit s unavailable counts h = h
  on_choice-Restores client limit s out_of_bounds counts h = tt
