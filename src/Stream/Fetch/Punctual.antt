-- ===== src/Stream/Fetch/Punctual.antt =====
-- When a round of `fetch_chunk_with_budget` of crates/stream/src/worker_pool.rs ends: each of its waits
-- has a timeout at the deadline or is not begun.
use peerless_server.Prelude.{
  ℕ, ◌+◌, ◌*◌, ◌≤◌, ◌<◌, ◌≡◌, refl, inl, inr, Bool, true, false, ◌||◌, Option, none, some, leb,
  ◌==◌, Bool-cases, if◌then◌else◌, Text, text, eq_text, arith,
}
use peerless_server.Stream.Breaker.{available_count}
use peerless_server.Stream.Metrics.{
  RetryReason, network, timeout, flood_wait, connection_not_inited,
}
use peerless_server.Stream.Pool.{WorkerInstance}
use peerless_server.Stream.Fetch.{
  ErrorKind, stale_file_reference, network_error, flood, rpc, migration, Client, Reply, file,
  cdn_redirect, failed, Slot, permit, closed, slot_timeout, Round, Job, FetchState, Exit, continues,
  breaks, returns, panics, Choice, chosen, wait, unavailable, out_of_bounds, choose,
  sleep_before_retry, retry_backoff, second, in_time, ended_at, acquire, request_deadline,
}
use peerless_server.Stream.Fetch.Step.{
  after_sleep, count_retry, quarantine_of, success_of, noted, saturating_next, waited_for_lock,
  waited_for_slot, called, sleep_then, back_off, on_flood_wait, on_migration, on_error, on_reply,
  in_flight_guard, entered, left, attempt, on_choice, on_slot, fetch_round,
}
use peerless_server.Stream.Fetch.Loop.{
  give_up, count_fallback, on_primary_error, on_primary_reply, primary_attempt,
}

-- No timer of the round is later than this.
abbrev pub IsPunctual : {Location E : Type 0} → ℕ → Round Location E → Type 0
IsPunctual late round = (round.lateness ≤ late) × (round.oversleep ≤ late)

-- The round ends by this instant.
abbrev pub By : {E : Type 0} → ℕ → Exit E → Type 0
By bound (continues s) = s.now ≤ bound
By bound (breaks s) = s.now ≤ bound
By bound (returns s result) = s.now ≤ bound
By bound panics = Unit

pub if-By :
    {E : Type 0} (bound : ℕ) (test : Bool) (a b : Exit E)
    → By bound a
    → By bound b
    → By bound (if test then a else b)
if-By bound true a b h k = h
if-By bound false a b h k = k

-- A wait with a timeout that begins by the deadline ends by it, and as late as its timer.
ended_at-le_late :
    (deadline now duration lateness late : ℕ)
    → now ≤ deadline
    → lateness ≤ late
    → ended_at deadline now duration lateness ≤ deadline + late
unfolding ended_at
ended_at-le_late deadline now duration lateness late h l = ground arith

ended_at-in_time :
    (deadline now duration lateness : ℕ)
    → now ≤ deadline
    → in_time deadline now duration ≡ true
    → ended_at deadline now duration lateness ≤ deadline
unfolding ended_at
ended_at-in_time deadline now duration lateness h e = ground arith

in_flight_guard-now :
    (f : ℕ → ℕ) (worker : WorkerInstance) (is_primary : Bool) (s : FetchState)
    → (in_flight_guard f worker is_primary s).now ≡ s.now
unfolding in_flight_guard
in_flight_guard-now f worker true s = refl
in_flight_guard-now f worker false s = refl

module _ {Location E : Type 0} (job : Job Location) (round : Round Location E) (late : ℕ)
    (punctual : IsPunctual late round) where
  sleep_then-By :
      (delay : ℕ) (s : FetchState) (slept : FetchState → FetchState)
      → ((t : FetchState) → (slept t).now ≡ t.now)
      → s.now ≤ job.deadline + late
      → By (job.deadline + late) (sleep_then job round delay s slept)
  unfolding sleep_then
  sleep_then-By delay s slept same h =
      elim (Bool-cases (sleep_before_retry delay s.now job.deadline)) [
        | inr e ↦ rw e h
        | inl e ↦
            let begun : s.now + delay < job.deadline = unfold sleep_before_retry in ground arith in
            rw e (omega (arith, same (after_sleep round delay s), begun, punctual.1))
      ]

  back_off-By :
      (limit : ℕ) (reason : RetryReason) (s : FetchState)
      → s.now ≤ job.deadline + late
      → By (job.deadline + late) (back_off job round limit reason s)
  unfolding back_off
  back_off-By limit reason s h = if-By (job.deadline + late) (leb limit s.attempts) (breaks s) _ h (
      sleep_then-By (retry_backoff s.attempts round.random * 1000) s (count_retry reason)
        (λ t. refl) h)

  on_flood_wait-By :
      (limit : ℕ) (worker : WorkerInstance) (is_primary : Bool) (secs : ℕ) (error : Text)
      (s : FetchState)
      → s.now ≤ job.deadline + late
      → By (job.deadline + late) (on_flood_wait job round limit worker is_primary secs error s)
  unfolding on_flood_wait
  on_flood_wait-By limit worker is_primary secs error s h =
      let s' : FetchState = record s {
        last_error = some error;
        last_flood_wait = some secs;
        pool = quarantine_of is_primary worker.id s.now secs s.pool;
      } in
      let slept =
        sleep_then-By (saturating_next secs * second) s'
          (λ t. count_retry flood_wait (record t { pool = success_of is_primary worker.id t.pool }))
          (λ t. refl) h in
      elim (Bool-cases (leb limit s.attempts)) [
        | inl e ↦ rw e h
        | inr e ↦ elim (Bool-cases (available_count s'.pool.circuit_breaker s'.now == 0)) [
          | inl k ↦ rw (e, k) slept
          | inr k ↦ rw (e, k) h
        ]
      ]

  on_error-By :
      (limit : ℕ) (worker : WorkerInstance) (is_primary : Bool) (s : FetchState) (e : E)
      (error : Text) (kind : ErrorKind)
      → s.now ≤ job.deadline + late
      → By (job.deadline + late) (on_error job round limit worker is_primary s e error kind)
  unfolding on_error on_migration
  on_error-By limit worker is_primary s e error network_error h =
      back_off-By limit network (noted error s) h
  on_error-By limit worker is_primary s e error (flood secs) h =
      on_flood_wait-By limit worker is_primary secs error s h
  on_error-By limit worker is_primary s e error (rpc name) h =
      if-By (job.deadline + late) (eq_text name (text "CONNECTION_NOT_INITED")) _ _
        (back_off-By limit connection_not_inited (noted error s) h) h
  on_error-By limit worker is_primary s e error (migration new_dc) h =
      if-By (job.deadline + late) (leb limit s.attempts) _ _ h h
  on_error-By limit worker is_primary s e error _ h = h

  on_reply-By :
      (client : Client E) (limit : ℕ) (worker : WorkerInstance) (is_primary : Bool) (s : FetchState)
      (reply : Option (Reply E))
      → s.now ≤ job.deadline + late
      → By (job.deadline + late) (on_reply client job round limit worker is_primary s reply)
  unfolding on_reply
  on_reply-By client limit worker is_primary s none h =
      back_off-By limit timeout (noted (text "upload.getFile request timed out") s) h
  on_reply-By client limit worker is_primary s (some (file bytes)) h = h
  on_reply-By client limit worker is_primary s (some cdn_redirect) h = h
  on_reply-By client limit worker is_primary s (some (failed e)) h =
      on_error-By limit worker is_primary s e (client.to_string e) (client.kind e) h

  -- A call that begins by the deadline.
  called-le :
      (now : ℕ)
      → now ≤ job.deadline
      → ended_at (request_deadline job now) now round.reply_time round.lateness
        ≤ job.deadline + late
  called-le now h =
      let own =
        ended_at-le_late (request_deadline job now) now round.reply_time round.lateness late
          (omega arith) punctual.0 in
      omega (arith, own)

  attempt-By :
      (client : Client E) (limit : ℕ) (worker : WorkerInstance) (is_primary : Bool) (s : FetchState)
      → s.now ≤ job.deadline
      → By (job.deadline + late) (attempt client job round limit worker is_primary s)
  unfolding attempt
  attempt-By client limit worker is_primary s h =
      let s' : FetchState = record s { primary_attempted = is_primary || s.primary_attempted } in
      let guarded = in_flight_guard entered worker is_primary s' in
      let held = waited_for_lock job round guarded in
      let same : guarded.now ≡ s.now = in_flight_guard-now entered worker is_primary s' in
      let early : guarded.now ≤ job.deadline = omega (arith, same, h) in
      elim (Bool-cases (in_time job.deadline s.now round.lock_wait)) [
        | inl e ↦
            let locked =
              ended_at-in_time job.deadline guarded.now round.lock_wait round.lateness early
                (rw same e) in
            rw e (
              on_reply-By client limit worker is_primary _ _ (
                omega (
                  arith,
                  called-le held.now locked,
                  in_flight_guard-now left worker is_primary (called job round held),
                )))
        | inr e ↦
            let over =
              ended_at-le_late job.deadline guarded.now round.lock_wait round.lateness late early
                punctual.0 in
            rw e (
              omega (
                arith,
                over,
                in_flight_guard-now left worker is_primary (record held {
                  last_error = some (text "timed out waiting for the worker lock");
                }),
              ))
      ]

  on_choice-By :
      (client : Client E) (limit : ℕ) (s : FetchState) (choice : Choice)
      → s.now ≤ job.deadline
      → By (job.deadline + late) (on_choice client job round limit s choice)
  unfolding on_choice
  on_choice-By client limit s (chosen worker is_primary) h =
      attempt-By client limit worker is_primary s h
  on_choice-By client limit s (wait delay) h =
      sleep_then-By delay s (λ t. t) (λ t. refl) (omega (arith, h))
  on_choice-By client limit s unavailable h = omega (arith, h)
  on_choice-By client limit s out_of_bounds h = tt

  -- Whether the slot came says when its wait ended.
  acquire-permit :
      (now : ℕ) → acquire job round now ≡ permit → in_time job.deadline now round.slot_wait ≡ true
  unfolding acquire
  acquire-permit now h = elim (Bool-cases (in_time job.deadline now round.slot_wait)) [
    | inl e ↦ e
    | inr e ↦ let k = rw e at h in cc
  ]

  on_slot-By :
      (client : Client E) (limit : ℕ) (s : FetchState) (slot : Slot)
      → acquire job round s.now ≡ slot
      → s.now ≤ job.deadline
      → By (job.deadline + late) (on_slot client job round limit s slot)
  unfolding on_slot
  on_slot-By client limit s permit e h =
      let t = waited_for_slot job round s in
      let choice = choose job.pinned_worker_id t.now t.primary_attempted t.pool in
      on_choice-By client limit (record t { pool = choice.0 }) choice.1
        (ended_at-in_time job.deadline s.now round.slot_wait round.lateness h
          (acquire-permit s.now e))
  on_slot-By client limit s closed e h =
      ended_at-le_late job.deadline s.now round.slot_wait round.lateness late h punctual.0
  on_slot-By client limit s slot_timeout e h =
      ended_at-le_late job.deadline s.now round.slot_wait round.lateness late h punctual.0

  -- A round that begins by the deadline ends by it, and at most as much later as its timers.
  pub fetch_round-By :
      (client : Client E) (limit : ℕ) (s : FetchState)
      → s.now ≤ job.deadline
      → By (job.deadline + late) (fetch_round client job limit s round)
  unfolding fetch_round
  fetch_round-By client limit s h = on_slot-By client limit s (acquire job round s.now) refl h

  pub give_up-By :
      (bound : ℕ) (s : FetchState) (flood : Option ℕ)
      → s.now ≤ bound
      → By {E = E} bound (give_up s flood)
  give_up-By bound s none h = h
  give_up-By bound s (some secs) h = h

  on_primary_error-By :
      (bound : ℕ) (s : FetchState) (e : E) (error : Text) (kind : ErrorKind)
      → s.now ≤ bound
      → By bound (on_primary_error s e error kind)
  unfolding on_primary_error
  on_primary_error-By bound s e error stale_file_reference h = h
  on_primary_error-By bound s e error _ h = h

  on_primary_reply-By :
      (client : Client E) (bound : ℕ) (s : FetchState) (reply : Option (Reply E))
      → s.now ≤ bound
      → By bound (on_primary_reply client s reply)
  unfolding on_primary_reply
  on_primary_reply-By client bound s none h = h
  on_primary_reply-By client bound s (some (file bytes)) h = h
  on_primary_reply-By client bound s (some cdn_redirect) h = h
  on_primary_reply-By client bound s (some (failed e)) h =
      on_primary_error-By bound s e (client.to_string e) (client.kind e) h

  count_fallback-now : (s : FetchState) → (count_fallback s).now ≡ s.now
  count_fallback-now s = ground arith

  pub primary_attempt-By :
      (client : Client E) (s : FetchState) (primary : WorkerInstance) (slot : Slot)
      → acquire job round s.now ≡ slot
      → s.now ≤ job.deadline
      → By (job.deadline + late) (primary_attempt client job round s primary slot)
  unfolding primary_attempt in_flight_guard
  primary_attempt-By client s primary closed e h =
      ended_at-le_late job.deadline s.now round.slot_wait round.lateness late h punctual.0
  primary_attempt-By client s primary slot_timeout e h =
      ended_at-le_late job.deadline s.now round.slot_wait round.lateness late h punctual.0
  primary_attempt-By client s primary permit e h =
      let t = waited_for_slot job round s in
      let held = waited_for_lock job round (in_flight_guard entered primary true t) in
      let early =
        ended_at-in_time job.deadline s.now round.slot_wait round.lateness h
          (acquire-permit s.now e) in
      elim (Bool-cases (in_time job.deadline t.now round.lock_wait)) [
        | inl k ↦
            let locked =
              ended_at-in_time job.deadline t.now round.lock_wait round.lateness early k in
            let same = count_fallback-now held in
            rw k (
              on_primary_reply-By client (job.deadline + late) _ _
                (called-le (count_fallback held).now (omega (arith, same, locked))))
        | inr k ↦ rw k (
            ended_at-le_late job.deadline t.now round.lock_wait round.lateness late early
              punctual.0)
      ]
