-- ===== src/Stream/Fetch/Progress.antt =====
-- Each round of the loop makes a call or lets time pass, and never makes more than one call.
use peerless_server.Prelude.{
  ℕ, ◌+◌, ◌*◌, ◌≤◌, ◌≡◌, refl, ◌∙◌, ◌⊎◌, inl, inr, Bool, true, false, Option, none, some, leb, ◌==◌,
  Bool-cases, Text, text, eq_text, arith,
}
use peerless_server.Stream.Breaker.{available_count}
use peerless_server.Stream.Metrics.{
  RetryReason, network, timeout, flood_wait, connection_not_inited,
}
use peerless_server.Stream.Pool.{WorkerInstance, StreamWorkerPool}
use peerless_server.Stream.Fetch.{
  sleep_before_retry, ErrorKind, stale_file_reference, network_error, transfer, unhandled, flood,
  rpc, migration, Client, Reply, file, cdn_redirect, failed, Slot, permit, closed, slot_timeout,
  Round, Job, FetchState, Exit, continues, breaks, returns, panics, Choice, chosen, wait,
  unavailable, out_of_bounds, choose, retry_backoff, second, in_time, ended_at, acquire,
  request_deadline,
}
use peerless_server.Stream.Fetch.Waiting.{
  Numbered, NumberedFrom-map, Waits, choose-Waits, choose-Numbered,
}
use peerless_server.Stream.Fetch.Step.{
  count_flight_of, entered, left, count_retry, quarantine_of, success_of, noted, called,
  waited_for_lock, after_sleep, saturating_next, waited_for_slot, sleep_then, back_off,
  on_flood_wait, on_migration, on_error, on_reply, in_flight_guard, attempt, on_choice, on_slot,
  fetch_round,
}

-- A round that ends with so many calls made, and at this instant or later.
abbrev pub Ends : {E : Type 0} → ℕ → ℕ → Exit E → Type 0
Ends attempts now (continues s) = (s.attempts ≡ attempts) × (now ≤ s.now) × Numbered s.pool
Ends attempts now (breaks s) = s.attempts ≡ attempts
Ends attempts now (returns s result) = s.attempts ≡ attempts
Ends attempts now panics = ⊥

success_of-Numbered :
    (is_primary : Bool) (worker_id : ℕ) (pool : StreamWorkerPool)
    → Numbered pool
    → Numbered (success_of is_primary worker_id pool)
success_of-Numbered true worker_id pool n = n
success_of-Numbered false worker_id pool n = n

quarantine_of-Numbered :
    (is_primary : Bool) (worker_id now secs : ℕ) (pool : StreamWorkerPool)
    → Numbered pool
    → Numbered (quarantine_of is_primary worker_id now secs pool)
quarantine_of-Numbered true worker_id now secs pool n = n
quarantine_of-Numbered false worker_id now secs pool n = n

count_flight_of-id :
    (f : ℕ → ℕ) (worker_id : ℕ) (worker : WorkerInstance)
    → (count_flight_of f worker_id worker).id ≡ worker.id
count_flight_of-id f worker_id worker = ground arith

pub ended_at-le :
    (deadline now duration lateness : ℕ) → now ≤ ended_at deadline now duration lateness
unfolding ended_at
ended_at-le deadline now duration lateness = ground arith

module _ {Location E : Type 0} (job : Job Location) (round : Round Location E) where
  sleep_then-Ends :
      (delay : ℕ) (s : FetchState) (slept : FetchState → FetchState)
      → ((t : FetchState)
          → ((slept t).attempts ≡ t.attempts)
            × ((slept t).now ≡ t.now)
            × (Numbered t.pool → Numbered (slept t).pool))
      → Numbered s.pool
      → Ends s.attempts (s.now + delay) (sleep_then job round delay s slept)
  unfolding sleep_then
  sleep_then-Ends delay s slept keeps n =
      let k = keeps (after_sleep round delay s) in
      elim (Bool-cases (sleep_before_retry delay s.now job.deadline)) [
        | inl h ↦ rw h (k.0, omega (arith, k.1), k.2 n)
        | inr h ↦ rw h refl
      ]

  Ends-eq : (a b m n : ℕ) (exit : Exit E) → b ≡ a → m ≤ n → Ends b n exit → Ends a m exit
  Ends-eq a b m n (continues s) h k e = (e.0 ∙ h, omega (arith, e.1), e.2)
  Ends-eq a b m n (breaks s) h k e = e ∙ h
  Ends-eq a b m n (returns s result) h k e = e ∙ h
  Ends-eq a b m n panics h k e = e

  weaken-Ends : (a m n : ℕ) (exit : Exit E) → m ≤ n → Ends a n exit → Ends a m exit
  weaken-Ends a m n exit h e = Ends-eq a a m n exit refl h e

  back_off-Ends :
      (limit : ℕ) (reason : RetryReason) (s : FetchState)
      → Numbered s.pool
      → Ends s.attempts s.now (back_off job round limit reason s)
  unfolding back_off
  back_off-Ends limit reason s n =
      let delay = retry_backoff s.attempts round.random * 1000 in
      let e = sleep_then-Ends delay s (count_retry reason) (λ t. (refl, refl, λ k. k)) n in
      elim (Bool-cases (leb limit s.attempts)) [
        | inl h ↦ rw h refl
        | inr h ↦ rw h (weaken-Ends s.attempts s.now (s.now + delay) _ (omega arith) e)
      ]

  on_flood_wait-Ends :
      (limit : ℕ) (worker : WorkerInstance) (is_primary : Bool) (secs : ℕ) (error : Text)
      (s : FetchState)
      → Numbered s.pool
      → Ends s.attempts s.now (on_flood_wait job round limit worker is_primary secs error s)
  unfolding on_flood_wait
  on_flood_wait-Ends limit worker is_primary secs error s n =
      let s' : FetchState = record s {
        last_error = some error;
        last_flood_wait = some secs;
        pool = quarantine_of is_primary worker.id s.now secs s.pool;
      } in
      let n' = quarantine_of-Numbered is_primary worker.id s.now secs s.pool n in
      let delay = saturating_next secs * second in
      let e =
        sleep_then-Ends delay s'
          (λ slept.
            count_retry flood_wait
              (record slept { pool = success_of is_primary worker.id slept.pool }))
          (λ t. (refl, refl, λ k. success_of-Numbered is_primary worker.id t.pool k)) n' in
      elim (Bool-cases (leb limit s.attempts)) [
        | inl h ↦ rw h refl
        | inr h ↦ elim (Bool-cases (available_count s'.pool.circuit_breaker s'.now == 0)) [
          | inl k ↦ rw (h, k) (weaken-Ends s.attempts s.now (s.now + delay) _ (omega arith) e)
          | inr k ↦ rw (h, k) (refl, omega arith, n')
        ]
      ]

  on_error-Ends :
      (limit : ℕ) (worker : WorkerInstance) (is_primary : Bool) (s : FetchState) (e : E)
      (error : Text) (kind : ErrorKind)
      → Numbered s.pool
      → Ends s.attempts s.now (on_error job round limit worker is_primary s e error kind)
  unfolding on_error on_migration
  on_error-Ends limit worker is_primary s e error stale_file_reference n = refl
  on_error-Ends limit worker is_primary s e error network_error n =
      back_off-Ends limit network (noted error s) n
  on_error-Ends limit worker is_primary s e error transfer n = refl
  on_error-Ends limit worker is_primary s e error unhandled n = refl
  on_error-Ends limit worker is_primary s e error (flood secs) n =
      on_flood_wait-Ends limit worker is_primary secs error s n
  on_error-Ends limit worker is_primary s e error (rpc name) n =
      elim (Bool-cases (eq_text name (text "CONNECTION_NOT_INITED"))) [
        | inl h ↦ rw h (back_off-Ends limit connection_not_inited (noted error s) n)
        | inr h ↦ rw h refl
      ]
  on_error-Ends limit worker is_primary s e error (migration new_dc) n =
      elim (Bool-cases (leb limit s.attempts)) [
        | inl h ↦ rw h refl
        | inr h ↦ rw h (refl, omega arith, n)
      ]

  on_reply-Ends :
      (client : Client E) (limit : ℕ) (worker : WorkerInstance) (is_primary : Bool) (s : FetchState)
      (reply : Option (Reply E))
      → Numbered s.pool
      → Ends s.attempts s.now (on_reply client job round limit worker is_primary s reply)
  unfolding on_reply
  on_reply-Ends client limit worker is_primary s none n =
      back_off-Ends limit timeout (noted (text "upload.getFile request timed out") s) n
  on_reply-Ends client limit worker is_primary s (some (file bytes)) n = refl
  on_reply-Ends client limit worker is_primary s (some cdn_redirect) n = refl
  on_reply-Ends client limit worker is_primary s (some (failed e)) n =
      on_error-Ends limit worker is_primary s e (client.to_string e) (client.kind e) n

  on_reply-Ends_next :
      (client : Client E) (limit : ℕ) (worker : WorkerInstance) (is_primary : Bool)
      (s t : FetchState) (reply : Option (Reply E))
      → t.attempts ≡ s.attempts + 1
      → s.now ≤ t.now
      → Numbered t.pool
      → Ends (s.attempts + 1) s.now (on_reply client job round limit worker is_primary t reply)
  on_reply-Ends_next client limit worker is_primary s t reply e h n =
      let ends = on_reply-Ends client limit worker is_primary t reply n in
      Ends-eq (s.attempts + 1) t.attempts s.now t.now _ e h ends

  -- A call counts as one attempt; without the worker's lock the loop ends and none is made.
  abbrev pub Advances : ℕ → ℕ → Exit E → Type 0
  Advances attempts now exit = Ends (attempts + 1) now exit ⊎ Ends attempts (now + 1) exit

  -- A call ends no earlier than the round began.
  calls : (s : FetchState) → s.now ≤ (called job round (waited_for_lock job round s)).now
  calls s =
      let locked = ended_at job.deadline s.now round.lock_wait round.lateness in
      let a = ended_at-le job.deadline s.now round.lock_wait round.lateness in
      let b = ended_at-le (request_deadline job locked) locked round.reply_time round.lateness in
      omega (arith, a, b)

  attempt-Advances :
      (client : Client E) (limit : ℕ) (worker : WorkerInstance) (is_primary : Bool) (s : FetchState)
      → Numbered s.pool
      → Advances s.attempts s.now (attempt client job round limit worker is_primary s)
  unfolding attempt in_flight_guard
  attempt-Advances client limit worker true s n =
      elim (Bool-cases (in_time job.deadline s.now round.lock_wait)) [
        | inl h ↦ inl (rw h (on_reply-Ends_next client limit worker true s _ _ refl (calls s) n))
        | inr h ↦ inr (rw h refl)
      ]
  attempt-Advances client limit worker false s n =
      elim (Bool-cases (in_time job.deadline s.now round.lock_wait)) [
        | inl h ↦ inl (
            rw h (
              on_reply-Ends_next client limit worker false s _ _ refl (calls s) (
                NumberedFrom-map 0 _ (count_flight_of left worker.id)
                  (count_flight_of-id left worker.id)
                  (NumberedFrom-map 0 s.pool.workers (count_flight_of entered worker.id)
                    (count_flight_of-id entered worker.id) n))))
        | inr h ↦ inr (rw h refl)
      ]

module _ {Location E : Type 0} (client : Client E) (job : Job Location) (limit : ℕ) where
  on_choice-Advances :
      (round : Round Location E) (s : FetchState) (choice : Choice)
      → Numbered s.pool
      → Waits choice
      → Advances job round s.attempts s.now (on_choice client job round limit s choice)
  unfolding on_choice
  on_choice-Advances round s (chosen worker is_primary) n h =
      attempt-Advances job round client limit worker is_primary s n
  on_choice-Advances round s (wait delay) n h = inr (
      weaken-Ends job round s.attempts (s.now + 1) (s.now + delay) _ (omega arith)
        (sleep_then-Ends job round delay s (λ slept. slept) (λ t. (refl, refl, λ k. k)) n))
  on_choice-Advances round s unavailable n h = inr refl
  on_choice-Advances round s out_of_bounds n h = absurd h

  on_slot-Advances :
      (round : Round Location E) (s : FetchState) (slot : Slot)
      → Numbered (round.others s.pool)
      → Advances job round s.attempts s.now (on_slot client job round limit s slot)
  unfolding on_slot
  on_slot-Advances round s closed n = inr refl
  on_slot-Advances round s slot_timeout n = inr refl
  on_slot-Advances round s permit n =
      let t = waited_for_slot job round s in
      let later = ended_at-le job.deadline s.now round.slot_wait round.lateness in
      let choice = choose job.pinned_worker_id t.now t.primary_attempted t.pool in
      let waits = choose-Waits job.pinned_worker_id t.now t.primary_attempted t.pool n in
      let n' = choose-Numbered job.pinned_worker_id t.now t.primary_attempted t.pool n in
      elim (on_choice-Advances round (record t { pool = choice.0 }) choice.1 n' waits) [
        | inl e ↦ inl (weaken-Ends job round (s.attempts + 1) s.now t.now _ later e)
        | inr e ↦
            inr
              (weaken-Ends job round s.attempts (s.now + 1) (t.now + 1) _ (omega (arith, later)) e)
      ]

  -- A round makes one call, or it makes none and time passes, and it never panics.
  pub fetch_round-Advances :
      (s : FetchState) (round : Round Location E)
      → Numbered (round.others s.pool)
      → Ends (s.attempts + 1) s.now (fetch_round client job limit s round)
        ⊎ Ends s.attempts (s.now + 1) (fetch_round client job limit s round)
  unfolding fetch_round
  fetch_round-Advances s round n = on_slot-Advances round s (acquire job round s.now) n
