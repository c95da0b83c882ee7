-- ===== src/Stream/Fetch/Balance.antt =====
-- The counters of calls in flight in crates/stream/src/worker_pool.rs: each `InFlightGuard` of a fetch
-- is dropped on every path.
use peerless_server.Prelude.{
  ℕ, ◌≡◌, refl, sym, ◌∙◌, inl, inr, Bool, true, not, ◌&&◌, List, [], ◌∷◌, Option, none, some, ltb,
  ◌==◌, Bool-cases, Result, All, Text, text, length,
}
use peerless_server.Stream.Pipe.{Bytes}
use peerless_server.Stream.Pool.{WorkerInstance, StreamWorkerPool, pick_least_loaded}
use peerless_server.Stream.Fetch.{
  ErrorKind, stale_file_reference, Client, StreamError, Reply, file, cdn_redirect, failed, Slot,
  permit, closed, slot_timeout, Round, Job, FetchState, Exit, continues, breaks, returns, panics,
  choose, choose_picked, in_time, acquire, answer,
}
use peerless_server.Stream.Fetch.Step.{
  entered, left, waited_for_slot, waited_for_lock, called, in_flight_guard, on_slot, fetch_round,
  request_of,
}
use peerless_server.Stream.Fetch.Loop.{
  give_up, failed_with, count_fallback, on_primary_error, on_primary_reply, resume, fetch_loop,
  primary_attempt, after_loop, finish, worker_attempt_limit, initial, counted,
  fetch_chunk_with_budget, fetch_chunk_until,
}
use peerless_server.Stream.Fetch.Flights.{
  SameFlights, AllCounted, Leaves, Restores, if-Restores, guarded, on_choice-Restores,
}

pick_least_loaded-SameFlights :
    (now : ℕ) (p : StreamWorkerPool) → SameFlights p (pick_least_loaded now p).0
unfolding pick_least_loaded
pick_least_loaded-SameFlights now p = elim (Bool-cases (length p.workers == 0)) [
  | inl e ↦ rw e (refl, refl)
  | inr e ↦ rw e (refl, refl)
]

choose_picked-pool :
    (now : ℕ) (primary_attempted : Bool) (picked : StreamWorkerPool × Option ℕ)
    → (choose_picked now primary_attempted picked).0 ≡ picked.0
choose_picked-pool now primary_attempted (pool, none) = refl
choose_picked-pool now primary_attempted (pool, some worker_id) = refl

choose-SameFlights :
    (pinned : Option ℕ) (now : ℕ) (primary_attempted : Bool) (p q : StreamWorkerPool)
    → SameFlights p q
    → SameFlights p (choose pinned now primary_attempted q).0
unfolding choose
choose-SameFlights (some worker_id) now primary_attempted p q h = h
choose-SameFlights none now primary_attempted p q h =
    let picked = pick_least_loaded-SameFlights now q in
    rw (choose_picked-pool now primary_attempted (pick_least_loaded now q))
      (picked.0 ∙ h.0, picked.1 ∙ h.1)

module _ {Location E : Type 0} (client : Client E) (job : Job Location) (p : StreamWorkerPool)
    (counts : AllCounted p) where
  others-SameFlights :
      (round : Round Location E) (q : StreamWorkerPool)
      → Leaves round
      → SameFlights p q
      → SameFlights p (round.others q)
  others-SameFlights round q leaves h = ((leaves q).0 ∙ h.0, (leaves q).1 ∙ h.1)

  on_slot-Restores :
      (round : Round Location E) (limit : ℕ) (s : FetchState) (slot : Slot)
      → Leaves round
      → SameFlights p s.pool
      → Restores p (on_slot client job round limit s slot)
  unfolding on_slot
  on_slot-Restores round limit s permit leaves h =
      let t = waited_for_slot job round s in
      let choice = choose job.pinned_worker_id t.now t.primary_attempted t.pool in
      on_choice-Restores job round p client limit (record t { pool = choice.0 }) choice.1 counts
        (choose-SameFlights job.pinned_worker_id t.now t.primary_attempted p t.pool
          (others-SameFlights round s.pool leaves h))
  on_slot-Restores round limit s closed leaves h = h
  on_slot-Restores round limit s slot_timeout leaves h = others-SameFlights round s.pool leaves h

  resume-Restores :
      (rest : FetchState → Exit E) (exit : Exit E)
      → ((s : FetchState) → SameFlights p s.pool → Restores p (rest s))
      → Restores p exit
      → Restores p (resume rest exit)
  resume-Restores rest (continues s) next h = next s h
  resume-Restores rest (breaks s) next h = h
  resume-Restores rest (returns s result) next h = h
  resume-Restores rest panics next h = tt

  fetch_loop-Restores :
      (limit : ℕ) (rounds : List (Round Location E)) (s : FetchState)
      → All Leaves rounds
      → SameFlights p s.pool
      → Restores p (fetch_loop client job limit rounds s)
  unfolding fetch_loop fetch_round
  fetch_loop-Restores limit [] s leaves h = if-Restores p _ (continues s) (breaks s) h h
  fetch_loop-Restores limit (round ∷ rounds) s leaves h =
      if-Restores p (ltb s.attempts limit && ltb s.now job.deadline)
        (resume (λ t. fetch_loop client job limit rounds t)
          (on_slot client job round limit s (acquire job round s.now)))
        (breaks s)
        (resume-Restores (λ t. fetch_loop client job limit rounds t) _
          (λ t k. fetch_loop-Restores limit rounds t leaves.1 k)
          (on_slot-Restores round limit s (acquire job round s.now) leaves.0 h))
        h

  on_primary_error-Restores :
      (s : FetchState) (e : E) (error : Text) (kind : ErrorKind)
      → SameFlights p s.pool
      → Restores p (on_primary_error s e error kind)
  unfolding on_primary_error
  on_primary_error-Restores s e error stale_file_reference h = h
  on_primary_error-Restores s e error _ h = h

  on_primary_reply-Restores :
      (s : FetchState) (reply : Option (Reply E))
      → SameFlights p s.pool
      → Restores p (on_primary_reply client s reply)
  unfolding on_primary_reply
  on_primary_reply-Restores s none h = h
  on_primary_reply-Restores s (some (file bytes)) h = h
  on_primary_reply-Restores s (some cdn_redirect) h = h
  on_primary_reply-Restores s (some (failed e)) h =
      on_primary_error-Restores s e (client.to_string e) (client.kind e) h

  count_fallback-SameFlights : (s : FetchState) → SameFlights (count_fallback s).pool s.pool
  count_fallback-SameFlights s = elim (Bool-cases (ltb 0 s.attempts)) [
    | inl e ↦ rw e (refl, refl)
    | inr e ↦ rw e (refl, refl)
  ]

  primary_attempt-Restores :
      (round : Round Location E) (s : FetchState) (primary : WorkerInstance) (slot : Slot)
      → Leaves round
      → SameFlights p s.pool
      → Restores p (primary_attempt client job round s primary slot)
  unfolding primary_attempt
  primary_attempt-Restores round s primary closed leaves h = h
  primary_attempt-Restores round s primary slot_timeout leaves h =
      others-SameFlights round s.pool leaves h
  primary_attempt-Restores round s primary permit leaves h =
      let t = waited_for_slot job round s in
      let k = others-SameFlights round s.pool leaves h in
      let held = waited_for_lock job round (in_flight_guard entered primary true t) in
      let same = count_fallback-SameFlights held in
      if-Restores p (not (in_time job.deadline t.now round.lock_wait))
        (failed_with (text "timed out waiting for the primary worker lock")
          (in_flight_guard left primary true held))
        (on_primary_reply client
          (in_flight_guard left primary true (called job round (count_fallback held)))
          (answer job round held.now (request_of job primary s)))
        (guarded job round p primary true t held counts k (refl, refl))
        (on_primary_reply-Restores _ _ (
          guarded job round p primary true t (called job round (count_fallback held)) counts k
            (sym same.0, sym same.1)))

  give_up-Restores :
      (s : FetchState) (wait : Option ℕ)
      → SameFlights p s.pool
      → Restores {E = E} p (give_up s wait)
  give_up-Restores s none h = h
  give_up-Restores s (some secs) h = h

  after_loop-Restores :
      (round : Round Location E) (s : FetchState) (primary : Option WorkerInstance)
      → Leaves round
      → SameFlights p s.pool
      → Restores p (after_loop client job round s primary)
  unfolding after_loop
  after_loop-Restores round s none leaves h = give_up-Restores s s.last_flood_wait h
  after_loop-Restores round s (some primary) leaves h =
      if-Restores p _ (primary_attempt client job round s primary (acquire job round s.now))
        (give_up s s.last_flood_wait)
        (primary_attempt-Restores round s primary (acquire job round s.now) leaves h)
        (give_up-Restores s s.last_flood_wait h)

  finish-Restores :
      (round : Round Location E) (exit : Exit E)
      → Leaves round
      → Restores p exit
      → Restores p (finish client job round exit)
  unfolding finish
  finish-Restores round (continues s) leaves h = h
  finish-Restores round (breaks s) leaves h =
      after_loop-Restores round s s.pool.primary_fallback leaves h
  finish-Restores round (returns s result) leaves h = h
  finish-Restores round panics leaves h = tt

counted-Restores :
    {E : Type 0} (p : StreamWorkerPool) (started : ℕ) (exit : Exit E)
    → Restores p exit
    → Restores p (counted started exit)
counted-Restores p started (continues s) h = h
counted-Restores p started (breaks s) h = h
counted-Restores p started (returns s result) h = h
counted-Restores p started panics h = tt

returns-SameFlights :
    {E : Type 0} (p : StreamWorkerPool) (exit : Exit E) (s : FetchState)
    (result : Result Bytes (StreamError E))
    → exit ≡ returns s result
    → Restores p exit
    → SameFlights p s.pool
returns-SameFlights p exit s result e h = rw e at h

-- However a fetch ends, with a chunk or with any error, the counters of calls in flight of the workers
-- and of the primary are those of its start, if the other tasks leave them between its rounds.
pub fetch_chunk_until-SameFlights :
    {Location E : Type 0} (client : Client E) (job : Job Location)
    (rounds : List (Round Location E)) (last : Round Location E) (dc_id now : ℕ)
    (pool : StreamWorkerPool) (s : FetchState) (result : Result Bytes (StreamError E))
    → AllCounted pool
    → All Leaves rounds
    → Leaves last
    → fetch_chunk_until client job rounds last dc_id now pool ≡ returns s result
    → SameFlights pool s.pool
unfolding fetch_chunk_until fetch_chunk_with_budget initial
fetch_chunk_until-SameFlights client job rounds last dc_id now pool s result counts all leaves e =
    let s0 = initial dc_id now pool in
    let looped =
      fetch_loop-Restores client job pool counts (worker_attempt_limit job s0) rounds s0 all
        (refl, refl) in
    returns-SameFlights pool _ s result e
      (counted-Restores pool now _ (finish-Restores client job pool counts last _ leaves looped))
