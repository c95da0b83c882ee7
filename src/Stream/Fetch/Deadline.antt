-- ===== src/Stream/Fetch/Deadline.antt =====
-- `fetch_chunk_until` of crates/stream/src/worker_pool.rs returns by the deadline, with no panic and
-- within the attempts that it may make.
use peerless_server.Prelude.{
  ℕ, suc, ◌+◌, ◌-◌, ◌≤◌, ◌<◌, ◌≡◌, refl, ◌⊎◌, inl, inr, true, not, ◌&&◌, List, [], ◌∷◌, Option,
  none, some, ltb, leb, if◌then◌else◌, Result, Bool-cases, length, All, Text, arith,
}
use peerless_server.Stream.Pipe.{Bytes}
use peerless_server.Stream.Pool.{WorkerInstance, StreamWorkerPool}
use peerless_server.Stream.Fetch.{
  ErrorKind, stale_file_reference, network_error, transfer, unhandled, flood, rpc, migration,
  Client, StreamError, Reply, file, cdn_redirect, failed, Slot, permit, closed, slot_timeout, Round,
  Job, FetchState, Exit, continues, breaks, returns, panics, max_fetch_attempts, in_time, acquire,
}
use peerless_server.Stream.Fetch.Step.{in_flight_guard, entered, waited_for_lock, waited_for_slot}
use peerless_server.Stream.Fetch.Loop.{
  resume, fetch_loop, give_up, on_primary_error, on_primary_reply, primary_attempt, after_loop,
  finish, worker_attempt_limit, fetch_chunk_with_budget, fetch_chunk_until, counted, initial,
  is_some, count_fallback,
}
use peerless_server.Stream.Fetch.Waiting.{Numbered}
use peerless_server.Stream.Fetch.Punctual.{IsPunctual}
use peerless_server.Stream.Fetch.Bounded.{fetch_chunk_until-By, returns-By}
use peerless_server.Stream.Fetch.Progress.{Ends, fetch_round-Advances}

-- The loop is over, with at most so many calls made.
abbrev Settled : {E : Type 0} → ℕ → Exit E → Type 0
Settled limit (continues s) = ⊥
Settled limit (breaks s) = s.attempts ≤ limit
Settled limit (returns s result) = s.attempts ≤ limit
Settled limit panics = ⊥

-- The function has returned.
abbrev Returned : {E : Type 0} → ℕ → Exit E → Type 0
Returned limit (continues s) = ⊥
Returned limit (breaks s) = ⊥
Returned limit (returns s result) = s.attempts ≤ limit
Returned limit panics = ⊥

-- The other tasks leave the workers of the pool numbered.
abbrev pub Keeps : {Location E : Type 0} → Round Location E → Type 0
Keeps round = (pool : StreamWorkerPool) → Numbered pool → Numbered (round.others pool)

resume-Settled :
    {E : Type 0} (limit attempts now deadline fuel : ℕ) (rest : FetchState → Exit E) (exit : Exit E)
    → attempts < limit
    → now < deadline
    → (limit - attempts) + (deadline - now) ≤ suc fuel
    → ((s : FetchState)
        → Numbered s.pool
        → s.attempts ≤ limit
        → (limit - s.attempts) + (deadline - s.now) ≤ fuel
        → Settled limit (rest s))
    → Ends (attempts + 1) now exit ⊎ Ends attempts (now + 1) exit
    → Settled limit (resume rest exit)
resume-Settled limit attempts now deadline fuel rest (continues s) h k f next (inl (e, l, n)) =
    next s n (omega arith) (omega arith)
resume-Settled limit attempts now deadline fuel rest (continues s) h k f next (inr (e, l, n)) =
    next s n (omega arith) (omega arith)
resume-Settled limit attempts now deadline fuel rest (breaks s) h k f next (inl e) = omega arith
resume-Settled limit attempts now deadline fuel rest (breaks s) h k f next (inr e) = omega arith
resume-Settled limit attempts now deadline fuel rest (returns s result) h k f next (inl e) =
    omega arith
resume-Settled limit attempts now deadline fuel rest (returns s result) h k f next (inr e) =
    omega arith
resume-Settled limit attempts now deadline fuel rest panics h k f next (inl e) = absurd e
resume-Settled limit attempts now deadline fuel rest panics h k f next (inr e) = absurd e

module _ {Location E : Type 0} (client : Client E) (job : Job Location) where
  fetch_loop-Settled :
      (limit : ℕ) (rounds : List (Round Location E)) (s : FetchState)
      → Numbered s.pool
      → All Keeps rounds
      → s.attempts ≤ limit
      → (limit - s.attempts) + (job.deadline - s.now) ≤ length rounds
      → Settled limit (fetch_loop client job limit rounds s)
  unfolding fetch_loop
  fetch_loop-Settled limit [] s n all h k = ground arith
  fetch_loop-Settled limit (round ∷ rounds) s n all h k =
      elim (Bool-cases (ltb s.attempts limit && ltb s.now job.deadline)) [
        | inr g ↦ rw g h
        | inl g ↦
            let lower : s.attempts < limit = ground arith in
            let early : s.now < job.deadline = ground arith in
            let advances = fetch_round-Advances client job limit s round (all.0 s.pool n) in
            rw g (
              resume-Settled limit s.attempts s.now job.deadline (length rounds) _ _ lower early k
                (λ t n' h' k'. fetch_loop-Settled limit rounds t n' all.1 h' k') advances)
      ]

  give_up-Returned :
      (s : FetchState) (flood : Option ℕ) (limit : ℕ)
      → s.attempts ≤ limit
      → Returned limit (give_up {E = E} s flood)
  give_up-Returned s none limit h = h
  give_up-Returned s (some secs) limit h = h

  on_primary_error-Returned :
      (s : FetchState) (e : E) (error : Text) (kind : ErrorKind)
      → s.attempts ≤ max_fetch_attempts
      → Returned max_fetch_attempts (on_primary_error s e error kind)
  unfolding on_primary_error
  on_primary_error-Returned s e error stale_file_reference h = h
  on_primary_error-Returned s e error network_error h = h
  on_primary_error-Returned s e error transfer h = h
  on_primary_error-Returned s e error unhandled h = h
  on_primary_error-Returned s e error (flood secs) h = h
  on_primary_error-Returned s e error (rpc name) h = h
  on_primary_error-Returned s e error (migration new_dc) h = h

  on_primary_reply-Returned :
      (s : FetchState) (reply : Option (Reply E))
      → s.attempts ≤ max_fetch_attempts
      → Returned max_fetch_attempts (on_primary_reply client s reply)
  unfolding on_primary_reply
  on_primary_reply-Returned s none h = h
  on_primary_reply-Returned s (some (file bytes)) h = h
  on_primary_reply-Returned s (some cdn_redirect) h = h
  on_primary_reply-Returned s (some (failed e)) h =
      on_primary_error-Returned s e (client.to_string e) (client.kind e) h

  count_fallback-attempts : (s : FetchState) → (count_fallback s).attempts ≡ s.attempts
  count_fallback-attempts s = ground arith

  primary_attempt-Returned :
      (round : Round Location E) (s : FetchState) (primary : WorkerInstance) (slot : Slot)
      → s.attempts < max_fetch_attempts
      → Returned max_fetch_attempts (primary_attempt client job round s primary slot)
  unfolding primary_attempt in_flight_guard
  primary_attempt-Returned round s primary closed h = omega arith
  primary_attempt-Returned round s primary slot_timeout h = omega arith
  primary_attempt-Returned round s primary permit h =
      elim (Bool-cases (in_time job.deadline (waited_for_slot job round s).now round.lock_wait)) [
        | inl l ↦
            let held =
              waited_for_lock job round
                (in_flight_guard entered primary true (waited_for_slot job round s)) in
            let e = count_fallback-attempts held in
            rw l (on_primary_reply-Returned _ _ (omega (arith, e)))
        | inr l ↦ rw l (omega arith)
      ]

  after_loop-Returned :
      (round : Round Location E) (s : FetchState) (primary : Option WorkerInstance)
      → s.attempts ≤ max_fetch_attempts
      → Returned max_fetch_attempts (after_loop client job round s primary)
  unfolding after_loop
  after_loop-Returned round s none h = give_up-Returned s s.last_flood_wait max_fetch_attempts h
  after_loop-Returned round s (some primary) h =
      elim (Bool-cases (
        not (is_some job.pinned_worker_id)
        && not s.primary_attempted
        && ltb s.attempts max_fetch_attempts
        && ltb s.now job.deadline)) [
          | inl g ↦
              rw g
                (primary_attempt-Returned round s primary (acquire job round s.now) (ground arith))
          | inr g ↦ rw g (give_up-Returned s s.last_flood_wait max_fetch_attempts h)
        ]

  worker_attempt_limit_bounds : (s : FetchState) → worker_attempt_limit job s ≤ max_fetch_attempts
  unfolding worker_attempt_limit
  worker_attempt_limit_bounds s = ground arith

  finish-Returned :
      (limit : ℕ) (last : Round Location E) (exit : Exit E)
      → limit ≤ max_fetch_attempts
      → Settled limit exit
      → Returned max_fetch_attempts (finish client job last exit)
  unfolding finish
  finish-Returned limit last (continues s) l h = h
  finish-Returned limit last (breaks s) l h =
      after_loop-Returned last s s.pool.primary_fallback (omega arith)
  finish-Returned limit last (returns s result) l h = omega arith
  finish-Returned limit last panics l h = h

  counted-Returned :
      (limit started : ℕ) (exit : Exit E)
      → Returned limit exit
      → (s : FetchState) × (result : Result Bytes (StreamError E)) × (counted started exit
          ≡ returns s result)
        × (s.attempts ≤ limit)
  counted-Returned limit started (continues s) h = absurd h
  counted-Returned limit started (breaks s) h = absurd h
  counted-Returned limit started (returns s result) h = (_, result, refl, h)
  counted-Returned limit started panics h = absurd h

  -- In a pool whose workers are numbered from 0, which the other tasks leave so, and with timers and
  -- sleeps that end at most `late` after their time, a fetch returns a chunk or an error: it never
  -- panics, makes at most 4 calls, goes through at most 4 rounds and one for each unit of time until
  -- the deadline, and returns by the deadline, or by its start if that is later, and `late`.
  pub fetch_chunk_until-returns :
      (rounds : List (Round Location E)) (last : Round Location E) (dc_id now late : ℕ)
      (pool : StreamWorkerPool)
      → Numbered pool
      → All Keeps rounds
      → All (IsPunctual late) (last ∷ rounds)
      → max_fetch_attempts + (job.deadline - now) ≤ length rounds
      → (s : FetchState) × (result : Result Bytes (StreamError E)) × (fetch_chunk_until client job
            rounds last dc_id now pool
          ≡ returns s result)
        × (s.attempts ≤ max_fetch_attempts)
        × (s.now ≤ (if leb now job.deadline then job.deadline else now) + late)
  unfolding fetch_chunk_until fetch_chunk_with_budget initial
  fetch_chunk_until-returns rounds last dc_id now late pool n all punctual h =
      let s = initial dc_id now pool in
      let limit = worker_attempt_limit job s in
      let low = worker_attempt_limit_bounds s in
      let settled = fetch_loop-Settled limit rounds s n all (omega arith) (omega (arith, low)) in
      let (t, result, e, few) =
        counted-Returned max_fetch_attempts now _ (finish-Returned limit last _ low settled) in
      let bound = (if leb now job.deadline then job.deadline else now) + late in
      let by =
        fetch_chunk_until-By client job late bound (ground arith) rounds last dc_id now pool
          punctual.1 punctual.0 (ground arith) in
      (t, result, e, few, returns-By bound _ t result e by)
