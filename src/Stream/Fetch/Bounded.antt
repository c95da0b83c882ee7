-- ===== src/Stream/Fetch/Bounded.antt =====
-- When `fetch_chunk_until` of crates/stream/src/worker_pool.rs ends.
use peerless_server.Prelude.{
  ℕ, ◌+◌, ◌≤◌, ◌<◌, ◌≡◌, refl, inl, inr, not, ◌&&◌, List, [], ◌∷◌, Option, none, some, ltb,
  Bool-cases, All, arith, Result,
}
use peerless_server.Stream.Pipe.{Bytes}
use peerless_server.Stream.Pool.{WorkerInstance, StreamWorkerPool}
use peerless_server.Stream.Fetch.{
  Client, StreamError, Round, Job, FetchState, Exit, continues, breaks, returns, panics, acquire,
  max_fetch_attempts,
}
use peerless_server.Stream.Fetch.Loop.{
  resume, fetch_loop, after_loop, finish, worker_attempt_limit, fetch_chunk_with_budget,
  fetch_chunk_until, counted, initial, is_some,
}
use peerless_server.Stream.Fetch.Punctual.{
  IsPunctual, By, fetch_round-By, give_up-By, primary_attempt-By,
}

weaken-By : {E : Type 0} (m n : ℕ) (exit : Exit E) → m ≤ n → By m exit → By n exit
weaken-By m n (continues s) l h = omega (arith, l, h)
weaken-By m n (breaks s) l h = omega (arith, l, h)
weaken-By m n (returns s result) l h = omega (arith, l, h)
weaken-By m n panics l h = tt

resume-By :
    {E : Type 0} (bound : ℕ) (rest : FetchState → Exit E) (exit : Exit E)
    → ((s : FetchState) → s.now ≤ bound → By bound (rest s))
    → By bound exit
    → By bound (resume rest exit)
resume-By bound rest (continues s) next h = next s h
resume-By bound rest (breaks s) next h = h
resume-By bound rest (returns s result) next h = h
resume-By bound rest panics next h = tt

counted-By :
    {E : Type 0} (bound started : ℕ) (exit : Exit E)
    → By bound exit
    → By bound (counted started exit)
counted-By bound started (continues s) h = h
counted-By bound started (breaks s) h = h
counted-By bound started (returns s result) h = h
counted-By bound started panics h = tt

module _ {Location E : Type 0} (client : Client E) (job : Job Location) (late bound : ℕ)
    (enough : job.deadline + late ≤ bound) where
  fetch_loop-By :
      (limit : ℕ) (rounds : List (Round Location E)) (s : FetchState)
      → All (IsPunctual late) rounds
      → s.now ≤ bound
      → By bound (fetch_loop client job limit rounds s)
  unfolding fetch_loop
  fetch_loop-By limit [] s all h = ground arith
  fetch_loop-By limit (round ∷ rounds) s all h =
      elim (Bool-cases (ltb s.attempts limit && ltb s.now job.deadline)) [
        | inr g ↦ rw g h
        | inl g ↦
            let early : s.now < job.deadline = ground arith in
            let done = fetch_round-By job round late all.0 client limit s (omega (arith, early)) in
            rw g (
              resume-By bound _ _ (λ t k. fetch_loop-By limit rounds t all.1 k)
                (weaken-By (job.deadline + late) bound _ enough done))
      ]

  after_loop-By :
      (round : Round Location E) (s : FetchState) (primary : Option WorkerInstance)
      → IsPunctual late round
      → s.now ≤ bound
      → By bound (after_loop client job round s primary)
  unfolding after_loop
  after_loop-By round s none punctual h =
      give_up-By job round late punctual bound s s.last_flood_wait h
  after_loop-By round s (some primary) punctual h =
      elim (Bool-cases (
        not (is_some job.pinned_worker_id)
        && not s.primary_attempted
        && ltb s.attempts max_fetch_attempts
        && ltb s.now job.deadline)) [
          | inl g ↦
              let early : s.now < job.deadline = ground arith in
              rw g (
                weaken-By (job.deadline + late) bound _ enough (
                  primary_attempt-By job round late punctual client s primary
                    (acquire job round s.now) refl (omega (arith, early))))
          | inr g ↦ rw g (give_up-By job round late punctual bound s s.last_flood_wait h)
        ]

  finish-By :
      (last : Round Location E) (exit : Exit E)
      → IsPunctual late last
      → By bound exit
      → By bound (finish client job last exit)
  unfolding finish
  finish-By last (continues s) punctual h = h
  finish-By last (breaks s) punctual h = after_loop-By last s s.pool.primary_fallback punctual h
  finish-By last (returns s result) punctual h = h
  finish-By last panics punctual h = tt

  -- A fetch ends by every instant that is no earlier than its start, and no earlier than the deadline
  -- and as much more as its timers are late.
  pub fetch_chunk_until-By :
      (rounds : List (Round Location E)) (last : Round Location E) (dc_id now : ℕ)
      (pool : StreamWorkerPool)
      → All (IsPunctual late) rounds
      → IsPunctual late last
      → now ≤ bound
      → By bound (fetch_chunk_until client job rounds last dc_id now pool)
  unfolding fetch_chunk_until fetch_chunk_with_budget initial
  fetch_chunk_until-By rounds last dc_id now pool all punctual h =
      let s = initial dc_id now pool in
      counted-By bound now _
        (finish-By last _ punctual (fetch_loop-By (worker_attempt_limit job s) rounds s all h))

pub returns-By :
    {E : Type 0} (bound : ℕ) (exit : Exit E) (s : FetchState)
    (result : Result Bytes (StreamError E))
    → exit ≡ returns s result
    → By bound exit
    → s.now ≤ bound
returns-By bound exit s result e h = rw e at h
