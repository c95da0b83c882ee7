-- ===== src/Stream/Fetch/Origin.antt =====
-- What `fetch_chunk_until` of crates/stream/src/worker_pool.rs returns is what some client answered to a
-- request for that part of the file.
use peerless_server.Prelude.{
  ℕ, ◌≡◌, refl, ◌⊎◌, inl, inr, Bool, true, false, if◌then◌else◌, err, not, ◌&&◌, List, [], ◌∷◌,
  Option, none, some, ltb, Result, Bool-cases, arith,
}
use peerless_server.Stream.Pipe.{Bytes}
use peerless_server.Stream.Pool.{WorkerInstance, StreamWorkerPool}
use peerless_server.Stream.Fetch.{
  Client, StreamError, flood_wait_error, Slot, permit, closed, slot_timeout, Round, Job, FetchState,
  Exit, continues, breaks, returns, panics, Choice, chosen, wait, unavailable, out_of_bounds,
  choose, choose_pinned, worker_by_id, with_id, find_worker, or_worker, max_fetch_attempts, in_time,
  acquire,
}
use peerless_server.Stream.Fetch.Step.{fetch_round, on_choice, on_slot, request_of, waited_for_slot}
use peerless_server.Stream.Fetch.Loop.{
  fetch_loop, resume, give_up, primary_attempt, after_loop, finish, worker_attempt_limit,
  fetch_chunk_with_budget, fetch_chunk_until, counted, initial, is_some,
}
use peerless_server.Stream.Fetch.Served.{
  Pinned, Stands, Recalls, answer-reply, StandsIn, sleep_then-StandsIn, on_primary_reply-StandsIn,
  attempt-StandsIn,
}

abbrev IsAsked : Option ℕ → Choice → Type 0
IsAsked pinned (chosen worker is_primary) = Pinned pinned worker.id
IsAsked pinned (wait delay) = Unit
IsAsked pinned unavailable = Unit
IsAsked pinned out_of_bounds = Unit

abbrev HasId : ℕ → Option WorkerInstance → Type 0
HasId worker_id none = Unit
HasId worker_id (some worker) = worker.id ≡ worker_id

with_id-HasId :
    (worker_id : ℕ) (worker : Option WorkerInstance) → HasId worker_id (with_id worker_id worker)
with_id-HasId worker_id none = tt
with_id-HasId worker_id (some worker) = ground arith

or_worker-HasId :
    (worker_id : ℕ) (a b : Option WorkerInstance)
    → HasId worker_id a
    → HasId worker_id b
    → HasId worker_id (or_worker a b)
or_worker-HasId worker_id none b h k = k
or_worker-HasId worker_id (some a) b h k = h

find_worker-HasId :
    (worker_id : ℕ) (workers : List WorkerInstance)
    → HasId worker_id (find_worker worker_id workers)
find_worker-HasId worker_id [] = tt
find_worker-HasId worker_id (worker ∷ workers) =
    or_worker-HasId worker_id (with_id worker_id (some worker)) (find_worker worker_id workers)
      (with_id-HasId worker_id (some worker)) (find_worker-HasId worker_id workers)

worker_by_id-HasId :
    (pool : StreamWorkerPool) (worker_id : ℕ) → HasId worker_id (worker_by_id pool worker_id)
unfolding worker_by_id
worker_by_id-HasId pool worker_id =
    or_worker-HasId worker_id (find_worker worker_id pool.workers)
      (with_id worker_id pool.primary_fallback) (find_worker-HasId worker_id pool.workers)
      (with_id-HasId worker_id pool.primary_fallback)

choose_pinned-IsAsked :
    (now : ℕ) (pool : StreamWorkerPool) (worker_id : ℕ) (found : Option WorkerInstance)
    → HasId worker_id found
    → IsAsked (some worker_id) (choose_pinned now pool worker_id found)
choose_pinned-IsAsked now pool worker_id none h = tt
choose_pinned-IsAsked now pool worker_id (some worker) h = ground arith

IsAsked-none : (choice : Choice) → IsAsked none choice
IsAsked-none (chosen worker is_primary) = tt
IsAsked-none (wait delay) = tt
IsAsked-none unavailable = tt
IsAsked-none out_of_bounds = tt

choose-IsAsked :
    (pinned : Option ℕ) (now : ℕ) (primary_attempted : Bool) (pool : StreamWorkerPool)
    → IsAsked pinned (choose pinned now primary_attempted pool).1
unfolding choose
choose-IsAsked none now primary_attempted pool = IsAsked-none _
choose-IsAsked (some worker_id) now primary_attempted pool =
    choose_pinned-IsAsked now pool worker_id (worker_by_id pool worker_id)
      (worker_by_id-HasId pool worker_id)

-- Some round has the reply that a result stands for.
abbrev pub StandsInAny :
    {Location E : Type 0}
    → Client E
    → Job Location
    → List (Round Location E)
    → Result Bytes (StreamError E)
    → Type 0
StandsInAny client job [] result = ⊥
StandsInAny client job (round ∷ rounds) result =
    Stands client job round result ⊎ StandsInAny client job rounds result

module _ {Location E : Type 0} (client : Client E) (job : Job Location) where
  on_choice-StandsIn :
      (limit : ℕ) (round : Round Location E) (s : FetchState) (choice : Choice)
      → IsAsked job.pinned_worker_id choice
      → StandsIn client job s.last_flood_wait round (on_choice client job round limit s choice)
  unfolding on_choice
  on_choice-StandsIn limit round s (chosen worker is_primary) h =
      attempt-StandsIn client job s.last_flood_wait round limit worker is_primary s h
        (λ secs e. inl e)
  on_choice-StandsIn limit round s (wait delay) h =
      sleep_then-StandsIn client job s.last_flood_wait round delay s (λ slept. slept) (λ t. refl)
        (λ secs e. inl e)
  on_choice-StandsIn limit round s unavailable h = tt
  on_choice-StandsIn limit round s out_of_bounds h = tt

  on_slot-StandsIn :
      (limit : ℕ) (round : Round Location E) (s : FetchState) (slot : Slot)
      → StandsIn client job s.last_flood_wait round (on_slot client job round limit s slot)
  unfolding on_slot
  on_slot-StandsIn limit round s closed = tt
  on_slot-StandsIn limit round s slot_timeout = λ secs e. inl e
  on_slot-StandsIn limit round s permit =
      let t = waited_for_slot job round s in
      let asked = choose-IsAsked job.pinned_worker_id t.now t.primary_attempted t.pool in
      on_choice-StandsIn limit round _ _ asked

  fetch_round-StandsIn :
      (limit : ℕ) (round : Round Location E) (s : FetchState)
      → StandsIn client job s.last_flood_wait round (fetch_round client job limit s round)
  unfolding fetch_round
  fetch_round-StandsIn limit round s = on_slot-StandsIn limit round s (acquire job round s.now)

  -- The flood wait that the loop started with, or one of its replies.
  abbrev RecallsAny : Option ℕ → List (Round Location E) → Option ℕ → Type 0
  RecallsAny old rounds last_wait =
      (secs : ℕ)
      → last_wait ≡ some secs
      → (old ≡ some secs) ⊎ StandsInAny client job rounds (err (flood_wait_error secs))

  -- Where a loop that returned got its result, and the flood wait of one that did not.
  abbrev StandsInLoop : Option ℕ → List (Round Location E) → Exit E → Type 0
  StandsInLoop old rounds (continues s) = RecallsAny old rounds s.last_flood_wait
  StandsInLoop old rounds (breaks s) = RecallsAny old rounds s.last_flood_wait
  StandsInLoop old rounds (returns s result) = StandsInAny client job rounds result
  StandsInLoop old rounds panics = Unit

  later-RecallsAny :
      (old middle new : Option ℕ) (round : Round Location E) (rounds : List (Round Location E))
      → Recalls client job old round middle
      → RecallsAny middle rounds new
      → RecallsAny old (round ∷ rounds) new
  later-RecallsAny old middle new round rounds first rest secs e = elim (rest secs e) [
    | inr later ↦ inr (inr later)
    | inl same ↦ elim (first secs same) [ inl start ↦ inl start | inr own ↦ inr (inl own) ]
  ]

  later-StandsInLoop :
      (old middle : Option ℕ) (round : Round Location E) (rounds : List (Round Location E))
      (exit : Exit E)
      → Recalls client job old round middle
      → StandsInLoop middle rounds exit
      → StandsInLoop old (round ∷ rounds) exit
  later-StandsInLoop old middle round rounds (continues s) first h =
      later-RecallsAny old middle s.last_flood_wait round rounds first h
  later-StandsInLoop old middle round rounds (breaks s) first h =
      later-RecallsAny old middle s.last_flood_wait round rounds first h
  later-StandsInLoop old middle round rounds (returns s result) first h = inr h
  later-StandsInLoop old middle round rounds panics first h = tt

  resume-StandsInLoop :
      (old : Option ℕ) (round : Round Location E) (rounds : List (Round Location E))
      (rest : FetchState → Exit E) (exit : Exit E)
      → ((s : FetchState) → StandsInLoop s.last_flood_wait rounds (rest s))
      → StandsIn client job old round exit
      → StandsInLoop old (round ∷ rounds) (resume rest exit)
  resume-StandsInLoop old round rounds rest (continues s) next h =
      later-StandsInLoop old s.last_flood_wait round rounds (rest s) h (next s)
  resume-StandsInLoop old round rounds rest (breaks s) next h =
      λ secs e. elim (h secs e) [ inl start ↦ inl start | inr own ↦ inr (inl own) ]
  resume-StandsInLoop old round rounds rest (returns s result) next h = inl h
  resume-StandsInLoop old round rounds rest panics next h = tt

  if-StandsInLoop :
      (old : Option ℕ) (rounds : List (Round Location E)) (test : Bool) (a b : Exit E)
      → StandsInLoop old rounds a
      → StandsInLoop old rounds b
      → StandsInLoop old rounds (if test then a else b)
  if-StandsInLoop old rounds true a b h k = h
  if-StandsInLoop old rounds false a b h k = k

  fetch_loop-StandsInLoop :
      (limit : ℕ) (rounds : List (Round Location E)) (s : FetchState)
      → StandsInLoop s.last_flood_wait rounds (fetch_loop client job limit rounds s)
  unfolding fetch_loop
  fetch_loop-StandsInLoop limit [] s =
      if-StandsInLoop s.last_flood_wait [] _ (continues s) (breaks s) (λ secs e. inl e)
        (λ secs e. inl e)
  fetch_loop-StandsInLoop limit (round ∷ rounds) s =
      if-StandsInLoop s.last_flood_wait (round ∷ rounds)
        (ltb s.attempts limit && ltb s.now job.deadline) _ (breaks s)
        (resume-StandsInLoop s.last_flood_wait round rounds
          (λ t. fetch_loop client job limit rounds t) _
          (λ t. fetch_loop-StandsInLoop limit rounds t) (fetch_round-StandsIn limit round s))
        (λ secs e. inl e)

  -- Where a fetch that returned got its result.
  abbrev StandsInEnd : List (Round Location E) → Exit E → Type 0
  StandsInEnd rounds (continues s) = Unit
  StandsInEnd rounds (breaks s) = Unit
  StandsInEnd rounds (returns s result) = StandsInAny client job rounds result
  StandsInEnd rounds panics = Unit

  give_up-StandsInEnd :
      (last : Round Location E) (rounds : List (Round Location E)) (s : FetchState)
      (last_wait : Option ℕ)
      → RecallsAny none rounds last_wait
      → StandsInEnd (last ∷ rounds) (give_up s last_wait)
  give_up-StandsInEnd last rounds s none h = inl tt
  give_up-StandsInEnd last rounds s (some secs) h = elim (h secs refl) [
    | inl e ↦ cc
    | inr stands ↦ inr stands
  ]

  primary_attempt-StandsIn :
      (round : Round Location E) (s : FetchState) (primary : WorkerInstance) (slot : Slot)
      → Pinned job.pinned_worker_id primary.id
      → StandsIn client job none round (primary_attempt client job round s primary slot)
  unfolding primary_attempt
  primary_attempt-StandsIn round s primary closed h = tt
  primary_attempt-StandsIn round s primary slot_timeout h = tt
  primary_attempt-StandsIn round s primary permit h =
      elim (Bool-cases (in_time job.deadline (waited_for_slot job round s).now round.lock_wait)) [
        | inl l ↦ rw l (
            on_primary_reply-StandsIn client job none round (request_of job primary s)
              (refl, refl, refl, h) _ _ (answer-reply job round _ (request_of job primary s)))
        | inr l ↦ rw l tt
      ]

  unpinned : (pinned : Option ℕ) (id : ℕ) → is_some pinned ≡ false → Pinned pinned id
  unpinned none id h = tt
  unpinned (some pinned) id h = cc

  last-StandsInEnd :
      (last : Round Location E) (rounds : List (Round Location E)) (exit : Exit E)
      → StandsIn client job none last exit
      → StandsInEnd (last ∷ rounds) exit
  last-StandsInEnd last rounds (continues s) h = tt
  last-StandsInEnd last rounds (breaks s) h = tt
  last-StandsInEnd last rounds (returns s result) h = inl h
  last-StandsInEnd last rounds panics h = tt

  after_loop-StandsInEnd :
      (last : Round Location E) (rounds : List (Round Location E)) (s : FetchState)
      (primary : Option WorkerInstance)
      → RecallsAny none rounds s.last_flood_wait
      → StandsInEnd (last ∷ rounds) (after_loop client job last s primary)
  unfolding after_loop
  after_loop-StandsInEnd last rounds s none h =
      give_up-StandsInEnd last rounds s s.last_flood_wait h
  after_loop-StandsInEnd last rounds s (some primary) h =
      elim (Bool-cases (
        not (is_some job.pinned_worker_id)
        && not s.primary_attempted
        && ltb s.attempts max_fetch_attempts
        && ltb s.now job.deadline)) [
          | inl g ↦
              let free = unpinned job.pinned_worker_id primary.id (ground arith) in
              rw g (
                last-StandsInEnd last rounds _
                  (primary_attempt-StandsIn last s primary (acquire job last s.now) free))
          | inr g ↦ rw g (give_up-StandsInEnd last rounds s s.last_flood_wait h)
        ]

  finish-StandsInEnd :
      (last : Round Location E) (rounds : List (Round Location E)) (exit : Exit E)
      → StandsInLoop none rounds exit
      → StandsInEnd (last ∷ rounds) (finish client job last exit)
  unfolding finish
  finish-StandsInEnd last rounds (continues s) h = tt
  finish-StandsInEnd last rounds (breaks s) h =
      after_loop-StandsInEnd last rounds s s.pool.primary_fallback h
  finish-StandsInEnd last rounds (returns s result) h = inr h
  finish-StandsInEnd last rounds panics h = tt

  counted-StandsInEnd :
      (rounds : List (Round Location E)) (started : ℕ) (exit : Exit E) (s : FetchState)
      (result : Result Bytes (StreamError E))
      → StandsInEnd rounds exit
      → counted started exit ≡ returns s result
      → StandsInAny client job rounds result
  counted-StandsInEnd rounds started (continues t) s result h e = cc
  counted-StandsInEnd rounds started (breaks t) s result h e = cc
  counted-StandsInEnd rounds started (returns t found) s result h e =
      let same : found ≡ result = cc in rw same at h
  counted-StandsInEnd rounds started panics s result h e = cc

  -- A chunk that a fetch returns is the bytes of a client's reply to a request for that location, offset
  -- and limit, sent to the worker that the caller asked for if it asked for one. An expired reference, a
  -- flood wait with its seconds, an error of Telegram and a CDN redirect are such replies too; nothing is
  -- said of the lack of a worker and of a failure with a summary.
  pub fetch_chunk_until-StandsInAny :
      (rounds : List (Round Location E)) (last : Round Location E) (dc_id now : ℕ)
      (pool : StreamWorkerPool) (s : FetchState) (result : Result Bytes (StreamError E))
      → fetch_chunk_until client job rounds last dc_id now pool ≡ returns s result
      → StandsInAny client job (last ∷ rounds) result
  unfolding fetch_chunk_until fetch_chunk_with_budget initial
  fetch_chunk_until-StandsInAny rounds last dc_id now pool s result e =
      let start = initial dc_id now pool in
      let loop = fetch_loop-StandsInLoop (worker_attempt_limit job start) rounds start in
      let done = finish-StandsInEnd last rounds _ loop in
      counted-StandsInEnd (last ∷ rounds) now _ s result done e
