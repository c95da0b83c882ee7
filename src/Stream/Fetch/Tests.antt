-- ===== src/Stream/Fetch/Tests.antt =====
-- Fetches of a small file by a pool of two workers: the theorems at concrete inputs.
use peerless_server.Prelude.{
  leb, ◌+◌, ℕ, zero, suc, ◌*◌, ◌≤◌, ◌≡◌, refl, sym, ◌==◌, if◌then◌else◌, false, List, [], ◌∷◌,
  Option, none, some, Result, ok, take, drop, text, arith, All, replicate,
}
use peerless_server.Stream.Breaker.{new, is_available, available_count, quarantine}
use peerless_server.Stream.Metrics.{default}
use peerless_server.Stream.Range.{ByteRange}
use peerless_server.Stream.Pipe.{Bytes, World, chunk_size, finished}
use peerless_server.Stream.Pipe.Delivery.{EndsWith}
use peerless_server.Stream.Pool.{WorkerInstance, StreamWorkerPool}
use peerless_server.Stream.Fetch.{
  ErrorKind, stale_file_reference, flood, Client, StreamError, Reply, file, failed, Request, Round,
  Job, FetchState, Exit, continues, breaks, returns, panics, max_fetch_attempts, choose,
  worker_by_id, acquire, answer, ended_at,
}
use peerless_server.Stream.Fetch.Step.{
  fetch_round, on_slot, on_choice, attempt, on_reply, on_error, in_flight_guard,
}
use peerless_server.Stream.Fetch.Loop.{
  fetch_loop, worker_attempt_limit, initial, finish, fetch_chunk_with_budget, fetch_chunk_until,
}
use peerless_server.Stream.Fetch.Flights.{SameFlights, Leaves, AllCounted}
use peerless_server.Stream.Fetch.Balance.{fetch_chunk_until-SameFlights}
use peerless_server.Stream.Fetch.Punctual.{IsPunctual}
use peerless_server.Stream.Fetch.Deadline.{Keeps, fetch_chunk_until-returns}
use peerless_server.Stream.Fetch.Origin.{StandsInAny, fetch_chunk_until-StandsInAny}
use peerless_server.Stream.Fetch.Refresh.{
  Rounds, Refresher, fetch_chunk_with_refresh, after_fetch, on_expired, on_refreshed,
}
use peerless_server.Stream.Fetch.Refresh.Source.{
  Honest, Run, HonestRun, create_stream_pipe-fetch_chunk_with_refresh,
}

abbrev worker : ℕ → WorkerInstance
worker id = record { id = id; in_flight = 0; home_dc = 2; slow_until = none; upload_slot = id }

abbrev pool : StreamWorkerPool
pool = record {
  workers = worker 0 ∷ worker 1 ∷ [];
  circuit_breaker = new 2;
  rr_cursor = 0;
  primary_fallback = none;
  metrics = default;
}

-- An error is the number of its seconds; 0 stands for an expired reference.
abbrev kind_of : ℕ → ErrorKind
kind_of secs = if secs == 0 then stale_file_reference else flood secs

abbrev client : Client ℕ
client = record { kind = kind_of; to_string = λ e. text "FLOOD_WAIT" }

abbrev content : Bytes
content = 10 ∷ 11 ∷ 12 ∷ 13 ∷ 14 ∷ []

abbrev answering : (Request ℕ → Reply ℕ) → Round ℕ ℕ
answering reply = record {
  others = λ p. p;
  rpc_slots_closed = false;
  slot_wait = 1;
  lock_wait = 1;
  reply = reply;
  reply_time = 2;
  lateness = 1;
  random = 5;
  oversleep = 3;
}

abbrev serving : Round ℕ ℕ
serving = answering (λ request. file (take request.limit (drop request.offset content)))

abbrev flooded : Round ℕ ℕ
flooded = answering (λ request. failed 3)

abbrev expired : Round ℕ ℕ
expired = answering (λ request. failed 0)

abbrev job : Job ℕ
job = record { location = 7; offset = 1; limit = 2; deadline = 20; pinned_worker_id = none }

abbrev rounds : List (Round ℕ ℕ)
rounds = flooded ∷ replicate 23 serving

abbrev state_of : Exit ℕ → FetchState
state_of (continues s) = s
state_of (breaks s) = s
state_of (returns s result) = s
state_of panics = initial 0 0 pool

fetched :
    fetch_chunk_until client job rounds serving 2 0 pool
    ≡ returns (state_of (fetch_chunk_until client job rounds serving 2 0 pool)) (ok (11 ∷ 12 ∷ []))
unfolding fetch_chunk_until fetch_chunk_with_budget initial worker_attempt_limit fetch_loop finish
    fetch_round on_slot choose on_choice attempt on_reply in_flight_guard on_error is_available new
    acquire answer ended_at available_count quarantine
fetched = refl

All-replicate :
    (P : Round ℕ ℕ → Type 0) (n : ℕ) (round : Round ℕ ℕ) → P round → All P (replicate n round)
All-replicate P zero round h = tt
All-replicate P (suc n) round h = (h, All-replicate P n round h)

rounds-Keeps : All Keeps rounds
rounds-Keeps = ((λ p n. n), All-replicate Keeps 23 serving (λ p n. n))

rounds-Leaves : All Leaves rounds
rounds-Leaves = ((λ p. (refl, refl)), All-replicate Leaves 23 serving (λ p. (refl, refl)))

pool-AllCounted : AllCounted pool
pool-AllCounted = ((omega arith, (omega arith, tt)), λ primary h. cc)

rounds-IsPunctual : All (IsPunctual 3) (serving ∷ rounds)
rounds-IsPunctual =
    let now : IsPunctual 3 serving = (omega arith, omega arith) in
    (now, ((omega arith, omega arith), All-replicate (IsPunctual 3) 23 serving now))

fetch_chunk_until-returns_example :
    (s : FetchState) × (result : Result Bytes (StreamError ℕ)) × (fetch_chunk_until client job
        rounds serving 2 0 pool
      ≡ returns s result)
    × (s.attempts ≤ max_fetch_attempts)
    × (s.now ≤ (if leb 0 20 then 20 else 0) + 3)
fetch_chunk_until-returns_example =
    fetch_chunk_until-returns client job rounds serving 2 0 3 pool (refl, (refl, tt)) rounds-Keeps
      rounds-IsPunctual (omega arith)

fetch_chunk_until-StandsInAny_example :
    StandsInAny client job (serving ∷ rounds) (ok (11 ∷ 12 ∷ []))
fetch_chunk_until-StandsInAny_example =
    fetch_chunk_until-StandsInAny client job rounds serving 2 0 pool
      (state_of (fetch_chunk_until client job rounds serving 2 0 pool)) (ok (11 ∷ 12 ∷ [])) fetched

-- The reference 7 has expired; the refresher gives 8.
abbrev stale : Rounds ℕ ℕ
stale = record { rounds = expired ∷ []; last = expired }

abbrev fresh : Rounds ℕ ℕ
fresh = record { rounds = serving ∷ []; last = serving }

abbrev refresher : Option (Refresher ℕ ℕ)
refresher = some (record { answer = some (ok 8); refresh_time = 4 })

abbrev refreshed : Exit ℕ
refreshed = (fetch_chunk_with_refresh client 1 0 stale refresher fresh 7 2 0 pool).1

refreshed-content : refreshed ≡ returns (state_of refreshed) (ok content)
unfolding fetch_chunk_with_refresh after_fetch on_expired on_refreshed fetch_chunk_until
    fetch_chunk_with_budget initial worker_attempt_limit fetch_loop finish fetch_round on_slot
    choose on_choice attempt on_reply in_flight_guard on_error acquire answer ended_at is_available
    new available_count quarantine worker_by_id chunk_size
refreshed-content = refl

abbrev run : Run ℕ ℕ
run = record {
  first = stale;
  refresher = refresher;
  again = fresh;
  location = 7;
  dc_id = 2;
  now = 0;
  pool = pool;
}

abbrev world : World (StreamError ℕ)
world = record {
  fetched = λ j. ok (take chunk_size (drop (j * chunk_size) content));
  is_closed = λ j. false;
  send_fails = λ j. false;
  elapsed = λ j. 7;
}

abbrev range : ByteRange
range = record { start = 1; end = 3 }

abbrev run_of : ℕ → Exit ℕ
run_of j = (fetch_chunk_with_refresh client 1 j stale refresher fresh 7 2 0 pool).1

run_of-chunk :
    (j : ℕ)
    → run_of j
      ≡ returns (state_of (run_of j)) (ok (take chunk_size (drop (j * chunk_size) content)))
unfolding fetch_chunk_with_refresh after_fetch on_expired on_refreshed fetch_chunk_until
    fetch_chunk_with_budget initial worker_attempt_limit fetch_loop finish fetch_round on_slot
    choose on_choice attempt on_reply in_flight_guard on_error acquire answer ended_at is_available
    new available_count quarantine worker_by_id
run_of-chunk j = refl

serving-Honest : Honest content serving
serving-Honest request bytes e =
    let same : take request.limit (drop request.offset content) ≡ bytes = cc in sym same

expired-Honest : Honest content expired
expired-Honest request bytes e = cc

run-HonestRun : HonestRun client 1 content run
run-HonestRun = ((expired-Honest, (expired-Honest, tt)), (serving-Honest, (serving-Honest, tt)))

create_stream_pipe-fetch_chunk_with_refresh_example :
    EndsWith world range content default finished [] 4
create_stream_pipe-fetch_chunk_with_refresh_example =
    create_stream_pipe-fetch_chunk_with_refresh client 1 content world range default (λ j. run)
      (omega arith) (omega arith) (λ j. run-HonestRun)
      (λ j p q. (_, _, refl, refl, refl, run_of-chunk j))

fetch_chunk_until-SameFlights_example :
    SameFlights pool (state_of (fetch_chunk_until client job rounds serving 2 0 pool)).pool
fetch_chunk_until-SameFlights_example =
    fetch_chunk_until-SameFlights client job rounds serving 2 0 pool
      (state_of (fetch_chunk_until client job rounds serving 2 0 pool)) (ok (11 ∷ 12 ∷ []))
      pool-AllCounted rounds-Leaves (λ p. (refl, refl)) fetched
