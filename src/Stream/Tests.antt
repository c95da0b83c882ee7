-- ===== src/Stream/Tests.antt =====
-- The theorems on crates/stream at concrete inputs.
use peerless_server.Prelude.{
  ℕ, ◌≡◌, refl, true, false, List, [], ◌∷◌, none, ok, err, text, arith, leb, ◌*◌, max,
}
use peerless_server.Stream.Breaker.{CircuitBreaker, new, is_available}
use peerless_server.Stream.Breaker.History.{
  Event, quarantines, succeeds, replay, blocked_until, is_available-replay,
}
use peerless_server.Stream.Metrics.{default, network, timeout}
use peerless_server.Stream.Metrics.Updates.{Update, retry, chunk_fetch, first_chunk}
use peerless_server.Stream.Pool.{WorkerInstance, StreamWorkerPool, pick_least_loaded}
use peerless_server.Stream.Pool.Load.{Picked, pick_least_loaded-Picked}
use peerless_server.Stream.Range.{ByteRange, parse}
use peerless_server.Stream.Range.RoundTrip.{closed, header, resolve, parse-resolve}
use peerless_server.Stream.Pipe.{Bytes, World, chunk_size, finished, fetch_failed}
use peerless_server.Stream.Pipe.Slices.{chunk_of}
use peerless_server.Stream.Pipe.Delivery.{
  EndsWith, create_stream_pipe_delivers, create_stream_pipe_fails,
}

abbrev history : List Event
history = quarantines 10 1 5 ∷ succeeds 0 ∷ quarantines 12 1 8 ∷ []

abbrev breaker : CircuitBreaker
breaker = replay (new 2) history

is_available-replay_example :
    is_available (replay (new 2) history) 19 1 ≡ leb (blocked_until 1 0 history) 19
is_available-replay_example = is_available-replay 2 history 1 19 (omega arith)

abbrev updates : List Update
updates =
    retry network
    ∷ chunk_fetch 3000 true
    ∷ retry timeout
    ∷ first_chunk 7000
    ∷ chunk_fetch 9000 false
    ∷ []

parse-resolve_example : parse (header (closed 2 90)) 50 ≡ resolve (closed 2 90) 50
parse-resolve_example = parse-resolve (closed 2 90) 50 (omega arith, omega arith)

abbrev range : ByteRange
range = record { start = 1; end = 3 }

parsed : parse (text "bytes=1-3") 5 ≡ ok range
unfolding parse
parsed = refl

abbrev file : Bytes
file = 10 ∷ 11 ∷ 12 ∷ 13 ∷ 14 ∷ []

abbrev served : World ℕ
served = record {
  fetched = λ j. ok (chunk_of file j);
  is_closed = λ j. false;
  send_fails = λ j. false;
  elapsed = λ j. 7;
}

create_stream_pipe_delivers_example : EndsWith served range file default finished [] 4
create_stream_pipe_delivers_example =
    create_stream_pipe_delivers served range file default (omega arith) (omega arith)
      (λ j h k. (refl, refl, refl))

abbrev broken : World ℕ
broken = record {
  fetched = λ j. err 404;
  is_closed = λ j. false;
  send_fails = λ j. false;
  elapsed = λ j. 7;
}

create_stream_pipe_fails_example :
    EndsWith broken range file default fetch_failed
      (err (record { chunk_idx = 0; cause = 404 }) ∷ [])
      (max 1 (0 * chunk_size))
create_stream_pipe_fails_example =
    create_stream_pipe_fails broken range file default 0 404 (omega arith) (omega arith)
      (unfold chunk_size in omega arith) (omega arith) refl refl refl
      (λ j h k. absurd (omega arith))

abbrev worker : ℕ → ℕ → WorkerInstance
worker id in_flight = record {
  id = id;
  in_flight = in_flight;
  home_dc = 2;
  slow_until = none;
  upload_slot = id;
}

abbrev pool : StreamWorkerPool
pool = record {
  workers = worker 0 4 ∷ worker 1 2 ∷ [];
  circuit_breaker = breaker;
  rr_cursor = 5;
  primary_fallback = none;
  metrics = default;
}

pick_least_loaded-Picked_example : Picked 30 pool (pick_least_loaded 30 pool).1
pick_least_loaded-Picked_example = pick_least_loaded-Picked 30 pool
