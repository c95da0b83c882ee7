-- ===== src/Stream/Pipe.antt =====
-- `create_stream_pipe` of crates/stream/src/pipe.rs: the spawned task that turns a byte range into
-- chunk fetches, cuts the chunks and sends them down a channel. Arithmetic on 64 bits does not wrap
-- here, since every product `chunk_idx * chunk_size` is at most `range.end`.
--
-- What the task does not decide itself is the parameter `world`: the result of each chunk's fetch,
-- whether the receiver is gone at that moment, whether the send fails, and the time since the start.
pub mod Slices
pub mod Sequential
pub mod Delivery
use peerless_server.Prelude.{
  ℕ, zero, suc, ◌+◌, ◌-◌, ◌*◌, ◌/◌, Bool, true, false, not, ◌&&◌, ◌||◌, List, [], ◌∷◌, ◌++◌, Option,
  none, some, ltb, leb, ◌==◌, if◌then◌else◌, Result, ok, err, min, length, take, drop,
}
use peerless_server.Stream.Range.{ByteRange}
use peerless_server.Stream.Metrics.{
  StreamMetrics, record_stream_started, record_bytes_enqueued, record_first_chunk,
}

-- `CHUNK_SIZE` of crates/stream/src/cache.rs.
unfoldable pub chunk_size : ℕ
chunk_size = 512 * 1024

abbrev pub stream_prefetch_chunks : ℕ
stream_prefetch_chunks = 2

abbrev pub Bytes : Type 0
Bytes = List ℕ

-- The error of a chunk, under the chunk that could not be fetched.
pub record IoError (E : Type 0) : Type 0 where
  pub chunk_idx : ℕ
  pub cause : E

pub record World (E : Type 0) : Type 0 where
  pub fetched : ℕ → Result Bytes E
  pub is_closed : ℕ → Bool
  pub send_fails : ℕ → Bool
  pub elapsed : ℕ → ℕ

-- The task's variables, and what it has sent, oldest first. `pending` holds the chunks in flight
-- in the order in which they were started, which is the order in which `FuturesOrdered` yields them.
pub record PipeState (E : Type 0) : Type 0 where
  pub next_chunk : ℕ
  pub pending : List ℕ
  pub first_chunk : Bool
  pub sent : List (Result Bytes (IoError E))
  pub metrics : StreamMetrics

-- Why the task ended. `panicked` is a slice out of bounds.
pub data Reason : Type 0 where
  finished receiver_closed fetch_failed send_failed panicked : Reason

pub data Flow (E : Type 0) : Type 0 where
  continue : PipeState E → Flow E
  stop : Reason → PipeState E → Flow E

-- `Bytes::slice(start..end)`; `none` is its panic.
unfoldable pub slice : Bytes → ℕ → ℕ → Option Bytes
slice bytes start end =
    if leb start end && leb end (length bytes)
    then some (take (end - start) (drop start bytes))
    else none

abbrev pub slice_start : ByteRange → ℕ → ℕ
slice_start range chunk_idx =
    if chunk_idx == range.start / chunk_size then range.start - chunk_idx * chunk_size else 0

abbrev pub slice_end : ByteRange → ℕ → Bytes → ℕ
slice_end range chunk_idx chunk_data =
    if chunk_idx == range.end / chunk_size
    then (range.end - chunk_idx * chunk_size) + 1
    else length chunk_data

abbrev pub is_empty {ℓ} : {A : Type ℓ} → List A → Bool
is_empty [] = true
is_empty (x ∷ xs) = false

module _ {E : Type 0} where
  -- The inner `while`: it starts fetches up to the prefetch limit.
  unfoldable pub fill : ℕ → ℕ → PipeState E → PipeState E
  fill zero end_chunk s = s
  fill (suc fuel) end_chunk s =
      let started = record s {
        next_chunk = s.next_chunk + 1;
        pending = s.pending ++ s.next_chunk ∷ [];
      } in
      let more = fill fuel end_chunk started in
      if leb s.next_chunk end_chunk && ltb (length s.pending) stream_prefetch_chunks
      then more
      else s

  -- The task once a slice has been sent: the metrics count it, the first one with its delay.
  abbrev pub after_send : World E → ℕ → PipeState E → Bytes → PipeState E
  after_send world chunk_idx s sliced =
      let enqueued = record_bytes_enqueued s.metrics (length sliced) in
      record s {
        sent = s.sent ++ ok sliced ∷ [];
        metrics =
            if s.first_chunk
            then record_first_chunk enqueued (world.elapsed chunk_idx)
            else enqueued;
        first_chunk = false;
      }

  -- `tx.send(Ok(sliced))`, of a slice that is in bounds.
  unfoldable pub send_slice : World E → ℕ → PipeState E → Option Bytes → Flow E
  send_slice world chunk_idx s none = stop panicked s
  send_slice world chunk_idx s (some sliced) =
      if world.send_fails chunk_idx
      then stop send_failed s
      else continue (after_send world chunk_idx s sliced)

  unfoldable pub send_chunk : World E → ByteRange → ℕ → PipeState E → Result Bytes E → Flow E
  unfolding send_slice slice
  send_chunk world range chunk_idx s (err cause) =
      let failure = err (record { chunk_idx = chunk_idx; cause = cause }) ∷ [] in
      stop fetch_failed
        (if world.send_fails chunk_idx then s else record s { sent = s.sent ++ failure })
  send_chunk world range chunk_idx s (ok chunk_data) =
      let start = slice_start range chunk_idx in
      let end = min (slice_end range chunk_idx chunk_data) (length chunk_data) in
      if ltb start (length chunk_data)
      then send_slice world chunk_idx s (slice chunk_data start end)
      else continue s

  -- The body of the outer `while`, behind the fills: it takes the oldest chunk in flight.
  unfoldable pub handle : World E → ByteRange → PipeState E → List ℕ → Flow E
  unfolding send_chunk
  handle world range s [] = stop finished s
  handle world range s (chunk_idx ∷ rest) =
      let s' = record s { pending = rest } in
      if world.is_closed chunk_idx
      then stop receiver_closed s'
      else send_chunk world range chunk_idx s' (world.fetched chunk_idx)

  unfoldable pub step : World E → ByteRange → PipeState E → Flow E
  unfolding fill handle
  step world range s =
      let filled = fill stream_prefetch_chunks (range.end / chunk_size) s in
      handle world range filled filled.pending

  -- The outer `while`; `none` means that the fuel ran out.
  unfoldable pub run : World E → ByteRange → ℕ → PipeState E → Option (Reason × PipeState E)
  unfolding step
  run world range zero s = none
  run world range (suc fuel) s =
      let round : Option (Reason × PipeState E) = elim (step world range s) [
        | continue s' ↦ run world range fuel s'
        | stop reason s' ↦ some (reason, s')
      ] in
      if leb s.next_chunk (range.end / chunk_size) || not (is_empty s.pending)
      then round
      else some (finished, s)

  unfoldable pub initial : StreamMetrics → ByteRange → PipeState E
  initial metrics range = record {
    next_chunk = range.start / chunk_size;
    pending = [];
    first_chunk = true;
    sent = [];
    metrics = record_stream_started metrics;
  }

  -- One round of fuel for each chunk, and one for the test that ends the loop.
  unfoldable pub create_stream_pipe :
      World E → ByteRange → StreamMetrics → Option (Reason × PipeState E)
  unfolding run initial
  create_stream_pipe world range metrics =
      run world range ((range.end / chunk_size - range.start / chunk_size) + 2)
        (initial metrics range)
