-- ===== src/Stream/Fetch/Refresh.antt =====
-- `fetch_chunk_with_refresh` of crates/stream/src/pipe.rs: the fetch of a chunk by the worker of the
-- stream, which asks once for a new file reference when Telegram says that the old one has expired.
pub mod Source
use peerless_server.Prelude.{ℕ, ◌+◌, ◌*◌, List, Option, none, some, Result, ok, err, text}
use peerless_server.Stream.Metrics.{record_file_reference_refresh}
use peerless_server.Stream.Pipe.{Bytes, chunk_size}
use peerless_server.Stream.Pool.{StreamWorkerPool}
use peerless_server.Stream.Fetch.{
  Client, StreamError, file_reference_expired, all_workers_unavailable, unsupported_cdn_redirect,
  flood_wait_error, chunk_fetch_failed, telegram, Round, Job, FetchState, Exit, continues, breaks,
  returns, panics, second,
}
use peerless_server.Stream.Fetch.Step.{with_metrics}
use peerless_server.Stream.Fetch.Loop.{fetch_chunk_until}

abbrev pub chunk_fetch_deadline : ℕ
chunk_fetch_deadline = 25 * second

-- The rounds of one fetch, the last of which is that of the primary client.
pub record Rounds (Location E : Type 0) : Type 0 where
  pub rounds : List (Round Location E)
  pub last : Round Location E

-- What the refresher answers: `none` is no answer by the deadline. `refresh_time` is how long it takes.
pub record Refresher (Location E : Type 0) : Type 0 where
  pub answer : Option (Result Location (StreamError E))
  pub refresh_time : ℕ

abbrev pub chunk_job : {Location : Type 0} → ℕ → ℕ → ℕ → Location → Job Location
chunk_job worker_id chunk_idx now location = record {
  location = location;
  offset = chunk_idx * chunk_size;
  limit = chunk_size;
  deadline = now + chunk_fetch_deadline;
  pinned_worker_id = some worker_id;
}

abbrev pub refreshing : ℕ → FetchState → FetchState
refreshing refresh_time s =
    with_metrics record_file_reference_refresh (record s { now = s.now + refresh_time })

module _ {Location E : Type 0} (client : Client E) (worker_id chunk_idx started : ℕ) where
  -- The answer of the refresher: a new location is stored, and the chunk is fetched from it.
  unfoldable pub on_refreshed :
      Rounds Location E
      → Location
      → FetchState
      → Option (Result Location (StreamError E))
      → Location × Exit E
  unfolding fetch_chunk_until
  on_refreshed again location s none = (
    location,
    returns s (err (chunk_fetch_failed (text "timed out refreshing the Telegram file reference"))),
  )
  on_refreshed again location s (some (err error)) = (location, returns s (err error))
  on_refreshed again location s (some (ok new_location)) = (
    new_location,
    fetch_chunk_until client (chunk_job worker_id chunk_idx started new_location) again.rounds
        again.last s.dc_id s.now s.pool,
  )

  unfoldable pub on_expired :
      Rounds Location E → Location → FetchState → Option (Refresher Location E) → Location × Exit E
  unfolding on_refreshed
  on_expired again location s none = (location, returns s (err file_reference_expired))
  on_expired again location s (some refresher) =
      on_refreshed again location (refreshing refresher.refresh_time s) refresher.answer

  unfoldable pub after_fetch :
      Rounds Location E → Location → Option (Refresher Location E) → Exit E → Location × Exit E
  unfolding on_expired
  after_fetch again location refresher (returns s (err file_reference_expired)) =
      on_expired again location s refresher
  after_fetch again location refresher (returns s (err all_workers_unavailable)) =
      (location, returns s (err all_workers_unavailable))
  after_fetch again location refresher (returns s (err unsupported_cdn_redirect)) =
      (location, returns s (err unsupported_cdn_redirect))
  after_fetch again location refresher (returns s (err (flood_wait_error secs))) =
      (location, returns s (err (flood_wait_error secs)))
  after_fetch again location refresher (returns s (err (chunk_fetch_failed summary))) =
      (location, returns s (err (chunk_fetch_failed summary)))
  after_fetch again location refresher (returns s (err (telegram error))) =
      (location, returns s (err (telegram error)))
  after_fetch again location refresher (returns s (ok bytes)) = (location, returns s (ok bytes))
  after_fetch again location refresher (continues s) = (location, continues s)
  after_fetch again location refresher (breaks s) = (location, breaks s)
  after_fetch again location refresher panics = (location, panics)

-- The location that the streams of the file share, afterwards, and the result. `first` and `again` are
-- the rounds of the fetch and of the fetch behind a refresh.
unfoldable pub fetch_chunk_with_refresh :
    {Location E : Type 0}
    → Client E
    → ℕ
    → ℕ
    → Rounds Location E
    → Option (Refresher Location E)
    → Rounds Location E
    → Location
    → ℕ
    → ℕ
    → StreamWorkerPool
    → Location × Exit E
unfolding fetch_chunk_until after_fetch
fetch_chunk_with_refresh client worker_id chunk_idx first refresher again location dc_id now pool =
    after_fetch client worker_id chunk_idx now again location refresher (
      fetch_chunk_until client (chunk_job worker_id chunk_idx now location) first.rounds first.last
        dc_id now pool)
