-- ===== src/Stream/Fetch/Refresh/Source.antt =====
-- Where the chunk of `fetch_chunk_with_refresh` of crates/stream/src/pipe.rs comes from, and the stream
-- that is made of such chunks.
use peerless_server.Prelude.{
  ℕ, ◌+◌, ◌/◌, ◌≤◌, ◌<◌, ◌≡◌, refl, ap, ◌∙◌, ◌⊎◌, inl, inr, List, [], ◌∷◌, Option, none, some,
  Result, ok, err, length, take, drop, All, false,
}
use peerless_server.Stream.Metrics.{StreamMetrics}
use peerless_server.Stream.Range.{ByteRange}
use peerless_server.Stream.Pipe.{Bytes, chunk_size, World, finished}
use peerless_server.Stream.Pipe.Slices.{chunk_of}
use peerless_server.Stream.Pipe.Delivery.{EndsWith, create_stream_pipe_delivers}
use peerless_server.Stream.Pool.{StreamWorkerPool}
use peerless_server.Stream.Fetch.{
  Client, StreamError, file_reference_expired, all_workers_unavailable, unsupported_cdn_redirect,
  flood_wait_error, chunk_fetch_failed, telegram, file, Request, Round, FetchState, Exit, continues,
  breaks, returns, panics,
}
use peerless_server.Stream.Fetch.Loop.{fetch_chunk_until}
use peerless_server.Stream.Fetch.Origin.{StandsInAny, fetch_chunk_until-StandsInAny}
use peerless_server.Stream.Fetch.Refresh.{
  Rounds, Refresher, chunk_job, on_refreshed, on_expired, after_fetch, fetch_chunk_with_refresh,
}

module _ {Location E : Type 0} (client : Client E) (worker_id chunk_idx now : ℕ) where
  abbrev Gave : Rounds Location E → Location → Bytes → Type 0
  Gave fetch location bytes =
      StandsInAny client (chunk_job worker_id chunk_idx now location) (fetch.last ∷ fetch.rounds)
        (ok bytes)

  on_refreshed-Gave :
      (again : Rounds Location E) (location : Location) (s : FetchState)
      (answer : Option (Result Location (StreamError E))) (t : FetchState) (bytes : Bytes)
      → (on_refreshed client worker_id chunk_idx now again location s answer).1
        ≡ returns t (ok bytes)
      → (new_location : Location) × (answer ≡ some (ok new_location))
        × Gave again new_location bytes
  unfolding on_refreshed
  on_refreshed-Gave again location s none t bytes h = cc
  on_refreshed-Gave again location s (some (err error)) t bytes h = cc
  on_refreshed-Gave again location s (some (ok new_location)) t bytes h = (
    new_location,
    refl,
    fetch_chunk_until-StandsInAny client (chunk_job worker_id chunk_idx now new_location)
        again.rounds again.last s.dc_id s.now s.pool t (ok bytes) h,
  )

  -- A refresher that answers in time with a location.
  abbrev pub Answers : Option (Refresher Location E) → Location → Type 0
  Answers none location = ⊥
  Answers (some refresher) location = refresher.answer ≡ some (ok location)

  on_expired-Gave :
      (again : Rounds Location E) (location : Location) (s : FetchState)
      (refresher : Option (Refresher Location E)) (t : FetchState) (bytes : Bytes)
      → (on_expired client worker_id chunk_idx now again location s refresher).1
        ≡ returns t (ok bytes)
      → (new_location : Location) × Answers refresher new_location × Gave again new_location bytes
  unfolding on_expired
  on_expired-Gave again location s none t bytes h = cc
  on_expired-Gave again location s (some refresher) t bytes h =
      on_refreshed-Gave again location _ refresher.answer t bytes h

  -- The first fetch gave the chunk, or its reference had expired and the second one gave it.
  abbrev pub GaveEither :
      Rounds Location E
      → Option (Refresher Location E)
      → Rounds Location E
      → Location
      → Exit E
      → Bytes
      → Type 0
  GaveEither first refresher again location exit bytes =
      Gave first location bytes
      ⊎ ((s : FetchState) × (new_location : Location) × (exit
            ≡ returns s (err file_reference_expired))
          × Answers refresher new_location
          × Gave again new_location bytes)

  after_fetch-GaveEither :
      (first again : Rounds Location E) (location : Location)
      (refresher : Option (Refresher Location E)) (exit : Exit E) (t : FetchState) (bytes : Bytes)
      → ((s : FetchState) → exit ≡ returns s (ok bytes) → Gave first location bytes)
      → (after_fetch client worker_id chunk_idx now again location refresher exit).1
        ≡ returns t (ok bytes)
      → GaveEither first refresher again location exit bytes
  unfolding after_fetch
  after_fetch-GaveEither first again location refresher (returns s (err file_reference_expired)) t
        bytes gave h =
      let (new_location, answers, again_gave) =
        on_expired-Gave again location s refresher t bytes h in
      inr (s, new_location, refl, answers, again_gave)
  after_fetch-GaveEither first again location refresher (returns s (err all_workers_unavailable)) t
        bytes gave h =
      cc
  after_fetch-GaveEither first again location refresher (returns s (err unsupported_cdn_redirect)) t
        bytes gave h =
      cc
  after_fetch-GaveEither first again location refresher (returns s (err (flood_wait_error secs))) t
        bytes gave h =
      cc
  after_fetch-GaveEither first again location refresher
        (returns s (err (chunk_fetch_failed summary))) t bytes gave h =
      cc
  after_fetch-GaveEither first again location refresher (returns s (err (telegram error))) t bytes
        gave h =
      cc
  after_fetch-GaveEither first again location refresher (returns s (ok found)) t bytes gave h =
      inl (gave t h)
  after_fetch-GaveEither first again location refresher (continues s) t bytes gave h = cc
  after_fetch-GaveEither first again location refresher (breaks s) t bytes gave h = cc
  after_fetch-GaveEither first again location refresher panics t bytes gave h = cc

  -- A chunk that is returned is the bytes of a reply to a request for that chunk under the location of
  -- the call, or, only after Telegram had refused that location as expired, under the one location
  -- that the refresher gave. There is no third fetch.
  fetch_chunk_with_refresh-GaveEither :
      (first : Rounds Location E) (refresher : Option (Refresher Location E))
      (again : Rounds Location E) (location : Location) (dc_id : ℕ) (pool : StreamWorkerPool)
      (t : FetchState) (bytes : Bytes)
      → (fetch_chunk_with_refresh client worker_id chunk_idx first refresher again location dc_id
          now pool).1
        ≡ returns t (ok bytes)
      → GaveEither first refresher again location
          (fetch_chunk_until client
            (chunk_job worker_id chunk_idx now location)
            first.rounds
            first.last
            dc_id
            now
            pool)
          bytes
  unfolding fetch_chunk_with_refresh
  fetch_chunk_with_refresh-GaveEither first refresher again location dc_id pool t bytes h =
      after_fetch-GaveEither first again location refresher _ t bytes
        (λ s e.
          fetch_chunk_until-StandsInAny client (chunk_job worker_id chunk_idx now location)
            first.rounds first.last dc_id now pool s (ok bytes) e)
        h

-- Every client answers a request with that part of the file.
abbrev pub Honest : {Location E : Type 0} → Bytes → Round Location E → Type 0
Honest {Location} content round =
    (request : Request Location) (bytes : Bytes)
    → round.reply request ≡ file bytes
    → bytes ≡ take request.limit (drop request.offset content)

module _ {Location E : Type 0} (client : Client E) (worker_id chunk_idx now : ℕ)
    (content : Bytes) where
  Honest-chunk :
      (location : Location) (rounds : List (Round Location E)) (bytes : Bytes)
      → All (Honest content) rounds
      → StandsInAny client (chunk_job worker_id chunk_idx now location) rounds (ok bytes)
      → bytes ≡ chunk_of content chunk_idx
  Honest-chunk location [] bytes honest gave = absurd gave
  Honest-chunk location (round ∷ rounds) bytes honest (inl (request, asks, e)) =
      let h = honest.0 request bytes e in rw (asks.1, asks.2) at h
  Honest-chunk location (round ∷ rounds) bytes honest (inr gave) =
      Honest-chunk location rounds bytes honest.1 gave

  GaveEither-chunk :
      (first : Rounds Location E) (refresher : Option (Refresher Location E))
      (again : Rounds Location E) (location : Location) (exit : Exit E) (bytes : Bytes)
      → All (Honest content) (first.last ∷ first.rounds)
      → All (Honest content) (again.last ∷ again.rounds)
      → GaveEither client worker_id chunk_idx now first refresher again location exit bytes
      → bytes ≡ chunk_of content chunk_idx
  GaveEither-chunk first refresher again location exit bytes h k (inl gave) =
      Honest-chunk location (first.last ∷ first.rounds) bytes h gave
  GaveEither-chunk first refresher again location exit bytes h k
        (inr (s, new_location, _, _, gave)) =
      Honest-chunk new_location (again.last ∷ again.rounds) bytes k gave

-- One run of `fetch_chunk_with_refresh`: what it is given, all but the chunk.
pub record Run (Location E : Type 0) : Type 0 where
  pub first : Rounds Location E
  pub refresher : Option (Refresher Location E)
  pub again : Rounds Location E
  pub location : Location
  pub dc_id : ℕ
  pub now : ℕ
  pub pool : StreamWorkerPool

module _ {Location E : Type 0} (client : Client E) (worker_id : ℕ) (content : Bytes) where
  abbrev pub HonestRun : Run Location E → Type 0
  HonestRun run =
      All (Honest content) (run.first.last ∷ run.first.rounds)
      × All (Honest content) (run.again.last ∷ run.again.rounds)

  -- The run fetches chunk `j`, which is not an error, and the receiver takes what is sent of it.
  abbrev pub Fetched : World (StreamError E) → ℕ → Run Location E → Type 0
  Fetched world j run =
      (bytes : Bytes) × (t : FetchState) × (world.fetched j ≡ ok bytes)
      × (world.is_closed j ≡ false)
      × (world.send_fails j ≡ false)
      × ((fetch_chunk_with_refresh client worker_id j run.first run.refresher run.again run.location
            run.dc_id run.now run.pool).1
          ≡ returns t (ok bytes))

  -- When the clients answer each request with that part of the file, a stream whose chunks come from
  -- `fetch_chunk_with_refresh`, none of them as an error, and whose receiver takes everything, sends
  -- exactly the bytes of the range, whatever retries, waits and refreshes the fetches went through.
  pub create_stream_pipe-fetch_chunk_with_refresh :
      (world : World (StreamError E)) (range : ByteRange) (metrics : StreamMetrics)
      (runs : ℕ → Run Location E)
      → range.start ≤ range.end
      → range.end < length content
      → ((j : ℕ) → HonestRun (runs j))
      → ((j : ℕ)
          → range.start / chunk_size ≤ j
          → j ≤ range.end / chunk_size
          → Fetched world j (runs j))
      → EndsWith world range content metrics finished [] (range.end + 1)
  create_stream_pipe-fetch_chunk_with_refresh world range metrics runs o w honest fetched =
      create_stream_pipe_delivers world range content metrics o w (λ j p q.
        let run = runs j in
        let (bytes, t, e, closed, fails, h) = fetched j p q in
        let either =
          fetch_chunk_with_refresh-GaveEither client worker_id j run.now run.first run.refresher
            run.again run.location run.dc_id run.pool t bytes h in
        let chunk =
          GaveEither-chunk client worker_id j run.now content run.first run.refresher run.again
            run.location _ bytes (honest j).0 (honest j).1 either in
        (e ∙ ap ok chunk, closed, fails))
