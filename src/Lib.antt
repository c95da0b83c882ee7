-- ===== src/Lib.antt =====
-- Verification of the core of peerless-server: a music server that rips tracks through mirrors,
-- packs albums as ZIP parts, stores files in Telegram and streams byte ranges of them to clients.
--
-- The program's parts and how they interact. A client or the bot submits jobs; crates/engine scores
-- them (orchestrator/priority.rs) and runs them one at a time (queue.rs), with names made by
-- filename.rs and archives planned by zip.rs. The mirror that a job asks is chosen by
-- crates/apple/src/mirror_policy.rs; the HLS playlists that it answers with are read, and the variant to
-- rip is chosen, by wrapper/playlist.rs. Fragmented MP4 files get their duration from
-- crates/media/src/fragmented.rs. crates/stream serves a byte range: pipe.rs parses the header and
-- cuts chunks, which a pool of workers fetches under a circuit breaker (circuit_breaker.rs), counted
-- by metrics.rs. crates/server/src/playback_sync.rs keeps the devices of a user in step, and
-- rip_task_rpc.rs turns the requests of clients into tasks of a registry. The
-- retry budget of all of them is read by crates/core/src/retry.rs.
--
-- Which file models what:
--   Prelude           shared tests, lists, results, texts, maps and arithmetic
--   Core/Retry        `RetryConfig` and `exponential_delay` of crates/core/src/retry.rs
--   Stream/Breaker    `CircuitBreaker` of crates/stream/src/circuit_breaker.rs
--   Stream/Range      `ByteRange` of crates/stream/src/pipe.rs
--   Stream/Pipe       `create_stream_pipe` of crates/stream/src/pipe.rs, a task as a loop on its state
--   Stream/Pool       `pick_least_loaded` of crates/stream/src/worker_pool.rs
--   Stream/Fetch      `fetch_chunk_with_budget` of the same file, a step for each round of its loop, and
--                     in Refresh `fetch_chunk_with_refresh` of crates/stream/src/pipe.rs
--   Stream/Upload     `lease_upload_worker` of worker_pool.rs, with a store of the semaphores, and the
--                     uploads that take the primary session without a lease (bot/telegram_sink.rs)
--   Stream/Metrics    `StreamMetrics` of crates/stream/src/metrics.rs
--   Engine/Filename   `BoundedName` and `bound_utf8_prefix` of crates/engine/src/filename.rs
--   Engine/Caption    `html_escape` and `clamp_str_utf16` of crates/engine/src/orchestrator/helpers.rs
--   Engine/Inflight   the jobs for one target at a time: orchestrator/inflight.rs and the loop of `submit`
--                     in orchestrator/mod.rs, a step for each critical section; `notify_waiters` of tokio
--                     wakes the futures that are there
--   Engine/Storage    the storage retries of helpers.rs; the answers of the cache are a parameter, and
--                     the fuel of the loop is the number of attempts
--   Engine/ZipPlan    `plan_zip_parts_with_codec`, `build_zip_entry_filename_with_codec` and
--                     `album_generation_hash` of crates/engine/src/zip.rs; the digest is a parameter
--   Engine/ZipState   the dump messages, the first error and the codec of an archive of
--                     crates/engine/src/orchestrator/zip_state.rs
--   Music             `Codec` of crates/music/src/lib.rs and `urlencode` of crates/music/src/url.rs
--   Engine/Priority   `base_score` and `effective_score` of crates/engine/src/orchestrator/priority.rs
--   Engine/Queue      `SequentialRipQueue` of crates/engine/src/queue.rs, a step for each critical section
--   Media/Fragmented  crates/media/src/fragmented.rs
--   Server/Sync       `SyncRoom` and the messages of `handle_socket` of crates/server/src/playback_sync.rs
--   Server/Tasks      the registry of tasks and the requests of crates/server/src/task_registry.rs and
--                     rip_task_rpc.rs, and `has_complete_archive_parts` of lookup.rs
--   Apple/Playlist    `parse_master_playlist` and `parse_media_playlist` of
--                     crates/apple/src/wrapper/playlist.rs
--   Apple/Mirror      `MirrorPolicyManager` of crates/apple/src/mirror_policy.rs
-- A module of the same name with a child holds definitions; the children hold the proofs, and each
-- Tests module applies the theorems to concrete inputs.
--
-- Representation. Instants and durations are natural numbers, a text is the list of its characters'
-- codes, a file the list of its bytes. Counters that wrap and sums that are checked at 64 bits are
-- written so; where the code's sums cannot reach the width for a file or a wait that exists, they are
-- those of the natural numbers, as the file concerned says. A panic is `none`.
--
-- Bounds and fuel. The pipe's loop has one round of fuel for each chunk of the range, and Delivery
-- shows that it returns. The loop of a fetch runs on the list of its rounds, 4 and one for each
-- unit of time until the deadline, which Deadline shows to be enough. The loop over MP4 boxes has
-- one round for each byte of the region, which is enough since each box is at least 8 bytes long.
-- Decimal numbers have a round for each digit.
--
-- Parameters: the answers of Telegram's clients, the waits for slots and locks, how late a timer
-- fires and what other tasks do meanwhile, the locks that another task holds, the receiver of a stream, the lengths of files on disk, the HTTP
-- adapter and the JSON readings of the mirror, the digest of SHA-256, and the key that a map's
-- iterator gives first.
--
-- Not modelled: the sign-in of the workers, the chunk cache, the writing of archives and their base
-- names, the rest of the orchestrator, the database, the bot, the catalogue and decryption
-- protocols, audio decoding, the HTTP routes, and the serialisation of messages, which are input
-- and output or calls of libraries. The quotient of ticks and timescale, a floating-point number,
-- is kept as its two parts.
pub mod Prelude
pub mod Core
pub mod Stream
pub mod Apple
pub mod Engine
pub mod Music
pub mod Media
pub mod Server
