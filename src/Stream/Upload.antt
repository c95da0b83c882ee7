-- ===== src/Stream/Upload.antt =====
-- The leases of upload workers in crates/stream/src/worker_pool.rs: `lease_upload_worker` and the end of
-- a lease, `mark_worker_slow` and `upload_session_count`. A semaphore is its place in the list
-- `permits`, which holds the permits that are left; workers that share a session share the place.
pub mod Scan
pub mod Sorted
pub mod Leases
mod Tests
use peerless_server.Prelude.{
  ℕ, ◌+◌, ◌-◌, ◌%◌, ◌^◌, Bool, true, false, not, ◌&&◌, ◌||◌, List, [], ◌∷◌, ◌++◌, map, Option, none,
  some, ltb, leb, ◌==◌, if◌then◌else◌, get_or, set,
}
use peerless_server.Stream.Breaker.{is_available, count_if}
use peerless_server.Stream.Pool.{WorkerInstance, StreamWorkerPool}
use peerless_server.Stream.Fetch.{worker_by_id}
use peerless_server.Stream.Fetch.Step.{entered, left}

pub record UploadState : Type 0 where
  pub pool : StreamWorkerPool
  pub permits : List ℕ

-- `slot` is the semaphore whose permit the lease holds, and `is_primary` says whose counter it moved.
pub record UploadWorkerLease : Type 0 where
  pub worker_id : ℕ
  pub home_dc : ℕ
  pub slot : ℕ
  pub is_primary : Bool

-- `count_upload_sessions`: the primary session and the workers that do not share it.
unfoldable pub upload_session_count : ℕ → StreamWorkerPool → ℕ
upload_session_count primary_upload_slot pool =
    1 + count_if (λ worker. not (worker.upload_slot == primary_upload_slot)) pool.workers

abbrev pub is_past : ℕ → Option ℕ → Bool
is_past now none = true
is_past now (some until) = leb until now

-- The test of `slow_until`: a lock that another task holds, as `contended` says, counts as ready.
abbrev pub is_ready : (WorkerInstance → Bool) → ℕ → WorkerInstance → Bool
is_ready contended now worker = contended worker || is_past now worker.slow_until

abbrev pub is_eligible : (WorkerInstance → Bool) → ℕ → StreamWorkerPool → WorkerInstance → Bool
is_eligible contended now pool worker =
    is_available pool.circuit_breaker now worker.id && is_ready contended now worker

unfoldable pub filter_eligible : (WorkerInstance → Bool) → List WorkerInstance → List WorkerInstance
filter_eligible p [] = []
filter_eligible p (worker ∷ workers) =
    let rest = filter_eligible p workers in if p worker then worker ∷ rest else rest

-- `sort_by_key`, which is stable, by the load.
unfoldable pub insert_by_load : WorkerInstance → List WorkerInstance → List WorkerInstance
insert_by_load worker [] = worker ∷ []
insert_by_load worker (first ∷ rest) =
    let inserted = insert_by_load worker rest in
    if leb worker.in_flight first.in_flight then worker ∷ first ∷ rest else first ∷ inserted

unfoldable pub sort_by_load : List WorkerInstance → List WorkerInstance
unfolding insert_by_load
sort_by_load [] = []
sort_by_load (worker ∷ workers) = insert_by_load worker (sort_by_load workers)

abbrev pub has_permit : List ℕ → WorkerInstance → Bool
has_permit permits worker = ltb 0 (get_or permits worker.upload_slot 0)

-- `claim_upload_worker`: the first candidate whose semaphore gives a permit.
unfoldable pub claim_upload_worker :
    List ℕ → List (WorkerInstance × Bool) → Option (WorkerInstance × Bool)
claim_upload_worker permits [] = none
claim_upload_worker permits (candidate ∷ candidates) =
    let rest = claim_upload_worker permits candidates in
    if has_permit permits candidate.0 then some candidate else rest

-- The primary stands behind the workers, if it is ready.
abbrev pub primary_candidate :
    (WorkerInstance → Bool) → ℕ → Option WorkerInstance → List (WorkerInstance × Bool)
primary_candidate contended now none = []
primary_candidate contended now (some primary) =
    if is_ready contended now primary then (primary, true) ∷ [] else []

abbrev pub dedicated : List WorkerInstance → List (WorkerInstance × Bool)
dedicated workers = map (λ worker. (worker, false)) workers

unfoldable pub candidates :
    (WorkerInstance → Bool) → ℕ → StreamWorkerPool → List (WorkerInstance × Bool)
unfolding filter_eligible sort_by_load
candidates contended now pool =
    dedicated (sort_by_load (filter_eligible (is_eligible contended now pool) pool.workers))
    ++ primary_candidate contended now pool.primary_fallback

abbrev pub move_load : (ℕ → ℕ) → ℕ → WorkerInstance → WorkerInstance
move_load f worker_id worker =
    if worker.id == worker_id then record worker { in_flight = f worker.in_flight } else worker

abbrev pub move_primary_load : (ℕ → ℕ) → Option WorkerInstance → Option WorkerInstance
move_primary_load f none = none
move_primary_load f (some primary) = some (record primary { in_flight = f primary.in_flight })

-- The counter of the worker, or of the primary.
abbrev pub move_counter : (ℕ → ℕ) → ℕ → Bool → StreamWorkerPool → StreamWorkerPool
move_counter f worker_id true pool = record pool {
  primary_fallback = move_primary_load f pool.primary_fallback;
}
move_counter f worker_id false pool = record pool {
  workers = map (move_load f worker_id) pool.workers;
}

abbrev pub claimed :
    UploadState → Option (WorkerInstance × Bool) → UploadState × Option UploadWorkerLease
claimed s none = (s, none)
claimed s (some (worker, is_primary)) = (
  record {
    pool = move_counter entered worker.id is_primary s.pool;
    permits = set s.permits worker.upload_slot (get_or s.permits worker.upload_slot 0 - 1);
  },
  some (record {
    worker_id = worker.id;
    home_dc = worker.home_dc;
    slot = worker.upload_slot;
    is_primary = is_primary;
  }),
)

-- A result of `none` is `AllWorkersUnavailable`.
unfoldable pub lease_upload_worker :
    (WorkerInstance → Bool) → ℕ → UploadState → UploadState × Option UploadWorkerLease
unfolding candidates claim_upload_worker
lease_upload_worker contended now s =
    claimed s (claim_upload_worker s.permits (candidates contended now s.pool))

-- The permit that an upload without a lease takes of `primary_upload_slot`, the semaphore of the primary
-- session, once there is one; until then it waits.
unfoldable pub acquire_primary : ℕ → UploadState → Option UploadState
acquire_primary primary_upload_slot s =
    let available = get_or s.permits primary_upload_slot 0 in
    if ltb 0 available
    then some (record s { permits = set s.permits primary_upload_slot (available - 1) })
    else none

unfoldable pub release_primary : ℕ → UploadState → UploadState
release_primary primary_upload_slot s = record s {
  permits = set s.permits primary_upload_slot (get_or s.permits primary_upload_slot 0 + 1);
}

-- `Drop` of a lease: the counter goes back, and the permit with it.
unfoldable pub drop_lease : UploadState → UploadWorkerLease → UploadState
drop_lease s lease = record {
  pool = move_counter left lease.worker_id lease.is_primary s.pool;
  permits = set s.permits lease.slot (get_or s.permits lease.slot 0 + 1);
}

abbrev pub slowed : ℕ → ℕ → WorkerInstance → WorkerInstance
slowed worker_id until worker =
    if worker.id == worker_id then record worker { slow_until = some until } else worker

abbrev pub slowed_primary : ℕ → ℕ → Option WorkerInstance → Option WorkerInstance
slowed_primary worker_id until none = none
slowed_primary worker_id until (some primary) = some (slowed worker_id until primary)

abbrev pub has_worker : ℕ → List WorkerInstance → Bool
has_worker worker_id [] = false
has_worker worker_id (worker ∷ workers) =
    if worker.id == worker_id then true else has_worker worker_id workers

-- The mark lands on the worker that `worker_by_id` finds: the primary only if no worker has the id.
unfoldable pub mark_worker_slow : ℕ → ℕ → ℕ → StreamWorkerPool → StreamWorkerPool
mark_worker_slow now worker_id duration pool =
    if has_worker worker_id pool.workers
    then record pool { workers = map (slowed worker_id (now + duration)) pool.workers }
    else record pool {
      primary_fallback = slowed_primary worker_id (now + duration) pool.primary_fallback;
    }
