-- ===== src/Stream/Upload/Tests.antt =====
-- Leases of a pool with two workers and the primary, whose session the second worker shares.
use peerless_server.Prelude.{Bool, ◌==◌, ℕ, zero, suc, refl, List, [], ◌∷◌, some, arith}
use peerless_server.Stream.Breaker.{new}
use peerless_server.Stream.Metrics.{default}
use peerless_server.Stream.Pool.{WorkerInstance}
use peerless_server.Stream.Upload.{UploadState, lease_upload_worker}
use peerless_server.Stream.Upload.Sorted.{Leased, lease_upload_worker-Leased}
use peerless_server.Stream.Upload.Leases.{
  IsExclusiveOf, Uploads, UploadEvent, asked, ended, direct_asked, direct_ended, upload_run,
  upload_run-IsExclusiveOf,
}

abbrev worker : ℕ → ℕ → ℕ → WorkerInstance
worker id in_flight upload_slot = record {
  id = id;
  in_flight = in_flight;
  home_dc = 2;
  slow_until = some 5;
  upload_slot = upload_slot;
}

abbrev uploads : UploadState
uploads = record {
  pool = record {
    workers = worker 0 4 1 ∷ worker 1 2 0 ∷ [];
    circuit_breaker = new 2;
    rr_cursor = 0;
    primary_fallback = some (worker 9 0 0);
    metrics = default;
  };
  permits = 1 ∷ 1 ∷ [];
}

-- Another task holds the lock of the mark of worker 1.
abbrev contended : WorkerInstance → Bool
contended worker = worker.id == 1

lease_upload_worker-Leased_example :
    Leased contended 2 uploads (lease_upload_worker contended 2 uploads).1
lease_upload_worker-Leased_example = lease_upload_worker-Leased contended 2 uploads

abbrev events : List UploadEvent
events =
    asked contended 9
    ∷ direct_asked
    ∷ asked contended 9
    ∷ ended 0
    ∷ direct_asked
    ∷ direct_ended
    ∷ []

abbrev start : Uploads
start = record { state = uploads; leases = []; direct = 0 }

start-IsExclusiveOf : IsExclusiveOf 0 start
start-IsExclusiveOf zero h = refl
start-IsExclusiveOf (suc zero) h = refl
start-IsExclusiveOf (suc (suc slot)) h = absurd (omega arith)

upload_run-IsExclusiveOf_example : IsExclusiveOf 0 (upload_run 0 events start)
upload_run-IsExclusiveOf_example = upload_run-IsExclusiveOf 0 events start start-IsExclusiveOf
