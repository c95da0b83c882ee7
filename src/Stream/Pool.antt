-- ===== src/Stream/Pool.antt =====
-- The choice of a worker in crates/stream/src/worker_pool.rs: `pick_least_loaded` and
-- `select_worker_for_stream`. The counters are read at one instant, and the clients of the
-- workers are left to the calls that use them.
pub mod Load
use peerless_server.Prelude.{
  ℕ, zero, suc, ◌+◌, ◌%◌, ◌^◌, Bool, true, false, ◌&&◌, List, [], ◌∷◌, Option, none, some, ltb,
  ◌==◌, if◌then◌else◌, length, get_elem?,
}
use peerless_server.Stream.Metrics.{StreamMetrics}
use peerless_server.Stream.Breaker.{CircuitBreaker, is_available}

-- `upload_slot` names the semaphore that the worker's uploads share; `slow_until` is read at once,
-- since its lock is held only for the reading.
pub record WorkerInstance : Type 0 where
  pub id : ℕ
  pub in_flight : ℕ
  pub home_dc : ℕ
  pub slow_until : Option ℕ
  pub upload_slot : ℕ

pub record StreamWorkerPool : Type 0 where
  pub workers : List WorkerInstance
  pub circuit_breaker : CircuitBreaker
  pub rr_cursor : ℕ
  pub primary_fallback : Option WorkerInstance
  pub metrics : StreamMetrics

abbrev pub usize_max : ℕ
usize_max = 0xffff_ffff_ffff_ffff

-- The loop over the offsets, `count` of which are left: the best worker so far, and its load.
unfoldable pub least : List WorkerInstance → (ℕ → Bool) → ℕ → ℕ → ℕ → Option ℕ × ℕ → Option ℕ × ℕ
least workers available start offset zero best = best
least workers available start offset (suc count) best =
    elim (get_elem? workers ((start + offset) % length workers)) [
      | none ↦ least workers available start (offset + 1) count best
      | some worker ↦ least workers available start (offset + 1) count (
          if available worker.id && ltb worker.in_flight best.1
          then (some worker.id, worker.in_flight)
          else best)
    ]

-- The pool with its cursor moved on, and the worker; `none` is `AllWorkersUnavailable`.
unfoldable pub pick_least_loaded : ℕ → StreamWorkerPool → StreamWorkerPool × Option ℕ
unfolding least
pick_least_loaded now pool = if length pool.workers == 0 then (pool, none) else (
  record pool { rr_cursor = (pool.rr_cursor + 1) % 2 ^ 64 },
  (least pool.workers (is_available pool.circuit_breaker now) (pool.rr_cursor % length pool.workers)
      0 (length pool.workers) (none, usize_max)).0,
)

-- The id under which the primary client stands in for a worker.
abbrev pub primary_id : Option WorkerInstance → Option ℕ
primary_id none = none
primary_id (some primary) = some usize_max

unfoldable pub select_worker_for_stream : ℕ → StreamWorkerPool → StreamWorkerPool × Option ℕ
unfolding pick_least_loaded
select_worker_for_stream now pool =
    let picked = pick_least_loaded now pool in
    elim picked.1 [
      | some id ↦ (picked.0, some id)
      | none ↦ (picked.0, primary_id pool.primary_fallback)
    ]
