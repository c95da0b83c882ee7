-- ===== src/Stream/Fetch/Waiting.antt =====
-- What `choose` of a round gives: a wait is never empty, and in a pool whose workers are numbered from 0,
-- as `StreamWorkerPool::new` numbers them, the index of the picked worker is in bounds.
use peerless_server.Prelude.{
  suc, zero, ap, map, length, ◌%◌, ◌^◌, ◌∙◌, ℕ, ◌+◌, ◌<◌, ◌≡◌, refl, inl, inr, Bool, not, ◌&&◌,
  ◌||◌, get_elem?, List, [], ◌∷◌, Option, none, some, ◌==◌, Bool-cases, Option-cases, arith,
}
use peerless_server.Core.Retry.{unwrap_or}
use peerless_server.Stream.Breaker.{
  CircuitBreaker, quarantine_remaining, remaining, is_available, healthy, quarantined, WorkerState,
}
use peerless_server.Stream.Pipe.{is_empty}
use peerless_server.Stream.Pool.{WorkerInstance, StreamWorkerPool, pick_least_loaded}
use peerless_server.Stream.Pool.Load.{Picked, pick_least_loaded-Picked}
use peerless_server.Stream.Fetch.{
  Choice, chosen, wait, unavailable, out_of_bounds, choose, choose_pinned, choose_picked,
  choose_wait, lesser, least_remaining, is_primary_id, worker_by_id, half_second,
}

-- The id of each worker is its place in the list.
abbrev pub NumberedFrom : ℕ → List WorkerInstance → Type 0
NumberedFrom k [] = Unit
NumberedFrom k (worker ∷ workers) = (worker.id ≡ k) × NumberedFrom (k + 1) workers

abbrev pub Numbered : StreamWorkerPool → Type 0
Numbered pool = NumberedFrom 0 pool.workers

NumberedFrom-get_elem? :
    (k : ℕ) (workers : List WorkerInstance) (i : ℕ) (worker : WorkerInstance)
    → NumberedFrom k workers
    → get_elem? workers i ≡ some worker
    → worker.id ≡ k + i
NumberedFrom-get_elem? k [] i worker n h = cc
NumberedFrom-get_elem? k (w ∷ workers) zero worker n h =
    let e : w ≡ worker = cc in let d = ap (λ x. x.id) e in omega (arith, d, n.0)
NumberedFrom-get_elem? k (w ∷ workers) (suc i) worker n h =
    let e = NumberedFrom-get_elem? (k + 1) workers i worker n.1 h in omega (arith, e)

pub NumberedFrom-map :
    (k : ℕ) (workers : List WorkerInstance) (f : WorkerInstance → WorkerInstance)
    → ((worker : WorkerInstance) → (f worker).id ≡ worker.id)
    → NumberedFrom k workers
    → NumberedFrom k (map f workers)
NumberedFrom-map k [] f keeps n = tt
NumberedFrom-map k (worker ∷ workers) f keeps n =
    (keeps worker ∙ n.0, NumberedFrom-map (k + 1) workers f keeps n.1)

-- A round never waits for nothing.
abbrev pub Waits : Choice → Type 0
Waits (chosen worker is_primary) = Unit
Waits (wait delay) = 0 < delay
Waits unavailable = Unit
Waits out_of_bounds = ⊥

abbrev Positive : Option ℕ → Type 0
Positive none = Unit
Positive (some n) = 0 < n

remaining-Positive : (now : ℕ) (state : Option WorkerState) → Positive (remaining now state)
remaining-Positive now none = tt
remaining-Positive now (some healthy) = tt
remaining-Positive now (some (quarantined until)) = ground arith

lesser-Positive : (a b : Option ℕ) → Positive a → Positive b → Positive (lesser a b)
lesser-Positive none b h k = k
lesser-Positive (some m) none h k = h
lesser-Positive (some m) (some n) h k = omega arith

least_remaining-Positive :
    (breaker : CircuitBreaker) (now : ℕ) (workers : List WorkerInstance)
    → Positive (least_remaining breaker now workers)
unfolding least_remaining quarantine_remaining
least_remaining-Positive breaker now [] = tt
least_remaining-Positive breaker now (worker ∷ workers) =
    lesser-Positive (remaining now (get_elem? breaker.worker_states worker.id))
      (least_remaining breaker now workers)
      (remaining-Positive now (get_elem? breaker.worker_states worker.id))
      (least_remaining-Positive breaker now workers)

unwrap_or-Positive : (o : Option ℕ) (d : ℕ) → Positive o → 0 < d → 0 < unwrap_or o d
unwrap_or-Positive none d h k = k
unwrap_or-Positive (some n) d h k = h

choose_wait-Waits : (now : ℕ) (pool : StreamWorkerPool) → Waits (choose_wait now pool)
choose_wait-Waits now pool = elim (Bool-cases (is_empty pool.workers)) [
  | inl h ↦ rw h tt
  | inr h ↦ rw h (
      unwrap_or-Positive (least_remaining pool.circuit_breaker now pool.workers) half_second
        (least_remaining-Positive pool.circuit_breaker now pool.workers) (omega arith))
]

choose_pinned-Waits :
    (now : ℕ) (pool : StreamWorkerPool) (worker_id : ℕ) (found : Option WorkerInstance)
    → Waits (choose_pinned now pool worker_id found)
unfolding quarantine_remaining
choose_pinned-Waits now pool worker_id none = tt
choose_pinned-Waits now pool worker_id (some worker) =
    let left_over = remaining now (get_elem? pool.circuit_breaker.worker_states worker_id) in
    let positive =
      unwrap_or-Positive left_over half_second (remaining-Positive now _) (omega arith) in
    elim (Bool-cases (
      not (is_primary_id worker_id pool.primary_fallback)
      && not (is_available pool.circuit_breaker now worker_id))) [
        | inl h ↦ rw h positive
        | inr h ↦ rw h tt
      ]

Picked-get_elem? :
    (now : ℕ) (pool : StreamWorkerPool) (worker_id : ℕ)
    → Numbered pool
    → Picked now pool (some worker_id)
    → (worker : WorkerInstance) × (get_elem? pool.workers worker_id ≡ some worker)
Picked-get_elem? now pool worker_id n (i, worker, e, q, _, _) =
    let id = NumberedFrom-get_elem? 0 pool.workers i worker n e in
    let same : worker_id ≡ i = omega (arith, id, q) in (worker, rw same e)

choose_picked-Waits :
    (now : ℕ) (primary_attempted : Bool) (pool : StreamWorkerPool) (picked : Option ℕ)
    → Numbered pool
    → Picked now pool picked
    → Waits (choose_picked now primary_attempted (pool, picked)).1
choose_picked-Waits now primary_attempted pool (some worker_id) n p =
    let (worker, e) = Picked-get_elem? now pool worker_id n p in rw e tt
choose_picked-Waits now primary_attempted pool none n p =
    elim (Option-cases pool.primary_fallback) [
      | inl h ↦ rw h (choose_wait-Waits now pool)
      | inr (primary, h) ↦ elim (Bool-cases (not primary_attempted || is_empty pool.workers)) [
        | inl k ↦ rw (h, k) tt
        | inr k ↦ rw (h, k) (choose_wait-Waits now pool)
      ]
    ]

pick_least_loaded-pool :
    (now : ℕ) (pool : StreamWorkerPool)
    → (cursor : ℕ) × ((pick_least_loaded now pool).0 ≡ record pool { rr_cursor = cursor })
unfolding pick_least_loaded
pick_least_loaded-pool now pool = elim (Bool-cases (length pool.workers == 0)) [
  | inl h ↦ (pool.rr_cursor, rw h refl)
  | inr h ↦ ((pool.rr_cursor + 1) % 2 ^ 64, rw h refl)
]

Picked-cursor :
    (now : ℕ) (pool : StreamWorkerPool) (cursor : ℕ) (o : Option ℕ)
    → Picked now pool o
    → Picked now (record pool { rr_cursor = cursor }) o
Picked-cursor now pool cursor none h = h
Picked-cursor now pool cursor (some id) h = h

pub choose-Waits :
    (pinned : Option ℕ) (now : ℕ) (primary_attempted : Bool) (pool : StreamWorkerPool)
    → Numbered pool
    → Waits (choose pinned now primary_attempted pool).1
unfolding choose
choose-Waits (some worker_id) now primary_attempted pool n =
    choose_pinned-Waits now pool worker_id (worker_by_id pool worker_id)
choose-Waits none now primary_attempted pool n =
    let picked = pick_least_loaded now pool in
    let (cursor, e) = pick_least_loaded-pool now pool in
    let p = Picked-cursor now pool cursor picked.1 (pick_least_loaded-Picked now pool) in
    choose_picked-Waits now primary_attempted picked.0 picked.1 (rw e n) (rw e p)

choose_picked-pool :
    (now : ℕ) (primary_attempted : Bool) (pool : StreamWorkerPool) (picked : Option ℕ)
    → Numbered pool
    → Numbered (choose_picked now primary_attempted (pool, picked)).0
choose_picked-pool now primary_attempted pool none n = n
choose_picked-pool now primary_attempted pool (some worker_id) n = n

pub choose-Numbered :
    (pinned : Option ℕ) (now : ℕ) (primary_attempted : Bool) (pool : StreamWorkerPool)
    → Numbered pool
    → Numbered (choose pinned now primary_attempted pool).0
unfolding choose
choose-Numbered (some worker_id) now primary_attempted pool n = n
choose-Numbered none now primary_attempted pool n =
    let picked = pick_least_loaded now pool in
    let (cursor, e) = pick_least_loaded-pool now pool in
    choose_picked-pool now primary_attempted picked.0 picked.1 (rw e n)
