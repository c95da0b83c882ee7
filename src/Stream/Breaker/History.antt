-- ===== src/Stream/Breaker/History.antt =====
-- Any history of a `CircuitBreaker`, read as the last event of each worker.
use peerless_server.Prelude.{
  ℕ, zero, suc, ◌+◌, ◌<◌, ◌≡◌, refl, List, [], ◌∷◌, Option, none, some, leb, ◌==◌, if◌then◌else◌,
  get_elem?, length, length-set, replicate, arith, length-replicate,
}
use peerless_server.Stream.Breaker.Availability.{
  worker_count, is_available-quarantine, is_available-record_success,
}
use peerless_server.Stream.Breaker.{
  WorkerState, healthy, CircuitBreaker, new, is_available, quarantine, record_success, recovered,
  quarantined,
}

-- What the worker pool tells the breaker: a quarantine at an instant, or a success.
pub data Event : Type 0 where
  quarantines : (now worker_id duration : ℕ) → Event
  succeeds : (worker_id : ℕ) → Event

abbrev pub react : CircuitBreaker → Event → CircuitBreaker
react cb (quarantines now worker_id duration) = quarantine cb now worker_id duration
react cb (succeeds worker_id) = record_success cb worker_id

-- The events in the order in which they came.
abbrev pub replay : CircuitBreaker → List Event → CircuitBreaker
replay cb [] = cb
replay cb (e ∷ es) = replay (react cb e) es

-- The end of the quarantine that the last event of `worker_id` leaves; `until` if there is none.
abbrev pub blocked_until : ℕ → ℕ → List Event → ℕ
blocked_until worker_id until [] = until
blocked_until worker_id until (quarantines now w d ∷ es) =
    blocked_until worker_id (if w == worker_id then now + d else until) es
blocked_until worker_id until (succeeds w ∷ es) =
    blocked_until worker_id (if w == worker_id then 0 else until) es

length-recovered :
    (states : List WorkerState) (w : ℕ) (slot : Option WorkerState)
    → length (recovered states w slot) ≡ length states
length-recovered states w none = refl
length-recovered states w (some healthy) = refl
length-recovered states w (some (quarantined until)) = length-set states w healthy

-- The pool never grows or shrinks.
worker_count-react : (cb : CircuitBreaker) (e : Event) → worker_count (react cb e) ≡ worker_count cb
unfolding quarantine record_success
worker_count-react cb (quarantines now w d) = length-set cb.worker_states w (quarantined (now + d))
worker_count-react cb (succeeds w) =
    length-recovered cb.worker_states w (get_elem? cb.worker_states w)

replay_from :
    (cb : CircuitBreaker) (es : List Event) (worker_id until later : ℕ)
    → worker_id < worker_count cb
    → ((t : ℕ) → is_available cb t worker_id ≡ leb until t)
    → is_available (replay cb es) later worker_id ≡ leb (blocked_until worker_id until es) later
replay_from cb [] v until later h now = now later
replay_from cb (quarantines t w d ∷ es) v until later h at =
    replay_from (quarantine cb t w d) es v _ later
      (omega (arith, worker_count-react cb (quarantines t w d)))
      (λ x. ground (arith, is_available-quarantine cb t x w v d, at x))
replay_from cb (succeeds w ∷ es) v until later h at =
    replay_from (record_success cb w) es v _ later
      (omega (arith, worker_count-react cb (succeeds w)))
      (λ x. ground (arith, is_available-record_success cb x w v, at x))

get_elem?-replicate : (n i : ℕ) → i < n → get_elem? (replicate n healthy) i ≡ some healthy
get_elem?-replicate zero i h = elim h [ ]
get_elem?-replicate (suc n) zero h = refl
get_elem?-replicate (suc n) (suc i) h = get_elem?-replicate n i (omega arith)

-- After any history of a new breaker, a worker of the pool is available at an instant exactly if
-- the quarantine of the last event that names it has ended by then: a success, or no event at
-- all, leaves none.
pub is_available-replay :
    (n : ℕ) (es : List Event) (worker_id later : ℕ)
    → worker_id < n
    → is_available (replay (new n) es) later worker_id ≡ leb (blocked_until worker_id 0 es) later
unfolding new
is_available-replay n es v later h =
    replay_from (new n) es v 0 later (omega (arith, length-replicate n healthy)) fresh
  where
    fresh : (t : ℕ) → is_available (new n) t v ≡ leb 0 t
    fresh t = unfold is_available in rw (get_elem?-replicate n v h) (ground arith)
