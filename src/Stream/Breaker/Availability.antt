-- ===== src/Stream/Breaker/Availability.antt =====
-- When a worker of `CircuitBreaker` is available, and how the readings of one state agree.
use peerless_server.Prelude.{
  ℕ, ◌+◌, ◌≡◌, refl, true, ◌&&◌, List, Option, none, some, ltb, leb, ◌==◌, if◌then◌else◌, get_elem?,
  length, get_elem?-of_lt, get_elem?-set, Bool-cases, arith,
}
use peerless_server.Stream.Breaker.{
  WorkerState, healthy, quarantined, CircuitBreaker, admits_slot, recovered, is_available,
  quarantine, record_success,
}

abbrev pub worker_count : CircuitBreaker → ℕ
worker_count cb = length cb.worker_states

-- A quarantine rules over its own worker until its end, and over no other.
pub is_available-quarantine :
    (cb : CircuitBreaker) (now later worker_id other duration : ℕ)
    → is_available (quarantine cb now worker_id duration) later other ≡ (
        if worker_id == other && ltb other (worker_count cb)
        then leb (now + duration) later
        else is_available cb later other)
unfolding is_available quarantine
is_available-quarantine cb now later w v d =
    ground (arith, get_elem?-set cb.worker_states w v (quarantined (now + d)))

admits_slot-recovered :
    (states : List WorkerState) (now w v : ℕ) (slot : Option WorkerState)
    → get_elem? states w ≡ slot
    → admits_slot now (get_elem? (recovered states w slot) v)
      ≡ (if w == v && ltb v (length states) then true else admits_slot now (get_elem? states v))
admits_slot-recovered states now w v none e =
    ground (arith, get_elem?-of_lt states w, Bool-cases (ltb w (length states)))
admits_slot-recovered states now w v (some healthy) e = ground arith
admits_slot-recovered states now w v (some (quarantined until)) e =
    ground (arith, get_elem?-set states w v healthy)

-- A success makes its own worker available at once, and changes no other.
pub is_available-record_success :
    (cb : CircuitBreaker) (now worker_id other : ℕ)
    → is_available (record_success cb worker_id) now other ≡ (
        if worker_id == other && ltb other (worker_count cb)
        then true
        else is_available cb now other)
unfolding is_available record_success
is_available-record_success cb now w v =
    admits_slot-recovered cb.worker_states now w v (get_elem? cb.worker_states w) refl
