-- ===== src/Stream/Breaker.antt =====
-- crates/stream/src/circuit_breaker.rs. Instants and durations are numbers of one unit; the one
-- `Instant::now()` of each method is its argument `now`.
pub mod Availability
pub mod History
use peerless_server.Prelude.{
  ℕ, ◌+◌, ◌-◌, Bool, true, false, List, [], ◌∷◌, Option, none, some, ltb, leb, if◌then◌else◌,
  get_elem?, set, replicate,
}

pub data WorkerState : Type 0 where
  healthy : WorkerState
  quarantined : ℕ → WorkerState

pub record CircuitBreaker : Type 0 where
  pub worker_states : List WorkerState

unfoldable pub new : ℕ → CircuitBreaker
new worker_count = record { worker_states = replicate worker_count healthy }

-- The test of one slot, which `is_available` and the filter of `available_count` share.
abbrev pub admits : ℕ → WorkerState → Bool
admits now healthy = true
admits now (quarantined until) = leb until now

abbrev pub admits_slot : ℕ → Option WorkerState → Bool
admits_slot now none = false
admits_slot now (some s) = admits now s

unfoldable pub is_available : CircuitBreaker → ℕ → ℕ → Bool
is_available cb now worker_id = admits_slot now (get_elem? cb.worker_states worker_id)

-- `get_mut` gives no slot for an unknown worker, and `set` then writes nothing.
unfoldable pub quarantine : CircuitBreaker → ℕ → ℕ → ℕ → CircuitBreaker
quarantine cb now worker_id duration = record {
  worker_states = set cb.worker_states worker_id (quarantined (now + duration));
}

abbrev pub recovered : List WorkerState → ℕ → Option WorkerState → List WorkerState
recovered states worker_id (some (quarantined until)) = set states worker_id healthy
recovered states worker_id (some healthy) = states
recovered states worker_id none = states

unfoldable pub record_success : CircuitBreaker → ℕ → CircuitBreaker
record_success cb worker_id = record {
  worker_states = recovered cb.worker_states worker_id (get_elem? cb.worker_states worker_id);
}

abbrev pub remaining : ℕ → Option WorkerState → Option ℕ
remaining now (some (quarantined until)) = if ltb now until then some (until - now) else none
remaining now (some healthy) = none
remaining now none = none

unfoldable pub quarantine_remaining : CircuitBreaker → ℕ → ℕ → Option ℕ
quarantine_remaining cb now worker_id = remaining now (get_elem? cb.worker_states worker_id)

abbrev pub count_if {ℓ} : {A : Type ℓ} → (A → Bool) → List A → ℕ
count_if p [] = 0
count_if p (x ∷ xs) = (if p x then 1 else 0) + count_if p xs

unfoldable pub available_count : CircuitBreaker → ℕ → ℕ
available_count cb now = count_if (admits now) cb.worker_states

unfoldable pub healthy_worker_count : CircuitBreaker → ℕ → ℕ
unfolding available_count
healthy_worker_count cb now = available_count cb now
