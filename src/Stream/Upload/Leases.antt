-- ===== src/Stream/Upload/Leases.antt =====
-- The permits of the upload sessions and the leases that hold them.
use peerless_server.Prelude.{
  ℕ, zero, suc, ◌+◌, ◌-◌, ◌<◌, ◌≡◌, refl, sym, ap, ◌∙◌, inl, inr, Bool, true, ◌&&◌, List, [], ◌∷◌,
  Option, none, some, ltb, ◌==◌, Bool-cases, length, get_elem?, get_or, set, if◌then◌else◌, arith,
  length-set,
}
use peerless_server.Stream.Breaker.{count_if}
use peerless_server.Stream.Pool.{WorkerInstance, StreamWorkerPool}
use peerless_server.Stream.Upload.{
  UploadState, UploadWorkerLease, has_permit, claim_upload_worker, candidates, claimed,
  lease_upload_worker, drop_lease, acquire_primary, release_primary,
}

-- How many of the leases hold a permit of this semaphore.
abbrev pub held : ℕ → List UploadWorkerLease → ℕ
held slot leases = count_if (λ lease. lease.slot == slot) leases

-- The uploads without a lease hold permits of the semaphore of the primary session only.
abbrev pub held_directly : ℕ → ℕ → ℕ → ℕ
held_directly primary_upload_slot slot direct = if slot == primary_upload_slot then direct else 0

-- Each upload session has its one permit: it is free, or exactly one lease or one upload without a
-- lease holds it.
abbrev pub IsExclusive : ℕ → List ℕ → List UploadWorkerLease → ℕ → Type 0
IsExclusive primary_upload_slot permits leases direct =
    (slot : ℕ)
    → slot < length permits
    → get_or permits slot 0 + (held slot leases + held_directly primary_upload_slot slot direct) ≡ 1

get_or-set :
    (xs : List ℕ) (i j v : ℕ)
    → get_or (set xs i v) j 0 ≡ (if i == j && ltb j (length xs) then v else get_or xs j 0)
get_or-set [] i j v = ground arith
get_or-set (x ∷ xs) zero zero v = ground arith
get_or-set (x ∷ xs) zero (suc j) v = ground arith
get_or-set (x ∷ xs) (suc i) zero v = ground arith
get_or-set (x ∷ xs) (suc i) (suc j) v = ground (arith, get_or-set xs i j v)

claim_upload_worker-has_permit :
    (permits : List ℕ) (workers : List (WorkerInstance × Bool)) (claim : WorkerInstance × Bool)
    → claim_upload_worker permits workers ≡ some claim
    → has_permit permits claim.0 ≡ true
unfolding claim_upload_worker
claim_upload_worker-has_permit permits [] claim h = cc
claim_upload_worker-has_permit permits (worker ∷ workers) claim h =
    elim (Bool-cases (has_permit permits worker.0)) [
      | inl p ↦
          let e : worker ≡ claim = let k = rw p at h in cc in
          ap (λ c. has_permit permits c.0) (sym e) ∙ p
      | inr p ↦
          claim_upload_worker-has_permit permits workers claim (rw (claim_upload_worker, p) at h)
    ]

-- The leases that are out, with the one that a claim gives.
abbrev pub with_lease : List UploadWorkerLease → Option UploadWorkerLease → List UploadWorkerLease
with_lease leases none = leases
with_lease leases (some lease) = lease ∷ leases

claimed-IsExclusive :
    (primary : ℕ) (s : UploadState) (leases : List UploadWorkerLease) (direct : ℕ)
    (claim : Option (WorkerInstance × Bool))
    → IsExclusive primary s.permits leases direct
    → ((c : WorkerInstance × Bool) → claim ≡ some c → has_permit s.permits c.0 ≡ true)
    → IsExclusive primary (claimed s claim).0.permits (with_lease leases (claimed s claim).1) direct
claimed-IsExclusive primary s leases direct none h k slot low = h slot low
claimed-IsExclusive primary s leases direct (some (worker, is_primary)) h k slot low =
    let free = k (worker, is_primary) refl in
    let length_same =
      length-set s.permits worker.upload_slot (get_or s.permits worker.upload_slot 0 - 1) in
    let before = h slot (omega arith) in
    let after =
      get_or-set s.permits worker.upload_slot slot (get_or s.permits worker.upload_slot 0 - 1) in
    ground arith

abbrev pub remove_at : ℕ → List UploadWorkerLease → List UploadWorkerLease
remove_at i [] = []
remove_at zero (lease ∷ leases) = leases
remove_at (suc i) (lease ∷ leases) = lease ∷ remove_at i leases

held-remove_at :
    (leases : List UploadWorkerLease) (i : ℕ) (lease : UploadWorkerLease) (slot : ℕ)
    → get_elem? leases i ≡ some lease
    → held slot leases ≡ held slot (remove_at i leases) + (if lease.slot == slot then 1 else 0)
held-remove_at [] i lease slot h = cc
held-remove_at (first ∷ leases) zero lease slot h =
    let e : first ≡ lease = cc in let d = ap (λ x. x.slot) e in ground arith
held-remove_at (first ∷ leases) (suc i) lease slot h =
    omega (arith, held-remove_at leases i lease slot h)

-- What happens to the pool and its permits: a lease is asked for, while other tasks hold the locks of
-- the marks that `contended` names, or ends; an upload without a lease asks for the primary session or
-- ends; and other code changes the workers' marks, loads and quarantines.
pub data UploadEvent : Type 0 where
  asked : (contended : WorkerInstance → Bool) → (now : ℕ) → UploadEvent
  ended : (index : ℕ) → UploadEvent
  direct_asked direct_ended : UploadEvent
  changed : (pool : StreamWorkerPool) → UploadEvent

-- The leases that are out, and the number of uploads without one that hold a permit.
pub record Uploads : Type 0 where
  pub state : UploadState
  pub leases : List UploadWorkerLease
  pub direct : ℕ

abbrev pub after_lease : Uploads → UploadState × Option UploadWorkerLease → Uploads
after_lease u (s, lease) = record u { state = s; leases = with_lease u.leases lease }

abbrev pub after_drop : Uploads → ℕ → Option UploadWorkerLease → Uploads
after_drop u index none = u
after_drop u index (some lease) = record u {
  state = drop_lease u.state lease;
  leases = remove_at index u.leases;
}

abbrev pub after_acquire : Uploads → Option UploadState → Uploads
after_acquire u none = u
after_acquire u (some s) = record u { state = s; direct = u.direct + 1 }

abbrev pub after_release : ℕ → Uploads → ℕ → Uploads
after_release primary_upload_slot u zero = u
after_release primary_upload_slot u (suc direct) = record u {
  state = release_primary primary_upload_slot u.state;
  direct = direct;
}

unfoldable pub upload_step : ℕ → UploadEvent → Uploads → Uploads
upload_step primary_upload_slot (asked contended now) u =
    after_lease u (lease_upload_worker contended now u.state)
upload_step primary_upload_slot (ended index) u = after_drop u index (get_elem? u.leases index)
upload_step primary_upload_slot direct_asked u =
    after_acquire u (acquire_primary primary_upload_slot u.state)
upload_step primary_upload_slot direct_ended u = after_release primary_upload_slot u u.direct
upload_step primary_upload_slot (changed pool) u = record u {
  state = record u.state { pool = pool };
}

unfoldable pub upload_run : ℕ → List UploadEvent → Uploads → Uploads
unfolding upload_step
upload_run primary_upload_slot [] u = u
upload_run primary_upload_slot (event ∷ events) u =
    upload_run primary_upload_slot events (upload_step primary_upload_slot event u)

-- Each session of these uploads has its one permit.
abbrev pub IsExclusiveOf : ℕ → Uploads → Type 0
IsExclusiveOf primary u = IsExclusive primary u.state.permits u.leases u.direct

after_drop-IsExclusiveOf :
    (primary : ℕ) (u : Uploads) (index : ℕ) (lease : Option UploadWorkerLease)
    → get_elem? u.leases index ≡ lease
    → IsExclusiveOf primary u
    → IsExclusiveOf primary (after_drop u index lease)
unfolding drop_lease
after_drop-IsExclusiveOf primary u index none e h slot low = h slot low
after_drop-IsExclusiveOf primary u index (some lease) e h slot low =
    let back = get_or u.state.permits lease.slot 0 + 1 in
    let length_same = length-set u.state.permits lease.slot back in
    let before = h slot (omega arith) in
    let after = get_or-set u.state.permits lease.slot slot back in
    let count = held-remove_at u.leases index lease slot e in ground arith

acquire_primary-IsExclusiveOf :
    (primary : ℕ) (u : Uploads)
    → IsExclusiveOf primary u
    → IsExclusiveOf primary (after_acquire u (acquire_primary primary u.state))
unfolding acquire_primary
acquire_primary-IsExclusiveOf primary u h =
    let available = get_or u.state.permits primary 0 in
    elim (Bool-cases (ltb 0 available)) [
      | inl e ↦
          rw (acquire_primary, e)
            λ slot low.
              let length_same = length-set u.state.permits primary (available - 1) in
              let before = h slot (omega arith) in
              let after = get_or-set u.state.permits primary slot (available - 1) in ground arith
      | inr e ↦ rw (acquire_primary, e) h
    ]

after_release-IsExclusiveOf :
    (primary : ℕ) (u : Uploads) (direct : ℕ)
    → u.direct ≡ direct
    → IsExclusiveOf primary u
    → IsExclusiveOf primary (after_release primary u direct)
unfolding release_primary
after_release-IsExclusiveOf primary u zero e h slot low = h slot low
after_release-IsExclusiveOf primary u (suc direct) e h slot low =
    let back = get_or u.state.permits primary 0 + 1 in
    let length_same = length-set u.state.permits primary back in
    let before = h slot (omega arith) in
    let after = get_or-set u.state.permits primary slot back in ground arith

upload_step-IsExclusiveOf :
    (primary : ℕ) (event : UploadEvent) (u : Uploads)
    → IsExclusiveOf primary u
    → IsExclusiveOf primary (upload_step primary event u)
unfolding upload_step
upload_step-IsExclusiveOf primary (asked contended now) u h =
    unfold lease_upload_worker in
    claimed-IsExclusive primary u.state u.leases u.direct
      (claim_upload_worker u.state.permits (candidates contended now u.state.pool)) h
      (claim_upload_worker-has_permit u.state.permits (candidates contended now u.state.pool))
upload_step-IsExclusiveOf primary (ended index) u h =
    after_drop-IsExclusiveOf primary u index (get_elem? u.leases index) refl h
upload_step-IsExclusiveOf primary direct_asked u h = acquire_primary-IsExclusiveOf primary u h
upload_step-IsExclusiveOf primary direct_ended u h =
    after_release-IsExclusiveOf primary u u.direct refl h
upload_step-IsExclusiveOf primary (changed pool) u h = h

-- Whatever is leased, dropped, taken without a lease and changed in whatever order, each upload session
-- has its one permit: it is free, or exactly one holder has it, a lease that is out or, for the primary
-- session, an upload without a lease. Workers that share the session of the primary share the permit.
pub upload_run-IsExclusiveOf :
    (primary_upload_slot : ℕ) (events : List UploadEvent) (u : Uploads)
    → IsExclusiveOf primary_upload_slot u
    → IsExclusiveOf primary_upload_slot (upload_run primary_upload_slot events u)
unfolding upload_run
upload_run-IsExclusiveOf primary [] u h = h
upload_run-IsExclusiveOf primary (event ∷ events) u h =
    upload_run-IsExclusiveOf primary events (upload_step primary event u)
      (upload_step-IsExclusiveOf primary event u h)
