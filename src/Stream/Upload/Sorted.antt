-- ===== src/Stream/Upload/Sorted.antt =====
-- Which worker `lease_upload_worker` of crates/stream/src/worker_pool.rs takes.
use peerless_server.Prelude.{
  ℕ, ◌≤◌, ◌≡◌, refl, ◌↔◌, ◌⊎◌, inl, inr, Bool, true, false, List, Option, none, some, Bool-cases,
  get_elem?, arith, All, All-map,
}
use peerless_server.Stream.Pool.{WorkerInstance, StreamWorkerPool}
use peerless_server.Stream.Breaker.{is_available}
use peerless_server.Stream.Upload.{
  UploadState, UploadWorkerLease, has_permit, is_past, is_ready, is_eligible, primary_candidate,
  lease_upload_worker,
}
use peerless_server.Stream.Upload.Scan.{LeaseOf, AllBusy, Found, lease_upload_worker-Found}

-- The mark of a worker as slow is locked by another task, absent or over.
abbrev pub Ready : (WorkerInstance → Bool) → ℕ → WorkerInstance → Type 0
Ready contended now worker =
    (contended worker ≡ true)
    ⊎ ((worker.slow_until ≡ none)
        ⊎ ((until : ℕ) × (worker.slow_until ≡ some until) × (until ≤ now)))

abbrev pub Eligible : (WorkerInstance → Bool) → ℕ → StreamWorkerPool → WorkerInstance → Type 0
Eligible contended now pool worker =
    (is_available pool.circuit_breaker now worker.id ≡ true) × Ready contended now worker

-- Every eligible worker has its permit taken.
abbrev pub Busy : (WorkerInstance → Bool) → ℕ → UploadState → Type 0
Busy contended now s =
    All (λ v. Eligible contended now s.pool v → has_permit s.permits v ≡ false) s.pool.workers

-- The primary is not there, not ready or busy.
abbrev pub NoPrimary : (WorkerInstance → Bool) → ℕ → List ℕ → Option WorkerInstance → Type 0
NoPrimary contended now permits none = Unit
NoPrimary contended now permits (some primary) =
    Ready contended now primary → has_permit permits primary ≡ false

-- What `lease_upload_worker` promises: the least loaded of the eligible workers with a permit, or the
-- primary where there is none, or nothing where the primary cannot be had either.
abbrev pub Leased : (WorkerInstance → Bool) → ℕ → UploadState → Option UploadWorkerLease → Type 0
Leased contended now s none =
    Busy contended now s × NoPrimary contended now s.permits s.pool.primary_fallback
Leased contended now s (some lease) =
    ((worker : WorkerInstance) × (i : ℕ) × (get_elem? s.pool.workers i ≡ some worker)
      × Eligible contended now s.pool worker
      × LeaseOf s lease worker
      × All
          (λ v.
            Eligible contended now s.pool v
            → has_permit s.permits v ≡ true
            → worker.in_flight ≤ v.in_flight)
          s.pool.workers)
    ⊎ ((primary : WorkerInstance) × (s.pool.primary_fallback ≡ some primary)
        × Ready contended now primary
        × LeaseOf s lease primary
        × Busy contended now s)

is_past_iff :
    (now : ℕ) (slow_until : Option ℕ)
    → (is_past now slow_until ≡ true)
      ↔ ((slow_until ≡ none) ⊎ ((until : ℕ) × (slow_until ≡ some until) × (until ≤ now)))
is_past_iff now none = ((λ h. inl refl), (λ h. refl))
is_past_iff now (some until) = (
  (λ h. inr (until, refl, ground arith)),
  (λ p. elim p [ inl e ↦ absurd cc | inr (u, e, h) ↦ ground arith ]),
)

is_ready_iff :
    (contended : WorkerInstance → Bool) (now : ℕ) (worker : WorkerInstance)
    → (is_ready contended now worker ≡ true) ↔ Ready contended now worker
is_ready_iff contended now worker =
    let past = is_past_iff now worker.slow_until in
    elim (Bool-cases (contended worker)) [
      | inl e ↦ ((λ h. inl e), (λ h. rw e refl))
      | inr e ↦ (
        (λ h. inr (past.0 (rw e at h))),
        (λ p. elim p [ inl k ↦ absurd cc | inr k ↦ rw e (past.1 k) ]),
      )
    ]

is_eligible_iff :
    (contended : WorkerInstance → Bool) (now : ℕ) (pool : StreamWorkerPool)
    (worker : WorkerInstance)
    → (is_eligible contended now pool worker ≡ true) ↔ Eligible contended now pool worker
is_eligible_iff contended now pool worker =
    let ready = is_ready_iff contended now worker in
    elim (Bool-cases (is_available pool.circuit_breaker now worker.id)) [
      | inl e ↦ ((λ h. (e, ready.0 (rw e at h))), (λ h. rw e (ready.1 h.1)))
      | inr e ↦ ((λ h. absurd (let k = rw e at h in cc)), (λ h. absurd (let k = h.0 in cc)))
    ]

AllBusy-Busy :
    (contended : WorkerInstance → Bool) (now : ℕ) (s : UploadState)
    → AllBusy contended now s
    → Busy contended now s
AllBusy-Busy contended now s all =
    All-map _ _ s.pool.workers (λ v h e. h ((is_eligible_iff contended now s.pool v).1 e)) all

candidate-NoPrimary :
    (contended : WorkerInstance → Bool) (now : ℕ) (permits : List ℕ)
    (primary : Option WorkerInstance)
    → All (λ c. has_permit permits c.0 ≡ false) (primary_candidate contended now primary)
    → NoPrimary contended now permits primary
candidate-NoPrimary contended now permits none all = tt
candidate-NoPrimary contended now permits (some primary) all =
    λ ready. let e = (is_ready_iff contended now primary).1 ready in (rw e at all).0

Found-Leased :
    (contended : WorkerInstance → Bool) (now : ℕ) (s : UploadState)
    (lease : Option UploadWorkerLease)
    → Found contended now s lease
    → Leased contended now s lease
Found-Leased contended now s none (busy, free) = (
  AllBusy-Busy contended now s busy,
  candidate-NoPrimary contended now s.permits s.pool.primary_fallback free,
)
Found-Leased contended now s (some lease) (inl (worker, i, h, eligible, lease_of, least)) = inl (
  worker,
  i,
  h,
  (is_eligible_iff contended now s.pool worker).0 eligible,
  lease_of,
  All-map _ _ s.pool.workers (λ v g e. g ((is_eligible_iff contended now s.pool v).1 e)) least,
)
Found-Leased contended now s (some lease) (inr (primary, p, ready, lease_of, busy)) = inr (
  primary,
  p,
  (is_ready_iff contended now primary).0 ready,
  lease_of,
  AllBusy-Busy contended now s busy,
)

-- A worker is eligible that is not quarantined, and whose mark as slow is over, absent or locked by
-- another task. A lease goes to an eligible worker with the permit of its session free, and none such
-- has a lower load. Only when no worker can be had it goes to the primary, if its mark is over, absent
-- or locked, and there is none only when the primary cannot be had either.
pub lease_upload_worker-Leased :
    (contended : WorkerInstance → Bool) (now : ℕ) (s : UploadState)
    → Leased contended now s (lease_upload_worker contended now s).1
lease_upload_worker-Leased contended now s =
    Found-Leased contended now s (lease_upload_worker contended now s).1
      (lease_upload_worker-Found contended now s)
