-- ===== src/Stream/Upload/Scan.antt =====
-- The scan of the candidates in `lease_upload_worker` of crates/stream/src/worker_pool.rs, by the code's
-- own tests of a worker.
use peerless_server.Prelude.{
  ℕ, suc, ◌≤◌, ◌≡◌, refl, sym, ◌∙◌, ◌⊎◌, inl, inr, Bool, true, false, List, [], ◌∷◌, ◌++◌, Option,
  none, some, leb, Bool-cases, get_elem?, arith, All, All-map,
}
use peerless_server.Stream.Pool.{WorkerInstance}
use peerless_server.Stream.Upload.{
  UploadState, UploadWorkerLease, has_permit, is_ready, is_eligible, filter_eligible,
  insert_by_load, sort_by_load, dedicated, primary_candidate, claim_upload_worker, candidates,
  lease_upload_worker,
}

abbrev NotBelow : WorkerInstance → WorkerInstance → Type 0
NotBelow worker other = worker.in_flight ≤ other.in_flight

abbrev IsSorted : List WorkerInstance → Type 0
IsSorted [] = Unit
IsSorted (worker ∷ workers) = All (NotBelow worker) workers × IsSorted workers

module _ (P : WorkerInstance → Type 0) where
  All-insert_by_load :
      (worker : WorkerInstance) (workers : List WorkerInstance)
      → P worker
      → All P workers
      → All P (insert_by_load worker workers)
  unfolding insert_by_load
  All-insert_by_load worker [] h k = (h, tt)
  All-insert_by_load worker (first ∷ rest) h k =
      elim (Bool-cases (leb worker.in_flight first.in_flight)) [
        | inl e ↦ rw e (h, k)
        | inr e ↦ rw e (k.0, All-insert_by_load worker rest h k.1)
      ]

  insert_by_load-All :
      (worker : WorkerInstance) (workers : List WorkerInstance)
      → All P (insert_by_load worker workers)
      → P worker × All P workers
  unfolding insert_by_load
  insert_by_load-All worker [] h = h
  insert_by_load-All worker (first ∷ rest) h =
      elim (Bool-cases (leb worker.in_flight first.in_flight)) [
        | inl e ↦ rw e at h
        | inr e ↦
            let k = rw e at h in let r = insert_by_load-All worker rest k.1 in (r.0, (k.0, r.1))
      ]

  All-sort_by_load : (workers : List WorkerInstance) → All P workers → All P (sort_by_load workers)
  unfolding sort_by_load
  All-sort_by_load [] h = tt
  All-sort_by_load (worker ∷ workers) h =
      All-insert_by_load worker (sort_by_load workers) h.0 (All-sort_by_load workers h.1)

  sort_by_load-All : (workers : List WorkerInstance) → All P (sort_by_load workers) → All P workers
  unfolding sort_by_load
  sort_by_load-All [] h = tt
  sort_by_load-All (worker ∷ workers) h =
      let r = insert_by_load-All worker (sort_by_load workers) h in
      (r.0, sort_by_load-All workers r.1)

  All-filter_eligible :
      (p : WorkerInstance → Bool) (workers : List WorkerInstance)
      → All P workers
      → All (λ v. (p v ≡ true) × P v) (filter_eligible p workers)
  unfolding filter_eligible
  All-filter_eligible p [] h = tt
  All-filter_eligible p (worker ∷ workers) h = elim (Bool-cases (p worker)) [
    | inl e ↦ rw (filter_eligible, e) ((e, h.0), All-filter_eligible p workers h.1)
    | inr e ↦ rw (filter_eligible, e) (All-filter_eligible p workers h.1)
  ]

  filter_eligible-All :
      (p : WorkerInstance → Bool) (workers : List WorkerInstance)
      → All P (filter_eligible p workers)
      → All (λ v. p v ≡ true → P v) workers
  unfolding filter_eligible
  filter_eligible-All p [] h = tt
  filter_eligible-All p (worker ∷ workers) h = elim (Bool-cases (p worker)) [
    | inl e ↦
        let k = rw (filter_eligible, e) at h in ((λ t. k.0), filter_eligible-All p workers k.1)
    | inr e ↦
        let k = rw (filter_eligible, e) at h in
        ((λ t. absurd (let c = sym t ∙ e in cc)), filter_eligible-All p workers k)
  ]

insert_by_load-IsSorted :
    (worker : WorkerInstance) (workers : List WorkerInstance)
    → IsSorted workers
    → IsSorted (insert_by_load worker workers)
unfolding insert_by_load
insert_by_load-IsSorted worker [] h = (tt, tt)
insert_by_load-IsSorted worker (first ∷ rest) h =
    elim (Bool-cases (leb worker.in_flight first.in_flight)) [
      | inl e ↦
          let low : worker.in_flight ≤ first.in_flight = ground arith in
          let all = All-map (NotBelow first) (NotBelow worker) rest (λ v l. omega arith) h.0 in
          rw e ((low, all), h)
      | inr e ↦
          let low : first.in_flight ≤ worker.in_flight = ground arith in
          rw e (
            All-insert_by_load (NotBelow first) worker rest low h.0,
            insert_by_load-IsSorted worker rest h.1,
          )
    ]

sort_by_load-IsSorted : (workers : List WorkerInstance) → IsSorted (sort_by_load workers)
unfolding sort_by_load
sort_by_load-IsSorted [] = tt
sort_by_load-IsSorted (worker ∷ workers) =
    insert_by_load-IsSorted worker (sort_by_load workers) (sort_by_load-IsSorted workers)

-- A claim among the workers takes one with a permit, and none with a permit has a lower load.
abbrev LeastOf : (WorkerInstance → Type 0) → List ℕ → List WorkerInstance → WorkerInstance → Type 0
LeastOf P permits workers worker =
    P worker
    × (has_permit permits worker ≡ true)
    × All (λ v. has_permit permits v ≡ true → NotBelow worker v) workers

-- No worker has a permit, and the claim goes on behind them.
abbrev pub Passed : List ℕ → List WorkerInstance → Type 0
Passed permits workers = All (λ v. has_permit permits v ≡ false) workers

module _ (P : WorkerInstance → Type 0) (permits : List ℕ)
    (behind : List (WorkerInstance × Bool)) where
  claim_upload_worker-LeastOf :
      (workers : List WorkerInstance)
      → IsSorted workers
      → All P workers
      → ((worker : WorkerInstance) × LeastOf P permits workers worker
          × (claim_upload_worker permits (dedicated workers ++ behind) ≡ some (worker, false)))
        ⊎ (Passed permits workers
            × (claim_upload_worker permits (dedicated workers ++ behind)
                ≡ claim_upload_worker permits behind))
  unfolding claim_upload_worker
  claim_upload_worker-LeastOf [] sorted all = inr (tt, refl)
  claim_upload_worker-LeastOf (worker ∷ workers) sorted all =
      elim (Bool-cases (has_permit permits worker)) [
        | inl e ↦
            let rest =
              All-map (NotBelow worker) (λ v. has_permit permits v ≡ true → NotBelow worker v)
                workers (λ v l t. l) sorted.0 in
            inl (worker, (all.0, e, ((λ t. omega arith), rest)), rw (claim_upload_worker, e) refl)
        | inr e ↦ elim (claim_upload_worker-LeastOf workers sorted.1 all.1) [
          | inl (other, least, r) ↦ inl (
            other,
            (least.0, least.1, ((λ t. absurd (let c = sym t ∙ e in cc)), least.2)),
            rw (claim_upload_worker, e) r,
          )
          | inr (passed, r) ↦ inr ((e, passed), rw (claim_upload_worker, e) r)
        ]
      ]

-- The worker that a lease is of, and where it holds its permit.
abbrev pub LeaseOf : UploadState → UploadWorkerLease → WorkerInstance → Type 0
LeaseOf s lease worker =
    (has_permit s.permits worker ≡ true)
    × (lease.worker_id ≡ worker.id)
    × (lease.slot ≡ worker.upload_slot)

abbrev pub AllBusy : (WorkerInstance → Bool) → ℕ → UploadState → Type 0
AllBusy contended now s =
    All (λ v. is_eligible contended now s.pool v ≡ true → has_permit s.permits v ≡ false)
      s.pool.workers

-- What the scan of the candidates finds, by the code's own tests.
abbrev pub Found : (WorkerInstance → Bool) → ℕ → UploadState → Option UploadWorkerLease → Type 0
Found contended now s none =
    AllBusy contended now s
    × All (λ c. has_permit s.permits c.0 ≡ false)
        (primary_candidate contended now s.pool.primary_fallback)
Found contended now s (some lease) =
    ((worker : WorkerInstance) × (i : ℕ) × (get_elem? s.pool.workers i ≡ some worker)
      × (is_eligible contended now s.pool worker ≡ true)
      × LeaseOf s lease worker
      × All
          (λ v.
            is_eligible contended now s.pool v ≡ true
            → has_permit s.permits v ≡ true
            → worker.in_flight ≤ v.in_flight)
          s.pool.workers)
    ⊎ ((primary : WorkerInstance) × (s.pool.primary_fallback ≡ some primary)
        × (is_ready contended now primary ≡ true)
        × LeaseOf s lease primary
        × AllBusy contended now s)

All-get_elem? :
    (P : WorkerInstance → Type 0) (workers : List WorkerInstance)
    → ((i : ℕ) (worker : WorkerInstance) → get_elem? workers i ≡ some worker → P worker)
    → All P workers
All-get_elem? P [] h = tt
All-get_elem? P (worker ∷ workers) h =
    (h 0 worker refl, All-get_elem? P workers (λ i v e. h (suc i) v e))

claim_upload_worker-primary_candidate :
    (contended : WorkerInstance → Bool) (now : ℕ) (permits : List ℕ)
    (primary : Option WorkerInstance)
    → ((claim_upload_worker permits (primary_candidate contended now primary) ≡ none)
        × All (λ c. has_permit permits c.0 ≡ false) (primary_candidate contended now primary))
      ⊎ ((worker : WorkerInstance) × (primary ≡ some worker)
          × (is_ready contended now worker ≡ true)
          × (has_permit permits worker ≡ true)
          × (claim_upload_worker permits (primary_candidate contended now primary)
              ≡ some (worker, true)))
unfolding claim_upload_worker
claim_upload_worker-primary_candidate contended now permits none = inl (refl, tt)
claim_upload_worker-primary_candidate contended now permits (some primary) =
    elim (Bool-cases (is_ready contended now primary)) [
      | inr e ↦ inl (rw e refl, rw e tt)
      | inl e ↦ elim (Bool-cases (has_permit permits primary)) [
        | inl p ↦ inr (primary, refl, e, p, rw (e, claim_upload_worker, p) refl)
        | inr p ↦ inl (rw (e, claim_upload_worker, p) refl, rw e (p, tt))
      ]
    ]

pub lease_upload_worker-Found :
    (contended : WorkerInstance → Bool) (now : ℕ) (s : UploadState)
    → Found contended now s (lease_upload_worker contended now s).1
unfolding lease_upload_worker candidates
lease_upload_worker-Found contended now s =
    let workers = s.pool.workers in
    let eligible = is_eligible contended now s.pool in
    let chosen = filter_eligible eligible workers in
    let Known : WorkerInstance → Type 0 =
      λ v. (eligible v ≡ true) × ((i : ℕ) × (get_elem? workers i ≡ some v)) in
    let all =
      All-get_elem? (λ v. (i : ℕ) × (get_elem? workers i ≡ some v)) workers (λ i v e. (i, e)) in
    let known = All-sort_by_load Known chosen (All-filter_eligible _ eligible workers all) in
    let back = λ (P : WorkerInstance → Type 0) (h : All P (sort_by_load chosen)).
      filter_eligible-All P eligible workers (sort_by_load-All P chosen h) in
    elim (claim_upload_worker-LeastOf Known s.permits
      (primary_candidate contended now s.pool.primary_fallback) (sort_by_load chosen)
      (sort_by_load-IsSorted chosen) known) [
        | inl (worker, least, e) ↦ rw e (
            inl (
              worker,
              least.0.1.0,
              least.0.1.1,
              least.0.0,
              (least.1, refl, refl),
              back (λ v. has_permit s.permits v ≡ true → worker.in_flight ≤ v.in_flight) least.2,
            ))
        | inr (passed, e) ↦
            let busy = back (λ v. has_permit s.permits v ≡ false) passed in
            elim (claim_upload_worker-primary_candidate contended now s.permits
              s.pool.primary_fallback) [
                | inl (f, free) ↦ rw (e, f) (busy, free)
                | inr (primary, p, ready, free, f) ↦
                    rw (e, f) (inr (primary, p, ready, (free, refl, refl), busy))
              ]
      ]
