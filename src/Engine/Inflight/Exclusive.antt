-- ===== src/Engine/Inflight/Exclusive.antt =====
-- Jobs for one target run one at a time where no other task comes between the look into the table and
-- the insertion of the keys in crates/engine/src/orchestrator/mod.rs.
use peerless_server.Prelude.{
  ℕ, ◌≡◌, refl, sym, ◌∙◌, inl, inr, List, [], ◌∷◌, some, Option-cases, Bool, true, get_elem?,
}
use peerless_server.Engine.Inflight.{
  get, insert_all, remove_keys, Phase, checking, claiming, running, releasing, done, arriving, Job,
  Orchestrator, put, cancelled_phase, advance_from, finish_from, cancel_from, Event, submitted,
  advanced, cancels, dropped, finished, with_job, step, run, empty,
}
use peerless_server.Engine.Inflight.Keys.{InflightTargetKey, has_key}
use peerless_server.Engine.Inflight.Table.{get-insert_all}
use peerless_server.Engine.Inflight.Held.{
  Held, IsSafe, get_elem?-append_last, set-IsSafe, put-IsSafe, checked-Held, listen-Held,
  cancelled_phase-Held, woken-IsSafe, insert_all-Held, remove_keys-Held,
}

-- No job stands between its look into the table and the insertion of its keys, but the one that moves.
abbrev pub Alone : Orchestrator → Event → Type 0
Alone s event =
    (id : ℕ) (job : Job)
    → get_elem? s.jobs id ≡ some job
    → job.phase ≡ claiming
    → event ≡ advanced id

abbrev pub Undisturbed : Orchestrator → List Event → Type 0
Undisturbed s [] = Unit
Undisturbed s (event ∷ events) = Alone s event × Undisturbed (step s event) events

-- Of two jobs that run, no key of one is a key of the other.
abbrev pub IsExclusive : Orchestrator → Type 0
IsExclusive s =
    (a b : ℕ) (job other : Job)
    → get_elem? s.jobs a ≡ some job
    → get_elem? s.jobs b ≡ some other
    → job.phase ≡ running
    → other.phase ≡ running
    → (key : InflightTargetKey) → has_key key job.target_keys ≡ true
    → has_key key other.target_keys ≡ true
    → a ≡ b

advance_from-IsSafe :
    (s : Orchestrator) (id : ℕ) (job : Job) (phase : Phase)
    → IsSafe s
    → Alone s (advanced id)
    → Held s.inflight_items id job.target_keys phase
    → IsSafe (advance_from s id job phase)
unfolding advance_from
advance_from-IsSafe s id job checking safe alone own =
    put-IsSafe s id job _ safe (checked-Held s.inflight_items id job.target_keys)
advance_from-IsSafe s id job claiming safe alone own =
    set-IsSafe (insert_all job.target_keys id s.inflight_items) s.jobs id
      (record job { phase = running })
      (λ key h. get-insert_all job.target_keys id s.inflight_items key ∙ rw h refl)
      λ i other ne h.
        insert_all-Held s.inflight_items id i job.target_keys other.target_keys other.phase own
          (λ claims. let e = alone i other h claims in ne cc) (safe i other h)
advance_from-IsSafe s id job (arriving entry) safe alone own =
    put-IsSafe s id job _ safe
      (listen-Held s.inflight_items id entry job.target_keys job.is_cancelled)
advance_from-IsSafe s id job releasing safe alone own =
    woken-IsSafe (put s id job done) id (put-IsSafe s id job done safe tt)
advance_from-IsSafe s id job _ safe alone own = safe

finish_from-IsSafe :
    (s : Orchestrator) (id : ℕ) (job : Job) (success : Bool) (phase : Phase)
    → IsSafe s
    → Held s.inflight_items id job.target_keys phase
    → IsSafe (finish_from s id job success phase)
unfolding finish_from
finish_from-IsSafe s id job success running safe own =
    set-IsSafe (remove_keys job.target_keys s.inflight_items) s.jobs id
      (record job { phase = releasing; success = success }) tt
      λ i other ne h.
        remove_keys-Held s.inflight_items id i job.target_keys other.target_keys other.phase ne own
          (safe i other h)
finish_from-IsSafe s id job success _ safe own = safe

cancel_from-IsSafe :
    (s : Orchestrator) (id : ℕ) (job : Job) (phase : Phase)
    → IsSafe s
    → Held s.inflight_items id job.target_keys phase
    → IsSafe (cancel_from s id job phase)
unfolding cancel_from
cancel_from-IsSafe s id job phase safe own =
    put-IsSafe s id (record job { is_cancelled = true }) (cancelled_phase phase) safe
      (cancelled_phase-Held s.inflight_items id job.target_keys phase own)

with_job-IsSafe :
    (s : Orchestrator) (id : ℕ) (f : Job → Orchestrator)
    → IsSafe s
    → ((job : Job) → get_elem? s.jobs id ≡ some job → IsSafe (f job))
    → IsSafe (with_job s (get_elem? s.jobs id) f)
with_job-IsSafe s id f safe h = elim (Option-cases (get_elem? s.jobs id)) [
  | inl e ↦ rw e safe
  | inr (job, e) ↦ rw e (h job e)
]

step-IsSafe : (s : Orchestrator) (event : Event) → IsSafe s → Alone s event → IsSafe (step s event)
unfolding step
step-IsSafe s (submitted parsed_items single_storefront) safe alone = λ i job h.
    elim (get_elem?-append_last s.jobs _ job i h) [
      | inl old ↦ safe i job old
      | inr new ↦ rw (sym new) tt
    ]
step-IsSafe s (advanced id) safe alone =
    with_job-IsSafe s id _ safe
      λ job e. advance_from-IsSafe s id job job.phase safe alone (safe id job e)
step-IsSafe s (cancels id) safe alone =
    with_job-IsSafe s id _ safe λ job e. cancel_from-IsSafe s id job job.phase safe (safe id job e)
step-IsSafe s (dropped id) safe alone =
    with_job-IsSafe s id _ safe
      λ job e. finish_from-IsSafe s id job job.success job.phase safe (safe id job e)
step-IsSafe s (finished id success) safe alone =
    with_job-IsSafe s id _ safe
      λ job e. finish_from-IsSafe s id job success job.phase safe (safe id job e)

run-IsSafe :
    (s : Orchestrator) (events : List Event)
    → IsSafe s
    → Undisturbed s events
    → IsSafe (run s events)
unfolding run
run-IsSafe s [] safe alone = safe
run-IsSafe s (event ∷ events) safe alone =
    run-IsSafe (step s event) events (step-IsSafe s event safe alone.0) alone.1

running-get :
    (s : Orchestrator) (id : ℕ) (job : Job) (key : InflightTargetKey)
    → IsSafe s
    → get_elem? s.jobs id ≡ some job
    → job.phase ≡ running
    → has_key key job.target_keys ≡ true
    → get s.inflight_items key ≡ some id
running-get s id job key safe h phase k =
    let held : Held s.inflight_items id job.target_keys running = rw phase at (safe id job h) in
    held key k

-- After every history of submissions, moves, cancellations, ends and drops of jobs in which no other
-- task moves between a job's look into the table and its insertion of keys, no two running jobs have a
-- key in common.
pub run-IsExclusive :
    (events : List Event) → Undisturbed empty events → IsExclusive (run empty events)
run-IsExclusive events alone a b job other ha hb ra rb key ka kb =
    let safe = run-IsSafe empty events (λ i j h. cc) alone in
    let p = running-get (run empty events) a job key safe ha ra ka in
    let q = running-get (run empty events) b other key safe hb rb kb in cc
