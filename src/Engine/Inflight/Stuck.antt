-- ===== src/Engine/Inflight/Stuck.antt =====
-- A wake-up that is lost between the look into the table and `notified()` in
-- crates/engine/src/orchestrator/mod.rs.
use peerless_server.Prelude.{
  ℕ, ◌≡◌, ◌≢◌, ◌⊎◌, inl, inr, refl, sym, ap, ◌∙◌, List, [], ◌∷◌, some, Option-cases, Bool, true,
  false, ◌==◌, Bool-cases, get_elem?, arith,
}
use peerless_server.Engine.Inflight.{
  Phase, done, arriving, listening, Job, Orchestrator, listen, woken_phase, advance_from,
  finish_from, cancel_from, Event, submitted, advanced, cancels, dropped, finished, with_job, step,
  run,
}
use peerless_server.Engine.Inflight.Overlap.{IsAt, set-here}
use peerless_server.Engine.Inflight.Frame.{
  Stands, put-Stands, advance_from-Stands, finish_from-Stands, cancel_from-Stands, append-Stands,
}

-- A job that nobody has cancelled found the entry of another one, which has ended: it comes to `notified()`
-- too late.
abbrev pub IsStuck : Orchestrator → ℕ → ℕ → Type 0
IsStuck s id entry =
    (Stands s id (arriving entry) false ⊎ Stands s id (listening entry) false)
    × ((token : Bool) × Stands s entry done token)

-- Nobody cancels the job from here on.
abbrev pub NotCancelled : ℕ → List Event → Type 0
NotCancelled id [] = Unit
NotCancelled id (event ∷ events) = (event ≢ cancels id) × NotCancelled id events

-- One event, by what it does at a job that is there.
with_job-IsStuck :
    (s : Orchestrator) (i id entry : ℕ) (f : Job → Orchestrator)
    → IsStuck s id entry
    → ((job : Job) → IsAt s i job → IsStuck (f job) id entry)
    → IsStuck (with_job s (get_elem? s.jobs i) f) id entry
with_job-IsStuck s i id entry f st h = elim (Option-cases (get_elem? s.jobs i)) [
  | inl e ↦ rw e st
  | inr (job, e) ↦ rw e (h job e)
]

phase-IsAt :
    (s : Orchestrator) (id : ℕ) (job : Job) (phase : Phase) (token : Bool)
    → IsAt s id job
    → Stands s id phase token
    → (job.phase ≡ phase) × (job.is_cancelled ≡ token)
phase-IsAt s id job phase token h (old, h', p, t) =
    let e : some old ≡ some job = sym h' ∙ h in
    let same : old ≡ job = cc in (rw (sym same) p, rw (sym same) t)

IsStuck-ne : (s : Orchestrator) (id entry : ℕ) → IsStuck s id entry → id ≢ entry
IsStuck-ne s id entry (inl (job, h, p, t), (token, ended)) same =
    let q = (phase-IsAt s entry job done token (rw same at h) ended).0 in cc
IsStuck-ne s id entry (inr (job, h, p, t), (token, ended)) same =
    let q = (phase-IsAt s entry job done token (rw same at h) ended).0 in cc

-- What leaves the phases of the other two leaves a job stuck.
other-IsStuck :
    (s s' : Orchestrator) (id entry : ℕ)
    → (Stands s id (arriving entry) false → Stands s' id (arriving entry) false)
    → (Stands s id (listening entry) false → Stands s' id (listening entry) false)
    → ((token : Bool) → Stands s entry done token → Stands s' entry done token)
    → IsStuck s id entry
    → IsStuck s' id entry
other-IsStuck s s' id entry arrives listens ends (inl st, (token, ended)) =
    (inl (arrives st), (token, ends token ended))
other-IsStuck s s' id entry arrives listens ends (inr st, (token, ended)) =
    (inr (listens st), (token, ends token ended))

advance_own-IsStuck :
    (s : Orchestrator) (id entry : ℕ) (job : Job)
    → IsAt s id job
    → IsStuck s id entry
    → IsStuck (advance_from s id job job.phase) id entry
unfolding advance_from
advance_own-IsStuck s id entry job h (inl st, (token, ended)) =
    let ne = IsStuck-ne s id entry (inl st, (token, ended)) in
    let (at, quiet) = phase-IsAt s id job (arriving entry) false h st in
    let waits : listen job.is_cancelled entry ≡ listening entry = rw quiet refl in
    let moved = record job { phase = listen job.is_cancelled entry } in
    rw at (
      inr (moved, set-here s.jobs id job moved h, waits, quiet),
      (token, put-Stands s id entry job (listen job.is_cancelled entry) done token ne ended),
    )
advance_own-IsStuck s id entry job h (inr st, (token, ended)) =
    rw (phase-IsAt s id job (listening entry) false h st).0 (inr st, (token, ended))

finish_own-IsStuck :
    (s : Orchestrator) (id entry : ℕ) (job : Job) (success : Bool)
    → IsAt s id job
    → IsStuck s id entry
    → IsStuck (finish_from s id job success job.phase) id entry
unfolding finish_from
finish_own-IsStuck s id entry job success h (inl st, (token, ended)) =
    rw (phase-IsAt s id job (arriving entry) false h st).0 (inl st, (token, ended))
finish_own-IsStuck s id entry job success h (inr st, (token, ended)) =
    rw (phase-IsAt s id job (listening entry) false h st).0 (inr st, (token, ended))

advance-IsStuck :
    (s : Orchestrator) (i id entry : ℕ) (job : Job)
    → IsAt s i job
    → IsStuck s id entry
    → IsStuck (advance_from s i job job.phase) id entry
unfolding advance_from
advance-IsStuck s i id entry job h st = elim (Bool-cases (i == entry)) [
  | inl e ↦
      let same : i ≡ entry = ground arith in
      rw (phase-IsAt s entry job done st.1.0 (rw same at h) st.1.1).0 st
  | inr e ↦ elim (Bool-cases (i == id)) [
    | inl f ↦
        let same : i ≡ id = ground arith in
        rw same (advance_own-IsStuck s id entry job (rw same at h) st)
    | inr f ↦
        let ne : i ≢ id = ground arith in
        let ne' : i ≢ entry = ground arith in
        let quiet : woken_phase i (listening entry) ≡ listening entry = ground arith in
        other-IsStuck s (advance_from s i job job.phase) id entry
          (advance_from-Stands s i id job (arriving entry) job.phase false ne refl)
          (advance_from-Stands s i id job (listening entry) job.phase false ne quiet)
          (λ token. advance_from-Stands s i entry job done job.phase token ne' refl) st
  ]
]

finish-IsStuck :
    (s : Orchestrator) (i id entry : ℕ) (job : Job) (success : Bool)
    → IsAt s i job
    → IsStuck s id entry
    → IsStuck (finish_from s i job success job.phase) id entry
unfolding finish_from
finish-IsStuck s i id entry job success h st = elim (Bool-cases (i == entry)) [
  | inl e ↦
      let same : i ≡ entry = ground arith in
      rw (phase-IsAt s entry job done st.1.0 (rw same at h) st.1.1).0 st
  | inr e ↦ elim (Bool-cases (i == id)) [
    | inl f ↦
        let same : i ≡ id = ground arith in
        rw same (finish_own-IsStuck s id entry job success (rw same at h) st)
    | inr f ↦
        let ne : i ≢ id = ground arith in
        let ne' : i ≢ entry = ground arith in
        other-IsStuck s (finish_from s i job success job.phase) id entry
          (finish_from-Stands s i id job success (arriving entry) job.phase false ne)
          (finish_from-Stands s i id job success (listening entry) job.phase false ne)
          (λ token. finish_from-Stands s i entry job success done job.phase token ne') st
  ]
]

other_waits :
    (s : Orchestrator) (i id entry : ℕ) (job : Job)
    → i ≢ id
    → ((token : Bool) × Stands (cancel_from s i job job.phase) entry done token)
    → (Stands s id (arriving entry) false ⊎ Stands s id (listening entry) false)
    → IsStuck (cancel_from s i job job.phase) id entry
other_waits s i id entry job ne ended (inl st) =
    (inl (cancel_from-Stands s i id job (arriving entry) job.phase false ne st), ended)
other_waits s i id entry job ne ended (inr st) =
    (inr (cancel_from-Stands s i id job (listening entry) job.phase false ne st), ended)

cancel-IsStuck :
    (s : Orchestrator) (i id entry : ℕ) (job : Job)
    → i ≢ id
    → IsAt s i job
    → IsStuck s id entry
    → IsStuck (cancel_from s i job job.phase) id entry
unfolding cancel_from
cancel-IsStuck s i id entry job ne h st = elim (Bool-cases (i == entry)) [
  | inl e ↦
      let same : i ≡ entry = ground arith in
      let at = (phase-IsAt s entry job done st.1.0 (rw same at h) st.1.1).0 in
      let told = record job { is_cancelled = true; phase = done } in
      let ended : Stands (cancel_from s i job job.phase) entry done true =
        rw (at, sym same) (told, set-here s.jobs i job told h, refl, refl) in
      other_waits s i id entry job ne (true, ended) st.0
  | inr e ↦
      let ne' : i ≢ entry = ground arith in
      other-IsStuck s (cancel_from s i job job.phase) id entry
        (cancel_from-Stands s i id job (arriving entry) job.phase false ne)
        (cancel_from-Stands s i id job (listening entry) job.phase false ne)
        (λ token. cancel_from-Stands s i entry job done job.phase token ne') st
]

step-IsStuck :
    (s : Orchestrator) (event : Event) (id entry : ℕ)
    → event ≢ cancels id
    → IsStuck s id entry
    → IsStuck (step s event) id entry
unfolding step
step-IsStuck s (submitted parsed_items single_storefront) id entry ne st =
    other-IsStuck s (step s (submitted parsed_items single_storefront)) id entry
      (append-Stands s _ id (arriving entry) false) (append-Stands s _ id (listening entry) false)
      (append-Stands s _ entry done) st
step-IsStuck s (advanced i) id entry ne st =
    with_job-IsStuck s i id entry _ st λ job e. advance-IsStuck s i id entry job e st
step-IsStuck s (cancels i) id entry ne st =
    with_job-IsStuck s i id entry _ st
      λ job e. cancel-IsStuck s i id entry job (λ p. ne (ap cancels p)) e st
step-IsStuck s (dropped i) id entry ne st =
    with_job-IsStuck s i id entry _ st λ job e. finish-IsStuck s i id entry job job.success e st
step-IsStuck s (finished i success) id entry ne st =
    with_job-IsStuck s i id entry _ st λ job e. finish-IsStuck s i id entry job success e st

-- A task that was not cancelled, found the entry of another job and comes to `notified()` only after that
-- job has ended
-- waits in every further history in which nobody cancels it: no event wakes it, and it never runs.
pub run-IsStuck :
    (s : Orchestrator) (events : List Event) (id entry : ℕ)
    → IsStuck s id entry
    → NotCancelled id events
    → IsStuck (run s events) id entry
unfolding run
run-IsStuck s [] id entry st quiet = st
run-IsStuck s (event ∷ events) id entry st quiet =
    run-IsStuck (step s event) events id entry (step-IsStuck s event id entry quiet.0 st) quiet.1
