-- ===== src/Engine/Inflight/Wakeup.antt =====
-- `notify_waiters` at the end of a job wakes who listens, in crates/engine/src/orchestrator/inflight.rs.
use peerless_server.Prelude.{
  All, ℕ, ◌≡◌, ◌≢◌, refl, sym, ap, ◌∙◌, [], ◌∷◌, none, some, Bool, set, arith,
}
use peerless_server.Engine.Inflight.{
  get, remove_keys, checking, running, releasing, done, listening, Job, Orchestrator, woken,
  woken_phase, advance_from, advanced, finished, step, run,
}
use peerless_server.Engine.Inflight.Table.{remove_keys-All_none}
use peerless_server.Engine.Inflight.Overlap.{IsAt, set-here, set-there, step-advanced, finish}
use peerless_server.Engine.Inflight.Frame.{get_elem?-map-some}

-- When a job ends, each task that listens to it looks into the table again, where none of the job's
-- keys is left.
finished-advanced :
    (s : Orchestrator) (id i : ℕ) (job other : Job) (success : Bool)
    → IsAt s id job
    → job.phase ≡ running
    → IsAt s i other
    → other.phase ≡ listening id
    → IsAt (run s (finished id success ∷ advanced id ∷ [])) i (record other { phase = checking })
      × All
          (λ key. get (run s (finished id success ∷ advanced id ∷ [])).inflight_items key ≡ none)
          job.target_keys
unfolding run advance_from
finished-advanced s id i job other success h p k q =
    let ne : id ≢ i = λ e.
      let same : some job ≡ some other = sym h ∙ rw e k in
      let same' : job ≡ other = cc in let r : job.phase ≡ listening id = rw same' q in cc in
    let ended = record job { phase = releasing; success = success } in
    let s1 : Orchestrator = record {
      inflight_items = remove_keys job.target_keys s.inflight_items;
      jobs = set s.jobs id ended;
    } in
    let e : run s (finished id success ∷ advanced id ∷ []) ≡ advance_from s1 id ended releasing =
      ap (λ t. step t (advanced id)) (finish s id job success h p)
      ∙ step-advanced s1 id ended (set-here s.jobs id job ended h) in
    let k1 = set-there s.jobs id i ended other ne k in
    let k2 = set-there s1.jobs id i (record ended { phase = done }) other ne k1 in
    let woke : woken_phase id (listening id) ≡ checking = ground arith in
    let woke' : woken id other ≡ record other { phase = checking } = rw q (rw woke refl) in
    rw e (
      get_elem?-map-some (woken id) _ i other k2 ∙ ap some woke',
      remove_keys-All_none job.target_keys s.inflight_items,
    )
