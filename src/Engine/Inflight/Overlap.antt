-- ===== src/Engine/Inflight/Overlap.antt =====
-- What happens between the two locks of `submit` in crates/engine/src/orchestrator/mod.rs.
use peerless_server.Prelude.{
  All, ℕ, ◌≡◌, ◌≢◌, refl, sym, ap, ◌∙◌, List, [], ◌∷◌, none, some, Bool, set, get_elem?,
  get_elem?-set_self, get_elem?-set_ne, get_elem?-some_lt,
}
use peerless_server.Engine.Inflight.{
  get, remove_keys, insert_all, maybe_inflight, checking, claiming, running, releasing, Job,
  Orchestrator, put, advance_from, finish_from, Event, advanced, finished, step, run,
}
use peerless_server.Engine.Inflight.Table.{remove_keys-All_none}

pub step-advanced :
    (s : Orchestrator) (id : ℕ) (job : Job)
    → get_elem? s.jobs id ≡ some job
    → step s (advanced id) ≡ advance_from s id job job.phase
unfolding step
step-advanced s id job h = rw h refl

pub step-finished :
    (s : Orchestrator) (id : ℕ) (success : Bool) (job : Job)
    → get_elem? s.jobs id ≡ some job
    → step s (finished id success) ≡ finish_from s id job success job.phase
unfolding step
step-finished s id success job h = rw h refl

-- The history of two tasks that both look into the table before one of them inserts.
abbrev pub both_look : ℕ → ℕ → List Event
both_look a b = advanced a ∷ advanced b ∷ advanced a ∷ advanced b ∷ []

abbrev pub IsAt : Orchestrator → ℕ → Job → Type 0
IsAt s id job = get_elem? s.jobs id ≡ some job

pub set-here :
    (jobs : List Job) (id : ℕ) (old job : Job)
    → get_elem? jobs id ≡ some old
    → get_elem? (set jobs id job) id ≡ some job
set-here jobs id old job h = get_elem?-set_self jobs id job (get_elem?-some_lt jobs id old h)

pub set-there :
    (jobs : List Job) (id other : ℕ) (job old : Job)
    → id ≢ other
    → get_elem? jobs other ≡ some old
    → get_elem? (set jobs id job) other ≡ some old
set-there jobs id other job old ne h = get_elem?-set_ne jobs job ne ∙ h

look :
    (s : Orchestrator) (id : ℕ) (job : Job)
    → IsAt s id job
    → job.phase ≡ checking
    → maybe_inflight job.target_keys s.inflight_items ≡ none
    → step s (advanced id) ≡ put s id job claiming
unfolding advance_from
look s id job h phase free = step-advanced s id job h ∙ rw phase (rw free refl)

abbrev claimed : Orchestrator → ℕ → Job → Orchestrator
claimed s id job = record {
  inflight_items = insert_all job.target_keys id s.inflight_items;
  jobs = set s.jobs id (record job { phase = running });
}

claim :
    (s : Orchestrator) (id : ℕ) (job : Job)
    → IsAt s id job
    → job.phase ≡ claiming
    → step s (advanced id) ≡ claimed s id job
unfolding advance_from
claim s id job h phase = step-advanced s id job h ∙ rw phase refl

pub finish :
    (s : Orchestrator) (id : ℕ) (job : Job) (success : Bool)
    → IsAt s id job
    → job.phase ≡ running
    → step s (finished id success) ≡ record {
      inflight_items = remove_keys job.target_keys s.inflight_items;
      jobs = set s.jobs id (record job { phase = releasing; success = success });
    }
unfolding finish_from
finish s id job success h phase = step-finished s id success job h ∙ rw phase refl

-- Two tasks that look into the table one behind the other, before either inserts its keys, both find
-- no entry and both run, whatever their keys are. When the first ends, each of its keys is gone from
-- the table, also those that the second has, which runs on.
pub run-both_look :
    (s : Orchestrator) (a b : ℕ) (job other : Job) (success : Bool)
    → a ≢ b
    → IsAt s a job
    → IsAt s b other
    → job.phase ≡ checking
    → other.phase ≡ checking
    → maybe_inflight job.target_keys s.inflight_items ≡ none
    → maybe_inflight other.target_keys s.inflight_items ≡ none
    → IsAt (run s (both_look a b)) a (record job { phase = running })
      × IsAt (run s (both_look a b)) b (record other { phase = running })
      × IsAt
          (step (run s (both_look a b)) (finished a success))
          b
          (record other { phase = running })
      × All
          (λ key. get (step (run s (both_look a b)) (finished a success)).inflight_items key ≡ none)
          job.target_keys
unfolding run
run-both_look s a b job other success ne ha hb pa pb fa fb =
    let ne' : b ≢ a = λ e. ne (sym e) in
    let s1 = put s a job claiming in
    let b1 : IsAt s1 b other = set-there s.jobs a b _ other ne hb in
    let s2 = put s1 b other claiming in
    let a2 : IsAt s2 a (record job { phase = claiming }) =
      set-there s1.jobs b a _ (record job { phase = claiming }) ne' (set-here s.jobs a job _ ha) in
    let b2 : IsAt s2 b (record other { phase = claiming }) = set-here s1.jobs b other _ b1 in
    let s3 = claimed s2 a job in
    let a3 = set-here s2.jobs a _ (record job { phase = running }) a2 in
    let b3 : IsAt s3 b (record other { phase = claiming }) = set-there s2.jobs a b _ _ ne b2 in
    let s4 = claimed s3 b other in
    let a4 : IsAt s4 a (record job { phase = running }) = set-there s3.jobs b a _ _ ne' a3 in
    let b4 : IsAt s4 b (record other { phase = running }) = set-here s3.jobs b _ _ b3 in
    let e : run s (both_look a b) ≡ s4 =
      ap (λ t. step (step (step t (advanced b)) (advanced a)) (advanced b)) (look s a job ha pa fa)
      ∙ ap (λ t. step (step t (advanced a)) (advanced b)) (look s1 b other b1 pb fb)
      ∙ ap (λ t. step t (advanced b)) (claim s2 a (record job { phase = claiming }) a2 refl)
      ∙ claim s3 b (record other { phase = claiming }) b3 refl in
    rw e (
      a4,
      b4,
      rw (finish s4 a (record job { phase = running }) success a4 refl)
          (set-there s4.jobs a b _ _ ne b4),
      rw (finish s4 a (record job { phase = running }) success a4 refl)
          (remove_keys-All_none job.target_keys s4.inflight_items),
    )
