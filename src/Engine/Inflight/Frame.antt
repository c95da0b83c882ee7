-- ===== src/Engine/Inflight/Frame.antt =====
-- What a move of one job leaves of the others, in crates/engine/src/orchestrator/mod.rs.
use peerless_server.Prelude.{
  ℕ, zero, suc, ◌≡◌, ◌≢◌, ap, ◌∙◌, List, [], ◌∷◌, ◌++◌, map, some, Bool, true, get_elem?,
}
use peerless_server.Engine.Inflight.{
  Phase, checking, claiming, running, releasing, arriving, Job, Orchestrator, put, cancelled_phase,
  woken, woken_phase, advance_from, finish_from, cancel_from,
}
use peerless_server.Engine.Inflight.Overlap.{IsAt, set-there}

-- A job that stands at a phase, with its token set or not.
abbrev pub Stands : Orchestrator → ℕ → Phase → Bool → Type 0
Stands s id phase token =
    (job : Job) × IsAt s id job × (job.phase ≡ phase) × (job.is_cancelled ≡ token)

pub put-Stands :
    (s : Orchestrator) (id other : ℕ) (job : Job) (to phase : Phase) (token : Bool)
    → id ≢ other
    → Stands s other phase token
    → Stands (put s id job to) other phase token
put-Stands s id other job to phase token ne (old, h, p, t) =
    (old, set-there s.jobs id other _ old ne h, p, t)

pub get_elem?-map-some :
    {A B : Type 0} (f : A → B) (xs : List A) (i : ℕ) (x : A)
    → get_elem? xs i ≡ some x
    → get_elem? (map f xs) i ≡ some (f x)
get_elem?-map-some f [] i x h = cc
get_elem?-map-some f (y ∷ xs) zero x h = cc
get_elem?-map-some f (y ∷ xs) (suc i) x h = get_elem?-map-some f xs i x h

-- A move of one job leaves the phase of another, if it is none that the move wakes.
pub advance_from-Stands :
    (s : Orchestrator) (id other : ℕ) (job : Job) (phase own : Phase) (token : Bool)
    → id ≢ other
    → woken_phase id phase ≡ phase
    → Stands s other phase token
    → Stands (advance_from s id job own) other phase token
unfolding advance_from
advance_from-Stands s id other job phase checking token ne w st =
    put-Stands s id other job _ phase token ne st
advance_from-Stands s id other job phase claiming token ne w (old, h, p, t) =
    (old, set-there s.jobs id other _ old ne h, p, t)
advance_from-Stands s id other job phase (arriving e) token ne w st =
    put-Stands s id other job _ phase token ne st
advance_from-Stands s id other job phase releasing token ne w (old, h, p, t) = (
  woken id old,
  get_elem?-map-some (woken id) _ other old (set-there s.jobs id other _ old ne h),
  ap (woken_phase id) p ∙ w,
  t,
)
advance_from-Stands s id other job phase _ token ne w st = st

pub finish_from-Stands :
    (s : Orchestrator) (id other : ℕ) (job : Job) (success : Bool) (phase own : Phase)
    (token : Bool)
    → id ≢ other
    → Stands s other phase token
    → Stands (finish_from s id job success own) other phase token
unfolding finish_from
finish_from-Stands s id other job success phase running token ne (old, h, p, t) =
    (old, set-there s.jobs id other _ old ne h, p, t)
finish_from-Stands s id other job success phase _ token ne st = st

pub cancel_from-Stands :
    (s : Orchestrator) (id other : ℕ) (job : Job) (phase own : Phase) (token : Bool)
    → id ≢ other
    → Stands s other phase token
    → Stands (cancel_from s id job own) other phase token
unfolding cancel_from
cancel_from-Stands s id other job phase own token ne st =
    put-Stands s id other (record job { is_cancelled = true }) (cancelled_phase own) phase token ne
      st

get_elem?-append-some :
    {A : Type 0} (xs ys : List A) (i : ℕ) (x : A)
    → get_elem? xs i ≡ some x
    → get_elem? (xs ++ ys) i ≡ some x
get_elem?-append-some [] ys i x h = cc
get_elem?-append-some (y ∷ xs) ys zero x h = h
get_elem?-append-some (y ∷ xs) ys (suc i) x h = get_elem?-append-some xs ys i x h

pub append-Stands :
    (s : Orchestrator) (job : Job) (id : ℕ) (phase : Phase) (token : Bool)
    → Stands s id phase token
    → Stands (record s { jobs = s.jobs ++ job ∷ [] }) id phase token
append-Stands s job id phase token (old, h, p, t) =
    (old, get_elem?-append-some s.jobs _ id old h, p, t)
