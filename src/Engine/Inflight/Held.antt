-- ===== src/Engine/Inflight/Held.antt =====
-- What the table of entries says of the jobs of crates/engine/src/orchestrator/mod.rs, and which changes
-- keep it.
use peerless_server.Prelude.{
  ℕ, zero, suc, ◌≡◌, ◌≢◌, ◌⊎◌, refl, sym, ◌∙◌, inl, inr, List, [], ◌∷◌, ◌++◌, map, none, some,
  Option-cases, Bool, true, false, ◌==◌, ltb, Bool-cases, length, set, get_elem?, get_elem?-set,
  get_elem?-some_lt, arith,
}
use peerless_server.Engine.Inflight.{
  Table, get, insert_all, remove_keys, maybe_inflight, Phase, checking, claiming, running,
  releasing, done, cancelled, arriving, listening, Job, Orchestrator, checked, listen,
  cancelled_phase, woken, woken_phase, put,
}
use peerless_server.Engine.Inflight.Keys.{InflightTargetKey, has_key}
use peerless_server.Engine.Inflight.Table.{get-insert_all, get-remove_keys, maybe_inflight-get}

-- What the table says of the keys of a job at a phase: a running job has its entry under each.
abbrev pub Held : Table → ℕ → List InflightTargetKey → Phase → Type 0
Held items id keys running =
    (key : InflightTargetKey) → has_key key keys ≡ true → get items key ≡ some id
Held items id keys claiming =
    (key : InflightTargetKey) → has_key key keys ≡ true → get items key ≡ none
Held items id keys phase = Unit

abbrev pub IsSafe : Orchestrator → Type 0
IsSafe s =
    (id : ℕ) (job : Job)
    → get_elem? s.jobs id ≡ some job
    → Held s.inflight_items id job.target_keys job.phase

pub get_elem?-append_last :
    {A : Type 0} (xs : List A) (x y : A) (i : ℕ)
    → get_elem? (xs ++ x ∷ []) i ≡ some y
    → (get_elem? xs i ≡ some y) ⊎ (x ≡ y)
get_elem?-append_last [] x y zero h = inr cc
get_elem?-append_last [] x y (suc i) h = cc
get_elem?-append_last (z ∷ xs) x y zero h = inl h
get_elem?-append_last (z ∷ xs) x y (suc i) h = get_elem?-append_last xs x y i h

get_elem?-map :
    {A B : Type 0} (f : A → B) (xs : List A) (y : B) (i : ℕ)
    → get_elem? (map f xs) i ≡ some y
    → (x : A) × (get_elem? xs i ≡ some x) × (f x ≡ y)
get_elem?-map f [] y i h = cc
get_elem?-map f (x ∷ xs) y zero h = (x, refl, cc)
get_elem?-map f (x ∷ xs) y (suc i) h = get_elem?-map f xs y i h

-- A change of one job and of the table is judged for the job and for each other one.
pub set-IsSafe :
    (items : Table) (jobs : List Job) (id : ℕ) (job : Job)
    → Held items id job.target_keys job.phase
    → ((i : ℕ) (other : Job)
        → i ≢ id
        → get_elem? jobs i ≡ some other
        → Held items i other.target_keys other.phase)
    → IsSafe (record { inflight_items = items; jobs = set jobs id job })
set-IsSafe items jobs id job own rest i other h = elim (Bool-cases (id == i)) [
  | inl e ↦ elim (Bool-cases (ltb i (length jobs))) [
    | inl l ↦
        let same : id ≡ i = ground arith in
        let eq : job ≡ other = ground (arith, get_elem?-set jobs id i job) in
        rw (sym same) (rw (sym eq) own)
    | inr l ↦ absurd (ground (arith, get_elem?-set jobs id i job, get_elem?-some_lt jobs i other))
  ]
  | inr e ↦
      let differs : i ≢ id = ground arith in
      rest i other differs (ground (arith, get_elem?-set jobs id i job))
]

pub put-IsSafe :
    (s : Orchestrator) (id : ℕ) (job : Job) (phase : Phase)
    → IsSafe s
    → Held s.inflight_items id job.target_keys phase
    → IsSafe (put s id job phase)
put-IsSafe s id job phase safe own =
    set-IsSafe s.inflight_items s.jobs id (record job { phase = phase }) own
      (λ i other _ h. safe i other h)

pub checked-Held :
    (items : Table) (id : ℕ) (keys : List InflightTargetKey)
    → Held items id keys (checked (maybe_inflight keys items))
checked-Held items id keys = elim (Option-cases (maybe_inflight keys items)) [
  | inl e ↦ rw e (λ key h. maybe_inflight-get keys items key e h)
  | inr (entry, e) ↦ rw e tt
]

pub listen-Held :
    (items : Table) (id entry : ℕ) (keys : List InflightTargetKey) (token : Bool)
    → Held items id keys (listen token entry)
listen-Held items id entry keys true = tt
listen-Held items id entry keys false = tt

pub cancelled_phase-Held :
    (items : Table) (id : ℕ) (keys : List InflightTargetKey) (phase : Phase)
    → Held items id keys phase
    → Held items id keys (cancelled_phase phase)
cancelled_phase-Held items id keys (listening e) h = tt
cancelled_phase-Held items id keys checking h = h
cancelled_phase-Held items id keys claiming h = h
cancelled_phase-Held items id keys running h = h
cancelled_phase-Held items id keys releasing h = h
cancelled_phase-Held items id keys done h = h
cancelled_phase-Held items id keys cancelled h = h
cancelled_phase-Held items id keys (arriving e) h = h

woken-Held :
    (items : Table) (id entry : ℕ) (keys : List InflightTargetKey) (phase : Phase)
    → Held items id keys phase
    → Held items id keys (woken_phase entry phase)
woken-Held items id entry keys checking h = h
woken-Held items id entry keys claiming h = h
woken-Held items id entry keys running h = h
woken-Held items id entry keys releasing h = h
woken-Held items id entry keys done h = h
woken-Held items id entry keys cancelled h = h
woken-Held items id entry keys (arriving e) h = h
woken-Held items id entry keys (listening e) h = elim (Bool-cases (e == entry)) [
  | inl p ↦ rw p tt
  | inr p ↦ rw p tt
]

pub woken-IsSafe :
    (s : Orchestrator) (entry : ℕ)
    → IsSafe s
    → IsSafe (record s { jobs = map (woken entry) s.jobs })
woken-IsSafe s entry safe i job h =
    let (before, e, eq) = get_elem?-map (woken entry) s.jobs job i h in
    rw (sym eq)
      (woken-Held s.inflight_items i entry before.target_keys before.phase (safe i before e))

-- An insertion of keys for which nobody has an entry leaves what the other jobs hold.
pub insert_all-Held :
    (items : Table) (id i : ℕ) (keys others : List InflightTargetKey) (phase : Phase)
    → Held items id keys claiming
    → phase ≢ claiming
    → Held items i others phase
    → Held (insert_all keys id items) i others phase
insert_all-Held items id i keys others claiming free ne h = absurd (ne refl)
insert_all-Held items id i keys others running free ne h = λ key k.
    elim (Bool-cases (has_key key keys)) [
      | inl e ↦ let p = free key e in let q = h key k in cc
      | inr e ↦ get-insert_all keys id items key ∙ rw e (h key k)
    ]
insert_all-Held items id i keys others _ free ne h = tt

-- The removal of the keys of one running job leaves what the other jobs hold.
pub remove_keys-Held :
    (items : Table) (id i : ℕ) (keys others : List InflightTargetKey) (phase : Phase)
    → i ≢ id
    → Held items id keys running
    → Held items i others phase
    → Held (remove_keys keys items) i others phase
remove_keys-Held items id i keys others running ne own h = λ key k.
    elim (Bool-cases (has_key key keys)) [
      | inl e ↦ let p = own key e in let q = h key k in absurd (ne cc)
      | inr e ↦ get-remove_keys keys items key ∙ rw e (h key k)
    ]
remove_keys-Held items id i keys others claiming ne own h = λ key k.
    elim (Bool-cases (has_key key keys)) [
      | inl e ↦ get-remove_keys keys items key ∙ rw e refl
      | inr e ↦ get-remove_keys keys items key ∙ rw e (h key k)
    ]
remove_keys-Held items id i keys others _ ne own h = tt
