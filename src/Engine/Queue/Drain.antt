-- ===== src/Engine/Queue/Drain.antt =====
-- The worker gets through the queue.
use peerless_server.Prelude.{
  ℕ, suc, ◌+◌, ◌-◌, ◌*◌, ◌≤◌, ◌<◌, ◌≡◌, refl, sym, ◌∙◌, Option, none, inl, inr, false, List, [],
  ◌∷◌, some, Bool-cases, Result, length, get_elem?, take, drop, Text, arith, get_elem?-some_lt,
  length-append, length-take, length-drop,
}
use peerless_server.Engine.Queue.{
  Worker, Queue, Event, remove_at, is_nil, worker_take, worker_finish, worker_release, work, step,
  run, worker_runs, taking, running, releasing,
}
use peerless_server.Engine.Queue.Counts.{
  IsSerial, Slot, count_items, count_workers, count_completed, given,
}
use peerless_server.Engine.Queue.Serial.{step-IsSerial, take_next-cases}

-- How many steps the worker has left at most, for so many items that wait.
abbrev pub left : List Worker → ℕ → ℕ
left [] n = 0
left (taking ∷ ws) n = 3 * n + 1
left (running item ∷ ws) n = 3 * n + 3
left (releasing id ∷ ws) n = 3 * n + 2

length-remove_at :
    {A : Type 0} (xs : List A) (n : ℕ) (x : A)
    → get_elem? xs n ≡ some x
    → suc (length (remove_at n xs)) ≡ length xs
length-remove_at xs n x h = omega (
  arith,
  get_elem?-some_lt xs n x h,
  length-append (take n xs) (drop (suc n) xs),
  length-take n xs,
  length-drop (suc n) xs,
)

abbrev rest : Queue → ℕ
rest q = left q.workers (length q.state.pending)

worker_take-left :
    (now : ℕ) (q : Queue)
    → q.workers ≡ taking ∷ []
    → rest (worker_take 0 now q) < 3 * length q.state.pending + 1
unfolding worker_take
worker_take-left now q w = elim (take_next-cases now q.state.pending) [
  | inl (empty, e) ↦ rw (worker_take, e, w) (omega arith)
  | inr (n, item, e, g) ↦
      rw (worker_take, e, w) (omega (arith, length-remove_at q.state.pending n item g))
]

worker_release-left :
    (active : ℕ) (q : Queue)
    → q.workers ≡ releasing active ∷ []
    → rest (worker_release 0 q) < 3 * length q.state.pending + 2
unfolding worker_release
worker_release-left active q w = elim (Bool-cases (is_nil q.state.pending)) [
  | inl e ↦ rw (e, w) (omega arith)
  | inr e ↦ rw (e, w) (omega arith)
]

-- A step of the worker, if there is one, leaves fewer.
work-left :
    (now : ℕ) (result : Result Text Text) (q : Queue) (ws : List Worker)
    → q.workers ≡ ws
    → Slot ws q.state
    → rest (work 0 now result (get_elem? ws 0) q) ≤ left ws (length q.state.pending) - 1
unfolding work
work-left now result q [] w s = rw w (omega arith)
work-left now result q (taking ∷ []) w s = let h = worker_take-left now q w in omega (arith, h)
work-left now result q (running item ∷ []) w s = unfold worker_finish in rw w (omega arith)
work-left now result q (releasing id ∷ []) w s =
    let h = worker_release-left id q w in omega (arith, h)
work-left now result q (taking ∷ (_ ∷ _)) w s = elim s [ ]
work-left now result q (running item ∷ (_ ∷ _)) w s = elim s [ ]
work-left now result q (releasing id ∷ (_ ∷ _)) w s = elim s [ ]

left-zero : (ws : List Worker) (n : ℕ) → left ws n ≤ 0 → ws ≡ []
left-zero [] n h = refl
left-zero (taking ∷ ws) n h = absurd (omega arith)
left-zero (running item ∷ ws) n h = absurd (omega arith)
left-zero (releasing id ∷ ws) n h = absurd (omega arith)

-- The worker runs so often, each time at some instant and with some result of its task.
abbrev pub rounds : List (ℕ × Result Text Text) → List Event
rounds [] = []
rounds ((now, result) ∷ turns) = worker_runs 0 now result ∷ rounds turns

work-next_id :
    (now : ℕ) (result : Result Text Text) (q : Queue) (worker : Option Worker)
    → (work 0 now result worker q).state.next_id ≡ q.state.next_id
unfolding work worker_finish worker_release
work-next_id now result q none = refl
work-next_id now result q (some taking) = elim (take_next-cases now q.state.pending) [
  | inl (empty, e) ↦ rw (worker_take, e) refl
  | inr (n, item, e, g) ↦ rw (worker_take, e) refl
]
work-next_id now result q (some (running item)) = refl
work-next_id now result q (some (releasing id)) = refl

-- The queue is at rest, and of each id that was given out it has told one completion.
abbrev pub Drained : ℕ → Queue → Type 0
Drained next_id q =
    (q.state.pending ≡ [])
    × (q.workers ≡ [])
    × (q.state.processing ≡ false)
    × ((id : ℕ) → count_completed id q.notices ≡ given id next_id)

IsSerial-Drained : (q : Queue) → IsSerial q → q.workers ≡ [] → Drained q.state.next_id q
IsSerial-Drained q i w =
    let s : Slot [] q.state = rw w at i.slot in
    (
      s.2,
      w,
      s.0,
      λ id.
          let one = i.once id in
          let waiting : count_items id q.state.pending ≡ 0 = rw s.2 refl in
          let working : count_workers id q.workers ≡ 0 = rw w refl in
          omega (arith, one, waiting, working),
    )

run-rounds_from :
    (next_id : ℕ) (turns : List (ℕ × Result Text Text)) (q : Queue)
    → q.state.next_id ≡ next_id
    → IsSerial q
    → left q.workers (length q.state.pending) ≤ length turns
    → Drained next_id (run (rounds turns) q)
unfolding run
run-rounds_from next_id [] q e i h =
    let done = IsSerial-Drained q i (left-zero q.workers (length q.state.pending) h) in
    (done.0, done.1, done.2, λ id. rw (sym e) (done.3 id))
run-rounds_from next_id ((now, result) ∷ turns) q e i h =
    let next = step (worker_runs 0 now result) q in
    let d : rest next ≤ rest q - 1 = unfold step in work-left now result q q.workers refl i.slot in
    let same : next.state.next_id ≡ q.state.next_id =
      unfold step in work-next_id now result q (get_elem? q.workers 0) in
    run-rounds_from next_id turns next (same ∙ e) (step-IsSerial (worker_runs 0 now result) q i)
      (omega (arith, d, h))

-- From any state that the queue can be in, the worker alone, in at most so many steps as `left` says and
-- whatever their times and the results of the tasks are, completes everything: then nothing waits, no
-- worker is left, the queue is at rest, and each id that was given out has exactly one completion.
pub run-rounds :
    (turns : List (ℕ × Result Text Text)) (q : Queue)
    → IsSerial q
    → left q.workers (length q.state.pending) ≤ length turns
    → Drained q.state.next_id (run (rounds turns) q)
run-rounds turns q i h = run-rounds_from q.state.next_id turns q refl i h
