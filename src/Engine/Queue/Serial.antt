-- ===== src/Engine/Queue/Serial.antt =====
-- Whatever happens to the queue, it runs one task at a time and completes each item once.
use peerless_server.Prelude.{
  ℕ, ◌≡◌, refl, ◌⊎◌, inl, inr, List, [], ◌∷◌, ◌++◌, Option, none, some, if◌then◌else◌, Bool-cases,
  Result, get_elem?, Text, arith,
}
use peerless_server.Engine.Queue.{
  QueuedItem, Worker, Notice, Queue, Event, new, remove_at, positions, take_next, worker_take,
  worker_finish, worker_release, task_result, is_nil, work, step, run, submitted, clear_called,
  abort_signalled, worker_runs, taking, running, releasing, started, completed,
}
use peerless_server.Engine.Queue.Order.{take_next-Leads}
use peerless_server.Engine.Queue.Counts.{
  count_completed, Slot, IsSerial, count_completed-append, count_completed-positions,
  count_items-remove_at,
}
use peerless_server.Engine.Queue.Commands.{
  submit-IsSerial, clear-IsSerial, is_nil-eq, abort_item-IsSerial, Slot-get_elem?,
}

-- What `take_next` can return.
pub take_next-cases :
    (now : ℕ) (pending : List QueuedItem)
    → ((pending ≡ []) × (take_next now pending ≡ none))
      ⊎ ((n : ℕ) × (item : QueuedItem) × (take_next now pending ≡ some (item, remove_at n pending))
          × (get_elem? pending n ≡ some item))
take_next-cases now [] = inl (refl, unfold take_next in refl)
take_next-cases now (x ∷ xs) =
    let (n, item, e, l) = take_next-Leads now x xs in inr (n, item, e, l.at)

worker_take-IsSerial :
    (now : ℕ) (q : Queue) → q.workers ≡ taking ∷ [] → IsSerial q → IsSerial (worker_take 0 now q)
unfolding worker_take
worker_take-IsSerial now q w i =
    let slot : Slot (taking ∷ []) q.state = rw w at i.slot in
    elim (take_next-cases now q.state.pending) [
      | inl (empty, e) ↦
          rw (worker_take, e)
            (record {
              slot = rw w (refl, refl, empty);
              once = λ id. let o = rw w at i.once id in rw w (omega (arith, o));
              positive = i.positive;
            })
      | inr (n, item, e, g) ↦
          rw (worker_take, e)
            (record {
              slot = rw w (slot.0, refl);
              once = λ id.
                  let o = rw w at i.once id in
                  let told : List Notice = if item.on_start then started item.id ∷ [] else [] in
                  let silent : count_completed id told ≡ 0 = elim (Bool-cases item.on_start) [
                    | inl b ↦ rw b refl
                    | inr b ↦ rw b refl
                  ] in
                  let rest = remove_at n q.state.pending in
                  rw w (
                    omega (
                      arith,
                      o,
                      silent,
                      count_completed-append id q.notices (positions 1 rest ++ told),
                      count_completed-append id (positions 1 rest) told,
                      count_completed-positions id 1 rest,
                      count_items-remove_at id q.state.pending n item g,
                    ));
              positive = i.positive;
            })
    ]

worker_finish-IsSerial :
    (item : QueuedItem) (result : Result Text Text) (q : Queue)
    → q.workers ≡ running item ∷ []
    → IsSerial q
    → IsSerial (worker_finish 0 item result q)
unfolding worker_finish
worker_finish-IsSerial item result q w i =
    let slot : Slot (running item ∷ []) q.state = rw w at i.slot in
    record {
      slot = rw w slot;
      once = λ id.
          let o = rw w at i.once id in
          rw w (
            omega (
              arith,
              o,
              count_completed-append id q.notices (completed item.id (task_result result) ∷ []),
            ));
      positive = i.positive;
    }

worker_release-IsSerial :
    (active : ℕ) (q : Queue)
    → q.workers ≡ releasing active ∷ []
    → IsSerial q
    → IsSerial (worker_release 0 q)
unfolding worker_release
worker_release-IsSerial active q w i =
    let slot : Slot (releasing active ∷ []) q.state = rw w at i.slot in
    elim (Bool-cases (is_nil q.state.pending)) [
      | inl b ↦ rw b (record {
        slot = rw w (refl, refl, is_nil-eq q.state.pending b);
        once = λ id. let o = rw w at i.once id in rw w (omega (arith, o));
        positive = i.positive;
      })
      | inr b ↦ rw b (record {
        slot = rw w (slot.0, refl);
        once = λ id. let o = rw w at i.once id in rw w (omega (arith, o));
        positive = i.positive;
      })
    ]

work-IsSerial :
    (n now : ℕ) (result : Result Text Text) (worker : Option Worker) (q : Queue)
    → get_elem? q.workers n ≡ worker
    → IsSerial q
    → IsSerial (work n now result worker q)
unfolding work
work-IsSerial n now result none q g i = i
work-IsSerial n now result (some taking) q g i =
    let (z, w) = Slot-get_elem? q.workers q.state n taking i.slot g in
    rw z (worker_take-IsSerial now q w i)
work-IsSerial n now result (some (running item)) q g i =
    let (z, w) = Slot-get_elem? q.workers q.state n (running item) i.slot g in
    rw z (worker_finish-IsSerial item result q w i)
work-IsSerial n now result (some (releasing active)) q g i =
    let (z, w) = Slot-get_elem? q.workers q.state n (releasing active) i.slot g in
    rw z (worker_release-IsSerial active q w i)

-- Every step of the queue keeps the invariant.
pub step-IsSerial : (event : Event) (q : Queue) → IsSerial q → IsSerial (step event q)
unfolding step
step-IsSerial (submitted signal_cancelled p s priority now) q i =
    submit-IsSerial signal_cancelled p s priority now q i
step-IsSerial clear_called q i = clear-IsSerial q i
step-IsSerial (abort_signalled id) q i = abort_item-IsSerial id q i
step-IsSerial (worker_runs n now result) q i =
    work-IsSerial n now result (get_elem? q.workers n) q refl i

run-step_IsSerial : (events : List Event) (q : Queue) → IsSerial q → IsSerial (run events q)
unfolding run
run-step_IsSerial [] q i = i
run-step_IsSerial (event ∷ events) q i =
    run-step_IsSerial events (step event q) (step-IsSerial event q i)

new-IsSerial : IsSerial new
unfolding new
new-IsSerial = record {
  slot = (refl, refl, refl);
  once = λ id. ground arith;
  positive = omega arith;
}

-- After any submissions, clears, aborts and runs of the workers, in any order, there is at most one
-- run of `run_worker`, the flags `processing` and `active` say what it does, no item waits without
-- one, and each id that was given out occurs exactly once: as an item that waits, as the one that
-- runs, or in one completion.
pub run-IsSerial : (events : List Event) → IsSerial (run events new)
run-IsSerial events = run-step_IsSerial events new new-IsSerial
