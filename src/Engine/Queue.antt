-- ===== src/Engine/Queue.antt =====
-- `SequentialRipQueue` of crates/engine/src/queue.rs: the queue behind its mutex, and the workers
-- that `submit` spawns. A step is one critical section with the callbacks and the sends after it; a
-- task is only its result. Instants are in milliseconds.
pub mod Commands
pub mod Counts
pub mod Drain
pub mod Order
pub mod Serial
use peerless_server.Prelude.{
  ℕ, zero, suc, ◌+◌, ◌-◌, ◌/◌, Bool, true, false, not, ◌&&◌, List, [], ◌∷◌, ◌++◌, map, Option, none,
  some, ltb, leb, ◌==◌, if◌then◌else◌, Result, ok, err, length, get_elem?, set, take, drop, Text,
}
use peerless_server.Engine.Priority.{effective_score}

pub data QueueError : Type 0 where
  aborted cleared : QueueError
  task : (panic : Text) → QueueError

-- The callbacks are whether there is one.
pub record QueuedItem : Type 0 where
  pub id : ℕ
  pub on_position_change : Bool
  pub on_start : Bool
  pub priority : ℕ
  pub enqueued_at : ℕ

pub record QueueState : Type 0 where
  pub pending : List QueuedItem
  pub active : Option ℕ
  pub processing : Bool
  pub next_id : ℕ

-- Where a run of `run_worker` stands: before its first critical section, while its task runs, and
-- before its second.
pub data Worker : Type 0 where
  taking : Worker
  running : (item : QueuedItem) → Worker
  releasing : (active : ℕ) → Worker

-- What the queue tells its clients, by the id of the item.
pub data Notice : Type 0 where
  refused : Notice
  position : (id place : ℕ) → Notice
  started cancelled : (id : ℕ) → Notice
  completed : (id : ℕ) → (result : Result Text QueueError) → Notice

pub record Queue : Type 0 where
  pub state : QueueState
  pub workers : List Worker
  pub notices : List Notice

unfoldable pub new : Queue
new = record {
  state = record { pending = []; active = none; processing = false; next_id = 1 };
  workers = [];
  notices = [];
}

abbrev pub remove_at {ℓ} : {A : Type ℓ} → ℕ → List A → List A
remove_at n xs = take n xs ++ drop (suc n) xs

-- The calls of the position callbacks of these items, the first of which is at `place`.
unfoldable pub positions : ℕ → List QueuedItem → List Notice
positions place [] = []
positions place (item ∷ items) =
    let rest = positions (place + 1) items in
    if item.on_position_change then position item.id place ∷ rest else rest

unfoldable pub submit : Bool → Bool → Bool → ℕ → ℕ → Queue → Queue
unfolding positions
submit signal_cancelled on_position_change on_start priority now q =
    if signal_cancelled
    then record { state = q.state; workers = q.workers; notices = q.notices ++ refused ∷ [] }
    else let item : QueuedItem = record {
      id = q.state.next_id;
      on_position_change = on_position_change;
      on_start = on_start;
      priority = priority;
      enqueued_at = now;
    } in
      record {
        state = record {
          pending = q.state.pending ++ item ∷ [];
          active = q.state.active;
          processing = true;
          next_id = q.state.next_id + 1;
        };
        workers = if q.state.processing then q.workers else q.workers ++ taking ∷ [];
        notices =
            q.notices
            ++ (if q.state.processing
                then positions (length q.state.pending + 1) (item ∷ [])
                else []);
      }

unfoldable pub cancel_all : List QueuedItem → List Notice
cancel_all [] = []
cancel_all (item ∷ items) = cancelled item.id ∷ completed item.id (err cleared) ∷ cancel_all items

unfoldable pub clear : Queue → Queue
unfolding cancel_all
clear q = record {
  state = record {
    pending = [];
    active = q.state.active;
    processing = q.state.processing;
    next_id = q.state.next_id;
  };
  workers = q.workers;
  notices = q.notices ++ cancel_all q.state.pending;
}

unfoldable pub index_of : ℕ → List QueuedItem → Option ℕ
index_of id [] = none
index_of id (item ∷ items) =
    let rest = index_of id items in
    if item.id == id then some 0 else elim rest [ none ↦ none | some n ↦ some (suc n) ]

unfoldable pub is_active : ℕ → Option ℕ → Bool
is_active id none = false
is_active id (some n) = n == id

-- The abort of a pending item leaves the others in place; that of the active one cancels its token.
unfoldable pub abort_item : ℕ → Queue → Queue
unfolding index_of positions is_active
abort_item id q = elim (index_of id q.state.pending) [
  | some index ↦
      let pending = remove_at index q.state.pending in
      record {
        state = record {
          pending = pending;
          active = q.state.active;
          processing = q.state.processing;
          next_id = q.state.next_id;
        };
        workers = q.workers;
        notices =
            q.notices
            ++ cancelled id
              ∷ completed id (err aborted)
              ∷ positions (index + 1) (drop index pending);
      }
  | none ↦ record {
    state = q.state;
    workers = q.workers;
    notices = q.notices ++ (if is_active id q.state.active then cancelled id ∷ [] else []);
  }
]

unfoldable pub score_at : ℕ → QueuedItem → ℕ
unfolding effective_score
score_at now item = effective_score item.priority ((now - item.enqueued_at) / 1000)

-- The loop of `take_next` from an index on.
unfoldable pub best_from : ℕ → ℕ → Option (ℕ × ℕ) → List QueuedItem → Option (ℕ × ℕ)
best_from now index best [] = best
best_from now index none (item ∷ items) =
    best_from now (index + 1) (some (index, score_at now item)) items
best_from now index (some (at, best)) (item ∷ items) =
    best_from now (index + 1)
      (if leb (score_at now item) best then some (at, best) else some (index, score_at now item))
      items

-- The item taken and what is left.
unfoldable pub take_next : ℕ → List QueuedItem → Option (QueuedItem × List QueuedItem)
unfolding best_from
take_next now pending = elim (best_from now 0 none pending) [
  | none ↦ none
  | some best ↦ elim (get_elem? pending (best.0)) [
    | none ↦ none
    | some item ↦ some (item, remove_at (best.0) pending)
  ]
]

-- The first critical section of worker `n`, and the callbacks after it.
unfoldable pub worker_take : ℕ → ℕ → Queue → Queue
unfolding take_next positions
worker_take n now q = elim (take_next now q.state.pending) [
  | none ↦ record {
    state = record {
      pending = q.state.pending;
      active = none;
      processing = false;
      next_id = q.state.next_id;
    };
    workers = remove_at n q.workers;
    notices = q.notices;
  }
  | some next ↦ record {
    state = record {
      pending = next.1;
      active = some next.0.id;
      processing = q.state.processing;
      next_id = q.state.next_id;
    };
    workers = set q.workers n (running next.0);
    notices =
        q.notices
        ++ (positions 1 next.1 ++ (if next.0.on_start then started next.0.id ∷ [] else []));
  }
]

-- A result of the task, or the message of its panic.
unfoldable pub task_result : Result Text Text → Result Text QueueError
task_result (ok value) = ok value
task_result (err panic) = err (task panic)

unfoldable pub worker_finish : ℕ → QueuedItem → Result Text Text → Queue → Queue
unfolding task_result
worker_finish n item result q = record {
  state = q.state;
  workers = set q.workers n (releasing item.id);
  notices = q.notices ++ completed item.id (task_result result) ∷ [];
}

unfoldable pub is_nil {ℓ} : {A : Type ℓ} → List A → Bool
is_nil [] = true
is_nil (_ ∷ _) = false

-- The second critical section of worker `n`.
unfoldable pub worker_release : ℕ → Queue → Queue
unfolding is_nil
worker_release n q =
    let empty = is_nil q.state.pending in
    record {
      state = record {
        pending = q.state.pending;
        active = none;
        processing = if empty then false else q.state.processing;
        next_id = q.state.next_id;
      };
      workers = if empty then remove_at n q.workers else set q.workers n taking;
      notices = q.notices;
    }

pub data Event : Type 0 where
  submitted : (signal_cancelled on_position_change on_start : Bool) → (priority now : ℕ) → Event
  clear_called : Event
  abort_signalled : (id : ℕ) → Event
  worker_runs : (n now : ℕ) → (result : Result Text Text) → Event

-- A worker that runs goes on to its next critical section.
unfoldable pub work : ℕ → ℕ → Result Text Text → Option Worker → Queue → Queue
unfolding worker_take worker_finish worker_release
work n now result none q = q
work n now result (some taking) q = worker_take n now q
work n now result (some (running item)) q = worker_finish n item result q
work n now result (some (releasing active)) q = worker_release n q

unfoldable pub step : Event → Queue → Queue
unfolding submit clear abort_item work
step (submitted signal_cancelled on_position_change on_start priority now) q =
    submit signal_cancelled on_position_change on_start priority now q
step clear_called q = clear q
step (abort_signalled id) q = abort_item id q
step (worker_runs n now result) q = work n now result (get_elem? q.workers n) q

unfoldable pub run : List Event → Queue → Queue
run [] q = q
run (event ∷ events) q = run events (step event q)
