-- ===== src/Engine/Queue/Commands.antt =====
-- Submissions, clears and aborts keep the queue of crates/engine/src/queue.rs serial.
use peerless_server.Prelude.{
  ℕ, zero, suc, ◌+◌, ◌≡◌, refl, ap, inl, inr, Bool, true, false, List, [], ◌∷◌, ◌++◌, some,
  if◌then◌else◌, Bool-cases, Option-cases, err, length, get_elem?, drop, arith,
}
use peerless_server.Engine.Queue.{
  QueuedItem, QueueState, Worker, Notice, Queue, remove_at, positions, submit, cancel_all, clear,
  index_of, is_active, abort_item, is_nil, aborted, taking, running, releasing, refused, cancelled,
  completed,
}
use peerless_server.Engine.Queue.Counts.{
  hit, count_workers, count_completed, Slot, given_suc, IsSerial, count_items-append,
  count_completed-append, count_completed-positions, count_completed-cancel_all,
  count_items-remove_at, index_of-get_elem?,
}

pub submit-Slot :
    (ws : List Worker) (s : QueueState) (pending : List QueuedItem) (n : ℕ)
    → Slot ws s
    → Slot
        (if s.processing then ws else ws ++ taking ∷ [])
        (record { pending = pending; active = s.active; processing = true; next_id = n })
submit-Slot [] s pending n h = rw h.0 (refl, h.1)
submit-Slot (taking ∷ []) s pending n h = rw h.0 (refl, h.1)
submit-Slot (taking ∷ (_ ∷ _)) s pending n h = elim h [ ]
submit-Slot (running item ∷ (_ ∷ _)) s pending n h = elim h [ ]
submit-Slot (releasing id ∷ (_ ∷ _)) s pending n h = elim h [ ]
submit-Slot (running item ∷ []) s pending n h = rw h.0 (refl, h.1)
submit-Slot (releasing id ∷ []) s pending n h = rw h.0 (refl, h.1)

pub count_workers-append :
    (id : ℕ) (xs ys : List Worker)
    → count_workers id (xs ++ ys) ≡ count_workers id xs + count_workers id ys
count_workers-append id [] ys = omega arith
count_workers-append id (taking ∷ xs) ys = count_workers-append id xs ys
count_workers-append id (running item ∷ xs) ys = omega (arith, count_workers-append id xs ys)
count_workers-append id (releasing n ∷ xs) ys = count_workers-append id xs ys

pub submit_workers :
    (id : ℕ) (ws : List Worker) (b : Bool)
    → count_workers id (if b then ws else ws ++ taking ∷ []) ≡ count_workers id ws
submit_workers id ws true = refl
submit_workers id ws false = omega (arith, count_workers-append id ws (taking ∷ []))

pub submit_notices :
    (id place : ℕ) (ns : List Notice) (items : List QueuedItem) (b : Bool)
    → count_completed id (ns ++ (if b then positions place items else [])) ≡ count_completed id ns
submit_notices id place ns items true = omega (
  arith,
  count_completed-append id ns (positions place items),
  count_completed-positions id place items,
)
submit_notices id place ns items false = omega (arith, count_completed-append id ns [])

pub submit-IsSerial :
    (signal_cancelled on_position_change on_start : Bool) (priority now : ℕ) (q : Queue)
    → IsSerial q
    → IsSerial (submit signal_cancelled on_position_change on_start priority now q)
unfolding submit
submit-IsSerial true p s priority now q i = record {
  slot = i.slot;
  once = λ id. omega (arith, i.once id, count_completed-append id q.notices (refused ∷ []));
  positive = i.positive;
}
submit-IsSerial false p s priority now q i =
    let item : QueuedItem = record {
      id = q.state.next_id;
      on_position_change = p;
      on_start = s;
      priority = priority;
      enqueued_at = now;
    } in
    record {
      slot = submit-Slot q.workers q.state _ _ i.slot;
      once = λ id.
          let a = submit_workers id q.workers q.state.processing in
          let b =
            submit_notices id (length q.state.pending + 1) q.notices (item ∷ [])
              q.state.processing in
          let c = count_items-append id q.state.pending (item ∷ []) in
          omega (arith, a, b, c, i.once id, given_suc id q.state.next_id i.positive);
      positive = omega (arith, i.positive);
    }

pub clear-Slot :
    (ws : List Worker) (s : QueueState)
    → Slot ws s
    → Slot ws
        (record { pending = []; active = s.active; processing = s.processing; next_id = s.next_id })
clear-Slot [] s h = (h.0, h.1, refl)
clear-Slot (taking ∷ []) s h = h
clear-Slot (running item ∷ []) s h = h
clear-Slot (releasing id ∷ []) s h = h
clear-Slot (taking ∷ (_ ∷ _)) s h = elim h [ ]
clear-Slot (running item ∷ (_ ∷ _)) s h = elim h [ ]
clear-Slot (releasing id ∷ (_ ∷ _)) s h = elim h [ ]

pub clear-IsSerial : (q : Queue) → IsSerial q → IsSerial (clear q)
unfolding clear
clear-IsSerial q i = record {
  slot = clear-Slot q.workers q.state i.slot;
  once = λ id. omega (
    arith,
    i.once id,
    count_completed-append id q.notices (cancel_all q.state.pending),
    count_completed-cancel_all id q.state.pending,
  );
  positive = i.positive;
}

pub is_nil-eq : (items : List QueuedItem) → is_nil items ≡ true → items ≡ []
unfolding is_nil
is_nil-eq [] h = refl
is_nil-eq (x ∷ xs) h = cc

-- A worker is there when an item waits.
pub abort-Slot :
    (ws : List Worker) (s : QueueState) (index : ℕ) (item : QueuedItem)
    → get_elem? s.pending index ≡ some item
    → Slot ws s
    → Slot ws (record {
      pending = remove_at index s.pending;
      active = s.active;
      processing = s.processing;
      next_id = s.next_id;
    })
abort-Slot [] s index item g h = cc (rw h.2 at g)
abort-Slot (taking ∷ []) s index item g h = h
abort-Slot (running other ∷ []) s index item g h = h
abort-Slot (releasing id ∷ []) s index item g h = h
abort-Slot (taking ∷ (_ ∷ _)) s index item g h = elim h [ ]
abort-Slot (running other ∷ (_ ∷ _)) s index item g h = elim h [ ]
abort-Slot (releasing id ∷ (_ ∷ _)) s index item g h = elim h [ ]

pub abort_item-IsSerial : (id : ℕ) (q : Queue) → IsSerial q → IsSerial (abort_item id q)
unfolding abort_item
abort_item-IsSerial id q i = elim (Option-cases (index_of id q.state.pending)) [
  | inl e ↦
      rw (abort_item, e)
        (record {
          slot = i.slot;
          once = λ other. elim (Bool-cases (is_active id q.state.active)) [
            | inl a ↦ rw a (
                omega
                  (arith, i.once other, count_completed-append other q.notices (cancelled id ∷ [])))
            | inr a ↦ rw a (omega (arith, i.once other, count_completed-append other q.notices []))
          ];
          positive = i.positive;
        })
  | inr (index, e) ↦
      let (item, g, k) = index_of-get_elem? id q.state.pending index e in
      rw (abort_item, e)
        (record {
          slot = abort-Slot q.workers q.state index item g i.slot;
          once = λ other.
              let rest = drop index (remove_at index q.state.pending) in
              let told : List Notice = positions (index + 1) rest in
              let same : hit item.id other ≡ hit id other = ap (λ n. hit n other) k in
              omega (
                arith,
                i.once other,
                same,
                count_completed-append other q.notices
                    (cancelled id ∷ completed id (err aborted) ∷ told),
                count_completed-positions other (index + 1) rest,
                count_items-remove_at other q.state.pending index item g,
              );
          positive = i.positive;
        })
]

pub Slot-get_elem? :
    (ws : List Worker) (s : QueueState) (n : ℕ) (w : Worker)
    → Slot ws s
    → get_elem? ws n ≡ some w
    → (n ≡ 0) × (ws ≡ w ∷ [])
Slot-get_elem? [] s n w h g = cc
Slot-get_elem? (v ∷ []) s zero w h g = (refl, cc)
Slot-get_elem? (v ∷ []) s (suc n) w h g = cc
Slot-get_elem? (taking ∷ (_ ∷ _)) s n w h g = elim h [ ]
Slot-get_elem? (running item ∷ (_ ∷ _)) s n w h g = elim h [ ]
Slot-get_elem? (releasing id ∷ (_ ∷ _)) s n w h g = elim h [ ]
