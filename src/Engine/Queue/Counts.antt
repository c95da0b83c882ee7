-- ===== src/Engine/Queue/Counts.antt =====
-- How often the queue has an item, and the invariant of the queue.
use peerless_server.Prelude.{
  ℕ, zero, suc, ◌+◌, ◌≤◌, ◌≡◌, refl, inl, inr, true, false, ◌&&◌, List, [], ◌∷◌, ◌++◌, none, some,
  ltb, leb, ◌==◌, if◌then◌else◌, Bool-cases, Option-cases, get_elem?, arith,
}
use peerless_server.Engine.Queue.{
  QueuedItem, QueueState, Worker, Notice, Queue, remove_at, positions, cancel_all, index_of, taking,
  running, releasing, refused, position, started, cancelled, completed,
}

abbrev pub hit : ℕ → ℕ → ℕ
hit a b = if a == b then 1 else 0

abbrev pub count_items : ℕ → List QueuedItem → ℕ
count_items id [] = 0
count_items id (item ∷ items) = hit item.id id + count_items id items

abbrev pub count_workers : ℕ → List Worker → ℕ
count_workers id [] = 0
count_workers id (taking ∷ ws) = count_workers id ws
count_workers id (running item ∷ ws) = hit item.id id + count_workers id ws
count_workers id (releasing n ∷ ws) = count_workers id ws

abbrev pub count_completed : ℕ → List Notice → ℕ
count_completed id [] = 0
count_completed id (completed n result ∷ ns) = hit n id + count_completed id ns
count_completed id (refused ∷ ns) = count_completed id ns
count_completed id (position n place ∷ ns) = count_completed id ns
count_completed id (started n ∷ ns) = count_completed id ns
count_completed id (cancelled n ∷ ns) = count_completed id ns

-- How often the queue has the item: waiting, running or completed.
abbrev pub occurrences : ℕ → Queue → ℕ
occurrences id q =
    count_completed id q.notices + count_items id q.state.pending + count_workers id q.workers

-- The number of runs of `run_worker`, one at most, and what the flags say of it. With none, nothing waits.
abbrev pub Slot : List Worker → QueueState → Type 0
Slot [] s = (s.processing ≡ false) × (s.active ≡ none) × (s.pending ≡ [])
Slot (taking ∷ []) s = (s.processing ≡ true) × (s.active ≡ none)
Slot (running item ∷ []) s = (s.processing ≡ true) × (s.active ≡ some item.id)
Slot (releasing n ∷ []) s = (s.processing ≡ true) × (s.active ≡ some n)
Slot (_ ∷ _ ∷ _) s = ⊥

abbrev pub given : ℕ → ℕ → ℕ
given id next_id = if leb 1 id && ltb id next_id then 1 else 0

pub given_suc :
    (id next_id : ℕ) → 1 ≤ next_id → given id (next_id + 1) ≡ hit next_id id + given id next_id
given_suc id next_id h = ground arith

pub record IsSerial (q : Queue) : Type 0 where
  pub slot : Slot q.workers q.state
  -- An id that was given out occurs once, any other not at all.
  pub once : (id : ℕ) → occurrences id q ≡ given id q.state.next_id
  pub positive : 1 ≤ q.state.next_id

pub count_items-append :
    (id : ℕ) (xs ys : List QueuedItem)
    → count_items id (xs ++ ys) ≡ count_items id xs + count_items id ys
count_items-append id [] ys = omega arith
count_items-append id (x ∷ xs) ys = omega (arith, count_items-append id xs ys)

pub count_completed-append :
    (id : ℕ) (xs ys : List Notice)
    → count_completed id (xs ++ ys) ≡ count_completed id xs + count_completed id ys
count_completed-append id [] ys = omega arith
count_completed-append id (completed n result ∷ xs) ys =
    omega (arith, count_completed-append id xs ys)
count_completed-append id (refused ∷ xs) ys = count_completed-append id xs ys
count_completed-append id (position n place ∷ xs) ys = count_completed-append id xs ys
count_completed-append id (started n ∷ xs) ys = count_completed-append id xs ys
count_completed-append id (cancelled n ∷ xs) ys = count_completed-append id xs ys

pub count_completed-positions :
    (id place : ℕ) (items : List QueuedItem) → count_completed id (positions place items) ≡ 0
unfolding positions
count_completed-positions id place [] = refl
count_completed-positions id place (x ∷ xs) = elim (Bool-cases x.on_position_change) [
  | inl e ↦ rw e (count_completed-positions id (place + 1) xs)
  | inr e ↦ rw e (count_completed-positions id (place + 1) xs)
]

pub count_completed-cancel_all :
    (id : ℕ) (items : List QueuedItem)
    → count_completed id (cancel_all items) ≡ count_items id items
unfolding cancel_all
count_completed-cancel_all id [] = refl
count_completed-cancel_all id (x ∷ xs) = omega (arith, count_completed-cancel_all id xs)

pub count_items-remove_at :
    (id : ℕ) (xs : List QueuedItem) (n : ℕ) (item : QueuedItem)
    → get_elem? xs n ≡ some item
    → hit item.id id + count_items id (remove_at n xs) ≡ count_items id xs
count_items-remove_at id [] n item h = cc
count_items-remove_at id (x ∷ xs) zero item h = grind arith
count_items-remove_at id (x ∷ xs) (suc n) item h =
    omega (arith, count_items-remove_at id xs n item h)

pub index_of-get_elem? :
    (id : ℕ) (xs : List QueuedItem) (n : ℕ)
    → index_of id xs ≡ some n
    → (item : QueuedItem) × (get_elem? xs n ≡ some item) × (item.id ≡ id)
unfolding index_of
index_of-get_elem? id [] n h = cc
index_of-get_elem? id (x ∷ xs) n h = elim (Bool-cases (x.id == id)) [
  | inl e ↦ let k : n ≡ 0 = cc (rw e at h) in (x, rw k refl, ground arith)
  | inr e ↦ elim (Option-cases (index_of id xs)) [
    | inl z ↦ cc (rw (e, z) at h)
    | inr (m, z) ↦ let k : n ≡ suc m = cc (rw (e, z) at h) in rw k (index_of-get_elem? id xs m z)
  ]
]
