-- ===== src/Engine/Queue/Order.antt =====
-- Which item `take_next` takes.
use peerless_server.Prelude.{
  ℕ, suc, ◌+◌, ◌≤◌, ◌<◌, ◌≡◌, refl, ◌⊎◌, inl, inr, List, [], ◌∷◌, none, some, leb, Bool-cases, All,
  get_elem?, take, drop, arith,
}
use peerless_server.Engine.Queue.{QueuedItem, score_at, best_from, take_next, remove_at}

-- The item at `n` leads: it beats those before it, and those after it do not beat it.
pub record Leads (now : ℕ) (pending : List QueuedItem) (n : ℕ) (item : QueuedItem) : Type 0 where
  pub at : get_elem? pending n ≡ some item
  pub before : All (λ other. score_at now other < score_at now item) (take n pending)
  pub after : All (λ other. score_at now other ≤ score_at now item) (drop (suc n) pending)

-- What the loop returns: the best so far, which nothing beat, or an item that leads the rest.
abbrev Found : ℕ → ℕ → ℕ → ℕ → List QueuedItem → Type 0
Found now index at best items =
    ((best_from now index (some (at, best)) items ≡ some (at, best))
      × All (λ other. score_at now other ≤ best) items)
    ⊎ ((n : ℕ) × (item : QueuedItem) × (best_from now index (some (at, best)) items
          ≡ some (index + n, score_at now item))
        × (best < score_at now item)
        × Leads now items n item)

Leads-suc :
    (now : ℕ) (x : QueuedItem) (xs : List QueuedItem) (n : ℕ) (item : QueuedItem)
    → score_at now x < score_at now item
    → Leads now xs n item
    → Leads now (x ∷ xs) (suc n) item
Leads-suc now x xs n item h l = record { at = l.at; before = (h, l.before); after = l.after }

best_from-Found : (now index at best : ℕ) (items : List QueuedItem) → Found now index at best items
unfolding best_from
best_from-Found now index at best [] = inl (refl, tt)
best_from-Found now index at best (x ∷ xs) = elim (Bool-cases (leb (score_at now x) best)) [
  | inl keep ↦ elim (best_from-Found now (index + 1) at best xs) [
    | inl (e, a) ↦ inl (rw keep e, (ground arith, a))
    | inr (n, item, e, b, l) ↦
        let k : index + 1 + n ≡ index + suc n = omega arith in
        inr (suc n, item, rw keep (rw k at e), b, Leads-suc now x xs n item (ground arith) l)
  ]
  | inr new ↦ elim (best_from-Found now (index + 1) index (score_at now x) xs) [
    | inl (e, a) ↦
        let k : index + 0 ≡ index = omega arith in
        inr (0, x, rw (new, k) e, ground arith, record { at = refl; before = tt; after = a })
    | inr (n, item, e, b, l) ↦
        let k : index + 1 + n ≡ index + suc n = omega arith in
        inr (suc n, item, rw new (rw k at e), ground arith, Leads-suc now x xs n item b l)
  ]
]

best_from-Leads :
    (now : ℕ) (x : QueuedItem) (xs : List QueuedItem)
    → (n : ℕ) × (item : QueuedItem) × (best_from now 0 none (x ∷ xs) ≡ some (n, score_at now item))
      × Leads now (x ∷ xs) n item
unfolding best_from
best_from-Leads now x xs = elim (best_from-Found now 1 0 (score_at now x) xs) [
  | inl (e, a) ↦ (0, x, e, record { at = refl; before = tt; after = a })
  | inr (n, item, e, b, l) ↦
      (suc n, item, let k : 1 + n ≡ suc n = omega arith in rw k at e, Leads-suc now x xs n item b l)
]

take_next-some :
    (now : ℕ) (pending : List QueuedItem) (n s : ℕ) (item : QueuedItem)
    → best_from now 0 none pending ≡ some (n, s)
    → get_elem? pending n ≡ some item
    → take_next now pending ≡ some (item, remove_at n pending)
unfolding take_next
take_next-some now pending n s item e g = rw (take_next, e, g) refl

-- `take_next` on a queue that is not empty takes the first item of the highest score, waiting time
-- included, and leaves the others in their order.
pub take_next-Leads :
    (now : ℕ) (x : QueuedItem) (xs : List QueuedItem)
    → (n : ℕ) × (item : QueuedItem) × (take_next now (x ∷ xs) ≡ some (item, remove_at n (x ∷ xs)))
      × Leads now (x ∷ xs) n item
take_next-Leads now x xs =
    let (n, item, e, l) = best_from-Leads now x xs in
    (n, item, take_next-some now (x ∷ xs) n (score_at now item) item e l.at, l)
