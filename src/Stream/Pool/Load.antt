-- ===== src/Stream/Pool/Load.antt =====
-- The worker that is picked is free and has the least load.
use native.Mathlib.Nat.{mod-lt, mod-eq_of_lt, add-mul-mod_self_right}
use peerless_server.Prelude.{
  ℕ, zero, suc, ◌+◌, ◌-◌, ◌*◌, ◌%◌, ◌≤◌, ◌<◌, ◌≡◌, refl, ap, ◌∙◌, ◌⊎◌, inl, inr, Bool, true, false,
  ◌&&◌, List, [], ◌∷◌, Option, none, some, ltb, leb, ◌==◌, Bool-cases, Option-cases, length,
  get_elem?, get_elem?-some_lt, arith,
}
use peerless_server.Stream.Breaker.{is_available}
use peerless_server.Stream.Pool.{
  WorkerInstance, StreamWorkerPool, usize_max, least, pick_least_loaded,
}

-- The worker at an index is free and not below the load.
abbrev Free : List WorkerInstance → (ℕ → Bool) → ℕ → WorkerInstance → Type 0
Free workers available i w = (get_elem? workers i ≡ some w) × (available w.id ≡ true)

-- What the loop returns after it has read the offsets from `offset` on.
record Scanned (workers : List WorkerInstance) (available : ℕ → Bool) (start offset count : ℕ)
    (best result : Option ℕ × ℕ) : Type 0 where
  falls : result.1 ≤ best.1
  least_of :
      (i : ℕ) (w : WorkerInstance)
      → offset ≤ i
      → i < offset + count
      → Free workers available ((start + i) % length workers) w
      → result.1 ≤ w.in_flight
  from :
      (result ≡ best)
      ⊎ ((i : ℕ) × (w : WorkerInstance) × Free workers available i w
          × (result ≡ (some w.id, w.in_flight))
          × (w.in_flight < best.1))

module _ (workers : List WorkerInstance) (available : ℕ → Bool) (start : ℕ) where
  -- What holds of the worker at an offset and of those behind it holds from the offset on.
  least_of_next :
      (offset count bound : ℕ)
      → ((w : WorkerInstance)
          → Free workers available ((start + offset) % length workers) w
          → bound ≤ w.in_flight)
      → ((i : ℕ) (w : WorkerInstance)
          → offset + 1 ≤ i
          → i < offset + 1 + count
          → Free workers available ((start + i) % length workers) w
          → bound ≤ w.in_flight)
      → (i : ℕ) (w : WorkerInstance) → offset ≤ i
      → i < offset + suc count
      → Free workers available ((start + i) % length workers) w
      → bound ≤ w.in_flight
  least_of_next offset count bound here behind i w h k f = elim (Bool-cases (i == offset)) [
    | inl q ↦ let p : i ≡ offset = ground arith in here w (rw p at f)
    | inr q ↦ behind i w (ground arith) (omega arith) f
  ]

  Free-eq :
      (i : ℕ) (worker w : WorkerInstance)
      → get_elem? workers i ≡ some worker
      → Free workers available i w
      → worker ≡ w
  Free-eq i worker w e f = let g = f.0 in cc

  -- A worker that is free and is not taken has no lower load.
  heavy :
      (worker w : WorkerInstance) (best load : ℕ)
      → worker ≡ w
      → (available worker.id && ltb worker.in_flight best) ≡ false
      → available w.id ≡ true
      → load ≤ best
      → load ≤ w.in_flight
  heavy worker w best load same b free low =
      let t : worker.in_flight ≡ w.in_flight = ap (λ x. x.in_flight) same in
      let a : available worker.id ≡ true = ap (λ x. available x.id) same ∙ free in
      let b' : ltb worker.in_flight best ≡ false = rw a at b in
      let c : best ≤ worker.in_flight = ground arith in omega arith

  least-Scanned :
      (count offset : ℕ) (best : Option ℕ × ℕ)
      → Scanned workers available start offset count best
          (least workers available start offset count best)
  unfolding least
  least-Scanned zero offset best = record {
    falls = omega arith;
    least_of = λ i w h k f. absurd (omega arith);
    from = inl refl;
  }
  least-Scanned (suc count) offset best =
      elim (Option-cases (get_elem? workers ((start + offset) % length workers))) [
        | inl e ↦
            let s = least-Scanned count (offset + 1) best in
            let next = least_of_next offset count _ (λ w f. let g = f.0 in cc) s.least_of in
            rw (least, e) (record { falls = s.falls; least_of = next; from = s.from })
        | inr (worker, e) ↦ elim (Bool-cases (available worker.id && ltb worker.in_flight best.1)) [
          | inl b ↦
              let s = least-Scanned count (offset + 1) (some worker.id, worker.in_flight) in
              let lower : worker.in_flight < best.1 = ground arith in
              let free : available worker.id ≡ true = ground arith in
              let next =
                least_of_next offset count _
                  (λ w f.
                    let t = ap (λ x. x.in_flight) (Free-eq _ worker w e f) in
                    omega (arith, s.falls, t))
                  s.least_of in
              rw (least, e, b)
                (record {
                  falls = omega (arith, s.falls);
                  least_of = next;
                  from = elim s.from [
                    | inl r ↦ inr ((start + offset) % length workers, worker, (e, free), r, lower)
                    | inr (i, w, f, r, l) ↦ inr (i, w, f, r, omega arith)
                  ];
                })
          | inr b ↦
              let s = least-Scanned count (offset + 1) best in
              let next =
                least_of_next offset count _
                  (λ w f. heavy worker w best.1 _ (Free-eq _ worker w e f) b f.1 s.falls)
                  s.least_of in
              rw (least, e, b) (record { falls = s.falls; least_of = next; from = s.from })
        ]
      ]

-- Every index is that of some offset from the start.
offset_of : (n start j : ℕ) → start < n → j < n → (i : ℕ) × (i < n) × ((start + i) % n ≡ j)
offset_of n start j h k = elim (Bool-cases (leb start j)) [
  | inl e ↦
      let p : start + (j - start) ≡ j = ground arith in
      (j - start, omega arith, ap (λ x. x % n) p ∙ mod-eq_of_lt k)
  | inr e ↦
      let q : j < start = ground arith in
      let p : start + (j + n - start) ≡ j + 1 * n = omega arith in
      (
        j + n - start,
        omega arith,
        ap (λ x. x % n) p ∙ (add-mul-mod_self_right j 1 n ∙ mod-eq_of_lt k),
      )
]

-- What a pick promises, by what it returns.
abbrev pub Picked : ℕ → StreamWorkerPool → Option ℕ → Type 0
Picked now pool none =
    (j : ℕ) (w : WorkerInstance)
    → get_elem? pool.workers j ≡ some w
    → is_available pool.circuit_breaker now w.id ≡ true
    → usize_max ≤ w.in_flight
Picked now pool (some id) =
    (i : ℕ) × (picked : WorkerInstance) × (get_elem? pool.workers i ≡ some picked)
    × (picked.id ≡ id)
    × (is_available pool.circuit_breaker now id ≡ true)
    × ((j : ℕ) (w : WorkerInstance)
        → get_elem? pool.workers j ≡ some w
        → is_available pool.circuit_breaker now w.id ≡ true
        → picked.in_flight ≤ w.in_flight)

empty-get_elem? :
    {A : Type 0} (xs : List A) (j : ℕ) {x : A}
    → (length xs == 0) ≡ true
    → get_elem? xs j ≡ some x
    → ⊥
empty-get_elem? [] j h g = cc
empty-get_elem? (x ∷ xs) j h g = ground arith

Scanned-all :
    (workers : List WorkerInstance) (available : ℕ → Bool) (start : ℕ) (best result : Option ℕ × ℕ)
    → start < length workers
    → Scanned workers available start 0 (length workers) best result
    → (j : ℕ) (w : WorkerInstance) → get_elem? workers j ≡ some w
    → available w.id ≡ true
    → result.1 ≤ w.in_flight
Scanned-all workers available start best result h s j w g a =
    let (i, b, e) = offset_of (length workers) start j h (get_elem?-some_lt workers j w g) in
    s.least_of i w (omega arith) (omega arith) (ap (get_elem? workers) e ∙ g, a)

-- `pick_least_loaded` picks a worker of the pool that the breaker lets through, and no other such
-- worker has a lower load. It finds none only if every worker that the breaker lets through has the
-- largest load that a counter holds.
pub pick_least_loaded-Picked :
    (now : ℕ) (pool : StreamWorkerPool) → Picked now pool (pick_least_loaded now pool).1
unfolding pick_least_loaded
pick_least_loaded-Picked now pool = elim (Bool-cases (length pool.workers == 0)) [
  | inl e ↦ rw e (λ j w g a. absurd (empty-get_elem? pool.workers j e g))
  | inr e ↦
      let n = length pool.workers in
      let start = pool.rr_cursor % n in
      let low : start < n = mod-lt pool.rr_cursor {m = n} (ground arith) in
      let available = is_available pool.circuit_breaker now in
      let s = least-Scanned pool.workers available start n 0 (none, usize_max) in
      let all = Scanned-all pool.workers available start (none, usize_max) _ low s in
      elim s.from [
        | inl r ↦ rw (e, r) (λ j w g a. let h = all j w g a in rw r at h)
        | inr (i, w, f, r, l) ↦
            rw (e, r) (i, w, f.0, refl, f.1, λ j v g a. let h = all j v g a in rw r at h)
      ]
]
