-- ===== src/Stream/Pipe/Sequential.antt =====
-- The pipe against a loop that fetches one chunk at a time: prefetching changes nothing that the
-- receiver or the metrics can see.
use peerless_server.Prelude.{
  div_mono, ℕ, zero, suc, ◌+◌, ◌-◌, ◌/◌, ◌≤◌, ◌<◌, ◌≡◌, refl, sym, ap, ◌∙◌, true, false, not, ◌||◌,
  List, [], ◌∷◌, Option, none, some, ltb, leb, if◌then◌else◌, Result, ok, err, min, length,
  Bool-cases, inl, inr, ◌⊎◌, arith,
}
use peerless_server.Stream.Range.{ByteRange}
use peerless_server.Stream.Metrics.{StreamMetrics}
use peerless_server.Stream.Pipe.{
  chunk_size, Bytes, IoError, World, PipeState, Reason, finished, receiver_closed, Flow, continue,
  stop, slice, slice_start, slice_end, fill, send_slice, send_chunk, step, run, initial,
  create_stream_pipe, is_empty,
}

-- What the receiver and the metrics see of a run.
abbrev pub Outcome : Type 0 → Type 0
Outcome E = Reason × List (Result Bytes (IoError E)) × StreamMetrics

-- The queue when chunk `i` is the oldest that has not been taken, and none is behind it.
abbrev Queued : ℕ → ℕ → List ℕ → ℕ → Type 0
Queued end_chunk i pending next =
    ((pending ≡ []) × (next ≡ i)) ⊎ ((pending ≡ i ∷ []) × (next ≡ i + 1) × (i ≤ end_chunk))

queue_test :
    (i end_chunk next : ℕ) (pending : List ℕ)
    → Queued end_chunk i pending next
    → (leb next end_chunk || not (is_empty pending)) ≡ leb i end_chunk
queue_test i c next pending (inl (e, f)) = rw (e, f) (ground arith)
queue_test i c next pending (inr (e, f, h)) = rw (e, f) (ground arith)

-- The number of chunks that a range meets.
abbrev pub chunks : ByteRange → ℕ
chunks range = (range.end / chunk_size + 1) - range.start / chunk_size

module _ {E : Type 0} where
  -- One chunk, fetched, cut and sent.
  abbrev pub round : World E → ByteRange → ℕ → PipeState E → Flow E
  round world range chunk_idx s =
      if world.is_closed chunk_idx
      then stop receiver_closed s
      else send_chunk world range chunk_idx s (world.fetched chunk_idx)

  -- `rounds` chunks from `chunk_idx` on, each fetched when the one before it has been sent.
  unfoldable pub deliver : World E → ByteRange → ℕ → ℕ → PipeState E → Reason × PipeState E
  deliver world range zero chunk_idx s = (finished, s)
  deliver world range (suc rounds) chunk_idx s = elim (round world range chunk_idx s) [
    | continue s' ↦ deliver world range rounds (chunk_idx + 1) s'
    | stop reason s' ↦ (reason, s')
  ]

  abbrev pub seen : Reason × PipeState E → Outcome E
  seen (reason, s) = (reason, s.sent, s.metrics)

  abbrev queue : List ℕ → ℕ → PipeState E → PipeState E
  queue pending next s = record s { pending = pending; next_chunk = next }

  abbrev queue_flow : List ℕ → ℕ → Flow E → Flow E
  queue_flow pending next (continue s) = continue (queue pending next s)
  queue_flow pending next (stop reason s) = stop reason (queue pending next s)

  send_slice-queue :
      (world : World E) (i next : ℕ) (pending : List ℕ) (s : PipeState E) (piece : Option Bytes)
      → send_slice world i (queue pending next s) piece
        ≡ queue_flow pending next (send_slice world i s piece)
  unfolding send_slice
  send_slice-queue world i next pending s none = refl
  send_slice-queue world i next pending s (some piece) = ground arith

  send_chunk-queue :
      (world : World E) (range : ByteRange) (i next : ℕ) (pending : List ℕ) (s : PipeState E)
      (data' : Result Bytes E)
      → send_chunk world range i (queue pending next s) data'
        ≡ queue_flow pending next (send_chunk world range i s data')
  unfolding send_chunk
  send_chunk-queue world range i next pending s (err cause) = ground arith
  send_chunk-queue world range i next pending s (ok chunk) =
      let start = slice_start range i in
      let piece = slice chunk start (min (slice_end range i chunk) (length chunk)) in
      elim (Bool-cases (ltb start (length chunk))) [
        | inl e ↦ rw e (send_slice-queue world i next pending s piece)
        | inr e ↦ rw e refl
      ]

  round-queue :
      (world : World E) (range : ByteRange) (i next : ℕ) (pending : List ℕ) (s : PipeState E)
      → round world range i (queue pending next s) ≡ queue_flow pending next (round world range i s)
  round-queue world range i next pending s =
      ground (arith, send_chunk-queue world range i next pending s (world.fetched i))

  fill-Queued :
      (i end_chunk next : ℕ) (pending : List ℕ) (s : PipeState E)
      → i ≤ end_chunk
      → Queued end_chunk i pending next
      → (rest : List ℕ) × (next' : ℕ) × Queued end_chunk (i + 1) rest next'
        × (fill 2 end_chunk (queue pending next s) ≡ queue (i ∷ rest) next' s)
  unfolding fill
  fill-Queued i c next pending s h q = elim (Bool-cases (leb (i + 1) c)) [
    | inl more ↦ (
      (i + 1) ∷ [],
      i + 1 + 1,
      inr (refl, refl, ground arith),
      elim q [ inl (e, f) ↦ rw (e, f) (ground arith) | inr (e, f, _) ↦ rw (e, f) (ground arith) ],
    )
    | inr last ↦ (
      [],
      i + 1,
      inl (refl, refl),
      elim q [ inl (e, f) ↦ rw (e, f) (ground arith) | inr (e, f, _) ↦ rw (e, f) (ground arith) ],
    )
  ]

  step-round :
      (world : World E) (range : ByteRange) (i next : ℕ) (pending : List ℕ) (s : PipeState E)
      → i ≤ range.end / chunk_size
      → Queued (range.end / chunk_size) i pending next
      → (rest : List ℕ) × (next' : ℕ) × Queued (range.end / chunk_size) (i + 1) rest next'
        × (step world range (queue pending next s) ≡ queue_flow rest next' (round world range i s))
  step-round world range i next pending s h q =
      let (rest, next', q', e) = fill-Queued i (range.end / chunk_size) next pending s h q in
      (rest, next', q', unfold step in rw e (round-queue world range i next' rest s))

  Flow-cases :
      (f : Flow E)
      → ((s : PipeState E) × (f ≡ continue s)) ⊎ ((r : Reason) × (s : PipeState E) × (f ≡ stop r s))
  Flow-cases (continue s) = inl (s, refl)
  Flow-cases (stop r s) = inr (r, s, refl)

  module _ (world : World E) (range : ByteRange) (k i : ℕ) (s : PipeState E) where
    pub deliver_continue :
        {s' : PipeState E}
        → round world range i s ≡ continue s'
        → deliver world range (suc k) i s ≡ deliver world range k (i + 1) s'
    unfolding deliver
    deliver_continue r = rw (r, deliver)

    pub deliver_stop :
        {reason : Reason} {s' : PipeState E}
        → round world range i s ≡ stop reason s'
        → deliver world range (suc k) i s ≡ (reason, s')
    unfolding deliver
    deliver_stop r = rw (r, deliver)

  run-deliver :
      (world : World E) (range : ByteRange) (rounds fuel i next : ℕ) (pending : List ℕ)
      (s : PipeState E)
      → rounds < fuel
      → i + rounds ≡ range.end / chunk_size + 1
      → Queued (range.end / chunk_size) i pending next
      → (last : Reason × PipeState E) × (run world range fuel (queue pending next s) ≡ some last)
        × (seen last ≡ seen (deliver world range rounds i s))
  unfolding run
  run-deliver world range k zero i next pending s h e q = elim h [ ]
  run-deliver world range zero (suc fuel) i next pending s h e q =
      unfold deliver in
      let t : leb i (range.end / chunk_size) ≡ false = ground arith in
      (
        (finished, queue pending next s),
        rw (queue_test i (range.end / chunk_size) next pending q, t) refl,
        refl,
      )
  run-deliver world range (suc k) (suc fuel) i next pending s h e q =
      let t : leb i (range.end / chunk_size) ≡ true = ground arith in
      let (rest, next', q', stepped) = step-round world range i next pending s (ground arith) q in
      elim (Flow-cases (round world range i s)) [
        | inl (s', r) ↦
            let (last, ran, same) =
              run-deliver world range k fuel (i + 1) next' rest s' (omega arith) (omega arith) q' in
            (
              last,
              rw (queue_test i (range.end / chunk_size) next pending q, t, stepped, r) ran,
              same ∙ ap seen (sym (deliver_continue world range k i s r)),
            )
        | inr (reason, s', r) ↦ (
          (reason, queue rest next' s'),
          rw (queue_test i (range.end / chunk_size) next pending q, t, stepped, r) refl,
          ap seen (sym (deliver_stop world range k i s r)),
        )
      ]

  -- The pipe always ends within its fuel, and its outcome is that of fetching the chunks of the
  -- range one after the other: how it ends, what it sends and in which order, and the metrics, for
  -- every result of the fetches and every behaviour of the receiver.
  pub create_stream_pipe-deliver :
      (world : World E) (range : ByteRange) (metrics : StreamMetrics)
      → range.start ≤ range.end
      → (last : Reason × PipeState E) × (create_stream_pipe world range metrics ≡ some last)
        × (seen last
            ≡ seen (
                deliver world range
                  (chunks range)
                  (range.start / chunk_size)
                  (initial metrics range)))
  unfolding create_stream_pipe initial
  create_stream_pipe-deliver world range metrics h =
      run-deliver world range (chunks range)
        ((range.end / chunk_size - range.start / chunk_size) + 2) (range.start / chunk_size)
        (range.start / chunk_size) [] (initial metrics range) (omega arith)
        (omega (arith, div_mono range.start range.end chunk_size h)) (inl (refl, refl))
