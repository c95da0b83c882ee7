-- ===== src/Stream/Pipe/Delivery.antt =====
-- The bytes that the pipe sends, when each chunk that it fetches is that part of one file.
use mathlib.Core.List.{append-nil, append_assoc}
use peerless_server.Prelude.{
  ℕ, zero, suc, ◌+◌, ◌-◌, ◌*◌, ◌/◌, ◌≤◌, ◌<◌, ◌≡◌, refl, sym, ap, ◌∙◌, true, false, List, [], ◌∷◌,
  ◌++◌, some, ltb, Result, ok, err, min, max, map, length, arith, segment, segment-append,
  segment_self, flatten, div_mono, mul-le_of_le_div, lt-mul_of_div_lt,
}
use peerless_server.Stream.Range.{ByteRange}
use peerless_server.Stream.Metrics.{StreamMetrics}
use peerless_server.Stream.Pipe.Sequential.{
  round, deliver, chunks, seen, create_stream_pipe-deliver, deliver_continue, deliver_stop,
}
use peerless_server.Stream.Pipe.{
  chunk_size, Bytes, IoError, World, PipeState, Reason, finished, fetch_failed, continue, stop,
  slice_start, slice_end, send_chunk, initial, create_stream_pipe, after_send,
}
use peerless_server.Stream.Pipe.Slices.{
  chunk_of, chunk_size_pos, position, cut_start, cut_end, position_lt, position_mono, slice_chunk,
}

-- Chunk `i` is fetched, and the receiver takes what is sent of it.
abbrev pub Served : {E : Type 0} → World E → Bytes → ℕ → Type 0
Served world file i =
    (world.fetched i ≡ ok (chunk_of file i))
    × (world.is_closed i ≡ false)
    × (world.send_fails i ≡ false)

module _ {E : Type 0} (world : World E) (range : ByteRange) (file : Bytes)
    (o : range.start ≤ range.end) (w : range.end < length file) where
  abbrev Sends : PipeState E → Bytes → PipeState E → Type 0
  Sends s piece s' = s'.sent ≡ s.sent ++ ok piece ∷ []

  round-Served :
      (i : ℕ) (s : PipeState E)
      → range.start / chunk_size ≤ i
      → i ≤ range.end / chunk_size
      → Served world file i
      → (s' : PipeState E) × (round world range i s ≡ continue s')
        × Sends s (segment (position range i) (position range (i + 1)) file) s'
  round-Served i s h k (f, c, t) =
      let chunk = chunk_of file i in
      let a = slice_start range i in
      let b = min (slice_end range i chunk) (length chunk) in
      let ea = cut_start range i h k o in
      let eb = cut_end range file i h k o w in
      let lt = position_lt range i k h o in
      let cut = slice_chunk file i a b (omega arith) (omega arith) in
      let inside : ltb a (length chunk) ≡ true = ground arith in
      let piece = segment (i * chunk_size + a) (i * chunk_size + b) file in
      (
        after_send world i s piece,
        rw (c, f) (unfold send_chunk in rw (inside, cut, t) refl),
        rw (← ea, ← eb) refl,
      )

  -- From `s`, the `n` chunks from `i` on are sent in full, and the loop goes on behind them.
  record Delivered (n rest i : ℕ) (s : PipeState E) : Type 0 where
    after : PipeState E
    pieces : List Bytes
    goes_on : deliver world range (n + rest) i s ≡ deliver world range rest (i + n) after
    sends : after.sent ≡ s.sent ++ map ok pieces
    joins : flatten pieces ≡ segment (position range i) (position range (i + n)) file

  Delivered-none : (rest i : ℕ) (s : PipeState E) → Delivered 0 rest i s
  Delivered-none rest i s =
      let e : i + 0 ≡ i = omega arith in
      let f : 0 + rest ≡ rest = omega arith in
      record {
        after = s;
        pieces = [];
        goes_on = rw (e, f) refl;
        sends = sym (append-nil s.sent);
        joins = rw e (sym (segment_self (position range i) file));
      }

  module _ (n rest i : ℕ) (s s₁ : PipeState E) where
    Delivered-cons :
        round world range i s ≡ continue s₁
        → Sends s (segment (position range i) (position range (i + 1)) file) s₁
        → Delivered n rest (i + 1) s₁
        → Delivered (suc n) rest i s
    Delivered-cons r sent d =
        let p = segment (position range i) (position range (i + 1)) file in
        let e : i + suc n ≡ i + 1 + n = omega arith in
        let f : suc n + rest ≡ suc (n + rest) = omega arith in
        record {
          after = d.after;
          pieces = p ∷ d.pieces;
          goes_on = rw (e, f) (deliver_continue world range (n + rest) i s r ∙ d.goes_on);
          sends = d.sends ∙ rw sent (append_assoc s.sent (ok p ∷ []) (map ok d.pieces));
          joins =
              rw (e, d.joins)
                (segment-append (position range i) (position range (i + 1))
                  (position range (i + 1 + n)) file (position_mono range i (i + 1) (omega arith))
                  (position_mono range (i + 1) (i + 1 + n) (omega arith)));
        }

  deliver-Served :
      (n rest i : ℕ) (s : PipeState E)
      → range.start / chunk_size ≤ i
      → i + n ≤ range.end / chunk_size + 1
      → ((j : ℕ) → i ≤ j → j < i + n → Served world file j)
      → Delivered n rest i s
  deliver-Served zero rest i s h k v = Delivered-none rest i s
  deliver-Served (suc n) rest i s h k v =
      let (s₁, r, sent) = round-Served i s h (omega arith) (v i (omega arith) (omega arith)) in
      Delivered-cons n rest i s s₁ r sent (
        deliver-Served n rest (i + 1) s₁ (omega arith) (omega arith)
          (λ j p q. v j (omega arith) (omega arith)))

position_first :
    (range : ByteRange)
    → range.start ≤ range.end
    → position range (range.start / chunk_size) ≡ range.start
unfolding position
position_first range o =
    omega (arith, mul-le_of_le_div (range.start / chunk_size) range.start chunk_size (omega arith))

position_last :
    (range : ByteRange)
    → range.start ≤ range.end
    → position range (range.start / chunk_size + chunks range) ≡ range.end + 1
unfolding position
position_last range o =
    let m = div_mono range.start range.end chunk_size o in
    let e : range.start / chunk_size + chunks range ≡ range.end / chunk_size + 1 = omega arith in
    rw e (
      omega (
        arith,
        lt-mul_of_div_lt (range.end / chunk_size + 1) range.end chunk_size chunk_size_pos
            (omega arith),
      ))

position_chunk :
    (range : ByteRange) (k : ℕ)
    → range.start ≤ range.end
    → k ≤ range.end / chunk_size
    → position range k ≡ max range.start (k * chunk_size)
unfolding position
position_chunk range k o h = omega (arith, mul-le_of_le_div k range.end chunk_size h)

module _ {E : Type 0} (world : World E) (range : ByteRange) (file : Bytes)
    (metrics : StreamMetrics) where
  -- How the pipe ends, what it has sent, and that the slices sent are the file from the start of the
  -- range up to `to`.
  abbrev pub EndsWith : Reason → List (Result Bytes (IoError E)) → ℕ → Type 0
  EndsWith reason trailer to =
      (last : Reason × PipeState E) × (pieces : List Bytes) × (create_stream_pipe world range
          metrics
        ≡ some last)
      × (last.0 ≡ reason)
      × (last.1.sent ≡ map ok pieces ++ trailer)
      × (flatten pieces ≡ segment range.start to file)

  -- When every chunk of a range inside the file is fetched as that part of the file, and the receiver
  -- takes everything, the pipe ends as finished, sends no error, and the slices that it sends are,
  -- joined, exactly the bytes `start` to `end` of the file.
  pub create_stream_pipe_delivers :
      range.start ≤ range.end
      → range.end < length file
      → ((j : ℕ) → range.start / chunk_size ≤ j → j ≤ range.end / chunk_size → Served world file j)
      → EndsWith finished [] (range.end + 1)
  create_stream_pipe_delivers o w v =
      let i = range.start / chunk_size in
      let n = chunks range in
      let m = div_mono range.start range.end chunk_size o in
      let (last, e, s) = create_stream_pipe-deliver world range metrics o in
      let d : Delivered world range file o w n 0 i (initial metrics range) =
        deliver-Served world range file o w n 0 i (initial metrics range) (omega arith)
          (omega arith) (λ j p q. v j p (omega arith)) in
      let f : n + 0 ≡ n = omega arith in
      let t = s ∙ ap seen (rw f at d.goes_on) in
      let u : (last.0 ≡ finished) × (last.1.sent ≡ d.after.sent) =
        unfold deliver in (ap (λ x. x.0) t, ap (λ x. x.1) t) in
      (
        last,
        d.pieces,
        e,
        u.0,
        unfold initial in u.1 ∙ d.sends ∙ sym (append-nil (map ok d.pieces)),
        rw (position_first range o, position_last range o) at d.joins,
      )

  -- When chunk `k` of the range cannot be fetched, and every chunk before it is as above, the pipe
  -- ends as failed: it sends the bytes of the range that stand before that chunk, then one error
  -- that names the chunk and its cause, and nothing behind it.
  pub create_stream_pipe_fails :
      (k : ℕ) (cause : E)
      → range.start ≤ range.end
      → range.end < length file
      → range.start / chunk_size ≤ k
      → k ≤ range.end / chunk_size
      → world.fetched k ≡ err cause
      → world.is_closed k ≡ false
      → world.send_fails k ≡ false
      → ((j : ℕ) → range.start / chunk_size ≤ j → j < k → Served world file j)
      → EndsWith fetch_failed
          (err (record { chunk_idx = k; cause = cause }) ∷ [])
          (max range.start (k * chunk_size))
  unfolding initial
  create_stream_pipe_fails k cause o w h g f c t v =
      let i = range.start / chunk_size in
      let rest = range.end / chunk_size - k in
      let (last, e, s) = create_stream_pipe-deliver world range metrics o in
      let d : Delivered world range file o w (k - i) (suc rest) i (initial metrics range) =
        deliver-Served world range file o w (k - i) (suc rest) i (initial metrics range)
          (omega arith) (omega arith) (λ j p q. v j p (omega arith)) in
      let n : (k - i) + suc rest ≡ chunks range = omega arith in
      let ik : i + (k - i) ≡ k = omega arith in
      let failure : List (Result Bytes (IoError E)) =
        err (record { chunk_idx = k; cause = cause }) ∷ [] in
      let r : round world range k d.after
          ≡ stop fetch_failed (record d.after { sent = d.after.sent ++ failure }) =
        rw (c, f) (unfold send_chunk in rw t refl) in
      let x : deliver world range (chunks range) i (initial metrics range)
          ≡ deliver world range (suc rest) k d.after =
        rw (n, ik) at d.goes_on in
      let y = s ∙ ap seen (x ∙ deliver_stop world range rest k d.after r) in
      (
        last,
        d.pieces,
        e,
        ap (λ z. z.0) y,
        ap (λ z. z.1) y ∙ ap (λ (l : List (Result Bytes (IoError E))). l ++ failure) d.sends,
        rw (position_first range o, ik, position_chunk range k o g) at d.joins,
      )
