-- ===== src/Streaming/ChunkWriter/Refine.antt =====
-- The buffered writer implements the abstract one.
use wattcloud.Common.{
  ℕ, zero, suc, ◌+◌, ◌-◌, ◌≤◌, ◌<◌, min, ◌≡◌, refl, sym, ap, ◌∙◌, subst, true, false, [], ◌∷◌, ◌++◌,
  Result, ok, err, ◌==◌, ltb, length, take, drop, replicate, length-append, length-take,
  length-drop, take-append, drop-append, take-drop, drop-drop, length-replicate, drop-replicate,
  append_assoc, arith, ◌⊎◌, inl, inr, Bool-cases,
}
use wattcloud.Common.Bytes.{Bytes}
use wattcloud.Streaming.ChunkWriter.{
  ChunkWriter, WriterError, Put, proceed, splice, copied, flushed, flush, fill, after_fill,
  write_loop, write, new,
}
use wattcloud.Streaming.ChunkWriter.Feed.{Pending, settle, feed, feed_block}

-- The buffer has its size, there is room in it, and what is not used is zero.
pub record IsValid (w : ChunkWriter) : Type 0 where
  pub size : length w.buf ≡ w.flush_at
  pub room : w.used < w.flush_at
  pub clean : drop w.used w.buf ≡ replicate (w.flush_at - w.used) 0

abbrev pub view : ChunkWriter → Pending
view w = record { bytes = take w.used w.buf; index = w.chunk_index }

module _ (buf : Bytes) (off : ℕ) (src : Bytes) (fits : off + length src ≤ length buf) where
  length-splice : length (splice buf off src) ≡ length buf
  length-splice = omega (
    arith,
    length-append (take off buf) (src ++ drop (off + length src) buf),
    length-append src (drop (off + length src) buf),
    length-take off buf (omega arith),
    length-drop (off + length src) buf,
  )

  parts : length (take off buf ++ src) ≡ off + length src
  parts = omega (arith, length-append (take off buf) src, length-take off buf (omega arith))

  take-splice : take (off + length src) (splice buf off src) ≡ take off buf ++ src
  take-splice =
      rw (← append_assoc (take off buf) src (drop (off + length src) buf))
        (take-append (off + length src) (take off buf ++ src) _ (sym parts))

  drop-splice : drop (off + length src) (splice buf off src) ≡ drop (off + length src) buf
  drop-splice =
      rw (← append_assoc (take off buf) src (drop (off + length src) buf))
        (drop-append (off + length src) (take off buf ++ src) _ (sym parts))

replicate-append : (m n : ℕ) → replicate m 0 ++ replicate n 0 ≡ replicate {A = ℕ} (m + n) 0
replicate-append zero n = let e : n ≡ 0 + n = omega arith in ap (λ k. replicate k 0) e
replicate-append (suc m) n =
    let e : suc (m + n) ≡ suc m + n = omega arith in
    ap (λ xs. 0 ∷ xs) (replicate-append m n) ∙ ap (λ k. replicate k 0) e

-- A buffer that is filled up to `used`, and zero behind it.
record IsFilled (w : ChunkWriter) : Type 0 where
  size : length w.buf ≡ w.flush_at
  room : w.used ≤ w.flush_at
  some_room : 0 < w.flush_at
  clean : drop w.used w.buf ≡ replicate (w.flush_at - w.used) 0

flushed-IsValid : (w : ChunkWriter) → IsFilled w → IsValid (flushed w)
flushed-IsValid w f =
    let zeros : replicate w.used 0 ++ drop w.used w.buf
        ≡ replicate (w.used + (w.flush_at - w.used)) 0 =
      ap (◌++◌ (replicate w.used 0)) f.clean ∙ replicate-append w.used (w.flush_at - w.used) in
    let all : w.used + (w.flush_at - w.used) ≡ w.flush_at - 0 = omega (arith, f.room) in
    record {
      size = ap length zeros ∙ length-replicate _ 0 ∙ omega (arith, f.room);
      room = f.some_room;
      clean = zeros ∙ ap (λ n. replicate n 0) all;
    }

module _ {S : Type 0} (put_chunk : Put S) where
  abbrev lift :
      ChunkWriter × S × Result WriterError (Unit {0}) → Pending × S × Result WriterError (Unit {0})
  lift (w, s, r) = (view w, s, r)

  pub record Implements (flush_at : ℕ) (out : ChunkWriter × S × Result WriterError (Unit {0}))
      (spec : Pending × S × Result WriterError (Unit {0})) : Type 0 where
    pub same : lift out ≡ spec
    pub valid : IsValid out.0
    pub kept : out.0.flush_at ≡ flush_at

  after_fill_lem :
      (w : ChunkWriter) (s : S)
      → IsFilled w
      → Implements w.flush_at (after_fill put_chunk w s) (settle put_chunk w.flush_at (view w) s)
  unfolding after_fill flush settle
  after_fill_lem w s f = elim (Bool-cases (w.used == w.flush_at)) [
    | inl full ↦
        let whole : (length (take w.used w.buf) == w.flush_at) ≡ true =
          ground (arith, length-take w.used w.buf, f.size, f.room) in
        let fits : ltb (length w.buf) w.used ≡ false = ground (arith, f.size, f.room) in
        rw (full, whole, fits) (record { same = refl; valid = flushed-IsValid w f; kept = refl })
    | inr short ↦
        let part : (length (take w.used w.buf) == w.flush_at) ≡ false =
          ground (arith, length-take w.used w.buf, f.size, f.room) in
        rw (short, part)
          (record {
            same = refl;
            valid = record { size = f.size; room = ground (arith, f.room); clean = f.clean };
            kept = refl;
          })
  ]

module _ (w : ChunkWriter) (v : IsValid w) (n : ℕ) (bytes : Bytes) (have : n ≤ length bytes)
    (fits : w.used + n ≤ w.flush_at) where
  src : length (take n bytes) ≡ n
  src = length-take n bytes have

  dst : w.used + length (take n bytes) ≤ length w.buf
  dst = omega (arith, src, v.size)

  off : w.used + length (take n bytes) ≡ w.used + n
  off = omega (arith, src)

  view-copied :
      view (copied w n bytes) ≡ record (view w) { bytes = take w.used w.buf ++ take n bytes }
  view-copied =
      let moved = ap (λ k. take k (splice w.buf w.used (take n bytes))) (sym off) in
      ap (λ b. record (view w) { bytes = b }) (moved ∙ take-splice w.buf w.used (take n bytes) dst)

  copied-IsFilled : IsFilled (copied w n bytes)
  copied-IsFilled =
      let moved = ap (λ k. drop k (splice w.buf w.used (take n bytes))) (sym off) in
      let zeros : drop n (replicate (w.flush_at - w.used) 0)
          ≡ replicate {A = ℕ} (w.flush_at - (w.used + n)) 0 =
        drop-replicate n (w.flush_at - w.used) 0
        ∙ (let e : w.flush_at - w.used - n ≡ w.flush_at - (w.used + n) = omega arith in
            ap (λ k. replicate k 0) e) in
      record {
        size = length-splice w.buf w.used (take n bytes) dst ∙ v.size;
        room = fits;
        some_room = omega (arith, v.room);
        clean =
            moved
            ∙ drop-splice w.buf w.used (take n bytes) dst
            ∙ ap (λ k. drop k w.buf) off
            ∙ sym (drop-drop n w.used w.buf)
            ∙ ap (drop n) v.clean
            ∙ zeros;
      }

  fill-copied :
      n ≡ min (length bytes) (w.flush_at - w.used)
      → fill w bytes ≡ ok (copied w n bytes, drop n bytes)
  unfolding fill
  fill-copied e = rw (← e) (ground (arith, v.size))

-- One round of the loop takes a block that fits the room there is.
record Round (w : ChunkWriter) (x : ℕ) (xs : Bytes) : Type 0 where
  next : ChunkWriter
  count : ℕ
  takes : fill w (x ∷ xs) ≡ ok (next, drop count xs)
  holds : view next ≡ record (view w) { bytes = take w.used w.buf ++ (x ∷ take count xs) }
  fits : w.used + count < w.flush_at
  enough : count ≤ length xs
  filled : IsFilled next
  kept : next.flush_at ≡ w.flush_at

round : (w : ChunkWriter) (x : ℕ) (xs : Bytes) → IsValid w → Round w x xs
round w x xs v =
    let m : ℕ = min (length (x ∷ xs)) (w.flush_at - w.used) - 1 in
    let e : suc m ≡ min (length (x ∷ xs)) (w.flush_at - w.used) = omega (arith, v.room) in
    let have : suc m ≤ length (x ∷ xs) = omega (arith, v.room) in
    let fits : w.used + suc m ≤ w.flush_at = omega (arith, v.room) in
    record {
      next = copied w (suc m) (x ∷ xs);
      count = m;
      takes = fill-copied w v (suc m) (x ∷ xs) have fits e;
      holds = view-copied w v (suc m) (x ∷ xs) have fits;
      fits = omega arith;
      enough = omega arith;
      filled = copied-IsFilled w v (suc m) (x ∷ xs) have fits;
      kept = refl;
    }

module _ {S : Type 0} (put_chunk : Put S) (flush_at : ℕ) where
  -- Implementations are chained as their specifications are.
  proceed_lem :
      (out : ChunkWriter × S × Result WriterError (Unit {0}))
      (spec : Pending × S × Result WriterError (Unit {0}))
      (k : ChunkWriter → S → ChunkWriter × S × Result WriterError (Unit {0}))
      (k' : Pending → S → Pending × S × Result WriterError (Unit {0}))
      → Implements put_chunk flush_at out spec
      → ((w : ChunkWriter) (s : S)
          → IsValid w
          → w.flush_at ≡ flush_at
          → Implements put_chunk flush_at (k w s) (k' (view w) s))
      → Implements put_chunk flush_at (proceed out k) (proceed spec k')
  proceed_lem (w, s, ok u) spec k k' i h =
      subst (λ t. Implements put_chunk flush_at (k w s) (proceed t k')) i.same
        (h w s i.valid i.kept)
  proceed_lem (w, s, err e) spec k k' i h =
      subst (λ t. Implements put_chunk flush_at (w, s, err e) (proceed t k')) i.same
        (record { same = refl; valid = i.valid; kept = i.kept })

  write_loop_step :
      (fuel : ℕ) (w : ChunkWriter) (s : S) (x : ℕ) (xs : Bytes) {w' : ChunkWriter} {rest : Bytes}
      → fill w (x ∷ xs) ≡ ok (w', rest)
      → write_loop put_chunk (suc fuel) w s (x ∷ xs)
        ≡ proceed (after_fill put_chunk w' s) (λ w'' s'. write_loop put_chunk fuel w'' s' rest)
  unfolding write_loop
  write_loop_step fuel w s x xs e = rw (e, write_loop)

  feed_step :
      (w : ChunkWriter) (s : S) (x : ℕ) (xs : Bytes) (r : Round w x xs)
      → w.flush_at ≡ flush_at
      → length (take w.used w.buf) ≡ w.used
      → feed put_chunk flush_at (view w) s (x ∷ xs)
        ≡ proceed
            (settle put_chunk flush_at (view r.next) s)
            (λ p' s'. feed put_chunk flush_at p' s' (drop r.count xs))
  feed_step w s x xs r e l =
      ap (λ ys. feed put_chunk flush_at (view w) s (x ∷ ys)) (sym (take-drop r.count xs))
      ∙ feed_block put_chunk flush_at (view w) s x (take r.count xs) (drop r.count xs)
          (omega (arith, r.fits, r.enough, length-take r.count xs))
      ∙ ap
          (λ q.
            proceed (settle put_chunk flush_at q s)
              (λ p' s'. feed put_chunk flush_at p' s' (drop r.count xs)))
          (sym r.holds)

  write_loop_lem :
      (fuel : ℕ) (w : ChunkWriter) (s : S) (bytes : Bytes)
      → IsValid w
      → w.flush_at ≡ flush_at
      → length bytes ≤ fuel
      → Implements put_chunk flush_at
          (write_loop put_chunk fuel w s bytes)
          (feed put_chunk flush_at (view w) s bytes)
  write_loop_lem zero w s [] v e h =
      unfold write_loop feed in record { same = refl; valid = v; kept = e }
  write_loop_lem (suc fuel) w s [] v e h =
      unfold write_loop feed in record { same = refl; valid = v; kept = e }
  write_loop_lem zero w s (x ∷ xs) v e h = absurd (omega arith)
  write_loop_lem (suc fuel) w s (x ∷ xs) v e h =
      let r = round w x xs v in
      rw (write_loop_step fuel w s x xs r.takes) (
        rw (feed_step w s x xs r e (length-take w.used w.buf (omega (arith, v.size, v.room)))) (
          proceed_lem _ _ _ _ (rw (r.kept ∙ e) at (after_fill_lem put_chunk r.next s r.filled))
            λ w' s' v' e'.
              write_loop_lem fuel w' s' (drop r.count xs) v' e'
                (omega (arith, length-drop r.count xs))))

module _ {S : Type 0} (put_chunk : Put S) where
  -- From a valid writer `write` behaves, for every callback and every input, as the abstract writer
  -- does byte by byte: the same calls of the callback and the same result, also where the callback
  -- fails; what is pending is the same, and the writer is valid again, with the same chunk size.
  pub write-feed :
      (w : ChunkWriter) (s : S) (bytes : Bytes)
      → IsValid w
      → Implements put_chunk w.flush_at
          (write put_chunk w s bytes)
          (feed put_chunk w.flush_at (view w) s bytes)
  unfolding write
  write-feed w s bytes v =
      write_loop_lem put_chunk w.flush_at (length bytes) w s bytes v refl (omega arith)

-- `new` refuses the chunk size zero, and gives a valid writer with nothing pending for any other.
pub new-IsValid :
    (n : ℕ)
    → ((n ≡ 0) × (new n ≡ err WriterError.zero_flush_size))
      ⊎ ((w : ChunkWriter) × (new n ≡ ok w)
          × IsValid w
          × (w.flush_at ≡ n)
          × (view w ≡ record { bytes = []; index = 0 }))
unfolding new
new-IsValid zero = inl (refl, refl)
new-IsValid (suc n) =
    let all : suc n ≡ suc n - 0 = omega arith in
    inr (
      record {
        buf = replicate (suc n) 0;
        used = 0;
        bytes_flushed = 0;
        chunk_index = 0;
        flush_at = suc n;
      },
      ground arith,
      record {
        size = length-replicate (suc n) 0;
        room = omega arith;
        clean = ap (λ k. replicate k 0) all;
      },
      refl,
      refl,
    )
