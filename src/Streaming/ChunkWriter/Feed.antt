-- ===== src/Streaming/ChunkWriter/Feed.antt =====
-- The abstract writer: it takes one byte at a time and emits a chunk when it has `flush_at` bytes.
use wattcloud.Common.{
  ℕ, ◌+◌, ◌<◌, ◌≡◌, refl, ap, ◌∙◌, [], ◌∷◌, ◌++◌, Result, ok, ◌==◌, if◌then◌else◌, length,
  length-append, append_assoc, arith,
}
use wattcloud.Common.Bytes.{Bytes}
use wattcloud.Streaming.ChunkWriter.{WriterError, Put, proceed}

-- What is not emitted yet, and the index of the next chunk.
pub record Pending : Type 0 where
  pub bytes : Bytes
  pub index : ℕ

module _ {S : Type 0} (put_chunk : Put S) (flush_at : ℕ) where
  -- The pending bytes with one more, emitted if they fill a chunk.
  unfoldable pub settle : Pending → S → Pending × S × Result WriterError (Unit {0})
  settle p s =
      if length p.bytes == flush_at
      then (let (s', result) = put_chunk s p.index p.bytes in
          (record { bytes = []; index = p.index + 1 }, s', result))
      else (p, s, ok tt)

  pub settle_short : (p : Pending) (s : S) → length p.bytes < flush_at → settle p s ≡ (p, s, ok tt)
  unfolding settle
  settle_short p s h = ground arith

  unfoldable pub feed : Pending → S → Bytes → Pending × S × Result WriterError (Unit {0})
  feed p s [] = (p, s, ok tt)
  feed p s (b ∷ bs) =
      proceed (settle (record p { bytes = p.bytes ++ (b ∷ []) }) s) (λ p' s'. feed p' s' bs)

  -- A byte that leaves the chunk short is kept.
  feed_short :
      (p : Pending) (s : S) (b : ℕ) (bs : Bytes)
      → length p.bytes + 1 < flush_at
      → feed p s (b ∷ bs) ≡ feed (record p { bytes = p.bytes ++ (b ∷ []) }) s bs
  unfolding feed
  feed_short p s b bs h =
      let q : Pending = record p { bytes = p.bytes ++ (b ∷ []) } in
      let short : length q.bytes < flush_at = omega (arith, length-append p.bytes (b ∷ [])) in
      ap (λ r. proceed r (λ p' s'. feed p' s' bs)) (settle_short q s short)

  -- A block that does not go past the end of a chunk is settled as a whole.
  pub feed_block :
      (p : Pending) (s : S) (x : ℕ) (xs ys : Bytes)
      → length p.bytes + length xs < flush_at
      → feed p s ((x ∷ xs) ++ ys)
        ≡ proceed (settle (record p { bytes = p.bytes ++ (x ∷ xs) }) s) (λ p' s'. feed p' s' ys)
  feed_block p s x [] ys h = unfold feed in refl
  feed_block p s x (y ∷ xs) ys h =
      let q : Pending = record p { bytes = p.bytes ++ (x ∷ []) } in
      let short : length q.bytes + length xs < flush_at =
        omega (arith, length-append p.bytes (x ∷ [])) in
      feed_short p s x ((y ∷ xs) ++ ys) (omega arith)
      ∙ feed_block q s y xs ys short
      ∙ ap (λ bytes. proceed (settle (record p { bytes = bytes }) s) (λ p' s'. feed p' s' ys))
          (append_assoc p.bytes (x ∷ []) (y ∷ xs))
