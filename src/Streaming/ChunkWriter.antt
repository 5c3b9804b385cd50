-- ===== src/Streaming/ChunkWriter.antt =====
-- sdk/sdk-core/src/byo/streaming/chunk_writer.rs: bytes are collected into chunks of a fixed size.
-- The callback `put_chunk` is a parameter: a state-passing function over a state of its own.
pub mod Feed
pub mod Refine
pub mod Output
use wattcloud.Common.{
  ℕ, zero, suc, ◌+◌, ◌-◌, min, Bool, true, false, List, [], ◌∷◌, ◌++◌, Result, ok, err, ltb, ◌==◌,
  if◌then◌else◌, length, take, drop, replicate,
}
use wattcloud.Common.Bytes.{Bytes}

-- `SdkError`: the writer's own errors, and what the callback reports. `stuck` is no value of the
-- code: the loop of `write` ran out of fuel.
pub data WriterError : Type 0 where
  stuck : WriterError
  zero_flush_size destination_out_of_range source_out_of_range flush_out_of_range : WriterError
  put_failed : ℕ → WriterError

pub record ChunkWriter : Type 0 where
  pub buf : Bytes
  pub used : ℕ
  pub bytes_flushed : ℕ
  pub chunk_index : ℕ
  pub flush_at : ℕ

-- `ChunkWriter::new`
pub new : ℕ → Result WriterError ChunkWriter
new flush_at =
    if flush_at == 0
    then err zero_flush_size
    else ok (record {
      buf = replicate flush_at 0;
      used = 0;
      bytes_flushed = 0;
      chunk_index = 0;
      flush_at = flush_at;
    })

-- `buf[off..off + src.len()].copy_from_slice(src)`
abbrev pub splice : Bytes → ℕ → Bytes → Bytes
splice buf off src = take off buf ++ (src ++ drop (off + length src) buf)

-- A callback: its state, the chunk's index and its bytes.
abbrev pub Put : Type 0 → Type 0
Put S = S → ℕ → Bytes → S × Result WriterError (Unit {0})

-- `step?; …` over a writer `W` and the callback's state.
abbrev pub proceed :
    {W S : Type 0}
    → W × S × Result WriterError (Unit {0})
    → (W → S → W × S × Result WriterError (Unit {0}))
    → W × S × Result WriterError (Unit {0})
proceed (w, s, ok _) k = k w s
proceed (w, s, err e) k = (w, s, err e)

-- The writer after the callback has returned: the used part zeroed, the counters moved on.
abbrev pub flushed : ChunkWriter → ChunkWriter
flushed w = record w {
  buf = replicate w.used 0 ++ drop w.used w.buf;
  bytes_flushed = w.bytes_flushed + w.used;
  used = 0;
  chunk_index = w.chunk_index + 1;
}

abbrev pub copied : ChunkWriter → ℕ → Bytes → ChunkWriter
copied w n bytes = record w { buf = splice w.buf w.used (take n bytes); used = w.used + n }

-- The body of the `while` up to its flush; `bytes` is what lies behind the offset.
pub fill : ChunkWriter → Bytes → Result WriterError (ChunkWriter × Bytes)
fill w bytes =
    let n = min (length bytes) (w.flush_at - w.used) in
    if ltb (length w.buf) (w.used + n)
    then err destination_out_of_range
    else if ltb (length bytes) n
    then err source_out_of_range
    else ok (copied w n bytes, drop n bytes)

module _ {S : Type 0} (put_chunk : Put S) where
  -- `flush`
  pub flush : ChunkWriter → S → ChunkWriter × S × Result WriterError (Unit {0})
  flush w s =
      if ltb (length w.buf) w.used
      then (w, s, err flush_out_of_range)
      else let (s', result) = put_chunk s w.chunk_index (take w.used w.buf) in
        (flushed w, s', result)

  pub after_fill : ChunkWriter → S → ChunkWriter × S × Result WriterError (Unit {0})
  unfolding flush
  after_fill w s = if w.used == w.flush_at then flush w s else (w, s, ok tt)

  -- The rounds of the `while`.
  pub write_loop : ℕ → ChunkWriter → S → Bytes → ChunkWriter × S × Result WriterError (Unit {0})
  write_loop fuel w s [] = (w, s, ok tt)
  write_loop zero w s (b ∷ bs) = (w, s, err stuck)
  write_loop (suc fuel) w s (b ∷ bs) = elim (fill w (b ∷ bs)) [
    | err e ↦ (w, s, err e)
    | ok (w', rest) ↦ proceed (after_fill w' s) (λ w'' s'. write_loop fuel w'' s' rest)
  ]

  -- `write`: each round takes a byte at least, so the number of bytes is fuel enough.
  pub write : ChunkWriter → S → Bytes → ChunkWriter × S × Result WriterError (Unit {0})
  unfolding write_loop fill after_fill
  write w s bytes = write_loop (length bytes) w s bytes

  -- `finish`
  pub finish : ChunkWriter → S → ChunkWriter × S × Result WriterError (Unit {0})
  unfolding flush
  finish w s = if ltb 0 w.used then flush w s else (w, s, ok tt)
