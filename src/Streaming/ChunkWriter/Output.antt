-- ===== src/Streaming/ChunkWriter/Output.antt =====
-- What a provider has received after a series of writes and `finish`.
use wattcloud.Common.{
  ℕ, suc, ◌+◌, ◌<◌, ◌≡◌, refl, sym, ap, subst, ◌∙◌, false, List, [], ◌∷◌, ◌++◌, Result, ok, err,
  ◌==◌, ltb, length, take, length-append, length-take, append_assoc, append-nil, arith, inl, inr,
  Bool-cases, flatten, if◌then◌else◌,
}
use wattcloud.Common.Bytes.{Bytes}
use wattcloud.Streaming.ChunkWriter.{ChunkWriter, WriterError, Put, proceed, write, flush, finish}
use wattcloud.Streaming.ChunkWriter.Feed.{Pending, settle, feed}
use wattcloud.Streaming.ChunkWriter.Refine.{IsValid, view, write-feed, Implements}

-- A provider that accepts every chunk, and keeps them in the order of arrival.
abbrev pub Parts : Type 0
Parts = List (ℕ × Bytes)

abbrev pub accept : Put Parts
accept parts i chunk = (parts ++ ((i, chunk) ∷ []), ok tt)

abbrev pub contents : Parts → Bytes
contents [] = []
contents ((i, chunk) ∷ parts) = chunk ++ contents parts

-- The indices count up from `i`, and each chunk has the size `n`.
abbrev pub AreFull : ℕ → ℕ → Parts → Type 0
AreFull n i [] = Unit {0}
AreFull n i ((j, chunk) ∷ parts) = (j ≡ i) × (length chunk ≡ n) × AreFull n (i + 1) parts

contents-append : (p q : Parts) → contents (p ++ q) ≡ contents p ++ contents q
contents-append [] q = refl
contents-append ((i, chunk) ∷ p) q =
    ap (◌++◌ chunk) (contents-append p q) ∙ sym (append_assoc chunk (contents p) (contents q))

-- The calls of `write` one after the other.
pub write_all :
    ChunkWriter → Parts → List Bytes → ChunkWriter × Parts × Result WriterError (Unit {0})
write_all w s [] = (w, s, ok tt)
write_all w s (b ∷ bs) = proceed (write accept w s b) (λ w' s'. write_all w' s' bs)

-- All writes, and then `finish`.
pub write_and_finish :
    ChunkWriter → List Bytes → ChunkWriter × Parts × Result WriterError (Unit {0})
unfolding write_all
write_and_finish w pieces = proceed (write_all w [] pieces) (λ w' s'. finish accept w' s')

AreFull-snoc :
    (n i : ℕ) (parts : Parts) (chunk : Bytes)
    → AreFull n i parts
    → length chunk ≡ n
    → AreFull n i (parts ++ ((i + length parts, chunk) ∷ []))
AreFull-snoc n i [] chunk f e = (omega arith, e, tt)
AreFull-snoc n i ((j, c) ∷ parts) chunk f e =
    let moved : i + 1 + length parts ≡ i + suc (length parts) = omega arith in
    (
      f.0,
      f.1,
      subst (λ k. AreFull n (i + 1) (parts ++ ((k, chunk) ∷ []))) moved
          (AreFull-snoc n (i + 1) parts chunk f.2 e),
    )

module _ (flush_at : ℕ) where
  -- The chunks received and what is pending make up the input.
  record Delivered (input : Bytes) (p : Pending) (parts : Parts) : Type 0 where
    all : contents parts ++ p.bytes ≡ input
    full : AreFull flush_at 0 parts
    next : p.index ≡ length parts
    short : length p.bytes < flush_at

  abbrev Good : Bytes → Pending × Parts × Result WriterError (Unit {0}) → Type 0
  Good input (p, parts, r) = (r ≡ ok tt) × Delivered input p parts

  proceed-Good :
      (i j : Bytes) (out : Pending × Parts × Result WriterError (Unit {0}))
      (k : Pending → Parts → Pending × Parts × Result WriterError (Unit {0}))
      → Good i out
      → ((p : Pending) (s : Parts) → Delivered i p s → Good j (k p s))
      → Good j (proceed out k)
  proceed-Good i j (p, s, ok u) k g h = h p s g.1
  proceed-Good i j (p, s, err e) k g h = cc (g.0)

  settle-Good :
      (input : Bytes) (p : Pending) (parts : Parts) (b : ℕ)
      → Delivered input p parts
      → Good
          (input ++ (b ∷ []))
          (settle accept flush_at (record p { bytes = p.bytes ++ (b ∷ []) }) parts)
  unfolding settle
  settle-Good input p parts b d =
      let chunk : Bytes = p.bytes ++ (b ∷ []) in
      let joined : contents parts ++ chunk ≡ input ++ (b ∷ []) =
        sym (append_assoc (contents parts) p.bytes (b ∷ [])) ∙ ap (λ t. t ++ (b ∷ [])) d.all in
      elim (Bool-cases (length chunk == flush_at)) [
        | inl e ↦
            let size : length chunk ≡ flush_at = ground arith in
            rw e (
              refl,
              record {
                all =
                    append-nil _
                    ∙ contents-append parts ((p.index, chunk) ∷ [])
                    ∙ ap (◌++◌ (contents parts)) (append-nil chunk)
                    ∙ joined;
                full =
                    subst (λ k. AreFull flush_at 0 (parts ++ ((k, chunk) ∷ [])))
                      (omega (arith, d.next)) (AreFull-snoc flush_at 0 parts chunk d.full size);
                next = omega (arith, d.next, length-append parts ((p.index, chunk) ∷ []));
                short = omega (arith, d.short);
              },
            )
        | inr e ↦ rw e (
          refl,
          record {
            all = joined;
            full = d.full;
            next = d.next;
            short = ground (arith, d.short, length-append p.bytes (b ∷ []));
          },
        )
      ]

  feed-Good :
      (input : Bytes) (p : Pending) (parts : Parts) (xs : Bytes)
      → Delivered input p parts
      → Good (input ++ xs) (feed accept flush_at p parts xs)
  unfolding feed
  feed-Good input p parts [] d = rw append-nil (refl, d)
  feed-Good input p parts (x ∷ xs) d =
      proceed-Good (input ++ (x ∷ [])) (input ++ (x ∷ xs)) _ _ (settle-Good input p parts x d)
        λ p' s' d'.
          rw (append_assoc input (x ∷ []) xs) at (feed-Good (input ++ (x ∷ [])) p' s' xs d')

  abbrev GoodWrite : Bytes → ChunkWriter × Parts × Result WriterError (Unit {0}) → Type 0
  GoodWrite input (w, parts, r) =
      (r ≡ ok tt) × IsValid w × (w.flush_at ≡ flush_at) × Delivered input (view w) parts

  write-Good :
      (input : Bytes) (w : ChunkWriter) (parts : Parts) (xs : Bytes)
      → GoodWrite input (w, parts, ok tt)
      → GoodWrite (input ++ xs) (write accept w parts xs)
  write-Good input w parts xs (_, v, e, d) =
      let i : Implements accept flush_at (write accept w parts xs)
          (feed accept flush_at (view w) parts xs) =
        subst (λ n. Implements accept n (write accept w parts xs) (feed accept n (view w) parts xs))
          e (write-feed accept w parts xs v) in
      from (write accept w parts xs) i
        (subst (Good (input ++ xs)) (sym i.same) (feed-Good input (view w) parts xs d))
    where
      from :
          (out : ChunkWriter × Parts × Result WriterError (Unit {0}))
          → Implements accept flush_at out (feed accept flush_at (view w) parts xs)
          → Good (input ++ xs) (view out.0, out.1, out.2)
          → GoodWrite (input ++ xs) out
      from (w', parts', r) i g = (g.0, i.valid, i.kept, g.1)

  proceed-GoodWrite :
      (i j : Bytes) (out : ChunkWriter × Parts × Result WriterError (Unit {0}))
      (k : ChunkWriter → Parts → ChunkWriter × Parts × Result WriterError (Unit {0}))
      → GoodWrite i out
      → ((w : ChunkWriter) (s : Parts) → GoodWrite i (w, s, ok tt) → GoodWrite j (k w s))
      → GoodWrite j (proceed out k)
  proceed-GoodWrite i j (w, s, ok u) k g h = h w s (refl, g.1, g.2, g.3)
  proceed-GoodWrite i j (w, s, err e) k g h = cc (g.0)

  write_all-Good :
      (input : Bytes) (w : ChunkWriter) (parts : Parts) (pieces : List Bytes)
      → GoodWrite input (w, parts, ok tt)
      → GoodWrite (input ++ flatten pieces) (write_all w parts pieces)
  unfolding write_all
  write_all-Good input w parts [] g = rw append-nil g
  write_all-Good input w parts (b ∷ bs) g =
      proceed-GoodWrite (input ++ b) _ (write accept w parts b) _ (write-Good input w parts b g)
        λ w' s' h.
          rw (append_assoc input b (flatten bs)) at (write_all-Good (input ++ b) w' s' bs h)

  -- Full chunks in order, and a shorter last one if bytes are left over.
  pub record Received (input : Bytes) (parts : Parts) : Type 0 where
    pub full : Parts
    pub tail : Bytes
    pub all : contents full ++ tail ≡ input
    pub sizes : AreFull flush_at 0 full
    pub short : length tail < flush_at
    pub split : parts ≡ (if ltb 0 (length tail) then full ++ ((length full, tail) ∷ []) else full)

  abbrev pub Finished : Bytes → ChunkWriter × Parts × Result WriterError (Unit {0}) → Type 0
  Finished input (w, parts, r) = (r ≡ ok tt) × (w.used ≡ 0) × Received input parts

  finish-Finished :
      (input : Bytes) (w : ChunkWriter) (parts : Parts)
      → GoodWrite input (w, parts, ok tt)
      → Finished input (finish accept w parts)
  unfolding finish flush
  finish-Finished input w parts (_, v, e, d) =
      let size : length (take w.used w.buf) ≡ w.used =
        length-take w.used w.buf (omega (arith, v.size, v.room)) in
      let fits : ltb (length w.buf) w.used ≡ false = ground (arith, v.size, v.room) in
      let received : (ps : Parts)
          → ps ≡ (
              if ltb 0 (length (take w.used w.buf))
              then parts ++ ((length parts, take w.used w.buf) ∷ [])
              else parts)
          → Received input ps =
        λ ps split. record {
          full = parts;
          tail = take w.used w.buf;
          all = d.all;
          sizes = d.full;
          short = d.short;
          split = split;
        } in
      elim (Bool-cases (ltb 0 w.used)) [
        | inl some_left ↦
            rw (some_left, fits) (refl, refl, received _ (rw (size, some_left, d.next)))
        | inr none_left ↦ rw none_left (refl, ground arith, received _ (rw (size, none_left)))
      ]

  proceed-Finished :
      (i : Bytes) (out : ChunkWriter × Parts × Result WriterError (Unit {0}))
      → GoodWrite i out
      → Finished i (proceed out (λ w s. finish accept w s))
  proceed-Finished i (w, s, ok u) g = finish-Finished i w s (refl, g.1, g.2, g.3)
  proceed-Finished i (w, s, err e) g = cc (g.0)

-- From a valid writer with nothing pending, writes of any sizes followed by `finish` succeed on a
-- provider that accepts every chunk: the chunks received, in order, hold exactly the bytes written;
-- their indices count up from 0, all have the size `flush_at` but for a shorter, non-empty last one,
-- and nothing is left in the writer.
pub write_and_finish_lem :
    (w : ChunkWriter) (pieces : List Bytes)
    → IsValid w
    → view w ≡ record { bytes = []; index = 0 }
    → Finished w.flush_at (flatten pieces) (write_and_finish w pieces)
unfolding write_and_finish
write_and_finish_lem w pieces v e =
    proceed-Finished w.flush_at (flatten pieces) (write_all w [] pieces) (
      write_all-Good w.flush_at [] w [] pieces (
        refl,
        v,
        refl,
        record {
          all = ap (λ (p : Pending). p.bytes) e;
          full = tt;
          next = ap (λ (p : Pending). p.index) e;
          short = omega (arith, v.room, ap (λ (p : Pending). length p.bytes) e);
        },
      ))
