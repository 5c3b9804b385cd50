-- ===== src/WireFormat/Frames.antt =====
-- One V7 frame: what `push` of the encryptor emits, and what the decryptor's parser finds.
use wattcloud.Common.{
  ℕ, ◌+◌, ◌%◌, ◌^◌, ◌<◌, ◌≡◌, sym, ap, ap₂, ◌∙◌, inl, inr, Bool-cases, true, false, [], ◌∷◌, ◌++◌,
  ltb, length, take, drop, length-append, take-append, drop-append, take-append_le, append_assoc,
  arith,
}
use wattcloud.Common.Bytes.{Bytes, to_le4, read_le4, length-to_le4, read_le4-to_le4}
use wattcloud.WireFormat.Crypto.{v7_chunk_nonce}
use wattcloud.WireFormat.Encryptor.{frame_of}
use wattcloud.WireFormat.Decryptor.{incomplete, frame, parse_front}

pub length-v7_chunk_nonce :
    (iv : Bytes) (i : ℕ) → length iv ≡ 12 → length (v7_chunk_nonce iv i) ≡ 12
unfolding v7_chunk_nonce to_le4
length-v7_chunk_nonce (a ∷ b ∷ c ∷ d ∷ iv) i h = h
length-v7_chunk_nonce [] i h = absurd (omega arith)
length-v7_chunk_nonce (a ∷ []) i h = absurd (omega arith)
length-v7_chunk_nonce (a ∷ b ∷ []) i h = absurd (omega arith)
length-v7_chunk_nonce (a ∷ b ∷ c ∷ []) i h = absurd (omega arith)

pub length-frame_of :
    (nonce ct : Bytes) → length nonce ≡ 12 → length (frame_of nonce ct) ≡ 16 + length ct
length-frame_of nonce ct h = omega (
  arith,
  length-append (to_le4 ((12 + length ct) % 2 ^ 32)) (nonce ++ ct),
  length-append nonce ct,
  length-to_le4 ((12 + length ct) % 2 ^ 32),
)

module _ (nonce ct : Bytes) (twelve : length nonce ≡ 12) (small : 12 + length ct < 2 ^ 32) where
  pub head_word :
      (xs : Bytes) → take 4 (frame_of nonce ct ++ xs) ≡ to_le4 ((12 + length ct) % 2 ^ 32)
  head_word xs =
      rw append_assoc (take-append 4 (to_le4 ((12 + length ct) % 2 ^ 32)) _ (sym (length-to_le4 _)))

  pub word : read_le4 (to_le4 ((12 + length ct) % 2 ^ 32)) ≡ 12 + length ct
  word = read_le4-to_le4 _ (omega arith) ∙ omega arith

  body : drop 16 (frame_of nonce ct) ≡ ct
  body = rw (← append_assoc (to_le4 ((12 + length ct) % 2 ^ 32)) nonce ct) (
      drop-append 16 (to_le4 ((12 + length ct) % 2 ^ 32) ++ nonce) ct (
        omega (
          arith,
          length-append (to_le4 ((12 + length ct) % 2 ^ 32)) nonce,
          length-to_le4 ((12 + length ct) % 2 ^ 32),
        )))

  -- A frame at the front of the buffer is found, with the bytes behind it.
  pub parse_front-frame : (more : Bytes) → parse_front (frame_of nonce ct ++ more) ≡ frame ct more
  unfolding parse_front
  parse_front-frame more =
      let size = length-frame_of nonce ct twelve in
      let whole : length (frame_of nonce ct ++ more) ≡ 16 + length ct + length more =
        omega (arith, size, length-append (frame_of nonce ct) more) in
      let four : ltb (length (frame_of nonce ct ++ more)) 4 ≡ false = ground (arith, whole) in
      let end : 4 + (12 + length ct) ≡ length (frame_of nonce ct) = omega (arith, size) in
      let enough : ltb (length (frame_of nonce ct ++ more)) (4 + (12 + length ct)) ≡ false =
        ground (arith, whole) in
      let long : ltb (12 + length ct) 12 ≡ false = ground arith in
      rw (four, head_word more, word, long, enough)
        (ap₂ frame (ap (drop 16) (take-append _ (frame_of nonce ct) more end) ∙ body)
          (drop-append _ (frame_of nonce ct) more end))

  -- A proper prefix of a frame is not read yet.
  pub parse_front-incomplete :
      (xs ys more : Bytes)
      → xs ++ ys ≡ frame_of nonce ct ++ more
      → length xs < length (frame_of nonce ct)
      → parse_front xs ≡ incomplete
  unfolding parse_front
  parse_front-incomplete xs ys more e h = elim (Bool-cases (ltb (length xs) 4)) [
    | inl short ↦ rw short
    | inr four ↦
        let size = length-frame_of nonce ct twelve in
        let head : take 4 xs ≡ to_le4 ((12 + length ct) % 2 ^ 32) =
          sym (take-append_le 4 xs ys (ground arith)) ∙ ap (take 4) e ∙ head_word more in
        let cut : ltb (length xs) (4 + (12 + length ct)) ≡ true = ground (arith, size) in
        let long : ltb (12 + length ct) 12 ≡ false = ground arith in
        rw (four, head, word, long, cut)
  ]
