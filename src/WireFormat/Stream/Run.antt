-- ===== src/WireFormat/Stream/Run.antt =====
-- The decryptor's loop over bytes that an encryptor made.
use wattcloud.Common.{
  ℕ, zero, suc, ◌<◌, ◌≡◌, refl, ap, ◌∙◌, inl, inr, Bool-cases, false, List, [], ◌∷◌, ◌++◌, Result,
  ok, ltb, ◌==◌, length, drop, flatten, All, append-cut, length-drop, append_assoc, append-nil,
  arith,
}
use wattcloud.Common.Bytes.{Bytes, max_u32}
use wattcloud.WireFormat.Crypto.{Crypto, Lawful, CryptoError, v7_chunk_nonce}
use wattcloud.WireFormat.Encryptor.{Encryptor, frame_of}
use wattcloud.WireFormat.Encryptor
use wattcloud.WireFormat.Decryptor.{Decryptor, Front, incomplete, too_small, frame, parse_front}
use wattcloud.WireFormat.Decryptor
use wattcloud.WireFormat.Frames.{
  length-v7_chunk_nonce, length-frame_of, parse_front-frame, parse_front-incomplete,
}
use wattcloud.WireFormat.Stream.{FitsFrame, mirror, encrypt_all, Pushed, encrypt_all-cons}

-- No whole frame is waiting in the buffer.
abbrev pub Waits : List Bytes → Bytes → Type 0
Waits [] buf = Unit {0}
Waits (f ∷ fs) buf = length buf < length f

module _ (c : Crypto) (law : Lawful c) where
  -- The decryptor opens what the encryptor sealed, and both move on alike.
  open_frame-push :
      (e : Encryptor) (p f : Bytes) (h : Pushed c e p f) (buf : Bytes)
      → Decryptor.open_frame c (mirror e buf) h.ct ≡ (mirror (Encryptor.push c e p).0 buf, ok p)
  unfolding Decryptor.open_frame
  open_frame-push e p f h buf =
      let other : (e.chunk_index == max_u32) ≡ false = ground (arith, h.counted) in
      rw (h.state, law.opens _ _ _ _ h.sealed, other, Decryptor.open_frame) refl

  -- What the loop has done when it stops before the end of `X ++ Y`.
  pub record Run (e'' : Encryptor) (cs : List Bytes) (Y pt : Bytes)
      (out : Decryptor × Result CryptoError Bytes) : Type 0 where
    pub at : Encryptor
    pub buf : Bytes
    pub read : List Bytes
    pub left : List Bytes
    pub frames : List Bytes
    pub result : out ≡ (mirror at buf, ok (pt ++ flatten read))
    pub chunks : cs ≡ read ++ left
    pub rest : encrypt_all c at left ≡ (e'', ok frames)
    pub bytes : buf ++ Y ≡ flatten frames
    pub waits : Waits frames buf
    pub iv : length at.file_iv ≡ 12

  append-eq-nil : (X Y : Bytes) → X ++ Y ≡ [] → (X ≡ []) × (Y ≡ [])
  append-eq-nil [] Y e = (refl, e)
  append-eq-nil (x ∷ X) Y e = cc

  loop_frame :
      (fuel : ℕ) (d d' : Decryptor) (X X' pt p : Bytes) {ct : Bytes}
      → parse_front X ≡ frame ct X'
      → Decryptor.open_frame c d ct ≡ (d', ok p)
      → Decryptor.push_loop c (suc fuel) d X pt ≡ Decryptor.push_loop c fuel d' X' (pt ++ p)
  unfolding Decryptor.push_loop
  loop_frame fuel d d' X X' pt p a b =
      rw (a, ap (λ t. t.1) b, Decryptor.push_loop)
        (ap (λ t. Decryptor.push_loop c fuel t.0 X' (pt ++ p)) b)

  loop_break :
      (fuel : ℕ) (d : Decryptor) (X pt : Bytes)
      → parse_front X ≡ incomplete
      → Decryptor.push_loop c (suc fuel) d X pt ≡ (record d { buf = X }, ok pt)
  unfolding Decryptor.push_loop
  loop_break fuel d X pt a = rw (a, Decryptor.push_loop)

  Run-cons :
      (e'' : Encryptor) (p : Bytes) (ps : List Bytes) (Y pt : Bytes)
      (out out' : Decryptor × Result CryptoError Bytes)
      → out ≡ out'
      → Run e'' ps Y (pt ++ p) out'
      → Run e'' (p ∷ ps) Y pt out
  Run-cons e'' p ps Y pt out out' e r = record {
    at = r.at;
    buf = r.buf;
    read = p ∷ r.read;
    left = r.left;
    frames = r.frames;
    result =
        e ∙ r.result ∙ ap (λ t. (mirror r.at r.buf, ok t)) (append_assoc pt p (flatten r.read));
    chunks = ap (◌∷◌ p) r.chunks;
    rest = r.rest;
    bytes = r.bytes;
    waits = r.waits;
    iv = r.iv;
  }

  pub encrypt_all-nil :
      (e e'' : Encryptor) (fs : List Bytes)
      → encrypt_all c e [] ≡ (e'', ok fs)
      → (e ≡ e'') × (fs ≡ [])
  unfolding encrypt_all
  encrypt_all-nil e e'' fs h = (ap (λ t. t.0) h, cc (ap (λ t. t.1) h))

  pub run :
      (cs : List Bytes) (fuel : ℕ) (e e'' : Encryptor) (B X Y pt : Bytes) (fs : List Bytes)
      → encrypt_all c e cs ≡ (e'', ok fs)
      → All FitsFrame cs
      → length e.file_iv ≡ 12
      → X ++ Y ≡ flatten fs
      → length X < fuel
      → Run e'' cs Y pt (Decryptor.push_loop c fuel (mirror e B) X pt)
  run [] zero e e'' B X Y pt fs h small iv w l = absurd (omega arith)
  run [] (suc fuel) e e'' B X Y pt fs h small iv w l =
      let (same, none_left) = encrypt_all-nil e e'' fs h in
      let empty : X ++ Y ≡ [] = w ∙ ap flatten none_left in
      let (no_x, no_y) = append-eq-nil X Y empty in
      record {
        at = e;
        buf = X;
        read = [];
        left = [];
        frames = fs;
        result =
            loop_break fuel (mirror e B) X pt (rw no_x (unfold parse_front in refl))
            ∙ rw append-nil;
        chunks = refl;
        rest = h;
        bytes = w;
        waits = rw none_left tt;
        iv = iv;
      }
  run (p ∷ ps) zero e e'' B X Y pt fs h small iv w l = absurd (omega arith)
  run (p ∷ ps) (suc fuel) e e'' B X Y pt fs h small iv w l =
      let s = encrypt_all-cons c e e'' p ps fs h in
      let nonce = v7_chunk_nonce e.file_iv e.chunk_index in
      let twelve = length-v7_chunk_nonce e.file_iv e.chunk_index iv in
      let tagged = law.tag_length _ _ _ _ s.head.sealed in
      let w' : X ++ Y ≡ frame_of nonce s.head.ct ++ flatten s.others =
        w ∙ ap flatten s.frames ∙ ap (λ t. t ++ flatten s.others) s.head.wire in
      elim (Bool-cases (ltb (length X) (length (frame_of nonce s.head.ct)))) [
        | inl short ↦ record {
          at = e;
          buf = X;
          read = [];
          left = p ∷ ps;
          frames = s.first ∷ s.others;
          result =
              loop_break fuel (mirror e B) X pt (
                parse_front-incomplete nonce s.head.ct twelve (omega (arith, tagged)) X Y _ w'
                  (ground arith))
              ∙ rw append-nil;
          chunks = refl;
          rest = h ∙ ap (λ t. (e'', ok t)) s.frames;
          bytes = w ∙ ap flatten s.frames;
          waits = rw s.head.wire (ground arith);
          iv = iv;
        }
        | inr long ↦
            let size = length-frame_of nonce s.head.ct twelve in
            let (front, behind) =
              append-cut (frame_of nonce s.head.ct) X Y (flatten s.others) w' (ground arith) in
            let X' : Bytes = drop (length (frame_of nonce s.head.ct)) X in
            let parsed : parse_front X ≡ frame s.head.ct X' =
              ap parse_front front
              ∙ parse_front-frame nonce s.head.ct twelve (omega (arith, tagged)) X' in
            Run-cons e'' p ps Y pt _ _
              (loop_frame fuel (mirror e B) _ X X' pt p parsed
                (open_frame-push e p s.first s.head B))
              (run ps fuel (Encryptor.push c e p).0 e'' B X' Y (pt ++ p) s.others s.tail small.1
                (ap (λ (t : Encryptor). length t.file_iv) s.head.state ∙ iv) behind
                (ground (arith, size, length-drop (length (frame_of nonce s.head.ct)) X)))
      ]
