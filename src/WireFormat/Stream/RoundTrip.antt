-- ===== src/WireFormat/Stream/RoundTrip.antt =====
-- A stream of frames decrypts to the chunks that it was made from, however the network cuts it.
use wattcloud.Common.{
  ◌≡◌, refl, sym, ap, ap₂, subst, ◌∙◌, List, [], ◌∷◌, ◌++◌, ok, length, flatten, flatten-append,
  All, length-append, append_assoc, append-nil, arith,
}
use wattcloud.Common.Bytes.{Bytes, constant_time_eq_iff}
use wattcloud.WireFormat.Crypto.{Crypto, Lawful, v7_chunk_nonce}
use wattcloud.WireFormat.Encryptor.{Encryptor, frame_of}
use wattcloud.WireFormat.Encryptor
use wattcloud.WireFormat.Decryptor.{Decryptor, Front, incomplete, too_small, frame, parse_front}
use wattcloud.WireFormat.Decryptor
use wattcloud.WireFormat.Frames.{length-v7_chunk_nonce, length-frame_of}
use wattcloud.WireFormat.Stream.{FitsFrame, mirror, encrypt_all, decrypt_all, encrypt_all-cons}
use wattcloud.WireFormat.Stream.Run.{Waits, Run, run, encrypt_all-nil}

module _ (c : Crypto) (law : Lawful c) where
  decrypt_all-cons :
      (d d' : Decryptor) (b p : Bytes) (bs : List Bytes) {d'' : Decryptor} {ps : Bytes}
      → Decryptor.push c d b ≡ (d', ok p)
      → decrypt_all c d' bs ≡ (d'', ok ps)
      → decrypt_all c d (b ∷ bs) ≡ (d'', ok (p ++ ps))
  unfolding decrypt_all
  decrypt_all-cons d d' b p bs {d'' = d''} {ps = ps} x y =
      let z : decrypt_all c (Decryptor.push c d b).0 bs ≡ (d'', ok ps) =
        ap (λ t. decrypt_all c t.0 bs) x ∙ y in
      rw (ap (λ t. t.1) x, ap (λ t. t.1) z, decrypt_all) (ap (λ t. (t.0, ok (p ++ ps))) z)

  All-right : (xs ys : List Bytes) → All FitsFrame (xs ++ ys) → All FitsFrame ys
  All-right [] ys h = h
  All-right (x ∷ xs) ys h = All-right xs ys h.1

  drained : (fs : List Bytes) (B : Bytes) → B ++ [] ≡ flatten fs → Waits fs B → (B ≡ []) × (fs ≡ [])
  drained [] B e w = (sym (append-nil B) ∙ e, refl)
  drained (f ∷ fs) B e w =
      absurd (omega (arith, ap length e, length-append B [], length-append f (flatten fs)))

  all_read :
      (e e'' : Encryptor) (cs : List Bytes)
      → encrypt_all c e cs ≡ (e'', ok [])
      → (cs ≡ []) × (e ≡ e'')
  all_read e e'' [] h = (refl, (encrypt_all-nil c law e e'' [] h).0)
  all_read e e'' (p ∷ ps) h = cc ((encrypt_all-cons c e e'' p ps [] h).frames)

  push-Run :
      (cs : List Bytes) (e e'' : Encryptor) (B b Y : Bytes) (fs : List Bytes)
      → encrypt_all c e cs ≡ (e'', ok fs)
      → All FitsFrame cs
      → length e.file_iv ≡ 12
      → (B ++ b) ++ Y ≡ flatten fs
      → Run c law e'' cs Y [] (Decryptor.push c (mirror e B) b)
  unfolding Decryptor.push
  push-Run cs e e'' B b Y fs h small iv w =
      run c law cs _ e e'' (B ++ b) (B ++ b) Y [] fs h small iv w (omega arith)

  decrypt_all_lem :
      (pieces cs : List Bytes) (e e'' : Encryptor) (B : Bytes) (fs : List Bytes)
      → encrypt_all c e cs ≡ (e'', ok fs)
      → All FitsFrame cs
      → length e.file_iv ≡ 12
      → B ++ flatten pieces ≡ flatten fs
      → Waits fs B
      → decrypt_all c (mirror e B) pieces ≡ (mirror e'' [], ok (flatten cs))
  decrypt_all_lem [] cs e e'' B fs h small iv w q =
      let (no_b, no_f) = drained fs B w q in
      let (no_c, same) = all_read e e'' cs (h ∙ ap (λ t. (e'', ok t)) no_f) in
      unfold decrypt_all in
      ap₂ (λ x y. (mirror x y, ok [])) same no_b
      ∙ ap (λ t. (mirror e'' [], ok (flatten t))) (sym no_c)
  decrypt_all_lem (b ∷ bs) cs e e'' B fs h small iv w q =
      let r =
        push-Run cs e e'' B b (flatten bs) fs h small iv (append_assoc B b (flatten bs) ∙ w) in
      let left : All FitsFrame r.left =
        All-right r.read r.left (subst (All FitsFrame) r.chunks small) in
      decrypt_all-cons (mirror e B) (mirror r.at r.buf) b (flatten r.read) bs r.result
        (decrypt_all_lem bs r.left r.at e'' r.buf r.frames r.rest left r.iv r.bytes r.waits)
      ∙ ap (λ t. (mirror e'' [], ok t))
          (sym (flatten-append r.read r.left) ∙ ap flatten (sym r.chunks))

  frames-Wait :
      (e e'' : Encryptor) (cs fs : List Bytes)
      → encrypt_all c e cs ≡ (e'', ok fs)
      → length e.file_iv ≡ 12
      → Waits fs []
  frames-Wait e e'' [] fs h iv = rw ((encrypt_all-nil c law e e'' fs h).1) tt
  frames-Wait e e'' (p ∷ ps) fs h iv =
      let s = encrypt_all-cons c e e'' p ps fs h in
      let size =
        length-frame_of (v7_chunk_nonce e.file_iv e.chunk_index) s.head.ct
          (length-v7_chunk_nonce e.file_iv e.chunk_index iv) in
      rw s.frames (rw s.head.wire (omega (arith, size)))

  footer_verifies :
      (e : Encryptor) → Decryptor.finalize c (mirror e []) (Encryptor.finalize c e) ≡ ok tt
  unfolding Decryptor.finalize
  footer_verifies e = rw (law.hmac_length e.hmac.key e.hmac.fed, (constant_time_eq_iff _ _).1 refl)

  -- Whatever chunks were encrypted (each short enough for the length field of its frame), and
  -- however the frames are cut on the way: the decryptor with the same key, IV and MAC state returns
  -- the chunks joined, keeps no byte, and accepts the footer that the encryptor then gives.
  pub decrypt_all-encrypt_all :
      (e e' : Encryptor) (chunks frames pieces : List Bytes)
      → length e.file_iv ≡ 12
      → All FitsFrame chunks
      → encrypt_all c e chunks ≡ (e', ok frames)
      → flatten pieces ≡ flatten frames
      → (decrypt_all c (mirror e []) pieces ≡ (mirror e' [], ok (flatten chunks)))
        × (Decryptor.finalize c (mirror e' []) (Encryptor.finalize c e') ≡ ok tt)
  decrypt_all-encrypt_all e e' chunks frames pieces iv small h w = (
    decrypt_all_lem pieces chunks e e' [] frames h small iv w (frames-Wait e e' chunks frames h iv),
    footer_verifies e',
  )
