-- ===== src/Streaming/EndToEnd/RoundTrip.antt =====
-- An upload read back by a download.
use wattcloud.Common.{
  ℕ, ◌≤◌, ◌<◌, ◌≡◌, sym, ap, ap₂, ◌∙◌, Bool, Bool-cases, inl, inr, List, [], ◌∷◌, ◌++◌, Result, ok,
  err, map_err, >>=-eq-ok, ok-injective, ltb, length, drop, flatten, All, length-append,
  append_assoc, append-injective, append-cut, arith,
}
use wattcloud.Common.Bytes.{Bytes}
use wattcloud.WireFormat.Crypto.{Crypto, Lawful, CryptoError, v7_footer_len, v7_header_min}
use wattcloud.WireFormat.FooterTrimmer.{FooterTrimmer, finalize-push_all}
use wattcloud.WireFormat.FooterTrimmer
use wattcloud.WireFormat.Kem.{Randomness, IsSized}
use wattcloud.WireFormat.Header.{new_encryptor, new_decryptor, new_decryptor-new_encryptor}
use wattcloud.WireFormat.Encryptor.{Encryptor}
use wattcloud.WireFormat.Encryptor
use wattcloud.WireFormat.Decryptor.{Decryptor}
use wattcloud.WireFormat.Decryptor
use wattcloud.WireFormat.Stream.{FitsFrame, mirror, encrypt_all}
use wattcloud.WireFormat.Stream.RoundTrip.{decrypt_all-encrypt_all}
use wattcloud.Streaming.Flow.{
  SdkError, crypto, call_all, call_all-cons, call_all-step, call_all-same,
}
use wattcloud.Streaming.UploadFlow.{UploadFlow, upload}
use wattcloud.Streaming.UploadFlow
use wattcloud.Streaming.DownloadFlow.{DownloadState, download, header, body}
use wattcloud.Streaming.DownloadFlow
use wattcloud.Streaming.EndToEnd.{plaintexts, upload-encrypt_all, body_all, push-header}

-- The pieces of a stream were read: the plaintext is `text`, and what is left verifies.
record Reads (c : Crypto) (text : Bytes) (out : DownloadState × Result SdkError (List Bytes))
    : Type 0 where
  pieces : List Bytes
  result : out.1 ≡ ok pieces
  whole : flatten pieces ≡ text
  verified : DownloadFlow.finalize c out.0 ≡ ok tt

module _ (c : Crypto) (law : Lawful c) where
  body-Reads :
      (e e' : Encryptor) (chunks frames pieces : List Bytes)
      → length e.file_iv ≡ 12
      → All FitsFrame chunks
      → encrypt_all c e chunks ≡ (e', ok frames)
      → flatten pieces ≡ flatten frames ++ Encryptor.finalize c e'
      → Reads c (flatten chunks) (
          call_all
            (DownloadFlow.push c)
            (body (FooterTrimmer.new v7_footer_len) (mirror e []))
            pieces)
  unfolding DownloadFlow.finalize
  body-Reads e e' chunks frames pieces iv small h w =
      let t = FooterTrimmer.new v7_footer_len in
      let size : length (Encryptor.finalize c e') ≡ 32 = law.hmac_length _ _ in
      let long : v7_footer_len ≤ length (flatten pieces) =
        omega
          (arith, size, ap length w, length-append (flatten frames) (Encryptor.finalize c e')) in
      let (footer, ended, joined, l) = finalize-push_all v7_footer_len pieces long in
      let released = (FooterTrimmer.push_all t pieces).1 in
      let all : flatten released ++ footer ≡ flatten frames ++ Encryptor.finalize c e' =
        joined ∙ w in
      let (front, same) =
        append-injective (flatten released) footer (flatten frames) (Encryptor.finalize c e') all (
          omega (
            arith,
            size,
            l,
            ap length all,
            length-append (flatten released) footer,
            length-append (flatten frames) (Encryptor.finalize c e'),
          )) in
      let (opened, checked) =
        decrypt_all-encrypt_all c law e e' chunks frames released iv small h front in
      let b = body_all c t (mirror e []) (mirror e' []) pieces (flatten chunks) opened in
      record {
        pieces = b.pieces;
        result = ap (λ q. q.1) b.result;
        whole = b.whole;
        verified =
            ap (λ q. DownloadFlow.finalize c q.0) b.result
            ∙ rw (ended, DownloadFlow.finalize)
                (ap (λ f. map_err crypto (Decryptor.finalize c (mirror e' []) f)) same
                  ∙ ap (map_err crypto) checked);
      }

  -- The header phase keeps what it is given until 1709 bytes are there.
  pieces-Reads :
      (mlkem_sec x25519_sec head S text : Bytes) (d : Decryptor) (n : ℕ)
      → length head ≡ 1709
      → new_decryptor c head mlkem_sec x25519_sec ≡ ok (d, n)
      → ((others : List Bytes)
          → flatten others ≡ S
          → Reads c text
              (call_all (DownloadFlow.push c) (body (FooterTrimmer.new v7_footer_len) d) others))
      → (pieces : List Bytes) (buf : Bytes) → length buf < 1709
      → buf ++ flatten pieces ≡ head ++ S
      → Reads c text (call_all (DownloadFlow.push c) (header buf mlkem_sec x25519_sec) pieces)
  unfolding DownloadFlow.push
  pieces-Reads mlkem_sec x25519_sec head S text d n l made reads [] buf short w =
      absurd (omega (arith, ap length w, length-append buf [], length-append head S))
  pieces-Reads mlkem_sec x25519_sec head S text d n l made reads (b ∷ bs) buf short w =
      elim (Bool-cases (ltb (length (buf ++ b)) v7_header_min)) [
        | inl more ↦
            let r =
              pieces-Reads mlkem_sec x25519_sec head S text d n l made reads bs (buf ++ b)
                (ground arith) (append_assoc buf b (flatten bs) ∙ w) in
            let kept : DownloadFlow.push c (header buf mlkem_sec x25519_sec) b
                ≡ (header (buf ++ b) mlkem_sec x25519_sec, ok []) =
              rw more in
            let stepped = call_all-step (DownloadFlow.push c) _ _ _ b [] bs r.pieces kept (λ i. (
              (call_all (DownloadFlow.push c) (header (buf ++ b) mlkem_sec x25519_sec) bs).0,
              r.result i,
            )) in
            record {
              pieces = [] ∷ r.pieces;
              result = ap (λ q. q.1) stepped;
              whole = r.whole;
              verified = ap (λ q. DownloadFlow.finalize c q.0) stepped ∙ r.verified;
            }
        | inr whole ↦
            let (front, behind) =
              append-cut head (buf ++ b) (flatten bs) S (append_assoc buf b (flatten bs) ∙ w)
                (ground arith) in
            let rest : Bytes = drop (length head) (buf ++ b) in
            let r = reads (rest ∷ bs) behind in
            let s =
              call_all-cons (DownloadFlow.push c) (body (FooterTrimmer.new v7_footer_len) d) rest bs
                r.pieces r.result in
            let same = call_all-same (DownloadFlow.push c) _ _ _ _ bs (
              push-header c mlkem_sec x25519_sec buf b head rest s.first d n front l made s.head) in
            record {
              pieces = r.pieces;
              result = ap (λ q. q.1) same ∙ r.result;
              whole = r.whole;
              verified = ap (λ q. DownloadFlow.finalize c q.0) same ∙ r.verified;
            }
      ]

  record Uploaded (mlkem_pub x25519_pub : Bytes) (r : Randomness) (chunks : List (Bytes × Bool))
      (head : Bytes) (frames : List Bytes) (footer : Bytes) : Type 0 where
    start : Encryptor
    end : Encryptor
    began : new_encryptor c mlkem_pub x25519_pub r ≡ ok (start, head)
    sealed : encrypt_all c start (plaintexts chunks) ≡ (end, ok frames)
    ended : footer ≡ Encryptor.finalize c end

  finalize-eq-ok :
      (flow : UploadFlow) (footer : Bytes)
      → UploadFlow.finalize c flow ≡ ok footer
      → footer ≡ Encryptor.finalize c flow.encryptor
  unfolding UploadFlow.finalize
  finalize-eq-ok flow footer h = elim (Bool-cases flow.last_pushed) [
    | inl t ↦ sym (ok-injective (rw (t, UploadFlow.finalize) at h))
    | inr f ↦ cc (rw (f, UploadFlow.finalize) at h)
  ]

  map_err-ok : {A : Type 0} (r : Result CryptoError A) {a : A} → map_err crypto r ≡ ok a → r ≡ ok a
  map_err-ok (ok a) h = cc
  map_err-ok (err e) h = cc

  uploaded :
      (mlkem_pub x25519_pub : Bytes) (plaintext_len : ℕ) (r : Randomness)
      (chunks : List (Bytes × Bool)) (head : Bytes) (frames : List Bytes) (footer : Bytes)
      (total : ℕ)
      → upload c mlkem_pub x25519_pub plaintext_len r chunks ≡ ok (head, frames, footer, total)
      → Uploaded mlkem_pub x25519_pub r chunks head frames footer
  unfolding upload UploadFlow.new
  uploaded mlkem_pub x25519_pub plaintext_len r chunks head frames footer total h =
      let ((flow, head', total'), a, h1) =
        >>=-eq-ok (UploadFlow.new c mlkem_pub x25519_pub plaintext_len r) _ h in
      let (frames', b, h2) = >>=-eq-ok (call_all (UploadFlow.push_chunk c) flow chunks).1 _ h1 in
      let (footer', d, h3) =
        >>=-eq-ok (UploadFlow.finalize c (call_all (UploadFlow.push_chunk c) flow chunks).0) _ h2 in
      let ((e, head''), x, a1) =
        >>=-eq-ok (map_err crypto (new_encryptor c mlkem_pub x25519_pub r)) _ a in
      let out : ◌≡◌ {A = Bytes × List Bytes × Bytes × ℕ} (head', frames', footer', total')
          (head, frames, footer, total) =
        ok-injective h3 in
      let made = ok-injective a1 in
      let same : e ≡ flow.encryptor = ap (λ q. UploadFlow.encryptor q.0) made in
      let heads : head'' ≡ head =
        ap (λ (q : UploadFlow × Bytes × ℕ). q.1) made
        ∙ ap (λ (q : Bytes × List Bytes × Bytes × ℕ). q.0) out in
      record {
        start = flow.encryptor;
        end = (call_all (UploadFlow.push_chunk c) flow chunks).0.encryptor;
        began = map_err-ok _ x ∙ ap₂ (λ u v. ok (u, v)) same heads;
        sealed =
            upload-encrypt_all c flow chunks frames' b
            ∙ ap (λ fs. ((call_all (UploadFlow.push_chunk c) flow chunks).0.encryptor, ok fs))
                (ap (λ (q : Bytes × List Bytes × Bytes × ℕ). q.1) out);
        ended =
            sym (ap (λ (q : Bytes × List Bytes × Bytes × ℕ). q.2) out) ∙ finalize-eq-ok _ footer' d;
      }

  -- A file uploaded for a pair of public keys, whatever its chunks (each short enough for the length
  -- field of its frame), its randomness and its declared size: however its bytes (header, frames and
  -- footer in a row) are cut into pieces on the way, a download with the secret keys accepts them and
  -- returns the plaintext of all chunks.
  pub download-upload :
      (mlkem_sec x25519_sec : Bytes) (plaintext_len : ℕ) (r : Randomness)
      (chunks : List (Bytes × Bool)) (header : Bytes) (frames : List Bytes) (footer : Bytes)
      (total : ℕ) (pieces : List Bytes)
      → length mlkem_sec ≡ 3168
      → IsSized c r
      → All FitsFrame (plaintexts chunks)
      → upload c (c.mlkem_public mlkem_sec) (c.x25519_public x25519_sec) plaintext_len r chunks
        ≡ ok (header, frames, footer, total)
      → flatten pieces ≡ header ++ (flatten frames ++ footer)
      → download c mlkem_sec x25519_sec pieces ≡ ok (flatten (plaintexts chunks))
  unfolding download
  download-upload mlkem_sec x25519_sec plaintext_len r chunks head frames footer total pieces l s
        small h w =
      let u =
        uploaded (c.mlkem_public mlkem_sec) (c.x25519_public x25519_sec) plaintext_len r chunks head
          frames footer total h in
      let (made, size, iv, _) =
        new_decryptor-new_encryptor c law mlkem_sec x25519_sec l r u.start head s u.began in
      let reads =
        pieces-Reads mlkem_sec x25519_sec head (flatten frames ++ footer)
          (flatten (plaintexts chunks)) (mirror u.start []) 1709 size made
          (λ others eq.
            body-Reads u.start u.end (plaintexts chunks) frames others iv small u.sealed
              (eq ∙ ap (◌++◌ (flatten frames)) u.ended))
          pieces [] (omega arith) w in
      rw (reads.result, reads.verified, download) (ap ok reads.whole)
