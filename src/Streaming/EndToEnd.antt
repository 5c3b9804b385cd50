-- ===== src/Streaming/EndToEnd.antt =====
-- An upload read back by a download: the steps of the two flows.
pub mod RoundTrip
use wattcloud.Common.{
  ℕ, ◌+◌, ◌-◌, ◌≤◌, ◌<◌, ◌≡◌, refl, sym, ap, ap₂, ◌∙◌, Bool, true, false, not, ◌&&◌, Bool-cases,
  inl, inr, List, [], ◌∷◌, ◌++◌, Result, ok, err, map_err, >>=-eq-ok, ok-injective, Result-cases,
  ◌==◌, ltb, length, take, drop, map, flatten, All, length-append, append_assoc, append-nil,
  append-injective, take-append, drop-append, arith,
}
use wattcloud.Common.Bytes.{Bytes}
use wattcloud.WireFormat.Crypto.{
  Crypto, Lawful, CryptoError, v7_encrypt_chunk_size, v7_footer_len, v7_header_min,
}
use wattcloud.WireFormat.FooterTrimmer.{FooterTrimmer, finalize-push_all}
use wattcloud.WireFormat.FooterTrimmer
use wattcloud.WireFormat.Kem.{Randomness, IsSized}
use wattcloud.WireFormat.Header.{new_encryptor, new_decryptor, new_decryptor-new_encryptor}
use wattcloud.WireFormat.Encryptor.{Encryptor}
use wattcloud.WireFormat.Encryptor
use wattcloud.WireFormat.Decryptor.{Decryptor}
use wattcloud.WireFormat.Decryptor
use wattcloud.WireFormat.Stream.{FitsFrame, mirror, encrypt_all, decrypt_all}
use wattcloud.Streaming.Flow.{SdkError, crypto, call_all, call_all-cons, call_all-step}
use wattcloud.Streaming.UploadFlow.{UploadFlow, upload}
use wattcloud.Streaming.UploadFlow
use wattcloud.Streaming.DownloadFlow.{DownloadState, download, header, body}
use wattcloud.Streaming.DownloadFlow

abbrev pub plaintexts : List (Bytes × Bool) → List Bytes
plaintexts = map λ chunk. chunk.0

module _ (c : Crypto) where
  map_err-eq-ok : (r : Result CryptoError Bytes) {b : Bytes} → map_err crypto r ≡ ok b → r ≡ ok b
  map_err-eq-ok (ok a) h = cc
  map_err-eq-ok (err e) h = cc

  push_chunk-ok :
      (flow : UploadFlow) (chunk : Bytes × Bool) (f : Bytes)
      → (UploadFlow.push_chunk c flow chunk).1 ≡ ok f
      → Encryptor.push c flow.encryptor chunk.0
        ≡ ((UploadFlow.push_chunk c flow chunk).0.encryptor, ok f)
  unfolding UploadFlow.push_chunk
  push_chunk-ok flow (p, l) f h =
      elim (Bool-cases (not l && not (length p == v7_encrypt_chunk_size))) [
        | inl bad ↦ cc (rw (bad, UploadFlow.push_chunk) at h)
        | inr good ↦ elim (Bool-cases flow.last_pushed) [
          | inl last ↦ cc (rw (good, last, UploadFlow.push_chunk) at h)
          | inr more ↦
              let g =
                map_err-eq-ok (Encryptor.push c flow.encryptor p).1
                  (rw (good, more, UploadFlow.push_chunk) at h) in
              rw (good, more, UploadFlow.push_chunk)
                (λ i. ((Encryptor.push c flow.encryptor p).0, g i))
        ]
      ]

  encrypt_all-step :
      (e e' e'' : Encryptor) (p f : Bytes) (ps fs : List Bytes)
      → Encryptor.push c e p ≡ (e', ok f)
      → encrypt_all c e' ps ≡ (e'', ok fs)
      → encrypt_all c e (p ∷ ps) ≡ (e'', ok (f ∷ fs))
  unfolding encrypt_all
  encrypt_all-step e e' e'' p f ps fs a b =
      let g : encrypt_all c (Encryptor.push c e p).0 ps ≡ (e'', ok fs) =
        ap (λ t. encrypt_all c t.0 ps) a ∙ b in
      rw (ap (λ t. t.1) a, ap (λ t. t.1) g, encrypt_all) (ap (λ t. (t.0, ok (f ∷ fs))) g)

  -- The chunks that the flow accepted are what its encryptor encrypted.
  pub upload-encrypt_all :
      (flow : UploadFlow) (chunks : List (Bytes × Bool)) (frames : List Bytes)
      → (call_all (UploadFlow.push_chunk c) flow chunks).1 ≡ ok frames
      → encrypt_all c flow.encryptor (plaintexts chunks)
        ≡ ((call_all (UploadFlow.push_chunk c) flow chunks).0.encryptor, ok frames)
  upload-encrypt_all flow [] frames h =
      unfold encrypt_all call_all in λ i. (flow.encryptor, ok (ok-injective h i))
  upload-encrypt_all flow (p ∷ ps) frames h =
      let s = call_all-cons (UploadFlow.push_chunk c) flow p ps frames h in
      encrypt_all-step flow.encryptor _ _ p.0 s.first (plaintexts ps) s.others
        (push_chunk-ok flow p s.first s.head)
        (upload-encrypt_all (UploadFlow.push_chunk c flow p).0 ps s.others s.tail)
      ∙ ap₂ (λ t fs. (UploadFlow.encryptor t, ok fs)) (sym s.state) (sym s.results)

  record Decrypts (d : Decryptor) (b : Bytes) (bs : List Bytes) (d'' : Decryptor) (text : Bytes)
      : Type 0 where
    first : Bytes
    others : Bytes
    head : (Decryptor.push c d b).1 ≡ ok first
    tail : decrypt_all c (Decryptor.push c d b).0 bs ≡ (d'', ok others)
    whole : text ≡ first ++ others

  decrypt_all-cons :
      (d d'' : Decryptor) (b : Bytes) (bs : List Bytes) (text : Bytes)
      → decrypt_all c d (b ∷ bs) ≡ (d'', ok text)
      → Decrypts d b bs d'' text
  unfolding decrypt_all
  decrypt_all-cons d d'' b bs text h = elim (Result-cases (Decryptor.push c d b).1) [
    | inr (x, e) ↦ cc (rw (e, decrypt_all) at h)
    | inl (p, e) ↦ elim (Result-cases (decrypt_all c (Decryptor.push c d b).0 bs).1) [
      | inr (x, f) ↦ cc (rw (e, f, decrypt_all) at h)
      | inl (rest, f) ↦
          let both : ◌≡◌ {A = Decryptor × Result CryptoError Bytes}
              ((decrypt_all c (Decryptor.push c d b).0 bs).0, ok (p ++ rest)) (d'', ok text) =
            rw (e, f, decrypt_all) at h in
          record {
            first = p;
            others = rest;
            head = e;
            tail = λ i. ((both i).0, f i);
            whole = sym (ok-injective (ap (λ t. t.1) both));
          }
    ]
  ]

  -- Past the header, a download is the trimmer's and the decryptor's work in a row.
  pub record Body (t : FooterTrimmer) (d'' : Decryptor) (text : Bytes)
      (out : DownloadState × Result SdkError (List Bytes)) : Type 0 where
    pub pieces : List Bytes
    pub result : out ≡ (body t d'', ok pieces)
    pub whole : flatten pieces ≡ text

  pub body_all :
      (t : FooterTrimmer) (d d'' : Decryptor) (pieces : List Bytes) (text : Bytes)
      → decrypt_all c d (FooterTrimmer.push_all t pieces).1 ≡ (d'', ok text)
      → Body
          (FooterTrimmer.push_all t pieces).0
          d''
          text
          (call_all (DownloadFlow.push c) (body t d) pieces)
  unfolding FooterTrimmer.push_all
  body_all t d d'' [] text h =
      unfold decrypt_all call_all in
      record {
        pieces = [];
        result = ap (λ q. (body t q.0, ok [])) h;
        whole = ok-injective (ap (λ q. q.1) h);
      }
  body_all t d d'' (b ∷ bs) text h =
      let t' = (FooterTrimmer.push t b).0 in
      let out = (FooterTrimmer.push t b).1 in
      let s = decrypt_all-cons d d'' out (FooterTrimmer.push_all t' bs).1 text h in
      let r = body_all t' (Decryptor.push c d out).0 d'' bs s.others s.tail in
      let stepped : DownloadFlow.push c (body t d) b
          ≡ (body t' (Decryptor.push c d out).0, ok s.first) =
        unfold DownloadFlow.push DownloadFlow.push_body in
        ap (λ q. (body t' (Decryptor.push c d out).0, map_err crypto q)) s.head in
      record {
        pieces = s.first ∷ r.pieces;
        result = call_all-step (DownloadFlow.push c) _ _ _ b s.first bs r.pieces stepped r.result;
        whole = ap (◌++◌ s.first) r.whole ∙ sym s.whole;
      }

  completed :
      (mlkem_sec x25519_sec X head rest p : Bytes) (d : Decryptor) (n : ℕ)
      → take v7_header_min X ≡ head
      → drop v7_header_min X ≡ rest
      → new_decryptor c head mlkem_sec x25519_sec ≡ ok (d, n)
      → (DownloadFlow.push_body c (FooterTrimmer.new v7_footer_len) d rest).1 ≡ ok p
      → DownloadFlow.complete_header c X mlkem_sec x25519_sec
        ≡ DownloadFlow.push_body c (FooterTrimmer.new v7_footer_len) d rest
  unfolding DownloadFlow.push_body DownloadFlow.complete_header
  completed mlkem_sec x25519_sec X head rest p d n front behind made h =
      let t = FooterTrimmer.push (FooterTrimmer.new v7_footer_len) in
      let made' : new_decryptor c (take v7_header_min X) mlkem_sec x25519_sec ≡ ok (d, n) =
        ap (λ x. new_decryptor c x mlkem_sec x25519_sec) front ∙ made in
      let plain : (Decryptor.push c d (t (drop v7_header_min X)).1).1 ≡ ok p =
        ap (λ x. (Decryptor.push c d (t x).1).1) behind ∙ map_err-eq-ok _ h in
      rw (made', plain, DownloadFlow.complete_header)
        (ap (λ x. (body (t x).0 (Decryptor.push c d (t x).1).0, ok p)) behind
          ∙ ap (λ x. (body (t rest).0 (Decryptor.push c d (t rest).1).0, x)) (sym h))

  -- The piece that completes the header goes on as its rest would in the body.
  pub push-header :
      (mlkem_sec x25519_sec buf b head rest p : Bytes) (d : Decryptor) (n : ℕ)
      → buf ++ b ≡ head ++ rest
      → length head ≡ 1709
      → new_decryptor c head mlkem_sec x25519_sec ≡ ok (d, n)
      → (DownloadFlow.push c (body (FooterTrimmer.new v7_footer_len) d) rest).1 ≡ ok p
      → DownloadFlow.push c (header buf mlkem_sec x25519_sec) b
        ≡ DownloadFlow.push c (body (FooterTrimmer.new v7_footer_len) d) rest
  unfolding DownloadFlow.push
  push-header mlkem_sec x25519_sec buf b head rest p d n e l made h =
      let long : ltb (length (buf ++ b)) v7_header_min ≡ false =
        ground (arith, ap length e, length-append head rest) in
      rw (long, DownloadFlow.push)
        (completed mlkem_sec x25519_sec (buf ++ b) head rest p d n
          (ap (take v7_header_min) e ∙ take-append _ head rest (sym l))
          (ap (drop v7_header_min) e ∙ drop-append _ head rest (sym l)) made h)
