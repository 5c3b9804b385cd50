-- ===== src/WireFormat/WholeFile.antt =====
-- `encrypt_file_v7` and `compute_v7_hmac` of sdk/sdk-core/src/crypto/wire_format.rs: a file
-- encrypted in one call.
pub mod Decrypt
pub mod RoundTrip
use wattcloud.Common.{
  ℕ, zero, suc, ◌+◌, ◌%◌, ◌^◌, ◌≤◌, ◌<◌, ◌≡◌, sym, ap, ◌∙◌, inl, inr, Bool-cases, List, [], ◌∷◌,
  ◌++◌, Result, ok, ◌>>=◌, >>=-eq-ok, ok-injective, flatten, append_assoc, append-nil, arith,
}
use wattcloud.Common.Bytes.{Bytes, to_le4, max_u32}
use wattcloud.WireFormat.Crypto.{
  Crypto, CryptoError, HmacSha256, update, finalize_mac, new_from_slice, hkdf_sha256,
  v7_chunk_nonce, chunk_hmac_v1,
}
use wattcloud.WireFormat.Encryptor.{Encryptor, frame_of, encrypt_file_v7_chunk}
use wattcloud.WireFormat.Encryptor
use wattcloud.WireFormat.Stream.{encrypt_all, encrypt_all-cons, Split, Pushed}
use wattcloud.WireFormat.Kem.{Randomness}
use wattcloud.WireFormat.Header.{EncryptInit, header_fields, encrypt_file_v7_init, new_encryptor}

module _ (c : Crypto) where
  -- `compute_v7_hmac`
  unfoldable pub compute_v7_hmac : Bytes → Bytes → Result CryptoError Bytes
  compute_v7_hmac content_key chunks_data = do
    hmac_key ← hkdf_sha256 c content_key chunk_hmac_v1 32
    mac ← new_from_slice c hmac_key
    ok (finalize_mac c (update mac chunks_data))

  -- The loop of `encrypt_file_v7` from the chunk at `i` on, `i as u32` its index: the output and
  -- the input of the HMAC.
  unfoldable pub encrypt_chunks :
      Bytes → Bytes → ℕ → List Bytes → Bytes → Bytes → Result CryptoError (Bytes × Bytes)
  encrypt_chunks content_key file_iv i [] out hmac_input = ok (out, hmac_input)
  encrypt_chunks content_key file_iv i (chunk ∷ chunks) out hmac_input = do
    let chunk_index = i % 2 ^ 32
    ct ← encrypt_file_v7_chunk c chunk content_key file_iv chunk_index
    encrypt_chunks content_key file_iv (i + 1) chunks
        (out ++ frame_of (v7_chunk_nonce file_iv chunk_index) ct)
        ((hmac_input ++ to_le4 chunk_index) ++ ct)

  -- `encrypt_file_v7`
  unfoldable pub encrypt_file_v7 :
      Bytes → Bytes → Randomness → List Bytes → Result CryptoError Bytes
  encrypt_file_v7 mlkem_pub x25519_pub r plaintext_chunks = do
    init ← encrypt_file_v7_init c mlkem_pub x25519_pub r
    (out, hmac_input) ←
        encrypt_chunks init.content_key init.file_iv 0 plaintext_chunks
          (flatten (header_fields init)) []
    hmac ← compute_v7_hmac init.content_key hmac_input
    ok (out ++ hmac)

  -- The chunks of a stream that starts in `e`, in one loop.
  encrypt_chunks-encrypt_all :
      (ps fs : List Bytes) (out : Bytes) (e e' : Encryptor)
      → e.chunk_index ≤ max_u32
      → encrypt_all c e ps ≡ (e', ok fs)
      → (encrypt_chunks e.content_key e.file_iv e.chunk_index ps out e.hmac.fed
          ≡ ok (out ++ flatten fs, e'.hmac.fed))
        × (e'.hmac.key ≡ e.hmac.key)
  unfolding encrypt_chunks encrypt_all
  encrypt_chunks-encrypt_all [] fs out e e' b h =
      let state : e ≡ e' = ap (λ t. t.0) h in
      let none_read : [] ≡ fs = ok-injective (ap (λ t. t.1) h) in
      (
        rw (← none_read, ← state, append-nil out, encrypt_chunks),
        ap (λ (t : Encryptor). t.hmac.key) (sym state),
      )
  encrypt_chunks-encrypt_all (p ∷ ps) fs out e e' b h =
      let s = encrypt_all-cons c e e' p ps fs h in
      let index : e.chunk_index % 2 ^ 32 ≡ e.chunk_index = omega arith in
      let next = record (Encryptor.fed c e s.head.ct) { chunk_index = e.chunk_index + 1 } in
      let tail : encrypt_all c next ps ≡ (e', ok s.others) =
        ap (λ t. encrypt_all c t ps) (sym s.head.state) ∙ s.tail in
      let frame = frame_of (v7_chunk_nonce e.file_iv e.chunk_index) s.head.ct in
      let (rest, key) =
        encrypt_chunks-encrypt_all ps s.others (out ++ frame) next e'
          (omega (arith, s.head.counted)) tail in
      (
        rw (index, s.head.sealed, s.frames, encrypt_chunks, s.head.wire)
            (rest ∙ ap (λ t. ok (t, e'.hmac.fed)) (append_assoc out frame (flatten s.others))),
        key,
      )

  new_from_slice-fed :
      (key : Bytes) (mac : HmacSha256) → new_from_slice c key ≡ ok mac → mac.fed ≡ []
  new_from_slice-fed key mac h = elim (Bool-cases (c.hmac_accepts key)) [
    | inl taken ↦
        let made : ◌≡◌ {A = Result CryptoError HmacSha256} (ok (record { key = key; fed = [] }))
            (ok mac) =
          rw taken at h in
        ap (λ (t : HmacSha256). t.fed) (sym (ok-injective made))
    | inr refused ↦ cc (rw refused at h)
  ]

  -- The steps of `encrypt_file_v7`, when each of them gives a result.
  encrypt_file_v7_steps :
      (mlkem_pub x25519_pub : Bytes) (r : Randomness) (ps : List Bytes) (init : EncryptInit)
      (header out hmac_input hmac : Bytes)
      → encrypt_file_v7_init c mlkem_pub x25519_pub r ≡ ok init
      → flatten (header_fields init) ≡ header
      → encrypt_chunks init.content_key init.file_iv 0 ps header [] ≡ ok (out, hmac_input)
      → compute_v7_hmac init.content_key hmac_input ≡ ok hmac
      → encrypt_file_v7 mlkem_pub x25519_pub r ps ≡ ok (out ++ hmac)
  unfolding encrypt_file_v7
  encrypt_file_v7_steps mlkem_pub x25519_pub r ps init header out hmac_input hmac a b d f =
      let chunks : encrypt_chunks init.content_key init.file_iv 0 ps (flatten (header_fields init))
            []
          ≡ ok (out, hmac_input) =
        ap (λ t. encrypt_chunks init.content_key init.file_iv 0 ps t []) b ∙ d in
      rw (a, chunks, f, encrypt_file_v7)

  -- A file of chunks encrypted in one call is the header, the frames of the stream encryptor for
  -- the same chunks and randomness, and its footer, when the stream encryptor refuses none of them.
  pub encrypt_file_v7-encrypt_all :
      (mlkem_pub x25519_pub : Bytes) (r : Randomness) (ps fs : List Bytes) (e e' : Encryptor)
      (header : Bytes)
      → new_encryptor c mlkem_pub x25519_pub r ≡ ok (e, header)
      → encrypt_all c e ps ≡ (e', ok fs)
      → encrypt_file_v7 mlkem_pub x25519_pub r ps
        ≡ ok ((header ++ flatten fs) ++ Encryptor.finalize c e')
  unfolding new_encryptor compute_v7_hmac
  encrypt_file_v7-encrypt_all mlkem_pub x25519_pub r ps fs e e' header h g =
      let (init, a, h1) = >>=-eq-ok (encrypt_file_v7_init c mlkem_pub x25519_pub r) _ h in
      let (hmac_key, b, h2) = >>=-eq-ok (hkdf_sha256 c init.content_key chunk_hmac_v1 32) _ h1 in
      let (mac, d, h3) = >>=-eq-ok (new_from_slice c hmac_key) _ h2 in
      let both = ok-injective h3 in
      let start : Encryptor = record {
        file_iv = init.file_iv;
        content_key = init.content_key;
        hmac = mac;
        chunk_index = 0;
      } in
      let state : e ≡ start = sym (ap (λ t. t.0) both) in
      let (loop, key) =
        encrypt_chunks-encrypt_all ps fs header start e' (omega arith)
          (ap (λ t. encrypt_all c t ps) (sym state) ∙ g) in
      let empty = new_from_slice-fed hmac_key mac d in
      let footer : compute_v7_hmac init.content_key e'.hmac.fed ≡ ok (Encryptor.finalize c e') =
        rw (b, d, empty, key, compute_v7_hmac) in
      encrypt_file_v7_steps mlkem_pub x25519_pub r ps init header _ _ _ a (ap (λ t. t.1) both)
        (ap (λ t. encrypt_chunks init.content_key init.file_iv 0 ps header t) (sym empty) ∙ loop)
        footer
