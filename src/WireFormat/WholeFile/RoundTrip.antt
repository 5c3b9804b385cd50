-- ===== src/WireFormat/WholeFile/RoundTrip.antt =====
-- A file encrypted and decrypted in one call: the loops of `encrypt_file_v7` and `decrypt_file_v7`
-- of sdk/sdk-core/src/crypto/wire_format.rs.
use wattcloud.Common.{
  ℕ, zero, suc, ◌+◌, ◌-◌, ◌%◌, ◌^◌, ◌≤◌, ◌≡◌, refl, sym, ap, ap₂, ◌∙◌, true, some, List, [], ◌∷◌,
  ◌++◌, ok, >>=-eq-ok, ok_or-eq-ok, ok-injective, ltb, length, drop, flatten, All, length-append,
  append_assoc, append-nil, drop-append, arith,
}
use wattcloud.Common.Bytes.{Bytes, to_le4, constant_time_eq_iff}
use wattcloud.WireFormat.Crypto.{
  Crypto, Lawful, v7_chunk_nonce, hkdf_sha256, new_from_slice, chunk_hmac_v1,
}
use wattcloud.WireFormat.Encryptor.{frame_of, encrypt_file_v7_chunk}
use wattcloud.WireFormat.Frames.{length-v7_chunk_nonce, length-frame_of}
use wattcloud.WireFormat.Stream.{FitsFrame}
use wattcloud.WireFormat.Kem.{Randomness, IsSized}
use wattcloud.WireFormat.Header.{
  EncryptInit, DecryptInit, header_fields, encrypt_file_v7_init, decrypt_file_v7_init, initialised,
  decrypt_init, length-header,
}
use wattcloud.WireFormat.WholeFile.{compute_v7_hmac, encrypt_chunks, encrypt_file_v7}
use wattcloud.WireFormat.WholeFile.Decrypt.{
  parse_chunk-frame_of, decrypt_chunks, verify_footer, decrypt_file_v7,
}

module _ (c : Crypto) (law : Lawful c) (content_key file_iv tag : Bytes)
    (twelve : length file_iv ≡ 12) (footer : length tag ≡ 32) where
  -- The bytes that the encrypting loop appends, and how the decrypting loop reads them.
  record Framed (i : ℕ) (ps : List Bytes) (out out' hmac_input hmac_input' : Bytes) : Type 0 where
    frames : Bytes
    written : out' ≡ out ++ frames
    read :
        (fuel : ℕ) (plaintext : Bytes)
        → length frames ≤ fuel
        → decrypt_chunks c fuel content_key (i % 2 ^ 32) (frames ++ tag) plaintext hmac_input
          ≡ some (ok (plaintext ++ flatten ps, hmac_input', tag))

  decrypt_chunks-footer :
      (fuel index : ℕ) (plaintext hmac_input : Bytes)
      → decrypt_chunks c fuel content_key index tag plaintext hmac_input
        ≡ some (ok (plaintext, hmac_input, tag))
  unfolding decrypt_chunks
  decrypt_chunks-footer zero index plaintext hmac_input = refl
  decrypt_chunks-footer (suc fuel) index plaintext hmac_input = rw (footer, decrypt_chunks)

  decrypt_chunks-frame :
      (fuel i : ℕ) (p ct more plaintext hmac_input : Bytes)
      → c.gcm_encrypt content_key (v7_chunk_nonce file_iv (i % 2 ^ 32)) p ≡ some ct
      → FitsFrame p
      → decrypt_chunks c
          (suc fuel)
          content_key
          (i % 2 ^ 32)
          (frame_of (v7_chunk_nonce file_iv (i % 2 ^ 32)) ct ++ (more ++ tag))
          plaintext
          hmac_input
        ≡ decrypt_chunks c fuel content_key
            ((i + 1) % 2 ^ 32)
            (more ++ tag)
            (plaintext ++ p)
            ((hmac_input ++ to_le4 (i % 2 ^ 32)) ++ ct)
  unfolding decrypt_chunks
  decrypt_chunks-frame fuel i p ct more plaintext hmac_input s fits =
      let nonce = v7_chunk_nonce file_iv (i % 2 ^ 32) in
      let n = length-v7_chunk_nonce file_iv (i % 2 ^ 32) twelve in
      let size = law.tag_length _ _ _ _ s in
      let long : ltb 32 (length (frame_of nonce ct ++ (more ++ tag))) ≡ true = ground (
        arith,
        size,
        footer,
        length-frame_of nonce ct n,
        length-append (frame_of nonce ct) (more ++ tag),
        length-append more tag,
      ) in
      let parsed = parse_chunk-frame_of nonce ct (more ++ tag) n (omega (arith, size)) in
      let next : (i % 2 ^ 32 + 1) % 2 ^ 32 ≡ (i + 1) % 2 ^ 32 = omega arith in
      rw (long, parsed, law.opens _ _ _ _ s, next, decrypt_chunks)

  module _ (i : ℕ) (p ct : Bytes) (ps : List Bytes) (out out' hmac_input hmac_input' : Bytes)
      (s : c.gcm_encrypt content_key (v7_chunk_nonce file_iv (i % 2 ^ 32)) p ≡ some ct)
      (fits : FitsFrame p) where
    abbrev first : Bytes
    first = frame_of (v7_chunk_nonce file_iv (i % 2 ^ 32)) ct

    abbrev Others : Type 0
    Others =
        Framed (i + 1) ps (out ++ first) out' ((hmac_input ++ to_le4 (i % 2 ^ 32)) ++ ct)
          hmac_input'

    read_first :
        (rest : Others) (fuel : ℕ) (plaintext : Bytes)
        → length (first ++ rest.frames) ≤ fuel
        → decrypt_chunks c fuel content_key
            (i % 2 ^ 32)
            ((first ++ rest.frames) ++ tag)
            plaintext
            hmac_input
          ≡ some (ok (plaintext ++ flatten (p ∷ ps), hmac_input', tag))
    read_first rest fuel plaintext enough =
        let nonce = v7_chunk_nonce file_iv (i % 2 ^ 32) in
        let n = length-v7_chunk_nonce file_iv (i % 2 ^ 32) twelve in
        let whole : length (first ++ rest.frames) ≡ 16 + length ct + length rest.frames =
          omega (arith, length-frame_of nonce ct n, length-append first rest.frames) in
        let fuel_of : fuel ≡ suc (fuel - 1) = omega (arith, whole, enough) in
        ap₂ (λ f x. decrypt_chunks c f content_key (i % 2 ^ 32) x plaintext hmac_input) fuel_of
          (append_assoc first rest.frames tag)
        ∙ decrypt_chunks-frame (fuel - 1) i p ct rest.frames plaintext hmac_input s fits
        ∙ rest.read (fuel - 1) (plaintext ++ p) (omega (arith, whole, enough))
        ∙ ap (λ t. some (ok (t, hmac_input', tag))) (append_assoc plaintext p (flatten ps))

    Framed-cons : Others → Framed i (p ∷ ps) out out' hmac_input hmac_input'
    Framed-cons rest = record {
      frames = first ++ rest.frames;
      written = rest.written ∙ append_assoc out first rest.frames;
      read = read_first rest;
    }

  framed :
      (i : ℕ) (ps : List Bytes) (out out' hmac_input hmac_input' : Bytes)
      → All FitsFrame ps
      → encrypt_chunks c content_key file_iv i ps out hmac_input ≡ ok (out', hmac_input')
      → Framed i ps out out' hmac_input hmac_input'
  unfolding encrypt_chunks
  framed i [] out out' hmac_input hmac_input' fits h =
      let both = ok-injective h in
      record {
        frames = [];
        written = sym (ap (λ t. t.0) both) ∙ sym (append-nil out);
        read = λ fuel plaintext _.
            decrypt_chunks-footer fuel (i % 2 ^ 32) plaintext hmac_input
            ∙ ap₂ (λ x y. some (ok (x, y, tag))) (sym (append-nil plaintext)) (ap (λ t. t.1) both);
      }
  framed i (p ∷ ps) out out' hmac_input hmac_input' fits h =
      let nonce = v7_chunk_nonce file_iv (i % 2 ^ 32) in
      let (ct, a, b) = >>=-eq-ok (encrypt_file_v7_chunk c p content_key file_iv (i % 2 ^ 32)) _ h in
      Framed-cons i p ct ps out out' hmac_input hmac_input'
        (ok_or-eq-ok (c.gcm_encrypt content_key nonce p) _ a) fits.0
        (framed (i + 1) ps _ out' _ hmac_input' fits.1 b)

module _ (c : Crypto) (law : Lawful c) (mlkem_sec x25519_sec : Bytes)
    (sec_length : length mlkem_sec ≡ 3168) where
  footer_accepted :
      (content_key plaintext hmac_input hmac : Bytes)
      → compute_v7_hmac c content_key hmac_input ≡ ok hmac
      → length hmac ≡ 32
      → verify_footer c content_key (ok (plaintext, hmac_input, hmac)) ≡ ok plaintext
  unfolding verify_footer
  footer_accepted content_key plaintext hmac_input hmac h size =
      rw (size, h, (constant_time_eq_iff hmac hmac).1 refl, verify_footer)

  length-compute_v7_hmac :
      (content_key hmac_input hmac : Bytes)
      → compute_v7_hmac c content_key hmac_input ≡ ok hmac
      → length hmac ≡ 32
  unfolding compute_v7_hmac
  length-compute_v7_hmac content_key hmac_input hmac h =
      let (key, a, h1) = >>=-eq-ok (hkdf_sha256 c content_key chunk_hmac_v1 32) _ h in
      let (mac, b, h2) = >>=-eq-ok (new_from_slice c key) _ h1 in
      ap length (sym (ok-injective h2)) ∙ law.hmac_length _ _

  -- The steps of `decrypt_file_v7` on a file whose header is accepted.
  decrypt_file_v7_steps :
      (file rest plaintext hmac_input hmac : Bytes) (init : DecryptInit)
      → decrypt_file_v7_init c file mlkem_sec x25519_sec ≡ ok init
      → drop init.header_end file ≡ rest
      → decrypt_chunks c (length file) init.content_key 0 rest [] []
        ≡ some (ok (plaintext, hmac_input, hmac))
      → compute_v7_hmac c init.content_key hmac_input ≡ ok hmac
      → decrypt_file_v7 c file mlkem_sec x25519_sec ≡ some (ok plaintext)
  unfolding decrypt_file_v7
  decrypt_file_v7_steps file rest plaintext hmac_input hmac init a b d f =
      let size = length-compute_v7_hmac init.content_key hmac_input hmac f in
      rw (
        a,
        b,
        d,
        footer_accepted init.content_key plaintext hmac_input hmac f size,
        decrypt_file_v7,
      )

  -- With lawful ciphers, a file encrypted in one call for a pair of public keys, in any number of
  -- chunks that fit their frames, is decrypted in one call with the secret keys, without a panic,
  -- to the chunks joined.
  pub decrypt_file_v7-encrypt_file_v7 :
      (r : Randomness) (chunks : List Bytes) (file : Bytes)
      → IsSized c r
      → All FitsFrame chunks
      → encrypt_file_v7 c (c.mlkem_public mlkem_sec) (c.x25519_public x25519_sec) r chunks ≡ ok file
      → decrypt_file_v7 c file mlkem_sec x25519_sec ≡ some (ok (flatten chunks))
  unfolding encrypt_file_v7
  decrypt_file_v7-encrypt_file_v7 r chunks file sized fits h =
      let (init, a, h1) =
        >>=-eq-ok (encrypt_file_v7_init c (c.mlkem_public mlkem_sec) (c.x25519_public x25519_sec) r)
          _ h in
      let ((out, hmac_input), b, h2) =
        >>=-eq-ok
          (encrypt_chunks c init.content_key init.file_iv 0 chunks (flatten (header_fields init))
            [])
          _ h1 in
      let (hmac, d, h3) = >>=-eq-ok (compute_v7_hmac c init.content_key hmac_input) _ h2 in
      let i = initialised c law mlkem_sec x25519_sec sec_length r init sized a in
      let header = flatten (header_fields init) in
      let iv : length init.file_iv ≡ 12 =
        ap (λ (t : EncryptInit). length t.file_iv) i.result ∙ sized.file_iv_length in
      let f =
        framed c law init.content_key init.file_iv hmac iv
          (length-compute_v7_hmac init.content_key hmac_input hmac d) 0 chunks header out []
          hmac_input fits b in
      let whole : file ≡ header ++ (f.frames ++ hmac) =
        sym (ok-injective h3) ∙ ap (λ t. t ++ hmac) f.written ∙ append_assoc header f.frames hmac in
      let opened : decrypt_file_v7_init c file mlkem_sec x25519_sec
          ≡ ok (record {
            file_iv = init.file_iv;
            content_key = init.content_key;
            header_end = 1709;
          }) =
        ap (λ t. decrypt_file_v7_init c t mlkem_sec x25519_sec) whole
        ∙ decrypt_init c law mlkem_sec x25519_sec sec_length r init (f.frames ++ hmac) sized i in
      let size = length-header c law mlkem_sec x25519_sec sec_length r init sized i in
      let enough : length f.frames ≤ length file = omega (
        arith,
        ap length whole,
        length-append header (f.frames ++ hmac),
        length-append f.frames hmac,
      ) in
      decrypt_file_v7_steps file (f.frames ++ hmac) (flatten chunks) hmac_input hmac _ opened
        (ap (drop 1709) whole ∙ drop-append 1709 header (f.frames ++ hmac) (sym size))
        (f.read (length file) [] enough) d
