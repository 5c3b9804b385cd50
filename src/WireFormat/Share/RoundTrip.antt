-- ===== src/WireFormat/Share/RoundTrip.antt =====
-- The manifest of a bundle share, encrypted and read by the recipient: `encrypt_manifest_v7` and
-- `V7ShareDecryptor` of sdk/sdk-core/src/crypto/wire_format.rs.
use wattcloud.Common.{
  ℕ, zero, suc, ◌≤◌, ◌<◌, ◌≡◌, refl, sym, ap, ◌∙◌, inl, inr, Bool-cases, true, false, List, [], ◌∷◌,
  ◌++◌, Result, ok, err, >>=-eq-ok, ok-injective, ◌==◌, length, take, drop, flatten, All,
  append-injective, append_assoc, append-nil, length-append, take-drop, length-drop,
  length-replicate, slice, drop-all, arith,
}
use wattcloud.Common.Bytes.{Bytes, first_byte, constant_time_eq_iff}
use wattcloud.WireFormat.Crypto.{
  Crypto, Lawful, CryptoError, HmacSha256, hkdf_sha256, new_from_slice, chunk_hmac_v1,
  v7_encrypt_chunk_size,
}
use wattcloud.WireFormat.Encryptor.{Encryptor}
use wattcloud.WireFormat.Encryptor
use wattcloud.WireFormat.Decryptor
use wattcloud.WireFormat.Stream.{FitsFrame, mirror, encrypt_all, decrypt_all}
use wattcloud.WireFormat.Stream.RoundTrip.{decrypt_all-encrypt_all}
use wattcloud.WireFormat.Header.{
  header_fields, Layout, fields, field_iv, field_commitment, file-header, length-file,
}
use wattcloud.WireFormat.Share
use wattcloud.WireFormat.Share.{
  ShareDecryptor, share_init, encrypt_manifest_loop, encrypt_manifest_v7, new_share_decryptor,
}

length-take_le : (n : ℕ) (xs : Bytes) → length (take n xs) ≤ n
length-take_le n xs =
    omega
      (arith, ap length (take-drop n xs), length-append (take n xs) (drop n xs), length-drop n xs)

no_bytes : (xs : Bytes) → (length xs == 0) ≡ true → length xs ≡ 0
no_bytes xs h = ground arith

fewer_bytes :
    (n fuel : ℕ) (xs : Bytes)
    → 0 < n
    → length xs < suc fuel
    → (length (drop n xs) == 0) ≡ false
    → length (drop n xs) < fuel
fewer_bytes n fuel xs some_taken b h = ground (arith, length-drop n xs)

empty_rest : (xs : Bytes) → length xs ≡ 0 → xs ≡ []
empty_rest [] h = refl
empty_rest (x ∷ xs) h = absurd (omega arith)

same_ends :
    (xs xs' ys ys' : Bytes)
    → length ys ≡ length ys'
    → xs ++ ys ≡ xs' ++ ys'
    → (xs ≡ xs') × (ys ≡ ys')
same_ends xs xs' ys ys' n e =
    append-injective xs ys xs' ys' e
      (omega (arith, n, ap length e, length-append xs ys, length-append xs' ys'))

module _ (c : Crypto) where
  -- What the loop makes of `rest`: frames of chunks that join to it.
  record Chunked (e e' : Encryptor) (rest out out' : Bytes) : Type 0 where
    chunks : List Bytes
    frames : List Bytes
    encrypted : encrypt_all c e chunks ≡ (e', ok frames)
    joined : flatten chunks ≡ rest
    written : out' ≡ out ++ flatten frames
    fits : All FitsFrame chunks

  encrypt_all-push :
      (e e' : Encryptor) (p f : Bytes) (ps fs : List Bytes)
      → (Encryptor.push c e p).1 ≡ ok f
      → encrypt_all c (Encryptor.push c e p).0 ps ≡ (e', ok fs)
      → encrypt_all c e (p ∷ ps) ≡ (e', ok (f ∷ fs))
  unfolding encrypt_all
  encrypt_all-push e e' p f ps fs a b =
      rw (a, ap (λ t. t.1) b, encrypt_all) (ap (λ t. (t.0, ok (f ∷ fs))) b)

  fits_frame : (rest : Bytes) → FitsFrame (take v7_encrypt_chunk_size rest)
  fits_frame rest = omega (arith, length-take_le v7_encrypt_chunk_size rest)

  module _ (e e' : Encryptor) (rest out out' f : Bytes)
      (a : (Encryptor.push c e (take v7_encrypt_chunk_size rest)).1 ≡ ok f) where
    abbrev first : Bytes
    first = take v7_encrypt_chunk_size rest

    last_chunk :
        length (drop v7_encrypt_chunk_size rest) ≡ 0
        → (Encryptor.push c e first).0 ≡ e'
        → out ++ f ≡ out'
        → Chunked e e' rest out out'
    unfolding encrypt_all
    last_chunk none_left state written = record {
      chunks = first ∷ [];
      frames = f ∷ [];
      encrypted = encrypt_all-push e e' first f [] [] a (ap (λ t. (t, ok [])) state);
      joined =
          ap (λ t. first ++ t) (sym (empty_rest (drop v7_encrypt_chunk_size rest) none_left))
          ∙ take-drop v7_encrypt_chunk_size rest;
      written = sym written ∙ ap (λ t. out ++ t) (sym (append-nil f));
      fits = (fits_frame rest, tt);
    }

    Chunked-cons :
        Chunked (Encryptor.push c e first).0 e' (drop v7_encrypt_chunk_size rest) (out ++ f) out'
        → Chunked e e' rest out out'
    Chunked-cons k = record {
      chunks = first ∷ k.chunks;
      frames = f ∷ k.frames;
      encrypted = encrypt_all-push e e' first f k.chunks k.frames a k.encrypted;
      joined = ap (λ t. first ++ t) k.joined ∙ take-drop v7_encrypt_chunk_size rest;
      written = k.written ∙ append_assoc out f (flatten k.frames);
      fits = (fits_frame rest, k.fits);
    }

  round :
      (fuel : ℕ) (e e' : Encryptor) (rest out out' : Bytes)
      → length rest < suc fuel
      → encrypt_manifest_loop c (suc fuel) e rest out ≡ ok (e', out')
      → ((e1 : Encryptor) (rest1 out1 : Bytes)
          → length rest1 < fuel
          → encrypt_manifest_loop c fuel e1 rest1 out1 ≡ ok (e', out')
          → Chunked e1 e' rest1 out1 out')
      → (r : Result CryptoError Bytes)
      → (Encryptor.push c e (take v7_encrypt_chunk_size rest)).1 ≡ r
      → Chunked e e' rest out out'
  unfolding encrypt_manifest_loop
  round fuel e e' rest out out' b h again (err x) a = cc (rw (a, encrypt_manifest_loop) at h)
  round fuel e e' rest out out' b h again (ok f) a =
      elim (Bool-cases (length (drop v7_encrypt_chunk_size rest) == 0)) [
        | inl nothing ↦
            let both = ok-injective (rw (a, nothing, encrypt_manifest_loop) at h) in
            last_chunk e e' rest out out' f a (no_bytes _ nothing) (ap (λ t. t.0) both)
              (ap (λ t. t.1) both)
        | inr some_left ↦ Chunked-cons e e' rest out out' f a (
            again _ (drop v7_encrypt_chunk_size rest) (out ++ f)
              (fewer_bytes v7_encrypt_chunk_size fuel rest (omega arith) b some_left)
              (rw (a, some_left, encrypt_manifest_loop) at h))
      ]

  chunked :
      (fuel : ℕ) (e e' : Encryptor) (rest out out' : Bytes)
      → length rest < fuel
      → encrypt_manifest_loop c fuel e rest out ≡ ok (e', out')
      → Chunked e e' rest out out'
  chunked zero e e' rest out out' b h = absurd (omega arith)
  chunked (suc fuel) e e' rest out out' b h =
      round fuel e e' rest out out' b h (λ e1 rest1 out1. chunked fuel e1 e' rest1 out1 out') _ refl

module _ (c : Crypto) (law : Lawful c) (content_key file_iv : Bytes)
    (key_length : length content_key ≡ 32) (iv_length : length file_iv ≡ 12) where
  abbrev header : Bytes
  header = flatten (header_fields (share_init c content_key file_iv))

  share_Layout : Layout (share_init c content_key file_iv)
  share_Layout = record {
    iv = iv_length;
    eph = refl;
    ct = length-replicate {A = ℕ} 1568 0;
    efk = refl;
    commitment = law.blake2b_length (content_key ++ file_iv);
  }

  -- The recipient's constructor, on a header with the right fields.
  new_share_decryptor_steps :
      (head hmac_key : Bytes) (hmac : HmacSha256)
      → length head ≡ 1709
      → first_byte head ≡ 7
      → slice 1 13 head ≡ file_iv
      → slice 1677 1709 head ≡ c.blake2b (content_key ++ file_iv)
      → hkdf_sha256 c content_key chunk_hmac_v1 32 ≡ ok hmac_key
      → new_from_slice c hmac_key ≡ ok hmac
      → new_share_decryptor c head content_key
        ≡ ok (
          mirror
              (record {
                file_iv = file_iv;
                content_key = content_key;
                hmac = hmac;
                chunk_index = 0;
              })
              [],
          1709,
        )
  unfolding new_share_decryptor
  new_share_decryptor_steps head hmac_key hmac n seven iv commitment a b = rw (
    n,
    seven,
    iv,
    iv_length,
    key_length,
    commitment,
    (constant_time_eq_iff (c.blake2b (content_key ++ file_iv)) _).1 refl,
    a,
    b,
    drop-all 1709 head (omega (arith, n)),
    new_share_decryptor,
  )

  header_file : flatten (fields (share_init c content_key file_iv) share_Layout []) ≡ header
  header_file = file-header (share_init c content_key file_iv) share_Layout [] ∙ append-nil header

  length-header : length header ≡ 1709
  length-header =
      ap length (sym header_file) ∙ length-file (share_init c content_key file_iv) share_Layout []

  header_iv : slice 1 13 header ≡ file_iv
  header_iv =
      ap (slice 1 13) (sym header_file)
      ∙ field_iv (share_init c content_key file_iv) share_Layout []

  header_commitment : slice 1677 1709 header ≡ c.blake2b (content_key ++ file_iv)
  header_commitment =
      ap (slice 1677 1709) (sym header_file)
      ∙ field_commitment (share_init c content_key file_iv) share_Layout []

  -- With lawful ciphers, a manifest encrypted under a 32-byte key is read back by a recipient who
  -- has the key: from the first 1709 bytes a share decryptor is made, which returns the manifest
  -- from the bytes behind them, however they are cut, and accepts the last 32 as the footer.
  pub decrypt_all-encrypt_manifest_v7 :
      (manifest head footer : Bytes) (pieces : List Bytes)
      → encrypt_manifest_v7 c manifest content_key file_iv ≡ ok (head ++ (flatten pieces ++ footer))
      → length head ≡ 1709
      → length footer ≡ 32
      → (d : ShareDecryptor) × (d' : ShareDecryptor) × (new_share_decryptor c head content_key
          ≡ ok (d, 1709))
        × (decrypt_all c d pieces ≡ (d', ok manifest))
        × (Share.finalize c d' footer ≡ ok tt)
  unfolding encrypt_manifest_v7
  decrypt_all-encrypt_manifest_v7 manifest head footer pieces h n m =
      let (hmac_key, a, h1) = >>=-eq-ok (hkdf_sha256 c content_key chunk_hmac_v1 32) _ h in
      let (hmac, b, h2) = >>=-eq-ok (new_from_slice c hmac_key) _ h1 in
      let start : Encryptor = record {
        file_iv = file_iv;
        content_key = content_key;
        hmac = hmac;
        chunk_index = 0;
      } in
      let ((e', out), d, h3) =
        >>=-eq-ok (encrypt_manifest_loop c (suc (length manifest)) start manifest header) _ h2 in
      let k = chunked c (suc (length manifest)) start e' manifest header out (omega arith) d in
      let mac = Encryptor.finalize c e' in
      let whole : head ++ (flatten pieces ++ footer) ≡ header ++ (flatten k.frames ++ mac) =
        sym (ok-injective h3)
        ∙ ap (λ t. t ++ mac) k.written
        ∙ append_assoc header (flatten k.frames) mac in
      let (front, behind) = append-injective head _ header _ whole (n ∙ sym length-header) in
      let (body, end) =
        same_ends (flatten pieces) (flatten k.frames) footer mac (m ∙ sym (law.hmac_length _ _))
          behind in
      let (read, accepted) =
        decrypt_all-encrypt_all c law start e' k.chunks k.frames pieces iv_length k.fits k.encrypted
          body in
      (
        mirror start [],
        mirror e' [],
        new_share_decryptor_steps head hmac_key hmac n (ap first_byte front)
            (ap (slice 1 13) front ∙ header_iv) (ap (slice 1677 1709) front ∙ header_commitment) a
            b,
        read ∙ ap (λ t. (mirror e' [], ok t)) k.joined,
        ap (Decryptor.finalize c (mirror e' [])) end ∙ accepted,
      )
