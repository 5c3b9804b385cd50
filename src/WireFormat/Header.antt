-- ===== src/WireFormat/Header.antt =====
-- The V7 header of sdk/sdk-core/src/crypto/wire_format.rs: `encrypt_file_v7_init`,
-- `decrypt_file_v7_init` and the constructors of the stream encryptor and decryptor.
use wattcloud.Common.{
  ℕ, ◌+◌, ◌≡◌, refl, sym, ap, ◌∙◌, not, List, [], ◌∷◌, ◌++◌, Result, ok, ◌>>=◌, ◌>>◌, reject_if,
  >>=-eq-ok, ok-injective, ◌==◌, ltb, length, take, drop, slice, flatten, flatten-append,
  append-nil, false, slice-flatten, length-flatten, take-all, drop-all, lengths, arith,
}
use wattcloud.Common.Bytes.{
  Bytes, first_byte, to_le4, read_le4, length-to_le4, read_le4-to_le4, constant_time_eq,
  constant_time_eq_iff,
}
use wattcloud.WireFormat.Crypto.{
  Crypto, Lawful, CryptoError, invalid_format, unsupported_version, header_prefix_too_short,
  data_too_short, header_truncated, bad_efk_len, mac_verification_failed, invalid_nonce_length,
  hkdf_sha256, new_from_slice, chunk_hmac_v1, v7_header_min, file_format_v7,
}
use wattcloud.WireFormat.Kem.{
  Randomness, HybridEncap, hybrid_encapsulate_v6, hybrid_decapsulate_v6, IsSized, Opens,
  decapsulate-encapsulate,
}
use wattcloud.WireFormat.Encryptor.{Encryptor}
use wattcloud.WireFormat.Decryptor.{Decryptor}
use wattcloud.WireFormat.Stream.{mirror}

pub record EncryptInit : Type 0 where
  pub file_iv : Bytes
  pub eph_x25519_pub : Bytes
  pub mlkem_ct : Bytes
  pub encrypted_file_key : Bytes
  pub key_commitment : Bytes
  pub content_key : Bytes

pub record DecryptInit : Type 0 where
  pub file_iv : Bytes
  pub content_key : Bytes
  pub header_end : ℕ

-- The header's fields in the order in which they are written.
abbrev pub header_fields : EncryptInit → List Bytes
header_fields init =
    (file_format_v7 ∷ [])
    ∷ init.file_iv
    ∷ init.eph_x25519_pub
    ∷ init.mlkem_ct
    ∷ to_le4 (length init.encrypted_file_key)
    ∷ init.encrypted_file_key
    ∷ init.key_commitment
    ∷ []

module _ (c : Crypto) where
  -- `encrypt_file_v7_init`
  unfoldable pub encrypt_file_v7_init : Bytes → Bytes → Randomness → Result CryptoError EncryptInit
  encrypt_file_v7_init mlkem_pub x25519_pub r = do
    kem ← hybrid_encapsulate_v6 c mlkem_pub x25519_pub r
    ok (record {
      file_iv = r.file_iv;
      eph_x25519_pub = kem.eph_x25519_pub;
      mlkem_ct = kem.mlkem_ciphertext;
      encrypted_file_key = kem.encrypted_file_key;
      key_commitment = c.blake2b (kem.content_key ++ r.file_iv);
      content_key = kem.content_key;
    })

  -- `V7StreamEncryptor::new`: the encryptor and the header.
  unfoldable pub new_encryptor : Bytes → Bytes → Randomness → Result CryptoError (Encryptor × Bytes)
  new_encryptor mlkem_pub x25519_pub r = do
    init ← encrypt_file_v7_init mlkem_pub x25519_pub r
    hmac_key ← hkdf_sha256 c init.content_key chunk_hmac_v1 32
    hmac ← new_from_slice c hmac_key
    ok (
      record {
        file_iv = init.file_iv;
        content_key = init.content_key;
        hmac = hmac;
        chunk_index = 0;
      },
      flatten (header_fields init),
    )

  -- `decrypt_file_v7_init`
  unfoldable pub decrypt_file_v7_init : Bytes → Bytes → Bytes → Result CryptoError DecryptInit
  decrypt_file_v7_init encrypted mlkem_sec x25519_sec = do
    reject_if (ltb (length encrypted) v7_header_min) (invalid_format data_too_short)
    reject_if (not (first_byte encrypted == file_format_v7))
        (unsupported_version (first_byte encrypted))
    let file_iv = slice 1 13 encrypted
    reject_if (not (length file_iv == 12)) invalid_nonce_length
    let efk_len = read_le4 (slice 1613 1617 encrypted)
    reject_if (not (efk_len == 60)) (invalid_format bad_efk_len)
    let efk_end = 1617 + efk_len
    reject_if (ltb (length encrypted) (efk_end + 32)) (invalid_format header_truncated)
    (content_key, _) ←
        hybrid_decapsulate_v6 c (slice 13 45 encrypted) (slice 45 1613 encrypted)
          (slice 1617 efk_end encrypted) mlkem_sec x25519_sec
    reject_if
        (not (
          constant_time_eq (c.blake2b (content_key ++ file_iv))
            (slice efk_end (efk_end + 32) encrypted)))
        mac_verification_failed
    ok (record { file_iv = file_iv; content_key = content_key; header_end = efk_end + 32 })

  -- `V7StreamDecryptor::new`: the decryptor and the end of the header.
  unfoldable pub new_decryptor : Bytes → Bytes → Bytes → Result CryptoError (Decryptor × ℕ)
  new_decryptor header_bytes mlkem_sec x25519_sec = do
    reject_if (ltb (length header_bytes) v7_header_min) (invalid_format header_prefix_too_short)
    init ← decrypt_file_v7_init (take v7_header_min header_bytes) mlkem_sec x25519_sec
    hmac_key ← hkdf_sha256 c init.content_key chunk_hmac_v1 32
    hmac ← new_from_slice c hmac_key
    ok (
      record {
        file_iv = init.file_iv;
        content_key = init.content_key;
        hmac = hmac;
        chunk_index = 0;
        buf = drop v7_header_min header_bytes;
      },
      init.header_end,
    )

-- The fields have the lengths of the format.
pub record Layout (init : EncryptInit) : Type 0 where
  pub iv : length init.file_iv ≡ 12
  pub eph : length init.eph_x25519_pub ≡ 32
  pub ct : length init.mlkem_ct ≡ 1568
  pub efk : length init.encrypted_file_key ≡ 60
  pub commitment : length init.key_commitment ≡ 32

module _ (init : EncryptInit) (l : Layout init) (behind : Bytes) where
  -- A file with the header, as its fields and what stands behind them.
  abbrev pub fields : List Bytes
  fields = header_fields init ++ (behind ∷ [])

  abbrev file : Bytes
  file = flatten fields

  pub file-header : file ≡ flatten (header_fields init) ++ behind
  file-header =
      flatten-append (header_fields init) (behind ∷ [])
      ∙ ap (λ t. flatten (header_fields init) ++ t) (append-nil behind)

  pub length-file : length file ≡ 1709 + length behind
  length-file = omega (
    arith,
    length-flatten fields,
    length-to_le4 (length init.encrypted_file_key),
    l.iv,
    l.eph,
    l.ct,
    l.efk,
    l.commitment,
  )

  pub field_iv : slice 1 13 file ≡ init.file_iv
  field_iv = slice-flatten fields 1 1 13 refl refl (omega (arith, l.iv))

  field_eph : slice 13 45 file ≡ init.eph_x25519_pub
  field_eph = slice-flatten fields 2 13 45 refl (omega (arith, l.iv)) (omega (arith, l.eph))

  field_ct : slice 45 1613 file ≡ init.mlkem_ct
  field_ct = slice-flatten fields 3 45 1613 refl (omega (arith, l.iv, l.eph)) (omega (arith, l.ct))

  field_len : slice 1613 1617 file ≡ to_le4 60
  field_len =
      slice-flatten fields 4 1613 1617 refl (omega (arith, l.iv, l.eph, l.ct))
        (omega (arith, length-to_le4 (length init.encrypted_file_key)))
      ∙ ap to_le4 l.efk

  before_efk : lengths (take 5 fields) ≡ 1617
  before_efk = omega (arith, l.iv, l.eph, l.ct, length-to_le4 (length init.encrypted_file_key))

  field_efk : slice 1617 1677 file ≡ init.encrypted_file_key
  field_efk = slice-flatten fields 5 1617 1677 refl before_efk (omega (arith, l.efk))

  pub field_commitment : slice 1677 1709 file ≡ init.key_commitment
  field_commitment =
      slice-flatten fields 6 1677 1709 refl (omega (arith, before_efk, l.efk))
        (omega (arith, l.commitment))

module _ (c : Crypto) (law : Lawful c) (mlkem_sec x25519_sec : Bytes)
    (sec_length : length mlkem_sec ≡ 3168) where
  -- A successful initialisation: its fields are laid out as the format wants, and they open.
  pub record Initialised (r : Randomness) (init : EncryptInit) : Type 0 where
    pub kem : HybridEncap
    pub opens : Opens c kem mlkem_sec x25519_sec r
    pub result : init ≡ record {
      file_iv = r.file_iv;
      eph_x25519_pub = kem.eph_x25519_pub;
      mlkem_ct = kem.mlkem_ciphertext;
      encrypted_file_key = kem.encrypted_file_key;
      key_commitment = c.blake2b (kem.content_key ++ r.file_iv);
      content_key = kem.content_key;
    }

  pub initialised :
      (r : Randomness) (init : EncryptInit)
      → IsSized c r
      → encrypt_file_v7_init c (c.mlkem_public mlkem_sec) (c.x25519_public x25519_sec) r ≡ ok init
      → Initialised r init
  unfolding encrypt_file_v7_init
  initialised r init s h =
      let (kem, a, b) =
        >>=-eq-ok
          (hybrid_encapsulate_v6 c (c.mlkem_public mlkem_sec) (c.x25519_public x25519_sec) r) _ h in
      record {
        kem = kem;
        opens = decapsulate-encapsulate c law mlkem_sec x25519_sec r kem s sec_length a;
        result = sym (ok-injective b);
      }

  laid_out : (r : Randomness) (init : EncryptInit) → IsSized c r → Initialised r init → Layout init
  laid_out r init s i = rw i.result (record {
    iv = s.file_iv_length;
    eph = i.opens.eph_length;
    ct = i.opens.ct_length;
    efk = i.opens.efk_length;
    commitment = law.blake2b_length _;
  })

  decapsulated :
      (r : Randomness) (init : EncryptInit) (i : Initialised r init)
      → hybrid_decapsulate_v6 c init.eph_x25519_pub init.mlkem_ct init.encrypted_file_key mlkem_sec
          x25519_sec
        ≡ ok (init.content_key, i.kem.hmac_key)
  decapsulated r init i = rw i.result i.opens.opened

  committed :
      (r : Randomness) (init : EncryptInit)
      → Initialised r init
      → c.blake2b (init.content_key ++ init.file_iv) ≡ init.key_commitment
  committed r init i = rw i.result

  decrypt_file_init :
      (r : Randomness) (init : EncryptInit) (behind : Bytes)
      → IsSized c r
      → Initialised r init
      → decrypt_file_v7_init c (flatten (header_fields init ++ (behind ∷ []))) mlkem_sec x25519_sec
        ≡ ok (record { file_iv = init.file_iv; content_key = init.content_key; header_end = 1709 })
  unfolding decrypt_file_v7_init
  decrypt_file_init r init behind s i =
      let l = laid_out r init s i in
      let sixty : read_le4 (to_le4 60) ≡ 60 = read_le4-to_le4 60 (omega arith) in
      let long : ltb (1709 + length behind) 1709 ≡ false = ground arith in
      let whole : ltb (1709 + length behind) (1617 + 60 + 32) ≡ false = ground arith in
      rw (
        length-file init l behind,
        long,
        field_iv init l behind,
        l.iv,
        field_len init l behind,
        sixty,
        whole,
        field_eph init l behind,
        field_ct init l behind,
        field_efk init l behind,
        decapsulated r init i,
        committed r init i,
        field_commitment init l behind,
        (constant_time_eq_iff init.key_commitment init.key_commitment).1 refl,
        decrypt_file_v7_init,
      )

  -- The header is accepted, whatever stands behind it.
  pub decrypt_init :
      (r : Randomness) (init : EncryptInit) (behind : Bytes)
      → IsSized c r
      → Initialised r init
      → decrypt_file_v7_init c (flatten (header_fields init) ++ behind) mlkem_sec x25519_sec
        ≡ ok (record { file_iv = init.file_iv; content_key = init.content_key; header_end = 1709 })
  decrypt_init r init behind s i =
      ap (λ t. decrypt_file_v7_init c t mlkem_sec x25519_sec)
        (sym (file-header init (laid_out r init s i) behind))
      ∙ decrypt_file_init r init behind s i

  pub length-header :
      (r : Randomness) (init : EncryptInit)
      → IsSized c r
      → Initialised r init
      → length (flatten (header_fields init)) ≡ 1709
  length-header r init s i =
      let l = laid_out r init s i in
      omega (
        arith,
        length-file init l [],
        ap length (file-header init l []),
        ap length (append-nil (flatten (header_fields init))),
      )

  -- A header made for a pair of public keys has 1709 bytes, and from it the secret keys give a
  -- decryptor in the very state of the encryptor, at chunk 0 and with an empty buffer.
  pub new_decryptor-new_encryptor :
      (r : Randomness) (e : Encryptor) (header : Bytes)
      → IsSized c r
      → new_encryptor c (c.mlkem_public mlkem_sec) (c.x25519_public x25519_sec) r ≡ ok (e, header)
      → (new_decryptor c header mlkem_sec x25519_sec ≡ ok (mirror e [], 1709))
        × (length header ≡ 1709)
        × (length e.file_iv ≡ 12)
        × (e.chunk_index ≡ 0)
  unfolding new_encryptor new_decryptor
  new_decryptor-new_encryptor r e header s h =
      let (init, a, h1) =
        >>=-eq-ok (encrypt_file_v7_init c (c.mlkem_public mlkem_sec) (c.x25519_public x25519_sec) r)
          _ h in
      let (hmac_key, b, h2) = >>=-eq-ok (hkdf_sha256 c init.content_key chunk_hmac_v1 32) _ h1 in
      let (hmac, d, h3) = >>=-eq-ok (new_from_slice c hmac_key) _ h2 in
      let i = initialised r init s a in
      let both = ok-injective h3 in
      let made : header ≡ flatten (header_fields init) = sym (ap (λ t. t.1) both) in
      let state : e ≡ record {
        file_iv = init.file_iv;
        content_key = init.content_key;
        hmac = hmac;
        chunk_index = 0;
      } =
        sym (ap (λ t. t.0) both) in
      let size : length header ≡ 1709 = ap length made ∙ length-header r init s i in
      let opened : decrypt_file_v7_init c header mlkem_sec x25519_sec
          ≡ ok (record {
            file_iv = init.file_iv;
            content_key = init.content_key;
            header_end = 1709;
          }) =
        ap (λ t. decrypt_file_v7_init c t mlkem_sec x25519_sec)
          (made ∙ sym (append-nil (flatten (header_fields init))))
        ∙ decrypt_init r init [] s i in
      (
        rw
            (
              size,
              take-all 1709 header (omega (arith, size)),
              drop-all 1709 header (omega (arith, size)),
              opened,
              b,
              d,
              new_decryptor,
            )
            (ap (λ t. ok (mirror t [], 1709)) (sym state)),
        size,
        ap (λ (t : Encryptor). length t.file_iv) state ∙ (laid_out r init s i).iv,
        ap (λ (t : Encryptor). t.chunk_index) state,
      )
