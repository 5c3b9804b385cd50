-- ===== src/WireFormat/Kem.antt =====
-- sdk/sdk-core/src/crypto/pqc.rs: the hybrid KEM. Randomness is an argument.
use wattcloud.Common.{
  ◌≡◌, refl, sym, ap, not, ◌++◌, Result, ok, ◌>>=◌, ◌>>◌, reject_if, ok_or, >>=-eq-ok, ok_or-eq-ok,
  ok-injective, ◌==◌, length, take, drop, slice, take-append, drop-append, length-append, some,
  arith,
}
use wattcloud.Common.Bytes.{Bytes, codes}
use wattcloud.WireFormat.Crypto.{
  Crypto, Lawful, CryptoError, invalid_format, mlkem_ct_length, bad_efk, invalid_key_material,
  kem_encap_failed, kem_decap_failed, kdf_failed, encryption_failed, decryption_failed,
}

-- What the operating system's generator returns during one encapsulation.
pub record Randomness : Type 0 where
  pub eph_secret : Bytes
  pub mlkem : Bytes
  pub content_key : Bytes
  pub wrapping_iv : Bytes
  pub file_iv : Bytes

pub record HybridEncap : Type 0 where
  pub eph_x25519_pub : Bytes
  pub mlkem_ciphertext : Bytes
  pub encrypted_file_key : Bytes
  pub content_key : Bytes
  pub hmac_key : Bytes

abbrev v6 : Bytes
v6 = codes "SecureCloud v6"

module _ (c : Crypto) where
  -- `hybrid_encapsulate_v6`
  unfoldable pub hybrid_encapsulate_v6 : Bytes → Bytes → Randomness → Result CryptoError HybridEncap
  hybrid_encapsulate_v6 mlkem_pub x25519_pub r = do
    reject_if (not (length mlkem_pub == 1568)) invalid_key_material
    (mlkem_ct, mlkem_ss) ← ok_or (c.mlkem_encapsulate mlkem_pub r.mlkem) kem_encap_failed
    derived ←
        ok_or (c.hkdf_expand (c.x25519_shared r.eph_secret x25519_pub ++ mlkem_ss) v6 64) kdf_failed
    wrapped ← ok_or (c.gcm_encrypt (take 32 derived) r.wrapping_iv r.content_key) encryption_failed
    ok (record {
      eph_x25519_pub = c.x25519_public r.eph_secret;
      mlkem_ciphertext = mlkem_ct;
      encrypted_file_key = r.wrapping_iv ++ wrapped;
      content_key = r.content_key;
      hmac_key = slice 32 64 derived;
    })

  -- `hybrid_decapsulate_v6`: the content key and the HMAC key.
  unfoldable pub hybrid_decapsulate_v6 :
      Bytes → Bytes → Bytes → Bytes → Bytes → Result CryptoError (Bytes × Bytes)
  hybrid_decapsulate_v6 eph_x25519_pub mlkem_ct encrypted_file_key mlkem_sec x25519_sec = do
    reject_if (not (length eph_x25519_pub == 32)) invalid_key_material
    reject_if (not (length mlkem_sec == 3168)) invalid_key_material
    reject_if (not (length mlkem_ct == 1568)) (invalid_format mlkem_ct_length)
    mlkem_ss ← ok_or (c.mlkem_decapsulate mlkem_sec mlkem_ct) kem_decap_failed
    derived ←
        ok_or (c.hkdf_expand (c.x25519_shared x25519_sec eph_x25519_pub ++ mlkem_ss) v6 64)
          kdf_failed
    reject_if (not (length encrypted_file_key == 60)) (invalid_format bad_efk)
    content_key ←
        ok_or
          (c.gcm_decrypt (take 32 derived) (take 12 encrypted_file_key)
            (drop 12 encrypted_file_key))
          decryption_failed
    reject_if (not (length content_key == 32)) invalid_key_material
    ok (content_key, slice 32 64 derived)

  -- The lengths that Rust's array types fix.
  pub record IsSized (r : Randomness) : Type 0 where
    pub key_length : length r.content_key ≡ 32
    pub iv_length : length r.wrapping_iv ≡ 12
    pub file_iv_length : length r.file_iv ≡ 12

  pub record Opens (k : HybridEncap) (mlkem_sec x25519_sec : Bytes) (r : Randomness) : Type 0 where
    pub opened :
        hybrid_decapsulate_v6 k.eph_x25519_pub k.mlkem_ciphertext k.encrypted_file_key mlkem_sec
          x25519_sec
        ≡ ok (k.content_key, k.hmac_key)
    pub same_key : k.content_key ≡ r.content_key
    pub eph_length : length k.eph_x25519_pub ≡ 32
    pub ct_length : length k.mlkem_ciphertext ≡ 1568
    pub efk_length : length k.encrypted_file_key ≡ 60

  -- A successful encapsulation, taken apart.
  record Parts (mlkem_pub x25519_pub : Bytes) (r : Randomness) (k : HybridEncap) : Type 0 where
    mlkem_ct : Bytes
    mlkem_ss : Bytes
    derived : Bytes
    wrapped : Bytes
    encapsulated : c.mlkem_encapsulate mlkem_pub r.mlkem ≡ some (mlkem_ct, mlkem_ss)
    expanded :
        c.hkdf_expand (c.x25519_shared r.eph_secret x25519_pub ++ mlkem_ss) v6 64 ≡ some derived
    sealed : c.gcm_encrypt (take 32 derived) r.wrapping_iv r.content_key ≡ some wrapped
    result : k ≡ record {
      eph_x25519_pub = c.x25519_public r.eph_secret;
      mlkem_ciphertext = mlkem_ct;
      encrypted_file_key = r.wrapping_iv ++ wrapped;
      content_key = r.content_key;
      hmac_key = slice 32 64 derived;
    }

  parts :
      (mlkem_pub x25519_pub : Bytes) (r : Randomness) (k : HybridEncap)
      → hybrid_encapsulate_v6 mlkem_pub x25519_pub r ≡ ok k
      → Parts mlkem_pub x25519_pub r k
  unfolding hybrid_encapsulate_v6
  parts mlkem_pub x25519_pub r k h =
      let (_, _, h1) =
        >>=-eq-ok (reject_if (not (length mlkem_pub == 1568)) invalid_key_material) _ h in
      let ((ct, ss), a, h2) =
        >>=-eq-ok (ok_or (c.mlkem_encapsulate mlkem_pub r.mlkem) kem_encap_failed) _ h1 in
      let (derived, b, h3) =
        >>=-eq-ok
          (ok_or (c.hkdf_expand (c.x25519_shared r.eph_secret x25519_pub ++ ss) v6 64) kdf_failed) _
          h2 in
      let (wrapped, d, h4) =
        >>=-eq-ok
          (ok_or (c.gcm_encrypt (take 32 derived) r.wrapping_iv r.content_key) encryption_failed) _
          h3 in
      record {
        mlkem_ct = ct;
        mlkem_ss = ss;
        derived = derived;
        wrapped = wrapped;
        encapsulated = ok_or-eq-ok _ _ a;
        expanded = ok_or-eq-ok _ _ b;
        sealed = ok_or-eq-ok _ _ d;
        result = sym (ok-injective h4);
      }

  -- What was encapsulated to a pair of public keys opens with the secret keys, to the same keys; and
  -- the parts have the lengths that the header gives them.
  pub decapsulate-encapsulate :
      (law : Lawful c) (mlkem_sec x25519_sec : Bytes) (r : Randomness) (k : HybridEncap)
      → IsSized r
      → length mlkem_sec ≡ 3168
      → hybrid_encapsulate_v6 (c.mlkem_public mlkem_sec) (c.x25519_public x25519_sec) r ≡ ok k
      → Opens k mlkem_sec x25519_sec r
  unfolding hybrid_decapsulate_v6
  decapsulate-encapsulate law mlkem_sec x25519_sec r k s l h =
      let p = parts (c.mlkem_public mlkem_sec) (c.x25519_public x25519_sec) r k h in
      let iv : take 12 (r.wrapping_iv ++ p.wrapped) ≡ r.wrapping_iv =
        take-append 12 r.wrapping_iv p.wrapped (sym s.iv_length) in
      let wrapped : drop 12 (r.wrapping_iv ++ p.wrapped) ≡ p.wrapped =
        drop-append 12 r.wrapping_iv p.wrapped (sym s.iv_length) in
      let efk : length (r.wrapping_iv ++ p.wrapped) ≡ 60 = omega (
        arith,
        length-append r.wrapping_iv p.wrapped,
        law.tag_length _ _ _ _ p.sealed,
        s.iv_length,
        s.key_length,
      ) in
      let shared = ap (λ t. t ++ p.mlkem_ss) (law.x25519_agrees x25519_sec r.eph_secret) in
      let ct_length = law.mlkem_length _ _ _ _ p.encapsulated in
      rw p.result (record {
        opened = rw (
          law.x25519_length r.eph_secret,
          l,
          ct_length,
          law.mlkem_agrees _ _ _ _ p.encapsulated,
          shared,
          p.expanded,
          efk,
          iv,
          wrapped,
          law.opens _ _ _ _ p.sealed,
          s.key_length,
          hybrid_decapsulate_v6,
        );
        same_key = refl;
        eph_length = law.x25519_length r.eph_secret;
        ct_length = ct_length;
        efk_length = efk;
      })
