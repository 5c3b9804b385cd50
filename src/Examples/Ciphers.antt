-- ===== src/Examples/Ciphers.antt =====
-- A set of ciphers for the examples: a tag of zeros, keys of zeros. It hides nothing, and it is lawful.
use wattcloud.Common.{
  ℕ, ◌-◌, ◌≡◌, refl, sym, ap, ◌∙◌, true, Option, none, some, [], ◌++◌, length, length-append, take,
  take-append, replicate, arith,
}
use wattcloud.Common.Bytes.{Bytes}
use wattcloud.WireFormat.Crypto.{Crypto, Lawful}
use wattcloud.WireFormat.Kem.{Randomness, IsSized}

abbrev pub zeros : ℕ → Bytes
zeros n = replicate n 0

abbrev pub toy : Crypto
toy = record {
  gcm_encrypt = λ k n p. some (p ++ zeros 16);
  gcm_decrypt = λ k n ct. some (take (length ct - 16) ct);
  hmac = λ k m. zeros 32;
  hmac_accepts = λ k. true;
  hkdf_expand = λ ikm info n. some (zeros n);
  blake2b = λ m. zeros 32;
  x25519_public = λ s. zeros 32;
  x25519_shared = λ s t. zeros 32;
  mlkem_public = λ sk. zeros 1568;
  mlkem_encapsulate = λ pk r. some (zeros 1568, zeros 32);
  mlkem_decapsulate = λ sk ct. some (zeros 32);
}

some-injective : {A : Type 0} {a b : A} → ◌≡◌ {A = Option A} (some a) (some b) → a ≡ b
some-injective h = cc

pub toy-Lawful : Lawful toy
toy-Lawful = record {
  opens = λ k n p ct e.
      let same : p ++ zeros 16 ≡ ct = some-injective e in
      let size : length ct - 16 ≡ length p =
        omega (arith, ap length same, length-append p (zeros 16)) in
      ap some (
        ap (λ x. take x ct) size
        ∙ ap (take (length p)) (sym same)
        ∙ take-append (length p) p (zeros 16) refl);
  tag_length = λ k n p ct e.
      let same : p ++ zeros 16 ≡ ct = some-injective e in
      sym (ap length same) ∙ length-append p (zeros 16);
  hmac_length = λ k m. refl;
  blake2b_length = λ m. refl;
  x25519_length = λ s. refl;
  x25519_agrees = λ s t. refl;
  mlkem_agrees = λ sk r ct ss e. ap (λ o. ap_snd o) e;
  mlkem_length = λ pk r ct ss e. sym (ap (λ o. length (first o)) e);
}
  where
    ap_snd : Option (Bytes × Bytes) → Option Bytes
    ap_snd none = none
    ap_snd (some p) = some p.1

    first : Option (Bytes × Bytes) → Bytes
    first none = []
    first (some p) = p.0

abbrev pub toy_randomness : Randomness
toy_randomness = record {
  eph_secret = zeros 32;
  mlkem = zeros 32;
  content_key = zeros 32;
  wrapping_iv = zeros 12;
  file_iv = zeros 12;
}

pub toy_randomness-IsSized : IsSized toy toy_randomness
toy_randomness-IsSized = record { key_length = refl; iv_length = refl; file_iv_length = refl }
