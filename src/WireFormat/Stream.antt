-- ===== src/WireFormat/Stream.antt =====
-- A series of chunks through the encryptor, and a series of pieces through the decryptor.
pub mod Run
pub mod RoundTrip
use wattcloud.Common.{
  ℕ, zero, suc, ◌+◌, ◌-◌, ◌^◌, ◌≤◌, ◌<◌, ◌≡◌, ◌≢◌, refl, sym, ap, ap₂, subst, ◌∙◌, ◌⊎◌, inl, inr,
  Bool-cases, true, false, List, [], ◌∷◌, ◌++◌, Result, ok, err, if◌then◌else◌, ltb, ◌==◌, length,
  take, drop, flatten, flatten-append, All, length-append, take-drop, take-append, drop-append,
  append-cut, length-drop, append_assoc, append-nil, arith, Option-cases, none, some,
}
use wattcloud.Common.Bytes.{Bytes, to_le4, max_u32, constant_time_eq_iff}
use wattcloud.WireFormat.Crypto.{Crypto, Lawful, CryptoError, v7_chunk_nonce}
use wattcloud.WireFormat.Encryptor.{Encryptor, frame_of}
use wattcloud.WireFormat.Encryptor
use wattcloud.WireFormat.Decryptor.{Decryptor, Front, incomplete, too_small, frame, parse_front}
use wattcloud.WireFormat.Decryptor
use wattcloud.WireFormat.Frames.{
  length-v7_chunk_nonce, length-frame_of, parse_front-frame, parse_front-incomplete,
}

-- A chunk whose frame's length fits its 32-bit field.
abbrev pub FitsFrame : Bytes → Type 0
FitsFrame chunk = length chunk + 28 < 2 ^ 32

-- The decryptor that has read what the encryptor wrote, but for the bytes in its buffer.
abbrev pub mirror : Encryptor → Bytes → Decryptor
mirror e buf = record {
  file_iv = e.file_iv;
  content_key = e.content_key;
  hmac = e.hmac;
  chunk_index = e.chunk_index;
  buf = buf;
}

module _ (c : Crypto) where
  -- The frames of a series of chunks; an error ends the series.
  unfoldable pub encrypt_all : Encryptor → List Bytes → Encryptor × Result CryptoError (List Bytes)
  encrypt_all e [] = (e, ok [])
  encrypt_all e (p ∷ ps) = elim (Encryptor.push c e p).1 [
    | err x ↦ ((Encryptor.push c e p).0, err x)
    | ok f ↦ elim (encrypt_all (Encryptor.push c e p).0 ps).1 [
      | err x ↦ ((encrypt_all (Encryptor.push c e p).0 ps).0, err x)
      | ok fs ↦ ((encrypt_all (Encryptor.push c e p).0 ps).0, ok (f ∷ fs))
    ]
  ]

  -- The plaintext of a series of pushes.
  unfoldable pub decrypt_all : Decryptor → List Bytes → Decryptor × Result CryptoError Bytes
  decrypt_all d [] = (d, ok [])
  decrypt_all d (b ∷ bs) = elim (Decryptor.push c d b).1 [
    | err x ↦ ((Decryptor.push c d b).0, err x)
    | ok p ↦ elim (decrypt_all (Decryptor.push c d b).0 bs).1 [
      | err x ↦ ((decrypt_all (Decryptor.push c d b).0 bs).0, err x)
      | ok ps ↦ ((decrypt_all (Decryptor.push c d b).0 bs).0, ok (p ++ ps))
    ]
  ]

  -- A successful `push` of the encryptor, taken apart.
  pub record Pushed (e : Encryptor) (p f : Bytes) : Type 0 where
    pub ct : Bytes
    pub sealed : c.gcm_encrypt e.content_key (v7_chunk_nonce e.file_iv e.chunk_index) p ≡ some ct
    pub counted : e.chunk_index ≢ max_u32
    pub state :
        (Encryptor.push c e p).0 ≡ record (Encryptor.fed c e ct) { chunk_index = e.chunk_index + 1 }
    pub wire : f ≡ frame_of (v7_chunk_nonce e.file_iv e.chunk_index) ct

  pub pushed : (e : Encryptor) (p f : Bytes) → (Encryptor.push c e p).1 ≡ ok f → Pushed e p f
  unfolding Encryptor.push
  pushed e p f h =
      elim (Option-cases (c.gcm_encrypt e.content_key (v7_chunk_nonce e.file_iv e.chunk_index) p)) [
        | inl n ↦ cc (rw (n, Encryptor.push) at h)
        | inr (ct, s) ↦ elim (Bool-cases (e.chunk_index == max_u32)) [
          | inl last ↦ cc (rw (s, last, Encryptor.push) at h)
          | inr more ↦
              let emitted : ◌≡◌ {A = Result CryptoError Bytes}
                  (ok (frame_of (v7_chunk_nonce e.file_iv e.chunk_index) ct)) (ok f) =
                rw (s, more, Encryptor.push) at h in
              record {
                ct = ct;
                sealed = s;
                counted = ground arith;
                state = rw (s, more, Encryptor.push);
                wire = cc;
              }
        ]
      ]

  pub record Split (e : Encryptor) (p : Bytes) (ps : List Bytes) (e'' : Encryptor) (fs : List Bytes)
      : Type 0 where
    pub first : Bytes
    pub others : List Bytes
    pub head : Pushed e p first
    pub tail : encrypt_all (Encryptor.push c e p).0 ps ≡ (e'', ok others)
    pub frames : fs ≡ first ∷ others

  pub encrypt_all-cons :
      (e e'' : Encryptor) (p : Bytes) (ps fs : List Bytes)
      → encrypt_all e (p ∷ ps) ≡ (e'', ok fs)
      → Split e p ps e'' fs
  unfolding encrypt_all
  encrypt_all-cons e e'' p ps fs h = go (Encryptor.push c e p).1 refl
    where
      behind :
          (f : Bytes) (r : Result CryptoError (List Bytes))
          → (Encryptor.push c e p).1 ≡ ok f
          → (encrypt_all (Encryptor.push c e p).0 ps).1 ≡ r
          → Split e p ps e'' fs
      behind f (err x) a b = cc (rw (a, b, encrypt_all) at h)
      behind f (ok rest) a b =
          let whole : ◌≡◌ {A = Encryptor × Result CryptoError (List Bytes)}
              ((encrypt_all (Encryptor.push c e p).0 ps).0, ok (f ∷ rest)) (e'', ok fs) =
            rw (a, b, encrypt_all) at h in
          record {
            first = f;
            others = rest;
            head = pushed e p f a;
            tail = λ i. ((whole i).0, b i);
            frames = cc (ap (λ t. t.1) whole);
          }

      go : (r : Result CryptoError Bytes) → (Encryptor.push c e p).1 ≡ r → Split e p ps e'' fs
      go (err x) a = cc (rw (a, encrypt_all) at h)
      go (ok f) a = behind f (encrypt_all (Encryptor.push c e p).0 ps).1 a refl
