-- ===== src/WireFormat/WholeFile/Decrypt.antt =====
-- `decrypt_file_v7` of sdk/sdk-core/src/crypto/wire_format.rs: a file decrypted in one call.
use wattcloud.Common.{
  ℕ, zero, suc, ◌+◌, ◌-◌, ◌%◌, ◌^◌, ◌<◌, ◌≡◌, sym, ap, ◌∙◌, not, true, false, Option, none, some,
  [], ◌++◌, Result, ok, err, ◌>>=◌, ◌>>◌, reject_if, ◌==◌, ltb, if◌then◌else◌, length, take, drop,
  slice, length-append, take-append, drop-append, append_assoc, arith,
}
use wattcloud.Common.Bytes.{Bytes, to_le4, read_le4, length-to_le4, constant_time_eq}
use wattcloud.WireFormat.Crypto.{
  Crypto, CryptoError, invalid_format, truncated_chunk_len, truncated_chunk, trailing_bytes,
  mac_verification_failed, aes_gcm_decrypt, v7_footer_len,
}
use wattcloud.WireFormat.Encryptor.{frame_of}
use wattcloud.WireFormat.Frames.{length-frame_of, head_word, word}
use wattcloud.WireFormat.Header.{decrypt_file_v7_init}
use wattcloud.WireFormat.WholeFile.{compute_v7_hmac}

-- What a round of the loop finds at `encrypted[pos..]`: an error, a slice whose start is behind its
-- end (a panic), or the nonce and the ciphertext of a chunk and the bytes behind it.
pub data Chunk : Type 0 where
  refused : CryptoError → Chunk
  panics : Chunk
  chunk : Bytes → Bytes → Bytes → Chunk

-- More than 32 bytes are left, so the 12 of the nonce are always there.
unfoldable pub parse_chunk : Bytes → Chunk
parse_chunk rest =
    if ltb (length rest) 4
    then refused (invalid_format truncated_chunk_len)
    else (let chunk_len = read_le4 (take 4 rest) in
        let body = drop 4 rest in
        if ltb (length body) chunk_len
        then refused (invalid_format truncated_chunk)
        else if ltb chunk_len 12
        then panics
        else chunk (take 12 body) (slice 12 chunk_len body) (drop chunk_len body))

module _ (c : Crypto) where
  -- The `while`: the plaintext, the HMAC's input and what is left, `none` where it panics. A round
  -- takes 16 bytes at least. `chunk_index += 1` wraps, as in a release build.
  unfoldable pub decrypt_chunks :
      ℕ → Bytes → ℕ → Bytes → Bytes → Bytes → Option (Result CryptoError (Bytes × Bytes × Bytes))
  decrypt_chunks zero content_key chunk_index rest plaintext hmac_input =
      some (ok (plaintext, hmac_input, rest))
  decrypt_chunks (suc fuel) content_key chunk_index rest plaintext hmac_input =
      elim (ltb v7_footer_len (length rest)) [
        | false ↦ some (ok (plaintext, hmac_input, rest))
        | true ↦ elim (parse_chunk rest) [
          | refused x ↦ some (err x)
          | panics ↦ none
          | chunk nonce ct behind ↦ elim (aes_gcm_decrypt c ct nonce content_key) [
            | err x ↦ some (err x)
            | ok chunk_pt ↦
                decrypt_chunks fuel content_key ((chunk_index + 1) % 2 ^ 32) behind
                  (plaintext ++ chunk_pt) ((hmac_input ++ to_le4 chunk_index) ++ ct)
          ]
        ]
      ]

  -- What follows the loop.
  unfoldable pub verify_footer :
      Bytes → Result CryptoError (Bytes × Bytes × Bytes) → Result CryptoError Bytes
  verify_footer content_key chunks = do
    (plaintext, hmac_input, stored_hmac) ← chunks
    reject_if (not (length stored_hmac == v7_footer_len)) (invalid_format trailing_bytes)
    computed_hmac ← compute_v7_hmac c content_key hmac_input
    reject_if (not (constant_time_eq computed_hmac stored_hmac)) mac_verification_failed
    ok plaintext

  -- `decrypt_file_v7`, `none` where it panics.
  unfoldable pub decrypt_file_v7 : Bytes → Bytes → Bytes → Option (Result CryptoError Bytes)
  decrypt_file_v7 encrypted mlkem_sec x25519_sec =
      elim (decrypt_file_v7_init c encrypted mlkem_sec x25519_sec) [
        | err x ↦ some (err x)
        | ok init ↦
            elim (decrypt_chunks (length encrypted) init.content_key 0
              (drop init.header_end encrypted) [] []) [
                | none ↦ none
                | some chunks ↦ some (verify_footer init.content_key chunks)
              ]
      ]

-- A frame at the front of what is left is found, with the bytes behind it.
pub parse_chunk-frame_of :
    (nonce ct more : Bytes)
    → length nonce ≡ 12
    → 12 + length ct < 2 ^ 32
    → parse_chunk (frame_of nonce ct ++ more) ≡ chunk nonce ct more
unfolding parse_chunk
parse_chunk-frame_of nonce ct more twelve small =
    let w = to_le4 ((12 + length ct) % 2 ^ 32) in
    let whole : length (frame_of nonce ct ++ more) ≡ 16 + length ct + length more =
      omega (arith, length-frame_of nonce ct twelve, length-append (frame_of nonce ct) more) in
    let four : ltb (length (frame_of nonce ct ++ more)) 4 ≡ false = ground (arith, whole) in
    let body : drop 4 (frame_of nonce ct ++ more) ≡ (nonce ++ ct) ++ more =
      ap (drop 4) (append_assoc w (nonce ++ ct) more)
      ∙ drop-append 4 w ((nonce ++ ct) ++ more) (sym (length-to_le4 _)) in
    let size : length ((nonce ++ ct) ++ more) ≡ 12 + length ct + length more =
      omega (arith, twelve, length-append (nonce ++ ct) more, length-append nonce ct) in
    let enough : ltb (length ((nonce ++ ct) ++ more)) (12 + length ct) ≡ false =
      ground (arith, size) in
    let long : ltb (12 + length ct) 12 ≡ false = ground arith in
    let nonce_of : take 12 ((nonce ++ ct) ++ more) ≡ nonce =
      ap (take 12) (append_assoc nonce ct more) ∙ take-append 12 nonce (ct ++ more) (sym twelve) in
    let ct_of : slice 12 (12 + length ct) ((nonce ++ ct) ++ more) ≡ ct =
      ap (slice 12 (12 + length ct)) (append_assoc nonce ct more)
      ∙ ap (take (12 + length ct - 12)) (drop-append 12 nonce (ct ++ more) (sym twelve))
      ∙ take-append (12 + length ct - 12) ct more (omega arith) in
    let behind : drop (12 + length ct) ((nonce ++ ct) ++ more) ≡ more =
      drop-append (12 + length ct) (nonce ++ ct) more
        (omega (arith, twelve, length-append nonce ct)) in
    rw (
      four,
      head_word nonce ct twelve small more,
      word nonce ct twelve small,
      body,
      enough,
      long,
      nonce_of,
      ct_of,
      behind,
      parse_chunk,
    )
