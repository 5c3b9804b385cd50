-- ===== src/WireFormat/Decryptor.antt =====
-- `V7StreamDecryptor::push` and `finalize` of sdk/sdk-core/src/crypto/wire_format.rs.
use wattcloud.Common.{
  ℕ, zero, suc, ◌+◌, [], ◌++◌, Result, ok, err, ltb, ◌==◌, if◌then◌else◌, length, take, drop,
}
use wattcloud.Common.Bytes.{Bytes, to_le4, read_le4, max_u32, constant_time_eq}
use wattcloud.WireFormat.Crypto.{
  Crypto, CryptoError, invalid_format, chunk_index_overflow, chunk_len_too_small, ended_mid_frame,
  footer_wrong_length, mac_verification_failed, HmacSha256, update, finalize_mac, aes_gcm_decrypt,
  v7_chunk_nonce, v7_footer_len,
}

pub record Decryptor : Type 0 where
  pub file_iv : Bytes
  pub content_key : Bytes
  pub hmac : HmacSha256
  pub chunk_index : ℕ
  pub buf : Bytes

-- What stands at the front of the buffer: no whole frame yet, a length that is refused, or a frame
-- with the bytes behind it.
pub data Front : Type 0 where
  incomplete too_small : Front
  frame : Bytes → Bytes → Front

unfoldable pub parse_front : Bytes → Front
parse_front rest =
    if ltb (length rest) 4
    then incomplete
    else (let chunk_len = read_le4 (take 4 rest) in
        if ltb chunk_len 12
        then too_small
        else if ltb (length rest) (4 + chunk_len)
        then incomplete
        else frame (drop 16 (take (4 + chunk_len) rest)) (drop (4 + chunk_len) rest))

module _ (c : Crypto) where
  abbrev pub fed : Decryptor → Bytes → Decryptor
  fed d ct = record d { hmac = update (update d.hmac (to_le4 d.chunk_index)) ct }

  -- The HMAC is fed, the chunk decrypted, and the index counted up unless it overflows.
  unfoldable pub open_frame : Decryptor → Bytes → Decryptor × Result CryptoError Bytes
  open_frame d ct =
      elim (aes_gcm_decrypt c ct (v7_chunk_nonce d.file_iv d.chunk_index) d.content_key) [
        | err x ↦ (fed d ct, err x)
        | ok chunk ↦
            if d.chunk_index == max_u32
            then (fed d ct, err (invalid_format chunk_index_overflow))
            else (record (fed d ct) { chunk_index = d.chunk_index + 1 }, ok chunk)
      ]

  -- The `loop` of `push`, where `rest` is `buf[pos..]`. The buffer is drained on leaving by `break`,
  -- and left as it is on an error. A round takes 16 bytes at least.
  unfoldable pub push_loop : ℕ → Decryptor → Bytes → Bytes → Decryptor × Result CryptoError Bytes
  push_loop zero d rest plaintext = (record d { buf = rest }, ok plaintext)
  push_loop (suc fuel) d rest plaintext = elim (parse_front rest) [
    | incomplete ↦ (record d { buf = rest }, ok plaintext)
    | too_small ↦ (d, err (invalid_format chunk_len_too_small))
    | frame ct behind ↦ elim (open_frame d ct).1 [
      | err x ↦ ((open_frame d ct).0, err x)
      | ok chunk ↦ push_loop fuel (open_frame d ct).0 behind (plaintext ++ chunk)
    ]
  ]

  -- `push`
  unfoldable pub push : Decryptor → Bytes → Decryptor × Result CryptoError Bytes
  push d bytes =
      let buf = d.buf ++ bytes in push_loop (suc (length buf)) (record d { buf = buf }) buf []

  -- `finalize`
  unfoldable pub finalize : Decryptor → Bytes → Result CryptoError (Unit {0})
  finalize d stored_hmac =
      if ltb 0 (length d.buf)
      then err (invalid_format ended_mid_frame)
      else if length stored_hmac == v7_footer_len
      then (if constant_time_eq (finalize_mac c d.hmac) stored_hmac
          then ok tt
          else err mac_verification_failed)
      else err (invalid_format footer_wrong_length)
