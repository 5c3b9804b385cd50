-- ===== src/Streaming/DownloadFlow.antt =====
-- sdk/sdk-core/src/byo/streaming/download_flow.rs
use wattcloud.Common.{
  List, [], ◌++◌, Result, ok, err, ◌>>=◌, map_err, ltb, if◌then◌else◌, length, take, drop, flatten,
}
use wattcloud.Common.Bytes.{Bytes}
use wattcloud.WireFormat.Crypto.{
  Crypto, invalid_format, push_after_finalize, header_never_complete, finalized_twice,
  v7_header_min, v7_footer_len,
}
use wattcloud.WireFormat.FooterTrimmer.{FooterTrimmer}
use wattcloud.WireFormat.FooterTrimmer
use wattcloud.WireFormat.Header.{new_decryptor}
use wattcloud.WireFormat.Decryptor.{Decryptor}
use wattcloud.WireFormat.Decryptor
use wattcloud.Streaming.Flow.{SdkError, crypto, call_all}

-- `DownloadState`: the buffer and the two secret keys, or the trimmer and the decryptor.
pub data DownloadState : Type 0 where
  header : Bytes → Bytes → Bytes → DownloadState
  body : FooterTrimmer → Decryptor → DownloadState
  done : DownloadState

-- `ByoDownloadFlow::new`
abbrev pub new : Bytes → Bytes → DownloadState
new mlkem_sec x25519_sec = header [] mlkem_sec x25519_sec

module _ (c : Crypto) where
  -- Stage 2: ciphertext through the trimmer into the decryptor.
  unfoldable pub push_body :
      FooterTrimmer → Decryptor → Bytes → DownloadState × Result SdkError Bytes
  push_body trimmer decryptor bytes =
      let (trimmer', released) = FooterTrimmer.push trimmer bytes in
      (
        body trimmer' (Decryptor.push c decryptor released).0,
        map_err crypto (Decryptor.push c decryptor released).1,
      )

  -- Stage 1 to 2, once the header is whole. The flow is `done` if anything fails.
  unfoldable pub complete_header : Bytes → Bytes → Bytes → DownloadState × Result SdkError Bytes
  complete_header buf mlkem_sec x25519_sec =
      elim (new_decryptor c (take v7_header_min buf) mlkem_sec x25519_sec) [
        | err x ↦ (done, err (crypto x))
        | ok (decryptor, _) ↦
            let (trimmer, released) =
              FooterTrimmer.push (FooterTrimmer.new v7_footer_len) (drop v7_header_min buf) in
            elim (Decryptor.push c decryptor released).1 [
              | err x ↦ (done, err (crypto x))
              | ok plaintext ↦ (body trimmer (Decryptor.push c decryptor released).0, ok plaintext)
            ]
      ]

  -- `push`
  unfoldable pub push : DownloadState → Bytes → DownloadState × Result SdkError Bytes
  push (header buf mlkem_sec x25519_sec) bytes =
      if ltb (length (buf ++ bytes)) v7_header_min
      then (header (buf ++ bytes) mlkem_sec x25519_sec, ok [])
      else complete_header (buf ++ bytes) mlkem_sec x25519_sec
  push (body trimmer decryptor) bytes = push_body trimmer decryptor bytes
  push done bytes = (done, err (crypto (invalid_format push_after_finalize)))

  -- Body bytes that the trimmer still held go to the decryptor before the footer is checked.
  abbrev pub check_footer : Decryptor → Bytes → Bytes → Result SdkError (Unit {0})
  check_footer decryptor remaining footer =
      if ltb 0 (length remaining)
      then elim (Decryptor.push c decryptor remaining).1 [
        | err x ↦ err (crypto x)
        | ok _ ↦
            map_err crypto (Decryptor.finalize c (Decryptor.push c decryptor remaining).0 footer)
      ]
      else map_err crypto (Decryptor.finalize c decryptor footer)

  -- `finalize`
  unfoldable pub finalize : DownloadState → Result SdkError (Unit {0})
  finalize (header _ _ _) = err (crypto (invalid_format header_never_complete))
  finalize (body trimmer decryptor) = do
    (remaining, footer) ← map_err crypto (FooterTrimmer.finalize trimmer)
    check_footer decryptor remaining footer
  finalize done = err (crypto (invalid_format finalized_twice))

  -- A download, as a caller makes it: the plaintext of all pieces, once the footer has verified.
  unfoldable pub download : Bytes → Bytes → List Bytes → Result SdkError Bytes
  download mlkem_sec x25519_sec pieces = do
    plaintexts ← (call_all push (new mlkem_sec x25519_sec) pieces).1
    _ ← finalize (call_all push (new mlkem_sec x25519_sec) pieces).0
    ok (flatten plaintexts)
