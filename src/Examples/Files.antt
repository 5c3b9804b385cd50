-- ===== src/Examples/Files.antt =====
-- A file of three bytes: encrypted, uploaded, cut up, and read back.
use wattcloud.Common.{◌+◌, ◌≡◌, refl, true, some, List, [], ◌∷◌, ◌++◌, ok, length, flatten, arith}
use wattcloud.Common.Bytes.{Bytes, to_le4}
use wattcloud.WireFormat.Crypto.{v7_chunk_nonce}
use wattcloud.WireFormat.FooterTrimmer
use wattcloud.WireFormat.FooterTrimmer.{finalize-push_all, finalize-push_all_short}
use wattcloud.WireFormat.Kem.{hybrid_encapsulate_v6}
use wattcloud.WireFormat.Header.{new_encryptor, encrypt_file_v7_init}
use wattcloud.WireFormat.Encryptor.{Encryptor}
use wattcloud.WireFormat.Encryptor
use wattcloud.WireFormat.Decryptor
use wattcloud.WireFormat.Stream.{mirror, encrypt_all, decrypt_all}
use wattcloud.WireFormat.Stream.RoundTrip.{decrypt_all-encrypt_all}
use wattcloud.WireFormat.WholeFile.{
  compute_v7_hmac, encrypt_chunks, encrypt_file_v7, encrypt_file_v7-encrypt_all,
}
use wattcloud.WireFormat.WholeFile.Decrypt.{decrypt_file_v7}
use wattcloud.WireFormat.WholeFile.RoundTrip.{decrypt_file_v7-encrypt_file_v7}
use wattcloud.WireFormat.Share.{
  ShareDecryptor, encrypt_manifest_loop, encrypt_manifest_v7, new_share_decryptor,
}
use wattcloud.WireFormat.Share.RoundTrip.{decrypt_all-encrypt_manifest_v7}
use wattcloud.Streaming.Flow.{call_all}
use wattcloud.Streaming.UploadFlow.{upload, v7_cipher_size}
use wattcloud.Streaming.UploadFlow
use wattcloud.Streaming.DownloadFlow.{download}
use wattcloud.Streaming.EndToEnd.RoundTrip.{download-upload}
use wattcloud.Streaming.ChunkWriter.{ChunkWriter, write}
use wattcloud.Streaming.ChunkWriter.Feed.{feed}
use wattcloud.Streaming.ChunkWriter.Refine.{IsValid, Implements, write-feed}
use wattcloud.Streaming.ChunkWriter.Output.{
  accept, Finished, write_and_finish, write_and_finish_lem,
}
use wattcloud.Vault.Body.{encrypt_body, decrypt_body, decrypt_body-encrypt_body}
use wattcloud.Examples.Ciphers.{zeros, toy, toy-Lawful, toy_randomness, toy_randomness-IsSized}

finalize-push_all_example :
    (footer : Bytes) × (FooterTrimmer.finalize
        (FooterTrimmer.push_all (FooterTrimmer.new 2) ((1 ∷ []) ∷ (2 ∷ 3 ∷ []) ∷ [])).0
      ≡ ok ([], footer))
    × (flatten (FooterTrimmer.push_all (FooterTrimmer.new 2) ((1 ∷ []) ∷ (2 ∷ 3 ∷ []) ∷ [])).1
          ++ footer
        ≡ 1 ∷ 2 ∷ 3 ∷ [])
    × (length footer ≡ 2)
finalize-push_all_example = finalize-push_all 2 ((1 ∷ []) ∷ (2 ∷ 3 ∷ []) ∷ []) (omega arith)

abbrev secret : Bytes
secret = zeros 3168

abbrev start : Encryptor
start = record {
  file_iv = zeros 12;
  content_key = zeros 32;
  hmac = record { key = zeros 32; fed = [] };
  chunk_index = 0;
}

-- Version 7, the fields of zeros, and the length of the wrapped key.
abbrev head : Bytes
head =
    flatten (
      (7 ∷ [])
      ∷ zeros 12
      ∷ zeros 32
      ∷ zeros 1568
      ∷ (60 ∷ 0 ∷ 0 ∷ 0 ∷ [])
      ∷ zeros 60
      ∷ zeros 32
      ∷ [])

began : new_encryptor toy (zeros 1568) (zeros 32) toy_randomness ≡ ok (start, head)
unfolding new_encryptor encrypt_file_v7_init hybrid_encapsulate_v6 to_le4
began = refl

abbrev text : Bytes
text = 1 ∷ 2 ∷ 3 ∷ []

abbrev frames : List Bytes
frames = (((31 ∷ 0 ∷ 0 ∷ 0 ∷ []) ++ (zeros 12 ++ (text ++ zeros 16))) ∷ [])

abbrev end : Encryptor
end = record start {
  hmac = record { key = zeros 32; fed = (0 ∷ 0 ∷ 0 ∷ 0 ∷ []) ++ (text ++ zeros 16) };
  chunk_index = 1;
}

sealed : encrypt_all toy start (text ∷ []) ≡ (end, ok frames)
unfolding encrypt_all Encryptor.push v7_chunk_nonce to_le4
sealed = refl

decrypt_all-encrypt_all_example :
    (decrypt_all toy (mirror start []) (flatten frames ∷ []) ≡ (mirror end [], ok text))
    × (Decryptor.finalize toy (mirror end []) (Encryptor.finalize toy end) ≡ ok tt)
decrypt_all-encrypt_all_example =
    decrypt_all-encrypt_all toy toy-Lawful start end (text ∷ []) frames (flatten frames ∷ []) refl
      (omega arith, tt) sealed refl

abbrev whole : Bytes
whole = head ++ (flatten frames ++ zeros 32)

written : encrypt_file_v7 toy (zeros 1568) (zeros 32) toy_randomness (text ∷ []) ≡ ok whole
unfolding encrypt_file_v7 encrypt_chunks compute_v7_hmac encrypt_file_v7_init hybrid_encapsulate_v6
    v7_chunk_nonce to_le4
written = refl

encrypt_file_v7-encrypt_all_example :
    encrypt_file_v7 toy (zeros 1568) (zeros 32) toy_randomness (text ∷ [])
    ≡ ok ((head ++ flatten frames) ++ zeros 32)
encrypt_file_v7-encrypt_all_example =
    encrypt_file_v7-encrypt_all toy (zeros 1568) (zeros 32) toy_randomness (text ∷ []) frames start
      end head began sealed

decrypt_file_v7-encrypt_file_v7_example :
    decrypt_file_v7 toy whole secret (zeros 32) ≡ some (ok text)
decrypt_file_v7-encrypt_file_v7_example =
    decrypt_file_v7-encrypt_file_v7 toy toy-Lawful secret (zeros 32) refl toy_randomness (text ∷ [])
      whole toy_randomness-IsSized (omega arith, tt) written

shared :
    encrypt_manifest_v7 toy text (zeros 32) (zeros 12) ≡ ok (head ++ (flatten frames ++ zeros 32))
unfolding encrypt_manifest_v7 encrypt_manifest_loop Encryptor.push v7_chunk_nonce to_le4
shared = refl

decrypt_all-encrypt_manifest_v7_example :
    (d : ShareDecryptor) × (d' : ShareDecryptor) × (new_share_decryptor toy head (zeros 32)
      ≡ ok (d, 1709))
    × (decrypt_all toy d frames ≡ (d', ok text))
    × (Decryptor.finalize toy d' (zeros 32) ≡ ok tt)
decrypt_all-encrypt_manifest_v7_example =
    decrypt_all-encrypt_manifest_v7 toy toy-Lawful (zeros 32) (zeros 12) refl refl text head
      (zeros 32) frames shared refl refl

uploaded :
    upload toy (zeros 1568) (zeros 32) 3 toy_randomness ((text, true) ∷ [])
    ≡ ok (head, frames, zeros 32, 1776)
unfolding upload UploadFlow.new UploadFlow.push_chunk UploadFlow.finalize call_all v7_cipher_size
    new_encryptor encrypt_file_v7_init hybrid_encapsulate_v6 Encryptor.push v7_chunk_nonce to_le4
uploaded = refl

download-upload_example :
    download toy secret (zeros 32) (head ∷ flatten frames ∷ zeros 32 ∷ []) ≡ ok text
download-upload_example =
    download-upload toy toy-Lawful secret (zeros 32) 3 toy_randomness ((text, true) ∷ []) head
      frames (zeros 32) 1776 (head ∷ flatten frames ∷ zeros 32 ∷ []) refl toy_randomness-IsSized
      (omega arith, tt) uploaded refl

-- A writer with chunks of two bytes.
abbrev writer : ChunkWriter
writer = record { buf = zeros 2; used = 0; bytes_flushed = 0; chunk_index = 0; flush_at = 2 }

writer-IsValid : IsValid writer
writer-IsValid = record { size = refl; room = omega arith; clean = refl }

write-feed_example :
    Implements accept 2
      (write accept writer [] text)
      (feed accept 2 (record { bytes = []; index = 0 }) [] text)
write-feed_example = write-feed accept writer [] text writer-IsValid

write_and_finish_example : Finished 2 text (write_and_finish writer (text ∷ []))
write_and_finish_example = write_and_finish_lem writer (text ∷ []) writer-IsValid refl

body_sealed : encrypt_body toy text (zeros 32) (zeros 12) ≡ ok (zeros 12 ++ (text ++ zeros 16))
unfolding encrypt_body
body_sealed = refl

decrypt_body-encrypt_body_example :
    (decrypt_body toy (zeros 12 ++ (text ++ zeros 16)) (zeros 32) ≡ ok text)
    × (length (zeros 12 ++ (text ++ zeros 16)) ≡ length text + 28)
decrypt_body-encrypt_body_example =
    decrypt_body-encrypt_body toy toy-Lawful text (zeros 32) (zeros 12)
      (zeros 12 ++ (text ++ zeros 16)) refl body_sealed
