-- ===== src/Vault/Header/RoundTrip.antt =====
-- The vault header of byo/vault_format.rs: that `VaultHeader::parse` undoes `VaultHeader::to_bytes`,
-- and what the HMAC of a header covers.
use wattcloud.Common.{
  ℕ, ◌≡◌, refl, sym, ap, ap₂, ◌%◌, ◌∙◌, ok, ok-injective, ◌++◌, length, take, drop, slice,
  take-drop, take-all, length-drop, ==_iff, arith,
}
use wattcloud.Common.Bytes.{
  Bytes, IsU32, bytes_eq_refl, to_le2, read_le2, to_le4, read_le4, read_le4-to_le4,
}
use wattcloud.Vault.Header.{
  VaultHeader, vault_magic, count_active, to_bytes, header_bytes_for_hmac, parse, parse_v2,
}
use wattcloud.Vault.Header.Layout.{
  IsWellFormed, in_front_of_hmac, length-to_bytes, field_magic, field_version, field_memory,
  field_iterations, field_parallelism, field_salt, field_id, field_pass_iv, field_pass_key,
  field_recovery_iv, field_recovery_key, field_count, field_slots, field_epoch, field_hmac,
}

-- What is written is of format 2.
abbrev pub as_v2 : VaultHeader → VaultHeader
as_v2 h = record h { format_version = 2 }

word : (raw : Bytes) (a b n : ℕ) → IsU32 n → slice a b raw ≡ to_le4 n → read_le4 (slice a b raw) ≡ n
word raw a b n u e = ap read_le4 e ∙ read_le4-to_le4 n u

module _ (h : VaultHeader) (w : IsWellFormed h) where
  parse_v2-to_bytes : parse_v2 (to_bytes h) ≡ ok (as_v2 h)
  unfolding parse_v2 to_le2 read_le2
  parse_v2-to_bytes = rw (
    length-to_bytes h w,
    field_version h w,
    word (to_bytes h) 10 14 _ w.argon2_memory_kb (field_memory h w),
    word (to_bytes h) 14 18 _ w.argon2_iterations (field_iterations h w),
    word (to_bytes h) 18 22 _ w.argon2_parallelism (field_parallelism h w),
    field_salt h w,
    field_id h w,
    field_pass_iv h w,
    field_pass_key h w,
    field_recovery_iv h w,
    field_recovery_key h w,
    field_slots h w,
    field_count h w,
    word (to_bytes h) 1191 1195 _ w.revocation_epoch (field_epoch h w),
    field_hmac h w,
    (==_iff (count_active h.device_slots % 256) (count_active h.device_slots % 256)).1 refl,
  )

  -- A header whose fields have their widths is written in 1227 bytes, and is parsed back from them
  -- with all its fields; its format is 2 from then on.
  pub parse-to_bytes : (parse (to_bytes h) ≡ ok (as_v2 h)) × (length (to_bytes h) ≡ 1227)
  unfolding parse to_le2 read_le2
  parse-to_bytes = (
    rw (
      length-to_bytes h w,
      field_magic h w,
      field_version h w,
      bytes_eq_refl vault_magic,
      parse_v2-to_bytes,
    ),
    length-to_bytes h w,
  )

last : (h : VaultHeader) → IsWellFormed h → drop 1195 (to_bytes h) ≡ h.header_hmac
last h w =
    sym (
      take-all 32 (drop 1195 (to_bytes h))
        (omega (arith, length-drop 1195 (to_bytes h), length-to_bytes h w)))
    ∙ field_hmac h w

-- The bytes that the HMAC of a header covers fix all of it but the HMAC and the number of the
-- format: two headers with the same such bytes differ in nothing else.
pub header_bytes_for_hmac-injective :
    (h k : VaultHeader)
    → IsWellFormed h
    → IsWellFormed k
    → header_bytes_for_hmac h ≡ header_bytes_for_hmac k
    → as_v2 (record h { header_hmac = k.header_hmac }) ≡ as_v2 k
unfolding header_bytes_for_hmac
header_bytes_for_hmac-injective h k w v same =
    let moved = record h { header_hmac = k.header_hmac } in
    let u : IsWellFormed moved = record {
      argon2_memory_kb = w.argon2_memory_kb;
      argon2_iterations = w.argon2_iterations;
      argon2_parallelism = w.argon2_parallelism;
      master_salt = w.master_salt;
      vault_id = w.vault_id;
      pass_wrap_iv = w.pass_wrap_iv;
      pass_wrapped_vault_key = w.pass_wrapped_vault_key;
      recovery_wrap_iv = w.recovery_wrap_iv;
      recovery_wrapped_vault_key = w.recovery_wrapped_vault_key;
      eight_slots = w.eight_slots;
      sized_slots = w.sized_slots;
      revocation_epoch = w.revocation_epoch;
      header_hmac = v.header_hmac;
    } in
    let front : take 1195 (to_bytes moved) ≡ take 1195 (to_bytes k) =
      in_front_of_hmac moved u ∙ sym (in_front_of_hmac h w) ∙ same in
    let behind : drop 1195 (to_bytes moved) ≡ drop 1195 (to_bytes k) =
      last moved u ∙ sym (last k v) in
    let whole : to_bytes moved ≡ to_bytes k =
      sym (take-drop 1195 (to_bytes moved))
      ∙ ap₂ (◌++◌) front behind
      ∙ take-drop 1195 (to_bytes k) in
    ok-injective (sym (parse-to_bytes moved u).0 ∙ ap parse whole ∙ (parse-to_bytes k v).0)
