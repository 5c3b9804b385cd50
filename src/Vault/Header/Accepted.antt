-- ===== src/Vault/Header/Accepted.antt =====
-- What `VaultHeader::parse` of byo/vault_format.rs accepts, of either format.
use wattcloud.Common.{
  ℕ, zero, suc, ◌+◌, ◌*◌, ◌%◌, ◌≤◌, ◌≡◌, ◌⊎◌, inl, inr, refl, sym, ap, Bool-cases, not, List,
  Result, ok, err, reject_if_passed, >>=-eq-ok, ok-injective, ltb, ◌==◌, not_unequal, le_of_ltb,
  All, All-slice, length, length-slice, slice, arith,
}
use wattcloud.Common.Bytes.{Bytes, IsByte, IsU32, byte_at, bytes_eq, read_le2, read_le4-IsU32}
use wattcloud.Vault.Slots.{
  VaultError, DeviceSlot, IsSized, slot_from_bytes, slot_from_bytes_v1, slot_from_bytes-IsSized,
  slot_from_bytes_v1-IsSized,
}
use wattcloud.Vault.Header.{
  VaultHeader, count_active, parse, parse_v1, parse_v2, read_slots, to_bytes, with_fields,
  vault_magic,
}
use wattcloud.Vault.Header.Layout.{IsWellFormed}
use wattcloud.Vault.Header.RoundTrip.{as_v2, parse-to_bytes}

module _ (from : Bytes → Result VaultError DeviceSlot) (size : ℕ) (raw : Bytes)
    (good : (bs : Bytes) (s : DeviceSlot) → from bs ≡ ok s → IsSized s) where
  read_slots-IsSized :
      (n i : ℕ) (slots : List DeviceSlot)
      → read_slots from size raw n i ≡ ok slots
      → (length slots ≡ n) × All IsSized slots
  unfolding read_slots
  read_slots-IsSized zero i slots h = rw (sym (ok-injective h)) (refl, tt)
  read_slots-IsSized (suc n) i slots h =
      let (s, a, h1) = >>=-eq-ok (from (slice (191 + i * size) (191 + i * size + size) raw)) _ h in
      let (rest, b, h2) = >>=-eq-ok (read_slots from size raw n (i + 1)) _ h1 in
      let (long, sized) = read_slots-IsSized n (i + 1) rest b in
      rw (sym (ok-injective h2)) (ap suc long, (good _ s a, sized))

-- The fields of a header that was read from enough bytes.
with_fields-IsWellFormed :
    (raw : Bytes) (slots : List DeviceSlot) (epoch : ℕ) (mac : Bytes)
    → All IsByte raw
    → 190 ≤ length raw
    → (length slots ≡ 8) × All IsSized slots
    → IsU32 epoch
    → length mac ≡ 32
    → IsWellFormed (with_fields raw slots epoch mac)
with_fields-IsWellFormed raw slots epoch mac bytes long s e m = record {
  argon2_memory_kb = read_le4-IsU32 _ (All-slice IsByte 10 14 raw bytes);
  argon2_iterations = read_le4-IsU32 _ (All-slice IsByte 14 18 raw bytes);
  argon2_parallelism = read_le4-IsU32 _ (All-slice IsByte 18 22 raw bytes);
  master_salt = length-slice 22 54 raw (omega (arith, long));
  vault_id = length-slice 54 70 raw (omega (arith, long));
  pass_wrap_iv = length-slice 70 82 raw (omega (arith, long));
  pass_wrapped_vault_key = length-slice 82 130 raw (omega (arith, long));
  recovery_wrap_iv = length-slice 130 142 raw (omega (arith, long));
  recovery_wrapped_vault_key = length-slice 142 190 raw (omega (arith, long));
  eight_slots = s.0;
  sized_slots = s.1;
  revocation_epoch = e;
  header_hmac = m;
}

module _ (raw : Bytes) (bytes : All IsByte raw) (h : VaultHeader) where
  parse_v2_accepted :
      parse_v2 raw ≡ ok h → IsWellFormed h × (byte_at 190 raw ≡ count_active h.device_slots % 256)
  unfolding parse_v2
  parse_v2_accepted e =
      let (a, e1) = reject_if_passed (ltb (length raw) 1227) _ e in
      let long = le_of_ltb (length raw) 1227 a in
      let (slots, b, e2) = >>=-eq-ok (read_slots slot_from_bytes 125 raw 8 0) _ e1 in
      let (c, e3) = reject_if_passed (not (byte_at 190 raw == count_active slots % 256)) _ e2 in
      rw (sym (ok-injective e3)) (
        with_fields-IsWellFormed raw slots _ _ bytes (omega (arith, long))
            (read_slots-IsSized slot_from_bytes 125 raw slot_from_bytes-IsSized 8 0 slots b)
            (read_le4-IsU32 _ (All-slice IsByte 1191 1195 raw bytes))
            (length-slice 1195 1227 raw long),
        not_unequal _ _ c,
      )

  parse_v1_accepted : parse_v1 raw ≡ ok h → IsWellFormed h
  unfolding parse_v1
  parse_v1_accepted e =
      let (a, e1) = reject_if_passed (ltb (length raw) 839) _ e in
      let long = le_of_ltb (length raw) 839 a in
      let (slots, b, e2) = >>=-eq-ok (read_slots slot_from_bytes_v1 77 raw 8 0) _ e1 in
      rw (sym (ok-injective e2)) (
        with_fields-IsWellFormed raw slots _ _ bytes (omega (arith, long))
          (read_slots-IsSized slot_from_bytes_v1 77 raw slot_from_bytes_v1-IsSized 8 0 slots b)
          (omega arith) (length-slice 807 839 raw long))

  parse_accepted : parse raw ≡ ok h → (parse_v2 raw ≡ ok h) ⊎ (parse_v1 raw ≡ ok h)
  unfolding parse
  parse_accepted e =
      let version = read_le2 (slice 8 10 raw) in
      let (_, e1) = reject_if_passed (ltb (length raw) 10) _ e in
      let (_, e2) = reject_if_passed (not (bytes_eq (slice 0 8 raw) vault_magic)) _ e1 in
      elim (Bool-cases (version == 2)) [
        | inl t ↦ inl (rw t at e2)
        | inr f ↦ elim (Bool-cases (version == 1)) [
          | inl t ↦ inr (rw (f, t) at e2)
          | inr g ↦ absurd (unsupported (rw (f, g) at e2))
        ]
      ]
    where
      unsupported : {x : VaultError} → ◌≡◌ {A = Result VaultError VaultHeader} (err x) (ok h) → ⊥
      unsupported e = cc

  -- Whatever bytes `parse` accepts as a header, of format 2 or of format 1, its fields have their
  -- widths, and the header written from it is accepted again as the same header, in format 2.
  pub parse-to_bytes-parse : parse raw ≡ ok h → IsWellFormed h × (parse (to_bytes h) ≡ ok (as_v2 h))
  parse-to_bytes-parse e = elim (parse_accepted e) [
    | inl v2 ↦ let w = (parse_v2_accepted v2).0 in (w, (parse-to_bytes h w).0)
    | inr v1 ↦ let w = parse_v1_accepted v1 in (w, (parse-to_bytes h w).0)
  ]
