-- ===== src/Vault/Header.antt =====
-- The vault header of sdk/sdk-core/src/byo/vault_format.rs: its formats 2 and 1.
pub mod Layout
pub mod RoundTrip
pub mod Accepted
pub mod Lookup
use wattcloud.Common.{
  ℕ, zero, suc, ◌+◌, ◌&&◌, ◌*◌, ◌%◌, ◌≡◌, refl, sym, ap, ◌∙◌, not, Bool, Option, none, some, List,
  [], ◌∷◌, ◌++◌, Result, ok, err, ◌>>=◌, ◌>>◌, reject_if, ltb, ◌==◌, if◌then◌else◌, map, All,
  length, position_of, take, slice, filter, flatten, arith,
}
use wattcloud.Common.Bytes.{
  Bytes, IsU32, codes, byte_at, bytes_eq, to_le2, read_le2, to_le4, read_le4,
}
use wattcloud.Vault.Slots.{
  VaultError, invalid_header, unsupported_version, too_short, wrong_magic, wrong_active_count,
  SlotStatus, empty, DeviceSlot, IsSized, is_active, slot_to_bytes, slot_from_bytes,
  slot_from_bytes_v1, vault_device_slot_size, vault_device_slot_size_v1,
}

abbrev pub vault_magic : Bytes
vault_magic = 83 ∷ 67 ∷ 86 ∷ 65 ∷ 85 ∷ 76 ∷ 84 ∷ 0 ∷ []

abbrev pub vault_format_version : ℕ
vault_format_version = 2

abbrev pub vault_format_version_v1 : ℕ
vault_format_version_v1 = 1

abbrev pub vault_header_size : ℕ
vault_header_size = 1227

abbrev pub vault_header_size_v1 : ℕ
vault_header_size_v1 = 839

abbrev pub vault_max_devices : ℕ
vault_max_devices = 8

abbrev pub vault_hmac_offset : ℕ
vault_hmac_offset = 1195

abbrev pub vault_hmac_offset_v1 : ℕ
vault_hmac_offset_v1 = 807

abbrev pub vault_revocation_epoch_offset : ℕ
vault_revocation_epoch_offset = 1191

pub record VaultHeader : Type 0 where
  pub format_version : ℕ
  pub argon2_memory_kb : ℕ
  pub argon2_iterations : ℕ
  pub argon2_parallelism : ℕ
  pub master_salt : Bytes
  pub vault_id : Bytes
  pub pass_wrap_iv : Bytes
  pub pass_wrapped_vault_key : Bytes
  pub recovery_wrap_iv : Bytes
  pub recovery_wrapped_vault_key : Bytes
  pub device_slots : List DeviceSlot
  pub revocation_epoch : ℕ
  pub header_hmac : Bytes

-- `filter(|s| s.status == SlotStatus::Active).count()`
abbrev pub count_active : List DeviceSlot → ℕ
count_active slots = length (filter is_active slots)

-- The loop over the slots, from slot `i`: `n` slots are left, of `size` bytes each.
unfoldable pub read_slots :
    (Bytes → Result VaultError DeviceSlot) → ℕ → Bytes → ℕ → ℕ → Result VaultError (List DeviceSlot)
read_slots from size raw zero i = ok []
read_slots from size raw (suc n) i = do
  slot ← from (slice (191 + i * size) (191 + i * size + size) raw)
  rest ← read_slots from size raw n (i + 1)
  ok (slot ∷ rest)

-- The fields that both formats have at the same offsets, with those that they do not.
abbrev pub with_fields : Bytes → List DeviceSlot → ℕ → Bytes → VaultHeader
with_fields raw device_slots revocation_epoch header_hmac = record {
  format_version = read_le2 (slice 8 10 raw);
  argon2_memory_kb = read_le4 (slice 10 14 raw);
  argon2_iterations = read_le4 (slice 14 18 raw);
  argon2_parallelism = read_le4 (slice 18 22 raw);
  master_salt = slice 22 54 raw;
  vault_id = slice 54 70 raw;
  pass_wrap_iv = slice 70 82 raw;
  pass_wrapped_vault_key = slice 82 130 raw;
  recovery_wrap_iv = slice 130 142 raw;
  recovery_wrapped_vault_key = slice 142 190 raw;
  device_slots = device_slots;
  revocation_epoch = revocation_epoch;
  header_hmac = header_hmac;
}

-- `VaultHeader::parse_v2`
unfoldable pub parse_v2 : Bytes → Result VaultError VaultHeader
parse_v2 raw = do
  reject_if (ltb (length raw) vault_header_size) (invalid_header too_short)
  slots ← read_slots slot_from_bytes vault_device_slot_size raw vault_max_devices 0
  reject_if (not (byte_at 190 raw == count_active slots % 256)) (invalid_header wrong_active_count)
  ok (
      with_fields raw slots
        (read_le4 (slice vault_revocation_epoch_offset (vault_revocation_epoch_offset + 4) raw))
        (slice vault_hmac_offset (vault_hmac_offset + 32) raw))

-- `VaultHeader::parse_v1`
unfoldable pub parse_v1 : Bytes → Result VaultError VaultHeader
parse_v1 raw = do
  reject_if (ltb (length raw) vault_header_size_v1) (invalid_header too_short)
  slots ← read_slots slot_from_bytes_v1 vault_device_slot_size_v1 raw vault_max_devices 0
  ok (with_fields raw slots 0 (slice vault_hmac_offset_v1 (vault_hmac_offset_v1 + 32) raw))

-- `VaultHeader::parse`
unfoldable pub parse : Bytes → Result VaultError VaultHeader
parse raw = do
  reject_if (ltb (length raw) 10) (invalid_header too_short)
  reject_if (not (bytes_eq (slice 0 8 raw) vault_magic)) (invalid_header wrong_magic)
  let version = read_le2 (slice 8 10 raw)
  (if version == vault_format_version
      then parse_v2 raw
      else if version == vault_format_version_v1
      then parse_v1 raw
      else err (unsupported_version version))

abbrev pub vault_fields : VaultHeader → List Bytes
vault_fields h =
    vault_magic
    ∷ to_le2 vault_format_version
    ∷ to_le4 h.argon2_memory_kb
    ∷ to_le4 h.argon2_iterations
    ∷ to_le4 h.argon2_parallelism
    ∷ h.master_salt
    ∷ h.vault_id
    ∷ h.pass_wrap_iv
    ∷ h.pass_wrapped_vault_key
    ∷ h.recovery_wrap_iv
    ∷ h.recovery_wrapped_vault_key
    ∷ (count_active h.device_slots % 256 ∷ [])
    ∷ flatten (map slot_to_bytes h.device_slots)
    ∷ to_le4 h.revocation_epoch
    ∷ h.header_hmac
    ∷ []

-- `VaultHeader::to_bytes`
unfoldable pub to_bytes : VaultHeader → Bytes
to_bytes h = flatten (vault_fields h)

-- `VaultHeader::header_bytes_for_hmac`
unfoldable pub header_bytes_for_hmac : VaultHeader → Bytes
header_bytes_for_hmac h = take vault_hmac_offset (to_bytes h)

-- `active_device_slots`, `active_slot_count` and `needs_migration`
unfoldable pub active_device_slots : VaultHeader → List DeviceSlot
active_device_slots h = filter is_active h.device_slots

unfoldable pub active_slot_count : VaultHeader → ℕ
active_slot_count h = count_active h.device_slots

unfoldable pub needs_migration : VaultHeader → Bool
needs_migration h = ltb h.format_version vault_format_version

-- `find_device_slot`
unfoldable pub find_device_slot : VaultHeader → Bytes → Option ℕ
find_device_slot h device_id =
    position_of (λ (s : DeviceSlot). is_active s && bytes_eq s.device_id device_id) h.device_slots

-- `first_empty_slot`
unfoldable pub first_empty_slot : VaultHeader → Option ℕ
first_empty_slot h = position_of (λ s. not (is_active s)) h.device_slots
