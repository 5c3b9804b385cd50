-- ===== src/Vault/Slots.antt =====
-- The device slots of sdk/sdk-core/src/byo/vault_format.rs. Its fixed arrays are lists of bytes with
-- the predicate `IsSized`.
use wattcloud.Common.{
  ℕ, ◌≡◌, refl, sym, not, Bool, true, false, List, [], ◌∷◌, Result, ok, err, ◌>>=◌, ◌>>◌, reject_if,
  reject_if_passed, >>=-eq-ok, ok-injective, ◌==◌, not_unequal, if◌then◌else◌, length, length-slice,
  slice, flatten, slice-flatten, length-flatten, replicate, arith,
}
use wattcloud.Common.Bytes.{Bytes, byte_at, bytes_eq}
use wattcloud.WireFormat.Crypto.{CryptoError}

pub data HeaderFault : Type 0 where
  invalid_slot_status wrong_slot_size too_short wrong_magic wrong_active_count : HeaderFault

-- A fault stands for the text of its message.
pub data VaultError : Type 0 where
  invalid_header : HeaderFault → VaultError
  unsupported_version device_slots_full : ℕ → VaultError
  hmac_verification_failed device_slot_not_found : VaultError
  crypto : CryptoError → VaultError

abbrev pub vault_device_slot_size : ℕ
vault_device_slot_size = 125

abbrev pub vault_device_slot_size_v1 : ℕ
vault_device_slot_size_v1 = 77

pub data SlotStatus : Type 0 where
  empty active : SlotStatus

-- `status as u8`
abbrev pub status_byte : SlotStatus → ℕ
status_byte empty = 0
status_byte active = 1

-- `SlotStatus::from_byte`
unfoldable pub from_byte : ℕ → Result VaultError SlotStatus
from_byte b =
    if b == 0
    then ok empty
    else if b == 1
    then ok active
    else err (invalid_header invalid_slot_status)

pub record DeviceSlot : Type 0 where
  pub status : SlotStatus
  pub device_id : Bytes
  pub wrap_iv : Bytes
  pub encrypted_payload : Bytes
  pub signing_key_wrapped : Bytes

-- `DeviceSlot::empty`, `DeviceSlot::active` and `DeviceSlot::active_with_signing_key`
abbrev pub empty_slot : DeviceSlot
empty_slot = record {
  status = empty;
  device_id = replicate 16 0;
  wrap_iv = replicate 12 0;
  encrypted_payload = replicate 48 0;
  signing_key_wrapped = replicate 48 0;
}

abbrev pub active_with_signing_key : Bytes → Bytes → Bytes → Bytes → DeviceSlot
active_with_signing_key device_id wrap_iv encrypted_payload signing_key_wrapped = record {
  status = active;
  device_id = device_id;
  wrap_iv = wrap_iv;
  encrypted_payload = encrypted_payload;
  signing_key_wrapped = signing_key_wrapped;
}

abbrev pub active_slot : Bytes → Bytes → Bytes → DeviceSlot
active_slot device_id wrap_iv encrypted_payload =
    active_with_signing_key device_id wrap_iv encrypted_payload (replicate 48 0)

-- `has_signing_key`
abbrev pub has_signing_key : DeviceSlot → Bool
has_signing_key s = not (bytes_eq s.signing_key_wrapped (replicate 48 0))

-- `s.status == SlotStatus::Active`
abbrev pub is_active : DeviceSlot → Bool
is_active s = elim s.status [ active ↦ true | empty ↦ false ]

abbrev pub slot_fields : DeviceSlot → List Bytes
slot_fields s =
    (status_byte s.status ∷ [])
    ∷ s.device_id
    ∷ s.wrap_iv
    ∷ s.encrypted_payload
    ∷ s.signing_key_wrapped
    ∷ []

-- `DeviceSlot::to_bytes`
unfoldable pub slot_to_bytes : DeviceSlot → Bytes
slot_to_bytes s = flatten (slot_fields s)

-- `DeviceSlot::from_bytes`
unfoldable pub slot_from_bytes : Bytes → Result VaultError DeviceSlot
slot_from_bytes raw = do
  reject_if (not (length raw == vault_device_slot_size)) (invalid_header wrong_slot_size)
  status ← from_byte (byte_at 0 raw)
  ok (record {
    status = status;
    device_id = slice 1 17 raw;
    wrap_iv = slice 17 29 raw;
    encrypted_payload = slice 29 77 raw;
    signing_key_wrapped = slice 77 125 raw;
  })

-- `DeviceSlot::from_bytes_v1`
unfoldable pub slot_from_bytes_v1 : Bytes → Result VaultError DeviceSlot
slot_from_bytes_v1 raw = do
  reject_if (not (length raw == vault_device_slot_size_v1)) (invalid_header wrong_slot_size)
  status ← from_byte (byte_at 0 raw)
  ok (record {
    status = status;
    device_id = slice 1 17 raw;
    wrap_iv = slice 17 29 raw;
    encrypted_payload = slice 29 77 raw;
    signing_key_wrapped = replicate 48 0;
  })

-- The lengths of the arrays.
pub record IsSized (s : DeviceSlot) : Type 0 where
  pub device_id : length s.device_id ≡ 16
  pub wrap_iv : length s.wrap_iv ≡ 12
  pub encrypted_payload : length s.encrypted_payload ≡ 48
  pub signing_key_wrapped : length s.signing_key_wrapped ≡ 48

pub from_byte-status_byte : (t : SlotStatus) → from_byte (status_byte t) ≡ ok t
unfolding from_byte
from_byte-status_byte empty = refl
from_byte-status_byte active = refl

pub length-slot_to_bytes : (s : DeviceSlot) → IsSized s → length (slot_to_bytes s) ≡ 125
unfolding slot_to_bytes
length-slot_to_bytes s z = omega (
  arith,
  length-flatten (slot_fields s),
  z.device_id,
  z.wrap_iv,
  z.encrypted_payload,
  z.signing_key_wrapped,
)

pub slot_from_bytes-slot_to_bytes :
    (s : DeviceSlot) → IsSized s → slot_from_bytes (slot_to_bytes s) ≡ ok s
unfolding slot_from_bytes slot_to_bytes
slot_from_bytes-slot_to_bytes s z =
    let fields = slot_fields s in
    rw (
      length-slot_to_bytes s z,
      slice-flatten fields 1 1 17 refl refl (omega (arith, z.device_id)),
      slice-flatten fields 2 17 29 refl (omega (arith, z.device_id)) (omega (arith, z.wrap_iv)),
      slice-flatten fields 3 29 77 refl (omega (arith, z.device_id, z.wrap_iv))
          (omega (arith, z.encrypted_payload)),
      slice-flatten fields 4 77 125 refl
          (omega (arith, z.device_id, z.wrap_iv, z.encrypted_payload))
          (omega (arith, z.signing_key_wrapped)),
      from_byte-status_byte s.status,
    )

-- What the two parsers return has arrays of the right lengths.
pub slot_from_bytes-IsSized :
    (raw : Bytes) (s : DeviceSlot) → slot_from_bytes raw ≡ ok s → IsSized s
unfolding slot_from_bytes
slot_from_bytes-IsSized raw s h =
    let (a, h1) = reject_if_passed (not (length raw == 125)) _ h in
    let long : length raw ≡ 125 = not_unequal _ _ a in
    let (status, _, made) = >>=-eq-ok (from_byte (byte_at 0 raw)) _ h1 in
    rw (sym (ok-injective made)) (record {
      device_id = length-slice 1 17 raw (omega (arith, long));
      wrap_iv = length-slice 17 29 raw (omega (arith, long));
      encrypted_payload = length-slice 29 77 raw (omega (arith, long));
      signing_key_wrapped = length-slice 77 125 raw (omega (arith, long));
    })

pub slot_from_bytes_v1-IsSized :
    (raw : Bytes) (s : DeviceSlot) → slot_from_bytes_v1 raw ≡ ok s → IsSized s
unfolding slot_from_bytes_v1
slot_from_bytes_v1-IsSized raw s h =
    let (a, h1) = reject_if_passed (not (length raw == 77)) _ h in
    let long : length raw ≡ 77 = not_unequal _ _ a in
    let (status, _, made) = >>=-eq-ok (from_byte (byte_at 0 raw)) _ h1 in
    rw (sym (ok-injective made)) (record {
      device_id = length-slice 1 17 raw (omega (arith, long));
      wrap_iv = length-slice 17 29 raw (omega (arith, long));
      encrypted_payload = length-slice 29 77 raw (omega (arith, long));
      signing_key_wrapped = refl;
    })
