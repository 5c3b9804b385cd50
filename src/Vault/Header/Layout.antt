-- ===== src/Vault/Header/Layout.antt =====
-- Where `VaultHeader::to_bytes` of byo/vault_format.rs puts each field, and that `read_slots` finds
-- the device slots there.
use wattcloud.Common.{
  ℕ, ◌+◌, ◌*◌, ◌-◌, ◌%◌, ◌≡◌, refl, sym, ap, ◌∙◌, List, [], ◌∷◌, ◌++◌, ok, map, All, length, take,
  drop, slice, take-append, drop-append, drop-drop, take-drop, flatten, flatten-append,
  slice-flatten, length-append, length-flatten, lengths, append_assoc, arith,
}
use wattcloud.Common.Bytes.{Bytes, IsU32, to_le2, to_le4, length-to_le4}
use wattcloud.Vault.Slots.{
  DeviceSlot, IsSized, slot_to_bytes, slot_from_bytes, length-slot_to_bytes,
  slot_from_bytes-slot_to_bytes,
}
use wattcloud.Vault.Header.{
  VaultHeader, vault_magic, vault_format_version, count_active, vault_fields, to_bytes, read_slots,
}

-- The widths of the fields, as the types of the source have them.
pub record IsWellFormed (h : VaultHeader) : Type 0 where
  pub argon2_memory_kb : IsU32 h.argon2_memory_kb
  pub argon2_iterations : IsU32 h.argon2_iterations
  pub argon2_parallelism : IsU32 h.argon2_parallelism
  pub master_salt : length h.master_salt ≡ 32
  pub vault_id : length h.vault_id ≡ 16
  pub pass_wrap_iv : length h.pass_wrap_iv ≡ 12
  pub pass_wrapped_vault_key : length h.pass_wrapped_vault_key ≡ 48
  pub recovery_wrap_iv : length h.recovery_wrap_iv ≡ 12
  pub recovery_wrapped_vault_key : length h.recovery_wrapped_vault_key ≡ 48
  pub eight_slots : length h.device_slots ≡ 8
  pub sized_slots : All IsSized h.device_slots
  pub revocation_epoch : IsU32 h.revocation_epoch
  pub header_hmac : length h.header_hmac ≡ 32

length-slots :
    (slots : List DeviceSlot)
    → All IsSized slots
    → length (flatten (map slot_to_bytes slots)) ≡ length slots * 125
length-slots [] z = refl
length-slots (s ∷ slots) z = omega (
  arith,
  length-append (slot_to_bytes s) (flatten (map slot_to_bytes slots)),
  length-slot_to_bytes s z.0,
  length-slots slots z.1,
)

-- Slots that stand in a row at slot `i` are read back.
read_slots_lem :
    (slots : List DeviceSlot) (raw more : Bytes) (i : ℕ)
    → All IsSized slots
    → drop (191 + i * 125) raw ≡ flatten (map slot_to_bytes slots) ++ more
    → read_slots slot_from_bytes 125 raw (length slots) i ≡ ok slots
unfolding read_slots
read_slots_lem [] raw more i z h = refl
read_slots_lem (s ∷ slots) raw more i z h =
    let behind = flatten (map slot_to_bytes slots) ++ more in
    let split : drop (191 + i * 125) raw ≡ slot_to_bytes s ++ behind =
      h ∙ append_assoc (slot_to_bytes s) (flatten (map slot_to_bytes slots)) more in
    let width : 191 + i * 125 + 125 - (191 + i * 125) ≡ 125 = omega arith in
    let front : slice (191 + i * 125) (191 + i * 125 + 125) raw ≡ slot_to_bytes s =
      ap (λ n. take n (drop (191 + i * 125) raw)) width
      ∙ ap (take 125) split
      ∙ take-append 125 (slot_to_bytes s) behind (sym (length-slot_to_bytes s z.0)) in
    let next : 191 + (i + 1) * 125 ≡ 191 + i * 125 + 125 = omega arith in
    let later : drop (191 + (i + 1) * 125) raw ≡ behind =
      ap (λ n. drop n raw) next
      ∙ sym (drop-drop 125 (191 + i * 125) raw)
      ∙ ap (drop 125) split
      ∙ drop-append 125 (slot_to_bytes s) behind (sym (length-slot_to_bytes s z.0)) in
    let rest = read_slots_lem slots raw more (i + 1) z.1 later in
    rw (front, slot_from_bytes-slot_to_bytes s z.0, rest)

module _ (h : VaultHeader) (w : IsWellFormed h) where
  -- The parts up to a field have this many bytes, and so has the field.
  field :
      (i a b : ℕ) {f : Bytes} {after : List Bytes}
      → drop i (vault_fields h) ≡ f ∷ after
      → lengths (take i (vault_fields h)) ≡ a
      → a + length f ≡ b
      → slice a b (to_bytes h) ≡ f
  unfolding to_bytes
  field i a b e f g = slice-flatten (vault_fields h) i a b e f g

  slots_size : length (flatten (map slot_to_bytes h.device_slots)) ≡ 1000
  slots_size = omega (arith, length-slots h.device_slots w.sized_slots, w.eight_slots)

  -- The bytes in front of field `i`.
  before_version : lengths (take 1 (vault_fields h)) ≡ 8
  before_version = refl

  before_memory : lengths (take 2 (vault_fields h)) ≡ 10
  unfolding to_le2
  before_memory = refl

  before_iterations : lengths (take 3 (vault_fields h)) ≡ 14
  before_iterations = omega (arith, before_memory, length-to_le4 h.argon2_memory_kb)

  before_parallelism : lengths (take 4 (vault_fields h)) ≡ 18
  before_parallelism = omega (arith, before_iterations, length-to_le4 h.argon2_iterations)

  before_salt : lengths (take 5 (vault_fields h)) ≡ 22
  before_salt = omega (arith, before_parallelism, length-to_le4 h.argon2_parallelism)

  before_id : lengths (take 6 (vault_fields h)) ≡ 54
  before_id = omega (arith, before_salt, w.master_salt)

  before_pass_iv : lengths (take 7 (vault_fields h)) ≡ 70
  before_pass_iv = omega (arith, before_id, w.vault_id)

  before_pass_key : lengths (take 8 (vault_fields h)) ≡ 82
  before_pass_key = omega (arith, before_pass_iv, w.pass_wrap_iv)

  before_recovery_iv : lengths (take 9 (vault_fields h)) ≡ 130
  before_recovery_iv = omega (arith, before_pass_key, w.pass_wrapped_vault_key)

  before_recovery_key : lengths (take 10 (vault_fields h)) ≡ 142
  before_recovery_key = omega (arith, before_recovery_iv, w.recovery_wrap_iv)

  before_count : lengths (take 11 (vault_fields h)) ≡ 190
  before_count = omega (arith, before_recovery_key, w.recovery_wrapped_vault_key)

  before_slots : lengths (take 12 (vault_fields h)) ≡ 191
  before_slots = omega (arith, before_count)

  before_epoch : lengths (take 13 (vault_fields h)) ≡ 1191
  before_epoch = omega (arith, before_slots, slots_size)

  before_hmac : lengths (take 14 (vault_fields h)) ≡ 1195
  before_hmac = omega (arith, before_epoch, length-to_le4 h.revocation_epoch)

  pub field_magic : slice 0 8 (to_bytes h) ≡ vault_magic
  field_magic = field 0 0 8 refl refl refl

  pub field_version : slice 8 10 (to_bytes h) ≡ to_le2 vault_format_version
  unfolding to_le2
  field_version = field 1 8 10 refl before_version refl

  pub field_memory : slice 10 14 (to_bytes h) ≡ to_le4 h.argon2_memory_kb
  field_memory = field 2 10 14 refl before_memory (omega (arith, length-to_le4 h.argon2_memory_kb))

  pub field_iterations : slice 14 18 (to_bytes h) ≡ to_le4 h.argon2_iterations
  field_iterations =
      field 3 14 18 refl before_iterations (omega (arith, length-to_le4 h.argon2_iterations))

  pub field_parallelism : slice 18 22 (to_bytes h) ≡ to_le4 h.argon2_parallelism
  field_parallelism =
      field 4 18 22 refl before_parallelism (omega (arith, length-to_le4 h.argon2_parallelism))

  pub field_salt : slice 22 54 (to_bytes h) ≡ h.master_salt
  field_salt = field 5 22 54 refl before_salt (omega (arith, w.master_salt))

  pub field_id : slice 54 70 (to_bytes h) ≡ h.vault_id
  field_id = field 6 54 70 refl before_id (omega (arith, w.vault_id))

  pub field_pass_iv : slice 70 82 (to_bytes h) ≡ h.pass_wrap_iv
  field_pass_iv = field 7 70 82 refl before_pass_iv (omega (arith, w.pass_wrap_iv))

  pub field_pass_key : slice 82 130 (to_bytes h) ≡ h.pass_wrapped_vault_key
  field_pass_key = field 8 82 130 refl before_pass_key (omega (arith, w.pass_wrapped_vault_key))

  pub field_recovery_iv : slice 130 142 (to_bytes h) ≡ h.recovery_wrap_iv
  field_recovery_iv = field 9 130 142 refl before_recovery_iv (omega (arith, w.recovery_wrap_iv))

  pub field_recovery_key : slice 142 190 (to_bytes h) ≡ h.recovery_wrapped_vault_key
  field_recovery_key =
      field 10 142 190 refl before_recovery_key (omega (arith, w.recovery_wrapped_vault_key))

  pub field_count : slice 190 191 (to_bytes h) ≡ count_active h.device_slots % 256 ∷ []
  field_count = field 11 190 191 refl before_count refl

  pub field_epoch : slice 1191 1195 (to_bytes h) ≡ to_le4 h.revocation_epoch
  field_epoch =
      field 13 1191 1195 refl before_epoch (omega (arith, length-to_le4 h.revocation_epoch))

  pub field_hmac : slice 1195 1227 (to_bytes h) ≡ h.header_hmac
  field_hmac = field 14 1195 1227 refl before_hmac (omega (arith, w.header_hmac))

  pub length-to_bytes : length (to_bytes h) ≡ 1227
  unfolding to_bytes
  length-to_bytes = omega (arith, length-flatten (vault_fields h), before_hmac, w.header_hmac)

  behind_count :
      drop 191 (to_bytes h)
      ≡ flatten (map slot_to_bytes h.device_slots)
        ++ (to_le4 h.revocation_epoch ++ (h.header_hmac ++ []))
  unfolding to_bytes
  behind_count =
      let before = take 12 (vault_fields h) in
      let after = drop 12 (vault_fields h) in
      ap (λ t. drop 191 (flatten t)) (sym (take-drop 12 (vault_fields h)))
      ∙ ap (drop 191) (flatten-append before after)
      ∙ drop-append 191 (flatten before) (flatten after)
          (omega (arith, length-flatten before, before_slots))

  pub field_slots : read_slots slot_from_bytes 125 (to_bytes h) 8 0 ≡ ok h.device_slots
  field_slots =
      ap (λ n. read_slots slot_from_bytes 125 (to_bytes h) n 0) (sym w.eight_slots)
      ∙ read_slots_lem h.device_slots (to_bytes h) _ 0 w.sized_slots behind_count

  pub in_front_of_hmac : take 1195 (to_bytes h) ≡ flatten (take 14 (vault_fields h))
  unfolding to_bytes
  in_front_of_hmac =
      let before = take 14 (vault_fields h) in
      let after = drop 14 (vault_fields h) in
      ap (λ t. take 1195 (flatten t)) (sym (take-drop 14 (vault_fields h)))
      ∙ ap (take 1195) (flatten-append before after)
      ∙ take-append 1195 (flatten before) (flatten after)
          (omega (arith, length-flatten before, before_hmac))
