-- ===== src/Examples/Vaults.antt =====
-- A vault header of each format, and a journal of two entries.
use wattcloud.Common.{
  ℕ, ◌≡◌, ◌⊎◌, refl, suc, none, some, List, [], ◌∷◌, ◌++◌, Result, ok, arith, length, take, set,
  replicate, All, All-replicate,
}
use wattcloud.Common.Bytes.{Bytes, IsByte, codes}
use wattcloud.Vault.Slots.{DeviceSlot, IsSized, empty_slot, active_slot}
use wattcloud.Vault.Header.{
  VaultHeader, vault_magic, to_bytes, parse, find_device_slot, first_empty_slot, active_slot_count,
  parse_v1, read_slots,
}
use wattcloud.Vault.Slots.{slot_from_bytes_v1, from_byte}
use wattcloud.Common.Bytes.{
  bytes_eq, constant_time_eq, read_le2, from_le2, read_le4, from_le4, to_le4,
}
use wattcloud.Vault.Header.Layout.{IsWellFormed}
use wattcloud.Vault.Header.RoundTrip.{as_v2, parse-to_bytes, header_bytes_for_hmac-injective}
use wattcloud.Vault.Header.Accepted.{parse-to_bytes-parse}
use wattcloud.Vault.Header.Lookup.{first_empty_slot-find_device_slot}
use wattcloud.Vault.Journal.{
  JournalEntry, JournalKeys, journal_magic, serialize_entry, parse_journal, build_journal_file,
  is_allowed, parse_entries, parse_entry, parse_table, parse_row, JournalError,
}
use wattcloud.Vault.Journal.Entries.{IsReplayable}
use wattcloud.Vault.Journal.RoundTrip.{serialize_all, parse_journal-build_journal_file}
use wattcloud.Vault.Journal.Authentic.{
  AuthenticFrom, parse_journal-AuthenticFrom, parse_journal_terminates,
}
use wattcloud.Examples.Ciphers.{zeros, toy, toy-Lawful}

abbrev device : DeviceSlot
device = active_slot (replicate 16 7) (zeros 12) (zeros 48)

abbrev header : VaultHeader
header = record {
  format_version = 1;
  argon2_memory_kb = 131072;
  argon2_iterations = 3;
  argon2_parallelism = 4;
  master_salt = zeros 32;
  vault_id = zeros 16;
  pass_wrap_iv = zeros 12;
  pass_wrapped_vault_key = zeros 48;
  recovery_wrap_iv = zeros 12;
  recovery_wrapped_vault_key = zeros 48;
  device_slots = device ∷ replicate 7 empty_slot;
  revocation_epoch = 5;
  header_hmac = zeros 32;
}

empty_slot-IsSized : IsSized empty_slot
empty_slot-IsSized = record {
  device_id = refl;
  wrap_iv = refl;
  encrypted_payload = refl;
  signing_key_wrapped = refl;
}

device-IsSized : IsSized device
device-IsSized = record {
  device_id = refl;
  wrap_iv = refl;
  encrypted_payload = refl;
  signing_key_wrapped = refl;
}

header-IsWellFormed : IsWellFormed header
header-IsWellFormed = record {
  argon2_memory_kb = omega arith;
  argon2_iterations = omega arith;
  argon2_parallelism = omega arith;
  master_salt = refl;
  vault_id = refl;
  pass_wrap_iv = refl;
  pass_wrapped_vault_key = refl;
  recovery_wrap_iv = refl;
  recovery_wrapped_vault_key = refl;
  eight_slots = refl;
  sized_slots = (device-IsSized, All-replicate IsSized 7 empty_slot empty_slot-IsSized);
  revocation_epoch = omega arith;
  header_hmac = refl;
}

parse-to_bytes_example :
    (parse (to_bytes header) ≡ ok (as_v2 header)) × (length (to_bytes header) ≡ 1227)
parse-to_bytes_example = parse-to_bytes header header-IsWellFormed

header_bytes_for_hmac-injective_example :
    as_v2 (record header { header_hmac = zeros 32 }) ≡ as_v2 header
header_bytes_for_hmac-injective_example =
    header_bytes_for_hmac-injective header header header-IsWellFormed header-IsWellFormed refl

-- A header of format 1 with nothing in it.
abbrev old_bytes : Bytes
old_bytes = vault_magic ++ (1 ∷ 0 ∷ zeros 829)

abbrev old_header : VaultHeader
old_header = record {
  format_version = 1;
  argon2_memory_kb = 0;
  argon2_iterations = 0;
  argon2_parallelism = 0;
  master_salt = zeros 32;
  vault_id = zeros 16;
  pass_wrap_iv = zeros 12;
  pass_wrapped_vault_key = zeros 48;
  recovery_wrap_iv = zeros 12;
  recovery_wrapped_vault_key = zeros 48;
  device_slots = replicate 8 empty_slot;
  revocation_epoch = 0;
  header_hmac = zeros 32;
}

old_parsed : parse old_bytes ≡ ok old_header
unfolding parse parse_v1 read_slots slot_from_bytes_v1 from_byte bytes_eq read_le2 from_le2 read_le4
    from_le4
old_parsed = refl

old_bytes-IsByte : All IsByte old_bytes
old_bytes-IsByte = (
  omega arith,
  (
    omega arith,
    (
      omega arith,
      (
        omega arith,
        (
          omega arith,
          (
            omega arith,
            (
              omega arith,
              (omega arith, (omega arith, (omega arith, All-replicate IsByte 829 0 (omega arith)))),
            ),
          ),
        ),
      ),
    ),
  ),
)

parse-to_bytes-parse_example :
    IsWellFormed old_header × (parse (to_bytes old_header) ≡ ok (as_v2 old_header))
parse-to_bytes-parse_example = parse-to_bytes-parse old_bytes old_bytes-IsByte old_header old_parsed

abbrev newcomer : DeviceSlot
newcomer = active_slot (replicate 16 9) (zeros 12) (zeros 48)

unknown : find_device_slot header newcomer.device_id ≡ none
unfolding find_device_slot bytes_eq
unknown = refl

first_empty_slot-find_device_slot_example :
    ((i : ℕ) × (first_empty_slot header ≡ some i)
      × (find_device_slot
            (record header { device_slots = set header.device_slots i newcomer })
            newcomer.device_id
          ≡ some i)
      × (active_slot_count (record header { device_slots = set header.device_slots i newcomer })
          ≡ suc (active_slot_count header)))
    ⊎ ((first_empty_slot header ≡ none) × (active_slot_count header ≡ length header.device_slots))
first_empty_slot-find_device_slot_example =
    first_empty_slot-find_device_slot header newcomer refl unknown

abbrev keys : JournalKeys
keys = record { aead = zeros 32; hmac = zeros 32 }

abbrev inserted : JournalEntry
inserted = record { entry_type = 1; table = codes "files"; row_id = 7; plaintext = 1 ∷ 2 ∷ [] }

abbrev entries : List (JournalEntry × Bytes)
entries = (inserted, zeros 12) ∷ (record inserted { entry_type = 3 }, zeros 12) ∷ []

abbrev blob : ℕ → Bytes
blob kind =
    (kind ∷ 5 ∷ [])
    ++ (codes "files" ++ (7 ∷ 0 ∷ 0 ∷ 0 ∷ 12 ∷ (zeros 12 ++ (18 ∷ 0 ∷ 0 ∷ 0 ∷ 1 ∷ 2 ∷ zeros 48))))

journal_serialized : serialize_all toy keys entries ≡ ok (blob 1 ∷ blob 3 ∷ [])
unfolding serialize_all serialize_entry is_allowed bytes_eq to_le4
journal_serialized = refl

insert-IsReplayable : IsReplayable inserted (zeros 12)
insert-IsReplayable = record {
  kind = refl;
  row_word = omega arith;
  nonce_len = refl;
  within_limit = omega arith;
}

delete-IsReplayable : IsReplayable (record inserted { entry_type = 3 }) (zeros 12)
delete-IsReplayable = record {
  kind = refl;
  row_word = omega arith;
  nonce_len = refl;
  within_limit = omega arith;
}

parse_journal-build_journal_file_example :
    parse_journal toy keys (build_journal_file (blob 1 ∷ blob 3 ∷ []))
    ≡ some (ok (inserted ∷ record inserted { entry_type = 3 } ∷ []))
parse_journal-build_journal_file_example =
    parse_journal-build_journal_file toy toy-Lawful keys entries (blob 1 ∷ blob 3 ∷ [])
      (insert-IsReplayable, (delete-IsReplayable, tt)) journal_serialized

journal_parsed :
    parse_journal toy keys (build_journal_file (blob 1 ∷ blob 3 ∷ []))
    ≡ some (ok (inserted ∷ record inserted { entry_type = 3 } ∷ []))
unfolding parse_journal parse_entries parse_entry parse_table parse_row build_journal_file
    is_allowed bytes_eq read_le4 from_le4 constant_time_eq
journal_parsed = refl

parse_journal-AuthenticFrom_example :
    (take 8 (build_journal_file (blob 1 ∷ blob 3 ∷ [])) ≡ journal_magic)
    × AuthenticFrom toy keys
        (build_journal_file (blob 1 ∷ blob 3 ∷ []))
        8
        (inserted ∷ record inserted { entry_type = 3 } ∷ [])
parse_journal-AuthenticFrom_example =
    parse_journal-AuthenticFrom toy keys (build_journal_file (blob 1 ∷ blob 3 ∷ []))
      (inserted ∷ record inserted { entry_type = 3 } ∷ []) journal_parsed

parse_journal_terminates_example :
    (r : Result JournalError (List JournalEntry)) × (parse_journal toy keys (1 ∷ 2 ∷ []) ≡ some r)
parse_journal_terminates_example = parse_journal_terminates toy keys (1 ∷ 2 ∷ [])
