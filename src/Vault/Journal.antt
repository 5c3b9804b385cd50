-- ===== src/Vault/Journal.antt =====
-- The journal of a vault, sdk/sdk-core/src/byo/vault_journal.rs. A fresh nonce is an argument. The
-- loop of `parse_journal` runs on fuel, and `none` is a loop that ran out of it.
pub mod Entries
pub mod RoundTrip
pub mod Authentic
use wattcloud.Common.{
  ℕ, zero, suc, ◌+◌, ◌%◌, ◌^◌, not, Bool, true, false, ◌||◌, Option, none, some, List, [], ◌∷◌,
  ◌++◌, Result, ok, err, ok_or, map_err, ◌>>=◌, ◌>>◌, reject_if, ltb, ◌==◌, if◌then◌else◌, any,
  length, take, get_elem?, slice, flatten,
}
use wattcloud.Common.Bytes.{Bytes, codes, bytes_eq, constant_time_eq, to_le4, read_le4}
use wattcloud.WireFormat.Crypto.{
  Crypto, CryptoError, aes_gcm_encrypt_with_nonce, aes_gcm_decrypt, hmac_sha256,
}

abbrev pub journal_magic : Bytes
journal_magic = 83 ∷ 67 ∷ 74 ∷ 78 ∷ 82 ∷ 76 ∷ 0 ∷ 1 ∷ []

abbrev pub entry_type_insert : ℕ
entry_type_insert = 1

abbrev pub entry_type_update : ℕ
entry_type_update = 2

abbrev pub entry_type_delete : ℕ
entry_type_delete = 3

-- A name that is no UTF-8 is not in this list.
abbrev pub allowed_journal_tables : List Bytes
allowed_journal_tables =
    codes "files"
    ∷ codes "folders"
    ∷ codes "favorites"
    ∷ codes "trash"
    ∷ codes "share_tokens"
    ∷ codes "vault_meta"
    ∷ codes "key_versions"
    ∷ codes "collections"
    ∷ codes "collection_files"
    ∷ codes "share_audit"
    ∷ []

abbrev pub max_entry_data_len : ℕ
max_entry_data_len = 16777216

-- The name in a `BadTableName` is only printed.
pub data JournalError : Type 0 where
  too_short bad_magic table_too_long bad_table_name hmac_mismatch truncated : JournalError
  bad_entry_type bad_iv_len : ℕ → JournalError
  crypto : CryptoError → JournalError

pub record JournalEntry : Type 0 where
  pub entry_type : ℕ
  pub table : Bytes
  pub row_id : ℕ
  pub plaintext : Bytes

-- sdk/sdk-core/src/byo/per_vault_key.rs: `JournalKeys`
pub record JournalKeys : Type 0 where
  pub aead : Bytes
  pub hmac : Bytes

-- `ALLOWED_JOURNAL_TABLES.contains(&table)`
unfoldable pub is_allowed : Bytes → Bool
is_allowed table = any (bytes_eq table) allowed_journal_tables

abbrev pub is_entry_type : ℕ → Bool
is_entry_type t = t == entry_type_insert || (t == entry_type_update || t == entry_type_delete)

-- The fields of an entry, in front of its HMAC.
abbrev pub entry_fields : ℕ → Bytes → ℕ → Bytes → Bytes → List Bytes
entry_fields entry_type table row_id nonce ciphertext =
    (entry_type ∷ [])
    ∷ (length table % 256 ∷ [])
    ∷ table
    ∷ to_le4 row_id
    ∷ (12 ∷ [])
    ∷ nonce
    ∷ to_le4 (length ciphertext % 2 ^ 32)
    ∷ ciphertext
    ∷ []

-- The first fields of an entry, its kind and its table, and the offset behind them. Each `get` of a
-- range stands behind a test that the range is inside.
unfoldable pub parse_table : Bytes → ℕ → Result JournalError (ℕ × Bytes × ℕ)
parse_table raw start = do
  entry_type ← ok_or (get_elem? raw start) truncated
  reject_if (not (is_entry_type entry_type)) (bad_entry_type entry_type)
  table_len ← ok_or (get_elem? raw (start + 1)) truncated
  let at_table = start + 2
  reject_if (ltb (length raw) (at_table + table_len)) truncated
  let table = slice at_table (at_table + table_len) raw
  reject_if (not (is_allowed table)) bad_table_name
  ok (entry_type, table, at_table + table_len)

-- The fields behind them: the row, the nonce, the length of the ciphertext, and the offset of it.
unfoldable pub parse_row : Bytes → ℕ → Result JournalError (ℕ × Bytes × ℕ × ℕ)
parse_row raw at_row = do
  reject_if (ltb (length raw) (at_row + 4)) truncated
  let row_id = read_le4 (slice at_row (at_row + 4) raw)
  let at_iv = at_row + 4
  iv_len ← ok_or (get_elem? raw at_iv) truncated
  reject_if (not (iv_len == 12)) (bad_iv_len iv_len)
  let at_nonce = at_iv + 1
  reject_if (ltb (length raw) (at_nonce + 12)) truncated
  let nonce = slice at_nonce (at_nonce + 12) raw
  let at_len = at_nonce + 12
  reject_if (ltb (length raw) (at_len + 4)) truncated
  let data_len = read_le4 (slice at_len (at_len + 4) raw)
  reject_if (ltb max_entry_data_len data_len) truncated
  ok (row_id, nonce, data_len, at_len + 4)

module _ (c : Crypto) (keys : JournalKeys) where
  -- `serialize_entry`
  unfoldable pub serialize_entry : ℕ → Bytes → ℕ → Bytes → Bytes → Result JournalError Bytes
  serialize_entry entry_type table row_id plaintext nonce = do
    reject_if (ltb 255 (length table)) table_too_long
    reject_if (not (is_allowed table)) bad_table_name
    ciphertext ← map_err crypto (aes_gcm_encrypt_with_nonce c plaintext keys.aead nonce)
    let entry = flatten (entry_fields entry_type table row_id nonce ciphertext)
    hmac ← map_err crypto (hmac_sha256 c keys.hmac entry)
    ok (entry ++ hmac)

  -- One round of the loop of `parse_journal`: the entry at `start`, and where the next one starts.
  unfoldable pub parse_entry : Bytes → ℕ → Result JournalError (JournalEntry × ℕ)
  parse_entry raw start = do
    (entry_type, table, at_row) ← parse_table raw start
    (row_id, nonce, data_len, at_data) ← parse_row raw at_row
    reject_if (ltb (length raw) (at_data + data_len + 32)) truncated
    let enc_data = slice at_data (at_data + data_len) raw
    let at_hmac = at_data + data_len
    expected_hmac ← map_err crypto (hmac_sha256 c keys.hmac (slice start at_hmac raw))
    reject_if (not (constant_time_eq expected_hmac (slice at_hmac (at_hmac + 32) raw)))
        hmac_mismatch
    plaintext ← map_err crypto (aes_gcm_decrypt c enc_data nonce keys.aead)
    ok (
      record { entry_type = entry_type; table = table; row_id = row_id; plaintext = plaintext },
      at_hmac + 32,
    )

  -- `entries.push(entry)`, where the entries behind it are still to come.
  abbrev pub pushed :
      JournalEntry
      → Option (Result JournalError (List JournalEntry))
      → Option (Result JournalError (List JournalEntry))
  pushed entry none = none
  pushed entry (some (err e)) = some (err e)
  pushed entry (some (ok entries)) = some (ok (entry ∷ entries))

  unfoldable pub parse_entries : Bytes → ℕ → ℕ → Option (Result JournalError (List JournalEntry))
  parse_entries raw zero start = if ltb start (length raw) then none else some (ok [])
  parse_entries raw (suc fuel) start = elim (ltb start (length raw)) [
    | false ↦ some (ok [])
    | true ↦ elim (parse_entry raw start) [
      | err e ↦ some (err e)
      | ok (entry, next) ↦ pushed entry (parse_entries raw fuel next)
    ]
  ]

  -- `parse_journal`
  unfoldable pub parse_journal : Bytes → Option (Result JournalError (List JournalEntry))
  parse_journal raw =
      if ltb (length raw) 8
      then some (err too_short)
      else if not (constant_time_eq (take 8 raw) journal_magic)
      then some (err bad_magic)
      else parse_entries raw (length raw) 8

-- `build_journal_file`
unfoldable pub build_journal_file : List Bytes → Bytes
build_journal_file entries = journal_magic ++ flatten entries
