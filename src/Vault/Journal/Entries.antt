-- ===== src/Vault/Journal/Entries.antt =====
-- One entry of the journal of byo/vault_journal.rs: what `serialize_entry` wrote is read back.
use wattcloud.Common.{
  ℕ, ◌+◌, ◌%◌, ◌^◌, ◌≤◌, ◌≡◌, refl, sym, ap, ◌∙◌, true, false, not, some, List, [], ◌∷◌, ◌++◌,
  Result, ok, err, >>=-eq-ok, map_err, map_err-eq-ok, le_of_ltb, Bool, Bool-cases, inl, inr,
  append_assoc, append-nil, length-append, reject_if_passed, ok_or-eq-ok, ok-injective, ltb, le→ltb,
  length, get_elem?, get_elem?-slice, slice, slice-flatten, flatten, flatten-append, length-flatten,
  lengths, take, drop, arith,
}
use wattcloud.Common.Bytes.{
  Bytes, IsU32, to_le4, read_le4, length-to_le4, read_le4-to_le4, constant_time_eq_iff,
}
use wattcloud.WireFormat.Crypto.{
  Crypto, Lawful, CryptoError, hmac_sha256, aes_gcm_encrypt_with_nonce,
}
use wattcloud.Vault.Journal.{
  JournalEntry, JournalKeys, is_allowed, is_entry_type, crypto, entry_fields, serialize_entry,
  parse_entry, parse_table, parse_row, max_entry_data_len,
}

-- An entry with its nonce and ciphertext, between what is in front of it and what is behind it.
module _ (before after : Bytes) (e : JournalEntry) (nonce ct mac : Bytes)
    (table_len : length e.table ≤ 255) (nonce_len : length nonce ≡ 12)
    (ct_len : length ct ≤ 16777216) (mac_len : length mac ≡ 32) where
  abbrev parts : List Bytes
  parts = before ∷ (entry_fields e.entry_type e.table e.row_id nonce ct ++ (mac ∷ after ∷ []))

  abbrev raw : Bytes
  raw = flatten parts

  abbrev o : ℕ
  o = length before

  abbrev t : ℕ
  t = length e.table

  abbrev body : Bytes
  body = flatten (entry_fields e.entry_type e.table e.row_id nonce ct)

  field :
      (i a b : ℕ) {f : Bytes} {rest : List Bytes}
      → drop i parts ≡ f ∷ rest
      → lengths (take i parts) ≡ a
      → a + length f ≡ b
      → slice a b raw ≡ f
  field i a b p q r = slice-flatten parts i a b p q r

  type_read : get_elem? raw o ≡ some e.entry_type
  type_read = get_elem?-slice raw o e.entry_type (field 1 o (o + 1) refl (omega arith) refl)

  len_small : length e.table % 256 ≡ t
  len_small = omega (arith, table_len)

  len_read : get_elem? raw (o + 1) ≡ some t
  len_read =
      get_elem?-slice raw (o + 1) t
        (field 2 (o + 1) (o + 1 + 1) refl (omega arith) refl ∙ ap (λ x. x ∷ []) len_small)

  table_read : slice (o + 2) (o + 2 + t) raw ≡ e.table
  table_read = field 3 (o + 2) (o + 2 + t) refl (omega arith) refl

  row_read : slice (o + 2 + t) (o + 2 + t + 4) raw ≡ to_le4 e.row_id
  row_read =
      field 4 (o + 2 + t) (o + 2 + t + 4) refl (omega arith) (omega (arith, length-to_le4 e.row_id))

  before_iv : lengths (take 5 parts) ≡ o + 2 + t + 4
  before_iv = omega (arith, length-to_le4 e.row_id)

  iv_read : get_elem? raw (o + 2 + t + 4) ≡ some 12
  iv_read =
      get_elem?-slice raw (o + 2 + t + 4) 12
        (field 5 (o + 2 + t + 4) (o + 2 + t + 4 + 1) refl before_iv refl)

  nonce_read : slice (o + 2 + t + 4 + 1) (o + 2 + t + 4 + 1 + 12) raw ≡ nonce
  nonce_read =
      field 6 (o + 2 + t + 4 + 1) (o + 2 + t + 4 + 1 + 12) refl (omega (arith, before_iv))
        (omega (arith, nonce_len))

  size_read :
      slice (o + 2 + t + 4 + 1 + 12) (o + 2 + t + 4 + 1 + 12 + 4) raw ≡ to_le4 (length ct % 2 ^ 32)
  size_read =
      field 7 (o + 2 + t + 4 + 1 + 12) (o + 2 + t + 4 + 1 + 12 + 4) refl
        (omega (arith, before_iv, nonce_len)) (omega (arith, length-to_le4 (length ct % 2 ^ 32)))

  before_data : lengths (take 8 parts) ≡ o + 2 + t + 4 + 1 + 12 + 4
  before_data = omega (arith, before_iv, nonce_len, length-to_le4 (length ct % 2 ^ 32))

  data_read : slice (o + 2 + t + 4 + 1 + 12 + 4) (o + 2 + t + 4 + 1 + 12 + 4 + length ct) raw ≡ ct
  data_read =
      field 8 (o + 2 + t + 4 + 1 + 12 + 4) (o + 2 + t + 4 + 1 + 12 + 4 + length ct) refl before_data
        refl

  abbrev at_hmac : ℕ
  at_hmac = o + 2 + t + 4 + 1 + 12 + 4 + length ct

  hmac_read : slice at_hmac (at_hmac + 32) raw ≡ mac
  hmac_read =
      field 9 at_hmac (at_hmac + 32) refl (omega (arith, before_data)) (omega (arith, mac_len))

  whole : raw ≡ flatten (before ∷ body ∷ mac ∷ after ∷ [])
  whole =
      ap (◌++◌ before)
        (flatten-append (entry_fields e.entry_type e.table e.row_id nonce ct) (mac ∷ after ∷ []))

  body_size : o + length body ≡ at_hmac
  body_size = omega (
    arith,
    length-flatten (entry_fields e.entry_type e.table e.row_id nonce ct),
    length-to_le4 e.row_id,
    length-to_le4 (length ct % 2 ^ 32),
    nonce_len,
  )

  body_read : slice o at_hmac raw ≡ body
  body_read =
      ap (slice o at_hmac) whole
      ∙ slice-flatten (before ∷ body ∷ mac ∷ after ∷ []) 1 o at_hmac refl (omega arith) body_size

  room : at_hmac + 32 ≤ length raw
  room = omega (
    arith,
    ap length whole,
    length-flatten (before ∷ body ∷ mac ∷ after ∷ []),
    body_size,
    mac_len,
  )

  inside : (n : ℕ) → n ≤ at_hmac + 32 → ltb (length raw) n ≡ false
  inside n h = le→ltb (length raw) n (omega (arith, room, h))

  size_value :
      read_le4 (slice (o + 2 + t + 4 + 1 + 12) (o + 2 + t + 4 + 1 + 12 + 4) raw) ≡ length ct
  size_value =
      let small : length ct % 2 ^ 32 ≡ length ct = omega (arith, ct_len) in
      ap read_le4 size_read ∙ read_le4-to_le4 (length ct % 2 ^ 32) (omega (arith, ct_len)) ∙ small

  parse_entry_lem :
      (c : Crypto) (keys : JournalKeys)
      → is_entry_type e.entry_type ≡ true
      → is_allowed e.table ≡ true
      → IsU32 e.row_id
      → hmac_sha256 c keys.hmac body ≡ ok mac
      → c.gcm_decrypt keys.aead nonce ct ≡ some e.plaintext
      → parse_entry c keys raw o ≡ ok (e, at_hmac + 32)
  unfolding parse_entry parse_table parse_row
  parse_entry_lem c keys kind allowed row_word authentic opened =
      let row_value : read_le4 (slice (o + 2 + t) (o + 2 + t + 4) raw) ≡ e.row_id =
        ap read_le4 row_read ∙ read_le4-to_le4 e.row_id row_word in
      let in_1 : ltb (length raw) (o + 2 + t) ≡ false = inside (o + 2 + t) (omega arith) in
      let in_2 : ltb (length raw) (o + 2 + t + 4) ≡ false = inside (o + 2 + t + 4) (omega arith) in
      let in_3 : ltb (length raw) (o + 2 + t + 4 + 1 + 12) ≡ false =
        inside (o + 2 + t + 4 + 1 + 12) (omega arith) in
      let in_4 : ltb (length raw) (o + 2 + t + 4 + 1 + 12 + 4) ≡ false =
        inside (o + 2 + t + 4 + 1 + 12 + 4) (omega arith) in
      let in_5 : ltb (length raw) (at_hmac + 32) ≡ false = inside (at_hmac + 32) (omega arith) in
      let small : ltb 16777216 (length ct) ≡ false = le→ltb 16777216 (length ct) ct_len in
      rw (
        type_read,
        kind,
        len_read,
        in_1,
        table_read,
        allowed,
        in_2,
        row_value,
        iv_read,
        in_3,
        nonce_read,
        in_4,
        size_value,
        small,
        in_5,
        data_read,
        body_read,
        authentic,
        hmac_read,
        (constant_time_eq_iff mac mac).1 refl,
        opened,
      )

-- What an entry needs besides what `serialize_entry` tests: its kind is one of the three, its row
-- is a 32-bit word, the nonce has 12 bytes, and the ciphertext is not above the reader's limit.
pub record IsReplayable (e : JournalEntry) (nonce : Bytes) : Type 0 where
  pub kind : is_entry_type e.entry_type ≡ true
  pub row_word : IsU32 e.row_id
  pub nonce_len : length nonce ≡ 12
  pub within_limit : length e.plaintext + 16 ≤ max_entry_data_len

hmac_sha256-length :
    (c : Crypto)
    → Lawful c
    → (key message mac : Bytes) → hmac_sha256 c key message ≡ ok mac
    → length mac ≡ 32
hmac_sha256-length c law key message mac h = elim (Bool-cases (c.hmac_accepts key)) [
  | inl y ↦ ap length (sym (ok-injective (rw y at h))) ∙ law.hmac_length key message
  | inr n ↦ absurd (refused (rw n at h))
]
  where
    refused : {e : CryptoError} → ◌≡◌ {A = Result CryptoError Bytes} (err e) (ok mac) → ⊥
    refused h = cc

-- Read where it stands, between any bytes, and it has a byte at least.
pub parse_entry-serialize_entry :
    (c : Crypto) (law : Lawful c) (keys : JournalKeys) (e : JournalEntry)
    (nonce blob before after : Bytes)
    → IsReplayable e nonce
    → serialize_entry c keys e.entry_type e.table e.row_id e.plaintext nonce ≡ ok blob
    → (parse_entry c keys (before ++ (blob ++ after)) (length before)
        ≡ ok (e, length before + length blob))
      × (1 ≤ length blob)
unfolding serialize_entry
parse_entry-serialize_entry c law keys e nonce blob before after r h =
    let (a, h1) = reject_if_passed (ltb 255 (length e.table)) _ h in
    let (b, h2) = reject_if_passed (not (is_allowed e.table)) _ h1 in
    let (ct, sealed, h3) =
      >>=-eq-ok (map_err crypto (aes_gcm_encrypt_with_nonce c e.plaintext keys.aead nonce)) _ h2 in
    let body = flatten (entry_fields e.entry_type e.table e.row_id nonce ct) in
    let (mac, signed, h4) = >>=-eq-ok (map_err crypto (hmac_sha256 c keys.hmac body)) _ h3 in
    let made : body ++ mac ≡ blob = ok-injective h4 in
    let opened =
      ok_or-eq-ok (c.gcm_encrypt keys.aead nonce e.plaintext) _ (map_err-eq-ok crypto _ sealed) in
    let authentic = map_err-eq-ok crypto (hmac_sha256 c keys.hmac body) signed in
    let short : length e.table ≤ 255 = le_of_ltb 255 (length e.table) a in
    let ct_size : length ct ≡ length e.plaintext + 16 = law.tag_length _ _ _ _ opened in
    let ct_small : length ct ≤ 16777216 = omega (arith, ct_size, r.within_limit) in
    let mac_size = hmac_sha256-length c law keys.hmac body mac authentic in
    let moved : before ++ (blob ++ after)
        ≡ raw before after e nonce ct mac short r.nonce_len ct_small mac_size =
      ap (λ x. before ++ (x ++ after)) (sym made)
      ∙ ap (◌++◌ before) (append_assoc body mac after)
      ∙ ap (λ x. before ++ (body ++ (mac ++ x))) (sym (append-nil after))
      ∙ sym (whole before after e nonce ct mac short r.nonce_len ct_small mac_size) in
    let next = body_size before after e nonce ct mac short r.nonce_len ct_small mac_size in
    let size = ap length (sym made) ∙ length-append body mac in
    (
      ap (λ x. parse_entry c keys x (length before)) moved
          ∙ parse_entry_lem before after e nonce ct mac short r.nonce_len ct_small mac_size c keys
              r.kind (is_true b) r.row_word authentic (law.opens _ _ _ _ opened)
          ∙ ap (λ n. ok (e, n)) (omega (arith, next, size, mac_size)),
      omega (arith, size, mac_size),
    )
  where
    is_true : {x : Bool} → not x ≡ false → x ≡ true
    is_true {x = true} h = refl
    is_true {x = false} h = cc
