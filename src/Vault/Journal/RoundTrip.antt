-- ===== src/Vault/Journal/RoundTrip.antt =====
-- The whole journal of byo/vault_journal.rs: the entries of `serialize_entry` that
-- `build_journal_file` puts in a row, and `parse_journal`.
use wattcloud.Common.{
  ℕ, zero, suc, ◌+◌, ◌≤◌, ◌≡◌, refl, sym, ap, ◌∙◌, some, List, [], ◌∷◌, ◌++◌, Result, ok, ◌>>=◌,
  >>=-eq-ok, ok-injective, ltb, le→ltb, lt→ltb, length, length-append, true, false, take-append,
  flatten, append_assoc, map, All, arith,
}
use wattcloud.Common.Bytes.{Bytes, constant_time_eq_iff}
use wattcloud.WireFormat.Crypto.{Crypto, Lawful}
use wattcloud.Vault.Journal.{
  JournalEntry, JournalKeys, JournalError, journal_magic, serialize_entry, parse_entry,
  parse_entries, parse_journal, build_journal_file,
}
use wattcloud.Vault.Journal.Entries.{IsReplayable, parse_entry-serialize_entry}

module _ (c : Crypto) (keys : JournalKeys) where
  -- A journal's writer: every entry is serialised under its own nonce.
  unfoldable pub serialize_all : List (JournalEntry × Bytes) → Result JournalError (List Bytes)
  serialize_all [] = ok []
  serialize_all ((e, nonce) ∷ rest) = do
    blob ← serialize_entry c keys e.entry_type e.table e.row_id e.plaintext nonce
    blobs ← serialize_all rest
    ok (blob ∷ blobs)

module _ (c : Crypto) (law : Lawful c) (keys : JournalKeys) where
  -- The first of the serialised entries, read at `before`, and what is behind it.
  record Front (e : JournalEntry) (entries : List (JournalEntry × Bytes)) (blobs : List Bytes)
      (raw before : Bytes) : Type 0 where
    blob : Bytes
    rest : List Bytes
    serialized : serialize_all c keys entries ≡ ok rest
    blobs_are : blobs ≡ blob ∷ rest
    not_empty : 1 ≤ length blob
    parsed : parse_entry c keys raw (length before) ≡ ok (e, length (before ++ blob))
    next : raw ≡ (before ++ blob) ++ flatten rest

  front :
      (e : JournalEntry) (nonce : Bytes) (entries : List (JournalEntry × Bytes))
      (blobs : List Bytes) (raw before : Bytes)
      → IsReplayable e nonce
      → serialize_all c keys ((e, nonce) ∷ entries) ≡ ok blobs
      → raw ≡ before ++ flatten blobs
      → Front e entries blobs raw before
  unfolding serialize_all
  front e nonce entries blobs raw before r h same =
      let (blob, a, h1) =
        >>=-eq-ok (serialize_entry c keys e.entry_type e.table e.row_id e.plaintext nonce) _ h in
      let (rest, b, h2) = >>=-eq-ok (serialize_all c keys entries) _ h1 in
      let blobs_are : blobs ≡ blob ∷ rest = sym (ok-injective h2) in
      let whole : raw ≡ before ++ (blob ++ flatten rest) =
        same ∙ ap (λ t. before ++ flatten t) blobs_are in
      let (read, long) =
        parse_entry-serialize_entry c law keys e nonce blob before (flatten rest) r a in
      record {
        blob = blob;
        rest = rest;
        serialized = b;
        blobs_are = blobs_are;
        not_empty = long;
        parsed =
            ap (λ t. parse_entry c keys t (length before)) whole
            ∙ read
            ∙ ap (λ n. ok (e, n)) (sym (length-append before blob));
        next = whole ∙ sym (append_assoc before blob (flatten rest));
      }

  size_of_front :
      {e : JournalEntry} {entries : List (JournalEntry × Bytes)} {blobs : List Bytes}
      {raw before : Bytes} (f : Front e entries blobs raw before)
      → length (flatten blobs) ≡ length f.blob + length (flatten f.rest)
  size_of_front f = ap (λ t. length (flatten t)) f.blobs_are ∙ length-append f.blob (flatten f.rest)

  -- The first byte of an entry is in front of the end of the journal.
  more_to_read :
      {e : JournalEntry} {entries : List (JournalEntry × Bytes)} {blobs : List Bytes}
      {raw before : Bytes} (f : Front e entries blobs raw before)
      → ltb (length before) (length raw) ≡ true
  more_to_read {raw = raw} {before = before} f = lt→ltb (length before) (length raw) (
      omega (
        arith,
        ap length f.next,
        length-append (before ++ f.blob) (flatten f.rest),
        length-append before f.blob,
        f.not_empty,
      ))

  parse_entries_ended :
      (raw : Bytes) (fuel start : ℕ)
      → ltb start (length raw) ≡ false
      → parse_entries c keys raw fuel start ≡ some (ok [])
  unfolding parse_entries
  parse_entries_ended raw zero start e = rw e
  parse_entries_ended raw (suc n) start e = rw (e, parse_entries)

  parse_entries-serialize_all :
      (entries : List (JournalEntry × Bytes)) (blobs : List Bytes) (raw before : Bytes) (fuel : ℕ)
      → All (λ p. IsReplayable p.0 p.1) entries
      → serialize_all c keys entries ≡ ok blobs
      → raw ≡ before ++ flatten blobs
      → length (flatten blobs) ≤ fuel
      → parse_entries c keys raw fuel (length before) ≡ some (ok (map (λ p. p.0) entries))
  unfolding serialize_all parse_entries
  parse_entries-serialize_all [] blobs raw before fuel r h same enough =
      let empty : [] ≡ blobs = ok-injective h in
      let ended : length raw ≡ length before =
        ap length same
        ∙ length-append before (flatten blobs)
        ∙ ap (λ t. length before + length (flatten t)) (sym empty)
        ∙ omega arith in
      parse_entries_ended raw fuel (length before)
        (le→ltb (length before) (length raw) (omega (arith, ended)))
  parse_entries-serialize_all ((e, nonce) ∷ entries) blobs raw before zero r h same enough =
      let f = front e nonce entries blobs raw before r.0 h same in
      absurd (omega (arith, enough, size_of_front f, f.not_empty))
  parse_entries-serialize_all ((e, nonce) ∷ entries) blobs raw before (suc fuel) r h same enough =
      let f = front e nonce entries blobs raw before r.0 h same in
      let rest =
        parse_entries-serialize_all entries f.rest raw (before ++ f.blob) fuel r.1 f.serialized
          f.next (omega (arith, enough, size_of_front f, f.not_empty)) in
      rw (more_to_read f, f.parsed, rest, parse_entries)

  -- A journal of entries that were serialised one after the other, each within the reader's limits,
  -- is parsed to the same entries in the same order, and the loop does not run out of fuel.
  pub parse_journal-build_journal_file :
      (entries : List (JournalEntry × Bytes)) (blobs : List Bytes)
      → All (λ p. IsReplayable p.0 p.1) entries
      → serialize_all c keys entries ≡ ok blobs
      → parse_journal c keys (build_journal_file blobs) ≡ some (ok (map (λ p. p.0) entries))
  unfolding parse_journal build_journal_file
  parse_journal-build_journal_file entries blobs r h =
      let whole = journal_magic ++ flatten blobs in
      let size : length whole ≡ 8 + length (flatten blobs) =
        length-append journal_magic (flatten blobs) in
      let long : ltb (length (build_journal_file blobs)) 8 ≡ false =
        le→ltb (length whole) 8 (omega (arith, size)) in
      let rest =
        parse_entries-serialize_all entries blobs whole journal_magic (length whole) r h refl
          (omega (arith, size)) in
      rw (
        long,
        take-append 8 journal_magic (flatten blobs) refl,
        (constant_time_eq_iff journal_magic journal_magic).1 refl,
        rest,
      )
