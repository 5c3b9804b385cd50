-- ===== src/Vault/Journal/Authentic.antt =====
-- What `parse_journal` of byo/vault_journal.rs returns on any bytes at all.
use wattcloud.Common.{
  ℕ, zero, suc, ◌+◌, ◌≤◌, ◌<◌, ◌≡◌, refl, sym, ap, ◌∙◌, subst, Bool, Bool-cases, ◌⊎◌, inl, inr,
  true, false, not, some, List, [], ◌∷◌, Result, Result-cases, ok, err, ok_or, map_err,
  map_err-eq-ok, >>=-eq-ok, reject_if_passed, ok-injective, ltb, le_of_ltb, le→ltb, ◌==◌, length,
  get_elem?, slice, take, arith,
}
use wattcloud.Common.Bytes.{Bytes, read_le4, constant_time_eq, constant_time_eq_iff}
use wattcloud.WireFormat.Crypto.{Crypto, hmac_sha256, aes_gcm_decrypt}
use wattcloud.Vault.Journal.{
  JournalEntry, JournalKeys, JournalError, crypto, truncated, too_short, bad_magic, journal_magic,
  max_entry_data_len, is_allowed, is_entry_type, parse_entry, parse_table, parse_row, parse_entries,
  parse_journal, pushed,
}

is_true : {x : Bool} → not x ≡ false → x ≡ true
is_true {x = true} h = refl
is_true {x = false} h = cc

parse_table_accepted :
    (raw : Bytes) (start kind next : ℕ) (table : Bytes)
    → parse_table raw start ≡ ok (kind, table, next)
    → (is_entry_type kind ≡ true) × (is_allowed table ≡ true) × (start < next)
unfolding parse_table
parse_table_accepted raw start kind next table h =
    let (k, _, h1) = >>=-eq-ok (ok_or (get_elem? raw start) truncated) _ h in
    let (a, h2) = reject_if_passed (not (is_entry_type k)) _ h1 in
    let (t, _, h3) = >>=-eq-ok (ok_or (get_elem? raw (start + 1)) truncated) _ h2 in
    let (_, h4) = reject_if_passed (ltb (length raw) (start + 2 + t)) _ h3 in
    let name = slice (start + 2) (start + 2 + t) raw in
    let (b, h5) = reject_if_passed (not (is_allowed name)) _ h4 in
    let made = ok-injective h5 in
    (
      rw (sym (ap (λ p. p.0) made)) (is_true a),
      rw (sym (ap (λ p. p.1) made)) (is_true b),
      omega (arith, ap (λ p. p.2) made),
    )

parse_row_accepted :
    (raw : Bytes) (at_row row data_len at_data : ℕ) (nonce : Bytes)
    → parse_row raw at_row ≡ ok (row, nonce, data_len, at_data)
    → at_row < at_data
unfolding parse_row
parse_row_accepted raw at_row row data_len at_data nonce h =
    let (_, h1) = reject_if_passed (ltb (length raw) (at_row + 4)) _ h in
    let (iv, _, h2) = >>=-eq-ok (ok_or (get_elem? raw (at_row + 4)) truncated) _ h1 in
    let (_, h3) = reject_if_passed (not (iv == 12)) _ h2 in
    let (_, h4) = reject_if_passed (ltb (length raw) (at_row + 4 + 1 + 12)) _ h3 in
    let (_, h5) = reject_if_passed (ltb (length raw) (at_row + 4 + 1 + 12 + 4)) _ h4 in
    let n = read_le4 (slice (at_row + 4 + 1 + 12) (at_row + 4 + 1 + 12 + 4) raw) in
    let (_, h6) = reject_if_passed (ltb max_entry_data_len n) _ h5 in
    omega (arith, ap (λ p. p.3) (ok-injective h6))

module _ (c : Crypto) (keys : JournalKeys) (raw : Bytes) where
  -- An entry from `start` to `next`: the last 32 bytes are the HMAC of those in front of them.
  pub record IsAuthentic (start : ℕ) (e : JournalEntry) (next : ℕ) : Type 0 where
    pub kind : is_entry_type e.entry_type ≡ true
    pub table : is_allowed e.table ≡ true
    pub at_hmac : ℕ
    pub forward : start < at_hmac
    pub end : next ≡ at_hmac + 32
    pub inside : next ≤ length raw
    pub signed : hmac_sha256 c keys.hmac (slice start at_hmac raw) ≡ ok (slice at_hmac next raw)

  -- Entries that cover the journal from `start` to its end.
  pub data AuthenticFrom : ℕ → List JournalEntry → Type 0 where
    ended : {start : ℕ} → length raw ≤ start → AuthenticFrom start []
    entry :
        {start next : ℕ} {e : JournalEntry} {es : List JournalEntry}
        → IsAuthentic start e next
        → AuthenticFrom next es
        → AuthenticFrom start (e ∷ es)

  parse_entry-IsAuthentic :
      (start next : ℕ) (e : JournalEntry)
      → parse_entry c keys raw start ≡ ok (e, next)
      → IsAuthentic start e next
  unfolding parse_entry
  parse_entry-IsAuthentic start next e h =
      let ((kind, table, at_row), p, h1) = >>=-eq-ok (parse_table raw start) _ h in
      let ((row, nonce, n, at_data), q, h2) = >>=-eq-ok (parse_row raw at_row) _ h1 in
      let at_hmac = at_data + n in
      let (d, h3) = reject_if_passed (ltb (length raw) (at_hmac + 32)) _ h2 in
      let (mac, f, h4) =
        >>=-eq-ok (map_err crypto (hmac_sha256 c keys.hmac (slice start at_hmac raw))) _ h3 in
      let stored = slice at_hmac (at_hmac + 32) raw in
      let (g, h5) = reject_if_passed (not (constant_time_eq mac stored)) _ h4 in
      let (plaintext, _, h6) =
        >>=-eq-ok (map_err crypto (aes_gcm_decrypt c (slice at_data at_hmac raw) nonce keys.aead)) _
          h5 in
      let made = ok-injective h6 in
      let same : mac ≡ stored = (constant_time_eq_iff mac stored).0 (is_true g) in
      let (a, b, onward) = parse_table_accepted raw start kind at_row table p in
      let further = parse_row_accepted raw at_row row n at_data nonce q in
      subst (λ (p : JournalEntry × ℕ). IsAuthentic start p.0 p.1) made
        (record {
          kind = a;
          table = b;
          at_hmac = at_hmac;
          forward = omega (arith, onward, further);
          end = refl;
          inside = le_of_ltb (length raw) (at_hmac + 32) d;
          signed = map_err-eq-ok crypto _ f ∙ ap ok same;
        })

  abbrev Outcome : ℕ → Result JournalError (List JournalEntry) → Type 0
  Outcome start (ok es) = AuthenticFrom start es
  Outcome start (err e) = Unit {0}

  extended :
      {start next : ℕ} {e : JournalEntry}
      → IsAuthentic start e next
      → (r : Result JournalError (List JournalEntry)) → Outcome next r
      → (whole : Result JournalError (List JournalEntry)) × (pushed c keys e (some r) ≡ some whole)
        × Outcome start whole
  extended {e = e} good (ok es) o = (ok (e ∷ es), refl, entry good o)
  extended good (err x) o = (err x, refl, tt)

  parse_entries-Outcome :
      (fuel start : ℕ)
      → length raw ≤ start + fuel
      → (r : Result JournalError (List JournalEntry)) × (parse_entries c keys raw fuel start
          ≡ some r)
        × Outcome start r
  unfolding parse_entries
  parse_entries-Outcome zero start enough =
      (ok [], rw (le→ltb start (length raw) (omega (arith, enough))), ended (omega (arith, enough)))
  parse_entries-Outcome (suc fuel) start enough = elim (Bool-cases (ltb start (length raw))) [
    | inl more ↦ elim (Result-cases (parse_entry c keys raw start)) [
      | inr (e, stopped) ↦ (err e, rw (more, stopped, parse_entries), tt)
      | inl ((e, next), read) ↦
          let good = parse_entry-IsAuthentic start next e read in
          let (r, run, o) =
            parse_entries-Outcome fuel next (omega (arith, enough, good.forward, good.end)) in
          let (whole, p, q) = extended good r o in (whole, rw (more, read, run, parse_entries) p, q)
    ]
    | inr end ↦ (ok [], rw (end, parse_entries), ended (le_of_ltb start (length raw) end))
  ]

  parse_journal-Outcome :
      (r : Result JournalError (List JournalEntry)) × (parse_journal c keys raw ≡ some r)
      × Outcome 8 r
      × ((take 8 raw ≡ journal_magic) ⊎ (r ≡ err too_short) ⊎ (r ≡ err bad_magic))
  unfolding parse_journal
  parse_journal-Outcome = elim (Bool-cases (ltb (length raw) 8)) [
    | inl short ↦ (err too_short, rw short, tt, inr (inl refl))
    | inr long ↦ elim (Bool-cases (constant_time_eq (take 8 raw) journal_magic)) [
      | inr other ↦ (err bad_magic, rw (long, other), tt, inr (inr refl))
      | inl same ↦
          let (r, run, o) = parse_entries-Outcome (length raw) 8 (omega arith) in
          (
            r,
            rw (long, same) run,
            o,
            inl ((constant_time_eq_iff (take 8 raw) journal_magic).0 same),
          )
    ]
  ]

  -- On any bytes the loop of `parse_journal` ends with a result, entries or an error.
  pub parse_journal_terminates :
      (r : Result JournalError (List JournalEntry)) × (parse_journal c keys raw ≡ some r)
  parse_journal_terminates = let (r, run, _, _) = parse_journal-Outcome in (r, run)

  -- Whatever bytes are parsed as a journal, they start with the magic, and the entries returned are
  -- all of what is behind it, one after the other: each is of a known kind, for an allowed table, and
  -- its bytes carry the HMAC under the journal's key.
  pub parse_journal-AuthenticFrom :
      (entries : List JournalEntry)
      → parse_journal c keys raw ≡ some (ok entries)
      → (take 8 raw ≡ journal_magic) × AuthenticFrom 8 entries
  parse_journal-AuthenticFrom entries h =
      let (r, run, o, magic) = parse_journal-Outcome in
      let same : r ≡ ok entries = some-injective (sym run ∙ h) in
      (
        elim magic [
          | inl m ↦ m
          | inr (inl e) ↦ absurd (different (sym e ∙ same))
          | inr (inr e) ↦ absurd (different (sym e ∙ same))
        ],
        subst (Outcome 8) same o,
      )
    where
      some-injective : {x y : Result JournalError (List JournalEntry)} → some x ≡ some y → x ≡ y
      some-injective e = cc

      different :
          {e : JournalError} {es : List JournalEntry}
          → ◌≡◌ {A = Result JournalError (List JournalEntry)} (err e) (ok es)
          → ⊥
      different e = cc
