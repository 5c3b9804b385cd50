-- ===== src/Manifest/Validate.antt =====
-- `validate_manifest` of sdk/sdk-core/src/byo/manifest.rs.
use wattcloud.Common.{
  ℕ, ◌≤◌, ◌<◌, ◌≡◌, ◌≢◌, refl, ◌↔◌, ◌⊎◌, inl, inr, Bool, true, false, not, ◌&&◌, Bool-cases, List,
  [], ◌∷◌, Result, ok, err, ◌>>◌, reject_if, ltb, ◌==◌, if◌then◌else◌, length, any, All, arith,
}
use wattcloud.Common.Bytes.{Bytes, bytes_eq, bytes_eq_iff, max_u64, saturating_add}
use wattcloud.Manifest.{
  ManifestEntry, Manifest, ManifestError, empty_id, nul_in_id, id_too_long, duplicate_id, skewed,
  tombstoned_primary, no_active_primary, multiple_primaries, max_clock_skew_secs, is_active,
  is_active_primary, count, ids,
}

-- `updated_at` too far in the future; `now = u64::MAX` skips the check.
abbrev pub is_skewed : ℕ → ManifestEntry → Bool
is_skewed now e = not (now == max_u64) && ltb (saturating_add now max_clock_skew_secs) e.updated_at

-- The checks on one entry, in the order of the loop's body.
unfoldable pub check_entry : ℕ → List Bytes → ManifestEntry → Result ManifestError (Unit {0})
check_entry now seen e = do
  reject_if (length e.provider_id == 0) (empty_id e.provider_id)
  reject_if (any (λ b. b == 0) e.provider_id) (nul_in_id e.provider_id)
  reject_if (ltb 64 (length e.provider_id)) (id_too_long e.provider_id)
  reject_if (any (bytes_eq e.provider_id) seen) (duplicate_id e.provider_id)
  reject_if (is_skewed now e) (skewed e.provider_id)
  reject_if (e.tombstone && e.is_primary) (tombstoned_primary e.provider_id)

unfoldable pub check_entries : ℕ → List Bytes → List ManifestEntry → Result ManifestError (Unit {0})
check_entries now seen [] = ok tt
check_entries now seen (e ∷ es) = do
  check_entry now seen e
  check_entries now (e.provider_id ∷ seen) es

-- The final `match`.
unfoldable pub check_primary : List ManifestEntry → Result ManifestError (Unit {0})
check_primary es =
    let primary_count = count is_active_primary es in
    let active_count = count is_active es in
    if active_count == 0 && primary_count == 0
    then ok tt
    else if primary_count == 1
    then ok tt
    else if primary_count == 0
    then err no_active_primary
    else err (multiple_primaries primary_count)

-- `validate_manifest`
unfoldable pub validate_manifest : Manifest → ℕ → Result ManifestError (Unit {0})
validate_manifest m now = do check_entries now [] m.providers; check_primary m.providers

abbrev pub NotIn : Bytes → List Bytes → Type 0
NotIn id seen = All (λ other. id ≢ other) seen

-- The ids are pairwise different, and different from those seen before.
abbrev pub Distinct : List Bytes → List Bytes → Type 0
Distinct seen [] = Unit
Distinct seen (id ∷ rest) = NotIn id seen × Distinct (id ∷ seen) rest

pub record IsWellFormed (now : ℕ) (e : ManifestEntry) : Type 0 where
  pub id_not_empty : 0 < length e.provider_id
  pub id_fits : length e.provider_id ≤ 64
  pub id_no_nul : All (λ b. b ≢ 0) e.provider_id
  pub no_skew : is_skewed now e ≡ false
  pub tombstone_not_primary : (e.tombstone && e.is_primary) ≡ false

-- One active entry is primary, or there is no active entry.
abbrev pub HasPrimary : List ManifestEntry → Type 0
HasPrimary es = (count is_active_primary es ≡ 1) ⊎ (count is_active es ≡ 0)

pub record IsValid (m : Manifest) (now : ℕ) : Type 0 where
  pub well_formed : All (IsWellFormed now) m.providers
  pub distinct : Distinct [] (ids m.providers)
  pub primary : HasPrimary m.providers

no_nul_iff : (xs : Bytes) → (any (λ b. b == 0) xs ≡ false) ↔ All (λ b. b ≢ 0) xs
no_nul_iff [] = (λ _. tt, λ _. refl)
no_nul_iff (x ∷ xs) = (
  λ h. (ground (arith, h), (no_nul_iff xs).0 (ground (arith, h))),
  λ (h, hs). ground (arith, h, (no_nul_iff xs).1 hs),
)

pub any-NotIn : (id : Bytes) (seen : List Bytes) → (any (bytes_eq id) seen ≡ false) ↔ NotIn id seen
any-NotIn id [] = (λ _. tt, λ _. refl)
any-NotIn id (x ∷ xs) = (
  λ h. (ground (arith, h, bytes_eq_iff id x), (any-NotIn id xs).0 (ground (arith, h))),
  λ (h, hs). ground (arith, h, bytes_eq_iff id x, (any-NotIn id xs).1 hs),
)

reject_if_iff : (b : Bool) (e : ManifestError) → (reject_if b e ≡ ok tt) ↔ (b ≡ false)
reject_if_iff true e = (λ h. cc, λ h. cc)
reject_if_iff false e = (λ _. refl, λ _. refl)

then_iff :
    (m k : Result ManifestError (Unit {0})) → ((m >> k) ≡ ok tt) ↔ ((m ≡ ok tt) × (k ≡ ok tt))
then_iff (ok tt) k = (λ h. (refl, h), λ (_, h). h)
then_iff (err e) k = (λ h. cc, λ (h, _). cc)

empty_iff : (xs : Bytes) → ((length xs == 0) ≡ false) ↔ (0 < length xs)
empty_iff xs = (λ h. ground arith, λ h. ground arith)

long_iff : (n : ℕ) → (ltb 64 n ≡ false) ↔ (n ≤ 64)
long_iff n = (λ h. ground arith, λ h. ground arith)

check_entry_iff :
    (now : ℕ) (seen : List Bytes) (e : ManifestEntry)
    → (check_entry now seen e ≡ ok tt) ↔ (IsWellFormed now e × NotIn e.provider_id seen)
unfolding check_entry
check_entry_iff now seen e = (
  λ h.
      let (a, h1) = (then_iff (reject_if (length e.provider_id == 0) _) _).0 h in
      let (b, h2) = (then_iff (reject_if (any (λ b. b == 0) e.provider_id) _) _).0 h1 in
      let (c, h3) = (then_iff (reject_if (ltb 64 (length e.provider_id)) _) _).0 h2 in
      let (d, h4) = (then_iff (reject_if (any (bytes_eq e.provider_id) seen) _) _).0 h3 in
      let (f, g) = (then_iff (reject_if (is_skewed now e) _) _).0 h4 in
      (
        record {
          id_not_empty = (empty_iff _).0 ((reject_if_iff _ _).0 a);
          id_fits = (long_iff _).0 ((reject_if_iff _ _).0 c);
          id_no_nul = (no_nul_iff _).0 ((reject_if_iff _ _).0 b);
          no_skew = (reject_if_iff _ _).0 f;
          tombstone_not_primary = (reject_if_iff _ _).0 g;
        },
        (any-NotIn _ _).0 ((reject_if_iff _ _).0 d),
      ),
  λ (w, fresh). rw (
    (empty_iff _).1 w.id_not_empty,
    (no_nul_iff _).1 w.id_no_nul,
    (long_iff _).1 w.id_fits,
    (any-NotIn _ _).1 fresh,
    w.no_skew,
    w.tombstone_not_primary,
    check_entry,
  ),
)

check_entries_iff :
    (now : ℕ) (seen : List Bytes) (es : List ManifestEntry)
    → (check_entries now seen es ≡ ok tt) ↔ (All (IsWellFormed now) es × Distinct seen (ids es))
unfolding check_entries
check_entries_iff now seen [] = (λ _. (tt, tt), λ _. refl)
check_entries_iff now seen (e ∷ es) = (
  λ h.
      let (a, b) = (then_iff (check_entry now seen e) _).0 h in
      let (w, fresh) = (check_entry_iff now seen e).0 a in
      let (ws, others) = (check_entries_iff now (e.provider_id ∷ seen) es).0 b in
      ((w, ws), (fresh, others)),
  λ ((w, ws), (fresh, others)). (then_iff (check_entry now seen e) _).1 (
    (check_entry_iff now seen e).1 (w, fresh),
    (check_entries_iff now (e.provider_id ∷ seen) es).1 (ws, others),
  ),
)

pub primaries-le-active :
    (es : List ManifestEntry) → count is_active_primary es ≤ count is_active es
primaries-le-active [] = omega arith
primaries-le-active (e ∷ es) = ground (arith, primaries-le-active es)

check_primary_iff : (es : List ManifestEntry) → (check_primary es ≡ ok tt) ↔ HasPrimary es
unfolding check_primary
check_primary_iff es = (
  λ h. elim (Bool-cases (count is_active_primary es == 1)) [
    | inl one ↦ inl (ground arith)
    | inr other ↦ elim (Bool-cases (count is_active es == 0)) [
      | inl none ↦ inr (ground arith)
      | inr some ↦ elim (Bool-cases (count is_active_primary es == 0)) [
        | inl zero ↦ cc (rw (other, some, zero, check_primary) at h)
        | inr many ↦ cc (rw (other, some, many, check_primary) at h)
      ]
    ]
  ],
  λ h. elim h [
    | inl one ↦ ground (arith, one)
    | inr none ↦ ground (arith, none, primaries-le-active es)
  ],
)

-- The validation accepts a manifest just when its ids are not empty, free of NUL bytes, at most 64
-- bytes long and pairwise different, no entry is dated more than an hour ahead (unless the check is
-- switched off), no tombstone is primary, and one active entry is primary or none is active.
pub validate_manifest_iff :
    (m : Manifest) (now : ℕ) → (validate_manifest m now ≡ ok tt) ↔ IsValid m now
unfolding validate_manifest
validate_manifest_iff m now = (
  λ h.
      let (a, b) = (then_iff (check_entries now [] m.providers) _).0 h in
      let (ws, fresh) = (check_entries_iff now [] m.providers).0 a in
      record { well_formed = ws; distinct = fresh; primary = (check_primary_iff m.providers).0 b },
  λ v. (then_iff (check_entries now [] m.providers) _).1 (
    (check_entries_iff now [] m.providers).1 (v.well_formed, v.distinct),
    (check_primary_iff m.providers).1 v.primary,
  ),
)
