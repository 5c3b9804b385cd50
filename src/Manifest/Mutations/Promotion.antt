-- ===== src/Manifest/Mutations/Promotion.antt =====
-- Promotion and addition: what they do to the primaries and to the ids.
use wattcloud.Common.{
  ℕ, ◌≤◌, ◌≡◌, ◌≢◌, refl, sym, ap, subst, inl, inr, Bool, true, false, not, Bool-cases, List, [],
  ◌∷◌, ◌++◌, ok, reject_if, >>=-eq-ok, ok-injective, map, any, All, arith,
}
use wattcloud.Common.Bytes.{Bytes, bytes_eq, bytes_eq_iff, max_u64}
use wattcloud.Manifest.{ManifestEntry, Manifest, is_active_primary, count, ids}
use wattcloud.Manifest.Validate.{
  IsValid, IsWellFormed, Distinct, NotIn, validate_manifest, validate_manifest_iff,
}
use wattcloud.Manifest.Mutations.{
  is_active_id, promoted, manifest_set_primary_provider, manifest_add_provider,
}
use wattcloud.Manifest.Mutations.Validity.{now-not_skewed, reject_if-ok}

promoted-none :
    (id : Bytes) (now : ℕ) (es : List ManifestEntry)
    → NotIn id (ids es)
    → count is_active_primary (map (promoted id now) es) ≡ 0
promoted-none id now [] h = refl
promoted-none id now (e ∷ es) (h, hs) =
    let other : bytes_eq e.provider_id id ≡ false =
      ground (arith, h, bytes_eq_iff e.provider_id id) in
    ground (arith, other, promoted-none id now es hs)

Distinct-NotIn :
    (id : Bytes) (seen rest : List Bytes)
    → ((other : Bytes) → NotIn other seen → other ≢ id)
    → Distinct seen rest
    → NotIn id rest
Distinct-NotIn id seen [] f h = tt
Distinct-NotIn id seen (x ∷ xs) f (fresh, h) =
    (λ e. f x fresh (sym e), Distinct-NotIn id (x ∷ seen) xs (λ other (_, g). f other g) h)

-- With pairwise different ids, the promotion of an active entry makes just one primary.
promoted-one :
    (id : Bytes) (now : ℕ) (es : List ManifestEntry) (seen : List Bytes)
    → Distinct seen (ids es)
    → any (is_active_id id) es ≡ true
    → count is_active_primary (map (promoted id now) es) ≡ 1
promoted-one id now [] seen d h = cc
promoted-one id now (e ∷ es) seen (fresh, d) h = elim (Bool-cases (is_active_id id e)) [
  | inl found ↦
      let same : e.provider_id ≡ id = ground (arith, found, bytes_eq_iff e.provider_id id) in
      ground (
        arith,
        found,
        promoted-none id now es (
            Distinct-NotIn id (e.provider_id ∷ seen) (ids es)
              (λ other (g, _). subst (λ t. other ≢ t) same g) d),
      )
  | inr other ↦
      ground
        (arith, other, promoted-one id now es (e.provider_id ∷ seen) d (ground (arith, other, h)))
]

promoted-ids :
    (id : Bytes) (now : ℕ) (es : List ManifestEntry) → ids (map (promoted id now) es) ≡ ids es
promoted-ids id now [] = refl
promoted-ids id now (e ∷ es) = elim (Bool-cases (is_active_id id e)) [
  | inl found ↦ rw found (ap (◌∷◌ e.provider_id) (promoted-ids id now es))
  | inr other ↦ rw other (ap (◌∷◌ e.provider_id) (promoted-ids id now es))
]

promoted-IsWellFormed :
    (id : Bytes) (now : ℕ) (es : List ManifestEntry)
    → now ≤ max_u64
    → All (IsWellFormed now) es
    → All (IsWellFormed now) (map (promoted id now) es)
promoted-IsWellFormed id now [] u h = tt
promoted-IsWellFormed id now (e ∷ es) u (w, ws) = (
  elim (Bool-cases (is_active_id id e)) [
    | inl found ↦ rw found (record {
      id_not_empty = w.id_not_empty;
      id_fits = w.id_fits;
      id_no_nul = w.id_no_nul;
      no_skew = now-not_skewed now (record e { is_primary = true; updated_at = now }) u refl;
      tombstone_not_primary = ground (arith, found);
    })
    | inr other ↦ rw other (record {
      id_not_empty = w.id_not_empty;
      id_fits = w.id_fits;
      id_no_nul = w.id_no_nul;
      no_skew = w.no_skew;
      tombstone_not_primary = ground arith;
    })
  ],
  promoted-IsWellFormed id now es u ws,
)

not-false : (b : Bool) → not b ≡ false → b ≡ true
not-false true h = refl
not-false false h = cc

-- `manifest_set_primary_provider`, when it succeeds on a valid manifest, leaves a valid one in which
-- just one active entry is primary.
pub set_primary-IsValid :
    (m m' : Manifest) (id : Bytes) (now : ℕ)
    → now ≤ max_u64
    → IsValid m now
    → manifest_set_primary_provider m id now ≡ ok m'
    → IsValid m' now × (count is_active_primary m'.providers ≡ 1)
unfolding manifest_set_primary_provider
set_primary-IsValid m m' id now u valid h =
    let (_, a, b) = >>=-eq-ok (reject_if (not (any (is_active_id id) m.providers)) _) _ h in
    let one =
      promoted-one id now m.providers [] valid.distinct (not-false _ (reject_if-ok _ _ a)) in
    let result = ok-injective b in
    (
      subst (λ t. IsValid t now) result
          (record {
            well_formed = promoted-IsWellFormed id now m.providers u valid.well_formed;
            distinct = subst (Distinct []) (sym (promoted-ids id now m.providers)) valid.distinct;
            primary = inl one;
          }),
      subst (λ (t : Manifest). count is_active_primary t.providers ≡ 1) result one,
    )

Distinct-last :
    (seen : List Bytes) (es : List ManifestEntry) (e : ManifestEntry)
    → Distinct seen (ids (es ++ (e ∷ [])))
    → any (λ p. bytes_eq p.provider_id e.provider_id) es ≡ false
Distinct-last seen [] e h = refl
Distinct-last seen (x ∷ xs) e (fresh, h) =
    let apart = behind xs (
      Distinct-NotIn x.provider_id (x.provider_id ∷ seen) (ids (xs ++ (e ∷ []))) (λ other (g, _). g)
        h) in
    ground (
      arith,
      bytes_eq_iff x.provider_id e.provider_id,
      apart,
      Distinct-last (x.provider_id ∷ seen) xs e h,
    )
  where
    behind :
        (ys : List ManifestEntry)
        → NotIn x.provider_id (ids (ys ++ (e ∷ [])))
        → x.provider_id ≢ e.provider_id
    behind [] (g, _) = g
    behind (y ∷ ys) (_, g) = behind ys g

-- `manifest_add_provider` looks for the id among the active entries only. Where a tombstone has the
-- id of the new entry, and no active entry has, the call succeeds, and the manifest that it leaves
-- fails the validation at any time.
pub add-tombstoned :
    (m : Manifest) (e : ManifestEntry) (now : ℕ)
    → any (is_active_id e.provider_id) m.providers ≡ false
    → any (λ p. bytes_eq p.provider_id e.provider_id) m.providers ≡ true
    → (m' : Manifest) × (manifest_add_provider m e ≡ ok m') × (validate_manifest m' now ≢ ok tt)
unfolding manifest_add_provider
add-tombstoned m e now free taken =
    let m' : Manifest = record m { providers = m.providers ++ (e ∷ []) } in
    (
      m',
      rw free,
      λ h.
          let valid = (validate_manifest_iff m' now).0 h in
          cc (Distinct-last [] m.providers e valid.distinct),
    )
