-- ===== src/Manifest/Mutations/Validity.antt =====
-- The mutation helpers keep a valid manifest valid.
use wattcloud.Common.{
  ℕ, ◌+◌, ◌≤◌, ◌<◌, ◌≡◌, refl, sym, ap, subst, ◌∙◌, inl, inr, Bool, true, false, not, ◌&&◌,
  Bool-cases, List, [], ◌∷◌, ◌++◌, ok, reject_if, >>=-eq-ok, ok-injective, if◌then◌else◌, any, All,
  arith,
}
use wattcloud.Common.Bytes.{Bytes, bytes_eq, bytes_eq_iff, max_u64}
use wattcloud.Manifest.{
  ManifestEntry, Manifest, ManifestError, is_active, is_active_primary, count, ids,
}
use wattcloud.Manifest.Validate.{IsValid, IsWellFormed, Distinct, is_skewed}
use wattcloud.Manifest.Mutations.{
  is_active_id, update_active, trim, is_empty, renamed, reconfigured, buried,
  manifest_rename_provider, manifest_update_provider_config, manifest_tombstone_provider,
}

-- A time of now is never skewed.
pub now-not_skewed :
    (now : ℕ) (e : ManifestEntry) → now ≤ max_u64 → e.updated_at ≡ now → is_skewed now e ≡ false
now-not_skewed now e u h = ground (arith, h)

-- The entry that `update_active` edits, with what stands before and behind it.
record Edited (id : Bytes) (f : ManifestEntry → ManifestEntry) (es es' : List ManifestEntry)
    : Type 0 where
  before : List ManifestEntry
  entry : ManifestEntry
  behind : List ManifestEntry
  was : es ≡ before ++ (entry ∷ behind)
  now : es' ≡ before ++ (f entry ∷ behind)
  active : entry.tombstone ≡ false
  named : entry.provider_id ≡ id

edited :
    (id : Bytes) (f : ManifestEntry → ManifestEntry) (es es' : List ManifestEntry)
    → update_active id f es ≡ ok es'
    → Edited id f es es'
edited id f [] es' h = cc
edited id f (e ∷ es) es' h = elim (Bool-cases (is_active_id id e)) [
  | inl found ↦ record {
    before = [];
    entry = e;
    behind = es;
    was = refl;
    now = sym (ok-injective (rw found at h));
    active = ground (arith, found);
    named = ground (arith, found, bytes_eq_iff e.provider_id id);
  }
  | inr other ↦
      let (rest, a, b) = >>=-eq-ok (update_active id f es) _ (rw other at h) in
      let r = edited id f es rest a in
      record {
        before = e ∷ r.before;
        entry = r.entry;
        behind = r.behind;
        was = ap (◌∷◌ e) r.was;
        now = sym (ok-injective b) ∙ ap (◌∷◌ e) r.now;
        active = r.active;
        named = r.named;
      }
]

count-replace :
    (p : ManifestEntry → Bool) (xs ys : List ManifestEntry) (x y : ManifestEntry)
    → p x ≡ p y
    → count p (xs ++ (x ∷ ys)) ≡ count p (xs ++ (y ∷ ys))
count-replace p [] ys x y h = ap (λ b. if b then 1 + count p ys else count p ys) h
count-replace p (z ∷ zs) ys x y h = ap (λ n. if p z then 1 + n else n) (count-replace p zs ys x y h)

count-positive :
    (p : ManifestEntry → Bool) (xs ys : List ManifestEntry) (x : ManifestEntry)
    → p x ≡ true
    → 0 < count p (xs ++ (x ∷ ys))
count-positive p [] ys x h = ground (arith, h)
count-positive p (z ∷ zs) ys x h = ground (arith, count-positive p zs ys x h)

ids-append : (xs ys us : List ManifestEntry) → ids ys ≡ ids us → ids (xs ++ ys) ≡ ids (xs ++ us)
ids-append [] ys us h = h
ids-append (x ∷ xs) ys us h = ap (◌∷◌ x.provider_id) (ids-append xs ys us h)

All-replace :
    {now : ℕ} (xs ys : List ManifestEntry) (x y : ManifestEntry)
    → (IsWellFormed now x → IsWellFormed now y)
    → All (IsWellFormed now) (xs ++ (x ∷ ys))
    → All (IsWellFormed now) (xs ++ (y ∷ ys))
All-replace [] ys x y f (h, hs) = (f h, hs)
All-replace (z ∷ zs) ys x y f (h, hs) = (h, All-replace zs ys x y f hs)

-- Editing one active entry keeps a valid manifest valid, if the edit keeps the id, dates the entry
-- to now, leaves no tombstone primary, and changes neither count or buries a non-primary entry.
replace-IsValid :
    (now v : ℕ) (id : Bytes) (f : ManifestEntry → ManifestEntry) (es es' : List ManifestEntry)
    (r : Edited id f es es')
    → (f r.entry).provider_id ≡ r.entry.provider_id
    → is_skewed now (f r.entry) ≡ false
    → ((f r.entry).tombstone && (f r.entry).is_primary) ≡ false
    → is_active_primary (f r.entry) ≡ is_active_primary r.entry
    → IsValid (record { manifest_version = v; providers = es }) now
    → IsValid (record { manifest_version = v; providers = es' }) now
replace-IsValid now v id f es es' r same fresh tomb prim valid = record {
  well_formed = subst (All (IsWellFormed now)) (sym r.now) (
      All-replace r.before r.behind r.entry (f r.entry)
        (λ w. record {
          id_not_empty = rw same w.id_not_empty;
          id_fits = rw same w.id_fits;
          id_no_nul = rw same w.id_no_nul;
          no_skew = fresh;
          tombstone_not_primary = tomb;
        })
        (subst (All (IsWellFormed now)) r.was valid.well_formed));
  distinct =
      subst (Distinct [])
        (ap ids r.was
          ∙ ids-append r.before (r.entry ∷ r.behind) (f r.entry ∷ r.behind)
              (ap (λ i. i ∷ ids r.behind) (sym same))
          ∙ sym (ap ids r.now))
        valid.distinct;
  primary = elim valid.primary [
    | inl one ↦ inl (
        ap (count is_active_primary) r.now
        ∙ count-replace is_active_primary r.before r.behind (f r.entry) r.entry prim
        ∙ sym (ap (count is_active_primary) r.was)
        ∙ one)
    | inr none ↦ absurd (
        omega (
          arith,
          none,
          ap (count is_active) r.was,
          count-positive is_active r.before r.behind r.entry (ap not r.active),
        ))
  ];
}

-- `manifest_rename_provider`, when it succeeds on a valid manifest, leaves one that is valid at the
-- time that it is given.
pub rename-IsValid :
    (m m' : Manifest) (id : Bytes) (name : List ℕ) (now : ℕ)
    → now ≤ max_u64
    → IsValid m now
    → manifest_rename_provider m id name now ≡ ok m'
    → IsValid m' now
unfolding manifest_rename_provider
rename-IsValid m m' id name now u valid h =
    let (_, _, h1) = >>=-eq-ok (reject_if (is_empty (trim name)) _) _ h in
    let (es, a, b) = >>=-eq-ok (update_active id (renamed (trim name) now) m.providers) _ h1 in
    let r = edited id _ m.providers es a in
    subst (λ t. IsValid t now) (ok-injective b)
      (replace-IsValid now m.manifest_version id (renamed (trim name) now) m.providers es r refl
        (now-not_skewed now (renamed (trim name) now r.entry) u refl)
        (ap (λ b. b && r.entry.is_primary) r.active) refl valid)

-- `manifest_update_provider_config`, when it succeeds on a valid manifest, leaves one that is valid at
-- the time that it is given.
pub configure-IsValid :
    (m m' : Manifest) (id config : Bytes) (now : ℕ)
    → now ≤ max_u64
    → IsValid m now
    → manifest_update_provider_config m id config now ≡ ok m'
    → IsValid m' now
unfolding manifest_update_provider_config
configure-IsValid m m' id config now u valid h =
    let (es, a, b) = >>=-eq-ok (update_active id (reconfigured config now) m.providers) _ h in
    let r = edited id _ m.providers es a in
    subst (λ t. IsValid t now) (ok-injective b)
      (replace-IsValid now m.manifest_version id (reconfigured config now) m.providers es r refl
        (now-not_skewed now (reconfigured config now r.entry) u refl)
        (ap (λ b. b && r.entry.is_primary) r.active) refl valid)

any-middle :
    (p : ManifestEntry → Bool) (xs ys : List ManifestEntry) (x : ManifestEntry)
    → any p (xs ++ (x ∷ ys)) ≡ false
    → p x ≡ false
any-middle p [] ys x h = ground (arith, h)
any-middle p (z ∷ zs) ys x h = any-middle p zs ys x (ground (arith, h))

pub reject_if-ok : {a : Unit {0}} (b : Bool) (e : ManifestError) → reject_if b e ≡ ok a → b ≡ false
reject_if-ok true e h = cc
reject_if-ok false e h = refl

-- `manifest_tombstone_provider`, when it succeeds on a valid manifest, leaves one that is valid at the
-- time that it is given.
pub tombstone-IsValid :
    (m m' : Manifest) (id : Bytes) (now : ℕ)
    → now ≤ max_u64
    → IsValid m now
    → manifest_tombstone_provider m id now ≡ ok m'
    → IsValid m' now
unfolding manifest_tombstone_provider
tombstone-IsValid m m' id now u valid h =
    let (_, c, h1) =
      >>=-eq-ok (reject_if (any (λ e. bytes_eq e.provider_id id && e.is_primary) m.providers) _) _
        h in
    let (es, a, b) = >>=-eq-ok (update_active id (buried now) m.providers) _ h1 in
    let r = edited id _ m.providers es a in
    let guard =
      any-middle (λ e. bytes_eq e.provider_id id && e.is_primary) r.before r.behind r.entry
        (ap (any λ e. bytes_eq e.provider_id id && e.is_primary) (sym r.was)
          ∙ reject_if-ok _ _ c) in
    subst (λ t. IsValid t now) (ok-injective b)
      (replace-IsValid now m.manifest_version id (buried now) m.providers es r refl
        (now-not_skewed now (buried now r.entry) u refl) refl
        (ground (arith, guard, r.active, (bytes_eq_iff r.entry.provider_id id).1 r.named)) valid)
