-- ===== src/Manifest/Merge.antt =====
-- `merge_manifests` of sdk/sdk-core/src/byo/manifest.rs. The hash map is an association list in the
-- order of insertion; the source's order of `into_values` is any.
pub mod Winners
use wattcloud.Common.{
  ℕ, ◌+◌, max, Bool, true, false, not, ◌&&◌, Option, none, some, List, [], ◌∷◌, Result, ok, err,
  ◌>>=◌, ◌>>◌, reject_if, ltb, ◌==◌, if◌then◌else◌, map,
}
use wattcloud.Common.Bytes.{Bytes, max_u64, saturating_add, bytes_eq_inst}
use wattcloud.Common.Maps.{get, insert}
use wattcloud.Manifest.{ManifestEntry, Manifest, ManifestError, no_manifests, skewed, rollback}
use wattcloud.Manifest.Validate.{is_skewed, validate_manifest}
use wattcloud.Manifest.Primary.{enforce_primary_uniqueness}

-- `entry_is_better`
abbrev pub entry_is_better : ManifestEntry → ManifestEntry → Bool
entry_is_better candidate current =
    if ltb current.updated_at candidate.updated_at
    then true
    else candidate.updated_at == current.updated_at
      && (candidate.tombstone && not current.tombstone)

-- `entry(..).or_insert_with(..)` and the replacement of a worse winner.
unfoldable pub offer : ManifestEntry → List (Bytes × ManifestEntry) → List (Bytes × ManifestEntry)
offer e by_id = elim (get e.provider_id by_id) [
  | none ↦ insert e.provider_id e by_id
  | some winner ↦ if entry_is_better e winner then insert e.provider_id e by_id else by_id
]

-- The body of the loop over a manifest's entries, and the loop over the manifests.
unfoldable pub offer_entries :
    ℕ
    → List ManifestEntry
    → List (Bytes × ManifestEntry)
    → Result ManifestError (List (Bytes × ManifestEntry))
offer_entries now [] by_id = ok by_id
offer_entries now (e ∷ es) by_id = do
  reject_if (is_skewed now e) (skewed e.provider_id)
  offer_entries now es (offer e by_id)

unfoldable pub offer_manifests :
    ℕ
    → List Manifest
    → List (Bytes × ManifestEntry)
    → Result ManifestError (List (Bytes × ManifestEntry))
offer_manifests now [] by_id = ok by_id
offer_manifests now (m ∷ ms) by_id = do
  by_id' ← offer_entries now m.providers by_id
  offer_manifests now ms by_id'

abbrev pub max_version : List Manifest → ℕ
max_version [] = 0
max_version (m ∷ ms) = max m.manifest_version (max_version ms)

abbrev pub is_rollback : Option ℕ → ℕ → Bool
is_rollback none version = false
is_rollback (some floor) version = ltb version floor

abbrev pub into_values : List (Bytes × ManifestEntry) → List ManifestEntry
into_values = map λ kv. kv.1

-- `merge_manifests`, past the check for no input.
unfoldable pub merge_some : List Manifest → ℕ → Option ℕ → Result ManifestError Manifest
merge_some ms now floor = do
  by_id ← offer_manifests now ms []
  providers ← enforce_primary_uniqueness (into_values by_id)
  reject_if (is_rollback floor (saturating_add (max_version ms) 1))
      (rollback (saturating_add (max_version ms) 1))
  validate_manifest
      (record { manifest_version = saturating_add (max_version ms) 1; providers = providers }) now
  ok (record { manifest_version = saturating_add (max_version ms) 1; providers = providers })

unfoldable pub merge_manifests : List Manifest → ℕ → Option ℕ → Result ManifestError Manifest
merge_manifests [] now floor = err no_manifests
merge_manifests (m ∷ ms) now floor = merge_some (m ∷ ms) now floor
