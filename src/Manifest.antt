-- ===== src/Manifest.antt =====
-- The provider manifest: the data of sdk/sdk-core/src/byo/manifest.rs.
pub mod Validate
pub mod Primary
pub mod Merge
pub mod Mutations
use wattcloud.Common.{
  ℕ, suc, zero, ◌+◌, List, [], ◌∷◌, Bool, true, false, not, ◌&&◌, Option, filter, find, length, map,
  if◌then◌else◌,
}
use wattcloud.Common.Bytes.{Bytes, bytes_eq}

-- `ManifestEntry`: strings are their bytes in UTF-8, but the display name its code points.
pub record ManifestEntry : Type 0 where
  pub provider_id : Bytes
  pub provider_type : Bytes
  pub display_name : List ℕ
  pub config_json : Bytes
  pub is_primary : Bool
  pub sftp_host_key_fingerprint : Option Bytes
  pub vault_version_hint : Option Bytes
  pub created_at : ℕ
  pub updated_at : ℕ
  pub tombstone : Bool

pub record Manifest : Type 0 where
  pub manifest_version : ℕ
  pub providers : List ManifestEntry

-- `ManifestError::InvariantViolated`, with what its message says.
pub data ManifestError : Type 0 where
  no_manifests no_active_primary empty_display_name index_out_of_bounds : ManifestError
  empty_id nul_in_id id_too_long duplicate_id skewed tombstoned_primary : Bytes → ManifestError
  already_exists not_found cannot_tombstone_primary : Bytes → ManifestError
  multiple_primaries rollback : ℕ → ManifestError

abbrev pub max_clock_skew_secs : ℕ
max_clock_skew_secs = 3600

abbrev pub is_active : ManifestEntry → Bool
is_active e = not e.tombstone

abbrev pub is_active_primary : ManifestEntry → Bool
is_active_primary e = not e.tombstone && e.is_primary

-- `active_providers`
abbrev pub active_providers : Manifest → List ManifestEntry
active_providers m = filter is_active m.providers

-- `primary_provider`
abbrev pub primary_provider : Manifest → Option ManifestEntry
primary_provider m = find is_active_primary m.providers

-- `find_entry`
abbrev pub find_entry : Manifest → Bytes → Option ManifestEntry
find_entry m provider_id = find (λ e. bytes_eq e.provider_id provider_id) m.providers

-- `filter(p).count()`
abbrev pub count : (ManifestEntry → Bool) → List ManifestEntry → ℕ
count p [] = 0
count p (e ∷ es) = if p e then 1 + count p es else count p es

abbrev pub ids : List ManifestEntry → List Bytes
ids = map λ e. e.provider_id
