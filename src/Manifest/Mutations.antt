-- ===== src/Manifest/Mutations.antt =====
-- The mutation helpers of sdk/sdk-core/src/byo/manifest.rs. They change the manifest only when they
-- return `Ok`, so each returns the changed manifest.
pub mod Validity
pub mod Promotion
pub mod Edits
use wattcloud.Common.{
  ℕ, ◌+◌, Bool, true, false, not, ◌&&◌, ◌||◌, Option, none, some, List, [], ◌∷◌, ◌++◌, Result, ok,
  err, ◌>>=◌, ◌>>◌, reject_if, ltb, leb, ◌==◌, if◌then◌else◌, map, any,
}
use wattcloud.Common.Bytes.{Bytes, bytes_eq}
use wattcloud.Manifest.{
  ManifestEntry, Manifest, ManifestError, already_exists, not_found, cannot_tombstone_primary,
  empty_display_name,
}

abbrev pub is_active_id : Bytes → ManifestEntry → Bool
is_active_id id e = bytes_eq e.provider_id id && not e.tombstone

-- `iter_mut().find(|p| p.provider_id == id && !p.tombstone).ok_or(..)`, and the edit behind it.
abbrev pub update_active :
    Bytes
    → (ManifestEntry → ManifestEntry)
    → List ManifestEntry
    → Result ManifestError (List ManifestEntry)
update_active id f [] = err (not_found id)
update_active id f (e ∷ es) =
    if is_active_id id e then ok (f e ∷ es) else (update_active id f es >>= λ es'. ok (e ∷ es'))

-- `char::is_whitespace`: Unicode's White_Space.
abbrev pub is_whitespace : ℕ → Bool
is_whitespace ch =
    (leb 9 ch && leb ch 13)
    || (ch == 32)
    || (ch == 133)
    || (ch == 160)
    || (ch == 5760)
    || (leb 8192 ch && leb ch 8202)
    || (ch == 8232)
    || (ch == 8233)
    || (ch == 8239)
    || (ch == 8287)
    || (ch == 12288)

abbrev pub trim_start : List ℕ → List ℕ
trim_start [] = []
trim_start (ch ∷ chs) = if is_whitespace ch then trim_start chs else ch ∷ chs

abbrev pub trim_end : List ℕ → List ℕ
trim_end [] = []
trim_end (ch ∷ chs) = elim (trim_end chs) [
  | [] ↦ if is_whitespace ch then [] else ch ∷ []
  | d ∷ ds ↦ ch ∷ d ∷ ds
]

abbrev pub trim : List ℕ → List ℕ
trim s = trim_end (trim_start s)

abbrev pub is_empty : List ℕ → Bool
is_empty [] = true
is_empty (ch ∷ chs) = false

-- `manifest_add_provider`
unfoldable pub manifest_add_provider : Manifest → ManifestEntry → Result ManifestError Manifest
manifest_add_provider m e = do
  reject_if (any (is_active_id e.provider_id) m.providers) (already_exists e.provider_id)
  ok (record m { providers = m.providers ++ (e ∷ []) })

-- `manifest_rename_provider`
abbrev pub renamed : List ℕ → ℕ → ManifestEntry → ManifestEntry
renamed name now e = record e { display_name = name; updated_at = now }

unfoldable pub manifest_rename_provider :
    Manifest → Bytes → List ℕ → ℕ → Result ManifestError Manifest
manifest_rename_provider m id new_name now = do
  reject_if (is_empty (trim new_name)) empty_display_name
  es ← update_active id (renamed (trim new_name) now) m.providers
  ok (record m { providers = es })

-- `manifest_set_primary_provider`
abbrev pub promoted : Bytes → ℕ → ManifestEntry → ManifestEntry
promoted id now e =
    if is_active_id id e
    then record e { is_primary = true; updated_at = now }
    else record e { is_primary = false }

unfoldable pub manifest_set_primary_provider : Manifest → Bytes → ℕ → Result ManifestError Manifest
manifest_set_primary_provider m id now = do
  reject_if (not (any (is_active_id id) m.providers)) (not_found id)
  ok (record m { providers = map (promoted id now) m.providers })

-- `manifest_update_provider_config`
abbrev pub reconfigured : Bytes → ℕ → ManifestEntry → ManifestEntry
reconfigured config now e = record e { config_json = config; updated_at = now }

unfoldable pub manifest_update_provider_config :
    Manifest → Bytes → Bytes → ℕ → Result ManifestError Manifest
manifest_update_provider_config m id new_config_json now = do
  es ← update_active id (reconfigured new_config_json now) m.providers
  ok (record m { providers = es })

-- `manifest_tombstone_provider`
abbrev pub buried : ℕ → ManifestEntry → ManifestEntry
buried now e = record e { tombstone = true; is_primary = false; updated_at = now }

unfoldable pub manifest_tombstone_provider : Manifest → Bytes → ℕ → Result ManifestError Manifest
manifest_tombstone_provider m id now = do
  reject_if (any (λ e. bytes_eq e.provider_id id && e.is_primary) m.providers)
      (cannot_tombstone_primary id)
  es ← update_active id (buried now) m.providers
  ok (record m { providers = es })
