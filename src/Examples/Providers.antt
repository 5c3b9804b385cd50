-- ===== src/Examples/Providers.antt =====
-- Manifests with a primary and a second provider.
use wattcloud.Common.{
  ℕ, ◌≡◌, ◌≢◌, ◌↔◌, refl, Bool, true, false, none, some, List, [], ◌∷◌, ok, any, arith,
}
use wattcloud.Common.Bytes.{bytes_eq, codes}
use wattcloud.Common.Maps.{get, insert}
use wattcloud.Manifest.{ManifestEntry, Manifest, count, is_active_primary}
use wattcloud.Manifest.Validate.{
  IsValid, validate_manifest, validate_manifest_iff, check_entries, check_entry, check_primary,
}
use wattcloud.Manifest.Primary.{enforce_primary_uniqueness, designate}
use wattcloud.Manifest.Primary.Unique.{Enforced, enforce_lem}
use wattcloud.Manifest.Merge.{merge_manifests, merge_some, offer, offer_entries, offer_manifests}
use wattcloud.Manifest.Merge.Winners.{Merged, merge_manifests_lem}
use wattcloud.Manifest.Mutations.{
  is_active_id, manifest_add_provider, manifest_rename_provider, manifest_set_primary_provider,
  manifest_update_provider_config, manifest_tombstone_provider,
}
use wattcloud.Manifest.Mutations.Edits.{
  Edit, rename_edit, configure_edit, tombstone_edit, set_primary_edit, edit, edits, edits-IsValid,
}
use wattcloud.Manifest.Mutations.Promotion.{set_primary-IsValid, add-tombstoned}

abbrev entry : ℕ → Bool → ℕ → Bool → ManifestEntry
entry id is_primary updated_at tombstone = record {
  provider_id = id ∷ [];
  provider_type = codes "s3";
  display_name = id ∷ [];
  config_json = [];
  is_primary = is_primary;
  sftp_host_key_fingerprint = none;
  vault_version_hint = none;
  created_at = 1;
  updated_at = updated_at;
  tombstone = tombstone;
}

abbrev two : Manifest
two = record {
  manifest_version = 4;
  providers = entry 97 true 10 false ∷ entry 98 false 10 false ∷ [];
}

two-accepted : validate_manifest two 20 ≡ ok tt
unfolding validate_manifest check_entries check_entry check_primary bytes_eq
two-accepted = refl

two-IsValid : IsValid two 20
two-IsValid = (validate_manifest_iff two 20).0 two-accepted

validate_manifest_iff_example : (validate_manifest two 20 ≡ ok tt) ↔ IsValid two 20
validate_manifest_iff_example = validate_manifest_iff two 20

enforce_lem_example : Enforced (entry 97 true 10 false ∷ entry 98 true 12 false ∷ [])
enforce_lem_example = enforce_lem (entry 97 true 10 false ∷ entry 98 true 12 false ∷ [])

-- The second provider is renamed and configured, becomes the primary, and the first is removed.
abbrev four_edits : List (ℕ × Edit)
four_edits =
    (20, rename_edit (98 ∷ []) (32 ∷ 120 ∷ 32 ∷ []))
    ∷ (21, configure_edit (98 ∷ []) (123 ∷ 125 ∷ []))
    ∷ (22, set_primary_edit (98 ∷ []))
    ∷ (25, tombstone_edit (97 ∷ []))
    ∷ []

abbrev edited_two : Manifest
edited_two = record two {
  providers =
      entry 97 false 25 true
      ∷ record (entry 98 true 22 false) { display_name = 120 ∷ []; config_json = 123 ∷ 125 ∷ [] }
      ∷ [];
}

edited : edits four_edits two ≡ ok edited_two
unfolding edits edit manifest_rename_provider manifest_update_provider_config
    manifest_set_primary_provider manifest_tombstone_provider bytes_eq
edited = refl

edits-IsValid_example : IsValid edited_two 25
edits-IsValid_example =
    edits-IsValid 20 four_edits two edited_two
      (omega arith, (omega arith, (omega arith, (omega arith, omega arith)))) two-IsValid edited

abbrev buried_two : Manifest
buried_two = record two { providers = entry 97 true 10 false ∷ entry 98 false 20 true ∷ [] }

abbrev promoted_two : Manifest
promoted_two = record two { providers = entry 97 false 10 false ∷ entry 98 true 20 false ∷ [] }

promoted : manifest_set_primary_provider two (98 ∷ []) 20 ≡ ok promoted_two
unfolding manifest_set_primary_provider bytes_eq
promoted = refl

set_primary-IsValid_example :
    IsValid promoted_two 20 × (count is_active_primary promoted_two.providers ≡ 1)
set_primary-IsValid_example =
    set_primary-IsValid two promoted_two (98 ∷ []) 20 (omega arith) two-IsValid promoted

free : any (is_active_id (98 ∷ [])) buried_two.providers ≡ false
unfolding bytes_eq
free = refl

taken : any (λ p. bytes_eq p.provider_id (98 ∷ [])) buried_two.providers ≡ true
unfolding bytes_eq
taken = refl

-- The provider that was removed is added again.
add-tombstoned_example :
    (m' : Manifest) × (manifest_add_provider buried_two (entry 98 false 30 false) ≡ ok m')
    × (validate_manifest m' 40 ≢ ok tt)
add-tombstoned_example = add-tombstoned buried_two (entry 98 false 30 false) 40 free taken

abbrev merged_two : Manifest
merged_two = record {
  manifest_version = 5;
  providers = entry 97 true 10 false ∷ entry 98 false 20 true ∷ [];
}

merged : merge_manifests (two ∷ buried_two ∷ []) 20 (some 5) ≡ ok merged_two
unfolding merge_manifests merge_some offer_manifests offer_entries offer get insert
    enforce_primary_uniqueness designate validate_manifest check_entries check_entry check_primary
    bytes_eq
merged = refl

merge_manifests_lem_example : Merged (two ∷ buried_two ∷ []) 20 (some 5) merged_two
merge_manifests_lem_example =
    merge_manifests_lem (two ∷ buried_two ∷ []) 20 (some 5) merged_two merged
