-- ===== src/Manifest/Primary.antt =====
-- `enforce_primary_uniqueness` of sdk/sdk-core/src/byo/manifest.rs. Entries are edited by index, as
-- there; an index out of range is the error that the source names.
pub mod Unique
use wattcloud.Common.{
  ℕ, zero, suc, ◌+◌, Bool, true, false, ◌&&◌, Option, none, some, List, [], ◌∷◌, Result, ok, err,
  ◌>>=◌, ok_or, ltb, ◌==◌, if◌then◌else◌, map, length, get_elem?,
}
use wattcloud.Common.Bytes.{Bytes, bytes_lt}
use wattcloud.Manifest.{
  ManifestEntry, Manifest, ManifestError, index_out_of_bounds, is_active, is_active_primary,
}

-- `iter().enumerate().filter(p).map(|(i, _)| i)`
abbrev pub indices : (ManifestEntry → Bool) → List ManifestEntry → List ℕ
indices p [] = []
indices p (e ∷ es) = if p e then 0 ∷ map suc (indices p es) else map suc (indices p es)

-- `get_mut(idx).ok_or_else(..)?.is_primary = b`
abbrev pub set_is_primary : Bool → ManifestEntry → ManifestEntry
set_is_primary b e = record e { is_primary = b }

abbrev pub set_at : Bool → ℕ → List ManifestEntry → Result ManifestError (List ManifestEntry)
set_at b i [] = err index_out_of_bounds
set_at b zero (e ∷ es) = ok (set_is_primary b e ∷ es)
set_at b (suc i) (e ∷ es) = do es' ← set_at b i es; ok (e ∷ es')

abbrev pub clear_each : List ℕ → List ManifestEntry → Result ManifestError (List ManifestEntry)
clear_each [] es = ok es
clear_each (i ∷ is) es = do es' ← set_at false i es; clear_each is es'

-- `updated_at` and `provider_id` of an index, with the defaults of `unwrap_or`.
abbrev pub updated_key : List ManifestEntry → ℕ → ℕ × Bytes
updated_key es i = elim (get_elem? es i) [ none ↦ (0, []) | some e ↦ (e.updated_at, e.provider_id) ]

abbrev pub created_key : List ManifestEntry → ℕ → ℕ × Bytes
created_key es i = elim (get_elem? es i) [ none ↦ (0, []) | some e ↦ (e.created_at, e.provider_id) ]

abbrev pub key_lt : ℕ × Bytes → ℕ × Bytes → Bool
key_lt (a, p) (b, q) = if ltb a b then true else a == b && bytes_lt p q

-- `max_by`, which keeps the last of equals, and `min_by`, which keeps the first.
abbrev pub max_by : (ℕ → ℕ × Bytes) → ℕ → List ℕ → ℕ
max_by key best [] = best
max_by key best (i ∷ is) = max_by key (if key_lt (key i) (key best) then best else i) is

abbrev pub min_by : (ℕ → ℕ × Bytes) → ℕ → List ℕ → ℕ
min_by key best [] = best
min_by key best (i ∷ is) = min_by key (if key_lt (key i) (key best) then i else best) is

-- No primary: the oldest active entry becomes it, if there is one.
unfoldable pub designate : List ManifestEntry → Result ManifestError (List ManifestEntry)
designate es = elim (indices is_active es) [
  | [] ↦ ok es
  | i ∷ is ↦ set_at true (min_by (created_key es) i is) es
]

-- `enforce_primary_uniqueness`
unfoldable pub enforce_primary_uniqueness :
    List ManifestEntry → Result ManifestError (List ManifestEntry)
enforce_primary_uniqueness es = elim (indices is_active_primary es) [
  | [] ↦ designate es
  | i ∷ [] ↦ ok es
  | i ∷ j ∷ is ↦ clear_each (i ∷ j ∷ is) es >>= set_at true (max_by (updated_key es) i (j ∷ is))
]
