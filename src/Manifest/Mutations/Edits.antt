-- ===== src/Manifest/Mutations/Edits.antt =====
-- A session's edits of the providers in sdk/sdk-core/src/byo/manifest.rs, one after the other.
use wattcloud.Common.{
  ℕ, ◌≤◌, ◌≡◌, false, subst, List, [], ◌∷◌, All-weaken, arith, Result, ok, ◌>>=◌, >>=-eq-ok,
  ok-injective,
}
use wattcloud.Common.Bytes.{Bytes, max_u64}
use wattcloud.Manifest.{Manifest, ManifestEntry, ManifestError}
use wattcloud.Manifest.Validate.{IsValid, IsWellFormed, is_skewed}
use wattcloud.Manifest.Mutations.{
  manifest_rename_provider, manifest_set_primary_provider, manifest_update_provider_config,
  manifest_tombstone_provider,
}
use wattcloud.Manifest.Mutations.Validity.{rename-IsValid, configure-IsValid, tombstone-IsValid}
use wattcloud.Manifest.Mutations.Promotion.{set_primary-IsValid}

pub data Edit : Type 0 where
  rename_edit : Bytes → List ℕ → Edit
  configure_edit : Bytes → Bytes → Edit
  tombstone_edit set_primary_edit : Bytes → Edit

unfoldable pub edit : ℕ → Edit → Manifest → Result ManifestError Manifest
edit now (rename_edit id name) m = manifest_rename_provider m id name now
edit now (configure_edit id config) m = manifest_update_provider_config m id config now
edit now (tombstone_edit id) m = manifest_tombstone_provider m id now
edit now (set_primary_edit id) m = manifest_set_primary_provider m id now

-- Each edit at its time.
unfoldable pub edits : List (ℕ × Edit) → Manifest → Result ManifestError Manifest
edits [] m = ok m
edits ((now, e) ∷ es) m = do next ← edit now e m; edits es next

-- The times do not go back, and fit 64 bits.
abbrev pub InOrder : ℕ → List (ℕ × Edit) → Type 0
InOrder start [] = start ≤ max_u64
InOrder start ((now, e) ∷ es) = (start ≤ now) × InOrder now es

abbrev pub last_time : ℕ → List (ℕ × Edit) → ℕ
last_time start [] = start
last_time start ((now, e) ∷ es) = last_time now es

InOrder-fits : (start : ℕ) (es : List (ℕ × Edit)) → InOrder start es → start ≤ max_u64
InOrder-fits start [] h = h
InOrder-fits start ((now, e) ∷ es) (a, h) = omega (arith, a, InOrder-fits now es h)

not_yet_skewed :
    (start now : ℕ) (e : ManifestEntry)
    → start ≤ now
    → now ≤ max_u64
    → is_skewed start e ≡ false
    → is_skewed now e ≡ false
not_yet_skewed start now e later fits h = ground (arith, h, later, fits)

later-IsWellFormed :
    (start now : ℕ)
    → start ≤ now
    → now ≤ max_u64
    → (e : ManifestEntry) → IsWellFormed start e
    → IsWellFormed now e
later-IsWellFormed start now later fits e w = record {
  id_not_empty = w.id_not_empty;
  id_fits = w.id_fits;
  id_no_nul = w.id_no_nul;
  no_skew = not_yet_skewed start now e later fits w.no_skew;
  tombstone_not_primary = w.tombstone_not_primary;
}

-- A manifest that is valid stays so.
later-IsValid :
    (start now : ℕ) (m : Manifest) → start ≤ now → now ≤ max_u64 → IsValid m start → IsValid m now
later-IsValid start now m later fits v = record {
  well_formed = All-weaken (later-IsWellFormed start now later fits) m.providers v.well_formed;
  distinct = v.distinct;
  primary = v.primary;
}

edit-IsValid :
    (now : ℕ) (e : Edit) (m m' : Manifest)
    → now ≤ max_u64
    → IsValid m now
    → edit now e m ≡ ok m'
    → IsValid m' now
unfolding edit
edit-IsValid now (rename_edit id name) m m' u v h = rename-IsValid m m' id name now u v h
edit-IsValid now (configure_edit id config) m m' u v h = configure-IsValid m m' id config now u v h
edit-IsValid now (tombstone_edit id) m m' u v h = tombstone-IsValid m m' id now u v h
edit-IsValid now (set_primary_edit id) m m' u v h = (set_primary-IsValid m m' id now u v h).0

-- Any sequence of renamings, changes of configurations, removals and changes of the primary that all
-- succeed, at times that do not go back and fit 64 bits, takes a manifest that is valid at the start
-- to one that is valid at the time of the last edit.
pub edits-IsValid :
    (start : ℕ) (es : List (ℕ × Edit)) (m m' : Manifest)
    → InOrder start es
    → IsValid m start
    → edits es m ≡ ok m'
    → IsValid m' (last_time start es)
unfolding edits
edits-IsValid start [] m m' o v h = subst (λ t. IsValid t start) (ok-injective h) v
edits-IsValid start ((now, e) ∷ es) m m' (later, o) v h =
    let (next, a, b) = >>=-eq-ok (edit now e m) _ h in
    let fits = InOrder-fits now es o in
    edits-IsValid now es next m' o
      (edit-IsValid now e m next fits (later-IsValid start now m later fits v) a) b
