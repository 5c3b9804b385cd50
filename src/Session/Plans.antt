-- ===== src/Session/Plans.antt =====
-- sdk/sdk-core/src/byo/multi_vault.rs: the plans for unlocking and for saving.
use wattcloud.Common.{
  ◌≡◌, refl, ap, not, ◌&&◌, ◌||◌, inl, inr, Bool, Bool-cases, true, false, List, [], ◌∷◌, map,
  filter, any, if◌then◌else◌,
}
use wattcloud.Common.Bytes.{Bytes, bytes_eq}

pub data VaultBodySource : Type 0 where
  cloud cache : VaultBodySource

pub record UnlockStep : Type 0 where
  pub provider_id : Bytes
  pub source : VaultBodySource
  pub is_primary : Bool

-- A sync target is its provider's id.
pub record UnlockPlan : Type 0 where
  pub vault_steps : List UnlockStep
  pub manifest_sync_targets : List Bytes
  pub fail_closed : Bool

-- `HashSet::contains`
abbrev pub contains : List Bytes → Bytes → Bool
contains ids pid = any (bytes_eq pid) ids

abbrev pub is_empty {ℓ} : {A : Type ℓ} → List A → Bool
is_empty [] = true
is_empty (x ∷ xs) = false

abbrev pub step_from : Bytes → VaultBodySource → Bytes → UnlockStep
step_from pid source primary_id = record {
  provider_id = pid;
  source = source;
  is_primary = bytes_eq pid primary_id;
}

-- The `filter_map` over the providers.
unfoldable pub vault_steps_of : List Bytes → List Bytes → List Bytes → Bytes → List UnlockStep
vault_steps_of [] online cached primary_id = []
vault_steps_of (pid ∷ pids) online cached primary_id =
    let rest = vault_steps_of pids online cached primary_id in
    if contains online pid
    then step_from pid cloud primary_id ∷ rest
    else if contains cached pid
    then step_from pid cache primary_id ∷ rest
    else rest

-- `UnlockPlan::build`
unfoldable pub build_unlock : List Bytes → List Bytes → List Bytes → Bytes → List Bytes → UnlockPlan
build_unlock provider_ids online cached primary_id manifest_sync_targets =
    let vault_steps = vault_steps_of provider_ids online cached primary_id in
    record {
      vault_steps = vault_steps;
      manifest_sync_targets = manifest_sync_targets;
      fail_closed = is_empty vault_steps && not (is_empty provider_ids);
    }

-- `available_provider_ids`
unfoldable pub available_provider_ids : UnlockPlan → List Bytes
available_provider_ids p = map (λ (s : UnlockStep). s.provider_id) p.vault_steps

abbrev pub is_cache : UnlockStep → Bool
is_cache s = elim s.source [ cache ↦ true | cloud ↦ false ]

-- `read_only_provider_ids`
unfoldable pub read_only_provider_ids : UnlockPlan → List Bytes
read_only_provider_ids p = map (λ (s : UnlockStep). s.provider_id) (filter is_cache p.vault_steps)

pub record SavePlan : Type 0 where
  pub vault_uploads : List Bytes
  pub manifest_upload_targets : List Bytes

-- `SavePlan::build`
unfoldable pub build_save : List Bytes → List Bytes → SavePlan
build_save dirty online = record {
  vault_uploads = filter (contains online) dirty;
  manifest_upload_targets = online;
}

abbrev pub reachable : List Bytes → List Bytes → Bytes → Bool
reachable online cached pid = contains online pid || contains cached pid

abbrev pub only_cached : List Bytes → List Bytes → Bytes → Bool
only_cached online cached pid = not (contains online pid) && contains cached pid

module _ (online cached : List Bytes) (primary_id : Bytes) where
  ids_of :
      (pids : List Bytes)
      → map (λ (s : UnlockStep). s.provider_id) (vault_steps_of pids online cached primary_id)
        ≡ filter (reachable online cached) pids
  unfolding vault_steps_of
  ids_of [] = refl
  ids_of (pid ∷ pids) = elim (Bool-cases (contains online pid)) [
    | inl t ↦ rw t (ap (◌∷◌ pid) (ids_of pids))
    | inr f ↦ elim (Bool-cases (contains cached pid)) [
      | inl t ↦ rw (f, t) (ap (◌∷◌ pid) (ids_of pids))
      | inr g ↦ rw (f, g) (ids_of pids)
    ]
  ]

  cached_of :
      (pids : List Bytes)
      → map
          (λ (s : UnlockStep). s.provider_id)
          (filter is_cache (vault_steps_of pids online cached primary_id))
        ≡ filter (only_cached online cached) pids
  unfolding vault_steps_of
  cached_of [] = refl
  cached_of (pid ∷ pids) = elim (Bool-cases (contains online pid)) [
    | inl t ↦ rw t (cached_of pids)
    | inr f ↦ elim (Bool-cases (contains cached pid)) [
      | inl t ↦ rw (f, t) (ap (◌∷◌ pid) (cached_of pids))
      | inr g ↦ rw (f, g) (cached_of pids)
    ]
  ]

  none_reachable :
      (pids : List Bytes)
      → is_empty (vault_steps_of pids online cached primary_id)
        ≡ not (any (reachable online cached) pids)
  unfolding vault_steps_of
  none_reachable [] = refl
  none_reachable (pid ∷ pids) = elim (Bool-cases (contains online pid)) [
    | inl t ↦ rw t
    | inr f ↦ elim (Bool-cases (contains cached pid)) [
      | inl t ↦ rw (f, t)
      | inr g ↦ rw (f, g) (none_reachable pids)
    ]
  ]

-- An unlock plan has just the providers that are online or cached, in the order of the manifest; those
-- read from the cache are the ones that are not online; and it fails closed exactly if there are
-- providers and none of them is online or cached.
pub build_unlock_lem :
    (provider_ids online cached : List Bytes) (primary_id : Bytes) (targets : List Bytes)
    → (available_provider_ids (build_unlock provider_ids online cached primary_id targets)
        ≡ filter (reachable online cached) provider_ids)
      × (read_only_provider_ids (build_unlock provider_ids online cached primary_id targets)
          ≡ filter (only_cached online cached) provider_ids)
      × ((build_unlock provider_ids online cached primary_id targets).fail_closed
          ≡ (not (any (reachable online cached) provider_ids) && not (is_empty provider_ids)))
unfolding build_unlock available_provider_ids read_only_provider_ids
build_unlock_lem provider_ids online cached primary_id targets = (
  ids_of online cached primary_id provider_ids,
  cached_of online cached primary_id provider_ids,
  ap (λ b. b && not (is_empty provider_ids)) (none_reachable online cached primary_id provider_ids),
)
