-- ===== src/Move.antt =====
-- sdk/sdk-core/src/byo/cross_provider_move: the plan of mod.rs, the replay decisions of execution.rs
-- and the reconciler of reconciler.rs. The WAL's JSON encoding is left out.
pub mod Reconcile
use wattcloud.Common.{
  ℕ, ◌+◌, ◌==◌, not, ◌&&◌, Bool, true, false, Option, none, some, List, [], ◌∷◌, ◌++◌, map, filter,
  any, length, if◌then◌else◌,
}
use wattcloud.Common.Bytes.{Bytes, codes}

pub record ShareRevokeStep : Type 0 where
  pub share_id : Bytes
  pub variant : Bytes
  pub provider_id : Bytes
  pub provider_ref : Bytes
  pub owner_token : Option Bytes

pub record ShareRow : Type 0 where
  pub share_id : Bytes
  pub file_id : ℕ
  pub variant : Bytes
  pub provider_id : Bytes
  pub provider_ref : Bytes
  pub owner_token : Option Bytes
  pub revoked : Bool

-- The closure of the filter: the row is not revoked, and its file is among those moved.
abbrev pub is_live : List ℕ → ShareRow → Bool
is_live file_ids r = not r.revoked && any (λ f. f == r.file_id) file_ids

abbrev pub revoke_step : ShareRow → ShareRevokeStep
revoke_step r = record {
  share_id = r.share_id;
  variant = r.variant;
  provider_id = r.provider_id;
  provider_ref = r.provider_ref;
  owner_token = r.owner_token;
}

-- `plan_share_revocations`
unfoldable pub plan_share_revocations : List ℕ → List ShareRow → List ShareRevokeStep
plan_share_revocations file_ids share_rows = map revoke_step (filter (is_live file_ids) share_rows)

pub data MoveStep : Type 0 where
  -- provider and reference
  download_source_blob delete_source_blob : Bytes → Bytes → MoveStep
  upload_dest_blob : Bytes → MoveStep
  -- provider and folder
  insert_dest_vault_row : Bytes → Option ℕ → MoveStep
  -- provider and file
  delete_source_vault_row : Bytes → ℕ → MoveStep

pub record CrossProviderMovePlan : Type 0 where
  pub file_id : ℕ
  pub pre_revokes : List ShareRevokeStep
  pub steps : List MoveStep
  pub source_provider_ref : Bytes
  pub description : Bytes

-- `CrossProviderMovePlan::build`
unfoldable pub build :
    ℕ → Bytes → Bytes → Bytes → Option ℕ → Bytes → List ShareRevokeStep → CrossProviderMovePlan
build file_id source_provider_ref src dst dest_folder_id display_name pre_revokes = record {
  file_id = file_id;
  pre_revokes = pre_revokes;
  steps =
      download_source_blob src source_provider_ref
      ∷ upload_dest_blob dst
      ∷ insert_dest_vault_row dst dest_folder_id
      ∷ delete_source_blob src source_provider_ref
      ∷ delete_source_vault_row src file_id
      ∷ [];
  source_provider_ref = source_provider_ref;
  description =
      codes "Move '" ++ (display_name ++ (codes "' from " ++ (src ++ (codes " to " ++ dst))));
}

pub record FolderCreateStep : Type 0 where
  pub provider_id : Bytes
  pub parent_folder_id : Option ℕ
  pub name_encrypted_hint : Bytes

pub record CrossProviderFolderMovePlan : Type 0 where
  pub folder_creates : List FolderCreateStep
  pub file_moves : List CrossProviderMovePlan
  pub source_folder_deletes : List ℕ
  pub src_provider_id : Bytes
  pub dst_provider_id : Bytes

-- `iter().rev()`
abbrev pub reverse {ℓ} : {A : Type ℓ} → List A → List A
reverse [] = []
reverse (x ∷ xs) = reverse xs ++ (x ∷ [])

-- `CrossProviderFolderMovePlan::build`
unfoldable pub build_folder :
    Bytes
    → Bytes
    → List ℕ
    → List (ℕ × Bytes × Option ℕ × Bytes)
    → List FolderCreateStep
    → CrossProviderFolderMovePlan
build_folder src dst folder_ids_bfs files folder_creates = record {
  folder_creates = folder_creates;
  file_moves = map (λ f. build f.0 f.1 src dst f.2 f.3 []) files;
  source_folder_deletes = reverse folder_ids_bfs;
  src_provider_id = src;
  dst_provider_id = dst;
}

-- `CrossProviderFolderMovePlan::total_items`
unfoldable pub total_items : CrossProviderFolderMovePlan → ℕ
total_items p = length p.folder_creates + length p.file_moves + length p.source_folder_deletes

pub data ReplayDecision : Type 0 where
  skip abort : ReplayDecision
  retry : Bytes → Bytes → ReplayDecision

-- `decide_replay`
unfoldable pub decide_replay : MoveStep → Bool → Option Bool → ReplayDecision
decide_replay (delete_source_blob p r) false src_blob_exists = abort
decide_replay (delete_source_blob p r) true (some false) = skip
decide_replay (delete_source_blob p r) true (some true) = retry p r
decide_replay (delete_source_blob p r) true none = retry p r
decide_replay (download_source_blob p r) dst_file_exists src_blob_exists = abort
decide_replay (upload_dest_blob p) dst_file_exists src_blob_exists = abort
decide_replay (insert_dest_vault_row p f) dst_file_exists src_blob_exists = abort
decide_replay (delete_source_vault_row p f) dst_file_exists src_blob_exists = abort

pub data ReconcileAction : Type 0 where
  delete_blob : Bytes → Bytes → ReconcileAction

-- The closure of the `filter_map`.
abbrev pub action_of : ReplayDecision → List ReconcileAction → List ReconcileAction
action_of (retry p r) rest = delete_blob p r ∷ rest
action_of skip rest = rest
action_of abort rest = rest

-- `plan_reconcile`
unfoldable pub plan_reconcile : List MoveStep → Bool → Option Bool → List ReconcileAction
plan_reconcile [] dst_file_exists src_blob_exists = []
plan_reconcile (s ∷ pending) dst_file_exists src_blob_exists =
    action_of (decide_replay s dst_file_exists src_blob_exists)
      (plan_reconcile pending dst_file_exists src_blob_exists)
