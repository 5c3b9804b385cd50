-- ===== src/Move/Reconcile.antt =====
-- What `plan_reconcile` of byo/cross_provider_move/reconciler.rs makes of a log, and of the log of a
-- plan that `build` of mod.rs has made.
use wattcloud.Common.{◌≡◌, not, Bool, false, Option, none, some, List, [], ◌∷◌}
use wattcloud.Common.Bytes.{Bytes}
use wattcloud.Move.{
  MoveStep, download_source_blob, upload_dest_blob, insert_dest_vault_row, delete_source_blob,
  delete_source_vault_row, ReconcileAction, delete_blob,
}

-- The deletions of a log, in its order.
abbrev pub deletions : List MoveStep → List ReconcileAction
deletions [] = []
deletions (delete_source_blob p r ∷ steps) = delete_blob p r ∷ deletions steps
deletions (download_source_blob p r ∷ steps) = deletions steps
deletions (upload_dest_blob p ∷ steps) = deletions steps
deletions (insert_dest_vault_row p f ∷ steps) = deletions steps
deletions (delete_source_vault_row p f ∷ steps) = deletions steps

-- The provider has said that the blob is not there.
abbrev pub known_gone : Option Bool → Bool
known_gone none = false
known_gone (some there) = not there

-- The deletion of the source's blob.
abbrev pub IsSource : Bytes → Bytes → ReconcileAction → Type 0
IsSource p r a = a ≡ delete_blob p r
