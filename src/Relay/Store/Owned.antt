-- ===== src/Relay/Store/Owned.antt =====
-- Whose the blobs of byo-relay/src/share_store.rs are.
use wattcloud.Common.{
  ℕ, ◌≡◌, sym, ap, subst, ◌∙◌, inl, inr, Bool, ◌&&◌, Bool-cases, true, false, Option, Option-cases,
  none, some, List, [], ◌∷◌, All, All-weaken, arith,
}
use wattcloud.Common.Bytes.{Bytes, bytes_eq, bytes_eq_inst, bytes_eq_iff}
use wattcloud.Common.Maps.{get, insert, remove, get-insert, get-remove}
use wattcloud.Relay.Store.{
  ShareKind, ShareRow, BlobRow, ShareStore, drop_blobs, drop_blob, update_total, create_share,
  mark_sealed, set_bundle_token, record_blob, revoke_share, delete_blob, delete_shares,
}
use wattcloud.Relay.Store.Totals.{
  Call, create_call, seal_call, token_call, record_call, revoke_call, delete_call, purge_call, call,
  calls, updated, not_updated, IsConsistent, calls-IsConsistent,
}

abbrev pub is_some {ℓ} : {A : Type ℓ} → Option A → Bool
is_some none = false
is_some (some a) = true

-- The index has a row for the share of the blob.
abbrev pub HasShare : List (Bytes × ShareRow) → BlobRow → Type 0
HasShare shares b = is_some (get b.share_id shares) ≡ true

-- Every blob belongs to a share that the index has.
unfoldable pub IsOwned : ShareStore → Type 0
IsOwned st = All (HasShare st.shares) st.blobs

insert-HasShare :
    (id : Bytes) (row : ShareRow) (shares : List (Bytes × ShareRow)) (b : BlobRow)
    → HasShare shares b
    → HasShare (insert id row shares) b
insert-HasShare id row shares b h = elim (Bool-cases (bytes_eq id b.share_id)) [
  | inl same ↦ rw (get-insert id b.share_id row shares, same)
  | inr other ↦ rw (get-insert id b.share_id row shares, other) h
]

-- A row more, or another one in the place of one.
insert-IsOwned :
    (id : Bytes) (row : ShareRow) (st : ShareStore)
    → IsOwned st
    → IsOwned (record st { shares = insert id row st.shares })
unfolding IsOwned
insert-IsOwned id row st h = All-weaken (insert-HasShare id row st.shares) st.blobs h

All-drop_blob :
    (P : BlobRow → Type 0) (id blob_id : Bytes) (bs : List BlobRow)
    → All P bs
    → All P (drop_blob id blob_id bs)
All-drop_blob P id blob_id [] h = tt
All-drop_blob P id blob_id (b ∷ bs) h =
    elim (Bool-cases (bytes_eq b.share_id id && bytes_eq b.blob_id blob_id)) [
      | inl gone ↦ rw gone (All-drop_blob P id blob_id bs h.1)
      | inr kept ↦ rw kept (h.0, All-drop_blob P id blob_id bs h.1)
    ]

-- What is left is of other shares.
abbrev pub IsOther : Bytes → BlobRow → Type 0
IsOther id b = bytes_eq b.share_id id ≡ false

dropped :
    (P : BlobRow → Type 0) (id : Bytes) (bs : List BlobRow)
    → All P bs
    → All (λ b. P b × IsOther id b) (drop_blobs id bs)
dropped P id [] h = tt
dropped P id (b ∷ bs) h = elim (Bool-cases (bytes_eq b.share_id id)) [
  | inl gone ↦ rw gone (dropped P id bs h.1)
  | inr kept ↦ rw kept ((h.0, kept), dropped P id bs h.1)
]

update_total-IsOwned : (id : Bytes) (st : ShareStore) → IsOwned st → IsOwned (update_total id st)
update_total-IsOwned id st h = elim (Option-cases (get id st.shares)) [
  | inl gone ↦ subst IsOwned (sym (not_updated id st gone)) h
  | inr (row, there) ↦ subst IsOwned (sym (updated id row st there)) (insert-IsOwned id _ st h)
]

record-IsOwned :
    (id blob_id : Bytes) (bytes : ℕ) (st : ShareStore)
    → IsOwned st
    → IsOwned (record_blob id blob_id bytes st).0
unfolding record_blob IsOwned
record-IsOwned id blob_id bytes st h = elim (Option-cases (get id st.shares)) [
  | inl gone ↦ rw (gone, record_blob) h
  | inr (row, there) ↦
      rw (there, record_blob)
        (update_total-IsOwned id _
          (rw there, All-drop_blob (HasShare st.shares) id blob_id st.blobs h))
]

revoke-IsOwned : (id : Bytes) (st : ShareStore) → IsOwned st → IsOwned (revoke_share id st).0
unfolding revoke_share IsOwned
revoke-IsOwned id st h = elim (Option-cases (get id st.shares)) [
  | inl gone ↦ rw (gone, revoke_share) h
  | inr (row, there) ↦
      rw (there, revoke_share)
        (All-weaken (λ b o. insert-HasShare id _ st.shares b o.0) (drop_blobs id st.blobs)
          (dropped (HasShare st.shares) id st.blobs h))
]

remove-HasShare :
    (id : Bytes) (shares : List (Bytes × ShareRow)) (b : BlobRow)
    → HasShare shares b × IsOther id b
    → HasShare (remove id shares) b
remove-HasShare id shares b (h, other) =
    let apart : bytes_eq id b.share_id ≡ false =
      ground (arith, other, bytes_eq_iff b.share_id id, bytes_eq_iff id b.share_id) in
    rw (get-remove id b.share_id shares, apart) h

purge-IsOwned : (ids : List Bytes) (st : ShareStore) → IsOwned st → IsOwned (delete_shares ids st)
unfolding delete_shares IsOwned
purge-IsOwned [] st h = h
purge-IsOwned (id ∷ ids) st h =
    purge-IsOwned ids (record { shares = remove id st.shares; blobs = drop_blobs id st.blobs })
      (All-weaken (remove-HasShare id st.shares) (drop_blobs id st.blobs)
        (dropped (HasShare st.shares) id st.blobs h))

create-IsOwned :
    (now : ℕ) (id : Bytes) (kind : ShareKind) (expires_at : ℕ) (nonce : Bytes) (st : ShareStore)
    → IsOwned st
    → IsOwned (create_share now id kind expires_at nonce st).0
unfolding create_share
create-IsOwned now id kind expires_at nonce st h = elim (Option-cases (get id st.shares)) [
  | inr (row, there) ↦ rw (there, create_share) h
  | inl gone ↦ rw (gone, create_share) (insert-IsOwned id _ st h)
]

seal-IsOwned : (id : Bytes) (st : ShareStore) → IsOwned st → IsOwned (mark_sealed id st).0
unfolding mark_sealed
seal-IsOwned id st h = elim (Option-cases (get id st.shares)) [
  | inl gone ↦ rw (gone, mark_sealed) h
  | inr (row, there) ↦ rw (there, mark_sealed) (insert-IsOwned id _ st h)
]

token-IsOwned :
    (id token : Bytes) (st : ShareStore) → IsOwned st → IsOwned (set_bundle_token id token st).0
unfolding set_bundle_token
token-IsOwned id token st h = elim (Option-cases (get id st.shares)) [
  | inl gone ↦ rw (gone, set_bundle_token) h
  | inr (row, there) ↦ elim (Bool-cases row.is_sealed) [
    | inl t ↦ rw (there, t, set_bundle_token) h
    | inr f ↦ rw (there, f, set_bundle_token) (insert-IsOwned id _ st h)
  ]
]

call-IsOwned : (c : Call) (st : ShareStore) → IsOwned st → IsOwned (call c st)
unfolding call delete_blob IsOwned
call-IsOwned (create_call now id kind expires_at nonce) st h =
    create-IsOwned now id kind expires_at nonce st h
call-IsOwned (seal_call id) st h = seal-IsOwned id st h
call-IsOwned (token_call id token) st h = token-IsOwned id token st h
call-IsOwned (record_call id blob_id bytes) st h = record-IsOwned id blob_id bytes st h
call-IsOwned (revoke_call id) st h = revoke-IsOwned id st h
call-IsOwned (delete_call id blob_id) st h =
    update_total-IsOwned id _ (All-drop_blob (HasShare st.shares) id blob_id st.blobs h)
call-IsOwned (purge_call ids) st h = purge-IsOwned ids st h

calls_keep_owners : (cs : List Call) (st : ShareStore) → IsOwned st → IsOwned (calls cs st)
unfolding calls
calls_keep_owners [] st h = h
calls_keep_owners (c ∷ cs) st h = calls_keep_owners cs (call c st) (call-IsOwned c st h)

none_is_not_some :
    (shares : List (Bytes × ShareRow)) (id j : Bytes)
    → is_some (get j shares) ≡ true
    → get id shares ≡ none
    → bytes_eq j id ≡ false
none_is_not_some shares id j o gone = elim (Bool-cases (bytes_eq j id)) [
  | inr other ↦ other
  | inl same ↦
      let e : get j shares ≡ none = ap (λ k. get k shares) ((bytes_eq_iff j id).0 same) ∙ gone in
      cc (rw e at o)
]

revoked :
    (id : Bytes) (st : ShareStore) → IsOwned st → All (IsOther id) (revoke_share id st).0.blobs
unfolding revoke_share IsOwned
revoked id st h = elim (Option-cases (get id st.shares)) [
  | inl gone ↦
      rw (gone, revoke_share)
        (All-weaken (λ b o. none_is_not_some st.shares id b.share_id o gone) st.blobs h)
  | inr (row, there) ↦
      rw (there, revoke_share)
        (All-weaken (λ b o. o.1) (drop_blobs id st.blobs)
          (dropped (HasShare st.shares) id st.blobs h))
]

-- Over any calls on the store, a blob recorded twice, for a revoked share or after a purge included:
-- the size in the row of a share stays the sum of the sizes of its blobs, every blob, an empty one
-- too, belongs to a share that the index has, and a revocation leaves no blob of its share.
pub calls-IsOwned :
    (cs : List Call) (st : ShareStore) (id : Bytes)
    → IsConsistent st
    → IsOwned st
    → IsConsistent (calls cs st)
      × IsOwned (calls cs st)
      × All (IsOther id) (revoke_share id (calls cs st)).0.blobs
calls-IsOwned cs st id h o = (
  calls-IsConsistent cs st h,
  calls_keep_owners cs st o,
  revoked id (calls cs st) (calls_keep_owners cs st o),
)
