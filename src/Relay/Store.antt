-- ===== src/Relay/Store.antt =====
-- byo-relay/src/share_store.rs: the index of shares and their blobs. Its two SQLite tables are lists of
-- rows, a call's statements run under the lock of the connection, and the clock is an argument, in
-- seconds. Of the disk there is only whether the directory of a share could be removed.
pub mod Totals
pub mod Owned
pub mod Tokens
use wattcloud.Common.{
  ℕ, ◌+◌, ◌-◌, not, ◌&&◌, ◌||◌, Bool, true, false, Option, none, some, List, [], ◌∷◌, Result, ok,
  err, ◌==◌, leb, ltb, if◌then◌else◌, map, filter, any, length,
}
use wattcloud.Common.Bytes.{Bytes, bytes_eq, bytes_eq_inst}
use wattcloud.Common.Maps.{get, insert, remove}

pub data ShareKind : Type 0 where
  file folder collection : ShareKind

abbrev pub unsealed_max_lifetime_secs : ℕ
unsealed_max_lifetime_secs = 14400

-- `sqlite` is here an insertion that a foreign key refuses.
pub data StoreError : Type 0 where
  sqlite conflict not_found : StoreError

pub record ShareRow : Type 0 where
  pub kind : ShareKind
  pub created_at : ℕ
  pub expires_at : ℕ
  pub revoked : Bool
  pub is_sealed : Bool
  pub token_nonce : Bytes
  pub total_bytes : ℕ
  pub bundle_token : Option Bytes

pub record BlobRow : Type 0 where
  pub share_id : Bytes
  pub blob_id : Bytes
  pub bytes : ℕ

pub record ShareStore : Type 0 where
  pub shares : List (Bytes × ShareRow)
  pub blobs : List BlobRow

-- `SELECT COALESCE(SUM(bytes), 0) FROM blobs WHERE share_id = id`
abbrev pub sum_of : Bytes → List BlobRow → ℕ
sum_of id [] = 0
sum_of id (b ∷ bs) = if bytes_eq b.share_id id then b.bytes + sum_of id bs else sum_of id bs

-- `DELETE FROM blobs WHERE share_id = id`
abbrev pub drop_blobs : Bytes → List BlobRow → List BlobRow
drop_blobs id [] = []
drop_blobs id (b ∷ bs) = if bytes_eq b.share_id id then drop_blobs id bs else b ∷ drop_blobs id bs

-- `DELETE FROM blobs WHERE share_id = id AND blob_id = blob_id`
abbrev pub drop_blob : Bytes → Bytes → List BlobRow → List BlobRow
drop_blob id blob_id [] = []
drop_blob id blob_id (b ∷ bs) =
    if bytes_eq b.share_id id && bytes_eq b.blob_id blob_id
    then drop_blob id blob_id bs
    else b ∷ drop_blob id blob_id bs

-- `UPDATE shares SET ... WHERE share_id = id`, of the row if there is one.
abbrev pub update_share : Bytes → (ShareRow → ShareRow) → ShareStore → ShareStore
update_share id f st = elim (get id st.shares) [
  | none ↦ st
  | some row ↦ record st { shares = insert id (f row) st.shares }
]

-- `UPDATE shares SET total_bytes = (SELECT ...)`
abbrev pub update_total : Bytes → ShareStore → ShareStore
update_total id st =
    update_share id (λ (row : ShareRow). record row { total_bytes = sum_of id st.blobs }) st

-- `create_share`
unfoldable pub create_share :
    ℕ → Bytes → ShareKind → ℕ → Bytes → ShareStore → ShareStore × Result StoreError (Unit {0})
create_share now id kind expires_at token_nonce st = elim (get id st.shares) [
  | some row ↦ (st, err conflict)
  | none ↦ (
    record st {
      shares =
          insert id
            (record {
              kind = kind;
              created_at = now;
              expires_at = expires_at;
              revoked = false;
              is_sealed = false;
              token_nonce = token_nonce;
              total_bytes = 0;
              bundle_token = none;
            })
            st.shares;
    },
    ok tt,
  )
]

-- `mark_sealed`
unfoldable pub mark_sealed : Bytes → ShareStore → ShareStore × Result StoreError (Unit {0})
mark_sealed id st = elim (get id st.shares) [
  | none ↦ (st, err not_found)
  | some row ↦ (
    record st {
      shares = insert id (record row { is_sealed = true; bundle_token = none }) st.shares;
    },
    ok tt,
  )
]

-- `set_bundle_token`
unfoldable pub set_bundle_token :
    Bytes → Bytes → ShareStore → ShareStore × Result StoreError (Unit {0})
set_bundle_token id token st = elim (get id st.shares) [
  | none ↦ (st, err not_found)
  | some row ↦ if row.is_sealed then (st, err not_found) else (
    record st { shares = insert id (record row { bundle_token = some token }) st.shares },
    ok tt,
  )
]

-- The token of the row, and whether it is the presented one.
abbrev pub token_matches : Option Bytes → Bytes → Bool
token_matches none presented = false
token_matches (some stored) presented =
    if not (length stored == length presented) then false else bytes_eq stored presented

-- `verify_bundle_token`
unfoldable pub verify_bundle_token : Bytes → Bytes → ℕ → ShareStore → Bool
verify_bundle_token id presented now st = elim (get id st.shares) [
  | none ↦ false
  | some row ↦
      if row.is_sealed || row.revoked
      then false
      else if leb row.expires_at now || leb (row.created_at + unsealed_max_lifetime_secs) now
      then false
      else token_matches row.bundle_token presented
]

-- `record_blob`
unfoldable pub record_blob :
    Bytes → Bytes → ℕ → ShareStore → ShareStore × Result StoreError (Unit {0})
record_blob id blob_id bytes st = elim (get id st.shares) [
  | none ↦ (st, err sqlite)
  | some row ↦ (
    update_total id (record st {
      blobs =
          record { share_id = id; blob_id = blob_id; bytes = bytes }
          ∷ drop_blob id blob_id st.blobs;
    }),
    ok tt,
  )
]

-- `revoke_share`
unfoldable pub revoke_share : Bytes → ShareStore → ShareStore × Result StoreError (Unit {0})
revoke_share id st = elim (get id st.shares) [
  | none ↦ (st, err not_found)
  | some row ↦ (
    record {
      shares = insert id (record row { revoked = true; total_bytes = 0 }) st.shares;
      blobs = drop_blobs id st.blobs;
    },
    ok tt,
  )
]

-- `delete_blob`
unfoldable pub delete_blob : Bytes → Bytes → ShareStore → ShareStore
delete_blob id blob_id st = update_total id (record st { blobs = drop_blob id blob_id st.blobs })

-- `purge_expired_and_revoked`: the rows that it selects under the lock,
abbrev pub is_victim : ℕ → ShareRow → Bool
is_victim now row =
    row.revoked
    || (leb row.expires_at now
        || (not row.is_sealed && leb (row.created_at + unsealed_max_lifetime_secs) now))

unfoldable pub victims : ℕ → List (Bytes × ShareRow) → List (Bytes × ℕ)
victims now [] = []
victims now ((id, row) ∷ shares) =
    if is_victim now row then (id, row.total_bytes) ∷ victims now shares else victims now shares

-- those whose directory could be removed, with their bytes, without the lock,
unfoldable pub cleared : (Bytes → Bool) → List (Bytes × ℕ) → List Bytes × ℕ
cleared removed [] = ([], 0)
cleared removed ((id, bytes) ∷ vs) =
    let (ids, freed) = cleared removed vs in
    if removed id then (id ∷ ids, bytes + freed) else (ids, freed)

-- and the deletion of their rows under the lock again; the rows of their blobs go with them.
unfoldable pub delete_shares : List Bytes → ShareStore → ShareStore
delete_shares [] st = st
delete_shares (id ∷ ids) st =
    delete_shares ids (record { shares = remove id st.shares; blobs = drop_blobs id st.blobs })

-- `total_live_bytes`
unfoldable pub total_live_bytes : ℕ → List (Bytes × ShareRow) → ℕ
total_live_bytes now [] = 0
total_live_bytes now ((id, row) ∷ shares) =
    if not row.revoked && ltb now row.expires_at
    then row.total_bytes + total_live_bytes now shares
    else total_live_bytes now shares
