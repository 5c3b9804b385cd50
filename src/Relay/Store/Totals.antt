-- ===== src/Relay/Store/Totals.antt =====
-- The sizes of shares in byo-relay/src/share_store.rs.
use wattcloud.Common.{
  ℕ, ◌≤◌, ◌≡◌, refl, sym, ap, subst, ◌∙◌, inl, inr, Bool-cases, false, Option, Option-cases, none,
  some, List, [], ◌∷◌, if◌then◌else◌, arith,
}
use wattcloud.Common.Bytes.{Bytes, bytes_eq, bytes_eq_inst, bytes_eq_iff, bytes_eq_refl}
use wattcloud.Common.Maps.{get, insert, remove, get-insert, get-remove}
use wattcloud.Relay.Store.{
  ShareKind, ShareRow, BlobRow, ShareStore, sum_of, drop_blobs, drop_blob, update_share,
  update_total, create_share, mark_sealed, set_bundle_token, record_blob, revoke_share, delete_blob,
  delete_shares,
}

sum_of-drop_blobs :
    (id j : Bytes) (bs : List BlobRow)
    → sum_of j (drop_blobs id bs) ≡ (if bytes_eq id j then 0 else sum_of j bs)
sum_of-drop_blobs id j [] = ground arith
sum_of-drop_blobs id j (b ∷ bs) = ground (
  arith,
  bytes_eq_iff b.share_id id,
  bytes_eq_iff b.share_id j,
  bytes_eq_iff id j,
  sum_of-drop_blobs id j bs,
)

sum_of-drop_blob :
    (id blob_id j : Bytes) (bs : List BlobRow)
    → bytes_eq id j ≡ false
    → sum_of j (drop_blob id blob_id bs) ≡ sum_of j bs
sum_of-drop_blob id blob_id j [] h = refl
sum_of-drop_blob id blob_id j (b ∷ bs) h = ground (
  arith,
  h,
  bytes_eq_iff b.share_id id,
  bytes_eq_iff b.share_id j,
  bytes_eq_iff id j,
  sum_of-drop_blob id blob_id j bs h,
)

sum_of-drop_blob_le :
    (id blob_id j : Bytes) (bs : List BlobRow) → sum_of j (drop_blob id blob_id bs) ≤ sum_of j bs
sum_of-drop_blob_le id blob_id j [] = omega arith
sum_of-drop_blob_le id blob_id j (b ∷ bs) = ground (arith, sum_of-drop_blob_le id blob_id j bs)

-- The size that the index shows for a share, nothing for a share that it does not have.
abbrev pub shown : Option ShareRow → ℕ
shown none = 0
shown (some row) = row.total_bytes

-- Each share's size is the sum of the sizes of its blobs, and nothing is added up of any other.
unfoldable pub IsConsistent : ShareStore → Type 0
IsConsistent st = (id : Bytes) → shown (get id st.shares) ≡ sum_of id st.blobs

-- An update of the row of one share that shows the right size.
shares_after :
    (id j : Bytes) (row : ShareRow) (shares : List (Bytes × ShareRow)) (blobs : List BlobRow)
    → row.total_bytes ≡ sum_of id blobs
    → (bytes_eq id j ≡ false → shown (get j shares) ≡ sum_of j blobs)
    → shown (get j (insert id row shares)) ≡ sum_of j blobs
shares_after id j row shares blobs here there = elim (Bool-cases (bytes_eq id j)) [
  | inl t ↦
      rw (get-insert id j row shares, t) (here ∙ ap (λ k. sum_of k blobs) ((bytes_eq_iff id j).0 t))
  | inr f ↦ rw (get-insert id j row shares, f) (there f)
]

pub not_updated : (id : Bytes) (st : ShareStore) → get id st.shares ≡ none → update_total id st ≡ st
not_updated id st gone = rw (gone, update_total, update_share)

pub updated :
    (id : Bytes) (row : ShareRow) (st : ShareStore)
    → get id st.shares ≡ some row
    → update_total id st
      ≡ record st { shares = insert id (record row { total_bytes = sum_of id st.blobs }) st.shares }
updated id row st there = rw (there, update_total, update_share)

update_total-IsConsistent :
    (id : Bytes) (st : ShareStore)
    → ((j : Bytes) → bytes_eq id j ≡ false → shown (get j st.shares) ≡ sum_of j st.blobs)
    → (get id st.shares ≡ none → sum_of id st.blobs ≡ 0)
    → IsConsistent (update_total id st)
unfolding IsConsistent
update_total-IsConsistent id st others missing = elim (Option-cases (get id st.shares)) [
  | inl gone ↦ subst IsConsistent (sym (not_updated id st gone)) (λ j.
      elim (Bool-cases (bytes_eq id j)) [
        | inl t ↦
            subst (λ k. shown (get k st.shares) ≡ sum_of k st.blobs) ((bytes_eq_iff id j).0 t)
              (ap shown gone ∙ sym (missing gone))
        | inr f ↦ others j f
      ])
  | inr (row, there) ↦ subst IsConsistent (sym (updated id row st there)) (λ j.
      shares_after id j (record row { total_bytes = sum_of id st.blobs }) st.shares st.blobs refl
        (others j))
]

-- The calls that change the index, and the two halves of a purge with others in between.
pub data Call : Type 0 where
  create_call : ℕ → Bytes → ShareKind → ℕ → Bytes → Call
  seal_call : Bytes → Call
  token_call : Bytes → Bytes → Call
  record_call : Bytes → Bytes → ℕ → Call
  revoke_call : Bytes → Call
  delete_call : Bytes → Bytes → Call
  purge_call : List Bytes → Call

unfoldable pub call : Call → ShareStore → ShareStore
call (create_call now id kind expires_at nonce) st =
    (create_share now id kind expires_at nonce st).0
call (seal_call id) st = (mark_sealed id st).0
call (token_call id token) st = (set_bundle_token id token st).0
call (record_call id blob_id bytes) st = (record_blob id blob_id bytes st).0
call (revoke_call id) st = (revoke_share id st).0
call (delete_call id blob_id) st = delete_blob id blob_id st
call (purge_call ids) st = delete_shares ids st

unfoldable pub calls : List Call → ShareStore → ShareStore
calls [] st = st
calls (c ∷ cs) st = calls cs (call c st)

-- A row that is replaced by one that shows the same size.
replaced :
    (id : Bytes) (old row : ShareRow) (st : ShareStore)
    → IsConsistent st
    → get id st.shares ≡ some old
    → row.total_bytes ≡ old.total_bytes
    → IsConsistent (record st { shares = insert id row st.shares })
unfolding IsConsistent
replaced id old row st h there same j =
    shares_after id j row st.shares st.blobs (same ∙ sym (ap shown there) ∙ h id) (λ f. h j)

create-IsConsistent :
    (now : ℕ) (id : Bytes) (kind : ShareKind) (expires_at : ℕ) (nonce : Bytes) (st : ShareStore)
    → IsConsistent st
    → IsConsistent (create_share now id kind expires_at nonce st).0
unfolding create_share IsConsistent
create-IsConsistent now id kind expires_at nonce st h j = elim (Option-cases (get id st.shares)) [
  | inr (row, there) ↦ rw (there, create_share) (h j)
  | inl gone ↦
      rw (gone, create_share)
        (shares_after id j _ st.shares st.blobs (sym (ap shown gone) ∙ h id) (λ f. h j))
]

seal-IsConsistent :
    (id : Bytes) (st : ShareStore) → IsConsistent st → IsConsistent (mark_sealed id st).0
unfolding mark_sealed
seal-IsConsistent id st h = elim (Option-cases (get id st.shares)) [
  | inl gone ↦ rw (gone, mark_sealed) h
  | inr (row, there) ↦ rw (there, mark_sealed) (replaced id row _ st h there refl)
]

token-IsConsistent :
    (id token : Bytes) (st : ShareStore)
    → IsConsistent st
    → IsConsistent (set_bundle_token id token st).0
unfolding set_bundle_token
token-IsConsistent id token st h = elim (Option-cases (get id st.shares)) [
  | inl gone ↦ rw (gone, set_bundle_token) h
  | inr (row, there) ↦ elim (Bool-cases row.is_sealed) [
    | inl t ↦ rw (there, t, set_bundle_token) h
    | inr f ↦ rw (there, f, set_bundle_token) (replaced id row _ st h there refl)
  ]
]

record-IsConsistent :
    (id blob_id : Bytes) (bytes : ℕ) (st : ShareStore)
    → IsConsistent st
    → IsConsistent (record_blob id blob_id bytes st).0
unfolding record_blob IsConsistent
record-IsConsistent id blob_id bytes st h = elim (Option-cases (get id st.shares)) [
  | inl gone ↦ rw (gone, record_blob) h
  | inr (row, there) ↦
      rw (there, record_blob)
        (update_total-IsConsistent id _
          (λ j f. h j ∙ sym (sum_of-drop_blob id blob_id j st.blobs f) ∙ rw f)
          (λ gone. absurd (both (sym gone ∙ there))))
]
  where
    both : {row : ShareRow} → ◌≡◌ {A = Option ShareRow} none (some row) → ⊥
    both e = cc

revoke-IsConsistent :
    (id : Bytes) (st : ShareStore) → IsConsistent st → IsConsistent (revoke_share id st).0
unfolding revoke_share IsConsistent
revoke-IsConsistent id st h = elim (Option-cases (get id st.shares)) [
  | inl gone ↦ rw (gone, revoke_share) h
  | inr (row, there) ↦
      rw (there, revoke_share)
        (λ j.
          shares_after id j _ st.shares (drop_blobs id st.blobs)
            (sym (sum_of-drop_blobs id id st.blobs ∙ rw (bytes_eq_refl id)))
            (λ f. h j ∙ sym (sum_of-drop_blobs id j st.blobs ∙ rw f)))
]

delete-IsConsistent :
    (id blob_id : Bytes) (st : ShareStore)
    → IsConsistent st
    → IsConsistent (delete_blob id blob_id st)
unfolding delete_blob IsConsistent
delete-IsConsistent id blob_id st h =
    update_total-IsConsistent id (record st { blobs = drop_blob id blob_id st.blobs })
      (λ j f. h j ∙ sym (sum_of-drop_blob id blob_id j st.blobs f))
      (λ gone. omega (arith, sum_of-drop_blob_le id blob_id id st.blobs, h id, ap shown gone))

purge-IsConsistent :
    (ids : List Bytes) (st : ShareStore) → IsConsistent st → IsConsistent (delete_shares ids st)
unfolding delete_shares IsConsistent
purge-IsConsistent [] st h = h
purge-IsConsistent (id ∷ ids) st h =
    purge-IsConsistent ids (record { shares = remove id st.shares; blobs = drop_blobs id st.blobs })
      (λ j. elim (Bool-cases (bytes_eq id j)) [
        | inl t ↦ rw (get-remove id j st.shares, t, sum_of-drop_blobs id j st.blobs, t)
        | inr f ↦ rw (get-remove id j st.shares, f, sum_of-drop_blobs id j st.blobs, f) (h j)
      ])

call-IsConsistent : (c : Call) (st : ShareStore) → IsConsistent st → IsConsistent (call c st)
unfolding call
call-IsConsistent (create_call now id kind expires_at nonce) st h =
    create-IsConsistent now id kind expires_at nonce st h
call-IsConsistent (seal_call id) st h = seal-IsConsistent id st h
call-IsConsistent (token_call id token) st h = token-IsConsistent id token st h
call-IsConsistent (record_call id blob_id bytes) st h = record-IsConsistent id blob_id bytes st h
call-IsConsistent (revoke_call id) st h = revoke-IsConsistent id st h
call-IsConsistent (delete_call id blob_id) st h = delete-IsConsistent id blob_id st h
call-IsConsistent (purge_call ids) st h = purge-IsConsistent ids st h

-- Over any calls on the store, a blob recorded twice, for a revoked share or after a purge included,
-- the size in the row of a share stays the sum of the sizes of its blobs, and blobs of a share that
-- has no row have no size.
pub calls-IsConsistent :
    (cs : List Call) (st : ShareStore) → IsConsistent st → IsConsistent (calls cs st)
unfolding calls
calls-IsConsistent [] st h = h
calls-IsConsistent (c ∷ cs) st h = calls-IsConsistent cs (call c st) (call-IsConsistent c st h)
