-- ===== src/Relay/Store/Tokens.antt =====
-- The upload tokens and the seal of a share in byo-relay/src/share_store.rs.
use wattcloud.Common.{
  ℕ, ◌≡◌, refl, sym, ap, subst, ◌∙◌, inl, inr, Bool, Bool-cases, true, false, Option, Option-cases,
  none, some, List, [], ◌∷◌, All, any, ok, err, ◌≢◌, ◌⊎◌, arith,
}
use wattcloud.Common.Bytes.{Bytes, bytes_eq, bytes_eq_inst, bytes_eq_iff}
use wattcloud.Common.Maps.{get, insert, get-insert, get-remove, get-insert_self}
use wattcloud.Relay.Store.{
  not_found, ShareKind, ShareRow, ShareStore, update_total, create_share, mark_sealed,
  set_bundle_token, record_blob, revoke_share, delete_blob, delete_shares, drop_blob,
  verify_bundle_token,
}
use wattcloud.Relay.Store.Totals.{
  Call, create_call, seal_call, token_call, record_call, revoke_call, delete_call, purge_call, call,
  calls, updated, not_updated,
}

-- A row that is sealed, or no row where `Absent` allows that.
abbrev ClosedRow : Type 0 → Option ShareRow → Type 0
ClosedRow Absent none = Absent
ClosedRow Absent (some row) = row.is_sealed ≡ true

-- The call makes the share.
abbrev pub creates : Bytes → Call → Bool
creates id (create_call now j kind expires_at nonce) = bytes_eq j id
creates id (seal_call j) = false
creates id (token_call j token) = false
creates id (record_call j blob_id bytes) = false
creates id (revoke_call j) = false
creates id (delete_call j blob_id) = false
creates id (purge_call ids) = false

-- The call removes the share.
abbrev pub purges : Bytes → Call → Bool
purges id (create_call now j kind expires_at nonce) = false
purges id (seal_call j) = false
purges id (token_call j token) = false
purges id (record_call j blob_id bytes) = false
purges id (revoke_call j) = false
purges id (delete_call j blob_id) = false
purges id (purge_call ids) = any (λ j. bytes_eq j id) ids

module _ (id : Bytes) (Absent : Type 0) where
  IsClosed : ShareStore → Type 0
  IsClosed st = ClosedRow Absent (get id st.shares)

  inserted :
      (j : Bytes) (row : ShareRow) (shares : List (Bytes × ShareRow))
      → (bytes_eq j id ≡ true → row.is_sealed ≡ true)
      → ClosedRow Absent (get id shares)
      → ClosedRow Absent (get id (insert j row shares))
  inserted j row shares same h = elim (Bool-cases (bytes_eq j id)) [
    | inl t ↦ rw (get-insert j id row shares, t) (same t)
    | inr f ↦ rw (get-insert j id row shares, f) h
  ]

  -- A row that is replaced keeps its seal.
  kept :
      (j : Bytes) (old row : ShareRow) (shares : List (Bytes × ShareRow))
      → get j shares ≡ some old
      → row.is_sealed ≡ old.is_sealed
      → ClosedRow Absent (get id shares)
      → ClosedRow Absent (get id (insert j row shares))
  kept j old row shares there same h =
      inserted j row shares
        (λ t.
          same
          ∙ subst (ClosedRow Absent)
              (ap (λ k. get k shares) (sym ((bytes_eq_iff j id).0 t)) ∙ there) h)
        h

  total-IsClosed : (j : Bytes) (st : ShareStore) → IsClosed st → IsClosed (update_total j st)
  unfolding IsClosed
  total-IsClosed j st h = elim (Option-cases (get j st.shares)) [
    | inl gone ↦ subst (λ s. ClosedRow Absent (get id s.shares)) (sym (not_updated j st gone)) h
    | inr (row, there) ↦
        subst (λ (s : ShareStore). ClosedRow Absent (get id s.shares))
          (sym (updated j row st there)) (kept j row _ st.shares there refl h)
  ]

  seal-IsClosed : (j : Bytes) (st : ShareStore) → IsClosed st → IsClosed (mark_sealed j st).0
  unfolding IsClosed mark_sealed
  seal-IsClosed j st h = elim (Option-cases (get j st.shares)) [
    | inl gone ↦ rw (gone, mark_sealed) h
    | inr (row, there) ↦ rw (there, mark_sealed) (inserted j _ st.shares (λ t. refl) h)
  ]

  token-IsClosed :
      (j token : Bytes) (st : ShareStore) → IsClosed st → IsClosed (set_bundle_token j token st).0
  unfolding IsClosed set_bundle_token
  token-IsClosed j token st h = elim (Option-cases (get j st.shares)) [
    | inl gone ↦ rw (gone, set_bundle_token) h
    | inr (row, there) ↦ elim (Bool-cases row.is_sealed) [
      | inl t ↦ rw (there, t, set_bundle_token) h
      | inr u ↦
          rw (there, u, set_bundle_token)
            (kept j row (record row { is_sealed = false; bundle_token = some token }) st.shares
              there (sym u) h)
    ]
  ]

  record-IsClosed :
      (j blob_id : Bytes) (bytes : ℕ) (st : ShareStore)
      → IsClosed st
      → IsClosed (record_blob j blob_id bytes st).0
  unfolding record_blob IsClosed
  record-IsClosed j blob_id bytes st h = elim (Option-cases (get j st.shares)) [
    | inl gone ↦ rw (gone, record_blob) h
    | inr (row, there) ↦
        rw (there, record_blob)
          (total-IsClosed j
            (record st {
              blobs =
                  record { share_id = j; blob_id = blob_id; bytes = bytes }
                  ∷ drop_blob j blob_id st.blobs;
            })
            h)
  ]

  revoke-IsClosed : (j : Bytes) (st : ShareStore) → IsClosed st → IsClosed (revoke_share j st).0
  unfolding IsClosed revoke_share
  revoke-IsClosed j st h = elim (Option-cases (get j st.shares)) [
    | inl gone ↦ rw (gone, revoke_share) h
    | inr (row, there) ↦ rw (there, revoke_share) (kept j row _ st.shares there refl h)
  ]

  -- The calls that neither make nor purge a share.
  other-IsClosed :
      (c : Call) (st : ShareStore)
      → ((now : ℕ) (j : Bytes) (kind : ShareKind) (expires_at : ℕ) (nonce : Bytes)
          → c ≡ create_call now j kind expires_at nonce
          → IsClosed (create_share now j kind expires_at nonce st).0)
      → ((ids : List Bytes) → c ≡ purge_call ids → IsClosed (delete_shares ids st))
      → IsClosed st
      → IsClosed (call c st)
  unfolding call delete_blob IsClosed
  other-IsClosed (create_call now j kind expires_at nonce) st made purged h =
      made now j kind expires_at nonce refl
  other-IsClosed (seal_call j) st made purged h = seal-IsClosed j st h
  other-IsClosed (token_call j token) st made purged h = token-IsClosed j token st h
  other-IsClosed (record_call j blob_id bytes) st made purged h =
      record-IsClosed j blob_id bytes st h
  other-IsClosed (revoke_call j) st made purged h = revoke-IsClosed j st h
  other-IsClosed (delete_call j blob_id) st made purged h =
      total-IsClosed j (record st { blobs = drop_blob j blob_id st.blobs }) h
  other-IsClosed (purge_call ids) st made purged h = purged ids refl

  create_other-IsClosed :
      (now : ℕ) (j : Bytes) (kind : ShareKind) (expires_at : ℕ) (nonce : Bytes) (st : ShareStore)
      → (bytes_eq j id ≡ false) ⊎ (get j st.shares ≢ none)
      → IsClosed st
      → IsClosed (create_share now j kind expires_at nonce st).0
  unfolding IsClosed create_share
  create_other-IsClosed now j kind expires_at nonce st o h = elim (Option-cases (get j st.shares)) [
    | inr (row, there) ↦ rw (there, create_share) h
    | inl gone ↦ elim o [
      | inr there ↦ absurd (there gone)
      | inl f ↦ rw (gone, create_share) (inserted j _ st.shares (λ t. cc) h)
    ]
  ]

  refused :
      (st : ShareStore) (presented : Bytes) (now : ℕ)
      → IsClosed st
      → verify_bundle_token id presented now st ≡ false
  unfolding IsClosed verify_bundle_token
  refused st presented now h = elim (Option-cases (get id st.shares)) [
    | inl gone ↦ rw (gone, verify_bundle_token)
    | inr (row, there) ↦ rw (there, subst (ClosedRow Absent) there h, verify_bundle_token)
  ]

  no_token :
      (st : ShareStore) (token : Bytes)
      → IsClosed st
      → set_bundle_token id token st ≡ (st, err not_found)
  unfolding IsClosed set_bundle_token
  no_token st token h = elim (Option-cases (get id st.shares)) [
    | inl gone ↦ rw (gone, set_bundle_token)
    | inr (row, there) ↦ rw (there, subst (ClosedRow Absent) there h, set_bundle_token)
  ]

module _ (id : Bytes) where
  -- A share that is sealed, or not there: until a share of its id is made.
  purge-IsClosed :
      (ids : List Bytes) (st : ShareStore)
      → IsClosed id Unit st
      → IsClosed id Unit (delete_shares ids st)
  unfolding delete_shares IsClosed
  purge-IsClosed [] st h = h
  purge-IsClosed (j ∷ ids) st h = purge-IsClosed ids _ (elim (Bool-cases (bytes_eq j id)) [
    | inl t ↦ rw (get-remove j id st.shares, t) tt
    | inr f ↦ rw (get-remove j id st.shares, f) h
  ])

  calls-IsClosed :
      (cs : List Call) (st : ShareStore)
      → All (λ c. creates id c ≡ false) cs
      → IsClosed id Unit st
      → IsClosed id Unit (calls cs st)
  unfolding calls
  calls-IsClosed [] st f h = h
  calls-IsClosed (c ∷ cs) st f h = calls-IsClosed cs (call c st) f.1 (
      other-IsClosed id Unit c st
        (λ now j kind expires_at nonce e.
          create_other-IsClosed id Unit now j kind expires_at nonce st
            (inl (sym (ap (creates id) e) ∙ f.0)) h)
        (λ ids e. purge-IsClosed ids st h) h)

  -- A share that is there and sealed: until it is purged.
  kept_by_purge :
      (ids : List Bytes) (st : ShareStore)
      → any (λ j. bytes_eq j id) ids ≡ false
      → IsClosed id ⊥ st
      → IsClosed id ⊥ (delete_shares ids st)
  unfolding delete_shares IsClosed
  kept_by_purge [] st f h = h
  kept_by_purge (j ∷ ids) st f h =
      let apart : bytes_eq j id ≡ false = ground (arith, f) in
      kept_by_purge ids _ (ground (arith, f)) (rw (get-remove j id st.shares, apart) h)

  there_still : (st : ShareStore) → IsClosed id ⊥ st → get id st.shares ≢ none
  unfolding IsClosed
  there_still st h gone = subst (ClosedRow ⊥) gone h

  made_again :
      (j : Bytes) (st : ShareStore)
      → IsClosed id ⊥ st
      → (bytes_eq j id ≡ false) ⊎ (get j st.shares ≢ none)
  made_again j st h = elim (Bool-cases (bytes_eq j id)) [
    | inr other ↦ inl other
    | inl same ↦ inr (λ gone.
        there_still st h (ap (λ k. get k st.shares) (sym ((bytes_eq_iff j id).0 same)) ∙ gone))
  ]

  calls_keep_seal :
      (cs : List Call) (st : ShareStore)
      → All (λ c. purges id c ≡ false) cs
      → IsClosed id ⊥ st
      → IsClosed id ⊥ (calls cs st)
  unfolding calls
  calls_keep_seal [] st f h = h
  calls_keep_seal (c ∷ cs) st f h = calls_keep_seal cs (call c st) f.1 (
      other-IsClosed id ⊥ c st
        (λ now j kind expires_at nonce e.
          create_other-IsClosed id ⊥ now j kind expires_at nonce st (made_again j st h) h)
        (λ ids e. kept_by_purge ids st (sym (ap (purges id) e) ∙ f.0) h) h)

  weaker : (st : ShareStore) → IsClosed id ⊥ st → IsClosed id Unit st
  unfolding IsClosed
  weaker st h = elim (Option-cases (get id st.shares)) [
    | inl gone ↦ absurd (there_still st h gone)
    | inr (row, there) ↦ subst (ClosedRow Unit) (sym there) (subst (ClosedRow ⊥) there h)
  ]

  sealed-IsClosed :
      (st : ShareStore) → (mark_sealed id st).1 ≡ ok tt → IsClosed id ⊥ (mark_sealed id st).0
  unfolding IsClosed mark_sealed
  sealed-IsClosed st h = elim (Option-cases (get id st.shares)) [
    | inl gone ↦ cc (rw (gone, mark_sealed) at h)
    | inr (row, there) ↦ rw (there, mark_sealed, get-insert_self id _ st.shares) refl
  ]

-- Once a share has been sealed, no token opens it for uploads and none can be set, however late and
-- whatever calls come in between, an attempt to create a share of the same id included: only after a
-- purge that removes the share must no share of that id be created.
pub verify_bundle_token-mark_sealed :
    (id : Bytes) (before after : List Call) (st : ShareStore) (presented token : Bytes) (now : ℕ)
    → (mark_sealed id st).1 ≡ ok tt
    → All (λ c. purges id c ≡ false) before
    → All (λ c. creates id c ≡ false) after
    → let then = calls after (calls before (mark_sealed id st).0) in
      (verify_bundle_token id presented now then ≡ false)
      × ((set_bundle_token id token then).1 ≡ err not_found)
verify_bundle_token-mark_sealed id before after st presented token now h f g =
    let sealed = calls_keep_seal id before (mark_sealed id st).0 f (sealed-IsClosed id st h) in
    let closed =
      calls-IsClosed id after (calls before (mark_sealed id st).0) g (weaker id _ sealed) in
    (refused id Unit _ presented now closed, ap (λ r. r.1) (no_token id Unit _ token closed))
