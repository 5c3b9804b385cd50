-- ===== src/RateLimit/Storage/Held.antt =====
-- What the shares of `ShareStoragePerIpTracker` of byo-relay/src/rate_limit.rs hold, and what each half
-- of a call does to it.
use wattcloud.Common.{
  ℕ, ◌+◌, ◌-◌, ◌≤◌, ◌≡◌, refl, sym, ap, ap₂, ◌∙◌, inl, inr, true, false, ◌||◌, Bool-cases, Option,
  none, some, Option-cases, List, [], ◌∷◌, ◌==◌, if◌then◌else◌, arith,
}
use wattcloud.Common.Bytes.{Bytes, max_u64, saturating_add, bytes_eq, bytes_eq_iff, bytes_eq_inst}
use wattcloud.Common.Maps.{get, insert, remove, get-insert, get-remove}
use wattcloud.RateLimit.{
  IpAddr, IpBucket, bucket_of, bucket_eq, bucket_eq_iff, bucket_eq_inst, or_default,
}
use wattcloud.RateLimit.Storage.{
  ShareStoragePerIpTracker, register_share, release_share, credit, debit,
}

-- What a share holds for a bucket, and what all shares hold.
abbrev pub share : IpBucket → IpBucket × ℕ → ℕ
share b (bucket, n) = if bucket_eq bucket b then n else 0

abbrev pub held : IpBucket → List (Bytes × (IpBucket × ℕ)) → ℕ
held b [] = 0
held b ((k, v) ∷ m) = share b v + held b m

abbrev pub Unique : List (Bytes × (IpBucket × ℕ)) → Type 0
Unique [] = Unit
Unique ((k, v) ∷ m) = (get k m ≡ none) × Unique m

pub held-insert_new :
    (b : IpBucket) (k : Bytes) (v : IpBucket × ℕ) (m : List (Bytes × (IpBucket × ℕ)))
    → get k m ≡ none
    → held b (insert k v m) ≡ held b m + share b v
unfolding get insert
held-insert_new b k v [] h = omega arith
held-insert_new b k v ((j, w) ∷ m) h = elim (Bool-cases (bytes_eq j k)) [
  | inl same ↦ cc (rw (same, get) at h)
  | inr other ↦
      let r = held-insert_new b k v m (rw (other, get) at h) in
      rw (other, insert) (omega (arith, r))
]

pub held-insert_old :
    (b : IpBucket) (k : Bytes) (v w : IpBucket × ℕ) (m : List (Bytes × (IpBucket × ℕ)))
    → get k m ≡ some w
    → held b (insert k v m) + share b w ≡ held b m + share b v
unfolding get insert
held-insert_old b k v w [] h = cc
held-insert_old b k v w ((j, u) ∷ m) h = elim (Bool-cases (bytes_eq j k)) [
  | inl same ↦
      let e : ◌≡◌ {A = Option (IpBucket × ℕ)} (some u) (some w) = rw (same, get) at h in
      let f : share b u ≡ share b w = ap (share b) (cc e) in rw (same, insert) (omega (arith, f))
  | inr other ↦
      let r = held-insert_old b k v w m (rw (other, get) at h) in
      rw (other, insert) (omega (arith, r))
]

pub remove-absent :
    (k : Bytes) (m : List (Bytes × (IpBucket × ℕ))) → get k m ≡ none → remove k m ≡ m
unfolding get remove
remove-absent k [] h = refl
remove-absent k ((j, w) ∷ m) h = elim (Bool-cases (bytes_eq j k)) [
  | inl same ↦ cc (rw (same, get) at h)
  | inr other ↦ rw (other, remove) (ap (◌∷◌ (j, w)) (remove-absent k m (rw (other, get) at h)))
]

pub held-remove :
    (b : IpBucket) (k : Bytes) (w : IpBucket × ℕ) (m : List (Bytes × (IpBucket × ℕ)))
    → Unique m
    → get k m ≡ some w
    → held b (remove k m) + share b w ≡ held b m
unfolding get remove
held-remove b k w [] u h = cc
held-remove b k w ((j, v) ∷ m) (fresh, u) h = elim (Bool-cases (bytes_eq j k)) [
  | inl same ↦
      let e : ◌≡◌ {A = Option (IpBucket × ℕ)} (some v) (some w) = rw (same, get) at h in
      let f : share b v ≡ share b w = ap (share b) (cc e) in
      let absent : get k m ≡ none = ap (λ t. get t m) (sym ((bytes_eq_iff j k).0 same)) ∙ fresh in
      rw (same, remove) (omega (arith, f, ap (held b) (remove-absent k m absent)))
  | inr other ↦
      let r = held-remove b k w m u (rw (other, get) at h) in rw (other, remove) (omega (arith, r))
]

pub insert-Unique :
    (k : Bytes) (v : IpBucket × ℕ) (m : List (Bytes × (IpBucket × ℕ)))
    → Unique m
    → Unique (insert k v m)
unfolding insert get
insert-Unique k v [] u = (refl, tt)
insert-Unique k v ((j, w) ∷ m) (fresh, u) = elim (Bool-cases (bytes_eq j k)) [
  | inl same ↦ rw (same, insert) (fresh, u)
  | inr other ↦
      let apart : bytes_eq k j ≡ false =
        ground (arith, other, bytes_eq_iff j k, bytes_eq_iff k j) in
      rw (other, insert) (ground (arith, get-insert k j v m, apart, fresh), insert-Unique k v m u)
]

pub remove-Unique : (k : Bytes) (m : List (Bytes × (IpBucket × ℕ))) → Unique m → Unique (remove k m)
unfolding remove
remove-Unique k [] u = tt
remove-Unique k ((j, w) ∷ m) (fresh, u) = elim (Bool-cases (bytes_eq j k)) [
  | inl same ↦ rw (same, remove) (remove-Unique k m u)
  | inr other ↦ rw (other, remove) (ground (arith, get-remove k j m, fresh), remove-Unique k m u)
]

pub share-le-held :
    (b : IpBucket) (k : Bytes) (w : IpBucket × ℕ) (m : List (Bytes × (IpBucket × ℕ)))
    → get k m ≡ some w
    → share b w ≤ held b m
unfolding get
share-le-held b k w [] h = cc
share-le-held b k w ((j, v) ∷ m) h = elim (Bool-cases (bytes_eq j k)) [
  | inl same ↦
      let e : ◌≡◌ {A = Option (IpBucket × ℕ)} (some v) (some w) = rw (same, get) at h in
      let f : share b v ≡ share b w = ap (share b) (cc e) in omega (arith, f)
  | inr other ↦ omega (arith, share-le-held b k w m (rw (other, get) at h))
]

pub bucket_eq_self : (b : IpBucket) → bucket_eq b b ≡ true
bucket_eq_self b = (bucket_eq_iff b b).1 refl

pub bucket_eq_sound : (a b : IpBucket) → bucket_eq a b ≡ true → a ≡ b
bucket_eq_sound a b = (bucket_eq_iff a b).0

pub share_self : (b : IpBucket) (n : ℕ) → share b (b, n) ≡ n
share_self b n = rw (bucket_eq_self b)

pub no_saturation : (a b n : ℕ) → a ≤ n → n + b ≤ max_u64 → saturating_add a b ≡ a + b
no_saturation a b n h g = ground arith

pub credited :
    (b bucket : IpBucket) (bytes n : ℕ) (totals : List (IpBucket × ℕ))
    → or_default 0 (get bucket totals) ≤ n
    → n + bytes ≤ max_u64
    → or_default 0 (get b (credit bucket bytes totals))
      ≡ or_default 0 (get b totals) + share b (bucket, bytes)
credited b bucket bytes n totals small room =
    let sum = no_saturation (or_default 0 (get bucket totals)) bytes n small room in
    elim (Bool-cases (bucket_eq bucket b)) [
      | inl same ↦
          let e = bucket_eq_sound bucket b same in
          rw
            (
              get-insert bucket b (saturating_add (or_default 0 (get bucket totals)) bytes) totals,
              same,
            )
            (sum ∙ ap (λ t. or_default 0 (get t totals) + bytes) e)
      | inr other ↦
          rw
            (
              get-insert bucket b (saturating_add (or_default 0 (get bucket totals)) bytes) totals,
              other,
            )
            (omega arith)
    ]

pub share-add :
    (b bucket : IpBucket) (x y : ℕ)
    → share b (bucket, x + y) ≡ share b (bucket, x) + share b (bucket, y)
share-add b bucket x y = ground arith

-- The early return.
pub register_share_off :
    (t : ShareStoragePerIpTracker) (ip : IpAddr) (id : Bytes) (bytes : ℕ)
    → ((t.max_bytes_per_ip == 0) || (bytes == 0)) ≡ true
    → register_share t ip id bytes ≡ (t, none)
unfolding register_share
register_share_off t ip id bytes off = rw (off, register_share)

pub register_share_new :
    (t : ShareStoragePerIpTracker) (ip : IpAddr) (id : Bytes) (bytes : ℕ)
    → ((t.max_bytes_per_ip == 0) || (bytes == 0)) ≡ false
    → get id t.by_share ≡ none
    → register_share t ip id bytes
      ≡ (record t { by_share = insert id (bucket_of ip, bytes) t.by_share }, some (bucket_of ip))
unfolding register_share
register_share_new t ip id bytes on absent = rw (on, absent, register_share)

pub register_share_old :
    (t : ShareStoragePerIpTracker) (ip : IpAddr) (id : Bytes) (bytes : ℕ) (bucket : IpBucket)
    (total : ℕ)
    → ((t.max_bytes_per_ip == 0) || (bytes == 0)) ≡ false
    → get id t.by_share ≡ some (bucket, total)
    → register_share t ip id bytes ≡ (
      record t { by_share = insert id (bucket, saturating_add total bytes) t.by_share },
      some bucket,
    )
unfolding register_share
register_share_old t ip id bytes bucket total on present = rw (on, present, register_share)

pub release_share-none :
    (t : ShareStoragePerIpTracker) (id : Bytes)
    → get id t.by_share ≡ none
    → release_share t id ≡ (t, none)
unfolding release_share
release_share-none t id absent =
    ap₂ (λ m o. (record t { by_share = m }, o)) (remove-absent id t.by_share absent) absent

pub release_share-some :
    (t : ShareStoragePerIpTracker) (id : Bytes) (removed : IpBucket × ℕ)
    → get id t.by_share ≡ some removed
    → release_share t id ≡ (record t { by_share = remove id t.by_share }, some removed)
unfolding release_share
release_share-some t id removed present =
    ap (λ o. (record t { by_share = remove id t.by_share }, o)) present

pub debited :
    (b bucket : IpBucket) (bytes : ℕ) (totals : List (IpBucket × ℕ))
    → or_default 0 (get b (debit bucket bytes totals))
      ≡ or_default 0 (get b totals) - share b (bucket, bytes)
debited b bucket bytes totals = elim (Option-cases (get bucket totals)) [
  | inl absent ↦
      rw (absent, debit)
        (elim (Bool-cases (bucket_eq bucket b)) [
          | inl same ↦
              let e : get b totals ≡ none =
                ap (λ t. get t totals) (sym (bucket_eq_sound bucket b same)) ∙ absent in
              rw (e, same) (omega arith)
          | inr other ↦ rw other (omega arith)
        ])
  | inr (total, present) ↦ ground (
    arith,
    present,
    get-remove bucket b totals,
    get-insert bucket b (total - bytes) totals,
    bucket_eq_sound bucket b,
  )
]
