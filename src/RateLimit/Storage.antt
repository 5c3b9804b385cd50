-- ===== src/RateLimit/Storage.antt =====
-- `ShareStoragePerIpTracker` of byo-relay/src/rate_limit.rs.
pub mod Held
pub mod Conservation
pub mod Interleaved
use wattcloud.Common.{
  ℕ, ◌+◌, ◌-◌, Bool, true, false, ◌||◌, Option, none, some, List, [], ◌∷◌, leb, ◌==◌, if◌then◌else◌,
}
use wattcloud.Common.Bytes.{Bytes, max_u64, saturating_add, bytes_eq_inst}
use wattcloud.Common.Maps.{get, insert, remove}
use wattcloud.RateLimit.{IpAddr, IpBucket, bucket_of, bucket_eq_inst, or_default}

pub record ShareStoragePerIpTracker : Type 0 where
  pub totals : List (IpBucket × ℕ)
  pub by_share : List (Bytes × (IpBucket × ℕ))
  pub max_bytes_per_ip : ℕ

abbrev pub new : ℕ → ShareStoragePerIpTracker
new max_bytes_per_ip = record { totals = []; by_share = []; max_bytes_per_ip = max_bytes_per_ip }

-- `would_accept`
unfoldable pub would_accept : ShareStoragePerIpTracker → IpAddr → ℕ → Bool
would_accept t ip additional_bytes =
    if t.max_bytes_per_ip == 0
    then true
    else leb (saturating_add (or_default 0 (get (bucket_of ip) t.totals)) additional_bytes)
        t.max_bytes_per_ip

-- `totals.entry(bucket).or_insert(0)`, and the bytes added.
abbrev pub credit : IpBucket → ℕ → List (IpBucket × ℕ) → List (IpBucket × ℕ)
credit bucket bytes totals =
    insert bucket (saturating_add (or_default 0 (get bucket totals)) bytes) totals

-- `register`, under the lock of `by_share`: further bytes of a share go to the bucket of its first.
-- `none` is the early return.
unfoldable pub register_share :
    ShareStoragePerIpTracker → IpAddr → Bytes → ℕ → ShareStoragePerIpTracker × Option IpBucket
register_share t ip share_id bytes =
    if (t.max_bytes_per_ip == 0) || (bytes == 0)
    then (t, none)
    else elim (get share_id t.by_share) [
      | some (existing_bucket, total) ↦ (
        record t {
          by_share = insert share_id (existing_bucket, saturating_add total bytes) t.by_share;
        },
        some existing_bucket,
      )
      | none ↦ (
        record t { by_share = insert share_id (bucket_of ip, bytes) t.by_share },
        some (bucket_of ip),
      )
    ]

-- `register`, under the lock of `totals`
unfoldable pub register_total : ShareStoragePerIpTracker → IpBucket → ℕ → ShareStoragePerIpTracker
register_total t resolved_bucket bytes = record t { totals = credit resolved_bucket bytes t.totals }

-- `register`, when no other call comes between its two locks.
abbrev pub end_register : ℕ → ShareStoragePerIpTracker × Option IpBucket → ShareStoragePerIpTracker
end_register bytes (t, none) = t
end_register bytes (t, some resolved_bucket) = register_total t resolved_bucket bytes

unfoldable pub register : ShareStoragePerIpTracker → IpAddr → Bytes → ℕ → ShareStoragePerIpTracker
register t ip share_id bytes = end_register bytes (register_share t ip share_id bytes)

abbrev pub debit : IpBucket → ℕ → List (IpBucket × ℕ) → List (IpBucket × ℕ)
debit bucket bytes totals = elim (get bucket totals) [
  | none ↦ totals
  | some total ↦
      if total - bytes == 0 then remove bucket totals else insert bucket (total - bytes) totals
]

-- `release`, under the lock of `by_share`
unfoldable pub release_share :
    ShareStoragePerIpTracker → Bytes → ShareStoragePerIpTracker × Option (IpBucket × ℕ)
release_share t share_id =
    (record t { by_share = remove share_id t.by_share }, get share_id t.by_share)

-- `release`, under the lock of `totals`
unfoldable pub release_total : ShareStoragePerIpTracker → IpBucket → ℕ → ShareStoragePerIpTracker
release_total t bucket bytes = record t { totals = debit bucket bytes t.totals }

-- `release`, when no other call comes between its two locks.
abbrev pub end_release : ShareStoragePerIpTracker × Option (IpBucket × ℕ) → ShareStoragePerIpTracker
end_release (t, none) = t
end_release (t, some (bucket, bytes)) = release_total t bucket bytes

unfoldable pub release : ShareStoragePerIpTracker → Bytes → ShareStoragePerIpTracker
release t share_id = end_release (release_share t share_id)

-- `used`
abbrev pub used : ShareStoragePerIpTracker → IpAddr → ℕ
used t ip = or_default 0 (get (bucket_of ip) t.totals)
