-- ===== src/RateLimit/Storage/Conservation.antt =====
-- The totals of `ShareStoragePerIpTracker` of byo-relay/src/rate_limit.rs, over calls one after the
-- other.
use wattcloud.Common.{
  ℕ, ◌+◌, ◌≤◌, ◌≡◌, refl, sym, ap, subst, ◌∙◌, inl, inr, ◌||◌, Bool-cases, Option-cases, List, [],
  ◌∷◌, ◌==◌, arith,
}
use wattcloud.Common.Bytes.{Bytes, max_u64, saturating_add, bytes_eq_inst}
use wattcloud.Common.Maps.{get}
use wattcloud.RateLimit.{IpAddr, IpBucket, bucket_of, bucket_eq_inst, or_default}
use wattcloud.RateLimit.Storage.{
  ShareStoragePerIpTracker, new, register_total, end_register, register, release_total, end_release,
  release,
}
use wattcloud.RateLimit.Storage.Held.{
  share, held, Unique, held-insert_new, held-insert_old, held-remove, insert-Unique, remove-Unique,
  share-le-held, share_self, share-add, no_saturation, register_share_off, register_share_new,
  register_share_old, release_share-none, release_share-some, credited, debited,
}

data Event : Type 0 where
  registered : IpAddr → Bytes → ℕ → Event
  released : Bytes → Event

step : ShareStoragePerIpTracker → Event → ShareStoragePerIpTracker
step t (registered ip share_id bytes) = register t ip share_id bytes
step t (released share_id) = release t share_id

steps : ShareStoragePerIpTracker → List Event → ShareStoragePerIpTracker
steps t [] = t
steps t (x ∷ xs) = steps (step t x) xs

-- All bytes that were registered, released or not.
abbrev volume : List Event → ℕ
volume [] = 0
volume (registered ip share_id bytes ∷ xs) = bytes + volume xs
volume (released share_id ∷ xs) = volume xs

-- The balance of the books when `n` bytes in all have been registered.
record Balanced (n : ℕ) (t : ShareStoragePerIpTracker) : Type 0 where
  unique : Unique t.by_share
  balance : (b : IpBucket) → or_default 0 (get b t.totals) ≡ held b t.by_share
  bounded : (b : IpBucket) → held b t.by_share ≤ n

register-Balanced :
    (n : ℕ) (t : ShareStoragePerIpTracker) (ip : IpAddr) (id : Bytes) (bytes : ℕ)
    → n + bytes ≤ max_u64
    → Balanced n t
    → Balanced (n + bytes) (register t ip id bytes)
unfolding register register_total
register-Balanced n t ip id bytes room h =
    elim (Bool-cases ((t.max_bytes_per_ip == 0) || (bytes == 0))) [
      | inl off ↦
          subst (λ r. Balanced (n + bytes) (end_register bytes r))
            (sym (register_share_off t ip id bytes off))
            (record {
              unique = h.unique;
              balance = h.balance;
              bounded = λ b. omega (arith, h.bounded b);
            })
      | inr on ↦ elim (Option-cases (get id t.by_share)) [
        | inl absent ↦
            let grown =
              λ (b : IpBucket). held-insert_new b id (bucket_of ip, bytes) t.by_share absent in
            let small : or_default 0 (get (bucket_of ip) t.totals) ≤ n =
              omega (arith, h.balance (bucket_of ip), h.bounded (bucket_of ip)) in
            subst (λ r. Balanced (n + bytes) (end_register bytes r))
              (sym (register_share_new t ip id bytes on absent))
              (record {
                unique = insert-Unique id (bucket_of ip, bytes) t.by_share h.unique;
                balance = λ b. omega (
                  arith,
                  grown b,
                  h.balance b,
                  credited b (bucket_of ip) bytes n t.totals small room,
                );
                bounded = λ b. ground (arith, grown b, h.bounded b);
              })
        | inr ((bucket, total), present) ↦
            let mine : total ≤ n = omega (
              arith,
              share-le-held bucket id (bucket, total) t.by_share present,
              share_self bucket total,
              h.bounded bucket,
            ) in
            let sum = no_saturation total bytes n mine room in
            let grown = λ (b : IpBucket).
              held-insert_old b id (bucket, saturating_add total bytes) (bucket, total) t.by_share
                present in
            let added : (b : IpBucket)
                → share b (bucket, saturating_add total bytes)
                  ≡ share b (bucket, total) + share b (bucket, bytes) =
              λ b. ap (λ x. share b (bucket, x)) sum ∙ share-add b bucket total bytes in
            let at_most : (b : IpBucket) → share b (bucket, bytes) ≤ bytes = λ b. ground arith in
            let small : or_default 0 (get bucket t.totals) ≤ n =
              omega (arith, h.balance bucket, h.bounded bucket) in
            subst (λ r. Balanced (n + bytes) (end_register bytes r))
              (sym (register_share_old t ip id bytes bucket total on present))
              (record {
                unique = insert-Unique id (bucket, saturating_add total bytes) t.by_share h.unique;
                balance = λ b. omega (
                  arith,
                  grown b,
                  added b,
                  h.balance b,
                  credited b bucket bytes n t.totals small room,
                );
                bounded = λ b. omega (arith, grown b, added b, h.bounded b, at_most b);
              })
      ]
    ]

release-Balanced :
    (n : ℕ) (t : ShareStoragePerIpTracker) (id : Bytes) → Balanced n t → Balanced n (release t id)
unfolding release release_total
release-Balanced n t id h = elim (Option-cases (get id t.by_share)) [
  | inl absent ↦ subst (λ r. Balanced n (end_release r)) (sym (release_share-none t id absent)) h
  | inr ((bucket, bytes), present) ↦
      let shrunk = λ (b : IpBucket). held-remove b id (bucket, bytes) t.by_share h.unique present in
      subst (λ r. Balanced n (end_release r))
        (sym (release_share-some t id (bucket, bytes) present))
        (record {
          unique = remove-Unique id t.by_share h.unique;
          balance = λ b. omega (arith, shrunk b, h.balance b, debited b bucket bytes t.totals);
          bounded = λ b. omega (arith, shrunk b, h.bounded b);
        })
]

steps-Balanced :
    (xs : List Event) (n : ℕ) (t : ShareStoragePerIpTracker)
    → n + volume xs ≤ max_u64
    → Balanced n t
    → Balanced (n + volume xs) (steps t xs)
unfolding steps step
steps-Balanced [] n t room h = subst (λ k. Balanced k t) (omega arith) h
steps-Balanced (registered ip id bytes ∷ xs) n t room h =
    subst (λ k. Balanced k (steps (register t ip id bytes) xs)) (omega arith)
      (steps-Balanced xs (n + bytes) (register t ip id bytes) (omega arith)
        (register-Balanced n t ip id bytes (omega arith) h))
steps-Balanced (released id ∷ xs) n t room h =
    steps-Balanced xs n (release t id) room (release-Balanced n t id h)

-- After any sequence of registrations, of 2 ^ 64 - 1 bytes at most in all, and of releases, each of
-- which ends before the next one starts, the total that is kept for a bucket is the sum of what the
-- shares that are still there hold for it.
steps-new :
    (max_bytes_per_ip : ℕ) (xs : List Event) (b : IpBucket)
    → volume xs ≤ max_u64
    → let t = steps (new max_bytes_per_ip) xs in or_default 0 (get b t.totals) ≡ held b t.by_share
unfolding get
steps-new max_bytes_per_ip xs b room =
    (steps-Balanced xs 0 (new max_bytes_per_ip) (omega arith)
        (record { unique = tt; balance = λ _. refl; bounded = λ _. omega arith })).balance
      b
