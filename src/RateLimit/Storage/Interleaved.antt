-- ===== src/RateLimit/Storage/Interleaved.antt =====
-- `ShareStoragePerIpTracker` of byo-relay/src/rate_limit.rs under calls that interleave: `register` and
-- `release` take the lock of `by_share` and, when they have let it go, the lock of `totals`.
use wattcloud.Common.{
  ℕ, ◌+◌, ◌≤◌, ◌≡◌, ◌≢◌, refl, sym, ap, subst, ◌∙◌, inl, inr, false, ◌||◌, Bool-cases, Option, none,
  some, Option-cases, List, [], ◌∷◌, ◌++◌, ◌==◌, arith,
}
use wattcloud.Common.Bytes.{Bytes, max_u64, saturating_add, bytes_eq_inst, bytes_eq_refl}
use wattcloud.Common.Maps.{get, insert, remove, get-insert_self, get-remove}
use wattcloud.RateLimit.{IpAddr, IpBucket, bucket_of, bucket_eq_inst, or_default}
use wattcloud.RateLimit.Storage.{
  ShareStoragePerIpTracker, new, register_share, register_total, release_share, release_total,
  end_release, release, credit, debit,
}
use wattcloud.RateLimit.Storage.Held.{
  share, held, Unique, held-insert_new, held-insert_old, held-remove, insert-Unique, remove-Unique,
  share-le-held, share_self, share-add, no_saturation, register_share_off, register_share_new,
  register_share_old, release_share-none, release_share-some, credited, debited,
}

-- The tracker, and the calls between their two locks: the credits and the debits to come.
pub record Shared : Type 0 where
  pub tracker : ShareStoragePerIpTracker
  pub credits : List (IpBucket × ℕ)
  pub debits : List (IpBucket × ℕ)

abbrev pub to_credit : ℕ → Shared → ShareStoragePerIpTracker × Option IpBucket → Shared
to_credit bytes s (t, none) = record s { tracker = t }
to_credit bytes s (t, some bucket) = record s { tracker = t; credits = (bucket, bytes) ∷ s.credits }

unfoldable pub begin_register : IpAddr → Bytes → ℕ → Shared → Shared
begin_register ip share_id bytes s = to_credit bytes s (register_share s.tracker ip share_id bytes)

abbrev pub to_debit : Shared → ShareStoragePerIpTracker × Option (IpBucket × ℕ) → Shared
to_debit s (t, none) = record s { tracker = t }
to_debit s (t, some removed) = record s { tracker = t; debits = removed ∷ s.debits }

unfoldable pub begin_release : Bytes → Shared → Shared
begin_release share_id s = to_debit s (release_share s.tracker share_id)

-- What can be reached from a new tracker, with the bytes of all registrations that have begun. The
-- calls end in any order.
pub data Reachable (max_bytes_per_ip : ℕ) : ℕ → Shared → Type 0 where
  fresh :
      Reachable max_bytes_per_ip 0
        (record { tracker = new max_bytes_per_ip; credits = []; debits = [] })
  registers :
      {n : ℕ} {s : Shared} (ip : IpAddr) (share_id : Bytes) (bytes : ℕ)
      → Reachable max_bytes_per_ip n s
      → Reachable max_bytes_per_ip (n + bytes) (begin_register ip share_id bytes s)
  registered :
      {n : ℕ} {t : ShareStoragePerIpTracker} {debits : List (IpBucket × ℕ)}
      (before after : List (IpBucket × ℕ)) (bucket : IpBucket) (bytes : ℕ)
      → Reachable max_bytes_per_ip n
          (record { tracker = t; credits = before ++ (bucket, bytes) ∷ after; debits = debits })
      → Reachable max_bytes_per_ip n (record {
        tracker = register_total t bucket bytes;
        credits = before ++ after;
        debits = debits;
      })
  releases :
      {n : ℕ} {s : Shared} (share_id : Bytes)
      → Reachable max_bytes_per_ip n s
      → Reachable max_bytes_per_ip n (begin_release share_id s)
  released :
      {n : ℕ} {t : ShareStoragePerIpTracker} {credits : List (IpBucket × ℕ)}
      (before after : List (IpBucket × ℕ)) (bucket : IpBucket) (bytes : ℕ)
      → Reachable max_bytes_per_ip n
          (record { tracker = t; credits = credits; debits = before ++ (bucket, bytes) ∷ after })
      → Reachable max_bytes_per_ip n (record {
        tracker = release_total t bucket bytes;
        credits = credits;
        debits = before ++ after;
      })

-- What is to come for a bucket.
abbrev pub pending : IpBucket → List (IpBucket × ℕ) → ℕ
pending b [] = 0
pending b (x ∷ xs) = share b x + pending b xs

pending-middle :
    (b : IpBucket) (before after : List (IpBucket × ℕ)) (x : IpBucket × ℕ)
    → pending b (before ++ x ∷ after) ≡ share b x + pending b (before ++ after)
pending-middle b [] after x = refl
pending-middle b (y ∷ before) after x = omega (arith, pending-middle b before after x)

-- The total of a bucket, with the credits to come, is at least what its shares hold, with the debits
-- to come.
record Covered (n : ℕ) (s : Shared) : Type 0 where
  unique : Unique s.tracker.by_share
  covers :
      (b : IpBucket)
      → held b s.tracker.by_share + pending b s.debits
        ≤ or_default 0 (get b s.tracker.totals) + pending b s.credits
  bounded : (b : IpBucket) → or_default 0 (get b s.tracker.totals) + pending b s.credits ≤ n

begin_register-Covered :
    (n : ℕ) (s : Shared) (ip : IpAddr) (id : Bytes) (bytes : ℕ)
    → n + bytes ≤ max_u64
    → Covered n s
    → Covered (n + bytes) (begin_register ip id bytes s)
unfolding begin_register
begin_register-Covered n s ip id bytes room h =
    let t = s.tracker in
    let at_most : (b bucket : IpBucket) → share b (bucket, bytes) ≤ bytes =
      λ b bucket. ground arith in
    elim (Bool-cases ((t.max_bytes_per_ip == 0) || (bytes == 0))) [
      | inl off ↦
          subst (λ r. Covered (n + bytes) (to_credit bytes s r))
            (sym (register_share_off t ip id bytes off))
            (record {
              unique = h.unique;
              covers = h.covers;
              bounded = λ b. omega (arith, h.bounded b);
            })
      | inr on ↦ elim (Option-cases (get id t.by_share)) [
        | inl absent ↦
            subst (λ r. Covered (n + bytes) (to_credit bytes s r))
              (sym (register_share_new t ip id bytes on absent))
              (record {
                unique = insert-Unique id (bucket_of ip, bytes) t.by_share h.unique;
                covers = λ b. omega (
                  arith,
                  held-insert_new b id (bucket_of ip, bytes) t.by_share absent,
                  h.covers b,
                );
                bounded = λ b. omega (arith, h.bounded b, at_most b (bucket_of ip));
              })
        | inr ((bucket, total), present) ↦
            let mine : total ≤ n = omega (
              arith,
              share-le-held bucket id (bucket, total) t.by_share present,
              share_self bucket total,
              h.covers bucket,
              h.bounded bucket,
            ) in
            let sum = no_saturation total bytes n mine room in
            let added : (b : IpBucket)
                → share b (bucket, saturating_add total bytes)
                  ≡ share b (bucket, total) + share b (bucket, bytes) =
              λ b. ap (λ x. share b (bucket, x)) sum ∙ share-add b bucket total bytes in
            subst (λ r. Covered (n + bytes) (to_credit bytes s r))
              (sym (register_share_old t ip id bytes bucket total on present))
              (record {
                unique = insert-Unique id (bucket, saturating_add total bytes) t.by_share h.unique;
                covers = λ b. omega (
                  arith,
                  held-insert_old b id (bucket, saturating_add total bytes) (bucket, total)
                      t.by_share present,
                  added b,
                  h.covers b,
                );
                bounded = λ b. omega (arith, h.bounded b, at_most b bucket);
              })
      ]
    ]

begin_release-Covered :
    (n : ℕ) (s : Shared) (id : Bytes) → Covered n s → Covered n (begin_release id s)
unfolding begin_release
begin_release-Covered n s id h = elim (Option-cases (get id s.tracker.by_share)) [
  | inl absent ↦
      subst (λ r. Covered n (to_debit s r)) (sym (release_share-none s.tracker id absent))
        (record { unique = h.unique; covers = h.covers; bounded = h.bounded })
  | inr ((bucket, bytes), present) ↦
      subst (λ r. Covered n (to_debit s r))
        (sym (release_share-some s.tracker id (bucket, bytes) present))
        (record {
          unique = remove-Unique id s.tracker.by_share h.unique;
          covers = λ b. omega (
            arith,
            held-remove b id (bucket, bytes) s.tracker.by_share h.unique present,
            h.covers b,
          );
          bounded = h.bounded;
        })
]

Reachable-Covered :
    (max_bytes_per_ip n : ℕ) (s : Shared)
    → Reachable max_bytes_per_ip n s
    → n ≤ max_u64
    → Covered n s
unfolding register_total release_total get
Reachable-Covered m _ _ fresh room = record {
  unique = tt;
  covers = λ b. omega arith;
  bounded = λ b. omega arith;
}
Reachable-Covered m _ _ (registers {n = n} {s = s} ip id bytes r) room =
    begin_register-Covered n s ip id bytes room (Reachable-Covered m n s r (omega (arith, room)))
Reachable-Covered m n _ (registered {t = t} before after bucket bytes r) room =
    let h = Reachable-Covered m n _ r room in
    let mine = h.bounded bucket in
    let own = share_self bucket bytes in
    let booked = λ (b : IpBucket).
      credited b bucket bytes (or_default 0 (get bucket t.totals)) t.totals (omega arith)
        (omega (arith, mine, own, room, pending-middle bucket before after (bucket, bytes))) in
    record {
      unique = h.unique;
      covers =
          λ b. omega (arith, h.covers b, booked b, pending-middle b before after (bucket, bytes));
      bounded =
          λ b. omega (arith, h.bounded b, booked b, pending-middle b before after (bucket, bytes));
    }
Reachable-Covered m n _ (releases {s = s} id r) room =
    begin_release-Covered n s id (Reachable-Covered m n s r room)
Reachable-Covered m n _ (released {t = t} before after bucket bytes r) room =
    let h = Reachable-Covered m n _ r room in
    record {
      unique = h.unique;
      covers = λ b. omega (
        arith,
        h.covers b,
        debited b bucket bytes t.totals,
        pending-middle b before after (bucket, bytes),
      );
      bounded = λ b. omega (arith, h.bounded b, debited b bucket bytes t.totals);
    }

-- However registrations, of 2 ^ 64 - 1 bytes at most in all, and releases interleave, a bucket is never
-- credited with less than its shares hold: its total and the credits under way are at least what its
-- shares hold and the debits under way, and at most the bytes of all registrations.
pub reachable-covers :
    (max_bytes_per_ip n : ℕ) (s : Shared) (b : IpBucket)
    → Reachable max_bytes_per_ip n s
    → n ≤ max_u64
    → (held b s.tracker.by_share + pending b s.debits
        ≤ or_default 0 (get b s.tracker.totals) + pending b s.credits)
      × (or_default 0 (get b s.tracker.totals) + pending b s.credits ≤ n)
reachable-covers m n s b r room =
    let h = Reachable-Covered m n s r room in (h.covers b, h.bounded b)

-- Under a cap that is in force, a share with no bytes yet, of a bucket with none, gets its first ones, at
-- most 2 ^ 64 - 1, and its whole release comes between the two locks of that registration: in the end
-- the share is gone and its bytes are booked.
pub release-register_share :
    (t : ShareStoragePerIpTracker) (ip : IpAddr) (id : Bytes) (bytes : ℕ)
    → t.max_bytes_per_ip ≢ 0
    → bytes ≢ 0
    → bytes ≤ max_u64
    → get id t.by_share ≡ none
    → or_default 0 (get (bucket_of ip) t.totals) ≡ 0
    → let taken = release (register_share t ip id bytes).0 id in
      let left = register_total taken (bucket_of ip) bytes in
      ((register_share t ip id bytes).1 ≡ some (bucket_of ip))
      × (get id left.by_share ≡ none)
      × (or_default 0 (get (bucket_of ip) left.totals) ≡ bytes)
unfolding register_total release release_total
release-register_share t ip id bytes enforced some_bytes small absent empty =
    let b = bucket_of ip in
    let on : ((t.max_bytes_per_ip == 0) || (bytes == 0)) ≡ false =
      ground (arith, enforced, some_bytes) in
    let first = register_share_new t ip id bytes on absent in
    let t' : ShareStoragePerIpTracker = record t { by_share = insert id (b, bytes) t.by_share } in
    let there : get id t'.by_share ≡ some (b, bytes) = get-insert_self id (b, bytes) t.by_share in
    let taken : release t' id
        ≡ record t { by_share = remove id t'.by_share; totals = debit b bytes t.totals } =
      ap end_release (release_share-some t' id (b, bytes) there) in
    let whole : release (register_share t ip id bytes).0 id
        ≡ record t { by_share = remove id t'.by_share; totals = debit b bytes t.totals } =
      ap (λ r. release r.0 id) first ∙ taken in
    let nothing : or_default 0 (get b (debit b bytes t.totals)) ≡ 0 =
      omega (arith, debited b b bytes t.totals, empty) in
    (
      ap (λ r. r.1) first,
      ap (λ (r : ShareStoragePerIpTracker). get id r.by_share) whole
          ∙ get-remove id id t'.by_share
          ∙ rw (bytes_eq_refl id),
      ap (λ (r : ShareStoragePerIpTracker). or_default 0 (get b (credit b bytes r.totals))) whole
          ∙ omega (
            arith,
            credited b b bytes 0 (debit b bytes t.totals) (omega (arith, nothing))
                (omega (arith, small)),
            nothing,
            share_self b bytes,
          ),
    )
