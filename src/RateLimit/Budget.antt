-- ===== src/RateLimit/Budget.antt =====
-- `ByteBudgetTracker` of byo-relay/src/rate_limit.rs. The clock gives seconds since 1970.
use wattcloud.Common.{
  ℕ, ◌+◌, ◌-◌, ◌/◌, ◌<◌, ◌≡◌, ◌≢◌, refl, sym, ap, ◌∙◌, ◌⊎◌, inl, inr, Bool, true, false, Bool-cases,
  Option, none, some, Option-cases, List, [], ltb, leb, ◌==◌, if◌then◌else◌, length, arith,
}
use wattcloud.Common.Bytes.{max_u64, saturating_add}
use wattcloud.Common.Maps.{
  get, insert, retain, IsUnique, get-insert, get-retain_kept, get-retain-none, get-retain_dropped,
  insert-IsUnique, retain-IsUnique,
}
use wattcloud.RateLimit.{IpAddr, IpBucket, bucket_of, bucket_eq_inst}

pub record DailyByteCount : Type 0 where
  pub day : ℕ
  pub bytes : ℕ

pub record ByteBudgetTracker : Type 0 where
  pub state : List (IpBucket × DailyByteCount)
  pub limit_per_day : ℕ
  pub max_keys : ℕ

abbrev pub new : ℕ → ByteBudgetTracker
new limit_per_day = record { state = []; limit_per_day = limit_per_day; max_keys = 50000 }

-- The prune of entries from before yesterday, when the map is full.
unfoldable pub prune : ByteBudgetTracker → ℕ → List (IpBucket × DailyByteCount)
prune t today =
    if leb t.max_keys (length t.state) then retain (λ v. leb (today - 1) v.day) t.state else t.state

-- The bytes of an entry today; another day's are reset.
abbrev pub bytes_of : ℕ → Option DailyByteCount → ℕ
bytes_of today none = 0
bytes_of today (some e) = if e.day == today then e.bytes else 0

-- `try_consume`
unfoldable pub try_consume : ByteBudgetTracker → IpAddr → ℕ → ℕ → ByteBudgetTracker × Bool
try_consume t ip bytes now_unix_secs =
    if t.limit_per_day == 0
    then (t, true)
    else (let today = now_unix_secs / 86400 in
        let state = prune t today in
        let used = bytes_of today (get (bucket_of ip) state) in
        if ltb t.limit_per_day (saturating_add used bytes)
        then (
          record t { state = insert (bucket_of ip) (record { day = today; bytes = used }) state },
          false,
        )
        else (
          record t {
            state =
                insert (bucket_of ip) (record { day = today; bytes = saturating_add used bytes })
                  state;
          },
          true,
        ))

-- `remaining`
unfoldable pub remaining : ByteBudgetTracker → IpAddr → ℕ → ℕ
remaining t ip now_unix_secs =
    if t.limit_per_day == 0 then max_u64 else elim (get (bucket_of ip) t.state) [
      | none ↦ t.limit_per_day
      | some e ↦
          if e.day == now_unix_secs / 86400 then t.limit_per_day - e.bytes else t.limit_per_day
    ]

-- What the prune keeps of today.
bytes_of-prune :
    (t : ByteBudgetTracker) (today : ℕ) (b : IpBucket)
    → IsUnique t.state
    → bytes_of today (get b (prune t today)) ≡ bytes_of today (get b t.state)
unfolding prune
bytes_of-prune t today b u = elim (Bool-cases (leb t.max_keys (length t.state))) [
  | inr room ↦ rw (room, prune) refl
  | inl full ↦
      rw (full, prune)
        (elim (Option-cases (get b t.state)) [
          | inl absent ↦
              ap (bytes_of today)
                (get-retain-none (λ v. leb (today - 1) v.day) b t.state absent ∙ sym absent)
          | inr (v, present) ↦ elim (Bool-cases (leb (today - 1) v.day)) [
            | inl recent ↦ ap (bytes_of today) (
                get-retain_kept (λ w. leb (today - 1) w.day) b v t.state present recent
                ∙ sym present)
            | inr old ↦
                ap (bytes_of today)
                  (get-retain_dropped (λ w. leb (today - 1) w.day) b v t.state u present old)
                ∙ ground (arith, old)
                ∙ ap (bytes_of today) (sym present)
          ]
        ])
]

remaining_lem :
    (t : ByteBudgetTracker) (ip : IpAddr) (now : ℕ)
    → t.limit_per_day ≢ 0
    → remaining t ip now ≡ t.limit_per_day - bytes_of (now / 86400) (get (bucket_of ip) t.state)
unfolding remaining
remaining_lem t ip now on =
    let used : (t.limit_per_day == 0) ≡ false = ground (arith, on) in
    elim (Option-cases (get (bucket_of ip) t.state)) [
      | inl absent ↦ rw (used, absent, remaining) (omega arith)
      | inr (v, present) ↦ elim (Bool-cases (v.day == now / 86400)) [
        | inl same ↦ rw (used, present, same, remaining) refl
        | inr other ↦ rw (used, present, other, remaining) (omega arith)
      ]
    ]

-- What a call with an outcome does to the budgets of today.
pub record Consumed (t : ByteBudgetTracker) (ip : IpAddr) (bytes now : ℕ)
    (out : ByteBudgetTracker × Bool) : Type 0 where
  pub unique : IsUnique out.0.state
  pub taken : remaining out.0 ip now + (if out.1 then bytes else 0) ≡ remaining t ip now
  pub refused : (out.1 ≡ true) ⊎ (bytes ≡ 0) ⊎ (remaining t ip now < bytes)
  pub others :
      (other : IpAddr)
      → (bucket_of ip ≡ bucket_of other) ⊎ (remaining out.0 other now ≡ remaining t other now)

prune-IsUnique : (t : ByteBudgetTracker) (today : ℕ) → IsUnique t.state → IsUnique (prune t today)
unfolding prune
prune-IsUnique t today u = elim (Bool-cases (leb t.max_keys (length t.state))) [
  | inl full ↦ rw (full, prune) (retain-IsUnique (λ v. leb (today - 1) v.day) t.state u)
  | inr room ↦ rw (room, prune) u
]

-- The budget when the caller's entry of today is `used`.
booked :
    (t : ByteBudgetTracker) (ip other : IpAddr) (used now : ℕ)
    → IsUnique t.state
    → t.limit_per_day ≢ 0
    → let today = now / 86400 in
      remaining
        (record t {
          state = insert (bucket_of ip) (record { day = today; bytes = used }) (prune t today);
        })
        other
        now
      ≡ (if bucket_eq_inst.beq (bucket_of ip) (bucket_of other)
          then t.limit_per_day - used
          else remaining t other now)
booked t ip other used now u on =
    let today = now / 86400 in
    let entry : DailyByteCount = record { day = today; bytes = used } in
    let t' : ByteBudgetTracker = record t { state = insert (bucket_of ip) entry (prune t today) } in
    let e = get-insert (bucket_of ip) (bucket_of other) entry (prune t today) in
    let self : (today == today) ≡ true = ground arith in
    remaining_lem t' other now on
    ∙ ap (λ o. t.limit_per_day - bytes_of today o) e
    ∙ elim (Bool-cases (bucket_eq_inst.beq (bucket_of ip) (bucket_of other))) [
      | inl same ↦ rw (same, self) refl
      | inr apart ↦ rw apart (
          ap (λ n. t.limit_per_day - n) (bytes_of-prune t today (bucket_of other) u)
          ∙ sym (remaining_lem t other now on))
    ]

-- Against a budget that is in force and below the largest u64, over a map that has each key once: a
-- call that is admitted takes its bytes off what remains to the caller's bucket today; one that is
-- refused takes nothing, and asked for nothing or for more than remained; no other bucket's budget
-- of today changes; and the map still has each key once, whether it was pruned or not.
pub try_consume-remaining :
    (t : ByteBudgetTracker) (ip : IpAddr) (bytes now : ℕ)
    → t.limit_per_day ≢ 0
    → t.limit_per_day < max_u64
    → IsUnique t.state
    → Consumed t ip bytes now (try_consume t ip bytes now)
unfolding try_consume
try_consume-remaining t ip bytes now on small u =
    let today = now / 86400 in
    let used = bytes_of today (get (bucket_of ip) (prune t today)) in
    let enforced : (t.limit_per_day == 0) ≡ false = ground (arith, on) in
    let self = (bucket_eq_inst.beq_iff (bucket_of ip) (bucket_of ip)).1 refl in
    let left : remaining t ip now ≡ t.limit_per_day - used =
      remaining_lem t ip now on
      ∙ ap (λ n. t.limit_per_day - n) (sym (bytes_of-prune t today (bucket_of ip) u)) in
    let mine = λ (n : ℕ).
      booked t ip ip n now u on
      ∙ ap (λ b. if b then t.limit_per_day - n else remaining t ip now) self in
    elim (Bool-cases (ltb t.limit_per_day (saturating_add used bytes))) [
      | inl over ↦
          rw (enforced, over, try_consume)
            (record {
              unique = insert-IsUnique (bucket_of ip) _ (prune t today) (prune-IsUnique t today u);
              taken = omega (arith, mine used, left);
              refused = inr (much used left over);
              others = apart used;
            })
      | inr fits ↦
          rw (enforced, fits, try_consume)
            (record {
              unique = insert-IsUnique (bucket_of ip) _ (prune t today) (prune-IsUnique t today u);
              taken = ground (arith, mine (saturating_add used bytes), left, fits, small);
              refused = inl refl;
              others = apart (saturating_add used bytes);
            })
    ]
  where
    apart :
        (n : ℕ) (other : IpAddr)
        → (bucket_of ip ≡ bucket_of other)
          ⊎ (remaining
                (record t {
                  state =
                      insert
                        (bucket_of ip)
                        (record { day = now / 86400; bytes = n })
                        (prune t (now / 86400));
                })
                other
                now
              ≡ remaining t other now)
    apart n other = elim (Bool-cases (bucket_eq_inst.beq (bucket_of ip) (bucket_of other))) [
      | inl same ↦ inl ((bucket_eq_inst.beq_iff (bucket_of ip) (bucket_of other)).0 same)
      | inr differ ↦ inr (
          booked t ip other n now u on
          ∙ ap (λ b. if b then t.limit_per_day - n else remaining t other now) differ)
    ]

    much :
        (used : ℕ)
        → remaining t ip now ≡ t.limit_per_day - used
        → ltb t.limit_per_day (saturating_add used bytes) ≡ true
        → (bytes ≡ 0) ⊎ (remaining t ip now < bytes)
    much used left over = elim (Bool-cases (bytes == 0)) [
      | inl none_asked ↦ inl (ground (arith, none_asked))
      | inr some_asked ↦ inr (ground (arith, some_asked, left, over))
    ]
