-- ===== src/RateLimit/Failures/Events.antt =====
-- The events of `SftpAuthFailureTracker` of byo-relay/src/rate_limit.rs, each under one lock, and what
-- they do to a block.
use wattcloud.Common.{
  ℕ, ◌+◌, ◌-◌, ◌≤◌, ◌<◌, List, ◌∷◌, ◌≡◌, refl, sym, ap, ◌∙◌, inl, inr, Bool, true, false,
  Bool-cases, Option, none, some, Option-cases, [], arith,
}
use wattcloud.Common.Bytes.{Bytes}
use wattcloud.Common.Maps.{get, get-insert}
use wattcloud.RateLimit.{IpAddr, IpBucket, bucket_of, bucket_eq_inst, or_default}
use wattcloud.RateLimit.Failures.{
  FailureState, SftpAuthFailureTracker, block_duration, fresh, still_blocked, is_blocked,
  apply_block, count_host, fail, record_failure, refund_failure,
}

-- What runs under one lock of the tracker. A `record_host` that finds too many hosts applies its block
-- later, with the time that it has read before.
pub data Event : Type 0 where
  host_counted : IpAddr → Bytes → Event
  block_applied : IpBucket → ℕ → Event
  failure_recorded failure_refunded : IpAddr → Event

unfoldable pub event : SftpAuthFailureTracker → ℕ → Event → SftpAuthFailureTracker
event t now (host_counted ip host) = (count_host t ip host now).0
event t now (block_applied bucket read_at) = apply_block t bucket read_at
event t now (failure_recorded ip) = record_failure t ip now
event t now (failure_refunded ip) = refund_failure t ip

unfoldable pub events : SftpAuthFailureTracker → List (ℕ × Event) → SftpAuthFailureTracker
events t [] = t
events t ((now, x) ∷ xs) = events (event t now x) xs

-- A block is applied at most `lag` after its time was read.
abbrev pub IsPrompt : ℕ → ℕ → Event → Type 0
IsPrompt lag now (host_counted ip host) = Unit
IsPrompt lag now (block_applied bucket read_at) = (read_at ≤ now) × (now ≤ read_at + lag)
IsPrompt lag now (failure_recorded ip) = Unit
IsPrompt lag now (failure_refunded ip) = Unit

-- The times do not go back.
abbrev pub InOrder : ℕ → ℕ → List (ℕ × Event) → Type 0
InOrder lag start [] = Unit
InOrder lag start ((now, x) ∷ xs) = (start ≤ now) × IsPrompt lag now x × InOrder lag now xs

abbrev pub last_time : ℕ → List (ℕ × Event) → ℕ
last_time start [] = start
last_time start ((now, x) ∷ xs) = last_time now xs

unfoldable pub blocks : Option FailureState → ℕ → Bool
blocks none now = false
blocks (some s) now = still_blocked now s.blocked_until

pub is_blocked_lem :
    (t : SftpAuthFailureTracker) (ip : IpAddr) (now : ℕ)
    → is_blocked t ip now ≡ blocks (get (bucket_of ip) t.failures) now
unfolding is_blocked blocks
is_blocked_lem t ip now = elim (Option-cases (get (bucket_of ip) t.failures)) [
  | inl absent ↦ rw (absent, is_blocked)
  | inr (s, present) ↦ rw (present, is_blocked)
]

pub blocks-apply :
    (t : SftpAuthFailureTracker) (b k : IpBucket) (read_at x : ℕ)
    → x < read_at + 3600
    → blocks (get k t.failures) x ≡ true
    → blocks (get k (apply_block t b read_at).failures) x ≡ true
unfolding apply_block blocks
blocks-apply t b k now x long h =
    let s : FailureState = record (or_default (fresh now) (get b t.failures)) {
      blocked_until = some (now + block_duration);
    } in
    elim (Bool-cases (bucket_eq_inst.beq b k)) [
      | inl same ↦ rw (get-insert b k s t.failures, same) (ground (arith, long))
      | inr other ↦ rw (get-insert b k s t.failures, other) h
    ]

pub counted_failures :
    (t : SftpAuthFailureTracker) (ip : IpAddr) (host : Bytes) (now : ℕ)
    → (count_host t ip host now).0.failures ≡ t.failures
unfolding count_host
counted_failures t ip host now = refl

pub still_blocked_earlier :
    (o : Option ℕ) (x y : ℕ) → x ≤ y → still_blocked y o ≡ true → still_blocked x o ≡ true
still_blocked_earlier none x y h b = b
still_blocked_earlier (some until) x y h b = ground (arith, h, b)

pub blocks_earlier :
    (o : Option FailureState) (x y : ℕ) → x ≤ y → blocks o y ≡ true → blocks o x ≡ true
unfolding blocks
blocks_earlier none x y h b = b
blocks_earlier (some s) x y h b = still_blocked_earlier s.blocked_until x y h b

pub blocks-failure :
    (t : SftpAuthFailureTracker) (ip : IpAddr) (k : IpBucket) (now : ℕ)
    → blocks (get k t.failures) now ≡ true
    → get k (record_failure t ip now).failures ≡ get k t.failures
unfolding record_failure blocks
blocks-failure t ip k now h =
    let s =
      fail t.failure_limit t.failure_window now
        (or_default (fresh now) (get (bucket_of ip) t.failures)) in
    elim (Bool-cases (bucket_eq_inst.beq (bucket_of ip) k)) [
      | inr other ↦ rw (get-insert (bucket_of ip) k s t.failures, other)
      | inl same ↦
          let e = (bucket_eq_inst.beq_iff (bucket_of ip) k).0 same in
          elim (Option-cases (get k t.failures)) [
            | inl absent ↦ cc (rw absent at h)
            | inr (v, present) ↦
                let blocked : still_blocked now v.blocked_until ≡ true = rw present at h in
                let found : get (bucket_of ip) t.failures ≡ some v =
                  ap (λ b. get b t.failures) e ∙ present in
                rw (get-insert (bucket_of ip) k s t.failures, same, found, blocked) (sym present)
          ]
    ]

pub blocks-refund :
    (t : SftpAuthFailureTracker) (ip : IpAddr) (k : IpBucket) (now : ℕ)
    → blocks (get k (refund_failure t ip).failures) now ≡ blocks (get k t.failures) now
unfolding refund_failure blocks
blocks-refund t ip k now = elim (Option-cases (get (bucket_of ip) t.failures)) [
  | inl absent ↦ rw (absent, refund_failure) refl
  | inr (s, present) ↦
      let s' : FailureState = record s { count = s.count - 1 } in
      elim (Bool-cases (bucket_eq_inst.beq (bucket_of ip) k)) [
        | inr other ↦
            rw (present, refund_failure, get-insert (bucket_of ip) k s' t.failures, other) refl
        | inl same ↦
            let e = (bucket_eq_inst.beq_iff (bucket_of ip) k).0 same in
            let found : get k t.failures ≡ some s = ap (λ b. get b t.failures) (sym e) ∙ present in
            rw (present, refund_failure, get-insert (bucket_of ip) k s' t.failures, same, found)
              refl
      ]
]

-- One event leaves a block in force.
pub blocks-event :
    (lag start now x : ℕ) (e : Event) (t : SftpAuthFailureTracker) (k : IpBucket)
    → start ≤ now
    → now ≤ x
    → x + lag < start + 3600
    → IsPrompt lag now e
    → blocks (get k t.failures) x ≡ true
    → blocks (get k (event t now e).failures) x ≡ true
unfolding event count_host
blocks-event lag start now x (host_counted ip host) t k a b d p h = h
blocks-event lag start now x (block_applied bucket read_at) t k a b d p h =
    blocks-apply t bucket k read_at x (omega (arith, a, d, p)) h
blocks-event lag start now x (failure_recorded ip) t k a b d p h =
    ap (λ s. blocks s x) (blocks-failure t ip k now (blocks_earlier (get k t.failures) now x b h))
    ∙ h
blocks-event lag start now x (failure_refunded ip) t k a b d p h = blocks-refund t ip k x ∙ h

pub last_is_later :
    (lag start : ℕ) (xs : List (ℕ × Event)) → InOrder lag start xs → start ≤ last_time start xs
last_is_later lag start [] o = omega arith
last_is_later lag start ((now, e) ∷ xs) (a, p, o) = omega (arith, a, last_is_later lag now xs o)

pub blocks-events :
    (lag start x : ℕ) (xs : List (ℕ × Event)) (t : SftpAuthFailureTracker) (k : IpBucket)
    → InOrder lag start xs
    → last_time start xs ≤ x
    → x + lag < start + 3600
    → blocks (get k t.failures) x ≡ true
    → blocks (get k (events t xs).failures) x ≡ true
unfolding events
blocks-events lag start x [] t k o b d h = h
blocks-events lag start x ((now, e) ∷ xs) t k (a, p, o) b d h =
    blocks-events lag now x xs (event t now e) k o b (omega (arith, a, d))
      (blocks-event lag start now x e t k a (omega (arith, b, last_is_later lag now xs o)) d p h)
