-- ===== src/RateLimit/Failures/Blocks.antt =====
-- How long `SftpAuthFailureTracker` of byo-relay/src/rate_limit.rs blocks, over calls that interleave.
use wattcloud.Common.{
  ℕ, ◌+◌, ◌-◌, ◌≤◌, ◌<◌, List, ◌∷◌, ◌≡◌, refl, sym, ◌∙◌, inl, inr, true, Bool-cases, Option, none,
  some, [], ltb, leb, arith,
}
use wattcloud.Common.Bytes.{Bytes}
use wattcloud.Common.Maps.{get, get-insert, get-insert_self}
use wattcloud.RateLimit.{IpAddr, IpBucket, bucket_of, bucket_eq_inst, or_default}
use wattcloud.RateLimit.Failures.{
  FailureState, SftpAuthFailureTracker, block_duration, fresh, still_blocked, reset_expired,
  add_failure, is_blocked, apply_block, count_host, record_host, fail, record_failure, with_config,
}
use wattcloud.RateLimit.Failures.Events.{
  blocks, is_blocked_lem, blocks_earlier, blocks-refund, blocks-events, Event, host_counted,
  block_applied, failure_recorded, failure_refunded, event, events, IsPrompt, InOrder, last_time,
}

-- No block lasts longer than an hour from now.
abbrev IsCapped : ℕ → SftpAuthFailureTracker → Type 0
IsCapped now t = (k : IpBucket) (y : ℕ) → blocks (get k t.failures) y ≡ true → y < now + 3600

capped_add :
    (limit now y : ℕ) (s : FailureState)
    → (still_blocked y s.blocked_until ≡ true → y < now + 3600)
    → still_blocked y (add_failure limit now s).blocked_until ≡ true
    → y < now + 3600
capped_add limit now y s h b = elim (Bool-cases (leb limit (s.count + 1))) [
  | inl full ↦
      let b' : still_blocked y (some (now + block_duration)) ≡ true = rw full at b in
      ground (arith, b')
  | inr short ↦ h (rw short at b)
]

capped_fail :
    (limit window start now y : ℕ) (s : FailureState)
    → start ≤ now
    → (still_blocked y s.blocked_until ≡ true → y < start + 3600)
    → still_blocked y (fail limit window now s).blocked_until ≡ true
    → y < now + 3600
capped_fail limit window start now y s a h b =
    let kept : still_blocked y s.blocked_until ≡ true → y < now + 3600 =
      λ c. omega (arith, a, h c) in
    elim (Bool-cases (still_blocked now s.blocked_until)) [
      | inl running ↦ kept (rw running at b)
      | inr over ↦
          let b' : still_blocked y
                (add_failure limit now (reset_expired window now s)).blocked_until
              ≡ true =
            rw over at b in
          elim (Bool-cases (ltb window (now - s.window_start))) [
            | inl expired ↦ capped_add limit now y (fresh now) (λ c. cc) (rw expired at b')
            | inr inside ↦ capped_add limit now y s kept (rw inside at b')
          ]
    ]

capped_apply :
    (t : SftpAuthFailureTracker) (bucket k : IpBucket) (start now read_at y : ℕ)
    → start ≤ now
    → read_at ≤ now
    → IsCapped start t
    → blocks (get k (apply_block t bucket read_at).failures) y ≡ true
    → y < now + 3600
unfolding apply_block blocks
capped_apply t bucket k start now read_at y a p h b =
    let s : FailureState = record (or_default (fresh read_at) (get bucket t.failures)) {
      blocked_until = some (read_at + block_duration);
    } in
    elim (Bool-cases (bucket_eq_inst.beq bucket k)) [
      | inl same ↦
          let b' : ltb y (read_at + block_duration) ≡ true =
            rw (get-insert bucket k s t.failures, same) at b in
          ground (arith, b', p)
      | inr other ↦ omega (arith, a, h k y (rw (get-insert bucket k s t.failures, other) at b))
    ]

capped_record :
    (t : SftpAuthFailureTracker) (ip : IpAddr) (k : IpBucket) (start now y : ℕ)
    → start ≤ now
    → IsCapped start t
    → blocks (get k (record_failure t ip now).failures) y ≡ true
    → y < now + 3600
unfolding record_failure blocks
capped_record t ip k start now y a h b =
    let old = or_default (fresh now) (get (bucket_of ip) t.failures) in
    let s = fail t.failure_limit t.failure_window now old in
    elim (Bool-cases (bucket_eq_inst.beq (bucket_of ip) k)) [
      | inr other ↦
          omega (arith, a, h k y (rw (get-insert (bucket_of ip) k s t.failures, other) at b))
      | inl same ↦
          capped_fail t.failure_limit t.failure_window start now y old a
            (entry (get (bucket_of ip) t.failures) refl)
            (rw (get-insert (bucket_of ip) k s t.failures, same) at b)
    ]
  where
    entry :
        (o : Option FailureState)
        → get (bucket_of ip) t.failures ≡ o
        → still_blocked y (or_default (fresh now) o).blocked_until ≡ true
        → y < start + 3600
    entry none e c = cc
    entry (some v) e c = h (bucket_of ip) y (rw e c)

event-IsCapped :
    (lag start now : ℕ) (e : Event) (t : SftpAuthFailureTracker)
    → start ≤ now
    → IsPrompt lag now e
    → IsCapped start t
    → IsCapped now (event t now e)
unfolding event count_host
event-IsCapped lag start now (host_counted ip host) t a p h k y b = omega (arith, a, h k y b)
event-IsCapped lag start now (block_applied bucket read_at) t a p h k y b =
    capped_apply t bucket k start now read_at y a p.0 h b
event-IsCapped lag start now (failure_recorded ip) t a p h k y b =
    capped_record t ip k start now y a h b
event-IsCapped lag start now (failure_refunded ip) t a p h k y b =
    omega (arith, a, h k y (sym (blocks-refund t ip k y) ∙ b))

events-IsCapped :
    (lag start : ℕ) (xs : List (ℕ × Event)) (t : SftpAuthFailureTracker)
    → InOrder lag start xs
    → IsCapped start t
    → IsCapped (last_time start xs) (events t xs)
unfolding events
events-IsCapped lag start [] t o h = h
events-IsCapped lag start ((now, e) ∷ xs) t (a, p, o) h =
    events-IsCapped lag now xs (event t now e) o (event-IsCapped lag start now e t a p h)

new-IsCapped : (limit window : ℕ) → IsCapped 0 (with_config limit window)
unfolding get blocks
new-IsCapped limit window k y b = cc

applied_blocks :
    (t : SftpAuthFailureTracker) (k : IpBucket) (now x : ℕ)
    → x < now + 3600
    → blocks (get k (apply_block t k now).failures) x ≡ true
unfolding apply_block blocks
applied_blocks t k now x d = rw (get-insert_self k _ t.failures) (ground (arith, d))

blocks-record_host :
    (t : SftpAuthFailureTracker) (ip : IpAddr) (host : Bytes) (now x : ℕ)
    → (record_host t ip host now).1 ≡ true
    → x < now + 3600
    → blocks (get (bucket_of ip) (record_host t ip host now).0.failures) x ≡ true
unfolding record_host
blocks-record_host t ip host now x h d = elim (Bool-cases (count_host t ip host now).1) [
  | inl many ↦
      rw (many, record_host) (applied_blocks (count_host t ip host now).0 (bucket_of ip) now x d)
  | inr few ↦ cc (rw (few, record_host) at h)
]

-- However the calls on a new tracker interleave, at times that do not go back: an address that is blocked at some time is still
-- blocked then after any events up to that time, less the longest delay between the two locks of a
-- `record_host`. If no block is applied late, no call lifts or shortens a block.
pub events-is_blocked :
    (limit window lag : ℕ) (before after : List (ℕ × Event)) (ip : IpAddr) (x : ℕ)
    → InOrder lag 0 before
    → InOrder lag (last_time 0 before) after
    → last_time (last_time 0 before) after ≤ x
    → is_blocked (events (with_config limit window) before) ip (x + lag) ≡ true
    → is_blocked (events (events (with_config limit window) before) after) ip x ≡ true
events-is_blocked limit window lag before after ip x o o' b h =
    let t = events (with_config limit window) before in
    let start = last_time 0 before in
    let k = bucket_of ip in
    let held : blocks (get k t.failures) (x + lag) ≡ true =
      sym (is_blocked_lem t ip (x + lag)) ∙ h in
    let capped =
      events-IsCapped lag 0 before (with_config limit window) o (new-IsCapped limit window) k
        (x + lag) held in
    is_blocked_lem _ ip x
    ∙ blocks-events lag start x after t k o' b capped
        (blocks_earlier (get k t.failures) x (x + lag) (omega arith) held)

-- A `record_host` that reports a block, and whose two locks no other call has come between: the
-- address is blocked for an hour, less the longest delay between the two locks of later ones, whatever
-- events follow at times that do not go back.
pub events-record_host :
    (t : SftpAuthFailureTracker) (lag : ℕ) (ip : IpAddr) (host : Bytes) (now x : ℕ)
    (after : List (ℕ × Event))
    → (record_host t ip host now).1 ≡ true
    → InOrder lag now after
    → last_time now after ≤ x
    → x + lag < now + 3600
    → is_blocked (events (record_host t ip host now).0 after) ip x ≡ true
events-record_host t lag ip host now x after h o b d =
    let k = bucket_of ip in
    is_blocked_lem _ ip x
    ∙ blocks-events lag now x after (record_host t ip host now).0 k o b d
        (blocks-record_host t ip host now x h (omega (arith, d)))
