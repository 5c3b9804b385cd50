-- ===== src/Examples/Limits.antt =====
-- Calls on the limiters.
use wattcloud.Common.{
  none, ℕ, ◌+◌, ◌≤◌, subst, ◌≡◌, refl, max, true, some, List, [], ◌∷◌, length, arith,
}
use wattcloud.Common.Bytes.{bytes_eq, bytes_eq_inst}
use wattcloud.Common.Maps.{get, insert}
use wattcloud.RateLimit.{IpAddr, v4, bucket_of, bucket_eq_inst, or_default}
use wattcloud.RateLimit.Window
use wattcloud.RateLimit.Window.Bound
use wattcloud.RateLimit.Window.Bound.{calls-new}
use wattcloud.RateLimit.Slots
use wattcloud.RateLimit.Slots.{calls-with_max, held_by}
use wattcloud.RateLimit.Storage
use wattcloud.RateLimit.Storage.Held.{held}
use wattcloud.RateLimit.Storage.{register_share, register_total}
use wattcloud.RateLimit.Storage.Interleaved.{
  Shared, begin_register, begin_release, Reachable, fresh, registers, registered, releases, pending,
  reachable-covers, release-register_share,
}
use wattcloud.RateLimit.Budget
use wattcloud.RateLimit.Budget.{ByteBudgetTracker, Consumed, try_consume-remaining}
use wattcloud.RateLimit.Failures.{
  SftpAuthFailureTracker, with_config, is_blocked, record_failure, record_host, count_host,
}
use wattcloud.RateLimit.Failures.Limit.{record_failures, record_failures-limit}
use wattcloud.RateLimit.Failures.Events
use wattcloud.RateLimit.Failures.Events.{failure_refunded, failure_recorded, block_applied, events}
use wattcloud.RateLimit.Failures.Blocks.{events-is_blocked, events-record_host}

abbrev home : IpAddr
home = v4 (10 ∷ 0 ∷ 0 ∷ 1 ∷ [])

abbrev three_calls : List (IpAddr × ℕ)
three_calls = (home, 100) ∷ (home, 101) ∷ (home, 102) ∷ []

calls-new_example :
    length (
      Bound.in_window 60 102
        (Bound.times (bucket_of home) (Bound.calls (Window.new 60 2, []) three_calls).1))
    ≤ 2
calls-new_example =
    calls-new 60 2 three_calls (bucket_of home) 102 (omega arith, (omega arith, (omega arith, tt)))
      (omega arith)

calls-with_max_example :
    let (t, guards) =
      Slots.calls
        (Slots.with_max 1, [])
        (Slots.acquire home ∷ Slots.acquire home ∷ Slots.release (bucket_of home) ∷ []) in
    (or_default 0 (get (bucket_of home) t.state) ≡ held_by (bucket_of home) guards)
    × (held_by (bucket_of home) guards ≤ max 1 1)
calls-with_max_example =
    calls-with_max 1 (Slots.acquire home ∷ Slots.acquire home ∷ Slots.release (bucket_of home) ∷ [])
      (bucket_of home)

-- Two registrations, of which one is still under way, and the release of the other.
abbrev after_calls : Shared
after_calls = begin_release (1 ∷ []) (
    begin_register home (2 ∷ []) 20 (record {
      tracker =
          register_total (register_share (Storage.new 1000) home (1 ∷ []) 10).0 (bucket_of home) 10;
      credits = [];
      debits = [];
    }))

one_registered :
    begin_register home
      (1 ∷ [])
      10
      (record { tracker = Storage.new 1000; credits = []; debits = [] })
    ≡ record {
      tracker = (register_share (Storage.new 1000) home (1 ∷ []) 10).0;
      credits = (bucket_of home, 10) ∷ [];
      debits = [];
    }
unfolding begin_register register_share get
one_registered = refl

after_calls_reached : Reachable 1000 30 after_calls
after_calls_reached = releases (1 ∷ []) (
    registers home (2 ∷ []) 20 (
      registered [] [] (bucket_of home) 10
        (subst (Reachable 1000 10) one_registered (registers home (1 ∷ []) 10 fresh))))

reachable-covers_example :
    (held (bucket_of home) after_calls.tracker.by_share
        + pending (bucket_of home) after_calls.debits
      ≤ or_default 0 (get (bucket_of home) after_calls.tracker.totals)
        + pending (bucket_of home) after_calls.credits)
    × (or_default 0 (get (bucket_of home) after_calls.tracker.totals)
          + pending (bucket_of home) after_calls.credits
        ≤ 30)
reachable-covers_example =
    reachable-covers 1000 30 after_calls (bucket_of home) after_calls_reached (omega arith)

no_share : get (1 ∷ []) (Storage.new 1000).by_share ≡ none
unfolding get
no_share = refl

no_total : or_default 0 (get (bucket_of home) (Storage.new 1000).totals) ≡ 0
unfolding get
no_total = refl

release-register_share_example :
    let taken = Storage.release (register_share (Storage.new 1000) home (1 ∷ []) 10).0 (1 ∷ []) in
    let left = register_total taken (bucket_of home) 10 in
    ((register_share (Storage.new 1000) home (1 ∷ []) 10).1 ≡ some (bucket_of home))
    × (get (1 ∷ []) left.by_share ≡ none)
    × (or_default 0 (get (bucket_of home) left.totals) ≡ 10)
release-register_share_example =
    release-register_share (Storage.new 1000) home (1 ∷ []) 10 (λ h. omega arith) (λ h. omega arith)
      (omega arith) no_share no_total

try_consume-remaining_example :
    Consumed (Budget.new 1000) home 300 86400 (Budget.try_consume (Budget.new 1000) home 300 86400)
try_consume-remaining_example =
    try_consume-remaining (Budget.new 1000) home 300 86400 (λ h. omega arith) (omega arith) tt

-- The first failure at 50 blocks; then another one and a late block of the same bucket.
abbrev first_event : List (ℕ × Events.Event)
first_event = (50, failure_recorded home) ∷ []

abbrev more_events : List (ℕ × Events.Event)
more_events = (60, failure_refunded home) ∷ (70, block_applied (bucket_of home) 69) ∷ []

blocked : is_blocked (events (with_config 1 300) first_event) home (99 + 2) ≡ true
unfolding is_blocked get insert bytes_eq bucket_of events Events.event record_failure
blocked = refl

events-is_blocked_example :
    is_blocked (events (events (with_config 1 300) first_event) more_events) home 99 ≡ true
events-is_blocked_example =
    events-is_blocked 1 300 2 first_event more_events home 99 (omega arith, tt, tt)
      (omega arith, tt, (omega arith, (omega arith, omega arith), tt)) (omega arith) blocked

-- Five hosts are known, and the sixth is too many.
abbrev sprayed : SftpAuthFailureTracker
sprayed = record (with_config 5 600) {
  hosts =
      (
        bucket_of home,
        record {
          hosts = (1 ∷ []) ∷ (2 ∷ []) ∷ (3 ∷ []) ∷ (4 ∷ []) ∷ (5 ∷ []) ∷ [];
          window_start = 40;
        },
      )
      ∷ [];
}

too_many : (record_host sprayed home (6 ∷ []) 50).1 ≡ true
unfolding record_host count_host get insert bytes_eq bucket_of
too_many = refl

events-record_host_example :
    is_blocked (events (record_host sprayed home (6 ∷ []) 50).0 more_events) home 3600 ≡ true
events-record_host_example =
    events-record_host sprayed 2 home (6 ∷ []) 50 3600 more_events too_many
      (omega arith, tt, (omega arith, (omega arith, omega arith), tt)) (omega arith) (omega arith)

unknown : get (bucket_of home) (with_config 3 300).failures ≡ none
unfolding get
unknown = refl

record_failures-limit_example :
    is_blocked (record_failures (with_config 3 300) home (50 ∷ 60 ∷ 70 ∷ [])) home 90 ≡ true
record_failures-limit_example =
    record_failures-limit (with_config 3 300) home 50 90 (60 ∷ 70 ∷ []) unknown refl
      (omega arith, (omega arith, tt)) (omega arith, (omega arith, tt)) (omega arith)
