-- ===== src/RateLimit/Failures/Limit.antt =====
-- How many failures `SftpAuthFailureTracker` takes before it blocks.
use wattcloud.Common.{
  ℕ, ◌+◌, ◌-◌, ◌≤◌, ◌<◌, ◌≡◌, refl, ap, ◌∙◌, true, false, none, some, List, [], ◌∷◌, ltb, leb,
  length, All, arith,
}
use wattcloud.Common.Maps.{get, get-insert_self}
use wattcloud.RateLimit.{IpAddr, bucket_of, bucket_eq_inst, or_default}
use wattcloud.RateLimit.Failures.{
  FailureState, SftpAuthFailureTracker, block_duration, fresh, is_blocked, add_failure, fail,
  record_failure,
}

-- Failures of one address at a row of times.
unfoldable pub record_failures : SftpAuthFailureTracker → IpAddr → List ℕ → SftpAuthFailureTracker
record_failures t ip [] = t
record_failures t ip (now ∷ times) = record_failures (record_failure t ip now) ip times

-- The entry that a failure leaves, when there is no block and the window has not expired.
counted :
    (t : SftpAuthFailureTracker) (ip : IpAddr) (now : ℕ) (s : FailureState)
    → or_default (fresh now) (get (bucket_of ip) t.failures) ≡ s
    → s.blocked_until ≡ none
    → now ≤ s.window_start + t.failure_window
    → get (bucket_of ip) (record_failure t ip now).failures
      ≡ some (add_failure t.failure_limit now s)
unfolding record_failure
counted t ip now s e free inside =
    let running : ltb t.failure_window (now - s.window_start) ≡ false = ground (arith, inside) in
    get-insert_self (bucket_of ip) _ t.failures
    ∙ ap (λ x. some (fail t.failure_limit t.failure_window now x)) e
    ∙ rw (free, running) refl

blocked_by :
    (t : SftpAuthFailureTracker) (ip : IpAddr) (now until : ℕ) (s : FailureState)
    → get (bucket_of ip) t.failures ≡ some s
    → s.blocked_until ≡ some until
    → now < until
    → is_blocked t ip now ≡ true
unfolding is_blocked
blocked_by t ip now until s e b h = rw (e, b, is_blocked) (ground (arith, h))

counting :
    (t : SftpAuthFailureTracker) (ip : IpAddr) (s : FailureState) (from later now : ℕ)
    (times : List ℕ)
    → or_default (fresh now) (get (bucket_of ip) t.failures) ≡ s
    → s.blocked_until ≡ none
    → All (λ n. n ≤ s.window_start + t.failure_window) (now ∷ times)
    → All (λ n. from ≤ n) (now ∷ times)
    → s.count + length (now ∷ times) ≡ t.failure_limit
    → later < from + block_duration
    → is_blocked (record_failures t ip (now ∷ times)) ip later ≡ true
unfolding record_failures record_failure
counting t ip s from later now [] e free (inside, _) (after, _) total h =
    let full : leb t.failure_limit (s.count + 1) ≡ true = ground (arith, total) in
    blocked_by (record_failure t ip now) ip later (now + block_duration)
      (add_failure t.failure_limit now s) (counted t ip now s e free inside) (rw full refl)
      (omega (arith, after, h))
counting t ip s from later now (next ∷ times) e free (inside, others) (after, afters) total h =
    let short : leb t.failure_limit (s.count + 1) ≡ false = ground (arith, total) in
    let entry : FailureState = record s { count = s.count + 1 } in
    let left : add_failure t.failure_limit now s ≡ entry = rw short refl in
    counting (record_failure t ip now) ip entry from later next times
      (ap (or_default (fresh next)) (counted t ip now s e free inside) ∙ left) free others afters
      (omega (arith, total)) h

-- An address of whose bucket nothing is recorded, and whose failures number just the limit, all no
-- earlier than the first and within the window that the first opens: it is blocked from then on, at
-- every time less than an hour after the first.
pub record_failures-limit :
    (t : SftpAuthFailureTracker) (ip : IpAddr) (first later : ℕ) (times : List ℕ)
    → get (bucket_of ip) t.failures ≡ none
    → length (first ∷ times) ≡ t.failure_limit
    → All (λ n. first ≤ n) times
    → All (λ n. n ≤ first + t.failure_window) times
    → later < first + block_duration
    → is_blocked (record_failures t ip (first ∷ times)) ip later ≡ true
record_failures-limit t ip first later times absent total after inside h =
    counting t ip (fresh first) first later first times (ap (or_default (fresh first)) absent) refl
      (omega arith, inside) (omega arith, after) (omega (arith, total)) h
