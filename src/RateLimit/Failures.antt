-- ===== src/RateLimit/Failures.antt =====
-- `SftpAuthFailureTracker` of byo-relay/src/rate_limit.rs.
pub mod Events
pub mod Blocks
pub mod Limit
use wattcloud.Common.{
  ℕ, ◌+◌, ◌-◌, Bool, true, false, not, Option, none, some, List, [], ◌∷◌, ltb, leb, if◌then◌else◌,
  length, any,
}
use wattcloud.Common.Bytes.{Bytes, bytes_eq}
use wattcloud.Common.Maps.{get, insert}
use wattcloud.RateLimit.{IpAddr, IpBucket, bucket_of, bucket_eq_inst, or_default}

pub record FailureState : Type 0 where
  pub count : ℕ
  pub window_start : ℕ
  pub blocked_until : Option ℕ

pub record HostState : Type 0 where
  pub hosts : List Bytes
  pub window_start : ℕ

pub record SftpAuthFailureTracker : Type 0 where
  pub failures : List (IpBucket × FailureState)
  pub hosts : List (IpBucket × HostState)
  pub failure_limit : ℕ
  pub failure_window : ℕ

abbrev pub block_duration : ℕ
block_duration = 3600

abbrev pub host_window : ℕ
host_window = 3600

abbrev pub host_limit : ℕ
host_limit = 5

abbrev pub with_config : ℕ → ℕ → SftpAuthFailureTracker
with_config failure_limit failure_window = record {
  failures = [];
  hosts = [];
  failure_limit = failure_limit;
  failure_window = failure_window;
}

abbrev pub fresh : ℕ → FailureState
fresh now = record { count = 0; window_start = now; blocked_until = none }

abbrev pub still_blocked : ℕ → Option ℕ → Bool
still_blocked now none = false
still_blocked now (some blocked_until) = ltb now blocked_until

-- `is_blocked`
unfoldable pub is_blocked : SftpAuthFailureTracker → IpAddr → ℕ → Bool
is_blocked t ip now = elim (get (bucket_of ip) t.failures) [
  | none ↦ false
  | some s ↦ still_blocked now s.blocked_until
]

-- `apply_block`
unfoldable pub apply_block : SftpAuthFailureTracker → IpBucket → ℕ → SftpAuthFailureTracker
apply_block t bucket now = record t {
  failures =
      insert bucket
        (record (or_default (fresh now) (get bucket t.failures)) {
          blocked_until = some (now + block_duration);
        })
        t.failures;
}

-- `HashSet::insert`
abbrev pub insert_host : Bytes → List Bytes → List Bytes
insert_host host hosts = if any (bytes_eq host) hosts then hosts else host ∷ hosts

-- The window's hosts, emptied when it has expired, and then this host among them.
abbrev pub visit : HostState → Bytes → ℕ → HostState
visit s host now =
    if ltb host_window (now - s.window_start)
    then record { hosts = insert_host host []; window_start = now }
    else record s { hosts = insert_host host s.hosts }

-- `record_host`, under the lock of the hosts: whether there are now too many of them.
unfoldable pub count_host :
    SftpAuthFailureTracker → IpAddr → Bytes → ℕ → SftpAuthFailureTracker × Bool
count_host t ip host now =
    let s =
      visit (or_default (record { hosts = []; window_start = now }) (get (bucket_of ip) t.hosts))
        host now in
    (record t { hosts = insert (bucket_of ip) s t.hosts }, ltb host_limit (length s.hosts))

-- `record_host`, when no other call comes between its two locks.
unfoldable pub record_host :
    SftpAuthFailureTracker → IpAddr → Bytes → ℕ → SftpAuthFailureTracker × Bool
record_host t ip host now =
    let (t', too_many) = count_host t ip host now in
    if too_many then (apply_block t' (bucket_of ip) now, true) else (t', false)

-- The window's count, reset when it has expired, then one failure more, and the block at the limit.
abbrev pub reset_expired : ℕ → ℕ → FailureState → FailureState
reset_expired window now s = if ltb window (now - s.window_start) then fresh now else s

abbrev pub add_failure : ℕ → ℕ → FailureState → FailureState
add_failure limit now s =
    if leb limit (s.count + 1)
    then record s { count = s.count + 1; blocked_until = some (now + block_duration) }
    else record s { count = s.count + 1 }

abbrev pub fail : ℕ → ℕ → ℕ → FailureState → FailureState
fail limit window now s =
    if still_blocked now s.blocked_until
    then s
    else add_failure limit now (reset_expired window now s)

-- `record_failure`
unfoldable pub record_failure : SftpAuthFailureTracker → IpAddr → ℕ → SftpAuthFailureTracker
record_failure t ip now = record t {
  failures =
      insert (bucket_of ip)
        (fail t.failure_limit t.failure_window now
          (or_default (fresh now) (get (bucket_of ip) t.failures)))
        t.failures;
}

-- `refund_failure`
unfoldable pub refund_failure : SftpAuthFailureTracker → IpAddr → SftpAuthFailureTracker
refund_failure t ip = elim (get (bucket_of ip) t.failures) [
  | none ↦ t
  | some s ↦ record t {
    failures = insert (bucket_of ip) (record s { count = s.count - 1 }) t.failures;
  }
]
