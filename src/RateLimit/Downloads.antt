-- ===== src/RateLimit/Downloads.antt =====
-- `ShareConcurrencyTracker` of byo-relay/src/rate_limit.rs, for the counter of one share. Its atomic
-- operations are the steps, so that calls of any number of handlers interleave.
use wattcloud.Common.{ℕ, ◌+◌, ◌-◌, ◌≤◌, max, ◌≡◌, leb, if◌then◌else◌, arith}

-- The counter, the guards that are alive, and the handlers that are refused but have not yet taken
-- their increment back.
pub record Counter : Type 0 where
  pub value : ℕ
  pub guards : ℕ
  pub refused : ℕ

-- `ShareConcurrencyTracker::new`
abbrev pub max_concurrent_of : ℕ → ℕ
max_concurrent_of max_concurrent = max max_concurrent 1

-- `fetch_add` of `try_acquire`: a guard, or a refusal with a `fetch_sub` to come.
unfoldable pub fetch_add : ℕ → Counter → Counter
fetch_add max_concurrent s =
    if leb max_concurrent s.value
    then record s { value = s.value + 1; refused = s.refused + 1 }
    else record s { value = s.value + 1; guards = s.guards + 1 }

-- `fetch_sub` of a refused `try_acquire`.
unfoldable pub take_back : Counter → Counter
take_back s = record s { value = s.value - 1; refused = s.refused - 1 }

-- `ShareConcurrencyGuard::drop`
unfoldable pub drop_download : Counter → Counter
drop_download s = record s { value = s.value - 1; guards = s.guards - 1 }

-- Only a handler that is refused takes back, and only a guard that is alive is dropped.
pub data Step (max_concurrent : ℕ) : Counter → Counter → Type 0 where
  acquires : {s : Counter} → Step max_concurrent s (fetch_add max_concurrent s)
  takes_back : {s : Counter} → 1 ≤ s.refused → Step max_concurrent s (take_back s)
  drops : {s : Counter} → 1 ≤ s.guards → Step max_concurrent s (drop_download s)

-- The counters that a tracker can reach from a fresh one.
pub data Reachable (max_concurrent : ℕ) : Counter → Type 0 where
  fresh : Reachable max_concurrent (record { value = 0; guards = 0; refused = 0 })
  then_step :
      {s t : Counter}
      → Reachable max_concurrent s
      → Step max_concurrent s t
      → Reachable max_concurrent t

-- The counter counts the guards and the refusals under way, and there are not too many guards.
pub IsCounted : ℕ → Counter → Type 0
IsCounted max_concurrent s = (s.value ≡ s.guards + s.refused) × (s.guards ≤ max_concurrent)

next-IsCounted :
    (max_concurrent : ℕ) (s t : Counter)
    → Step max_concurrent s t
    → IsCounted max_concurrent s
    → IsCounted max_concurrent t
unfolding IsCounted fetch_add take_back drop_download
next-IsCounted n s _ acquires h = ground (arith, h.0, h.1)
next-IsCounted n s _ (takes_back r) h = omega (arith, h.0, h.1, r)
next-IsCounted n s _ (drops g) h = omega (arith, h.0, h.1, g)

-- However the calls of the handlers interleave, a share never has more downloads under way than its
-- cap, and its counter is the number of them and of the refusals that have not been taken back yet.
pub reachable-IsCounted :
    (max_concurrent : ℕ) (s : Counter) → Reachable max_concurrent s → IsCounted max_concurrent s
unfolding IsCounted
reachable-IsCounted n _ fresh = omega arith
reachable-IsCounted n t (then_step {s = s} r step) =
    next-IsCounted n s t step (reachable-IsCounted n s r)
