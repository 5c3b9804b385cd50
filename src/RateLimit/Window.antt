-- ===== src/RateLimit/Window.antt =====
-- The sliding windows of byo-relay/src/rate_limit.rs.
pub mod Bound
pub mod Growth
use wattcloud.Common.{
  ℕ, ◌+◌, Bool, true, false, not, ◌&&◌, Eq, Option, none, some, List, [], ◌∷◌, ◌++◌, ltb, leb, ◌==◌,
  if◌then◌else◌, length, filter,
}
use wattcloud.Common.Bytes.{Bytes, saturating_add, bytes_eq_inst}
use wattcloud.Common.Maps.{get, insert, retain}
use wattcloud.Common.Sums.{sum_by}
use wattcloud.RateLimit.{IpAddr, IpBucket, bucket_of, bucket_eq_inst, or_default}

-- `t > now - window`, without a subtraction that stops at 0.
abbrev pub is_live : ℕ → ℕ → ℕ → Bool
is_live window now t = ltb now (t + window)

abbrev pub is_nonempty : List ℕ → Bool
is_nonempty [] = false
is_nonempty (t ∷ ts) = true

-- Expired timestamps go; if the window is not full, the attempt is recorded.
unfoldable pub admit : ℕ → ℕ → ℕ → List ℕ → List ℕ × Bool
admit window max_per_window now ts =
    let live = filter (is_live window now) ts in
    if leb max_per_window (length live) then (live, false) else (live ++ (now ∷ []), true)

-- `SlidingWindowLimiter`
pub record SlidingWindowLimiter : Type 0 where
  pub state : List (IpBucket × List ℕ)
  pub window : ℕ
  pub max_per_window : ℕ

abbrev pub new : ℕ → ℕ → SlidingWindowLimiter
new window_secs max_per_window = record {
  state = [];
  window = window_secs;
  max_per_window = max_per_window;
}

-- `SlidingWindowLimiter::check_and_record`
unfoldable pub check_and_record : SlidingWindowLimiter → IpAddr → ℕ → SlidingWindowLimiter × Bool
check_and_record l ip now =
    let (ts, admitted) =
      admit l.window l.max_per_window now (or_default [] (get (bucket_of ip) l.state)) in
    let state = insert (bucket_of ip) ts l.state in
    if admitted
    then (
      record l { state = if ltb 1024 (length state) then retain is_nonempty state else state },
      true,
    )
    else (record l { state = state }, false)

-- `ChannelJoinLimiter::new`, `AuthChallengeLimiter::new`; both only pass the call on.
abbrev pub channel_join_limiter : SlidingWindowLimiter
channel_join_limiter = new 60 10

abbrev pub auth_challenge_limiter : ℕ → SlidingWindowLimiter
auth_challenge_limiter max_per_min = new 60 max_per_min

-- `SlidingWindowLimiterByKey`
pub record SlidingWindowLimiterByKey {ℓ} (K : Type ℓ) : Type ℓ where
  pub state : List (K × List ℕ)
  pub window : ℕ
  pub max_per_window : ℕ
  pub max_keys : Option ℕ

abbrev pub is_at_cap : Option ℕ → ℕ → Bool
is_at_cap none n = false
is_at_cap (some cap) n = leb cap n

module _ {ℓ} {K : Type ℓ} ⦃e : Eq K⦄ where
  abbrev pub new_with_cap : ℕ → ℕ → Option ℕ → SlidingWindowLimiterByKey K
  new_with_cap window_secs max_per_window max_keys = record {
    state = [];
    window = window_secs;
    max_per_window = max_per_window;
    max_keys = max_keys;
  }

  -- `SlidingWindowLimiterByKey::check_and_record`: a new key beyond the cap is let through untracked.
  unfoldable pub check_and_record_key :
      SlidingWindowLimiterByKey K → K → ℕ → SlidingWindowLimiterByKey K × Bool
  check_and_record_key l key now = elim (get key l.state) [
    | some ts ↦
        let (ts', admitted) = admit l.window l.max_per_window now ts in
        (record l { state = insert key ts' l.state }, admitted)
    | none ↦
        if is_at_cap l.max_keys (length l.state)
        then (l, true)
        else (record l { state = insert key (now ∷ []) l.state }, true)
  ]

-- `ShareCreationRateLimiter`
pub data ShareCreationDecision : Type 0 where
  allow hour_cap_exceeded day_cap_exceeded : ShareCreationDecision

pub record ShareCreationRateLimiter : Type 0 where
  pub hour : SlidingWindowLimiterByKey IpBucket
  pub day : SlidingWindowLimiterByKey IpBucket

abbrev pub new_share_creation : ℕ → ℕ → ShareCreationRateLimiter
new_share_creation per_hour per_day = record {
  hour = new_with_cap 3600 per_hour (some 50000);
  day = new_with_cap 86400 per_day (some 50000);
}

unfoldable pub check_share_creation :
    ShareCreationRateLimiter → IpAddr → ℕ → ShareCreationRateLimiter × ShareCreationDecision
check_share_creation l ip now =
    let (hour, in_hour) = check_and_record_key l.hour (bucket_of ip) now in
    if in_hour
    then (let (day, in_day) = check_and_record_key l.day (bucket_of ip) now in
        (record { hour = hour; day = day }, if in_day then allow else day_cap_exceeded))
    else (record l { hour = hour }, hour_cap_exceeded)

-- `ShareBytesPerShareTracker`: timestamps with bytes.
pub record ShareBytesPerShareTracker : Type 0 where
  pub state : List (Bytes × List (ℕ × ℕ))
  pub window : ℕ
  pub max_bytes_per_window : ℕ
  pub max_keys : ℕ

abbrev pub new_share_bytes : ℕ → ShareBytesPerShareTracker
new_share_bytes max_bytes_per_hour = record {
  state = [];
  window = 3600;
  max_bytes_per_window = max_bytes_per_hour;
  max_keys = 50000;
}

abbrev pub live_bytes : ℕ → ℕ → List (ℕ × ℕ) → List (ℕ × ℕ)
live_bytes window now = filter λ tb. is_live window now tb.0

-- `try_consume`. The sum of the served bytes of an hour is far below 2 ^ 64.
unfoldable pub try_consume :
    ShareBytesPerShareTracker → Bytes → ℕ → ℕ → ShareBytesPerShareTracker × Bool
try_consume t share_id bytes now =
    if t.max_bytes_per_window == 0 then (t, true) else elim (get share_id t.state) [
      | some entries ↦
          let live = live_bytes t.window now entries in
          if ltb t.max_bytes_per_window (saturating_add (sum_by (λ tb. tb.1) live) bytes)
          then (record t { state = insert share_id live t.state }, false)
          else (record t { state = insert share_id (live ++ ((now, bytes) ∷ [])) t.state }, true)
      | none ↦
          if leb t.max_keys (length t.state)
          then (t, true)
          else (record t { state = insert share_id ((now, bytes) ∷ []) t.state }, true)
    ]
