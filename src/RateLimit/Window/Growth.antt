-- ===== src/RateLimit/Window/Growth.antt =====
-- The size of the map that `SlidingWindowLimiter` keeps.
use wattcloud.Common.{
  ℕ, ◌≤◌, ap, inl, inr, Bool, Bool-cases, List, [], ◌∷◌, ◌++◌, leb, length, arith,
}
use wattcloud.Common.Maps.{get, insert}
use wattcloud.RateLimit.{IpAddr, IpBucket, bucket_of, bucket_eq_inst, or_default}
use wattcloud.RateLimit.Window.{SlidingWindowLimiter, new}
use wattcloud.RateLimit.Window.Bound.{
  IsOrdered, end_of, in_window, call, calls, calls-Tracks, new-Tracks, refused_state,
  admitted_state,
}

length-insert :
    (k : IpBucket) (v : List ℕ) (m : List (IpBucket × List ℕ)) → length m ≤ length (insert k v m)
unfolding insert
length-insert k v [] = omega arith
length-insert k v ((j, w) ∷ m) = ground (arith, length-insert k v m)

-- From a new limiter, after calls in the order of their times: no further call, at a time not before
-- theirs, makes the map smaller. The buckets whose timestamps have all expired stay in it, too.
pub call-calls :
    (window max_per_window : ℕ) (xs : List (IpAddr × ℕ)) (ip : IpAddr) (now : ℕ)
    → IsOrdered 0 xs
    → end_of 0 xs ≤ now
    → length (calls (new window max_per_window, []) xs).0.state
      ≤ length (call (calls (new window max_per_window, []) xs) (ip, now)).0.state
unfolding call
call-calls window max_per_window xs ip now o g =
    let l = (calls (new window max_per_window, []) xs).0 in
    let t =
      (calls-Tracks xs (new window max_per_window) [] 0 o (new-Tracks window max_per_window)).0 in
    let live = in_window l.window now (or_default [] (get (bucket_of ip) l.state)) in
    elim (Bool-cases (leb l.max_per_window (length live))) [
      | inl full ↦
          let e =
            ap (λ (r : SlidingWindowLimiter × Bool). length r.0.state)
              (refused_state l ip now full) in
          omega (arith, e, length-insert (bucket_of ip) live l.state)
      | inr free ↦
          let e =
            ap (λ (r : SlidingWindowLimiter × Bool). length r.0.state)
              (admitted_state l ip now free t.nonempty) in
          omega (arith, e, length-insert (bucket_of ip) (live ++ (now ∷ [])) l.state)
    ]
