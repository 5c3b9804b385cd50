-- ===== src/RateLimit/Window/Bound.antt =====
-- The bound that `SlidingWindowLimiter` enforces.
use wattcloud.Common.{
  ℕ, ◌≤◌, ◌<◌, ◌≡◌, refl, sym, ap, subst, ◌∙◌, inl, inr, Bool, true, false, Bool-cases, List, [],
  ◌∷◌, ◌++◌, ltb, leb, if◌then◌else◌, length, length-append, filter, All, arith,
}
use wattcloud.Common.Maps.{get, insert, retain, get-insert}
use wattcloud.RateLimit.{IpAddr, IpBucket, bucket_of, bucket_eq_inst, or_default}
use wattcloud.RateLimit.Window.{
  is_live, is_nonempty, admit, SlidingWindowLimiter, new, check_and_record,
}

-- The calls so far that were admitted, oldest first.
abbrev pub Log : Type 0
Log = List (IpBucket × ℕ)

unfoldable pub call : SlidingWindowLimiter × Log → IpAddr × ℕ → SlidingWindowLimiter × Log
call (l, log) (ip, now) = (
  (check_and_record l ip now).0,
  if (check_and_record l ip now).1 then log ++ ((bucket_of ip, now) ∷ []) else log,
)

unfoldable pub calls : SlidingWindowLimiter × Log → List (IpAddr × ℕ) → SlidingWindowLimiter × Log
calls s [] = s
calls s (x ∷ xs) = calls (call s x) xs

-- The times of a bucket's admitted calls, and those of the window that ends at `now`.
abbrev pub times : IpBucket → Log → List ℕ
times b [] = []
times b ((k, t) ∷ log) = if bucket_eq_inst.beq k b then t ∷ times b log else times b log

abbrev pub in_window : ℕ → ℕ → List ℕ → List ℕ
in_window window now = filter (is_live window now)

-- The clock does not go back.
abbrev pub IsOrdered : ℕ → List (IpAddr × ℕ) → Type 0
IsOrdered last [] = Unit
IsOrdered last ((ip, now) ∷ xs) = (last ≤ now) × IsOrdered now xs

abbrev pub end_of : ℕ → List (IpAddr × ℕ) → ℕ
end_of last [] = last
end_of last ((ip, now) ∷ xs) = end_of now xs

filter-append : (p : ℕ → Bool) (xs ys : List ℕ) → filter p (xs ++ ys) ≡ filter p xs ++ filter p ys
filter-append p [] ys = refl
filter-append p (x ∷ xs) ys = ground (arith, filter-append p xs ys)

-- A later window holds no more of what came before, and sees through an earlier prune.
in_window-in_window :
    (w now later : ℕ) (ts : List ℕ)
    → now ≤ later
    → in_window w later (in_window w now ts) ≡ in_window w later ts
in_window-in_window w now later [] h = refl
in_window-in_window w now later (t ∷ ts) h = ground (arith, in_window-in_window w now later ts h)

in_window-le :
    (w now later : ℕ) (ts : List ℕ)
    → now ≤ later
    → length (in_window w later ts) ≤ length (in_window w now ts)
in_window-le w now later [] h = omega arith
in_window-le w now later (t ∷ ts) h = ground (arith, in_window-le w now later ts h)

times-append :
    (b k : IpBucket) (t : ℕ) (log : Log)
    → times b (log ++ ((k, t) ∷ []))
      ≡ (if bucket_eq_inst.beq k b then times b log ++ (t ∷ []) else times b log)
times-append b k t [] = refl
times-append b k t ((j, s) ∷ log) = ground (arith, times-append b k t log)

pub record Tracks (l : SlidingWindowLimiter) (log : Log) (last : ℕ) : Type 0 where
  pub nonempty :
      0 < l.max_per_window → All (λ (kv : IpBucket × List ℕ). is_nonempty kv.1 ≡ true) l.state
  pub agrees :
      (b : IpBucket) (now : ℕ)
      → last ≤ now
      → in_window l.window now (or_default [] (get b l.state))
        ≡ in_window l.window now (times b log)
  pub bounded :
      (b : IpBucket) (now : ℕ)
      → last ≤ now
      → length (in_window l.window now (times b log)) ≤ l.max_per_window

retain-nonempty :
    (m : List (IpBucket × List ℕ))
    → All (λ (kv : IpBucket × List ℕ). is_nonempty kv.1 ≡ true) m
    → retain is_nonempty m ≡ m
retain-nonempty [] h = refl
retain-nonempty ((k, v) ∷ m) (h, hs) = rw h (ap (◌∷◌ (k, v)) (retain-nonempty m hs))

insert-nonempty :
    (k : IpBucket) (v : List ℕ) (m : List (IpBucket × List ℕ))
    → is_nonempty v ≡ true
    → All (λ (kv : IpBucket × List ℕ). is_nonempty kv.1 ≡ true) m
    → All (λ (kv : IpBucket × List ℕ). is_nonempty kv.1 ≡ true) (insert k v m)
unfolding insert
insert-nonempty k v [] h hs = (h, tt)
insert-nonempty k v ((j, w) ∷ m) h (g, gs) = elim (Bool-cases (bucket_eq_inst.beq j k)) [
  | inl same ↦ rw (same, insert) (h, gs)
  | inr other ↦ rw (other, insert) (g, insert-nonempty k v m h gs)
]

nonempty-length : (ts : List ℕ) → 0 < length ts → is_nonempty ts ≡ true
nonempty-length [] h = absurd (omega arith)
nonempty-length (t ∷ ts) h = refl

length-one : (w now later : ℕ) → length (in_window w later (now ∷ [])) ≤ 1
length-one w now later = ground arith

-- What the state is after a call, for the two outcomes.
pub refused_state :
    (l : SlidingWindowLimiter) (ip : IpAddr) (now : ℕ)
    → let live = in_window l.window now (or_default [] (get (bucket_of ip) l.state)) in
      leb l.max_per_window (length live) ≡ true
      → check_and_record l ip now ≡ (record l { state = insert (bucket_of ip) live l.state }, false)
unfolding check_and_record admit
refused_state l ip now full = rw (full, check_and_record, admit) refl

pub admitted_state :
    (l : SlidingWindowLimiter) (ip : IpAddr) (now : ℕ)
    → let live = in_window l.window now (or_default [] (get (bucket_of ip) l.state)) in
      leb l.max_per_window (length live) ≡ false
      → (0 < l.max_per_window → All (λ (kv : IpBucket × List ℕ). is_nonempty kv.1 ≡ true) l.state)
      → check_and_record l ip now
        ≡ (record l { state = insert (bucket_of ip) (live ++ (now ∷ [])) l.state }, true)
unfolding check_and_record admit
admitted_state l ip now free nonempty =
    let live = in_window l.window now (or_default [] (get (bucket_of ip) l.state)) in
    let state = insert (bucket_of ip) (live ++ (now ∷ [])) l.state in
    let all =
      insert-nonempty (bucket_of ip) (live ++ (now ∷ [])) l.state
        (nonempty-length _ (omega (arith, length-append live (now ∷ []))))
        (nonempty (ground (arith, free))) in
    rw (free, retain-nonempty state all, check_and_record, admit)
      (same (ltb 1024 (length state)) state)
  where
    same :
        (b : Bool) (state : List (IpBucket × List ℕ))
        → ◌≡◌ {A = SlidingWindowLimiter × Bool}
            (record l { state = if b then state else state }, true)
            (record l { state = state }, true)
    same true state = refl
    same false state = refl

refused-Tracks :
    (l : SlidingWindowLimiter) (log : Log) (ip : IpAddr) (now last : ℕ)
    → last ≤ now
    → leb l.max_per_window
        (length (in_window l.window now (or_default [] (get (bucket_of ip) l.state))))
      ≡ true
    → Tracks l log last
    → Tracks
        (record l {
          state =
              insert
                (bucket_of ip)
                (in_window l.window now (or_default [] (get (bucket_of ip) l.state)))
                l.state;
        })
        log
        now
refused-Tracks l log ip now last o full h =
    let ts = or_default [] (get (bucket_of ip) l.state) in
    let live = in_window l.window now ts in
    record {
      nonempty = λ p.
          insert-nonempty (bucket_of ip) live l.state
            (nonempty-length live (ground (arith, full, p))) (h.nonempty p);
      agrees = λ b later g. elim (Bool-cases (bucket_eq_inst.beq (bucket_of ip) b)) [
        | inl same ↦
            let k = (bucket_eq_inst.beq_iff (bucket_of ip) b).0 same in
            rw (get-insert (bucket_of ip) b live l.state, same)
              (in_window-in_window l.window now later ts g
                ∙ h.agrees (bucket_of ip) later (omega arith)
                ∙ ap (λ t. in_window l.window later (times t log)) k)
        | inr other ↦
            rw (get-insert (bucket_of ip) b live l.state, other) (h.agrees b later (omega arith))
      ];
      bounded = λ b later g. h.bounded b later (omega arith);
    }

admitted-Tracks :
    (l : SlidingWindowLimiter) (log : Log) (ip : IpAddr) (now last : ℕ)
    → last ≤ now
    → leb l.max_per_window
        (length (in_window l.window now (or_default [] (get (bucket_of ip) l.state))))
      ≡ false
    → Tracks l log last
    → Tracks
        (record l {
          state =
              insert
                (bucket_of ip)
                (in_window l.window now (or_default [] (get (bucket_of ip) l.state)) ++ (now ∷ []))
                l.state;
        })
        (log ++ ((bucket_of ip, now) ∷ []))
        now
admitted-Tracks l log ip now last o free h =
    let ts = or_default [] (get (bucket_of ip) l.state) in
    let live = in_window l.window now ts in
    let ts' = live ++ (now ∷ []) in
    let mine = times (bucket_of ip) log in
    let self = (bucket_eq_inst.beq_iff (bucket_of ip) (bucket_of ip)).1 refl in
    record {
      nonempty = λ p.
          insert-nonempty (bucket_of ip) ts' l.state
            (nonempty-length ts' (omega (arith, length-append live (now ∷ [])))) (h.nonempty p);
      agrees = λ b later g. elim (Bool-cases (bucket_eq_inst.beq (bucket_of ip) b)) [
        | inl same ↦
            let k = (bucket_eq_inst.beq_iff (bucket_of ip) b).0 same in
            rw
              (get-insert (bucket_of ip) b ts' l.state, times-append b (bucket_of ip) now log, same)
              (filter-append (is_live l.window later) live (now ∷ [])
                ∙ ap (λ t. t ++ in_window l.window later (now ∷ []))
                    (in_window-in_window l.window now later ts g
                      ∙ h.agrees (bucket_of ip) later (omega arith)
                      ∙ ap (λ t. in_window l.window later (times t log)) k)
                ∙ sym (filter-append (is_live l.window later) (times b log) (now ∷ [])))
        | inr other ↦
            rw
              (
                get-insert (bucket_of ip) b ts' l.state,
                times-append b (bucket_of ip) now log,
                other,
              )
              (h.agrees b later (omega arith))
      ];
      bounded = λ b later g. elim (Bool-cases (bucket_eq_inst.beq (bucket_of ip) b)) [
        | inl same ↦
            let k = (bucket_eq_inst.beq_iff (bucket_of ip) b).0 same in
            let split =
              ap length (filter-append (is_live l.window later) (times b log) (now ∷ []))
              ∙ length-append (in_window l.window later (times b log))
                  (in_window l.window later (now ∷ [])) in
            let fewer = in_window-le l.window now later (times b log) g in
            let agreed =
              ap length (
                h.agrees (bucket_of ip) now o ∙ ap (λ t. in_window l.window now (times t log)) k) in
            rw (times-append b (bucket_of ip) now log, same)
              (omega (arith, split, fewer, agreed, length-one l.window now later, below _ _ free))
        | inr other ↦
            rw (times-append b (bucket_of ip) now log, other) (h.bounded b later (omega arith))
      ];
    }
  where
    below : (m n : ℕ) → leb m n ≡ false → n < m
    below m n e = ground arith

call-Tracks :
    (l : SlidingWindowLimiter) (log : Log) (ip : IpAddr) (now last : ℕ)
    → last ≤ now
    → Tracks l log last
    → Tracks (call (l, log) (ip, now)).0 (call (l, log) (ip, now)).1 now
      × ((call (l, log) (ip, now)).0.window ≡ l.window)
      × ((call (l, log) (ip, now)).0.max_per_window ≡ l.max_per_window)
unfolding call
call-Tracks l log ip now last o h =
    elim (Bool-cases (
      leb l.max_per_window
        (length (in_window l.window now (or_default [] (get (bucket_of ip) l.state)))))) [
          | inl full ↦
              rw (refused_state l ip now full)
                (refused-Tracks l log ip now last o full h, refl, refl)
          | inr free ↦
              rw (admitted_state l ip now free h.nonempty)
                (admitted-Tracks l log ip now last o free h, refl, refl)
        ]

pub calls-Tracks :
    (xs : List (IpAddr × ℕ)) (l : SlidingWindowLimiter) (log : Log) (last : ℕ)
    → IsOrdered last xs
    → Tracks l log last
    → Tracks (calls (l, log) xs).0 (calls (l, log) xs).1 (end_of last xs)
      × ((calls (l, log) xs).0.window ≡ l.window)
      × ((calls (l, log) xs).0.max_per_window ≡ l.max_per_window)
unfolding calls
calls-Tracks [] l log last o h = (h, refl, refl)
calls-Tracks ((ip, now) ∷ xs) l log last (o, os) h =
    let (t, w, m) = call-Tracks l log ip now last o h in
    let (t', w', m') =
      calls-Tracks xs (call (l, log) (ip, now)).0 (call (l, log) (ip, now)).1 now os t in
    (t', w' ∙ w, m' ∙ m)

pub new-Tracks : (window max_per_window : ℕ) → Tracks (new window max_per_window) [] 0
unfolding get
new-Tracks window max_per_window = record {
  nonempty = λ _. tt;
  agrees = λ b later h. refl;
  bounded = λ b later h. omega arith;
}

-- From a new limiter, whatever calls come in the order of their times: in no window that ends at the
-- last call or later are more calls of one bucket admitted than the limit says.
pub calls-new :
    (window max_per_window : ℕ) (xs : List (IpAddr × ℕ)) (b : IpBucket) (now : ℕ)
    → IsOrdered 0 xs
    → end_of 0 xs ≤ now
    → length (in_window window now (times b (calls (new window max_per_window, []) xs).1))
      ≤ max_per_window
calls-new window max_per_window xs b now o g =
    let (t, w, m) =
      calls-Tracks xs (new window max_per_window) [] 0 o (new-Tracks window max_per_window) in
    subst
      (λ v.
        length (in_window v now (times b (calls (new window max_per_window, []) xs).1))
        ≤ max_per_window)
      w (omega (arith, t.bounded b now g, m))
