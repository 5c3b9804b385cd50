-- ===== src/RateLimit/Slots.antt =====
-- The concurrency trackers of byo-relay/src/rate_limit.rs. A guard is known by its key.
use wattcloud.Common.{
  ℕ, ◌+◌, ◌-◌, max, ◌≤◌, ◌≡◌, refl, ◌∙◌, inl, inr, Bool, true, false, Bool-cases, Option, none,
  some, Option-cases, List, [], ◌∷◌, leb, ◌==◌, if◌then◌else◌, arith,
}
use wattcloud.Common.Maps.{get, insert, remove, get-insert, get-remove}
use wattcloud.RateLimit.{IpAddr, IpBucket, bucket_of, bucket_eq_inst, or_default}

-- `SftpConnectionTracker`
pub record SftpConnectionTracker : Type 0 where
  pub state : List (IpBucket × ℕ)
  pub max_per_ip : ℕ

abbrev pub with_max : ℕ → SftpConnectionTracker
with_max max_per_ip = record { state = []; max_per_ip = max max_per_ip 1 }

-- `try_acquire`: a guard for the bucket, or none. The entry is made in either case.
unfoldable pub try_acquire :
    SftpConnectionTracker → IpAddr → SftpConnectionTracker × Option IpBucket
try_acquire t ip =
    let count = or_default 0 (get (bucket_of ip) t.state) in
    if leb t.max_per_ip count
    then (record t { state = insert (bucket_of ip) count t.state }, none)
    else (record t { state = insert (bucket_of ip) (count + 1) t.state }, some (bucket_of ip))

-- `SftpConnectionGuard::drop`
unfoldable pub drop_guard : SftpConnectionTracker → IpBucket → SftpConnectionTracker
drop_guard t bucket = elim (get bucket t.state) [
  | none ↦ t
  | some count ↦
      if count - 1 == 0
      then record t { state = remove bucket (insert bucket 0 t.state) }
      else record t { state = insert bucket (count - 1) t.state }
]

-- The guards that are alive, and the calls: an attempt from an address, or the end of a guard.
pub data Call : Type 0 where
  acquire : IpAddr → Call
  release : IpBucket → Call

abbrev pub held_by : IpBucket → List IpBucket → ℕ
held_by b [] = 0
held_by b (g ∷ gs) = if bucket_eq_inst.beq g b then 1 + held_by b gs else held_by b gs

abbrev pub drop_first : IpBucket → List IpBucket → List IpBucket
drop_first b [] = []
drop_first b (g ∷ gs) = if bucket_eq_inst.beq g b then gs else g ∷ drop_first b gs

abbrev pub with_guard : Option IpBucket → List IpBucket → List IpBucket
with_guard none gs = gs
with_guard (some g) gs = g ∷ gs

-- A release is only of a guard that is alive.
unfoldable pub call :
    SftpConnectionTracker × List IpBucket → Call → SftpConnectionTracker × List IpBucket
call (t, gs) (acquire ip) = ((try_acquire t ip).0, with_guard (try_acquire t ip).1 gs)
call (t, gs) (release b) = if held_by b gs == 0 then (t, gs) else (drop_guard t b, drop_first b gs)

unfoldable pub calls :
    SftpConnectionTracker × List IpBucket → List Call → SftpConnectionTracker × List IpBucket
calls s [] = s
calls s (x ∷ xs) = calls (call s x) xs

record Counts (t : SftpConnectionTracker) (gs : List IpBucket) : Type 0 where
  counted : (b : IpBucket) → or_default 0 (get b t.state) ≡ held_by b gs
  bounded : (b : IpBucket) → held_by b gs ≤ t.max_per_ip

abbrev beq : IpBucket → IpBucket → Bool
beq = bucket_eq_inst.beq

beq_sound : (a b : IpBucket) → beq a b ≡ true → a ≡ b
beq_sound a b = (bucket_eq_inst.beq_iff a b).0

held_by-cons :
    (b g : IpBucket) (gs : List IpBucket)
    → held_by b (g ∷ gs) ≡ (if beq g b then 1 + held_by b gs else held_by b gs)
held_by-cons b g gs = refl

held_by-drop :
    (b g : IpBucket) (gs : List IpBucket)
    → held_by b (drop_first g gs) ≡ (if beq g b then held_by b gs - 1 else held_by b gs)
held_by-drop b g [] = ground arith
held_by-drop b g (x ∷ xs) = ground (
  arith,
  held_by-drop b g xs,
  bucket_eq_inst.beq_iff g b,
  bucket_eq_inst.beq_iff x b,
  bucket_eq_inst.beq_iff x g,
)

acquire-Counts :
    (t : SftpConnectionTracker) (gs : List IpBucket) (ip : IpAddr)
    → Counts t gs
    → Counts (try_acquire t ip).0 (with_guard (try_acquire t ip).1 gs)
unfolding try_acquire
acquire-Counts t gs ip h =
    let count = or_default 0 (get (bucket_of ip) t.state) in
    elim (Bool-cases (leb t.max_per_ip count)) [
      | inl full ↦
          rw (full, try_acquire)
            (record {
              counted = λ b. ground (
                arith,
                h.counted b,
                get-insert (bucket_of ip) b count t.state,
                beq_sound (bucket_of ip) b,
              );
              bounded = h.bounded;
            })
      | inr free ↦
          rw (free, try_acquire)
            (record {
              counted = λ b. ground (
                arith,
                h.counted b,
                get-insert (bucket_of ip) b (count + 1) t.state,
                beq_sound (bucket_of ip) b,
              );
              bounded =
                  λ b. ground (arith, h.bounded b, h.counted b, free, beq_sound (bucket_of ip) b);
            })
    ]

release-Counts :
    (t : SftpConnectionTracker) (gs : List IpBucket) (g : IpBucket)
    → (held_by g gs == 0) ≡ false
    → Counts t gs
    → Counts (drop_guard t g) (drop_first g gs)
unfolding drop_guard
release-Counts t gs g alive h = elim (Option-cases (get g t.state)) [
  | inl absent ↦ absurd (ground (arith, absent, h.counted g, alive))
  | inr (count, present) ↦
      let less : (b : IpBucket) → held_by b (drop_first g gs) ≤ t.max_per_ip =
        λ b. ground (arith, held_by-drop b g gs, h.bounded b) in
      elim (Bool-cases (count - 1 == 0)) [
        | inl last ↦
            rw (present, last, drop_guard)
              (record {
                counted = λ b. ground (
                  arith,
                  h.counted b,
                  h.counted g,
                  present,
                  held_by-drop b g gs,
                  get-insert g b 0 t.state,
                  get-remove g b (insert g 0 t.state),
                  beq_sound g b,
                );
                bounded = less;
              })
        | inr more ↦
            rw (present, more, drop_guard)
              (record {
                counted = λ b. ground (
                  arith,
                  h.counted b,
                  h.counted g,
                  present,
                  held_by-drop b g gs,
                  get-insert g b (count - 1) t.state,
                  beq_sound g b,
                );
                bounded = less;
              })
      ]
]

keeps_max :
    (t : SftpConnectionTracker) (ip : IpAddr) → (try_acquire t ip).0.max_per_ip ≡ t.max_per_ip
unfolding try_acquire
keeps_max t ip = elim (Bool-cases (leb t.max_per_ip (or_default 0 (get (bucket_of ip) t.state)))) [
  | inl full ↦ rw (full, try_acquire)
  | inr free ↦ rw (free, try_acquire)
]

call-Counts :
    (t : SftpConnectionTracker) (gs : List IpBucket) (x : Call)
    → Counts t gs
    → Counts (call (t, gs) x).0 (call (t, gs) x).1
unfolding call
call-Counts t gs (acquire ip) h = acquire-Counts t gs ip h
call-Counts t gs (release g) h = elim (Bool-cases (held_by g gs == 0)) [
  | inl dead ↦ rw (dead, call) h
  | inr alive ↦ rw (alive, call) (release-Counts t gs g alive h)
]

drop-max : (t : SftpConnectionTracker) (g : IpBucket) → (drop_guard t g).max_per_ip ≡ t.max_per_ip
unfolding drop_guard
drop-max t g = elim (Option-cases (get g t.state)) [
  | inl absent ↦ rw (absent, drop_guard)
  | inr (count, present) ↦ elim (Bool-cases (count - 1 == 0)) [
    | inl last ↦ rw (present, last, drop_guard)
    | inr more ↦ rw (present, more, drop_guard)
  ]
]

call-max :
    (t : SftpConnectionTracker) (gs : List IpBucket) (x : Call)
    → (call (t, gs) x).0.max_per_ip ≡ t.max_per_ip
unfolding call
call-max t gs (acquire ip) = keeps_max t ip
call-max t gs (release g) = elim (Bool-cases (held_by g gs == 0)) [
  | inl dead ↦ rw (dead, call)
  | inr alive ↦ rw (alive, call) (drop-max t g)
]

calls-Counts :
    (xs : List Call) (t : SftpConnectionTracker) (gs : List IpBucket)
    → Counts t gs
    → Counts (calls (t, gs) xs).0 (calls (t, gs) xs).1
      × ((calls (t, gs) xs).0.max_per_ip ≡ t.max_per_ip)
unfolding calls
calls-Counts [] t gs h = (h, refl)
calls-Counts (x ∷ xs) t gs h =
    let (a, b) = calls-Counts xs (call (t, gs) x).0 (call (t, gs) x).1 (call-Counts t gs x h) in
    (a, b ∙ call-max t gs x)

-- From an empty tracker, after any sequence of attempts and of ends of live guards: the counter of
-- every bucket is the number of its live guards, and that is never above the cap (the configured one,
-- or 1 where 0 is configured).
pub calls-with_max :
    (most : ℕ) (xs : List Call) (b : IpBucket)
    → let (t, guards) = calls (with_max most, []) xs in
      (or_default 0 (get b t.state) ≡ held_by b guards) × (held_by b guards ≤ max most 1)
unfolding get
calls-with_max most xs b =
    let (h, same) =
      calls-Counts xs (with_max most) []
        (record { counted = λ b'. refl; bounded = λ b'. omega arith }) in
    (h.counted b, omega (arith, h.bounded b, same))
