-- ===== src/Session/Monitor.antt =====
-- `ProviderMonitor` of sdk/sdk-core/src/byo/offline_monitor.rs. Floating-point arithmetic is a
-- parameter, and `IsExact` is what IEEE 754 says of it while no product needs more than 53 bits.
use wattcloud.Common.{
  ℕ, zero, suc, ◌+◌, ◌*◌, ◌/◌, ◌^◌, ◌≤◌, ◌<◌, min, ◌≡◌, refl, sym, ap, subst, ◌∙◌, inl, inr, Bool,
  Bool-cases, true, false, ltb, ltb→lt, if◌then◌else◌, arith,
}
use wattcloud.Common.Bytes.{max_u32}

pub data ProviderStatus : Type 0 where
  connected offline : ProviderStatus

pub record ProviderMonitor : Type 0 where
  pub fail_count : ℕ
  pub status : ProviderStatus

-- `ProviderMonitor::new`
abbrev pub new : ProviderMonitor
new = record { fail_count = 0; status = connected }

-- `record_success`: the monitor, and whether its status changed.
unfoldable pub record_success : ProviderMonitor → ProviderMonitor × Bool
record_success m = elim m.status [
  | offline ↦ (record { fail_count = 0; status = connected }, true)
  | connected ↦ (record m { fail_count = 0 }, false)
]

-- `record_failure`
unfoldable pub record_failure : ProviderMonitor → ProviderMonitor × Bool
record_failure m =
    let count = if ltb max_u32 (m.fail_count + 1) then max_u32 else m.fail_count + 1 in
    elim m.status [
      | connected ↦ (record { fail_count = count; status = offline }, true)
      | offline ↦ (record m { fail_count = count }, false)
    ]

-- `next_interval_ms`, with `(base_ms as f64 * 1.5_f64.powi(exponent)) as u64` as a function of
-- `base_ms` and the exponent.
unfoldable pub next_interval_ms : (ℕ → ℕ → ℕ) → ProviderMonitor → ℕ → ℕ → ℕ
next_interval_ms scaled m base_ms max_ms = min (scaled base_ms (min m.fail_count 6)) max_ms

-- The interval without its bound, `e` failures after a success.
abbrev pub grown : ℕ → ℕ → ℕ
grown base_ms e = base_ms * 3 ^ e / 2 ^ e

-- A power of 1.5 up to the sixth is a binary fraction, and so is its product with a number below
-- 2 ^ 43, of at most 53 bits: both are exact, and the cast cuts off the fraction.
unfoldable pub IsExact : (ℕ → ℕ → ℕ) → Type 0
IsExact scaled = (base_ms e : ℕ) → base_ms < 2 ^ 43 → e ≤ 6 → scaled base_ms e ≡ grown base_ms e

grown_step : (base_ms n : ℕ) → grown base_ms (min n 6) ≤ grown base_ms (min (suc n) 6)
grown_step b zero = omega arith
grown_step b (suc zero) = omega arith
grown_step b (suc (suc zero)) = omega arith
grown_step b (suc (suc (suc zero))) = omega arith
grown_step b (suc (suc (suc (suc zero)))) = omega arith
grown_step b (suc (suc (suc (suc (suc zero))))) = omega arith
grown_step b (suc (suc (suc (suc (suc (suc k)))))) =
    let now : min (suc (suc (suc (suc (suc (suc k)))))) 6 ≡ 6 = omega arith in
    let next : min (suc (suc (suc (suc (suc (suc (suc k))))))) 6 ≡ 6 = omega arith in
    rw (now, next) (omega arith)

grown_base : (base_ms n : ℕ) → base_ms ≤ grown base_ms (min n 6)
grown_base b zero = omega arith
grown_base b (suc n) = omega (arith, grown_base b n, grown_step b n)

-- Whether two statuses differ.
abbrev pub differ : ProviderStatus → ProviderStatus → Bool
differ connected connected = false
differ offline offline = false
differ connected offline = true
differ offline connected = true

-- The status is that of the last probe, and a probe reports whether it changed it.
reports :
    (m : ProviderMonitor)
    → ((record_success m).1 ≡ differ m.status (record_success m).0.status)
      × ((record_success m).0 ≡ new)
      × ((record_failure m).1 ≡ differ m.status (record_failure m).0.status)
      × ((record_failure m).0.status ≡ offline)
unfolding record_success record_failure
reports m = by_status m.fail_count m.status
  where
    by_status :
        (n : ℕ) (s : ProviderStatus)
        → ((record_success (record { fail_count = n; status = s })).1
            ≡ differ s (record_success (record { fail_count = n; status = s })).0.status)
          × ((record_success (record { fail_count = n; status = s })).0 ≡ new)
          × ((record_failure (record { fail_count = n; status = s })).1
              ≡ differ s (record_failure (record { fail_count = n; status = s })).0.status)
          × ((record_failure (record { fail_count = n; status = s })).0.status ≡ offline)
    by_status n connected = (refl, refl, refl, refl)
    by_status n offline = (refl, refl, refl, refl)

-- One more failure, with the counter at its largest value or not.
longer :
    (base_ms n : ℕ)
    → grown base_ms (min n 6)
      ≤ grown base_ms (min (if ltb max_u32 (n + 1) then max_u32 else n + 1) 6)
longer b n = elim (Bool-cases (ltb max_u32 (n + 1))) [
  | inl over ↦
      let far = ltb→lt max_u32 (n + 1) over in
      let six : min n 6 ≡ 6 = omega (arith, far) in rw (over, six) (omega arith)
  | inr under ↦
      let next : n + 1 ≡ suc n = omega arith in
      rw under (subst (λ k. grown b (min n 6) ≤ grown b (min k 6)) (sym next) (grown_step b n))
]

count_after :
    (m : ProviderMonitor)
    → (record_failure m).0.fail_count
      ≡ (if ltb max_u32 (m.fail_count + 1) then max_u32 else m.fail_count + 1)
unfolding record_failure
count_after m = by_status m.fail_count m.status
  where
    by_status :
        (n : ℕ) (s : ProviderStatus)
        → (record_failure (record { fail_count = n; status = s })).0.fail_count
          ≡ (if ltb max_u32 (n + 1) then max_u32 else n + 1)
    by_status n connected = refl
    by_status n offline = refl

-- The interval is never below the base nor above the bound, a failure never makes it shorter, and a
-- success takes it back to the base, where the base is below 2 ^ 43 milliseconds and at most the
-- bound, and floating point is exact there. A probe sets the status to its outcome and reports
-- exactly a change of the status.
pub next_interval_ms_bounds :
    (scaled : ℕ → ℕ → ℕ) (m : ProviderMonitor) (base_ms max_ms : ℕ)
    → IsExact scaled
    → base_ms < 2 ^ 43
    → base_ms ≤ max_ms
    → (base_ms ≤ next_interval_ms scaled m base_ms max_ms)
      × (next_interval_ms scaled m base_ms max_ms ≤ max_ms)
      × (next_interval_ms scaled m base_ms max_ms
          ≤ next_interval_ms scaled (record_failure m).0 base_ms max_ms)
      × (next_interval_ms scaled (record_success m).0 base_ms max_ms ≡ base_ms)
      × ((record_success m).1 ≡ differ m.status connected)
      × ((record_failure m).1 ≡ differ m.status offline)
unfolding next_interval_ms IsExact
next_interval_ms_bounds scaled m b most exact small h =
    let (told, fresh, told_too, off) = reports m in
    let n = m.fail_count in
    let now = exact b (min n 6) small (omega arith) in
    let next = exact b (min (record_failure m).0.fail_count 6) small (omega arith) in
    let first = exact b 0 small (omega arith) in
    (
      omega (arith, h, now, grown_base b n),
      omega arith,
      omega (arith, now, next, ap (λ k. grown b (min k 6)) (count_after m), longer b n),
      rw fresh (omega (arith, h, first)),
      told ∙ ap (λ (x : ProviderMonitor). differ m.status x.status) fresh,
      told_too ∙ ap (differ m.status) off,
    )
