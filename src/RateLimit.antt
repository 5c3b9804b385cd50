-- ===== src/RateLimit.antt =====
-- byo-relay/src/rate_limit.rs: the key that its limiters share. Instants and durations are natural
-- numbers of one unit, and the clock is an argument; a map's lock makes each call one step.
pub mod Window
pub mod Slots
pub mod Storage
pub mod Failures
pub mod Budget
pub mod Downloads
use wattcloud.Common.{ℕ, ◌≡◌, ◌↔◌, refl, ap, Bool, true, false, Eq, take, Option, none, some, List}
use wattcloud.Common.Bytes.{Bytes, bytes_eq, bytes_eq_iff}

-- `std::net::IpAddr`, by its octets.
pub data IpAddr : Type 0 where
  v4 v6 : Bytes → IpAddr

pub data IpBucket : Type 0 where
  bucket4 bucket6 : Bytes → IpBucket

-- `IpBucket::from`
unfoldable pub bucket_of : IpAddr → IpBucket
bucket_of (v4 octets) = bucket4 octets
bucket_of (v6 octets) = bucket6 (take 8 octets)

abbrev pub bucket_eq : IpBucket → IpBucket → Bool
bucket_eq (bucket4 a) (bucket4 b) = bytes_eq a b
bucket_eq (bucket6 a) (bucket6 b) = bytes_eq a b
bucket_eq (bucket4 a) (bucket6 b) = false
bucket_eq (bucket6 a) (bucket4 b) = false

pub bucket_eq_iff : (a b : IpBucket) → (bucket_eq a b ≡ true) ↔ (a ≡ b)
bucket_eq_iff (bucket4 a) (bucket4 b) =
    (λ h. ap bucket4 ((bytes_eq_iff a b).0 h), λ h. (bytes_eq_iff a b).1 (cc h))
bucket_eq_iff (bucket6 a) (bucket6 b) =
    (λ h. ap bucket6 ((bytes_eq_iff a b).0 h), λ h. (bytes_eq_iff a b).1 (cc h))
bucket_eq_iff (bucket4 a) (bucket6 b) = (λ h. cc, λ h. cc)
bucket_eq_iff (bucket6 a) (bucket4 b) = (λ h. cc, λ h. cc)

instance abbrev pub bucket_eq_inst : Eq IpBucket
bucket_eq_inst = record { beq = bucket_eq; beq_iff = bucket_eq_iff }

-- `get(..).unwrap_or(default)`
abbrev pub or_default {ℓ} : {V : Type ℓ} → V → Option V → V
or_default v none = v
or_default v (some w) = w
