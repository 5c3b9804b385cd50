-- ===== src/Relay/IpFilter/Blocks.antt =====
-- The blocks of addresses that byo-relay/src/ip_filter.rs is to refuse, in the notation of prefixes.
use Prim.Native.Nat.{bit_and}
use wattcloud.Common.{
  ℕ, zero, suc, ◌+◌, ◌-◌, ◌*◌, ◌^◌, ◌<◌, ◌≡◌, refl, ap, ◌∙◌, ◌&&◌, ◌||◌, not, inl, inr, Bool,
  Bool-cases, ==_iff, true, false, List, [], ◌∷◌, any, leb, ltb, ◌==◌, if◌then◌else◌, arith,
}
use wattcloud.Common.Bytes.{IsByte}
use wattcloud.Relay.IpFilter.{
  Ipv4Addr, is_loopback, is_link_local, is_broadcast, is_unspecified, is_multicast,
  is_shared_address_space, is_documentation_v4, is_ipv4_blocked,
}

-- The address as a number of 32 bits.
abbrev pub to_u32 : Ipv4Addr → ℕ
to_u32 ip = ip.a * 16777216 + ip.b * 65536 + ip.c * 256 + ip.d

-- A block `base/len`, by its base and its size, 2^(32 - len) addresses.
pub record Block : Type 0 where
  pub base : ℕ
  pub size : ℕ

abbrev pub cidr : ℕ → ℕ → ℕ → ℕ → ℕ → Block
cidr a b c d len = record { base = a * 16777216 + b * 65536 + c * 256 + d; size = 2 ^ (32 - len) }

-- An address of the block is not below its base, and below its end.
abbrev pub in_block : ℕ → Block → Bool
in_block n block = leb block.base n && ltb n (block.base + block.size)

-- The blocks, in the order of the code's tests.
abbrev pub blocked_blocks : List Block
blocked_blocks =
    cidr 127 0 0 0 8
    ∷ cidr 10 0 0 0 8
    ∷ cidr 172 16 0 0 12
    ∷ cidr 192 168 0 0 16
    ∷ cidr 169 254 0 0 16
    ∷ cidr 100 64 0 0 10
    ∷ cidr 255 255 255 255 32
    ∷ cidr 0 0 0 0 32
    ∷ cidr 192 0 2 0 24
    ∷ cidr 198 51 100 0 24
    ∷ cidr 203 0 113 0 24
    ∷ cidr 224 0 0 0 4
    ∷ cidr 198 18 0 0 15
    ∷ cidr 192 0 0 0 24
    ∷ []

-- A test on each number below a bound.
abbrev all_below : ℕ → (ℕ → Bool) → Bool
all_below zero f = true
all_below (suc n) f = f n && all_below n f

all_below-true : (n k : ℕ) (f : ℕ → Bool) → all_below n f ≡ true → k < n → f k ≡ true
all_below-true zero k f h l = absurd (omega arith)
all_below-true (suc n) k f h l = elim (Bool-cases (k == n)) [
  | inl e ↦ ap f ((==_iff k n).0 e) ∙ (both (f n) (all_below n f) h).0
  | inr e ↦ all_below-true n k f (both (f n) (all_below n f) h).1 (ground (arith, e))
]
  where
    both : (x y : Bool) → (x && y) ≡ true → (x ≡ true) × (y ≡ true)
    both true y h = (refl, h)
    both false y h = cc

abbrev agree : Bool → Bool → Bool
agree true b = b
agree false b = not b

agree-true : (x y : Bool) → agree x y ≡ true → x ≡ y
agree-true true true h = refl
agree-true true false h = cc
agree-true false true h = cc
agree-true false false h = refl

-- The two high bits of a byte are 01 from 64 to 127.
abbrev high_bits_agree : ℕ → Bool
high_bits_agree k = agree (bit_and k 192 == 64) (leb 64 k && leb k 127)

high_bits_checked : all_below 256 high_bits_agree ≡ true
high_bits_checked = refl

high_bits : (k : ℕ) → IsByte k → (bit_and k 192 == 64) ≡ (leb 64 k && leb k 127)
high_bits k l = agree-true _ _ (all_below-true 256 k high_bits_agree high_bits_checked l)

if_or : (x y r : Bool) → (if x || y then true else r) ≡ (if x then true else if y then true else r)
if_or true y r = refl
if_or false y r = refl

-- The tests of the code, those with several blocks taken apart.
one_by_one :
    (l p q r k s b u d e f m t o : Bool)
    → (if l
        then true
        else if p || (q || r)
        then true
        else if k
        then true
        else if s
        then true
        else if b
        then true
        else if u
        then true
        else if d || (e || f)
        then true
        else if m
        then true
        else if t
        then true
        else if o
        then true
        else false)
      ≡ any (λ x. x) (l ∷ p ∷ q ∷ r ∷ k ∷ s ∷ b ∷ u ∷ d ∷ e ∷ f ∷ m ∷ t ∷ o ∷ [])
one_by_one l p q r k s b u d e f m t o =
    let tail = any (λ x. x) (m ∷ t ∷ o ∷ []) in
    let rest = any (λ x. x) (k ∷ s ∷ b ∷ u ∷ d ∷ e ∷ f ∷ m ∷ t ∷ o ∷ []) in
    rw (if_or d (e || f) tail, if_or e f tail, if_or p (q || r) rest, if_or q r rest)

module _ (ip : Ipv4Addr) (a8 : IsByte ip.a) (b8 : IsByte ip.b) (c8 : IsByte ip.c)
    (d8 : IsByte ip.d) where
  loopback : in_block (to_u32 ip) (cidr 127 0 0 0 8) ≡ is_loopback ip
  loopback = ground arith

  private_10 : in_block (to_u32 ip) (cidr 10 0 0 0 8) ≡ (ip.a == 10)
  private_10 = ground arith

  private_172 :
      in_block (to_u32 ip) (cidr 172 16 0 0 12) ≡ (ip.a == 172 && (leb 16 ip.b && leb ip.b 31))
  private_172 = ground arith

  private_192 : in_block (to_u32 ip) (cidr 192 168 0 0 16) ≡ (ip.a == 192 && ip.b == 168)
  private_192 = ground arith

  link_local : in_block (to_u32 ip) (cidr 169 254 0 0 16) ≡ is_link_local ip
  link_local = ground arith

  shared_space :
      in_block (to_u32 ip) (cidr 100 64 0 0 10) ≡ (ip.a == 100 && (leb 64 ip.b && leb ip.b 127))
  shared_space = ground arith

  broadcast : in_block (to_u32 ip) (cidr 255 255 255 255 32) ≡ is_broadcast ip
  broadcast = ground arith

  unspecified : in_block (to_u32 ip) (cidr 0 0 0 0 32) ≡ is_unspecified ip
  unspecified = ground arith

  documentation_192 :
      in_block (to_u32 ip) (cidr 192 0 2 0 24) ≡ (ip.a == 192 && (ip.b == 0 && ip.c == 2))
  documentation_192 = ground arith

  documentation_198 :
      in_block (to_u32 ip) (cidr 198 51 100 0 24) ≡ (ip.a == 198 && (ip.b == 51 && ip.c == 100))
  documentation_198 = ground arith

  documentation_203 :
      in_block (to_u32 ip) (cidr 203 0 113 0 24) ≡ (ip.a == 203 && (ip.b == 0 && ip.c == 113))
  documentation_203 = ground arith

  multicast : in_block (to_u32 ip) (cidr 224 0 0 0 4) ≡ is_multicast ip
  multicast = ground arith

  benchmark :
      in_block (to_u32 ip) (cidr 198 18 0 0 15) ≡ (ip.a == 198 && (ip.b == 18 || ip.b == 19))
  benchmark = ground arith

  protocols : in_block (to_u32 ip) (cidr 192 0 0 0 24) ≡ (ip.a == 192 && (ip.b == 0 && ip.c == 0))
  protocols = ground arith

  pub is_ipv4_blocked-any : is_ipv4_blocked ip ≡ any (in_block (to_u32 ip)) blocked_blocks
  unfolding is_ipv4_blocked is_shared_address_space is_documentation_v4
  is_ipv4_blocked-any =
      rw
        (
          loopback,
          private_10,
          private_172,
          private_192,
          link_local,
          shared_space,
          broadcast,
          unspecified,
          documentation_192,
          documentation_198,
          documentation_203,
          multicast,
          benchmark,
          protocols,
          high_bits ip.b b8,
        )
        (one_by_one (is_loopback ip) (ip.a == 10) (ip.a == 172 && (leb 16 ip.b && leb ip.b 31))
          (ip.a == 192 && ip.b == 168) (is_link_local ip)
          (ip.a == 100 && (leb 64 ip.b && leb ip.b 127)) (is_broadcast ip) (is_unspecified ip)
          (ip.a == 192 && (ip.b == 0 && ip.c == 2)) (ip.a == 198 && (ip.b == 51 && ip.c == 100))
          (ip.a == 203 && (ip.b == 0 && ip.c == 113)) (is_multicast ip)
          (ip.a == 198 && (ip.b == 18 || ip.b == 19)) (ip.a == 192 && (ip.b == 0 && ip.c == 0)))
