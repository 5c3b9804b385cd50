-- ===== src/Relay/IpFilter.antt =====
-- byo-relay/src/ip_filter.rs: the addresses that the relay does not connect to. The tests of
-- `std::net` are written as its documentation has them.
pub mod Blocks
pub mod Embedded
use Prim.Native.Nat.{bit_and}
use wattcloud.Common.{
  ℕ, ◌+◌, ◌*◌, ◌/◌, ◌%◌, ◌&&◌, ◌||◌, Bool, true, false, Option, none, some, leb, ◌==◌,
  if◌then◌else◌,
}

pub record Ipv4Addr : Type 0 where
  pub a : ℕ
  pub b : ℕ
  pub c : ℕ
  pub d : ℕ

-- By its segments of 16 bits.
pub record Ipv6Addr : Type 0 where
  pub s0 : ℕ
  pub s1 : ℕ
  pub s2 : ℕ
  pub s3 : ℕ
  pub s4 : ℕ
  pub s5 : ℕ
  pub s6 : ℕ
  pub s7 : ℕ

pub data IpAddr : Type 0 where
  v4 : Ipv4Addr → IpAddr
  v6 : Ipv6Addr → IpAddr

-- std::net::Ipv4Addr
abbrev pub is_loopback : Ipv4Addr → Bool
is_loopback ip = ip.a == 127

abbrev pub is_private : Ipv4Addr → Bool
is_private ip =
    ip.a == 10 || ((ip.a == 172 && (leb 16 ip.b && leb ip.b 31)) || (ip.a == 192 && ip.b == 168))

abbrev pub is_link_local : Ipv4Addr → Bool
is_link_local ip = ip.a == 169 && ip.b == 254

abbrev pub is_broadcast : Ipv4Addr → Bool
is_broadcast ip = ip.a == 255 && (ip.b == 255 && (ip.c == 255 && ip.d == 255))

abbrev pub is_unspecified : Ipv4Addr → Bool
is_unspecified ip = ip.a == 0 && (ip.b == 0 && (ip.c == 0 && ip.d == 0))

abbrev pub is_multicast : Ipv4Addr → Bool
is_multicast ip = leb 224 ip.a && leb ip.a 239

-- `is_shared_address_space`
unfoldable pub is_shared_address_space : Ipv4Addr → Bool
is_shared_address_space ip = ip.a == 100 && bit_and ip.b 192 == 64

-- `is_documentation_v4`
unfoldable pub is_documentation_v4 : Ipv4Addr → Bool
is_documentation_v4 ip =
    (ip.a == 192 && (ip.b == 0 && ip.c == 2))
    || ((ip.a == 198 && (ip.b == 51 && ip.c == 100)) || (ip.a == 203 && (ip.b == 0 && ip.c == 113)))

-- `is_ipv4_blocked`
unfoldable pub is_ipv4_blocked : Ipv4Addr → Bool
is_ipv4_blocked ip =
    if is_loopback ip
    then true
    else if is_private ip
    then true
    else if is_link_local ip
    then true
    else if is_shared_address_space ip
    then true
    else if is_broadcast ip
    then true
    else if is_unspecified ip
    then true
    else if is_documentation_v4 ip
    then true
    else if is_multicast ip
    then true
    else if ip.a == 198 && (ip.b == 18 || ip.b == 19)
    then true
    else if ip.a == 192 && (ip.b == 0 && ip.c == 0)
    then true
    else false

-- std::net::Ipv6Addr: the loopback, or unspecified, by its last segment.
abbrev pub is_last_segment : ℕ → Ipv6Addr → Bool
is_last_segment n ip =
    ip.s0 == 0
    && (ip.s1 == 0
        && (ip.s2 == 0
            && (ip.s3 == 0 && (ip.s4 == 0 && (ip.s5 == 0 && (ip.s6 == 0 && ip.s7 == n))))))

-- An IPv4 address from two segments.
abbrev pub of_segments : ℕ → ℕ → Ipv4Addr
of_segments high low = record {
  a = high / 256 % 256;
  b = high % 256;
  c = low / 256 % 256;
  d = low % 256;
}

-- `Ipv6Addr::to_ipv4_mapped`
abbrev pub to_ipv4_mapped : Ipv6Addr → Option Ipv4Addr
to_ipv4_mapped ip =
    if ip.s0 == 0 && (ip.s1 == 0 && (ip.s2 == 0 && (ip.s3 == 0 && (ip.s4 == 0 && ip.s5 == 65535))))
    then some (of_segments ip.s6 ip.s7)
    else none

-- `is_ipv6_link_local`
unfoldable pub is_ipv6_link_local : Ipv6Addr → Bool
is_ipv6_link_local ip = bit_and ip.s0 65472 == 65152

-- `is_ipv6_unique_local`
unfoldable pub is_ipv6_unique_local : Ipv6Addr → Bool
is_ipv6_unique_local ip = bit_and ip.s0 65024 == 64512

-- `is_ipv6_discard`
unfoldable pub is_ipv6_discard : Ipv6Addr → Bool
is_ipv6_discard ip = ip.s0 == 256 && (ip.s1 == 0 && (ip.s2 == 0 && ip.s3 == 0))

-- `is_6to4_blocked`
unfoldable pub is_6to4_blocked : Ipv6Addr → Bool
is_6to4_blocked ip = if ip.s0 == 8194 then is_ipv4_blocked (of_segments ip.s1 ip.s2) else false

-- `is_ipv4_mapped_blocked`
unfoldable pub is_ipv4_mapped_blocked : Ipv6Addr → Bool
is_ipv4_mapped_blocked ip = elim (to_ipv4_mapped ip) [
  | none ↦ false
  | some mapped ↦ is_ipv4_blocked mapped
]

-- `is_ipv6_blocked`
unfoldable pub is_ipv6_blocked : Ipv6Addr → Bool
is_ipv6_blocked ip =
    if is_last_segment 1 ip
    then true
    else if is_last_segment 0 ip
    then true
    else if is_ipv6_link_local ip
    then true
    else if is_ipv6_unique_local ip
    then true
    else if is_ipv6_discard ip
    then true
    else if is_6to4_blocked ip
    then true
    else if is_ipv4_mapped_blocked ip
    then true
    else false

-- `is_ip_blocked`
unfoldable pub is_ip_blocked : IpAddr → Bool
is_ip_blocked (v4 ip) = is_ipv4_blocked ip
is_ip_blocked (v6 ip) = is_ipv6_blocked ip
