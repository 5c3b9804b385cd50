-- ===== src/Relay/IpFilter/Embedded.antt =====
-- The IPv6 forms of an IPv4 address in byo-relay/src/ip_filter.rs.
use wattcloud.Common.{
  ℕ, any, ◌+◌, ◌*◌, ◌/◌, ◌%◌, ◌≡◌, refl, ◌∙◌, Bool, true, false, if◌then◌else◌, arith,
}
use wattcloud.Common.Bytes.{IsByte}
use wattcloud.Relay.IpFilter.{
  Ipv4Addr, Ipv6Addr, v4, v6, of_segments, is_ipv4_blocked, is_ipv6_blocked, is_ipv6_link_local,
  is_ipv6_unique_local, is_ipv6_discard, is_6to4_blocked, is_ipv4_mapped_blocked, is_ip_blocked,
}
use wattcloud.Relay.IpFilter.Blocks.{in_block, to_u32, blocked_blocks, is_ipv4_blocked-any}

-- ::ffff:a.b.c.d
abbrev pub mapped : Ipv4Addr → Ipv6Addr
mapped ip = record {
  s0 = 0;
  s1 = 0;
  s2 = 0;
  s3 = 0;
  s4 = 0;
  s5 = 65535;
  s6 = ip.a * 256 + ip.b;
  s7 = ip.c * 256 + ip.d;
}

-- 2002:ab:cd::/48, with any last five segments.
abbrev pub six_to_four : Ipv4Addr → ℕ → ℕ → ℕ → ℕ → ℕ → Ipv6Addr
six_to_four ip s3 s4 s5 s6 s7 = record {
  s0 = 8194;
  s1 = ip.a * 256 + ip.b;
  s2 = ip.c * 256 + ip.d;
  s3 = s3;
  s4 = s4;
  s5 = s5;
  s6 = s6;
  s7 = s7;
}

if_same : (b : Bool) → (if b then true else false) ≡ b
if_same true = refl
if_same false = refl

module _ (ip : Ipv4Addr) (a8 : IsByte ip.a) (b8 : IsByte ip.b) (c8 : IsByte ip.c)
    (d8 : IsByte ip.d) where
  split_again : of_segments (ip.a * 256 + ip.b) (ip.c * 256 + ip.d) ≡ ip
  split_again =
      let a_is : (ip.a * 256 + ip.b) / 256 % 256 ≡ ip.a = omega (arith, a8, b8) in
      let b_is : (ip.a * 256 + ip.b) % 256 ≡ ip.b = omega (arith, a8, b8) in
      let c_is : (ip.c * 256 + ip.d) / 256 % 256 ≡ ip.c = omega (arith, c8, d8) in
      let d_is : (ip.c * 256 + ip.d) % 256 ≡ ip.d = omega (arith, c8, d8) in
      rw (a_is, b_is, c_is, d_is)

  -- An IPv4 address is refused, as it is, in its IPv4-mapped form and in its 6to4 form, exactly if it
  -- lies in one of the blocks.
  pub is_ip_blocked-any :
      (s3 s4 s5 s6 s7 : ℕ)
      → (is_ip_blocked (v4 ip) ≡ any (in_block (to_u32 ip)) blocked_blocks)
        × (is_ip_blocked (v6 (mapped ip)) ≡ any (in_block (to_u32 ip)) blocked_blocks)
        × (is_ip_blocked (v6 (six_to_four ip s3 s4 s5 s6 s7))
            ≡ any (in_block (to_u32 ip)) blocked_blocks)
  unfolding is_ip_blocked is_ipv6_blocked is_ipv6_link_local is_ipv6_unique_local is_ipv6_discard
      is_6to4_blocked is_ipv4_mapped_blocked
  is_ip_blocked-any s3 s4 s5 s6 s7 =
      let plain = is_ipv4_blocked-any ip a8 b8 c8 d8 in
      (
        plain,
        rw split_again (if_same (is_ipv4_blocked ip)) ∙ plain,
        rw split_again (if_same (is_ipv4_blocked ip)) ∙ plain,
      )
