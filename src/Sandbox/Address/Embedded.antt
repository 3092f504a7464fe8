-- ===== src/Sandbox/Address/Embedded.antt =====
-- The filter of crates/core/src/sandbox.rs on IPv6 addresses: the forms that carry an IPv4
-- address, and the blocks of the rest.
use warpline.Base.{
  ℕ, ◌+◌, ◌*◌, ◌≤◌, ◌<◌, ◌≡◌, refl, ap, ◌≢◌, ◌↔◌, ◌⊎◌, inl, inr, true, ◌&&◌, arith, leb, ◌==◌,
  Bool-cases, bytes_eq, pair_eq,
}
use Prim.Native.Nat.{bit_and}
use warpline.Base.Table.{agree, eq_of_agree}
use warpline.Sandbox.Address.{
  Ipv4Addr, Ipv6Addr, v4, v6, is_blocked_ipv4, embedded, is_blocked_plain, is_blocked_unmapped,
  is_blocked_ip, is_compatible,
}
use warpline.Sandbox.Address.Blocks.{IsIpv4}

-- The two segments that carry an IPv4 address.
abbrev hi : Ipv4Addr → ℕ
hi a = a.o0 * 256 + a.o1

abbrev lo : Ipv4Addr → ℕ
lo a = a.o2 * 256 + a.o3

-- ::ffff:a.b.c.d
abbrev pub mapped : Ipv4Addr → Ipv6Addr
mapped a = record { s0 = 0; s1 = 0; s2 = 0; s3 = 0; s4 = 0; s5 = 0xffff; s6 = hi a; s7 = lo a }

-- ::a.b.c.d
abbrev pub compatible : Ipv4Addr → Ipv6Addr
compatible a = record { s0 = 0; s1 = 0; s2 = 0; s3 = 0; s4 = 0; s5 = 0; s6 = hi a; s7 = lo a }

-- 64:ff9b::a.b.c.d
abbrev pub nat64 : Ipv4Addr → Ipv6Addr
nat64 a = record { s0 = 0x64; s1 = 0xff9b; s2 = 0; s3 = 0; s4 = 0; s5 = 0; s6 = hi a; s7 = lo a }

-- 2002:ab:cd::/48, with any last five segments.
abbrev pub six_to_four : Ipv4Addr → ℕ → ℕ → ℕ → ℕ → ℕ → Ipv6Addr
six_to_four a s3 s4 s5 s6 s7 = record {
  s0 = 0x2002;
  s1 = hi a;
  s2 = lo a;
  s3 = s3;
  s4 = s4;
  s5 = s5;
  s6 = s6;
  s7 = s7;
}

embedded_lem : (a : Ipv4Addr) → IsIpv4 a → embedded (hi a) (lo a) ≡ a
unfolding embedded
embedded_lem a h = ground arith

mapped-blocked : (a : Ipv4Addr) → IsIpv4 a → is_blocked_ip (v6 (mapped a)) ≡ is_blocked_ip (v4 a)
unfolding is_blocked_ip
mapped-blocked a h = ap is_blocked_ipv4 (embedded_lem a h)

-- Of the IPv4-compatible addresses, :: and ::1 are judged by the last test, which blocks them; so
-- does the filter of version 4 block 0.0.0.0/8.
compatible-blocked :
    (a : Ipv4Addr) → IsIpv4 a → is_blocked_ip (v6 (compatible a)) ≡ is_blocked_ip (v4 a)
unfolding is_blocked_ip is_blocked_unmapped is_blocked_plain
compatible-blocked a h = elim (Bool-cases (is_compatible (compatible a))) [
  | inl c ↦ rw (c, is_blocked_unmapped) (ap is_blocked_ipv4 (embedded_lem a h))
  | inr c ↦
      let zero_octet : a.o0 ≡ 0 = ground arith in
      let plain : is_blocked_ipv4 a ≡ true = unfold is_blocked_ipv4 in ground arith in
      ground (arith, plain)
]

nat64-blocked : (a : Ipv4Addr) → IsIpv4 a → is_blocked_ip (v6 (nat64 a)) ≡ is_blocked_ip (v4 a)
unfolding is_blocked_ip is_blocked_unmapped
nat64-blocked a h = ap is_blocked_ipv4 (embedded_lem a h)

six_to_four-blocked :
    (a : Ipv4Addr) (s3 s4 s5 s6 s7 : ℕ)
    → IsIpv4 a
    → is_blocked_ip (v6 (six_to_four a s3 s4 s5 s6 s7)) ≡ is_blocked_ip (v4 a)
unfolding is_blocked_ip is_blocked_unmapped
six_to_four-blocked a s3 s4 s5 s6 s7 h = ap is_blocked_ipv4 (embedded_lem a h)

-- An IPv6 address that carries an IPv4 address, be it mapped, IPv4-compatible, NAT64 or 6to4, is
-- blocked exactly when the IPv4 address is. The bytes of the IPv4 address are below 256.
pub is_blocked_ip-embedded :
    (a : Ipv4Addr) (s3 s4 s5 s6 s7 : ℕ)
    → IsIpv4 a
    → (is_blocked_ip (v6 (mapped a)) ≡ is_blocked_ip (v4 a))
      × (is_blocked_ip (v6 (compatible a)) ≡ is_blocked_ip (v4 a))
      × (is_blocked_ip (v6 (nat64 a)) ≡ is_blocked_ip (v4 a))
      × (is_blocked_ip (v6 (six_to_four a s3 s4 s5 s6 s7)) ≡ is_blocked_ip (v4 a))
is_blocked_ip-embedded a s3 s4 s5 s6 s7 h = (
  mapped-blocked a h,
  compatible-blocked a h,
  nat64-blocked a h,
  six_to_four-blocked a s3 s4 s5 s6 s7 h,
)

unique_local_bits :
    (x : ℕ) → x < 65536 → (bit_and x 0xfe00 == 0xfc00) ≡ (leb 0xfc00 x && leb x 0xfdff)
unfolding agree
unique_local_bits x h =
    eq_of_agree 65536 (λ y. bit_and y 0xfe00 == 0xfc00) (λ y. leb 0xfc00 y && leb y 0xfdff) x refl h

link_local_bits :
    (x : ℕ) → x < 65536 → (bit_and x 0xffc0 == 0xfe80) ≡ (leb 0xfe80 x && leb x 0xfebf)
unfolding agree
link_local_bits x h =
    eq_of_agree 65536 (λ y. bit_and y 0xffc0 == 0xfe80) (λ y. leb 0xfe80 y && leb y 0xfebf) x refl h

-- The address carries no IPv4 address: it is not in ::ffff:0:0/96, ::/96, 64:ff9b::/96 or
-- 2002::/16.
abbrev pub CarriesNone : Ipv6Addr → Type 0
CarriesNone a =
    (a.s5 ≡ 0 → a.s0 + a.s1 + a.s2 + a.s3 + a.s4 ≢ 0)
    × (a.s5 ≡ 0xffff → a.s0 + a.s1 + a.s2 + a.s3 + a.s4 ≢ 0)
    × (a.s0 ≡ 0x64 → a.s1 ≡ 0xff9b → a.s2 + a.s3 + a.s4 + a.s5 ≢ 0)
    × (a.s0 ≢ 0x2002)

-- 64:ff9b:1::/48 local NAT64, ff00::/8 multicast, fc00::/7 unique-local and fe80::/10 link-local,
-- by the first segments.
abbrev pub LocalV6 : Ipv6Addr → Type 0
LocalV6 a =
    ((a.s0 ≡ 0x64) × (a.s1 ≡ 0xff9b) × (a.s2 ≡ 1))
    ⊎ (0xff00 ≤ a.s0)
    ⊎ ((0xfc00 ≤ a.s0) × (a.s0 ≤ 0xfdff))
    ⊎ ((0xfe80 ≤ a.s0) × (a.s0 ≤ 0xfebf))

-- An IPv6 address that carries no IPv4 address is blocked exactly when it is local NAT64,
-- multicast, unique-local or link-local. Its first segment is a 16-bit number.
pub is_blocked_ip_plain :
    (a : Ipv6Addr) → a.s0 < 65536 → CarriesNone a → (is_blocked_ip (v6 a) ≡ true) ↔ LocalV6 a
unfolding is_blocked_ip is_blocked_unmapped is_blocked_plain
is_blocked_ip_plain a h c =
    ground (arith, c.0, c.1, unique_local_bits a.s0 h, link_local_bits a.s0 h)
