-- ===== src/Sandbox/Address.antt =====
-- `is_blocked_ip` and `is_blocked_ipv4` of crates/core/src/sandbox.rs. An IPv4 address is its four
-- octets, an IPv6 address its eight segments; the tests of the standard library's address types
-- are written out as they are documented.
pub mod Blocks
pub mod Embedded
use warpline.Base.{
  ℕ, zero, suc, ◌+◌, ◌-◌, ◌*◌, ◌/◌, ◌%◌, ◌^◌, ◌≤◌, ◌<◌, min, max, ◌≡◌, refl, sym, ap, ◌∙◌, ◌≢◌, ◌↔◌,
  ◌⊎◌, inl, inr, Bool, true, false, not, ◌&&◌, ◌||◌, List, [], ◌∷◌, ◌++◌, map, Option, none, some,
  arith, ltb, leb, ◌==◌, if◌then◌else◌, ltb→lt, lt→ltb, leb→le, le→leb, ==_iff, Bool-cases,
  Option-cases, Bool-eq_of_iff, length, take, drop, replicate, length-append, length-take,
  take-append-drop, all, any, All, keep, sum_by, length-keep-le, word_mod, word_max, i64_max,
  wrapping_add, wrapping_sub, wrapping_mul, saturating_sub, saturating_add, ℤ, pos, negsuc,
  in_range, i64_or_max, Result, ok, err, ◌>>=◌, ◌>>◌, map_err, ok_or, ensure, is_ok, Result-cases,
  Eq, Bytes, bytes_beq, bytes_beq_iff, bytes_eq, pair_beq, pair_beq_iff, pair_eq, lookup, insert,
  remove, lookup-insert, lookup-remove, lookup-insert_self, weigh, weight_at, weigh-insert,
  weight_at-le,
}
use Prim.Native.Nat.{bit_and}

pub record Ipv4Addr : Type 0 where
  pub o0 : ℕ
  pub o1 : ℕ
  pub o2 : ℕ
  pub o3 : ℕ

pub record Ipv6Addr : Type 0 where
  pub s0 : ℕ
  pub s1 : ℕ
  pub s2 : ℕ
  pub s3 : ℕ
  pub s4 : ℕ
  pub s5 : ℕ
  pub s6 : ℕ
  pub s7 : ℕ

pub data IpAddr : Type 0 where
  v4 : Ipv4Addr → IpAddr
  v6 : Ipv6Addr → IpAddr

-- 127.0.0.0/8
abbrev pub is_loopback_v4 : Ipv4Addr → Bool
is_loopback_v4 a = a.o0 == 127

-- 10.0.0.0/8, 172.16.0.0/12, 192.168.0.0/16
abbrev pub is_private : Ipv4Addr → Bool
is_private a =
    a.o0 == 10 || (a.o0 == 172 && (leb 16 a.o1 && leb a.o1 31)) || (a.o0 == 192 && a.o1 == 168)

-- 169.254.0.0/16
abbrev pub is_link_local : Ipv4Addr → Bool
is_link_local a = a.o0 == 169 && a.o1 == 254

abbrev pub is_unspecified_v4 : Ipv4Addr → Bool
is_unspecified_v4 a = a.o0 == 0 && a.o1 == 0 && a.o2 == 0 && a.o3 == 0

abbrev pub is_broadcast : Ipv4Addr → Bool
is_broadcast a = a.o0 == 255 && a.o1 == 255 && a.o2 == 255 && a.o3 == 255

-- 224.0.0.0/4
abbrev pub is_multicast_v4 : Ipv4Addr → Bool
is_multicast_v4 a = leb 224 a.o0 && leb a.o0 239

unfoldable pub is_blocked_ipv4 : Ipv4Addr → Bool
is_blocked_ipv4 a =
    is_loopback_v4 a
    || is_private a
    || is_link_local a
    || is_unspecified_v4 a
    || is_broadcast a
    || is_multicast_v4 a
    || (a.o0 == 100 && bit_and a.o1 0xc0 == 64)
    || a.o0 == 0
    || (a.o0 == 192 && a.o1 == 0 && a.o2 == 0)
    || (a.o0 == 198 && bit_and a.o1 0xfe == 18)
    || leb 240 a.o0

-- The address in two segments: `(hi >> 8) as u8`, `hi as u8`, and so for `lo`.
unfoldable pub embedded : ℕ → ℕ → Ipv4Addr
embedded hi lo = record { o0 = hi / 256 % 256; o1 = hi % 256; o2 = lo / 256 % 256; o3 = lo % 256 }

abbrev pub is_loopback_v6 : Ipv6Addr → Bool
is_loopback_v6 a =
    a.s0 == 0
    && a.s1 == 0
    && a.s2 == 0
    && a.s3 == 0
    && a.s4 == 0
    && a.s5 == 0
    && a.s6 == 0
    && a.s7 == 1

abbrev pub is_unspecified_v6 : Ipv6Addr → Bool
is_unspecified_v6 a =
    a.s0 == 0
    && a.s1 == 0
    && a.s2 == 0
    && a.s3 == 0
    && a.s4 == 0
    && a.s5 == 0
    && a.s6 == 0
    && a.s7 == 0

-- ff00::/8
abbrev pub is_multicast_v6 : Ipv6Addr → Bool
is_multicast_v6 a = a.s0 / 256 == 0xff

-- ::ffff:a.b.c.d
abbrev pub to_ipv4_mapped : Ipv6Addr → Option Ipv4Addr
to_ipv4_mapped a =
    if a.s0 == 0 && a.s1 == 0 && a.s2 == 0 && a.s3 == 0 && a.s4 == 0 && a.s5 == 0xffff
    then some (embedded a.s6 a.s7)
    else none

-- `seg[..6] == [0; 6] && !v6.is_loopback() && !v6.is_unspecified()`
abbrev pub is_compatible : Ipv6Addr → Bool
is_compatible a =
    (a.s0 == 0 && a.s1 == 0 && a.s2 == 0 && a.s3 == 0 && a.s4 == 0 && a.s5 == 0)
    && (not (is_loopback_v6 a) && not (is_unspecified_v6 a))

-- `seg[..6] == [0x64, 0xff9b, 0, 0, 0, 0]`
abbrev pub is_nat64 : Ipv6Addr → Bool
is_nat64 a = a.s0 == 0x64 && a.s1 == 0xff9b && a.s2 == 0 && a.s3 == 0 && a.s4 == 0 && a.s5 == 0

-- The last test of `is_blocked_ip`, on an address that embeds none of version 4.
unfoldable pub is_blocked_plain : Ipv6Addr → Bool
is_blocked_plain a =
    (a.s0 == 0x64 && a.s1 == 0xff9b && a.s2 == 1)
    || is_loopback_v6 a
    || is_unspecified_v6 a
    || is_multicast_v6 a
    || bit_and a.s0 0xfe00 == 0xfc00
    || bit_and a.s0 0xffc0 == 0xfe80

unfoldable pub is_blocked_unmapped : Ipv6Addr → Bool
is_blocked_unmapped a =
    if is_compatible a || is_nat64 a
    then is_blocked_ipv4 (embedded a.s6 a.s7)
    else if a.s0 == 0x2002
    then is_blocked_ipv4 (embedded a.s1 a.s2)
    else is_blocked_plain a

unfoldable pub is_blocked_ip : IpAddr → Bool
is_blocked_ip (v4 a) = is_blocked_ipv4 a
is_blocked_ip (v6 a) = elim (to_ipv4_mapped a) [
  | some mapped ↦ is_blocked_ipv4 mapped
  | none ↦ is_blocked_unmapped a
]
