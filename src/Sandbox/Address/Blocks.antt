-- ===== src/Sandbox/Address/Blocks.antt =====
-- The filter of crates/core/src/sandbox.rs against the list of blocks that are not public, each
-- given by its first address and the length of its prefix, over addresses as numbers.
use warpline.Base.{
  ℕ, ◌+◌, ◌*◌, ◌≤◌, ◌<◌, ◌≡◌, refl, sym, ◌∙◌, ◌↔◌, inl, inr, Bool, true, ◌&&◌, ◌||◌, arith, leb,
  ◌==◌, Bool-cases, bytes_eq, pair_eq,
}
use Prim.Native.Nat.{bit_and}
use warpline.Base.Table.{agree, eq_of_agree}
use warpline.Sandbox.Address.{Ipv4Addr, is_blocked_ipv4}

-- An address as a 32-bit number.
abbrev pub number : Ipv4Addr → ℕ
number a = a.o0 * 16777216 + a.o1 * 65536 + a.o2 * 256 + a.o3

pub record IsIpv4 (a : Ipv4Addr) : Type 0 where
  pub b0 : a.o0 < 256
  pub b1 : a.o1 < 256
  pub b2 : a.o2 < 256
  pub b3 : a.o3 < 256

-- a.b.c.d with `rest` free bits: the block from it to the last address of its prefix.
abbrev pub InBlock : ℕ → ℕ → ℕ → ℕ → ℕ → ℕ → Type 0
InBlock a b c d size n =
    (a * 16777216 + b * 65536 + c * 256 + d ≤ n)
    × (n < a * 16777216 + b * 65536 + c * 256 + d + size)

-- "This network", private, shared, loopback, link-local, protocol assignments, benchmarking,
-- multicast and reserved addresses. The sizes are 2 ^ (32 - prefix).
pub data Reserved (n : ℕ) : Type 0 where
  this_network : InBlock 0 0 0 0 16777216 n → Reserved n
  private_8 : InBlock 10 0 0 0 16777216 n → Reserved n
  private_12 : InBlock 172 16 0 0 1048576 n → Reserved n
  private_16 : InBlock 192 168 0 0 65536 n → Reserved n
  shared_10 : InBlock 100 64 0 0 4194304 n → Reserved n
  loopback : InBlock 127 0 0 0 16777216 n → Reserved n
  link_local : InBlock 169 254 0 0 65536 n → Reserved n
  protocol : InBlock 192 0 0 0 256 n → Reserved n
  benchmark : InBlock 198 18 0 0 131072 n → Reserved n
  multicast : InBlock 224 0 0 0 268435456 n → Reserved n
  future_use : InBlock 240 0 0 0 268435456 n → Reserved n

shared_bits : (x : ℕ) → x < 256 → (bit_and x 0xc0 == 64) ≡ (leb 64 x && leb x 127)
unfolding agree
shared_bits x h = eq_of_agree 256 (λ y. bit_and y 0xc0 == 64) (λ y. leb 64 y && leb y 127) x refl h

bench_bits : (x : ℕ) → x < 256 → (bit_and x 0xfe == 18) ≡ (leb 18 x && leb x 19)
unfolding agree
bench_bits x h = eq_of_agree 256 (λ y. bit_and y 0xfe == 18) (λ y. leb 18 y && leb y 19) x refl h

-- The same filter with the two masks read as ranges.
by_range : ℕ → ℕ → ℕ → Bool
by_range a b c =
    a == 127
    || (a == 10 || (a == 172 && (leb 16 b && leb b 31)) || (a == 192 && b == 168))
    || (a == 169 && b == 254)
    || (a == 100 && (leb 64 b && leb b 127))
    || a == 0
    || (a == 192 && b == 0 && c == 0)
    || (a == 198 && (leb 18 b && leb b 19))
    || leb 224 a

is_blocked_ipv4-by_range : (a : Ipv4Addr) → IsIpv4 a → is_blocked_ipv4 a ≡ by_range a.o0 a.o1 a.o2
unfolding is_blocked_ipv4 by_range
is_blocked_ipv4-by_range a h = rw (shared_bits a.o1 h.b1, bench_bits a.o1 h.b1) (ground arith)

Reserved-by_range : (a : Ipv4Addr) → IsIpv4 a → Reserved (number a) → by_range a.o0 a.o1 a.o2 ≡ true
unfolding by_range
Reserved-by_range a h (this_network b) = ground arith
Reserved-by_range a h (private_8 b) = ground arith
Reserved-by_range a h (private_12 b) = ground arith
Reserved-by_range a h (private_16 b) = ground arith
Reserved-by_range a h (shared_10 b) = ground arith
Reserved-by_range a h (loopback b) = ground arith
Reserved-by_range a h (link_local b) = ground arith
Reserved-by_range a h (protocol b) = ground arith
Reserved-by_range a h (benchmark b) = ground arith
Reserved-by_range a h (multicast b) = ground arith
Reserved-by_range a h (future_use b) = ground arith

by_range-Reserved : (a : Ipv4Addr) → IsIpv4 a → by_range a.o0 a.o1 a.o2 ≡ true → Reserved (number a)
unfolding by_range
by_range-Reserved a h e = elim (Bool-cases (a.o0 == 127)) [
  | inl c ↦ loopback (ground arith)
  | inr c0 ↦ elim (Bool-cases (a.o0 == 10)) [
    | inl c ↦ private_8 (ground arith)
    | inr c1 ↦ elim (Bool-cases (a.o0 == 172 && (leb 16 a.o1 && leb a.o1 31))) [
      | inl c ↦ private_12 (ground arith)
      | inr c2 ↦ elim (Bool-cases (a.o0 == 192 && a.o1 == 168)) [
        | inl c ↦ private_16 (ground arith)
        | inr c3 ↦ elim (Bool-cases (a.o0 == 169 && a.o1 == 254)) [
          | inl c ↦ link_local (ground arith)
          | inr c4 ↦ elim (Bool-cases (a.o0 == 100 && (leb 64 a.o1 && leb a.o1 127))) [
            | inl c ↦ shared_10 (ground arith)
            | inr c5 ↦ elim (Bool-cases (a.o0 == 0)) [
              | inl c ↦ this_network (ground arith)
              | inr c6 ↦ elim (Bool-cases (a.o0 == 192 && a.o1 == 0 && a.o2 == 0)) [
                | inl c ↦ protocol (ground arith)
                | inr c7 ↦ elim (Bool-cases (a.o0 == 198 && (leb 18 a.o1 && leb a.o1 19))) [
                  | inl c ↦ benchmark (ground arith)
                  | inr c8 ↦ elim (Bool-cases (leb 240 a.o0)) [
                    | inl c ↦ future_use (ground arith)
                    | inr c9 ↦ multicast (
                        let t : leb 224 a.o0 ≡ true =
                          rw (c0, c1, c2, c3, c4, c5, c6, c7, c8) at e in
                        ground arith)
                  ]
                ]
              ]
            ]
          ]
        ]
      ]
    ]
  ]
]

-- The IPv4 filter blocks exactly the addresses of the eleven reserved blocks. The bytes of the
-- address are below 256.
pub is_blocked_ipv4_iff :
    (a : Ipv4Addr) → IsIpv4 a → (is_blocked_ipv4 a ≡ true) ↔ Reserved (number a)
is_blocked_ipv4_iff a h = (
  λ e. by_range-Reserved a h (sym (is_blocked_ipv4-by_range a h) ∙ e),
  λ r. is_blocked_ipv4-by_range a h ∙ Reserved-by_range a h r,
)
