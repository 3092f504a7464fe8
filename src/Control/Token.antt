-- ===== src/Control/Token.antt =====
-- `constant_time_eq` of crates/control/src/lib.rs, the check of the admin token.
use Prim.Native.Nat.{bit_or, bit_xor}
use warpline.Base.{
  ℕ, zero, suc, ◌<◌, ◌≡◌, refl, ap, ◌∙◌, ◌↔◌, inl, inr, Bool, true, false, not, [], ◌∷◌, arith, ltb,
  ◌==◌, if◌then◌else◌, Bool-cases, length, All, Bytes, bytes_beq, bytes_beq_iff, bytes_eq, pair_eq,
}

-- The XOR-accumulate loop over two slices of one length.
unfoldable pub accumulate : ℕ → Bytes → Bytes → ℕ
accumulate acc [] b = acc
accumulate acc (x ∷ a) [] = acc
accumulate acc (x ∷ a) (y ∷ b) = accumulate (bit_or acc (bit_xor x y)) a b

unfoldable pub constant_time_eq : Bytes → Bytes → Bool
constant_time_eq a b = if not (length a == length b) then false else accumulate 0 a b == 0

-- Every element is a `u8`.
abbrev pub AreBytes : Bytes → Type 0
AreBytes s = All (λ b. b < 256) s

each_below : ℕ → (ℕ → Bool) → Bool
each_below zero test = true
each_below (suc n) test = elim (test n) [ true ↦ each_below n test | false ↦ false ]

each_below-lt : (n : ℕ) (test : ℕ → Bool) (x : ℕ) → x < n → each_below n test ≡ true → test x ≡ true
unfolding each_below
each_below-lt zero test x lt h = absurd (omega arith)
each_below-lt (suc n) test x lt h = ground (arith, each_below-lt n test x)

-- Over bytes XOR is zero exactly at equal ones and OR exactly at zeros, and both give bytes.
abbrev both : Bool → Bool → Bool
both p q = if p then q else false

abbrev same : Bool → Bool → Bool
same p q = if p then q else not q

abbrev on_bytes : ℕ → ℕ → Bool
on_bytes x y = both (same (bit_xor x y == 0) (x == y)) (
    both (ltb (bit_xor x y) 256)
      (both (same (bit_or x y == 0) (both (x == 0) (y == 0))) (ltb (bit_or x y) 256)))

byte_table : each_below 256 (λ x. each_below 256 (on_bytes x)) ≡ true
unfolding each_below
byte_table = refl

on_bytes-lt : (x y : ℕ) → x < 256 → y < 256 → on_bytes x y ≡ true
on_bytes-lt x y hx hy =
    each_below-lt 256 (on_bytes x) y hy
      (each_below-lt 256 (λ z. each_below 256 (on_bytes z)) x hx byte_table)

accumulate_iff :
    (a b : Bytes) (acc : ℕ)
    → AreBytes a
    → AreBytes b
    → acc < 256
    → length a ≡ length b
    → (accumulate acc a b == 0) ≡ both (acc == 0) (bytes_beq a b)
unfolding accumulate
accumulate_iff [] [] acc p q h e = ground arith
accumulate_iff [] (y ∷ b) acc p q h e = absurd (omega arith)
accumulate_iff (x ∷ a) [] acc p q h e = absurd (omega arith)
accumulate_iff (x ∷ a) (y ∷ b) acc p q h e =
    let xor = on_bytes-lt x y p.0 q.0 in
    let small : bit_xor x y < 256 = ground arith in
    let join = on_bytes-lt acc (bit_xor x y) h small in
    let next : bit_or acc (bit_xor x y) < 256 = ground arith in
    accumulate_iff a b (bit_or acc (bit_xor x y)) p.1 q.1 next (omega arith) ∙ ground arith

-- On bytes the constant-time comparison accepts exactly equal texts.
pub constant_time_eq_iff :
    (a b : Bytes) → AreBytes a → AreBytes b → (constant_time_eq a b ≡ true) ↔ (a ≡ b)
unfolding constant_time_eq
constant_time_eq_iff a b p q = elim (Bool-cases (length a == length b)) [
  | inl e ↦ ground (arith, accumulate_iff a b 0 p q, bytes_beq_iff a b)
  | inr e ↦
      ((λ h. absurd (ground arith)), (λ h. absurd (let l = ap (λ s. length s) h in ground arith)))
]
