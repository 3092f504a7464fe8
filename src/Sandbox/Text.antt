-- ===== src/Sandbox/Text.antt =====
-- `truncate_utf8` of crates/core/src/sandbox.rs, over the bytes of a `str`.
use warpline.Base.{
  ℕ, zero, suc, ◌+◌, ◌≤◌, ◌<◌, ◌≡◌, refl, ap, inl, inr, Bool, true, false, ◌&&◌, ◌||◌, [], ◌∷◌,
  ◌++◌, arith, ltb, leb, ◌==◌, if◌then◌else◌, Bool-cases, length, take, drop, length-take,
  take-append-drop, Bytes, bytes_eq, pair_eq,
}

-- A byte that starts a character, as `is_char_boundary` tests it.
abbrev pub starts_char : ℕ → Bool
starts_char b = ltb b 128 || leb 192 b

-- `is_char_boundary(i)`: 0, the length, or a byte that starts a character.
unfoldable pub is_char_boundary : Bytes → ℕ → Bool
is_char_boundary s zero = true
is_char_boundary [] (suc i) = false
is_char_boundary (b ∷ []) (suc zero) = true
is_char_boundary (b ∷ c ∷ s) (suc zero) = starts_char c
is_char_boundary (b ∷ s) (suc (suc i)) = is_char_boundary s (suc i)

-- `while end > 0 && !s.is_char_boundary(end) { end -= 1; }`
unfoldable pub back_up : Bytes → ℕ → ℕ
back_up s zero = zero
back_up s (suc end) = elim (is_char_boundary s (suc end)) [ true ↦ suc end | false ↦ back_up s end ]

unfoldable pub truncate_utf8 : Bytes → ℕ → Bytes
truncate_utf8 s max_bytes = if leb (length s) max_bytes then s else take (back_up s max_bytes) s

abbrev pub between : ℕ → ℕ → ℕ → Bool
between low high b = leb low b && leb b high

-- The second byte of a character, which the first restricts: no overlong form, no surrogate, and
-- nothing above U+10FFFF.
abbrev pub second_of_three : ℕ → ℕ → Bool
second_of_three a b =
    if a == 224
    then between 160 191 b
    else if a == 237
    then between 128 159 b
    else between 128 191 b

abbrev pub second_of_four : ℕ → ℕ → Bool
second_of_four a b =
    if a == 240
    then between 144 191 b
    else if a == 244
    then between 128 143 b
    else between 128 191 b

-- The well-formed texts of RFC 3629: every character is one to four bytes, whose first byte says how
-- many they are.
pub data IsUtf8 : Bytes → Type 0 where
  empty : IsUtf8 []
  one : (a : ℕ) {s : Bytes} → leb a 127 ≡ true → IsUtf8 s → IsUtf8 (a ∷ s)
  two :
      (a b : ℕ) {s : Bytes}
      → between 194 223 a ≡ true
      → between 128 191 b ≡ true
      → IsUtf8 s
      → IsUtf8 (a ∷ b ∷ s)
  three :
      (a b c : ℕ) {s : Bytes}
      → between 224 239 a ≡ true
      → second_of_three a b ≡ true
      → between 128 191 c ≡ true
      → IsUtf8 s
      → IsUtf8 (a ∷ b ∷ c ∷ s)
  four :
      (a b c d : ℕ) {s : Bytes}
      → between 240 244 a ≡ true
      → second_of_four a b ≡ true
      → between 128 191 c ≡ true
      → between 128 191 d ≡ true
      → IsUtf8 s
      → IsUtf8 (a ∷ b ∷ c ∷ d ∷ s)

back_up-le : (s : Bytes) (end : ℕ) → back_up s end ≤ end
unfolding back_up
back_up-le s zero = omega arith
back_up-le s (suc end) = ground (arith, back_up-le s end)

-- A boundary at most three bytes back.
abbrev Near : Bytes → ℕ → Type 0
Near s n = (j : ℕ) × (j ≤ n) × (n ≤ j + 3) × (is_char_boundary s j ≡ true)

-- The cut text is a prefix of the text, within the limit.
pub truncate_utf8_prefix :
    (s : Bytes) (n : ℕ)
    → (length (truncate_utf8 s n) ≤ n)
      × (truncate_utf8 s n ++ drop (length (truncate_utf8 s n)) s ≡ s)
unfolding truncate_utf8
truncate_utf8_prefix s n = elim (Bool-cases (leb (length s) n)) [
  | inl e ↦ rw e (ground arith, whole s)
  | inr e ↦
      let len : length (take (back_up s n) s) ≡ back_up s n =
        omega (arith, length-take (back_up s n) s, back_up-le s n, gt→lt (length s) n e) in
      rw (e, len) (back_up-le s n, take-append-drop (back_up s n) s)
]
  where
    whole : (u : Bytes) → u ++ drop (length u) u ≡ u
    whole [] = refl
    whole (x ∷ u) = ap (◌∷◌ x) (whole u)

    gt→lt : (a b : ℕ) → leb a b ≡ false → b < a
    gt→lt a b h = ground arith
