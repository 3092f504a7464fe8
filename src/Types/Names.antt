-- ===== src/Types/Names.antt =====
-- `valid_name` of crates/core/src/types.rs and `is_valid_digest` of crates/core/src/cache.rs: the
-- two shape checks that stand before every path the registry builds. A `str` is its bytes.
use warpline.Base.{
  ℕ, ◌≤◌, ◌≡◌, refl, ◌↔◌, ◌⊎◌, Bool, true, false, ◌&&◌, ◌||◌, [], ◌∷◌, arith, ltb, leb, ◌==◌,
  if◌then◌else◌, length, all, All, Bytes,
}

abbrev pub is_ascii_lowercase : ℕ → Bool
is_ascii_lowercase b = leb b'a' b && leb b b'z'

abbrev pub is_ascii_digit : ℕ → Bool
is_ascii_digit b = leb b'0' b && leb b b'9'

unfoldable pub is_head : ℕ → Bool
is_head b = is_ascii_lowercase b || is_ascii_digit b

unfoldable pub is_tail : ℕ → Bool
unfolding is_head
is_tail b = is_head b || b == b'_' || b == b'-'

unfoldable pub valid_name : Bytes → Bool
unfolding is_head is_tail
valid_name [] = false
valid_name (b ∷ bs) = if ltb 63 (length (b ∷ bs)) then false else is_head b && all is_tail bs

unfoldable pub is_hex : ℕ → Bool
is_hex b = is_ascii_digit b || (leb b'a' b && leb b b'f')

unfoldable pub is_valid_digest : Bytes → Bool
unfolding is_hex
is_valid_digest s = length s == 64 && all is_hex s

-- The characters of the pattern `[a-z0-9]` and `[a-z0-9_-]`, as ranges of numbers.
abbrev pub HeadChar : ℕ → Type 0
HeadChar b = ((97 ≤ b) × (b ≤ 122)) ⊎ ((48 ≤ b) × (b ≤ 57))

abbrev pub TailChar : ℕ → Type 0
TailChar b = HeadChar b ⊎ ((b ≡ 95) ⊎ (b ≡ 45))

abbrev pub HexChar : ℕ → Type 0
HexChar b = ((48 ≤ b) × (b ≤ 57)) ⊎ ((97 ≤ b) × (b ≤ 102))

-- The documented pattern `^[a-z0-9][a-z0-9_-]{0,62}$`.
pub data MatchesName : Bytes → Type 0 where
  matches :
      (b : ℕ) (bs : Bytes) → HeadChar b → All TailChar bs → length bs ≤ 62 → MatchesName (b ∷ bs)

is_tail_iff : (b : ℕ) → (is_tail b ≡ true) ↔ TailChar b
unfolding is_tail
is_tail_iff b = ground arith

is_head_iff : (b : ℕ) → (is_head b ≡ true) ↔ HeadChar b
unfolding is_head
is_head_iff b = ground arith

is_hex_iff : (b : ℕ) → (is_hex b ≡ true) ↔ HexChar b
unfolding is_hex
is_hex_iff b = ground arith

-- A Boolean quantifier over a list decides the quantified statement.
all_iff :
    (p : ℕ → Bool) (P : ℕ → Type 0)
    → ((b : ℕ) → (p b ≡ true) ↔ P b)
    → (bs : Bytes) → (all p bs ≡ true) ↔ All P bs
all_iff p P h [] = ((λ _. tt), (λ _. refl))
all_iff p P h (b ∷ bs) = ground (arith, h b, all_iff p P h bs)

valid_name-MatchesName : (s : Bytes) → valid_name s ≡ true → MatchesName s
unfolding valid_name
valid_name-MatchesName [] h = absurd (ground arith)
valid_name-MatchesName (b ∷ bs) h =
    matches b bs ((is_head_iff b).0 (ground arith))
      ((all_iff is_tail TailChar is_tail_iff bs).0 (ground arith)) (ground arith)

MatchesName-valid_name : {s : Bytes} → MatchesName s → valid_name s ≡ true
unfolding valid_name
MatchesName-valid_name (matches b bs h t l) =
    ground (arith, (is_head_iff b).1 h, (all_iff is_tail TailChar is_tail_iff bs).1 t)

-- `valid_name` accepts exactly the strings of the documented pattern.
pub valid_name_iff : (s : Bytes) → (valid_name s ≡ true) ↔ MatchesName s
valid_name_iff s = (valid_name-MatchesName s, MatchesName-valid_name)

-- `is_valid_digest` accepts exactly the strings of 64 lowercase hexadecimal digits.
pub is_valid_digest_iff :
    (s : Bytes) → (is_valid_digest s ≡ true) ↔ ((length s ≡ 64) × All HexChar s)
unfolding is_valid_digest
is_valid_digest_iff s = ground (arith, all_iff is_hex HexChar is_hex_iff s)
