-- ===== src/Types/Bearer.antt =====
-- `parse_bearer` of crates/core/src/types.rs. A `str` is its characters, as code points.
use warpline.Base.{
  ℕ, ◌+◌, ◌≡◌, refl, ◌≢◌, Bool, true, false, not, ◌&&◌, ◌||◌, List, [], ◌∷◌, ◌++◌, map, Option,
  none, some, arith, leb, ◌==◌, if◌then◌else◌, all, bytes_beq, bytes_beq_iff, bytes_eq, pair_eq,
}
use mathlib.Core.List.{append_assoc}
use warpline.Base.Trim.{
  trim_start, trim_end, starts_clean, ends_clean, trim_start-clean, trim_start-append,
  trim_end-clean, trim_end-append, trim_end-starts, trim_end_of_clean,
}

-- `char::is_whitespace`: the code points with Unicode's White_Space property.
unfoldable pub is_whitespace : ℕ → Bool
is_whitespace c =
    (leb 0x9 c && leb c 0xd)
    || c == 0x20
    || c == 0x85
    || c == 0xa0
    || c == 0x1680
    || (leb 0x2000 c && leb c 0x200a)
    || c == 0x2028
    || c == 0x2029
    || c == 0x202f
    || c == 0x205f
    || c == 0x3000

abbrev pub trim : List ℕ → List ℕ
trim s = trim_end is_whitespace (trim_start is_whitespace s)

-- `split_once(char::is_whitespace)`.
unfoldable pub split_whitespace : List ℕ → Option (List ℕ × List ℕ)
split_whitespace [] = none
split_whitespace (c ∷ cs) = elim (is_whitespace c) [
  | true ↦ some ([], cs)
  | false ↦ elim (split_whitespace cs) [
    | none ↦ none
    | some (scheme, rest) ↦ some (c ∷ scheme, rest)
  ]
]

abbrev pub to_ascii_lowercase : ℕ → ℕ
to_ascii_lowercase c = if leb b'A' c && leb c b'Z' then c + 32 else c

unfoldable pub eq_ignore_ascii_case : List ℕ → List ℕ → Bool
eq_ignore_ascii_case s t = bytes_beq (map to_ascii_lowercase s) (map to_ascii_lowercase t)

-- "bearer"
abbrev pub bearer : List ℕ
bearer = b'b' ∷ b'e' ∷ b'a' ∷ b'r' ∷ b'e' ∷ b'r' ∷ []

unfoldable pub token_of : List ℕ → Option (List ℕ)
token_of [] = none
token_of (c ∷ cs) = some (c ∷ cs)

unfoldable pub parse_scheme : Option (List ℕ × List ℕ) → Option (List ℕ)
unfolding token_of eq_ignore_ascii_case
parse_scheme none = none
parse_scheme (some (scheme, rest)) =
    if not (eq_ignore_ascii_case scheme bearer) then none else token_of (trim rest)

unfoldable pub parse_bearer : List ℕ → Option (List ℕ)
parse_bearer header_value = parse_scheme (split_whitespace (trim header_value))

split_whitespace-append :
    (s : List ℕ) (w : ℕ) (rest : List ℕ)
    → all (λ c. not (is_whitespace c)) s ≡ true
    → is_whitespace w ≡ true
    → split_whitespace (s ++ w ∷ rest) ≡ some (s, rest)
unfolding split_whitespace
split_whitespace-append [] w rest h k = rw (k, split_whitespace) refl
split_whitespace-append (c ∷ s) w rest h k = ground (arith, split_whitespace-append s w rest)

token_of-some : (s t : List ℕ) → token_of s ≡ some t → (s ≡ t) × (t ≢ [])
unfolding token_of
token_of-some [] t h = ground arith
token_of-some (c ∷ cs) t h = (ground arith, λ e. ground arith)

trim-clean :
    (s : List ℕ)
    → (starts_clean is_whitespace (trim s) ≡ true) × (ends_clean is_whitespace (trim s) ≡ true)
trim-clean s = (
  trim_end-starts is_whitespace (trim_start is_whitespace s) (trim_start-clean is_whitespace s),
  trim_end-clean is_whitespace (trim_start is_whitespace s),
)

parse_scheme-clean :
    (o : Option (List ℕ × List ℕ)) (t : List ℕ)
    → parse_scheme o ≡ some t
    → (t ≢ []) × (starts_clean is_whitespace t ≡ true) × (ends_clean is_whitespace t ≡ true)
unfolding parse_scheme
parse_scheme-clean none t h = absurd (ground arith)
parse_scheme-clean (some (scheme, rest)) t h =
    let found : token_of (trim rest) ≡ some t = ground arith in
    let parts = token_of-some (trim rest) t found in
    let c = trim-clean rest in (parts.1, rw (parts.0) at (c.0), rw (parts.0) at (c.1))

-- A token that the parser returns is not empty, and neither begins nor ends with white space.
pub parse_bearer-clean :
    (s t : List ℕ)
    → parse_bearer s ≡ some t
    → (t ≢ []) × (starts_clean is_whitespace t ≡ true) × (ends_clean is_whitespace t ≡ true)
unfolding parse_bearer
parse_bearer-clean s t h = parse_scheme-clean _ t h

is_letter : ℕ → Bool
is_letter c = leb 97 c && leb c 122

-- What lowers to a letter is no white space.
letter-clean : (c : ℕ) → is_letter (to_ascii_lowercase c) ≡ true → is_whitespace c ≡ false
unfolding is_letter is_whitespace
letter-clean c h = ground arith

letters-clean :
    (s : List ℕ)
    → all is_letter (map to_ascii_lowercase s) ≡ true
    → all (λ c. not (is_whitespace c)) s ≡ true
letters-clean [] h = refl
letters-clean (c ∷ cs) h = ground (arith, letter-clean c, letters-clean cs)

scheme-clean :
    (s : List ℕ) → eq_ignore_ascii_case s bearer ≡ true → all (λ c. not (is_whitespace c)) s ≡ true
unfolding eq_ignore_ascii_case is_letter
scheme-clean s h =
    let e = (bytes_beq_iff (map to_ascii_lowercase s) (map to_ascii_lowercase bearer)).0 h in
    letters-clean s (rw e refl)

-- A text that begins with a scheme that is not empty and holds no white space begins clean.
starts_clean-append :
    (s t : List ℕ)
    → eq_ignore_ascii_case s bearer ≡ true
    → starts_clean is_whitespace (s ++ t) ≡ true
unfolding eq_ignore_ascii_case
starts_clean-append [] t h = absurd (ground arith)
starts_clean-append (c ∷ s) t h = ground (arith, scheme-clean (c ∷ s))

ends_clean-append :
    (s t : List ℕ)
    → t ≢ []
    → ends_clean is_whitespace t ≡ true
    → ends_clean is_whitespace (s ++ t) ≡ true
ends_clean-append [] t h c = c
ends_clean-append (x ∷ []) [] h c = absurd (h refl)
ends_clean-append (x ∷ []) (y ∷ t) h c = c
ends_clean-append (x ∷ y ∷ s) t h c = ends_clean-append (y ∷ s) t h c

token_of_self : (t : List ℕ) → t ≢ [] → token_of t ≡ some t
unfolding token_of
token_of_self [] h = absurd (h refl)
token_of_self (c ∷ cs) h = refl

trim_self :
    (gap t : List ℕ)
    → all is_whitespace gap ≡ true
    → starts_clean is_whitespace t ≡ true
    → ends_clean is_whitespace t ≡ true
    → trim (gap ++ t) ≡ t
trim_self gap t g a b =
    rw (trim_start-append is_whitespace gap t g a) (trim_end_of_clean is_whitespace t b)

-- A header value made of the scheme, in any case, and a token, with white space before, between
-- (at least one character) and after, gives back the token.
pub parse_bearer-token :
    (pre scheme : List ℕ) (w : ℕ) (gap t post : List ℕ)
    → all is_whitespace pre ≡ true
    → eq_ignore_ascii_case scheme bearer ≡ true
    → is_whitespace w ≡ true
    → all is_whitespace gap ≡ true
    → t ≢ []
    → starts_clean is_whitespace t ≡ true
    → ends_clean is_whitespace t ≡ true
    → all is_whitespace post ≡ true
    → parse_bearer (pre ++ ((scheme ++ w ∷ (gap ++ t)) ++ post)) ≡ some t
unfolding parse_bearer parse_scheme
parse_bearer-token pre scheme w gap t post hp hs hw hg ne a b ho =
    let body = scheme ++ w ∷ (gap ++ t) in
    let front : trim_start is_whitespace (pre ++ (body ++ post)) ≡ body ++ post =
      trim_start-append is_whitespace pre (body ++ post) hp (
        rw (append_assoc scheme (w ∷ (gap ++ t)) post)
          (starts_clean-append scheme ((w ∷ (gap ++ t)) ++ post) hs)) in
    let clean : ends_clean is_whitespace body ≡ true =
      rw (← append_assoc scheme (w ∷ gap) t) (ends_clean-append (scheme ++ w ∷ gap) t ne b) in
    let back : trim (pre ++ (body ++ post)) ≡ body =
      rw front (trim_end-append is_whitespace body post ho clean) in
    rw
      (
        back,
        split_whitespace-append scheme w (gap ++ t) (scheme-clean scheme hs) hw,
        hs,
        trim_self gap t hg a b,
      )
      (token_of_self t ne)
