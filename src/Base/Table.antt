-- ===== src/Base/Table.antt =====
-- Facts about small numbers by evaluation: two tests that agree on each value below a bound.
use Prim.Native.Nat.{ℕ, zero, suc, ◌<◌}
use mathlib.Core.Path.{◌≡◌, ap, ◌∙◌, sym}
use mathlib.Core.Logic.{inl, inr}
use mathlib.Core.Bool.{Bool, true, false, not, ◌&&◌}
use native.Mathlib.Omega.{arith}
use warpline.Base.Tests.{◌==◌, ==_iff, Bool-cases}

abbrev same : Bool → Bool → Bool
same true b = b
same false b = not b

same-eq : (a b : Bool) → same a b ≡ true → a ≡ b
same-eq true b h = ground arith
same-eq false b h = ground arith

-- A table of two tests: `agree n f g ≡ true` holds by evaluation.
unfoldable pub agree : ℕ → (ℕ → Bool) → (ℕ → Bool) → Bool
agree zero f g = true
agree (suc last) f g = same (f last) (g last) && agree last f g

pub eq_of_agree : (n : ℕ) (f g : ℕ → Bool) (x : ℕ) → agree n f g ≡ true → x < n → f x ≡ g x
unfolding agree
eq_of_agree zero f g x table small = absurd (omega arith)
eq_of_agree (suc last) f g x table small = elim (Bool-cases (x == last)) [
  | inl top ↦
      let at : x ≡ last = (==_iff x last).0 top in
      ap f at ∙ same-eq (f last) (g last) (ground arith) ∙ sym (ap g at)
  | inr below ↦ eq_of_agree last f g x (ground arith) (ground (arith, ==_iff x last))
]
