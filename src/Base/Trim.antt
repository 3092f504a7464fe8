-- ===== src/Base/Trim.antt =====
-- `trim_start_matches` and `trim_end_matches` over a Boolean test on characters.
use Prim.Native.Nat.{◌≤◌}
use mathlib.Core.Path.{◌≡◌, refl}
use mathlib.Core.Bool.{Bool, true, not}
use mathlib.Core.List.{List, [], ◌∷◌, ◌++◌}
use native.Mathlib.Omega.{arith}
use warpline.Base.Tests.{if◌then◌else◌}
use warpline.Base.Lists.{all, length}

module _ {ℓ} {A : Type ℓ} (p : A → Bool) where
  unfoldable pub trim_start : List A → List A
  trim_start [] = []
  trim_start (b ∷ bs) = if p b then trim_start bs else b ∷ bs

  unfoldable pub trim_end : List A → List A
  trim_end [] = []
  trim_end (b ∷ bs) = elim (trim_end bs) [ [] ↦ if p b then [] else b ∷ [] | c ∷ cs ↦ b ∷ c ∷ cs ]

  -- The first, or the last, character fails the test; so of the empty text.
  abbrev pub starts_clean : List A → Bool
  starts_clean [] = true
  starts_clean (b ∷ bs) = not (p b)

  abbrev pub ends_clean : List A → Bool
  ends_clean [] = true
  ends_clean (b ∷ []) = not (p b)
  ends_clean (b ∷ c ∷ cs) = ends_clean (c ∷ cs)

  pub trim_start-clean : (s : List A) → starts_clean (trim_start s) ≡ true
  unfolding trim_start
  trim_start-clean [] = refl
  trim_start-clean (b ∷ bs) = ground (arith, trim_start-clean bs)

  pub trim_start-append :
      (pre s : List A) → all p pre ≡ true → starts_clean s ≡ true → trim_start (pre ++ s) ≡ s
  unfolding trim_start
  trim_start-append [] [] h c = refl
  trim_start-append [] (b ∷ bs) h c = ground arith
  trim_start-append (a ∷ pre) s h c = ground (arith, trim_start-append pre s)

  pub trim_end-clean : (s : List A) → ends_clean (trim_end s) ≡ true
  unfolding trim_end
  trim_end-clean [] = refl
  trim_end-clean (b ∷ bs) = ground (arith, trim_end-clean bs)

  pub trim_end_of_clean : (s : List A) → ends_clean s ≡ true → trim_end s ≡ s
  unfolding trim_end
  trim_end_of_clean [] c = refl
  trim_end_of_clean (b ∷ []) c = ground arith
  trim_end_of_clean (b ∷ d ∷ ds) c = ground (arith, trim_end_of_clean (d ∷ ds))

  trim_end_of_all : (s : List A) → all p s ≡ true → trim_end s ≡ []
  unfolding trim_end
  trim_end_of_all [] h = refl
  trim_end_of_all (b ∷ bs) h = ground (arith, trim_end_of_all bs)

  pub trim_end-append :
      (s post : List A) → all p post ≡ true → ends_clean s ≡ true → trim_end (s ++ post) ≡ s
  unfolding trim_end
  trim_end-append [] post h c = trim_end_of_all post h
  trim_end-append (b ∷ []) post h c = ground (arith, trim_end_of_all post)
  trim_end-append (b ∷ d ∷ ds) post h c = ground (arith, trim_end-append (d ∷ ds) post)

  -- Trimming the end leaves the start as it was, where something is left.
  pub trim_end-starts : (s : List A) → starts_clean s ≡ true → starts_clean (trim_end s) ≡ true
  unfolding trim_end
  trim_end-starts [] c = refl
  trim_end-starts (b ∷ bs) c = ground arith

  pub length-trim_end-le : (s : List A) → length (trim_end s) ≤ length s
  unfolding trim_end
  length-trim_end-le [] = omega arith
  length-trim_end-le (b ∷ bs) = ground (arith, length-trim_end-le bs)
