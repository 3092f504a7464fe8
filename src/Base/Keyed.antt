-- ===== src/Base/Keyed.antt =====
-- Tables by a primary key of two columns, with one column more.
use mathlib.Core.Path.{◌≡◌, refl, ◌∙◌}
use mathlib.Core.Logic.{inl, inr}
use mathlib.Core.Bool.{false}
use mathlib.Core.Option.{none}
use mathlib.Core.List.{List, [], ◌∷◌}
use native.Mathlib.Omega.{arith}
use warpline.Base.Tests.{Bool-cases}
use warpline.Base.Maps.{Bytes, pair_beq, pair_beq_iff, pair_eq, lookup, insert, lookup-insert}

abbrev pub Keyed : List ((Bytes × Bytes) × Bytes) → Type 0
Keyed [] = Unit
Keyed ((key, hash) ∷ l) = (lookup key l ≡ none) × Keyed l

pub lookup-insert-none :
    (key new : Bytes × Bytes) (hash : Bytes) (l : List ((Bytes × Bytes) × Bytes))
    → lookup key l ≡ none
    → pair_beq new key ≡ false
    → lookup key (insert new hash l) ≡ none
lookup-insert-none key new hash l h ne = lookup-insert new key hash l ∙ rw ne h

pub insert-Keyed :
    (new : Bytes × Bytes) (hash : Bytes) (l : List ((Bytes × Bytes) × Bytes))
    → Keyed l
    → Keyed (insert new hash l)
unfolding insert lookup
insert-Keyed new hash [] k = (refl, tt)
insert-Keyed new hash ((key, old) ∷ l) k = elim (Bool-cases (pair_beq key new)) [
  | inl same ↦ let eq = (pair_beq_iff key new).0 same in rw same (rw eq at (k.0), k.1)
  | inr other ↦ rw other (
    lookup-insert-none key new hash l k.0
        (ground (arith, pair_beq_iff new key, pair_beq_iff key new)),
    insert-Keyed new hash l k.1,
  )
]
