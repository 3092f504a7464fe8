-- ===== src/Base/Maps.antt =====
-- Byte strings with their equality, and hash maps as association lists with one entry for a key.
use Prim.Native.Nat.{ℕ, ◌+◌, ◌≤◌}
use mathlib.Core.Path.{◌≡◌, refl, ap}
use mathlib.Core.Logic.{◌↔◌, inl, inr}
use mathlib.Core.Bool.{Bool, true, false, ◌&&◌}
use mathlib.Core.Option.{Option, none, some}
use mathlib.Core.List.{List, [], ◌∷◌}
use native.Mathlib.Omega.{arith}
use warpline.Base.Tests.{◌==◌, if◌then◌else◌, Bool-cases}

-- What the source compares by `==` and keys its maps by.
pub record Eq {ℓ} (A : Type ℓ) : Type ℓ where
  pub beq : A → A → Bool
  pub beq_iff : (a b : A) → (beq a b ≡ true) ↔ (a ≡ b)

-- A `str` or a `[u8]`: its bytes.
abbrev pub Bytes : Type 0
Bytes = List ℕ

abbrev pub bytes_beq : Bytes → Bytes → Bool
bytes_beq [] [] = true
bytes_beq [] (b ∷ t) = false
bytes_beq (a ∷ s) [] = false
bytes_beq (a ∷ s) (b ∷ t) = (a == b) && bytes_beq s t

pub bytes_beq_iff : (s t : Bytes) → (bytes_beq s t ≡ true) ↔ (s ≡ t)
bytes_beq_iff [] [] = ground arith
bytes_beq_iff [] (b ∷ t) = ground arith
bytes_beq_iff (a ∷ s) [] = ground arith
bytes_beq_iff (a ∷ s) (b ∷ t) = ground (arith, bytes_beq_iff s t)

instance abbrev pub bytes_eq : Eq Bytes
bytes_eq = record { beq = bytes_beq; beq_iff = bytes_beq_iff }

abbrev pub pair_beq : Bytes × Bytes → Bytes × Bytes → Bool
pair_beq p q = bytes_beq p.0 q.0 && bytes_beq p.1 q.1

pub pair_beq_iff : (p q : Bytes × Bytes) → (pair_beq p q ≡ true) ↔ (p ≡ q)
pair_beq_iff (a, b) (c, d) = ground (arith, bytes_beq_iff a c, bytes_beq_iff b d)

instance abbrev pub pair_eq : Eq (Bytes × Bytes)
pair_eq = record { beq = pair_beq; beq_iff = pair_beq_iff }

module _ {ℓ κ} {K : Type ℓ} {V : Type κ} ⦃e : Eq K⦄ where
  -- `HashMap::get`.
  unfoldable pub lookup : K → List (K × V) → Option V
  lookup k [] = none
  lookup k ((j, v) ∷ m) = if e.beq j k then some v else lookup k m

  -- `HashMap::insert`: a new key goes to the end, an old one keeps its place.
  unfoldable pub insert : K → V → List (K × V) → List (K × V)
  insert k v [] = (k, v) ∷ []
  insert k v ((j, w) ∷ m) = if e.beq j k then (k, v) ∷ m else (j, w) ∷ insert k v m

  -- `HashMap::remove`.
  unfoldable pub remove : K → List (K × V) → List (K × V)
  remove k [] = []
  remove k ((j, w) ∷ m) = if e.beq j k then remove k m else (j, w) ∷ remove k m

  pub lookup-insert :
      (k j : K) (v : V) (m : List (K × V))
      → lookup j (insert k v m) ≡ (if e.beq k j then some v else lookup j m)
  unfolding lookup insert
  lookup-insert k j v [] = refl
  lookup-insert k j v ((i, w) ∷ m) =
      ground (arith, e.beq_iff k j, e.beq_iff i k, e.beq_iff i j, lookup-insert k j v m)

  pub lookup-remove :
      (k j : K) (m : List (K × V))
      → lookup j (remove k m) ≡ (if e.beq k j then none else lookup j m)
  unfolding lookup remove
  lookup-remove k j [] = ground arith
  lookup-remove k j ((i, w) ∷ m) =
      ground (arith, e.beq_iff k j, e.beq_iff i k, e.beq_iff i j, lookup-remove k j m)

  pub lookup-insert_self : (k : K) (v : V) (m : List (K × V)) → lookup k (insert k v m) ≡ some v
  lookup-insert_self k v m = ground (arith, lookup-insert k k v m, e.beq_iff k k)

  -- The weight of the entries of a map.
  unfoldable pub weigh : (K → V → ℕ) → List (K × V) → ℕ
  weigh f [] = 0
  weigh f ((j, v) ∷ m) = f j v + weigh f m

  abbrev pub weight_at : (K → V → ℕ) → K → Option V → ℕ
  weight_at f k none = 0
  weight_at f k (some v) = f k v

  -- An insertion gives the old entry's weight back and charges the new one's.
  pub weigh-insert :
      (f : K → V → ℕ) (k : K) (v : V) (m : List (K × V))
      → weigh f (insert k v m) + weight_at f k (lookup k m) ≡ weigh f m + f k v
  unfolding weigh insert lookup
  weigh-insert f k v [] = omega arith
  weigh-insert f k v ((j, w) ∷ m) = elim (Bool-cases (e.beq j k)) [
    | inl same ↦
        rw same (let eq : j ≡ k = (e.beq_iff j k).0 same in omega (arith, ap (λ i. f i w) eq))
    | inr other ↦ rw other (omega (arith, weigh-insert f k v m))
  ]

  pub weight_at-le :
      (f : K → V → ℕ) (k : K) (m : List (K × V)) → weight_at f k (lookup k m) ≤ weigh f m
  unfolding weigh lookup
  weight_at-le f k [] = omega arith
  weight_at-le f k ((j, w) ∷ m) = elim (Bool-cases (e.beq j k)) [
    | inl same ↦
        rw same (let eq : j ≡ k = (e.beq_iff j k).0 same in omega (arith, ap (λ i. f i w) eq))
    | inr other ↦ rw other (omega (arith, weight_at-le f k m))
  ]
