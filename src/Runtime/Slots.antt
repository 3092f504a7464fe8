-- ===== src/Runtime/Slots.antt =====
-- `TenantSlot` of crates/core/src/runtime.rs: the calls of each tenant that are in flight, under one
-- lock.
use warpline.Base.{
  ℕ, ◌+◌, ◌^◌, ◌≤◌, ◌<◌, ◌≡◌, refl, sym, ap, ◌∙◌, inl, inr, Bool, true, false, List, Option, none,
  some, arith, leb, ◌==◌, if◌then◌else◌, Bool-cases, Option-cases, wrapping_add, wrapping_sub,
  Bytes, bytes_beq, bytes_beq_iff, bytes_eq, pair_eq, lookup, insert, remove, lookup-insert,
  lookup-remove,
}

abbrev pub InFlight : Type 0
InFlight = List (Bytes × ℕ)

-- `TenantSlot::acquire`, under `max_in_flight_per_tenant`.
unfoldable pub acquire : ℕ → Bytes → InFlight → Option InFlight
acquire limit tenant in_use = elim (lookup tenant in_use) [
  | none ↦ some (insert tenant 1 in_use)
  | some n ↦ if leb limit n then none else some (insert tenant (wrapping_add n 1) in_use)
]

-- `drop` of a `TenantSlot`.
unfoldable pub release : Bytes → InFlight → InFlight
release tenant in_use = elim (lookup tenant in_use) [
  | none ↦ in_use
  | some n ↦
      if wrapping_sub n 1 == 0
      then remove tenant in_use
      else insert tenant (wrapping_sub n 1) in_use
]

abbrev pub count_or_zero : Option ℕ → ℕ
count_or_zero none = 0
count_or_zero (some n) = n

-- How many calls of the tenant the in_use counts.
abbrev pub in_flight_of : Bytes → InFlight → ℕ
in_flight_of t in_use = count_or_zero (lookup t in_use)

if_true : (b : Bool) (x y : Option ℕ) → b ≡ true → (if b then x else y) ≡ x
if_true b x y h = ground arith

if_false : (b : Bool) (x y : Option ℕ) → b ≡ false → (if b then x else y) ≡ y
if_false b x y h = ground arith

-- A slot that is given counts its tenant once more, which was below the cap, and nobody else.
pub acquire-count :
    (limit : ℕ) (tenant t : Bytes) (in_use after : InFlight)
    → 1 ≤ limit
    → limit < 2 ^ 64
    → acquire limit tenant in_use ≡ some after
    → (in_flight_of tenant in_use < limit)
      × (in_flight_of t after ≡ in_flight_of t in_use + (if bytes_beq tenant t then 1 else 0))
unfolding acquire
acquire-count limit tenant t in_use after one word h = elim (Option-cases (lookup tenant in_use)) [
  | inl new ↦
      let done : insert tenant 1 in_use ≡ after = ground arith in
      let there = ap (lookup t) (sym done) ∙ lookup-insert tenant t 1 in_use in
      counted 0 1 (omega arith) (omega arith) there (ap count_or_zero new)
  | inr (n, old) ↦
      let low : n < limit = ground arith in
      let done : insert tenant (wrapping_add n 1) in_use ≡ after = ground arith in
      let there = ap (lookup t) (sym done) ∙ lookup-insert tenant t (wrapping_add n 1) in_use in
      counted n (wrapping_add n 1) low (omega arith) there (ap count_or_zero old)
]
  where
    counted :
        (n m : ℕ)
        → n < limit
        → m ≡ n + 1
        → lookup t after ≡ (if bytes_beq tenant t then some m else lookup t in_use)
        → in_flight_of tenant in_use ≡ n
        → (in_flight_of tenant in_use < limit)
          × (in_flight_of t after ≡ in_flight_of t in_use + (if bytes_beq tenant t then 1 else 0))
    counted n m low next there was = elim (Bool-cases (bytes_beq tenant t)) [
      | inl same ↦
          let eq = ap (λ k. in_flight_of k in_use) ((bytes_beq_iff tenant t).0 same) in
          let now : in_flight_of t after ≡ m =
            ap count_or_zero
              (there ∙ if_true (bytes_beq tenant t) (some m) (lookup t in_use) same) in
          (omega arith, rw same (omega arith))
      | inr other ↦
          let now : in_flight_of t after ≡ in_flight_of t in_use =
            ap count_or_zero
              (there ∙ if_false (bytes_beq tenant t) (some m) (lookup t in_use) other) in
          (omega arith, rw other (omega arith))
    ]

-- A slot that is given back counts its tenant once less, and nobody else.
pub release-count :
    (tenant t : Bytes) (in_use : InFlight)
    → 1 ≤ in_flight_of tenant in_use
    → in_flight_of tenant in_use < 2 ^ 64
    → in_flight_of t in_use
      ≡ in_flight_of t (release tenant in_use) + (if bytes_beq tenant t then 1 else 0)
unfolding release
release-count tenant t in_use one word = elim (Option-cases (lookup tenant in_use)) [
  | inl absent ↦ absurd (let z = ap count_or_zero absent in omega arith)
  | inr (n, there) ↦
      let was : in_flight_of tenant in_use ≡ n = ap count_or_zero there in
      elim (Bool-cases (wrapping_sub n 1 == 0)) [
        | inl last ↦
            let done : release tenant in_use ≡ remove tenant in_use = released_last n there last in
            let now = ap (lookup t) done ∙ lookup-remove tenant t in_use in
            let n1 : n ≡ 1 = ground arith in
            elim (Bool-cases (bytes_beq tenant t)) [
              | inl same ↦
                  let eq = ap (λ k. in_flight_of k in_use) ((bytes_beq_iff tenant t).0 same) in
                  rw same (
                    let z =
                      ap count_or_zero
                        (now ∙ if_true (bytes_beq tenant t) none (lookup t in_use) same) in
                    omega arith)
              | inr other ↦ rw other (
                  let z =
                    ap count_or_zero
                      (now ∙ if_false (bytes_beq tenant t) none (lookup t in_use) other) in
                  omega arith)
            ]
        | inr more ↦
            let done : release tenant in_use ≡ insert tenant (wrapping_sub n 1) in_use =
              released_more n there more in
            let now = ap (lookup t) done ∙ lookup-insert tenant t (wrapping_sub n 1) in_use in
            elim (Bool-cases (bytes_beq tenant t)) [
              | inl same ↦
                  let eq = ap (λ k. in_flight_of k in_use) ((bytes_beq_iff tenant t).0 same) in
                  let z = ap count_or_zero (
                    now
                    ∙ if_true (bytes_beq tenant t) (some (wrapping_sub n 1)) (lookup t in_use)
                        same) in
                  rw same (omega arith)
              | inr other ↦ rw other (
                  let z = ap count_or_zero (
                    now
                    ∙ if_false (bytes_beq tenant t) (some (wrapping_sub n 1)) (lookup t in_use)
                        other) in
                  omega arith)
            ]
      ]
]
  where
    released_last :
        (n : ℕ)
        → lookup tenant in_use ≡ some n
        → (wrapping_sub n 1 == 0) ≡ true
        → release tenant in_use ≡ remove tenant in_use
    released_last n there last = rw (release, there, last) refl

    released_more :
        (n : ℕ)
        → lookup tenant in_use ≡ some n
        → (wrapping_sub n 1 == 0) ≡ false
        → release tenant in_use ≡ insert tenant (wrapping_sub n 1) in_use
    released_more n there more = rw (release, there, more) refl

-- A slot is refused only to a tenant that has as many as the cap allows.
pub acquire_busy :
    (limit : ℕ) (tenant : Bytes) (in_use : InFlight)
    → acquire limit tenant in_use ≡ none
    → limit ≤ in_flight_of tenant in_use
unfolding acquire
acquire_busy limit tenant in_use h = elim (Option-cases (lookup tenant in_use)) [
  | inl new ↦ absurd (ground arith)
  | inr (n, old) ↦
      let was : in_flight_of tenant in_use ≡ n = ap count_or_zero old in
      let full : limit ≤ n = ground arith in omega arith
]
