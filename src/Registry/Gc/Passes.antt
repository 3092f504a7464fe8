-- ===== src/Registry/Gc/Passes.antt =====
-- One pass of the collection in crates/core/src/registry.rs over one directory.
use warpline.Base.{
  ℕ, ◌+◌, ◌≡◌, refl, sym, ap, ◌∙◌, inl, inr, Bool, true, false, not, List, [], ◌∷◌, none, some,
  arith, Bool-cases, length, keep, Result, ok, err, Eq, Bytes, bytes_eq, pair_eq, lookup,
}
use warpline.Registry.Disk.{File, IoError, not_found, failed}
use warpline.Registry.Gc.{goes, is_temp, delete_files, delete_pass, sweep_tenants}

module _ {K : Type 0} ⦃e : Eq K⦄ where
  lookup-keep :
      (p : K × File → Bool) (k : K) (f : File) (l : List (K × File))
      → lookup k l ≡ some f
      → p (k, f) ≡ true
      → lookup k (keep p l) ≡ some f
  unfolding lookup
  lookup-keep p k f [] h t = absurd (ground arith)
  lookup-keep p k f ((j, g) ∷ l) h t = elim (Bool-cases (e.beq j k)) [
    | inl same ↦
        let jk : j ≡ k = (e.beq_iff j k).0 same in
        let fg : some g ≡ some f = sym (rw same refl) ∙ h in
        let gf : g ≡ f = some-injective g f fg in
        let stays : p (j, g) ≡ true = rw (jk, gf) t in rw (stays, same, keep, lookup) fg
    | inr other ↦
        let rest : lookup k (keep p l) ≡ some f = lookup-keep p k f l (sym (rw other refl) ∙ h) t in
        elim (Bool-cases (p (j, g))) [
          | inl stays ↦ rw (stays, other, keep, lookup) rest
          | inr out ↦ rw (out, keep) rest
        ]
  ]
    where
      some-injective : (a b : File) → some a ≡ some b → a ≡ b
      some-injective a b h = ground arith

  keep_out :
      (p : K × File → Bool) (j : K) (g : File) (l : List (K × File))
      → p (j, g) ≡ false
      → keep p ((j, g) ∷ l) ≡ keep p l
  keep_out p j g l out = rw (out, keep) refl

  keep_in :
      (p : K × File → Bool) (j : K) (g : File) (l : List (K × File))
      → p (j, g) ≡ true
      → keep p ((j, g) ∷ l) ≡ (j, g) ∷ keep p l
  keep_in p j g l stays = rw (stays, keep) refl

  moved-along :
      (p : K × File → Bool) (j k : K) (g f : File)
      → j ≡ k
      → g ≡ f
      → p (j, g) ≡ true
      → p (k, f) ≡ true
  moved-along p j k g f jk gf h = rw (← jk, ← gf) h

  kept-passes :
      (p : K × File → Bool) (k : K) (f : File) (l : List (K × File))
      → lookup k (keep p l) ≡ some f
      → p (k, f) ≡ true
  unfolding lookup
  kept-passes p k f [] h = absurd (ground arith)
  kept-passes p k f ((j, g) ∷ l) h = elim (Bool-cases (p (j, g))) [
    | inr out ↦ kept-passes p k f l (ap (lookup k) (sym (keep_out p j g l out)) ∙ h)
    | inl stays ↦
        let kept : lookup k ((j, g) ∷ keep p l) ≡ some f =
          ap (lookup k) (sym (keep_in p j g l stays)) ∙ h in
        elim (Bool-cases (e.beq j k)) [
          | inr other ↦ kept-passes p k f l (sym (rw other refl) ∙ kept)
          | inl same ↦
              let jk : j ≡ k = (e.beq_iff j k).0 same in
              let fg : some g ≡ some f = sym (rw same refl) ∙ kept in
              let gf : g ≡ f = ground arith in moved-along p j k g f jk gf stays
        ]
  ]

  lookup-keep-none :
      (p : K × File → Bool) (k : K) (l : List (K × File))
      → lookup k l ≡ none
      → lookup k (keep p l) ≡ none
  unfolding lookup
  lookup-keep-none p k [] h = refl
  lookup-keep-none p k ((j, g) ∷ l) h =
      let rest : lookup k l ≡ none → lookup k (keep p l) ≡ none = lookup-keep-none p k l in
      elim (Bool-cases (e.beq j k)) [
        | inl same ↦ absurd (ground arith)
        | inr other ↦
            let tail : lookup k (keep p l) ≡ none = rest (sym (rw other refl) ∙ h) in
            elim (Bool-cases (p (j, g))) [
              | inl stays ↦ ap (lookup k) (keep_in p j g l stays) ∙ rw other tail
              | inr out ↦ ap (lookup k) (keep_out p j g l out) ∙ tail
            ]
      ]

  pub delete_files-stays :
      (c : K → Bool) (now grace : ℕ) (k : K) (f : File) (l : List (K × File))
      → lookup k l ≡ some f
      → goes c now grace (k, f) ≡ false
      → lookup k (delete_files c now grace l).0 ≡ some f
  unfolding delete_files
  delete_files-stays c now grace k f l h g =
      lookup-keep (λ x. not (goes c now grace x)) k f l h (rw g refl)

  delete_files-clears :
      (c : K → Bool) (now grace : ℕ) (k : K) (f : File) (l : List (K × File))
      → lookup k (delete_files c now grace l).0 ≡ some f
      → goes c now grace (k, f) ≡ false
  unfolding delete_files
  delete_files-clears c now grace k f l h =
      let out = kept-passes (λ x. not (goes c now grace x)) k f l h in ground arith

  keep-count :
      (p : K × File → Bool) (l : List (K × File))
      → length (keep (λ x. not (p x)) l) + length (keep p l) ≡ length l
  keep-count p [] = refl
  keep-count p (x ∷ l) = ground (arith, keep-count p l)

  pub delete_files-count :
      (c : K → Bool) (now grace : ℕ) (l : List (K × File))
      → length (delete_files c now grace l).0 + (delete_files c now grace l).1 ≡ length l
  unfolding delete_files
  delete_files-count c now grace l = keep-count (goes c now grace) l

-- A file that neither the sweep nor the pass takes is there afterwards.
pub delete_pass-stays :
    (r : Result IoError (Unit {0})) (c : Bytes → Bool) (now grace : ℕ) (k : Bytes) (f : File)
    (l : List (Bytes × File))
    → lookup k l ≡ some f
    → goes is_temp now grace (k, f) ≡ false
    → goes c now grace (k, f) ≡ false
    → lookup k (delete_pass r c now grace l).0 ≡ some f
unfolding delete_pass
delete_pass-stays (err not_found) c now grace k f l h t g = h
delete_pass-stays (err failed) c now grace k f l h t g = h
delete_pass-stays (ok u) c now grace k f l h t g =
    delete_files-stays c now grace k f (delete_files is_temp now grace l).0
      (delete_files-stays is_temp now grace k f l h t) g

pub delete_pass-absent :
    (r : Result IoError (Unit {0})) (c : Bytes → Bool) (now grace : ℕ) (k : Bytes)
    (l : List (Bytes × File))
    → lookup k l ≡ none
    → lookup k (delete_pass r c now grace l).0 ≡ none
unfolding delete_pass delete_files
delete_pass-absent (err not_found) c now grace k l h = h
delete_pass-absent (err failed) c now grace k l h = h
delete_pass-absent (ok u) c now grace k l h =
    lookup-keep-none (λ x. not (goes c now grace x)) k (delete_files is_temp now grace l).0
      (lookup-keep-none (λ x. not (goes is_temp now grace x)) k l h)

-- What is there after a pass over a directory that was listed is not to go.
pub delete_pass-clears :
    (c : Bytes → Bool) (now grace : ℕ) (k : Bytes) (f : File) (l : List (Bytes × File))
    → lookup k (delete_pass (ok tt) c now grace l).0 ≡ some f
    → goes c now grace (k, f) ≡ false
unfolding delete_pass
delete_pass-clears c now grace k f l h =
    delete_files-clears c now grace k f (delete_files is_temp now grace l).0 h

pub delete_pass-count :
    (r : Result IoError (Unit {0})) (c : Bytes → Bool) (now grace n : ℕ) (l : List (Bytes × File))
    → (delete_pass r c now grace l).1 ≡ ok n
    → length (delete_pass r c now grace l).0 + n ≡ length l
unfolding delete_pass
delete_pass-count (err not_found) c now grace n l h = let z : 0 ≡ n = ground arith in omega arith
delete_pass-count (err failed) c now grace n l h = absurd (ground arith)
delete_pass-count (ok u) c now grace n l h =
    let swept = delete_files is_temp now grace l in
    let z : swept.1 + (delete_files c now grace swept.0).1 ≡ n = ground arith in
    omega (arith, delete_files-count is_temp now grace l, delete_files-count c now grace swept.0)

pub sweep_tenants-count :
    (r : Result IoError (Unit {0})) (now grace : ℕ) (l : List ((Bytes × Bytes) × File))
    → length (sweep_tenants r now grace l).0 + (sweep_tenants r now grace l).1 ≡ length l
unfolding sweep_tenants
sweep_tenants-count (err i) now grace l = omega arith
sweep_tenants-count (ok u) now grace l = delete_files-count (λ p. is_temp p.1) now grace l
