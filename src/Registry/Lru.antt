-- ===== src/Registry/Lru.antt =====
-- `LruCache` of the lru crate, which crates/core/src/registry.rs and crates/core/src/pg/auth.rs
-- build on: its operations, and what its documentation says of them, over the entries from the
-- most to the least recently used.
use warpline.Base.{
  ℕ, ◌≤◌, ◌<◌, ◌≡◌, List, [], ◌∷◌, Option, none, some, length, take, Bytes, bytes_eq, pair_eq,
  lookup, remove,
}

module _ {V : Type 0} where
  -- No key twice.
  abbrev pub Distinct : List (Bytes × V) → Type 0
  Distinct [] = Unit
  Distinct (e ∷ l) = (lookup e.0 l ≡ none) × Distinct l

  abbrev pub last? : List (Bytes × V) → Option (Bytes × V)
  last? [] = none
  last? (e ∷ []) = some e
  last? (e ∷ f ∷ l) = last? (f ∷ l)

  abbrev pub drop_last : List (Bytes × V) → List (Bytes × V)
  drop_last [] = []
  drop_last (e ∷ []) = []
  drop_last (e ∷ f ∷ l) = e ∷ drop_last (f ∷ l)

  -- A use of a key that is there.
  abbrev pub promote : Bytes → Option V → List (Bytes × V) → List (Bytes × V)
  promote k none l = l
  promote k (some v) l = (k, v) ∷ remove k l

pub record Lru (V : Type 0) : Type 1 where
  pub State : Type 0
  pub entries : State → List (Bytes × V)
  pub capacity : State → ℕ
  pub new : ℕ → State
  pub get : Bytes → State → State × Option V
  pub put : Bytes → V → State → State × Option V
  pub pop_lru : State → State × Option (Bytes × V)
  pub distinct : (s : State) → Distinct (entries s)
  pub bounded : (s : State) → length (entries s) ≤ capacity s
  pub positive : (s : State) → 0 < capacity s
  pub entries-new : (n : ℕ) → entries (new n) ≡ []
  pub capacity-new : (n : ℕ) → 0 < n → capacity (new n) ≡ n
  pub get-lookup : (k : Bytes) (s : State) → (get k s).1 ≡ lookup k (entries s)
  pub entries-get :
      (k : Bytes) (s : State) → entries (get k s).0 ≡ promote k (lookup k (entries s)) (entries s)
  pub capacity-get : (k : Bytes) (s : State) → capacity (get k s).0 ≡ capacity s
  -- "If the key already exists in the cache, then it updates the key's value and returns the old
  -- value. Otherwise, None is returned." A new key in a full cache drops the last entry.
  pub put-lookup : (k : Bytes) (v : V) (s : State) → (put k v s).1 ≡ lookup k (entries s)
  pub entries-put_old :
      (k : Bytes) (v w : V) (s : State)
      → lookup k (entries s) ≡ some w
      → entries (put k v s).0 ≡ (k, v) ∷ remove k (entries s)
  pub entries-put_new :
      (k : Bytes) (v : V) (s : State)
      → lookup k (entries s) ≡ none
      → entries (put k v s).0 ≡ take (capacity s) ((k, v) ∷ entries s)
  pub capacity-put : (k : Bytes) (v : V) (s : State) → capacity (put k v s).0 ≡ capacity s
  -- "Removes and returns the key and value corresponding to the least recently used item or None
  -- if the cache is empty."
  pub pop_lru-last : (s : State) → (pop_lru s).1 ≡ last? (entries s)
  pub entries-pop_lru : (s : State) → entries (pop_lru s).0 ≡ drop_last (entries s)
  pub capacity-pop_lru : (s : State) → capacity (pop_lru s).0 ≡ capacity s
