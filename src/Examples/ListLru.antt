-- ===== src/Examples/ListLru.antt =====
-- A list that keeps what the documentation of the lru crate says, for crates/core/src/registry.rs.
use warpline.Base.{
  ℕ, zero, suc, ◌≤◌, ◌<◌, ◌≡◌, refl, ◌∙◌, List, [], ◌∷◌, Option, none, some, arith, length, take,
  length-take, Bytes, bytes_beq_iff, bytes_eq, pair_eq, lookup, remove, lookup-remove,
}
use warpline.Registry.Lru.{Lru, Distinct, last?, drop_last, promote}

module _ {V : Type 0} where
  pub lookup-remove_self : (k : Bytes) (l : List (Bytes × V)) → lookup k (remove k l) ≡ none
  lookup-remove_self k l = lookup-remove k k l ∙ rw ((bytes_beq_iff k k).1 refl) refl

  pub lookup-remove-none :
      (k j : Bytes) (l : List (Bytes × V)) → lookup k l ≡ none → lookup k (remove j l) ≡ none
  lookup-remove-none k j l h = ground (arith, lookup-remove j k l)

  pub remove-Distinct : (k : Bytes) (l : List (Bytes × V)) → Distinct l → Distinct (remove k l)
  unfolding remove
  remove-Distinct k [] d = tt
  remove-Distinct k ((j, v) ∷ l) d = ground (arith, lookup-remove-none j k l, remove-Distinct k l)

  pub length-remove-le : (k : Bytes) (l : List (Bytes × V)) → length (remove k l) ≤ length l
  unfolding remove
  length-remove-le k [] = omega arith
  length-remove-le k ((j, v) ∷ l) = ground (arith, length-remove-le k l)

  pub length-remove-lt :
      (k : Bytes) (l : List (Bytes × V)) (v : V)
      → lookup k l ≡ some v
      → length (remove k l) < length l
  unfolding remove lookup
  length-remove-lt k [] v h = absurd (ground arith)
  length-remove-lt k ((j, w) ∷ l) v h = ground (arith, length-remove-le k l, length-remove-lt k l v)

  pub lookup-take-none :
      (k : Bytes) (n : ℕ) (l : List (Bytes × V)) → lookup k l ≡ none → lookup k (take n l) ≡ none
  unfolding lookup
  lookup-take-none k zero l h = refl
  lookup-take-none k (suc n) [] h = refl
  lookup-take-none k (suc n) ((j, v) ∷ l) h = ground (arith, lookup-take-none k n l)

  pub take-Distinct : (n : ℕ) (l : List (Bytes × V)) → Distinct l → Distinct (take n l)
  take-Distinct zero l d = tt
  take-Distinct (suc n) [] d = tt
  take-Distinct (suc n) ((j, v) ∷ l) d = (lookup-take-none j n l d.0, take-Distinct n l d.1)

  pub lookup-drop_last-none :
      (k : Bytes) (l : List (Bytes × V)) → lookup k l ≡ none → lookup k (drop_last l) ≡ none
  unfolding lookup
  lookup-drop_last-none k [] h = refl
  lookup-drop_last-none k (e ∷ []) h = refl
  lookup-drop_last-none k ((j, v) ∷ f ∷ l) h = ground (arith, lookup-drop_last-none k (f ∷ l))

  pub drop_last-Distinct : (l : List (Bytes × V)) → Distinct l → Distinct (drop_last l)
  drop_last-Distinct [] d = tt
  drop_last-Distinct (e ∷ []) d = tt
  drop_last-Distinct (e ∷ f ∷ l) d =
      (lookup-drop_last-none e.0 (f ∷ l) d.0, drop_last-Distinct (f ∷ l) d.1)

  pub length-drop_last-le : (l : List (Bytes × V)) → length (drop_last l) ≤ length l
  length-drop_last-le [] = omega arith
  length-drop_last-le (e ∷ []) = omega arith
  length-drop_last-le (e ∷ f ∷ l) = omega (arith, length-drop_last-le (f ∷ l))

  pub length-take-le : (n : ℕ) (l : List (Bytes × V)) → length (take n l) ≤ n
  length-take-le n l = omega (arith, length-take n l)

module _ (V : Type 0) where
  pub record ListLru : Type 0 where
    pub list : List (Bytes × V)
    pub cap : ℕ
    pub list-Distinct : Distinct list
    pub length-le-cap : length list ≤ cap
    pub cap-positive : 0 < cap

  abbrev pub fresh : ℕ → ListLru
  fresh zero = record {
    list = [];
    cap = 1;
    list-Distinct = tt;
    length-le-cap = omega arith;
    cap-positive = omega arith;
  }
  fresh (suc n) = record {
    list = [];
    cap = suc n;
    list-Distinct = tt;
    length-le-cap = omega arith;
    cap-positive = omega arith;
  }

  -- An entry under a key that is there goes to the front.
  abbrev pub to_front : (k : Bytes) (v w : V) (s : ListLru) → lookup k s.list ≡ some w → ListLru
  to_front k v w s h = record s {
    list = (k, v) ∷ remove k s.list;
    list-Distinct = (lookup-remove_self k s.list, remove-Distinct k s.list s.list-Distinct);
    length-le-cap = (let b = s.length-le-cap in omega (arith, length-remove-lt k s.list w h));
  }

  -- A new entry goes to the front, and the list is cut at the capacity.
  abbrev pub push : (k : Bytes) (v : V) (s : ListLru) → lookup k s.list ≡ none → ListLru
  push k v s h = record s {
    list = take s.cap ((k, v) ∷ s.list);
    list-Distinct = take-Distinct s.cap ((k, v) ∷ s.list) (h, s.list-Distinct);
    length-le-cap = length-take-le s.cap ((k, v) ∷ s.list);
  }

  abbrev pub pop : ListLru → ListLru
  pop s = record s {
    list = drop_last s.list;
    list-Distinct = drop_last-Distinct s.list s.list-Distinct;
    length-le-cap = (let b = s.length-le-cap in omega (arith, length-drop_last-le s.list));
  }

  abbrev pub used : (k : Bytes) (s : ListLru) (o : Option V) → lookup k s.list ≡ o → ListLru
  used k s none h = s
  used k s (some v) h = to_front k v v s h

  abbrev pub stored :
      (k : Bytes) (v : V) (s : ListLru) (o : Option V) → lookup k s.list ≡ o → ListLru
  stored k v s none h = push k v s h
  stored k v s (some w) h = to_front k v w s h

  pub list-used :
      (k : Bytes) (s : ListLru) (o : Option V) (h : lookup k s.list ≡ o)
      → (used k s o h).list ≡ promote k o s.list
  list-used k s none h = refl
  list-used k s (some v) h = refl

  pub cap-used :
      (k : Bytes) (s : ListLru) (o : Option V) (h : lookup k s.list ≡ o)
      → (used k s o h).cap ≡ s.cap
  cap-used k s none h = refl
  cap-used k s (some v) h = refl

  pub list-stored_old :
      (k : Bytes) (v w : V) (s : ListLru) (o : Option V) (h : lookup k s.list ≡ o)
      → o ≡ some w
      → (stored k v s o h).list ≡ (k, v) ∷ remove k s.list
  list-stored_old k v w s none h e = absurd (ground arith)
  list-stored_old k v w s (some x) h e = refl

  pub list-stored_new :
      (k : Bytes) (v : V) (s : ListLru) (o : Option V) (h : lookup k s.list ≡ o)
      → o ≡ none
      → (stored k v s o h).list ≡ take s.cap ((k, v) ∷ s.list)
  list-stored_new k v s none h e = refl
  list-stored_new k v s (some x) h e = absurd (ground arith)

  pub cap-stored :
      (k : Bytes) (v : V) (s : ListLru) (o : Option V) (h : lookup k s.list ≡ o)
      → (stored k v s o h).cap ≡ s.cap
  cap-stored k v s none h = refl
  cap-stored k v s (some w) h = refl

  pub fresh_list : (n : ℕ) → (fresh n).list ≡ []
  fresh_list zero = refl
  fresh_list (suc n) = refl

  pub fresh_cap : (n : ℕ) → 0 < n → (fresh n).cap ≡ n
  fresh_cap zero h = absurd (omega arith)
  fresh_cap (suc n) h = refl

  abbrev pub list_lru : Lru V
  list_lru = record {
    State = ListLru;
    entries = λ s. s.list;
    capacity = λ s. s.cap;
    new = fresh;
    get = λ k s. (used k s (lookup k s.list) refl, lookup k s.list);
    put = λ k v s. (stored k v s (lookup k s.list) refl, lookup k s.list);
    pop_lru = λ s. (pop s, last? s.list);
    distinct = λ s. s.list-Distinct;
    bounded = λ s. s.length-le-cap;
    positive = λ s. s.cap-positive;
    entries-new = fresh_list;
    capacity-new = fresh_cap;
    get-lookup = λ k s. refl;
    entries-get = λ k s. list-used k s (lookup k s.list) refl;
    capacity-get = λ k s. cap-used k s (lookup k s.list) refl;
    put-lookup = λ k v s. refl;
    entries-put_old = λ k v w s h. list-stored_old k v w s (lookup k s.list) refl h;
    entries-put_new = λ k v s h. list-stored_new k v s (lookup k s.list) refl h;
    capacity-put = λ k v s. cap-stored k v s (lookup k s.list) refl;
    pop_lru-last = λ s. refl;
    entries-pop_lru = λ s. refl;
    capacity-pop_lru = λ s. refl;
  }
