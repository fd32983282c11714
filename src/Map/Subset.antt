-- ===== src/Map/Subset.antt =====
-- Maps one of which has all keys of the other: the sizes tell whether it has more.
use at_pc.Common.{◌≤◌, ◌<◌, ◌≡◌, true, false, [], ◌∷◌, arith, Eq, ==_iff, ==_self}
use at_pc.Map.{Map, get, insert, remove, contains_key, len}
use at_pc.Map.Laws.{get-insert, get-remove}
use at_pc.Map.Distinct.{Distinct}

module _ {ℓ κ} {K : Type ℓ} {W : Type κ} ⦃e : Eq K⦄ where
  pub remove-len_le : (k : K) (n : Map K W) → len (remove k n) ≤ len n
  unfolding remove
  remove-len_le k [] = omega arith
  remove-len_le k ((j, w) ∷ n) = ground (arith, remove-len_le k n)

  pub remove-len : (k : K) (n : Map K W) → contains_key k n ≡ true → len (remove k n) < len n
  unfolding remove contains_key get
  remove-len k [] h = ground arith
  remove-len k ((j, w) ∷ n) h = ground (arith, remove-len_le k n, remove-len k n)

  get_some-len : (k : K) (n : Map K W) → contains_key k n ≡ true → 0 < len n
  unfolding contains_key get
  get_some-len k [] h = ground arith
  get_some-len k (x ∷ n) h = omega arith

  contains-cons_self : (k : K) (v : W) (m : Map K W) → contains_key k ((k, v) ∷ m) ≡ true
  unfolding contains_key get
  contains-cons_self k v m = ground (arith, ==_self k)

  contains-cons_none :
      (k : K) (v : W) (m : Map K W) (id : K)
      → contains_key id ((k, v) ∷ m) ≡ false
      → contains_key id m ≡ false
  unfolding contains_key get
  contains-cons_none k v m id h = ground arith

module _ {ℓ κ μ} {K : Type ℓ} {V : Type κ} {W : Type μ} ⦃e : Eq K⦄ where
  -- Every key of the first map is one of the second.
  abbrev pub Subset : Map K V → Map K W → Type ℓ
  Subset m n = (k : K) → contains_key k m ≡ true → contains_key k n ≡ true

  remove-contains :
      (k : K) (v : V) (m : Map K V) (n : Map K W) (id : K)
      → contains_key id ((k, v) ∷ m) ≡ false
      → contains_key id n ≡ true
      → contains_key id (remove k n) ≡ true
  unfolding contains_key get
  remove-contains k v m n id h u = ground (arith, get-remove k id n, ==_iff k id)

  rest-Subset :
      (k : K) (v : V) (m : Map K V) (n : Map K W)
      → Distinct ((k, v) ∷ m)
      → Subset ((k, v) ∷ m) n
      → Subset m (remove k n)
  unfolding contains_key get
  rest-Subset k v m n d s j p = ground (arith, get-remove k j n, ==_iff k j, s j, d.0)

  -- A map with distinct keys that lacks a key of a map that has all of its keys is smaller.
  pub Subset-len :
      (m : Map K V) (n : Map K W) (id : K)
      → Distinct m
      → Subset m n
      → contains_key id m ≡ false
      → contains_key id n ≡ true
      → len m < len n
  Subset-len [] n id d s h u = get_some-len id n u
  Subset-len ((k, v) ∷ m) n id d s h u =
      let r = remove-len k n (s k (contains-cons_self k v m)) in
      let t : len m < len (remove k n) =
        Subset-len m (remove k n) id d.1 (rest-Subset k v m n d s) (contains-cons_none k v m id h)
          (remove-contains k v m n id h u) in
      omega arith

  pub insert-Subset :
      (m : Map K V) (n : Map K W) (k : K) (v : V) (w : W)
      → Subset m n
      → Subset (insert k v m) (insert k w n)
  unfolding contains_key
  insert-Subset m n k v w s j p = ground (arith, get-insert k j v m, get-insert k j w n, s j, p)
