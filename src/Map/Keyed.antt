-- ===== src/Map/Keyed.antt =====
-- What holds of every key with its value, under the operations of a map.
use at_pc.Common.{[], ◌∷◌, Eq, ◌==◌, Bool-cases, inl, inr}
use at_pc.Map.{Map, remove, insert, modify}

module _ {ℓ κ μ} {K : Type ℓ} {V : Type κ} (P : K → V → Type μ) where
  abbrev pub Keyed : Map K V → Type μ
  Keyed [] = Unit
  Keyed ((k, v) ∷ m) = P k v × Keyed m

module _ {ℓ κ μ} {K : Type ℓ} {V : Type κ} (P : K → V → Type μ) ⦃e : Eq K⦄ where
  pub remove-Keyed : (k : K) (m : Map K V) → Keyed P m → Keyed P (remove k m)
  unfolding remove
  remove-Keyed k [] h = tt
  remove-Keyed k ((j, v) ∷ m) h = elim (Bool-cases (j == k)) [
    | inl p ↦ rw (remove, p) (remove-Keyed k m h.1)
    | inr p ↦ rw (remove, p) (h.0, remove-Keyed k m h.1)
  ]

  pub insert-Keyed : (k : K) (v : V) (m : Map K V) → P k v → Keyed P m → Keyed P (insert k v m)
  unfolding insert
  insert-Keyed k v m p h = (p, remove-Keyed k m h)

  pub modify-Keyed :
      (k : K) (f : V → V) (m : Map K V)
      → ((j : K) (v : V) → P j v → P j (f v))
      → Keyed P m
      → Keyed P (modify k f m)
  unfolding modify
  modify-Keyed k f [] u h = tt
  modify-Keyed k f ((j, v) ∷ m) u h = elim (Bool-cases (j == k)) [
    | inl p ↦ rw (modify, p) (u j v h.0, modify-Keyed k f m u h.1)
    | inr p ↦ rw (modify, p) (h.0, modify-Keyed k f m u h.1)
  ]
