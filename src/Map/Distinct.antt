-- ===== src/Map/Distinct.antt =====
-- A hash map holds each key once: every operation keeps that, and then `retain` can be read off
-- through `get`.
use at_pc.Common.{
  ◌≡◌, refl, Bool, Option, none, some, [], ◌∷◌, arith, Eq, ==_iff, ==_self, if◌then◌else◌,
}
use at_pc.Map.{Map, get, remove, insert, modify, retain}
use at_pc.Map.Laws.{get-remove, get-modify}

module _ {ℓ κ} {K : Type ℓ} {V : Type κ} ⦃e : Eq K⦄ where
  abbrev pub Distinct : Map K V → Type κ
  Distinct [] = Unit
  Distinct ((k, v) ∷ m) = (get k m ≡ none) × Distinct m

  -- What a filter leaves at a key.
  abbrev pub kept : (K → V → Bool) → K → Option V → Option V
  kept p k none = none
  kept p k (some v) = if p k v then some v else none

  pub get-retain :
      (p : K → V → Bool) (j : K) (m : Map K V)
      → Distinct m
      → get j (retain p m) ≡ kept p j (get j m)
  unfolding get retain
  get-retain p j [] d = refl
  get-retain p j ((k, v) ∷ m) d = ground (arith, get-retain p j m d.1, ==_iff k j)

  pub remove-Distinct : (k : K) (m : Map K V) → Distinct m → Distinct (remove k m)
  unfolding remove
  remove-Distinct k [] d = tt
  remove-Distinct k ((j, v) ∷ m) d = ground (arith, remove-Distinct k m d.1, get-remove k j m)

  pub insert-Distinct : (k : K) (v : V) (m : Map K V) → Distinct m → Distinct (insert k v m)
  unfolding insert
  insert-Distinct k v m d = ground (arith, remove-Distinct k m d, get-remove k k m, ==_self k)

  pub modify-Distinct : (k : K) (f : V → V) (m : Map K V) → Distinct m → Distinct (modify k f m)
  unfolding modify
  modify-Distinct k f [] d = tt
  modify-Distinct k f ((j, v) ∷ m) d = ground (arith, modify-Distinct k f m d.1, get-modify k j f m)

  pub retain-Distinct : (p : K → V → Bool) (m : Map K V) → Distinct m → Distinct (retain p m)
  unfolding retain
  retain-Distinct p [] d = tt
  retain-Distinct p ((k, v) ∷ m) d = ground (arith, retain-Distinct p m d.1, get-retain p k m d.1)
