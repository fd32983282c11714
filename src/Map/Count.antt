-- ===== src/Map/Count.antt =====
-- How the operations change the number of entries whose value passes a test.
use at_pc.Common.{
  ℕ, ◌+◌, ◌≡◌, refl, Bool, true, false, Option, none, some, [], ◌∷◌, arith, Eq, ==_iff, count,
}
use at_pc.Map.{Map, get, remove, insert, modify, values}
use at_pc.Map.Distinct.{Distinct}

abbrev pub bit : Bool → ℕ
bit true = 1
bit false = 0

-- One, if the entry is there and passes.
abbrev pub holds {ℓ} : {V : Type ℓ} → (V → Bool) → Option V → ℕ
holds p none = 0
holds p (some v) = bit (p v)

module _ {ℓ κ} {K : Type ℓ} {V : Type κ} ⦃e : Eq K⦄ where
  pub count-remove :
      (p : V → Bool) (k : K) (m : Map K V)
      → Distinct m
      → count p (values (remove k m)) + holds p (get k m) ≡ count p (values m)
  unfolding get remove values count
  count-remove p k [] d = refl
  count-remove p k ((j, v) ∷ m) d = ground (arith, count-remove p k m d.1, ==_iff j k)

  pub count-insert :
      (p : V → Bool) (k : K) (v : V) (m : Map K V)
      → Distinct m
      → count p (values (insert k v m)) + holds p (get k m) ≡ count p (values m) + bit (p v)
  unfolding insert values count
  count-insert p k v m d = ground (arith, count-remove p k m d)

  modify_absent : (k : K) (f : V → V) (m : Map K V) → get k m ≡ none → modify k f m ≡ m
  unfolding get modify
  modify_absent k f [] a = refl
  modify_absent k f ((j, v) ∷ m) a = ground (arith, modify_absent k f m)

  pub count-modify :
      (p : V → Bool) (k : K) (f : V → V) (m : Map K V) (v : V)
      → Distinct m
      → get k m ≡ some v
      → count p (values (modify k f m)) + bit (p v) ≡ count p (values m) + bit (p (f v))
  unfolding get modify values count
  count-modify p k f [] v d h = ground arith
  count-modify p k f ((j, w) ∷ m) v d h =
      ground (arith, count-modify p k f m v d.1, modify_absent k f m, ==_iff j k)

  pub count-modify_same :
      (p : V → Bool) (k : K) (f : V → V) (m : Map K V)
      → ((v : V) → p (f v) ≡ p v)
      → count p (values (modify k f m)) ≡ count p (values m)
  unfolding modify values count
  count-modify_same p k f [] s = refl
  count-modify_same p k f ((j, w) ∷ m) s = ground (arith, count-modify_same p k f m s, s w)
