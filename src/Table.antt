-- ===== src/Table.antt =====
-- Go maps as association lists: `m[k]`, `m[k] = v`, `delete(m, k)`, `len(m) == 0` and `range m`.
-- A `range` visits the entries in the order of the list; Go leaves that order open.
use passfs.Prelude.{
  Equality, ◌==◌, ◌≡◌, refl, Option, none, some, List, [], ◌∷◌, arith, if◌then◌else◌,
}

abbrev pub Table {ℓ κ} : Type ℓ → Type κ → Type (ℓ ⊔ κ)
Table K V = List (K × V)

module _ {ℓ κ} {K : Type ℓ} {V : Type κ} ⦃e : Equality K⦄ where
  unfoldable pub lookup : K → Table K V → Option V
  lookup key [] = none
  lookup key ((k, value) ∷ rest) = if k == key then some value else lookup key rest

  -- An assignment replaces the entry in place, or adds one at the end.
  unfoldable pub insert : K → V → Table K V → Table K V
  insert key value [] = (key, value) ∷ []
  insert key value ((k, old) ∷ rest) =
      if k == key then (key, value) ∷ rest else (k, old) ∷ insert key value rest

  unfoldable pub delete : K → Table K V → Table K V
  delete k [] = []
  delete k ((j, w) ∷ m) = let rest = delete k m in if j == k then rest else (j, w) ∷ rest

  pub lookup-insert :
      (key j : K) (value : V) (m : Table K V)
      → lookup j (insert key value m) ≡ (if key == j then some value else lookup j m)
  unfolding lookup insert
  lookup-insert key j value [] = refl
  lookup-insert key j value ((k, old) ∷ rest) =
      ground
        (arith, e.beq_iff key j, e.beq_iff k key, e.beq_iff k j, lookup-insert key j value rest)

  pub lookup-delete :
      (k j : K) (m : Table K V) → lookup j (delete k m) ≡ (if k == j then none else lookup j m)
  unfolding lookup delete
  lookup-delete k j [] = ground arith
  lookup-delete k j ((i, w) ∷ m) =
      ground (arith, e.beq_iff k j, e.beq_iff i k, e.beq_iff i j, lookup-delete k j m)

  pub lookup-empty : (k : K) → lookup k [] ≡ none
  unfolding lookup
  lookup-empty k = refl
