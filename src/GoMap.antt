-- ===== src/GoMap.antt =====
-- Go's maps as association lists. Assigning to a key replaces its entry or adds one at the end;
-- the order of a list stands for no order of the map: code that ranges over a map takes the
-- order as an argument.
use gopl.Prelude.{◌≡◌, refl, Option, none, some, List, [], ◌∷◌, arith, if◌then◌else◌, length}
use gopl.Keys.{Eq, ◌=?◌, =?_refl}

abbrev pub GoMap {ℓ κ} : Type ℓ → Type κ → Type (ℓ ⊔ κ)
GoMap K V = List (K × V)

module _ {ℓ κ} {K : Type ℓ} {V : Type κ} ⦃e : Eq K⦄ where
  -- m[k]: `none` where the key is missing.
  unfoldable pub lookup : K → GoMap K V → Option V
  lookup k [] = none
  lookup k ((j, v) ∷ m) = if j =? k then some v else lookup k m

  -- m[k] = v
  unfoldable pub assign : K → V → GoMap K V → GoMap K V
  assign k v [] = (k, v) ∷ []
  assign k v ((j, w) ∷ m) = if j =? k then (j, v) ∷ m else (j, w) ∷ assign k v m

  -- delete(m, k)
  unfoldable pub delete : K → GoMap K V → GoMap K V
  delete k [] = []
  delete k ((j, w) ∷ m) = if j =? k then delete k m else (j, w) ∷ delete k m

  pub lookup-assign :
      (k j : K) (v : V) (m : GoMap K V)
      → lookup j (assign k v m) ≡ (if k =? j then some v else lookup j m)
  unfolding lookup assign
  lookup-assign k j v [] = refl
  lookup-assign k j v ((i, w) ∷ m) =
      ground (arith, e.beq_iff k j, e.beq_iff i k, e.beq_iff i j, lookup-assign k j v m)

  pub lookup-delete :
      (k j : K) (m : GoMap K V) → lookup j (delete k m) ≡ (if k =? j then none else lookup j m)
  unfolding lookup delete
  lookup-delete k j [] = ground arith
  lookup-delete k j ((i, w) ∷ m) =
      ground (arith, e.beq_iff k j, e.beq_iff i k, e.beq_iff i j, lookup-delete k j m)

  pub lookup-assign_self : (k : K) (v : V) (m : GoMap K V) → lookup k (assign k v m) ≡ some v
  lookup-assign_self k v m = rw (lookup-assign k k v m, =?_refl k)

  -- Assigning to a key that is there keeps the number of entries.
  pub length-assign :
      (k : K) (v w : V) (m : GoMap K V) → lookup k m ≡ some w → length (assign k v m) ≡ length m
  unfolding lookup assign
  length-assign k v w [] h = ground arith
  length-assign k v w ((j, u) ∷ m) h = ground (arith, length-assign k v w m)
