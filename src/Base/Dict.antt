-- ===== src/Base/Dict.antt =====
-- Go maps as association lists; the order of the list is the order of an iteration.
use mathlib.Core.Path.{◌≡◌, refl}
use mathlib.Core.Option.{Option, none, some}
use mathlib.Core.List.{List, [], ◌∷◌}
use native.Mathlib.Omega.{arith}
use go_firecracker_container.Base.Equality.{Eq, ◌==◌, if◌then◌else◌}

abbrev pub Dict {ℓ κ} : Type ℓ → Type κ → Type (ℓ ⊔ κ)
Dict K V = List (K × V)

unfoldable pub keys {ℓ κ} : {K : Type ℓ} {V : Type κ} → Dict K V → List K
keys [] = []
keys ((k, v) ∷ m) = k ∷ keys m

module _ {ℓ κ} {K : Type ℓ} {V : Type κ} ⦃e : Eq K⦄ where
  -- `v, ok := m[k]`
  unfoldable pub lookup : K → Dict K V → Option V
  lookup k [] = none
  lookup k ((j, v) ∷ m) = if k == j then some v else lookup k m

  -- `m[k] = v`
  unfoldable pub insert : K → V → Dict K V → Dict K V
  insert k v [] = (k, v) ∷ []
  insert k v ((j, w) ∷ m) = if k == j then (k, v) ∷ m else (j, w) ∷ insert k v m

  -- `delete(m, k)`
  unfoldable pub delete : K → Dict K V → Dict K V
  delete k [] = []
  delete k ((j, v) ∷ m) = let rest = delete k m in if k == j then rest else (j, v) ∷ rest

  pub lookup-insert :
      (j k : K) (v : V) (m : Dict K V)
      → lookup j (insert k v m) ≡ (if j == k then some v else lookup j m)
  unfolding insert lookup
  lookup-insert j k v [] = refl
  lookup-insert j k v (_ ∷ m) = ground (arith, lookup-insert j k v m)

  pub lookup-delete :
      (j k : K) (m : Dict K V) → lookup j (delete k m) ≡ (if j == k then none else lookup j m)
  unfolding delete lookup
  lookup-delete j k [] = ground arith
  lookup-delete j k (_ ∷ m) = ground (arith, lookup-delete j k m)
