-- ===== src/Base/Dict.antt =====
-- A Go map with string keys as an association list. The program ranges over a map only where the
-- order does not matter or is fixed by a sort afterwards.

use mathlib.Core.Path.{◌≡◌, refl, subst₂}
use mathlib.Core.Bool.{Bool, true}
use mathlib.Core.Logic.{◌↔◌, ◌⊎◌, inl, inr}
use mathlib.Core.Option.{Option, none, some}
use mathlib.Core.List.{List, [], ◌∷◌}
use native.Mathlib.Omega.{arith}
use auto_gardener.Base.Tests.{if◌then◌else◌}

-- The key type comes with its Boolean equality.
pub record Key (K : Type 0) : Type 0 where
  pub same : K → K → Bool
  pub same_iff : (a b : K) → (same a b ≡ true) ↔ (a ≡ b)

module _ {ℓ} {K : Type 0} ⦃key : Key K⦄ {V : Type ℓ} where
  unfoldable pub lookup : K → List (K × V) → Option V
  lookup k [] = none
  lookup k ((j, v) ∷ m) = if key.same j k then some v else lookup k m

  -- `m[k] = v` keeps the place of a key that is present.
  unfoldable pub insert : K → V → List (K × V) → List (K × V)
  insert k v [] = (k, v) ∷ []
  insert k v ((j, w) ∷ m) =
      let rest = (j, w) ∷ insert k v m in if key.same j k then (k, v) ∷ m else rest

  -- `delete(m, k)`
  unfoldable pub remove : K → List (K × V) → List (K × V)
  remove k [] = []
  remove k ((j, v) ∷ m) = let rest = remove k m in if key.same j k then rest else (j, v) ∷ rest

  pub lookup-insert :
      (k j : K) (v : V) (m : List (K × V))
      → lookup j (insert k v m) ≡ (if key.same k j then some v else lookup j m)
  unfolding lookup insert
  lookup-insert k j v [] = refl
  lookup-insert k j v ((i, w) ∷ m) =
      ground (arith, key.same_iff k j, key.same_iff i k, key.same_iff i j, lookup-insert k j v m)

  pub lookup-remove :
      (k j : K) (m : List (K × V))
      → lookup j (remove k m) ≡ (if key.same k j then none else lookup j m)
  unfolding lookup remove
  lookup-remove k j [] = ground arith
  lookup-remove k j ((i, w) ∷ m) =
      ground (arith, key.same_iff k j, key.same_iff i k, key.same_iff i j, lookup-remove k j m)

pub same_refl : {K : Type 0} ⦃key : Key K⦄ (k : K) → key.same k k ≡ true
same_refl ⦃key⦄ k = (key.same_iff k k).1 refl

-- Every entry of a map has a property.
abbrev pub AllEntries {ℓ κ} :
    {K : Type 0} ⦃key : Key K⦄ {V : Type ℓ} → (K → V → Type κ) → List (K × V) → Type (ℓ ⊔ κ)
AllEntries {K} {V} P m = (k : K) (v : V) → lookup k m ≡ some v → P k v

module _ {ℓ} {K : Type 0} ⦃key : Key K⦄ {V : Type ℓ} where
  -- An entry after a write is the one written, or was there before.
  insert_cases :
      (k j : K) (v w : V) (m : List (K × V))
      → lookup j (insert k v m) ≡ some w
      → ((k ≡ j) × (v ≡ w)) ⊎ (lookup j m ≡ some w)
  insert_cases k j v w m p = ground (arith, lookup-insert k j v m, key.same_iff k j)

  remove_cases :
      (k j : K) (w : V) (m : List (K × V)) → lookup j (remove k m) ≡ some w → lookup j m ≡ some w
  remove_cases k j w m p = ground (arith, lookup-remove k j m)

module _ {ℓ κ} {K : Type 0} ⦃key : Key K⦄ {V : Type ℓ} (P : K → V → Type κ) where
  pub insert-AllEntries :
      (k : K) (v : V) (m : List (K × V)) → AllEntries P m → P k v → AllEntries P (insert k v m)
  insert-AllEntries k v m all h j w p = elim (insert_cases k j v w m p) [
    | inl (e, f) ↦ subst₂ P e f h
    | inr q ↦ all j w q
  ]

  pub remove-AllEntries : (k : K) (m : List (K × V)) → AllEntries P m → AllEntries P (remove k m)
  remove-AllEntries k m all j w p = all j w (remove_cases k j w m p)
