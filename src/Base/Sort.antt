-- ===== src/Base/Sort.antt =====
-- `sort.Slice` as an insertion sort, which is stable; the order that Go leaves open among equal
-- elements is the order of arrival here.
use mathlib.Core.Path.{◌≡◌, ◌∙◌, ap, refl}
use mathlib.Core.Bool.{Bool, true, false}
use mathlib.Core.Logic.{inl, inr}
use mathlib.Core.List.{List, [], ◌∷◌, Perm}
use mathlib.Core.List.Perm
use Prim.Native.Nat.{suc}
use auto_gardener.Base.Tests.{if◌then◌else◌, if_elim, Bool-cases}
use auto_gardener.Base.Lists.{All, length}

module _ {ℓ} {A : Type ℓ} (less : A → A → Bool) where
  -- `x` goes before the first element that is not less than it.
  unfoldable pub insert_sorted : A → List A → List A
  insert_sorted x [] = x ∷ []
  insert_sorted x (y ∷ ys) =
      let later = y ∷ insert_sorted x ys in if less y x then later else x ∷ y ∷ ys

  unfoldable pub sort_by : List A → List A
  unfolding insert_sorted
  sort_by [] = []
  sort_by (x ∷ xs) = insert_sorted x (sort_by xs)

  insert_sorted-perm : (x : A) (ys : List A) → Perm (insert_sorted x ys) (x ∷ ys)
  unfolding insert_sorted
  insert_sorted-perm x [] = Perm.refl (x ∷ [])
  insert_sorted-perm x (y ∷ ys) = elim (Bool-cases (less y x)) [
    | inl e ↦ rw e (Perm.trans (Perm.cons y (insert_sorted-perm x ys)) (Perm.swap x y ys))
    | inr e ↦ rw e (Perm.refl (x ∷ y ∷ ys))
  ]

  -- Sorting loses nothing and adds nothing.
  pub sort_by-perm : (xs : List A) → Perm (sort_by xs) xs
  unfolding sort_by
  sort_by-perm [] = Perm.refl []
  sort_by-perm (x ∷ xs) =
      Perm.trans (insert_sorted-perm x (sort_by xs)) (Perm.cons x (sort_by-perm xs))

  -- No element is less than one that stands before it.
  abbrev pub IsSorted : List A → Type 0
  IsSorted [] = Unit
  IsSorted (x ∷ xs) = All (λ y. less y x ≡ false) xs × IsSorted xs

  module _ (asym : (x y : A) → less x y ≡ true → less y x ≡ false)
      (negtrans : (x y z : A) → less x y ≡ false → less y z ≡ false → less x z ≡ false) where
    insert_sorted-All :
        (x z : A) (ys : List A)
        → less x z ≡ false
        → All (λ y. less y z ≡ false) ys
        → All (λ y. less y z ≡ false) (insert_sorted x ys)
    unfolding insert_sorted
    insert_sorted-All x z [] h a = (h, tt)
    insert_sorted-All x z (y ∷ ys) h a = elim (Bool-cases (less y x)) [
      | inl e ↦ rw e (a.0, insert_sorted-All x z ys h a.1)
      | inr e ↦ rw e (h, a)
    ]

    after-All :
        (x y : A) (ys : List A)
        → less y x ≡ false
        → All (λ w. less w y ≡ false) ys
        → All (λ w. less w x ≡ false) ys
    after-All x y [] h a = tt
    after-All x y (w ∷ ws) h a = (negtrans w y x a.0 h, after-All x y ws h a.1)

    insert_sorted-IsSorted : (x : A) (ys : List A) → IsSorted ys → IsSorted (insert_sorted x ys)
    unfolding insert_sorted
    insert_sorted-IsSorted x [] h = (tt, tt)
    insert_sorted-IsSorted x (y ∷ ys) h = elim (Bool-cases (less y x)) [
      | inl e ↦ rw e (insert_sorted-All x y ys (asym y x e) h.0, insert_sorted-IsSorted x ys h.1)
      | inr e ↦ rw e ((e, after-All x y ys e h.0), h)
    ]

    pub sort_by-IsSorted : (xs : List A) → IsSorted (sort_by xs)
    unfolding sort_by
    sort_by-IsSorted [] = tt
    sort_by-IsSorted (x ∷ xs) = insert_sorted-IsSorted x (sort_by xs) (sort_by-IsSorted xs)

-- What holds of every element of the sorted list holds of every element of the list.
module _ {ℓ κ} {A : Type ℓ} (less : A → A → Bool) (P : A → Type κ) where
  All-insert_sorted : (x : A) (ys : List A) → All P (insert_sorted less x ys) → P x × All P ys
  unfolding insert_sorted
  All-insert_sorted x [] h = (h.0, tt)
  All-insert_sorted x (y ∷ ys) h = choose (less y x) (λ k. All-insert_sorted x ys k) h
    where
      choose :
          (b : Bool)
          → (All P (insert_sorted less x ys) → P x × All P ys)
          → All P (if b then y ∷ insert_sorted less x ys else x ∷ y ∷ ys)
          → P x × (P y × All P ys)
      choose true ih k = let (p, q) = ih k.1 in (p, (k.0, q))
      choose false ih k = (k.0, k.1)

  pub All-sort_by : (xs : List A) → All P (sort_by less xs) → All P xs
  unfolding sort_by
  All-sort_by [] h = tt
  All-sort_by (x ∷ xs) h =
      let (p, q) = All-insert_sorted x (sort_by less xs) h in (p, All-sort_by xs q)

-- What holds of every element of a list holds of every element of the sorted list.
module _ {ℓ κ} {A : Type ℓ} (less : A → A → Bool) (P : A → Type κ) where
  insert_sorted_keeps : (x : A) (ys : List A) → P x → All P ys → All P (insert_sorted less x ys)
  unfolding insert_sorted
  insert_sorted_keeps x [] p h = (p, h)
  insert_sorted_keeps x (y ∷ ys) p h =
      if_elim (All P) (less y x) _ _ (h.0, insert_sorted_keeps x ys p h.1) (p, h)

  pub sort_by-All : (xs : List A) → All P xs → All P (sort_by less xs)
  unfolding sort_by
  sort_by-All [] h = h
  sort_by-All (x ∷ xs) h = insert_sorted_keeps x (sort_by less xs) h.0 (sort_by-All xs h.1)

module _ {ℓ} {A : Type ℓ} (less : A → A → Bool) where
  length-insert_sorted : (x : A) (ys : List A) → length (insert_sorted less x ys) ≡ suc (length ys)
  unfolding insert_sorted
  length-insert_sorted x [] = refl
  length-insert_sorted x (y ∷ ys) =
      if_elim (λ (zs : List A). length zs ≡ suc (suc (length ys))) (less y x) _ _
        (ap suc (length-insert_sorted x ys)) refl

  pub length-sort_by : (xs : List A) → length (sort_by less xs) ≡ length xs
  unfolding sort_by
  length-sort_by [] = refl
  length-sort_by (x ∷ xs) = length-insert_sorted x (sort_by less xs) ∙ ap suc (length-sort_by xs)
