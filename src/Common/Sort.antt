-- ===== src/Common/Sort.antt =====
-- `Array.prototype.sort`, which is stable, for a comparison `leb a b` that says whether `a` may
-- stay before `b`.
use mathlib.Core.Path.{◌≡◌, refl}
use mathlib.Core.Logic.{◌⊎◌, inl, inr}
use mathlib.Core.Bool.{Bool, true, ◌||◌}
use mathlib.Core.List.{List, [], ◌∷◌, Perm}
use mathlib.Core.List.Perm
use native.Mathlib.Omega.{arith}
use quilons_sentrycode.Common.Tests.{if◌then◌else◌, Bool-cases, Eq, ◌==◌}
use quilons_sentrycode.Common.Lists.{All, Any, here, there, All-map, includes}

module _ {ℓ} {A : Type ℓ} (before : A → A → Bool) where
  unfoldable pub insert : A → List A → List A
  insert x [] = x ∷ []
  insert x (y ∷ ys) = if before x y then x ∷ (y ∷ ys) else y ∷ insert x ys

  unfoldable pub sort : List A → List A
  unfolding insert
  sort [] = []
  sort (x ∷ xs) = insert x (sort xs)

  abbrev pub IsSorted : List A → Type ℓ
  IsSorted [] = Unit
  IsSorted (x ∷ xs) = All (λ y. before x y ≡ true) xs × IsSorted xs

  insert-perm : (x : A) (ys : List A) → Perm (insert x ys) (x ∷ ys)
  unfolding insert
  insert-perm x [] = Perm.refl _
  insert-perm x (y ∷ ys) = elim (Bool-cases (before x y)) [
    | inl h ↦ rw h (Perm.refl _)
    | inr h ↦ rw h (Perm.trans (Perm.cons y (insert-perm x ys)) (Perm.swap x y ys))
  ]

  pub sort-perm : (xs : List A) → Perm (sort xs) xs
  unfolding sort
  sort-perm [] = Perm.refl _
  sort-perm (x ∷ xs) = Perm.trans (insert-perm x (sort xs)) (Perm.cons x (sort-perm xs))

  insert-All {κ} : (P : A → Type κ) (x : A) (ys : List A) → P x → All P ys → All P (insert x ys)
  unfolding insert
  insert-All P x [] h k = (h, tt)
  insert-All P x (y ∷ ys) h k = elim (Bool-cases (before x y)) [
    | inl b ↦ rw b (h, k)
    | inr b ↦ rw b (k.0, insert-All P x ys h k.1)
  ]

  pub sort-All {κ} : (P : A → Type κ) (xs : List A) → All P xs → All P (sort xs)
  unfolding sort
  sort-All P [] h = tt
  sort-All P (x ∷ xs) h = insert-All P x (sort xs) h.0 (sort-All P xs h.1)

  insert-Any {κ} : (P : A → Type κ) (x : A) (ys : List A) → Any P (x ∷ ys) → Any P (insert x ys)
  unfolding insert
  insert-Any P x [] h = h
  insert-Any P x (y ∷ ys) (here h) = elim (Bool-cases (before x y)) [
    | inl b ↦ rw b (here h)
    | inr b ↦ rw b (there (insert-Any P x ys (here h)))
  ]
  insert-Any P x (y ∷ ys) (there (here h)) = elim (Bool-cases (before x y)) [
    | inl b ↦ rw b (there (here h))
    | inr b ↦ rw b (here h)
  ]
  insert-Any P x (y ∷ ys) (there (there t)) = elim (Bool-cases (before x y)) [
    | inl b ↦ rw b (there (there t))
    | inr b ↦ rw b (there (insert-Any P x ys (there t)))
  ]

  pub sort-Any {κ} : (P : A → Type κ) (xs : List A) → Any P xs → Any P (sort xs)
  unfolding sort
  sort-Any P [] h = elim h [ ]
  sort-Any P (x ∷ xs) (here h) = insert-Any P x (sort xs) (here h)
  sort-Any P (x ∷ xs) (there t) = insert-Any P x (sort xs) (there (sort-Any P xs t))

  module _ (total : (a b : A) → (before a b ≡ true) ⊎ (before b a ≡ true))
      (trans : (a b c : A) → before a b ≡ true → before b c ≡ true → before a c ≡ true) where
    insert-IsSorted : (x : A) (ys : List A) → IsSorted ys → IsSorted (insert x ys)
    unfolding insert
    insert-IsSorted x [] h = (tt, tt)
    insert-IsSorted x (y ∷ ys) (h, hs) = elim (Bool-cases (before x y)) [
      | inl b ↦ rw b ((b, All-map _ _ (λ z. trans x y z b) ys h), (h, hs))
      | inr b ↦ rw b (
        insert-All (λ z. before y z ≡ true) x ys (ground (arith, total x y)) h,
        insert-IsSorted x ys hs,
      )
    ]

    pub sort-IsSorted : (xs : List A) → IsSorted (sort xs)
    unfolding sort
    sort-IsSorted [] = tt
    sort-IsSorted (x ∷ xs) = insert-IsSorted x (sort xs) (sort-IsSorted xs)

module _ {ℓ} {A : Type ℓ} ⦃e : Eq A⦄ (before : A → A → Bool) where
  includes-insert :
      (x : A) (ys : List A) (a : A) → includes (insert before x ys) a ≡ ((x == a) || includes ys a)
  unfolding insert
  includes-insert x [] a = refl
  includes-insert x (y ∷ ys) a = ground (arith, includes-insert x ys a)

  -- Sorting keeps the members.
  pub includes-sort : (xs : List A) (a : A) → includes (sort before xs) a ≡ includes xs a
  unfolding sort
  includes-sort [] a = refl
  includes-sort (x ∷ xs) a =
      ground (arith, includes-insert x (sort before xs) a, includes-sort xs a)
