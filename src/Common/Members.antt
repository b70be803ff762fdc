-- ===== src/Common/Members.antt =====
-- Members of appended and mapped lists.
use mathlib.Core.Path.{◌≡◌, refl}
use mathlib.Core.Bool.{Bool, true, false}
use mathlib.Core.List.{List, [], ◌∷◌, ◌++◌, map}
use quilons_sentrycode.Common.Lists.{All, Any, here, there, All-map, filter}
use quilons_sentrycode.Common.Tests.{Bool-cases}
use mathlib.Core.Logic.{inl, inr, ◌⊎◌}

module _ {ℓ κ} {A : Type ℓ} (P : A → Type κ) where
  pub Any-left : (xs ys : List A) → Any P xs → Any P (xs ++ ys)
  Any-left [] ys h = elim h [ ]
  Any-left (x ∷ xs) ys (here h) = here h
  Any-left (x ∷ xs) ys (there t) = there (Any-left xs ys t)

  pub Any-right : (xs ys : List A) → Any P ys → Any P (xs ++ ys)
  Any-right [] ys h = h
  Any-right (x ∷ xs) ys h = there (Any-right xs ys h)

-- The image of a member.
pub Any-split {ℓ κ} :
    {A : Type ℓ} (P : A → Type κ) (xs ys : List A) → Any P (xs ++ ys) → Any P xs ⊎ Any P ys
Any-split P [] ys h = inr h
Any-split P (x ∷ xs) ys (here h) = inl (here h)
Any-split P (x ∷ xs) ys (there t) = elim (Any-split P xs ys t) [
  | inl left ↦ inl (there left)
  | inr right ↦ inr right
]

pub Any-image {ℓ κ μ} :
    {A : Type ℓ} {B : Type κ} (Q : B → Type μ) (f : A → B) (xs : List A)
    → Any (λ x. Q (f x)) xs
    → Any Q (map f xs)
Any-image Q f [] h = elim h [ ]
Any-image Q f (x ∷ xs) (here h) = here h
Any-image Q f (x ∷ xs) (there t) = there (Any-image Q f xs t)

-- Every member is a member.
pub All-members {ℓ} : {A : Type ℓ} (xs : List A) → All (λ x. Any (λ y. y ≡ x) xs) xs
All-members [] = tt
All-members (x ∷ xs) = (
  here refl,
  All-map (λ a. Any (λ y. y ≡ a) xs) (λ a. Any (λ y. y ≡ a) (x ∷ xs)) (λ a t. there t) xs
      (All-members xs),
)

-- Nothing is kept where every member fails the test.
pub filter-none {ℓ} :
    {A : Type ℓ} (p : A → Bool) (xs : List A) → All (λ a. p a ≡ false) xs → filter p xs ≡ []
filter-none p [] h = refl
filter-none p (x ∷ xs) h = rw h.0 (filter-none p xs h.1)

-- What is kept passes the test.
pub All-filter_kept {ℓ κ μ} :
    {A : Type ℓ} (P : A → Type κ) (Q : A → Type μ) (p : A → Bool)
    → ((a : A) → p a ≡ true → P a → Q a)
    → (xs : List A) → All P xs
    → All Q (filter p xs)
All-filter_kept P Q p f [] h = tt
All-filter_kept P Q p f (x ∷ xs) h = elim (Bool-cases (p x)) [
  | inl yes' ↦ rw yes' (f x yes' h.0, All-filter_kept P Q p f xs h.1)
  | inr no' ↦ rw no' (All-filter_kept P Q p f xs h.1)
]
