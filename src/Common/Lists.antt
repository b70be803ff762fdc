-- ===== src/Common/Lists.antt =====
-- Lists under Boolean tests, and predicates on their members.
use Prim.Native.Nat.{ℕ, suc, ◌+◌}
use mathlib.Core.Path.{◌≡◌, refl, ap, subst}
use mathlib.Core.Logic.{inl, inr, ◌⊎◌}
use mathlib.Core.Bool.{Bool, true, false, not, ◌&&◌, ◌||◌}
use mathlib.Core.Option.{Option, none, some}
use mathlib.Core.List.{List, [], ◌∷◌, ◌++◌, map}
use native.Mathlib.Omega.{arith}
use quilons_sentrycode.Common.Tests.{if◌then◌else◌, Bool-cases, Eq, ◌==◌}

module _ {ℓ} {A : Type ℓ} where
  abbrev pub length : List A → ℕ
  length [] = 0
  length (x ∷ xs) = suc (length xs)

  abbrev pub any : (A → Bool) → List A → Bool
  any p [] = false
  any p (x ∷ xs) = p x || any p xs

  abbrev pub all : (A → Bool) → List A → Bool
  all p [] = true
  all p (x ∷ xs) = p x && all p xs

  -- `Array.filter`.
  abbrev pub filter : (A → Bool) → List A → List A
  filter p [] = []
  filter p (x ∷ xs) = if p x then x ∷ filter p xs else filter p xs

  -- `Array.find`.
  abbrev pub find : (A → Bool) → List A → Option A
  find p [] = none
  find p (x ∷ xs) = if p x then some x else find p xs

  abbrev pub is_empty : List A → Bool
  is_empty [] = true
  is_empty (x ∷ xs) = false

module _ {ℓ κ} {A : Type ℓ} where
  abbrev pub All : (A → Type κ) → List A → Type κ
  All P [] = Unit
  All P (x ∷ xs) = P x × All P xs

  -- A member with the property, and where it stands.
  pub data Any (P : A → Type κ) : List A → Type (ℓ ⊔ κ) where
    here : {x : A} {xs : List A} → P x → Any P (x ∷ xs)
    there : {x : A} {xs : List A} → Any P xs → Any P (x ∷ xs)

module _ {ℓ κ} {A : Type ℓ} where
  pub All-append : (P : A → Type κ) (xs ys : List A) → All P xs → All P ys → All P (xs ++ ys)
  All-append P [] ys h k = k
  All-append P (x ∷ xs) ys h k = (h.0, All-append P xs ys h.1 k)

  pub All-map {μ} :
      (P : A → Type κ) (Q : A → Type μ)
      → ((a : A) → P a → Q a)
      → (xs : List A) → All P xs
      → All Q xs
  All-map P Q f [] h = tt
  All-map P Q f (x ∷ xs) h = (f x h.0, All-map P Q f xs h.1)

  pub All-filter : (P : A → Type κ) (p : A → Bool) (xs : List A) → All P xs → All P (filter p xs)
  All-filter P p [] h = tt
  All-filter P p (x ∷ xs) h = elim (Bool-cases (p x)) [
    | inl yes' ↦ rw yes' (h.0, All-filter P p xs h.1)
    | inr no' ↦ rw no' (All-filter P p xs h.1)
  ]

  pub filter-Any :
      (P : A → Type κ) (p : A → Bool)
      → ((a : A) → P a → p a ≡ true)
      → (xs : List A) → Any P xs
      → Any P (filter p xs)
  filter-Any P p f [] h = elim h [ ]
  filter-Any P p f (x ∷ xs) (here h) = rw (f x h) (here h)
  filter-Any P p f (x ∷ xs) (there t) = elim (Bool-cases (p x)) [
    | inl hit ↦ rw hit (there (filter-Any P p f xs t))
    | inr miss ↦ rw miss (filter-Any P p f xs t)
  ]

  pub Any-map {μ} :
      (P : A → Type κ) (Q : A → Type μ)
      → ((a : A) → P a → Q a)
      → {xs : List A} → Any P xs
      → Any Q xs
  Any-map P Q f (here h) = here (f _ h)
  Any-map P Q f (there t) = there (Any-map P Q f t)

  pub All-Any {μ} :
      (P : A → Type κ) (Q : A → Type μ) {xs : List A}
      → Any P xs
      → All Q xs
      → Any (λ a. P a × Q a) xs
  All-Any P Q (here h) q = here (h, q.0)
  All-Any P Q (there t) q = there (All-Any P Q t q.1)

module _ {ℓ} {A : Type ℓ} where
  pub any_sound : (p : A → Bool) (xs : List A) → any p xs ≡ true → Any (λ a. p a ≡ true) xs
  any_sound p [] h = absurd (cc)
  any_sound p (x ∷ xs) h = elim (Bool-cases (p x)) [
    | inl hit ↦ here hit
    | inr miss ↦ there (any_sound p xs (ground arith))
  ]

  pub any_complete : (p : A → Bool) (xs : List A) → Any (λ a. p a ≡ true) xs → any p xs ≡ true
  any_complete p [] h = elim h [ ]
  any_complete p (x ∷ xs) (here h) = ground arith
  any_complete p (x ∷ xs) (there t) = ground (arith, any_complete p xs t)

  pub all_sound : (p : A → Bool) (xs : List A) → all p xs ≡ true → All (λ a. p a ≡ true) xs
  all_sound p [] h = tt
  all_sound p (x ∷ xs) h = (ground arith, all_sound p xs (ground arith))

  pub filter-All : (p : A → Bool) (xs : List A) → All (λ a. p a ≡ true) (filter p xs)
  filter-All p [] = tt
  filter-All p (x ∷ xs) = elim (Bool-cases (p x)) [
    | inl hit ↦ rw hit (hit, filter-All p xs)
    | inr miss ↦ rw miss (filter-All p xs)
  ]

  pub filter-nil : (p : A → Bool) (xs : List A) → is_empty (filter p xs) ≡ not (any p xs)
  filter-nil p [] = refl
  filter-nil p (x ∷ xs) = ground (arith, filter-nil p xs)

  pub length-append : (xs ys : List A) → length (xs ++ ys) ≡ length xs + length ys
  length-append [] ys = omega arith
  length-append (x ∷ xs) ys = omega (arith, length-append xs ys)

  pub length-map {κ} : {B : Type κ} (f : A → B) (xs : List A) → length (map f xs) ≡ length xs
  length-map f [] = refl
  length-map f (x ∷ xs) = ap suc (length-map f xs)

pub filter-member {ℓ} :
    {A : Type ℓ} (p : A → Bool) (xs : List A) (a : A)
    → Any (λ x. x ≡ a) (filter p xs)
    → Any (λ x. x ≡ a) xs × (p a ≡ true)
filter-member p [] a h = elim h [ ]
filter-member p (x ∷ xs) a h = by_test (Bool-cases (p x)) (λ t. filter-member p xs a t)
  where
    first :
        p x ≡ true
        → (Any (λ y. y ≡ a) (filter p xs) → Any (λ y. y ≡ a) xs × (p a ≡ true))
        → Any (λ y. y ≡ a) (x ∷ filter p xs)
        → Any (λ y. y ≡ a) (x ∷ xs) × (p a ≡ true)
    first hit next (here e) = (here e, subst (λ y. p y ≡ true) e hit)
    first hit next (there t) = (there (next t).0, (next t).1)

    by_test :
        (p x ≡ true) ⊎ (p x ≡ false)
        → (Any (λ y. y ≡ a) (filter p xs) → Any (λ y. y ≡ a) xs × (p a ≡ true))
        → Any (λ y. y ≡ a) (x ∷ xs) × (p a ≡ true)
    by_test (inl hit) next = first hit next (rw hit at h)
    by_test (inr miss) next = let t = next (rw miss at h) in (there t.0, t.1)

-- `Array.includes` and `Set.has`.
module _ {ℓ} {A : Type ℓ} ⦃e : Eq A⦄ where
  abbrev pub includes : List A → A → Bool
  includes [] a = false
  includes (x ∷ xs) a = x == a || includes xs a

  pub includes_sound : (xs : List A) (a : A) → includes xs a ≡ true → Any (λ x. x ≡ a) xs
  includes_sound [] a h = absurd (cc)
  includes_sound (x ∷ xs) a h = elim (Bool-cases (x == a)) [
    | inl hit ↦ here ((e.beq_iff x a).0 hit)
    | inr miss ↦ there (includes_sound xs a (ground arith))
  ]

  pub includes_complete : (xs : List A) (a : A) → Any (λ x. x ≡ a) xs → includes xs a ≡ true
  includes_complete [] a h = elim h [ ]
  includes_complete (x ∷ xs) a (here h) = ground (arith, (e.beq_iff x a).1 h)
  includes_complete (x ∷ xs) a (there t) = ground (arith, includes_complete xs a t)

  pub includes-append :
      (xs ys : List A) (a : A) → includes (xs ++ ys) a ≡ (includes xs a || includes ys a)
  includes-append [] ys a = refl
  includes-append (x ∷ xs) ys a = ground (arith, includes-append xs ys a)

  -- The order in which a `Set` lists what was added to it.
  abbrev pub distinct_from : List A → List A → List A
  distinct_from seen [] = seen
  distinct_from seen (x ∷ xs) = distinct_from (if includes seen x then seen else seen ++ x ∷ []) xs

  abbrev pub distinct : List A → List A
  distinct xs = distinct_from [] xs

  pub includes-distinct_from :
      (seen xs : List A) (a : A)
      → includes (distinct_from seen xs) a ≡ (includes seen a || includes xs a)
  includes-distinct_from seen [] a = ground arith
  includes-distinct_from seen (x ∷ xs) a = elim (Bool-cases (includes seen x)) [
    | inl old ↦ rw old (elim (Bool-cases (x == a)) [
      | inl same ↦
          let eq : x ≡ a = (e.beq_iff x a).0 same in
          ground (arith, includes-distinct_from seen xs a, ap (includes seen) eq)
      | inr other ↦ ground (arith, includes-distinct_from seen xs a)
    ])
    | inr new ↦ rw new (
        ground
          (arith, includes-distinct_from (seen ++ x ∷ []) xs a, includes-append seen (x ∷ []) a))
  ]

  pub includes-distinct : (xs : List A) (a : A) → includes (distinct xs) a ≡ includes xs a
  includes-distinct xs a = includes-distinct_from [] xs a
