-- ===== src/Configuration/Outcome.antt =====
-- src/config/load.ts: what the loader returns or throws. A SyntaxError is told from other errors.
use quilons_sentrycode.Common.{◌≡◌, refl, Bool, true, false, String}

pub data Thrown : Type 0 where
  error : String → Thrown
  syntax_error : String → Thrown

pub data Outcome {ℓ} (A : Type ℓ) : Type ℓ where
  returned : A → Outcome A
  thrown : Thrown → Outcome A

module _ {ℓ κ} {A : Type ℓ} {B : Type κ} where
  infixl 5 ◌>>=◌
  abbrev pub ◌>>=◌ : Outcome A → (A → Outcome B) → Outcome B
  thrown e >>= next = thrown e
  returned a >>= next = next a

  -- Inversion of a chain that returned.
  pub >>=-eq-returned :
      (first : Outcome A) (next : A → Outcome B) {result : B}
      → (first >>= next) ≡ returned result
      → (a : A) × (first ≡ returned a) × (next a ≡ returned result)
  >>=-eq-returned (thrown e) next h = cc
  >>=-eq-returned (returned a) next h = (a, refl, h)

infixl 5 ◌>>◌
abbrev pub ◌>>◌ {ℓ} : {B : Type ℓ} → Outcome (Unit {0}) → Outcome B → Outcome B
check >> rest = check >>= λ _. rest

-- `throw new Error(message)`.
abbrev pub fault {ℓ} : {A : Type ℓ} → String → Outcome A
fault message = thrown (error message)

abbrev pub refuse_if : Bool → String → Outcome (Unit {0})
refuse_if true message = fault message
refuse_if false message = returned tt

pub refuse_if-eq-returned {ℓ} :
    {B : Type ℓ} (b : Bool) (message : String) (rest : Outcome B) {r : B}
    → (refuse_if b message >> rest) ≡ returned r
    → (b ≡ false) × (rest ≡ returned r)
refuse_if-eq-returned true message rest h = cc
refuse_if-eq-returned false message rest h = (refl, h)

pub returned-injective {ℓ} : {A : Type ℓ} {a b : A} → returned a ≡ returned b → a ≡ b
returned-injective h = cc
