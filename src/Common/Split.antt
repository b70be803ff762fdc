-- ===== src/Common/Split.antt =====
-- `text.split(separator)` for a separator of one character, given as a test of its code.
use Prim.Native.Char.{Char, code}
use Prim.Native.String.append
use Prim.Native.String.{String}
use Prim.Native.Nat.{ℕ}
use mathlib.Core.Path.{◌≡◌, refl}
use mathlib.Core.Logic.{inl, inr}
use mathlib.Core.Bool.{Bool, true, not, ◌&&◌}
use mathlib.Core.List.{List, [], ◌∷◌}
use native.Mathlib.Omega.{arith}
use quilons_sentrycode.Common.Tests.{if◌then◌else◌, Bool-cases}
use quilons_sentrycode.Common.Text.{◌<>◌}

abbrev pub add_to_first : Char → List String → List String
add_to_first c [] = String.◌∷◌ c String.[] ∷ []
add_to_first c (s ∷ ss) = String.◌∷◌ c s ∷ ss

unfoldable pub split : (ℕ → Bool) → String → List String
split mark String.[] = "" ∷ []
split mark (String.◌∷◌ c s) =
    let rest = split mark s in if mark (code c) then "" ∷ rest else add_to_first c rest

unfoldable pub lacks : (ℕ → Bool) → String → Bool
lacks mark String.[] = true
lacks mark (String.◌∷◌ c s) = not (mark (code c)) && lacks mark s

-- A text without the separator is one part.
pub split-lacks : (mark : ℕ → Bool) (s : String) → lacks mark s ≡ true → split mark s ≡ s ∷ []
unfolding split lacks
split-lacks mark String.[] h = refl
split-lacks mark (String.◌∷◌ c s) h = elim (Bool-cases (mark (code c))) [
  | inl e ↦ absurd (ground arith)
  | inr e ↦ rw e (rw (split-lacks mark s (ground arith)) refl)
]

-- The part before the first separator.
pub split-append :
    (mark : ℕ → Bool) (c : Char) (s t : String)
    → mark (code c) ≡ true
    → lacks mark s ≡ true
    → split mark (s <> String.◌∷◌ c t) ≡ s ∷ split mark t
unfolding split lacks
split-append mark c String.[] t m h = rw (append.nil (String.◌∷◌ c t)) (rw m refl)
split-append mark c (String.◌∷◌ d s) t m h = elim (Bool-cases (mark (code d))) [
  | inl e ↦ absurd (ground arith)
  | inr e ↦
      rw (append.cons d s (String.◌∷◌ c t))
        (rw e (rw (split-append mark c s t m (ground arith)) refl))
]
