-- ===== src/Common/Trim.antt =====
-- Laws of `trim`.
use Prim.Native.String.{String}
use mathlib.Core.Path.{◌≡◌, refl, ap}
use mathlib.Core.Logic.{inl, inr}
use mathlib.Core.Bool.{Bool, true, false, not, ◌&&◌}
use native.Mathlib.Omega.{arith}
use quilons_sentrycode.Common.Tests.{Bool-cases}
use quilons_sentrycode.Common.Text.{is_space, is_blank, is_truthy, trim_start, trim_end, trim}

-- No white space in front.
abbrev pub is_solid : String → Bool
is_solid String.[] = true
is_solid (String.◌∷◌ c s) = not (is_space c)

trim_start-solid : (s : String) → is_solid (trim_start s) ≡ true
unfolding trim_start
trim_start-solid String.[] = refl
trim_start-solid (String.◌∷◌ c s) = elim (Bool-cases (is_space c)) [
  | inl e ↦ rw e (trim_start-solid s)
  | inr e ↦ rw e (ground (arith, e))
]

solid-trim_start : (s : String) → is_solid s ≡ true → trim_start s ≡ s
unfolding trim_start
solid-trim_start String.[] h = refl
solid-trim_start (String.◌∷◌ c s) h = let solid : is_space c ≡ false = ground arith in rw solid refl

trim_end-solid : (s : String) → is_solid s ≡ true → is_solid (trim_end s) ≡ true
unfolding trim_end
trim_end-solid String.[] h = refl
trim_end-solid (String.◌∷◌ c s) h = let solid : is_space c ≡ false = ground arith in rw solid h

is_blank-trim_end : (s : String) → is_blank (trim_end s) ≡ is_blank s
unfolding trim_end is_blank
is_blank-trim_end String.[] = refl
is_blank-trim_end (String.◌∷◌ c s) = elim (Bool-cases (is_space c && is_blank s)) [
  | inl e ↦ rw e refl
  | inr e ↦ rw e (rw (is_blank-trim_end s) e)
]

trim_end_idem : (s : String) → trim_end (trim_end s) ≡ trim_end s
unfolding trim_end
trim_end_idem String.[] = refl
trim_end_idem (String.◌∷◌ c s) = elim (Bool-cases (is_space c && is_blank s)) [
  | inl e ↦ rw e refl
  | inr e ↦ rw e (rw (is_blank-trim_end s) (rw e (ap (String.◌∷◌ c) (trim_end_idem s))))
]

pub trim_idem : (s : String) → trim (trim s) ≡ trim s
unfolding trim
trim_idem s =
    rw
      (solid-trim_start (trim_end (trim_start s))
        (trim_end-solid (trim_start s) (trim_start-solid s)))
      (trim_end_idem (trim_start s))

solid-is_blank : (s : String) → is_solid s ≡ true → is_blank s ≡ not (is_truthy s)
unfolding is_blank
solid-is_blank String.[] h = refl
solid-is_blank (String.◌∷◌ c s) h = ground arith

-- A trimmed text is blank only if it is empty.
pub is_blank-trim : (s : String) → is_blank (trim s) ≡ not (is_truthy (trim s))
unfolding trim
is_blank-trim s =
    solid-is_blank (trim_end (trim_start s)) (trim_end-solid (trim_start s) (trim_start-solid s))
