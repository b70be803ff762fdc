-- ===== src/Dependencies/Versions/Ranges.antt =====
-- src/dependencies/versions.ts: what the ranges `^` and `~` accept.
use Prim.Native.Char.{code}
use Prim.Native.String.append
use Prim.Native.String.{String}
use quilons_sentrycode.Common.{
  ℕ, ◌+◌, ◌<◌, ◌≡◌, ◌∙◌, ◌↔◌, ap, sym, subst, refl, Bool, true, false, not, ◌&&◌, List, [], ◌∷◌,
  nat_beq, arith, is_truthy, show_nat, split, lacks, split-append, parse_int, one_char,
  parse_int-show_nat, lacks-show_nat, is_truthy-show_nat, ◌<>◌,
}
use quilons_sentrycode.Dependencies.Versions.{
  parts, version_component, separates, drop_v, compare_from, compare_versions, is_negative,
  satisfies_clause,
}

abbrev is_v : ℕ → Bool
is_v c = nat_beq c 118

-- Only a `v` in front is dropped.
drop_v-append :
    (s t : String) → is_truthy s ≡ true → lacks is_v s ≡ true → drop_v (s <> t) ≡ (s <> t)
unfolding lacks
drop_v-append String.[] t h k = cc
drop_v-append (String.◌∷◌ c s) t h k =
    let other : nat_beq (code c) 118 ≡ false = ground arith in
    rw (append.cons c s t) (rw other refl)

no_separator : (k : ℕ) → k < 10 → separates (48 + k) ≡ false
no_separator k h = ground arith

no_v : (k : ℕ) → k < 10 → is_v (48 + k) ≡ false
no_v k h = ground arith

-- The components of the bound of a caret range.
pub parts-caret : (n : ℕ) → parts (show_nat n <> ".0.0") ≡ n ∷ 0 ∷ 0 ∷ []
unfolding parts split parse_int
parts-caret n =
    rw (drop_v-append (show_nat n) ".0.0" (is_truthy-show_nat n) (lacks-show_nat is_v n no_v)) (
      rw
        (split-append separates "." (show_nat n) "0.0" refl
          (lacks-show_nat separates n no_separator))
        (ap (λ k. k ∷ 0 ∷ 0 ∷ []) (parse_int-show_nat n)))

-- The components of the bound of a tilde range.
pub parts-tilde : (n m : ℕ) → parts (show_nat n <> ("." <> (show_nat m <> ".0"))) ≡ n ∷ m ∷ 0 ∷ []
unfolding parts split parse_int
parts-tilde n m =
    rw
      (drop_v-append (show_nat n) ("." <> (show_nat m <> ".0")) (is_truthy-show_nat n)
        (lacks-show_nat is_v n no_v))
      (rw (one_char "." (show_nat m <> ".0")) (
        rw
          (split-append separates "." (show_nat n) (show_nat m <> ".0") refl
            (lacks-show_nat separates n no_separator))
          (rw
            (split-append separates "." (show_nat m) "0" refl
              (lacks-show_nat separates m no_separator))
            (rw (parse_int-show_nat n) (rw (parse_int-show_nat m) refl)))))

-- Not below the base, and below the next major version: the major versions agree.
caret-bounds :
    (version base : List ℕ)
    → ((not (is_negative (compare_from 3 0 version base))
          && is_negative (compare_from 3 0 version ((version_component base 0 + 1) ∷ 0 ∷ 0 ∷ [])))
        ≡ true)
      ↔ ((version_component version 0 ≡ version_component base 0)
          × (is_negative (compare_from 3 0 version base) ≡ false))
unfolding compare_from
caret-bounds version base = ground arith

-- Not below the base, and below the next minor version: the major and the minor versions agree.
tilde-bounds :
    (version base : List ℕ)
    → ((not (is_negative (compare_from 3 0 version base))
          && is_negative (
              compare_from 3 0 version
                (version_component base 0 ∷ (version_component base 1 + 1) ∷ 0 ∷ [])))
        ≡ true)
      ↔ ((version_component version 0 ≡ version_component base 0)
          × (version_component version 1 ≡ version_component base 1)
          × (is_negative (compare_from 3 0 version base) ≡ false))
unfolding compare_from
tilde-bounds version base = ground arith

-- A clause that bounds the version from both sides, in numbers.
abbrev within : (version base high : List ℕ) → Bool
within version base high =
    not (is_negative (compare_from 3 0 version base)) && is_negative (compare_from 3 0 version high)

satisfies_clause-caret :
    (version base : String)
    → satisfies_clause version ("^" <> base)
      ≡ within (parts version) (parts base) ((version_component (parts base) 0 + 1) ∷ 0 ∷ 0 ∷ [])
unfolding satisfies_clause compare_versions
satisfies_clause-caret version base =
    ap (satisfies_clause version) (one_char "^" base)
    ∙ ap (within (parts version) (parts base)) (parts-caret (version_component (parts base) 0 + 1))

satisfies_clause-tilde :
    (version base : String)
    → satisfies_clause version ("~" <> base)
      ≡ within
          (parts version)
          (parts base)
          (version_component (parts base) 0 ∷ (version_component (parts base) 1 + 1) ∷ 0 ∷ [])
unfolding satisfies_clause compare_versions
satisfies_clause-tilde version base =
    ap (satisfies_clause version) (one_char "~" base)
    ∙ ap (within (parts version) (parts base))
        (parts-tilde (version_component (parts base) 0) (version_component (parts base) 1 + 1))

-- The range `^base` accepts exactly the versions that have the base's major number and are not older
-- than the base, and `~base` those that have its major and minor numbers and are not older.
pub satisfies_clause-ranges :
    (version base : String)
    → ((satisfies_clause version ("^" <> base) ≡ true) ↔ (
        (version_component (parts version) 0 ≡ version_component (parts base) 0)
        × (is_negative (compare_versions version base) ≡ false)))
      × ((satisfies_clause version ("~" <> base) ≡ true) ↔ (
          (version_component (parts version) 0 ≡ version_component (parts base) 0)
          × (version_component (parts version) 1 ≡ version_component (parts base) 1)
          × (is_negative (compare_versions version base) ≡ false)))
unfolding compare_versions
satisfies_clause-ranges version base = (
  subst
      (λ b. (b ≡ true) ↔ (
        (version_component (parts version) 0 ≡ version_component (parts base) 0)
        × (is_negative (compare_versions version base) ≡ false)))
      (sym (satisfies_clause-caret version base)) (caret-bounds (parts version) (parts base)),
  subst
      (λ b. (b ≡ true) ↔ (
        (version_component (parts version) 0 ≡ version_component (parts base) 0)
        × (version_component (parts version) 1 ≡ version_component (parts base) 1)
        × (is_negative (compare_versions version base) ≡ false)))
      (sym (satisfies_clause-tilde version base)) (tilde-bounds (parts version) (parts base)),
)
