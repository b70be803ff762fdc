-- ===== src/Dependencies/Versions/Order.antt =====
-- src/dependencies/versions.ts: `compareVersions` as an order.
use quilons_sentrycode.Common.{ℕ, zero, suc, ◌≡◌, refl, ℤ, pos, negsuc, false, String, List, arith}
use quilons_sentrycode.Dependencies.Versions.{parts, compare_from, compare_versions, is_negative}

abbrev pub negate : ℤ → ℤ
negate (pos zero) = pos 0
negate (pos (suc n)) = negsuc n
negate (negsuc n) = pos (suc n)

-- Exchanging the versions negates the comparison.
compare_from-negate :
    (rounds i : ℕ) (av bv : List ℕ)
    → compare_from rounds i bv av ≡ negate (compare_from rounds i av bv)
unfolding compare_from
compare_from-negate zero i av bv = refl
compare_from-negate (suc rounds) i av bv = ground (arith, compare_from-negate rounds (suc i) av bv)

compare_from_trans :
    (rounds i : ℕ) (av bv cv : List ℕ)
    → is_negative (compare_from rounds i bv av) ≡ false
    → is_negative (compare_from rounds i cv bv) ≡ false
    → is_negative (compare_from rounds i cv av) ≡ false
unfolding compare_from
compare_from_trans zero i av bv cv h k = refl
compare_from_trans (suc rounds) i av bv cv h k =
    ground (arith, compare_from_trans rounds (suc i) av bv cv)

-- Versions are ordered: the comparison of two versions is the negation of the comparison the other
-- way round, and a version that is not older than another, which is not older than a third, is not
-- older than the third.
compare_versions-order :
    (a b c : String)
    → is_negative (compare_versions b a) ≡ false
    → is_negative (compare_versions c b) ≡ false
    → (compare_versions a c ≡ negate (compare_versions c a))
      × (is_negative (compare_versions c a) ≡ false)
unfolding compare_versions
compare_versions-order a b c h k = (
  compare_from-negate 3 0 (parts c) (parts a),
  compare_from_trans 3 0 (parts a) (parts b) (parts c) h k,
)
