-- ===== src/Cnpg/Extensions/Versions/Order.antt =====
-- Versions are preordered by `version_at_least`.
use provider_cloudnative_pg.Common.{String, true, ◌||◌, List, [], ◌∷◌, ◌≡◌, refl, arith}
use provider_cloudnative_pg.Common.Texts.{split}
use provider_cloudnative_pg.Cnpg.Extensions.Versions.{compare_parts, version_at_least}

compare_parts_total : (xs ys : List String) → (compare_parts xs ys || compare_parts ys xs) ≡ true
unfolding compare_parts
compare_parts_total [] [] = refl
compare_parts_total (x ∷ xs) [] = ground (arith, compare_parts_total xs [])
compare_parts_total [] (y ∷ ys) = ground (arith, compare_parts_total [] ys)
compare_parts_total (x ∷ xs) (y ∷ ys) = ground (arith, compare_parts_total xs ys)

compare_parts_trans :
    (xs ys zs : List String)
    → compare_parts xs ys ≡ true
    → compare_parts ys zs ≡ true
    → compare_parts xs zs ≡ true
unfolding compare_parts
compare_parts_trans [] [] zs h k = k
compare_parts_trans [] (y ∷ ys) [] h k = refl
compare_parts_trans (x ∷ xs) [] [] h k = h
compare_parts_trans (x ∷ xs) (y ∷ ys) [] h k = ground (arith, compare_parts_trans xs ys [])
compare_parts_trans [] (y ∷ ys) (z ∷ zs) h k = ground (arith, compare_parts_trans [] ys zs)
compare_parts_trans (x ∷ xs) [] (z ∷ zs) h k = ground (arith, compare_parts_trans xs [] zs)
compare_parts_trans (x ∷ xs) (y ∷ ys) (z ∷ zs) h k = ground (arith, compare_parts_trans xs ys zs)

-- Of two versions one is at least the other.
version_at_least-total : (v w : String) → (version_at_least v w || version_at_least w v) ≡ true
unfolding version_at_least
version_at_least-total v w = compare_parts_total (split b'.' v) (split b'.' w)

-- A version that is at least another is at least every version which that one is at least; so a lower
-- bound that a version meets is met by every version above it.
version_at_least_trans :
    (u v w : String)
    → version_at_least u v ≡ true
    → version_at_least v w ≡ true
    → version_at_least u w ≡ true
unfolding version_at_least
version_at_least_trans u v w = compare_parts_trans (split b'.' u) (split b'.' v) (split b'.' w)
