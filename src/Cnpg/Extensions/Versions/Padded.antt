-- ===== src/Cnpg/Extensions/Versions/Padded.antt =====
-- `versionAtLeast` of internal/cnpg/extensions.go against the order that it is meant to compute: versions
-- as sequences of numbers without an end, which are 0 after the last component.
use provider_cloudnative_pg.Common.{
  String, ℕ, zero, suc, ◌<◌, Bool, true, false, not, Bool-cases, List, [], ◌∷◌, ◌≡◌, refl, ◌⊎◌, inl,
  inr, ◌↔◌, arith, if◌then◌else◌,
}
use provider_cloudnative_pg.Common.Int.{ℤ, pos, eqb_ℤ, ltb_ℤ, eqb_ℤ_iff, ltb_ℤ_iff, ◌<ℤ◌}
use provider_cloudnative_pg.Common.Texts.{split}
use provider_cloudnative_pg.Cnpg.Extensions.Versions.{component, compare_parts, version_at_least}

-- The number at a place.
unfoldable pub number_at : List String → ℕ → ℤ
number_at [] i = pos 0
number_at (x ∷ xs) zero = component x
number_at (x ∷ xs) (suc i) = number_at xs i

-- The lexicographic order: all numbers are the same, or the first that differ are greater on the left.
abbrev pub IsAtLeast : (ℕ → ℤ) → (ℕ → ℤ) → Type 0
IsAtLeast f g = ((i : ℕ) → f i ≡ g i) ⊎ ((i : ℕ) × ((j : ℕ) → j < i → f j ≡ g j) × (g i <ℤ f i))

abbrev tail : (ℕ → ℤ) → ℕ → ℤ
tail f i = f (suc i)

module _ (f g : ℕ → ℤ) where
  -- The places before the next one: the first, and those after it.
  before_suc :
      (i : ℕ)
      → f zero ≡ g zero
      → ((j : ℕ) → j < i → tail f j ≡ tail g j)
      → (j : ℕ) → j < suc i
      → f j ≡ g j
  before_suc i e before zero h = e
  before_suc i e before (suc j) h = before j (omega arith)

  everywhere : f zero ≡ g zero → ((i : ℕ) → tail f i ≡ tail g i) → (i : ℕ) → f i ≡ g i
  everywhere e all zero = e
  everywhere e all (suc i) = all i

  tail-IsAtLeast : f zero ≡ g zero → IsAtLeast (tail f) (tail g) → IsAtLeast f g
  tail-IsAtLeast e (inl all) = inl (everywhere e all)
  tail-IsAtLeast e (inr (i, before, greater)) = inr (suc i, before_suc i e before, greater)

  IsAtLeast-tail : f zero ≡ g zero → IsAtLeast f g → IsAtLeast (tail f) (tail g)
  IsAtLeast-tail e (inl all) = inl (λ i. all (suc i))
  IsAtLeast-tail e (inr (zero, before, greater)) = let less = rw e at greater in omega arith
  IsAtLeast-tail e (inr (suc i, before, greater)) =
      inr (i, (λ j h. before (suc j) (omega arith)), greater)

  IsAtLeast-first : eqb_ℤ (f zero) (g zero) ≡ false → IsAtLeast f g → ltb_ℤ (g zero) (f zero) ≡ true
  IsAtLeast-first differ (inl all) = let same = (eqb_ℤ_iff (f zero) (g zero)).1 (all zero) in cc
  IsAtLeast-first differ (inr (zero, before, greater)) = (ltb_ℤ_iff (g zero) (f zero)).1 greater
  IsAtLeast-first differ (inr (suc i, before, greater)) =
      let same = (eqb_ℤ_iff (f zero) (g zero)).1 (before zero (omega arith)) in cc

  first-IsAtLeast : ltb_ℤ (g zero) (f zero) ≡ true → IsAtLeast f g
  first-IsAtLeast h = inr (zero, (λ j below. ground arith), (ltb_ℤ_iff (g zero) (f zero)).0 h)

  -- One round of the loop.
  round_iff :
      (rest : Bool)
      → (rest ≡ true) ↔ IsAtLeast (tail f) (tail g)
      → ((if not (eqb_ℤ (f zero) (g zero)) then ltb_ℤ (g zero) (f zero) else rest) ≡ true)
        ↔ IsAtLeast f g
  round_iff rest later = elim (Bool-cases (eqb_ℤ (f zero) (g zero))) [
    | inl same ↦
        let e = (eqb_ℤ_iff (f zero) (g zero)).0 same in
        rw same ((λ h. tail-IsAtLeast e (later.0 h)), (λ a. later.1 (IsAtLeast-tail e a)))
    | inr differ ↦ rw differ (first-IsAtLeast, IsAtLeast-first differ)
  ]

compare_parts_iff :
    (xs ys : List String) → (compare_parts xs ys ≡ true) ↔ IsAtLeast (number_at xs) (number_at ys)
unfolding compare_parts number_at
compare_parts_iff [] [] = ((λ h. inl (λ i. refl)), (λ a. refl))
compare_parts_iff (x ∷ xs) [] =
    round_iff (number_at (x ∷ xs)) (number_at []) (compare_parts xs []) (compare_parts_iff xs [])
compare_parts_iff [] (y ∷ ys) =
    round_iff (number_at []) (number_at (y ∷ ys)) (compare_parts [] ys) (compare_parts_iff [] ys)
compare_parts_iff (x ∷ xs) (y ∷ ys) =
    round_iff (number_at (x ∷ xs)) (number_at (y ∷ ys)) (compare_parts xs ys)
      (compare_parts_iff xs ys)

-- A version is at least another exactly when it is in the lexicographic order of the sequences of their
-- numbers, which go on with 0 after the last component: how many components either has does not matter.
pub version_at_least_iff :
    (version minimum : String)
    → (version_at_least version minimum ≡ true)
      ↔ IsAtLeast (number_at (split b'.' version)) (number_at (split b'.' minimum))
unfolding version_at_least
version_at_least_iff version minimum = compare_parts_iff (split b'.' version) (split b'.' minimum)
