-- ===== src/Common/Lists.antt =====
-- Lists with Boolean tests: the functions of Go's package slices, and predicates on lists.
use Prim.Native.Nat.{ℕ, suc}
use Prim.Native.String.{String}
use mathlib.Core.Path.{◌≡◌, refl, sym}
use mathlib.Core.Bool.{Bool, true, false, ◌||◌}
use mathlib.Core.Logic.{◌↔◌, ◌⊎◌, inl, inr}
use mathlib.Core.Option.{Option, none, some}
use mathlib.Core.List.{List, [], ◌∷◌}
use native.Mathlib.Omega.{arith}
use text.Mathlib.Text.{◌==◌}
use provider_cloudnative_pg.Common.Tests.{Bool-cases, if◌then◌else◌}

module _ {ℓ} {A : Type ℓ} where
  abbrev pub length : List A → ℕ
  length [] = 0
  length (x ∷ xs) = suc (length xs)

  -- `slices.ContainsFunc`
  abbrev pub any : (A → Bool) → List A → Bool
  any p [] = false
  any p (x ∷ xs) = p x || any p xs

  -- The elements that pass the test, in order.
  abbrev pub filter : (A → Bool) → List A → List A
  filter p [] = []
  filter p (x ∷ xs) = if p x then x ∷ filter p xs else filter p xs

  -- The first element that passes the test: `slices.IndexFunc` and the access at that index.
  abbrev pub find : (A → Bool) → List A → Option A
  find p [] = none
  find p (x ∷ xs) = if p x then some x else find p xs

  abbrev pub is_nil : List A → Bool
  is_nil [] = true
  is_nil (_ ∷ _) = false

-- `slices.Contains`
abbrev pub contains : List String → String → Bool
contains xs s = any (λ x. x == s) xs

module _ {ℓ κ} {A : Type ℓ} (P : A → Type κ) where
  abbrev pub All : List A → Type κ
  All [] = Unit
  All (x ∷ xs) = P x × All xs

-- `a` is an element.
abbrev pub In : {A : Type 0} → A → List A → Type 0
In a [] = ⊥
In a (x ∷ xs) = (a ≡ x) ⊎ In a xs

module _ {A : Type 0} where
  pub All-of_In : (P : A → Type 0) (xs : List A) → ((a : A) → In a xs → P a) → All P xs
  All-of_In P [] h = tt
  All-of_In P (x ∷ xs) h = (h x (inl refl), All-of_In P xs (λ a m. h a (inr m)))

  pub All-In : (P : A → Type 0) (xs : List A) → All P xs → (a : A) → In a xs → P a
  All-In P [] h a m = absurd m
  All-In P (x ∷ xs) h a (inl e) = rw e h.0
  All-In P (x ∷ xs) h a (inr m) = All-In P xs h.1 a m

  pub In-filter :
      (p : A → Bool) (xs : List A) (a : A) → In a (filter p xs) ↔ (In a xs × (p a ≡ true))
  In-filter p [] a = (λ m. absurd m, λ m. absurd m.0)
  In-filter p (x ∷ xs) a = elim (Bool-cases (p x)) [
    | inl e ↦ rw e (
      elim [
        | inl same ↦ (inl same, rw same e)
        | inr m ↦ let r = (In-filter p xs a).0 m in (inr r.0, r.1)
      ],
      λ (m, t). elim m [ inl same ↦ inl same | inr m' ↦ inr ((In-filter p xs a).1 (m', t)) ],
    )
    | inr e ↦ rw e (
      λ m. let r = (In-filter p xs a).0 m in (inr r.0, r.1),
      λ (m, t). elim m [ inl same ↦ cc | inr m' ↦ (In-filter p xs a).1 (m', t) ],
    )
  ]

  -- A test that passes somewhere, and one that passes nowhere.
  pub any_iff :
      (p : A → Bool) (xs : List A) → (any p xs ≡ true) ↔ ((a : A) × In a xs × (p a ≡ true))
  any_iff p [] = (λ h. cc, λ r. absurd r.1)
  any_iff p (x ∷ xs) = elim (Bool-cases (p x)) [
    | inl e ↦ rw e (λ _. (x, inl refl, e), λ _. refl)
    | inr e ↦ rw e (
      λ h. let r = (any_iff p xs).0 h in (r.0, inr r.1, r.2),
      λ (a, m, t). elim m [ inl same ↦ cc | inr m' ↦ (any_iff p xs).1 (a, m', t) ],
    )
  ]

  pub find-In : (p : A → Bool) (xs : List A) (a : A) → find p xs ≡ some a → In a xs × (p a ≡ true)
  find-In p [] a h = cc
  find-In p (x ∷ xs) a h = elim (Bool-cases (p x)) [
    | inl e ↦ let same : x ≡ a = ground arith in (inl (sym same), rw same at e)
    | inr e ↦ let r = find-In p xs a (ground arith) in (inr r.0, r.1)
  ]

  pub find-eq-none : (p : A → Bool) (xs : List A) → (find p xs ≡ none) ↔ (any p xs ≡ false)
  find-eq-none p [] = (λ _. refl, λ _. refl)
  find-eq-none p (x ∷ xs) = ground (arith, find-eq-none p xs)
