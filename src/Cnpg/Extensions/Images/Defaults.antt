-- ===== src/Cnpg/Extensions/Images/Defaults.antt =====
-- The helpers that add what is missing: what they keep, what they add, and when they do nothing.
use provider_cloudnative_pg.Common.{
  String, Bool, true, ◌||◌, some, List, [], ◌∷◌, ◌++◌, ◌≡◌, refl, ◌==◌, eq_iff, eq_refl, is_some,
  any, contains, All, arith,
}
use provider_cloudnative_pg.Common.Dict.{Dict, lookup, lookup-insert}
use provider_cloudnative_pg.Cnpg.Extensions.Images.{add_one, add_missing, set_default, add_defaults}

pub any-append {ℓ} :
    {A : Type ℓ} (p : A → Bool) (xs ys : List A) → any p (xs ++ ys) ≡ (any p xs || any p ys)
any-append p [] ys = refl
any-append p (x ∷ xs) ys = ground (arith, any-append p xs ys)

-- One round: the text is there afterwards, and so is all that was there.
contains-round :
    (xs : List String) (y s : String) → contains xs s ≡ true → contains (add_one xs y) s ≡ true
contains-round xs y s h = ground (arith, any-append (λ x. x == s) xs (y ∷ []))

contains-round_new : (xs : List String) (y : String) → contains (add_one xs y) y ≡ true
contains-round_new xs y = ground (arith, any-append (λ x. x == y) xs (y ∷ []), eq_refl y)

pub contains-add_missing :
    (xs ys : List String) (s : String)
    → contains xs s ≡ true
    → contains (add_missing xs ys) s ≡ true
unfolding add_missing
contains-add_missing xs [] s h = h
contains-add_missing xs (y ∷ ys) s h =
    contains-add_missing (add_one xs y) ys s (contains-round xs y s h)

pub add_missing-All : (xs ys : List String) → All (λ y. contains (add_missing xs ys) y ≡ true) ys
unfolding add_missing
add_missing-All xs [] = tt
add_missing-All xs (y ∷ ys) = (
  contains-add_missing (add_one xs y) ys y (contains-round_new xs y),
  add_missing-All (add_one xs y) ys,
)

pub add_missing_of_All :
    (xs ys : List String) → All (λ y. contains xs y ≡ true) ys → add_missing xs ys ≡ xs
unfolding add_missing
add_missing_of_All xs [] h = refl
add_missing_of_All xs (y ∷ ys) (here, rest) = rw here (add_missing_of_All xs ys rest)

abbrev pub is_set : Dict String → String → Bool
is_set m k = is_some (lookup k m)

-- A key that is set keeps its value.
pub lookup-add_defaults :
    (m defaults : Dict String) (k : String) {v : String}
    → lookup k m ≡ some v
    → lookup k (add_defaults m defaults) ≡ some v
unfolding add_defaults
lookup-add_defaults m [] k h = h
lookup-add_defaults m ((j, w) ∷ defaults) k h =
    lookup-add_defaults (set_default m j w) defaults k
      (ground (arith, lookup-insert j k w m, eq_iff j k))

pub is_set-add_defaults :
    (m defaults : Dict String) (k : String)
    → is_set m k ≡ true
    → is_set (add_defaults m defaults) k ≡ true
unfolding add_defaults
is_set-add_defaults m [] k h = h
is_set-add_defaults m ((j, w) ∷ defaults) k h =
    is_set-add_defaults (set_default m j w) defaults k
      (ground (arith, lookup-insert j k w m, eq_iff j k))

pub add_defaults-All :
    (m defaults : Dict String) → All (λ d. is_set (add_defaults m defaults) d.0 ≡ true) defaults
unfolding add_defaults
add_defaults-All m [] = tt
add_defaults-All m ((j, w) ∷ defaults) = (
  is_set-add_defaults (set_default m j w) defaults j
      (ground (arith, lookup-insert j j w m, eq_refl j)),
  add_defaults-All (set_default m j w) defaults,
)

pub add_defaults_of_All :
    (m defaults : Dict String)
    → All (λ d. is_set m d.0 ≡ true) defaults
    → add_defaults m defaults ≡ m
unfolding add_defaults
add_defaults_of_All m [] h = refl
add_defaults_of_All m ((j, w) ∷ defaults) (here, rest) =
    ground (arith, add_defaults_of_All m defaults rest)
