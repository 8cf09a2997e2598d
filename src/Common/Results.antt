-- ===== src/Common/Results.antt =====
-- Fallible code: a Go function that returns a value and an error, and a read of the Kubernetes API.
use Prim.Native.String.{String}
use mathlib.Core.Path.{◌≡◌, refl}
use mathlib.Core.Bool.{Bool, true, false}
use mathlib.Core.List.{List, [], ◌∷◌}
use mathlib.Core.Logic.{◌↔◌}
use provider_cloudnative_pg.Common.Lists.{All}

pub data Result {ℓ κ} (E : Type ℓ) (A : Type κ) : Type (ℓ ⊔ κ) where
  ok : A → Result E A
  err : E → Result E A

-- What a read of one object returns: the object, `IsNotFound`, or another error.
pub data Got {ℓ} (A : Type ℓ) : Type ℓ where
  found : A → Got A
  not_found : Got A
  failed : String → Got A

infixl 5 ◌>>=◌ ◌>>◌
abbrev pub ◌>>=◌ {ℓ κ μ} :
    {E : Type ℓ} {A : Type κ} {B : Type μ} → Result E A → (A → Result E B) → Result E B
ok a >>= f = f a
err e >>= f = err e

abbrev pub ◌>>◌ {ℓ μ} : {E : Type ℓ} {B : Type μ} → Result E (Unit {0}) → Result E B → Result E B
m >> k = m >>= λ _. k

-- `if failing { return error }`
abbrev pub reject {ℓ} : {E : Type ℓ} → Bool → E → Result E (Unit {0})
reject true e = err e
reject false e = ok tt

-- `fmt.Errorf("…: %w", err)`
abbrev pub wrap {ℓ κ μ} : {E : Type ℓ} {F : Type κ} {A : Type μ} → (E → F) → Result E A → Result F A
wrap f (ok a) = ok a
wrap f (err e) = err (f e)

-- `for … { if err := f(x); err != nil { return err } }`
abbrev pub each {ℓ κ} :
    {E : Type ℓ} {A : Type κ} → (A → Result E (Unit {0})) → List A → Result E (Unit {0})
each f [] = ok tt
each f (x ∷ xs) = f x >> each f xs

abbrev pub is_ok {ℓ κ} : {E : Type ℓ} {A : Type κ} → Result E A → Bool
is_ok (ok _) = true
is_ok (err _) = false

-- A chain that ends well has a first step that does.
pub ok-of-bind :
    {E A B : Type 0} (first : Result E A) (next : A → Result E B) (out : B)
    → (first >>= next) ≡ ok out
    → (mid : A) × (first ≡ ok mid) × (next mid ≡ ok out)
ok-of-bind (ok mid) next out h = (mid, refl, h)
ok-of-bind (err e) next out h = cc

pub wrap-ok : {E F A : Type 0} (f : E → F) (m : Result E A) (a : A) → wrap f m ≡ ok a → m ≡ ok a
wrap-ok f (ok b) a h = cc
wrap-ok f (err e) a h = cc

pub >>-eq-ok :
    {E : Type 0} (m k : Result E (Unit {0})) → ((m >> k) ≡ ok tt) ↔ ((m ≡ ok tt) × (k ≡ ok tt))
>>-eq-ok (ok tt) k = (λ h. (refl, h), λ h. h.1)
>>-eq-ok (err e) k = (λ h. cc, λ h. cc)

pub wrap-eq-ok :
    {E F : Type 0} (f : E → F) (m : Result E (Unit {0})) → (wrap f m ≡ ok tt) ↔ (m ≡ ok tt)
wrap-eq-ok f (ok tt) = (λ _. refl, λ _. refl)
wrap-eq-ok f (err e) = (λ h. cc, λ h. cc)

pub reject-eq-ok : {E : Type 0} (b : Bool) (e : E) → (reject b e ≡ ok tt) ↔ (b ≡ false)
reject-eq-ok true e = (λ h. cc, λ h. cc)
reject-eq-ok false e = (λ _. refl, λ _. refl)

-- A loop of checks passes exactly when each check does.
pub each-eq-ok :
    {E A : Type 0} (f : A → Result E (Unit {0})) (xs : List A)
    → (each f xs ≡ ok tt) ↔ All (λ x. f x ≡ ok tt) xs
each-eq-ok f [] = (λ _. tt, λ _. refl)
each-eq-ok f (x ∷ xs) =
    let split = >>-eq-ok (f x) (each f xs) in
    let rest = each-eq-ok f xs in
    (λ h. ((split.0 h).0, rest.0 (split.0 h).1), λ h. split.1 (h.0, rest.1 h.1))

-- A loop that rejects the elements with a fault passes exactly when no element has it.
pub each-reject :
    {E A : Type 0} (p : A → Bool) (e : A → E) (xs : List A)
    → (each (λ x. reject (p x) (e x)) xs ≡ ok tt) ↔ All (λ x. p x ≡ false) xs
each-reject p e [] = (λ _. tt, λ _. refl)
each-reject p e (x ∷ xs) =
    let split = >>-eq-ok (reject (p x) (e x)) (each (λ x. reject (p x) (e x)) xs) in
    let first = reject-eq-ok (p x) (e x) in
    let rest = each-reject p e xs in
    (
      λ h. let parts = split.0 h in (first.0 parts.0, rest.0 parts.1),
      λ h. split.1 (first.1 h.0, rest.1 h.1),
    )
