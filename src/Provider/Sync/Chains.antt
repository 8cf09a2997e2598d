-- ===== src/Provider/Sync/Chains.antt =====
-- The chains of calls of `Sync`: what an end without an error, an error and the state go back to.
use provider_cloudnative_pg.Common.{◌≡◌, refl, subst, Result, ok, err}
use provider_cloudnative_pg.Provider.Sync.{chain, check}

-- What holds of every end of the rest of a chain that ends well holds of the end of the chain.
pub chain-end :
    {E F A B S : Type 0} (P : Result F B × S → Type 0) (f : E → F) (m : Result E A × S)
    (next : A → S → Result F B × S) (b : B)
    → ((a : A) (s : S) → (next a s).0 ≡ ok b → P (next a s))
    → (chain f m next).0 ≡ ok b
    → P (chain f m next)
unfolding chain
chain-end P f (err e, s) next b k h = cc
chain-end P f (ok a, s) next b k h = k a s h

pub check-end :
    {E F A B S : Type 0} (P : Result F B × S → Type 0) (f : E → F) (m : Result E A) (s : S)
    (next : A → Result F B × S) (b : B)
    → ((a : A) → (next a).0 ≡ ok b → P (next a))
    → (check f m s next).0 ≡ ok b
    → P (check f m s next)
unfolding check
check-end P f (err e) s next b k h = cc
check-end P f (ok a) s next b k h = k a h

-- A chain that ends with a call ends well only if the call does, and with its state.
pub chain-last :
    {E F S : Type 0} (f : E → F) (m : Result E (Unit {0}) × S)
    → (chain f m (λ _ s. (ok tt, s))).0 ≡ ok tt
    → (m.0 ≡ ok tt) × ((chain f m (λ _ s. (ok tt, s))).1 ≡ m.1)
unfolding chain
chain-last f (err e, s) h = cc
chain-last f (ok tt, s) h = (refl, refl)

-- A property of states that the first call keeps and the rest keeps.
pub chain-keeps :
    {E F A B S : Type 0} (K : S → Type 0) (f : E → F) (m : Result E A × S)
    (next : A → S → Result F B × S)
    → K m.1
    → ((a : A) (s : S) → K s → K (next a s).1)
    → K (chain f m next).1
unfolding chain
chain-keeps K f (err e, s) next here later = here
chain-keeps K f (ok a, s) next here later = later a s here

pub check-keeps :
    {E F A B S : Type 0} (K : S → Type 0) (f : E → F) (m : Result E A) (s : S)
    (next : A → Result F B × S)
    → K s
    → ((a : A) → K (next a).1)
    → K (check f m s next).1
unfolding check
check-keeps K f (err e) s next here later = here
check-keeps K f (ok a) s next here later = later a

-- An error of a chain is one of its first call, or one of the rest.
pub chain-error :
    {E F A B S : Type 0} (Q : F → Type 0) (f : E → F) (m : Result E A × S)
    (next : A → S → Result F B × S) (e : F)
    → ((x : E) → Q (f x))
    → ((a : A) (s : S) → (next a s).0 ≡ err e → Q e)
    → (chain f m next).0 ≡ err e
    → Q e
unfolding chain
chain-error Q f (err x, s) next e first later h = subst Q (cc) (first x)
chain-error Q f (ok a, s) next e first later h = later a s h

pub check-error :
    {E F A B S : Type 0} (Q : F → Type 0) (f : E → F) (m : Result E A) (s : S)
    (next : A → Result F B × S) (e : F)
    → ((x : E) → m ≡ err x → Q (f x))
    → ((a : A) → (next a).0 ≡ err e → Q e)
    → (check f m s next).0 ≡ err e
    → Q e
unfolding check
check-error Q f (err x) s next e first later h = subst Q (cc) (first x refl)
check-error Q f (ok a) s next e first later h = later a h

-- The parts of a chain that ends without an error.
pub chain-parts :
    {E F A B S : Type 0} (f : E → F) (m : Result E A × S) (next : A → S → Result F B × S) (b : B)
    → (chain f m next).0 ≡ ok b
    → (a : A) × (s : S) × (m ≡ (ok a, s)) × (chain f m next ≡ next a s) × ((next a s).0 ≡ ok b)
unfolding chain
chain-parts f (err e, s) next b h = cc
chain-parts f (ok a, s) next b h = (a, s, refl, refl, h)

pub check-parts :
    {E F A B S : Type 0} (f : E → F) (m : Result E A) (s : S) (next : A → Result F B × S) (b : B)
    → (check f m s next).0 ≡ ok b
    → (a : A) × (m ≡ ok a) × (check f m s next ≡ next a) × ((next a).0 ≡ ok b)
unfolding check
check-parts f (err e) s next b h = cc
check-parts f (ok a) s next b h = (a, refl, refl, h)
