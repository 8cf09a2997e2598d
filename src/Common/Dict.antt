-- ===== src/Common/Dict.antt =====
-- Go maps with text keys, as association lists; the first entry of a key counts.
use Prim.Native.String.{String}
use mathlib.Core.Path.{◌≡◌, refl}
use mathlib.Core.Option.{Option, none, some}
use mathlib.Core.List.{List, [], ◌∷◌}
use native.Mathlib.Omega.{arith}
use text.Mathlib.Text.{◌==◌}
use text.Mathlib.TextEquality.{eq_iff}
use provider_cloudnative_pg.Common.Tests.{if◌then◌else◌}

abbrev pub Dict {ℓ} : Type ℓ → Type ℓ
Dict V = List (String × V)

module _ {ℓ} {V : Type ℓ} where
  -- `v, ok := m[k]`
  unfoldable pub lookup : String → Dict V → Option V
  lookup k [] = none
  lookup k ((j, v) ∷ m) = if j == k then some v else lookup k m

  -- `m[k] = v`
  unfoldable pub insert : String → V → Dict V → Dict V
  insert k v [] = (k, v) ∷ []
  insert k v ((j, w) ∷ m) = if j == k then (k, v) ∷ m else (j, w) ∷ insert k v m

  pub lookup-insert :
      (new key : String) (item : V) (rest : Dict V)
      → lookup key (insert new item rest) ≡ (if new == key then some item else lookup key rest)
  unfolding insert lookup
  lookup-insert new key item [] = refl
  lookup-insert new key item ((head, old) ∷ rest) =
      let later = lookup-insert new key item rest in
      ground (arith, later, eq_iff head new, eq_iff head key, eq_iff new key)

-- `m[k]` of a map to texts: a missing key reads as the empty text.
abbrev pub value : String → Dict String → String
value k m = elim (lookup k m) [ none ↦ "" | some v ↦ v ]
