-- ===== src/Cnpg/Extensions/Versions.antt =====
-- The version arithmetic of internal/cnpg/extensions.go.
pub mod Order
pub mod Padded
use provider_cloudnative_pg.Common.{
  String, Bool, true, false, List, [], ◌∷◌, is_empty, if◌then◌else◌, not,
}
use provider_cloudnative_pg.Common.Int.{ℤ, pos, ltb_ℤ, eqb_ℤ}
use provider_cloudnative_pg.Common.Texts.{split, before, atoi}
use provider_cloudnative_pg.Cnpg.Components.{postgres_default_version}

unfoldable pub postgres_version : String → String → String
postgres_version engine_version instance_version =
    if not (is_empty engine_version)
    then engine_version
    else if not (is_empty instance_version)
    then instance_version
    else postgres_default_version

unfoldable pub postgres_major : String → String → String
unfolding postgres_version before
postgres_major engine_version instance_version =
    before b'.' (postgres_version engine_version instance_version)

-- The value of one component of a version; the error of `Atoi` is dropped.
unfoldable pub component : String → ℤ
unfolding atoi
component s = (atoi s).0

-- The rounds of the loop: a missing component counts as 0.
unfoldable pub compare_parts : List String → List String → Bool
compare_parts [] [] = true
compare_parts (g ∷ got) [] =
    let rest = compare_parts got [] in
    if not (eqb_ℤ (component g) (pos 0)) then ltb_ℤ (pos 0) (component g) else rest
compare_parts [] (w ∷ want) =
    let rest = compare_parts [] want in
    if not (eqb_ℤ (pos 0) (component w)) then ltb_ℤ (component w) (pos 0) else rest
compare_parts (g ∷ got) (w ∷ want) =
    let rest = compare_parts got want in
    if not (eqb_ℤ (component g) (component w)) then ltb_ℤ (component w) (component g) else rest

unfoldable pub version_at_least : String → String → Bool
unfolding compare_parts component split
version_at_least version minimum = compare_parts (split b'.' version) (split b'.' minimum)
