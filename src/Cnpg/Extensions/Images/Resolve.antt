-- ===== src/Cnpg/Extensions/Images/Resolve.antt =====
-- What a successful lookup in the ClusterImageCatalog returns.
use provider_cloudnative_pg.Common.{
  String, true, false, Option, some, List, [], ◌∷◌, ◌≡◌, refl, ◌==◌, eq_iff, is_some, find, find-In,
  All, All-In, In, inl, inr, ◌⊎◌, In-filter, text_cases, Bool-cases, Option-cases, Result, ok, Got,
  found, arith, ◌<>◌, eq_refl,
}
use provider_cloudnative_pg.Common.Dict.{lookup, insert, lookup-insert, value}
use provider_cloudnative_pg.Common.Texts.{atoi}
use provider_cloudnative_pg.Cnpg.Types.{ExtensionConfiguration}
use provider_cloudnative_pg.Cnpg.Components.{CnpgCustomSpec}
use provider_cloudnative_pg.Cnpg.Extensions.Table.{
  Extension, enabled_extensions, sql_version_annotation_prefix,
}
use provider_cloudnative_pg.Cnpg.Extensions.Versions.{postgres_major}
use provider_cloudnative_pg.Cnpg.Extensions.Images.{
  ExtensionImage, ExtensionImages, Catalog, Error, resolve_all, resolve_wanted, wanted_extensions,
  resolve_extension_images,
}

-- An image that stands under `entry`: its configuration is the catalog's of that name for the major,
-- and its SQL version the one that the catalog's annotation names.
pub record IsResolved (catalog : Catalog) (major entry : String) (image : ExtensionImage)
    : Type 0 where
  pub listed : In image.config (catalog.find_extensions_for_major (atoi major).0)
  pub named : image.config.name ≡ entry
  pub version :
      image.sql_version
      ≡ value (sql_version_annotation_prefix <> (major <> ("." <> entry))) catalog.annotations

module _ (name : String) (catalog : Catalog) (major : String) where
  abbrev HoldsAll : ExtensionImages → Type 0
  HoldsAll images =
      (entry : String) (image : ExtensionImage)
      → lookup entry images ≡ some image
      → IsResolved catalog major entry image

  HoldsAll-insert :
      (images : ExtensionImages) (entry : String) (image : ExtensionImage)
      → HoldsAll images
      → IsResolved catalog major entry image
      → HoldsAll (insert entry image images)
  HoldsAll-insert images entry image h r k v e = elim (text_cases entry k) [
    | inl same ↦
        let got : image ≡ v = ground (arith, lookup-insert entry k image images, eq_iff entry k) in
        rw (← same, ← got) r
    | inr other ↦ h k v (ground (arith, lookup-insert entry k image images))
  ]

  abbrev hit_of : String → Option ExtensionConfiguration
  hit_of entry = find (λ e. e.name == entry) (catalog.find_extensions_for_major (atoi major).0)

  IsResolved-of_find :
      (entry : String) (config : ExtensionConfiguration)
      → hit_of entry ≡ some config
      → IsResolved catalog major entry (record {
        config = config;
        sql_version =
            value (sql_version_annotation_prefix <> (major <> ("." <> entry))) catalog.annotations;
      })
  IsResolved-of_find entry config e =
      let hit = find-In _ (catalog.find_extensions_for_major (atoi major).0) config e in
      record { listed = hit.0; named = (eq_iff config.name entry).0 hit.1; version = refl }

  abbrev resolve_from : List Extension → ExtensionImages → Result Error ExtensionImages
  resolve_from wanted images = resolve_all name catalog major (atoi major).0 wanted images

  resolve_all-HoldsAll :
      (wanted : List Extension) (images result : ExtensionImages)
      → HoldsAll images
      → resolve_from wanted images ≡ ok result
      → HoldsAll result
  unfolding resolve_all
  resolve_all-HoldsAll [] images result h e = let same : images ≡ result = cc in rw (← same) h
  resolve_all-HoldsAll (ext ∷ wanted) images result h e =
      elim (Option-cases (hit_of ext.catalog_entry)) [
        | inl missing ↦ cc (rw (missing, resolve_all) at e)
        | inr (config, hit) ↦
            resolve_all-HoldsAll wanted _ result
              (HoldsAll-insert images ext.catalog_entry _ h
                (IsResolved-of_find ext.catalog_entry config hit))
              (rw (hit, resolve_all) at e)
      ]

  is_some-resolve_all :
      (wanted : List Extension) (images : ExtensionImages) (entry : String)
      (result : ExtensionImages)
      → is_some (lookup entry images) ≡ true
      → resolve_from wanted images ≡ ok result
      → is_some (lookup entry result) ≡ true
  unfolding resolve_all
  is_some-resolve_all [] images entry result h e = let same : images ≡ result = cc in rw (← same) h
  is_some-resolve_all (ext ∷ wanted) images entry result h e =
      elim (Option-cases (hit_of ext.catalog_entry)) [
        | inl missing ↦ cc (rw (missing, resolve_all) at e)
        | inr (config, hit) ↦
            is_some-resolve_all wanted _ entry result
              (rw lookup-insert (ground (arith, eq_iff ext.catalog_entry entry)))
              (rw (hit, resolve_all) at e)
      ]

  set_of_resolved :
      (wanted : List Extension) (images result : ExtensionImages)
      → resolve_from wanted images ≡ ok result
      → All (λ ext. is_some (lookup ext.catalog_entry result) ≡ true) wanted
  unfolding resolve_all
  set_of_resolved [] images result e = tt
  set_of_resolved (ext ∷ wanted) images result e = elim (Option-cases (hit_of ext.catalog_entry)) [
    | inl missing ↦ cc (rw (missing, resolve_all) at e)
    | inr (config, hit) ↦ (
      is_some-resolve_all wanted _ ext.catalog_entry result (rw lookup-insert (rw eq_refl refl))
          (rw (hit, resolve_all) at e),
      set_of_resolved wanted _ result (rw (hit, resolve_all) at e),
    )
  ]

  -- What was there before, and what the wanted extensions name: nothing else.
  resolve_all-only :
      (wanted : List Extension) (images result : ExtensionImages) (entry : String)
      → resolve_from wanted images ≡ ok result
      → is_some (lookup entry result) ≡ true
      → (is_some (lookup entry images) ≡ true)
        ⊎ ((ext : Extension) × In ext wanted × (ext.catalog_entry ≡ entry))
  unfolding resolve_all
  resolve_all-only [] images result entry e h = let same : images ≡ result = cc in inl (rw same h)
  resolve_all-only (ext ∷ wanted) images result entry e h =
      elim (Option-cases (hit_of ext.catalog_entry)) [
        | inl missing ↦ cc (rw (missing, resolve_all) at e)
        | inr (config, hit) ↦
            elim (resolve_all-only wanted _ result entry (rw (hit, resolve_all) at e) h) [
              | inr (x, m, named) ↦ inr (x, inr m, named)
              | inl there ↦ elim (text_cases ext.catalog_entry entry) [
                | inl same ↦ inr (ext, inl refl, same)
                | inr other ↦ inl (rw (lookup-insert, other) at there)
              ]
            ]
      ]

-- Every enabled extension with an image has one, every image is the catalog's for its name, and every
-- name is the one of an enabled extension.
pub record IsComplete (custom : Option CnpgCustomSpec) (catalog : Catalog) (major : String)
    (images : ExtensionImages) : Type 0 where
  pub mounted :
      (e : Extension)
      → In e (enabled_extensions custom)
      → (e.catalog_entry == "") ≡ false
      → is_some (lookup e.catalog_entry images) ≡ true
  pub resolved :
      (entry : String) (image : ExtensionImage)
      → lookup entry images ≡ some image
      → IsResolved catalog major entry image
  pub only :
      (entry : String)
      → is_some (lookup entry images) ≡ true
      → (e : Extension) × In e (enabled_extensions custom)
        × ((e.catalog_entry == "") ≡ false)
        × (e.catalog_entry ≡ entry)

IsComplete-of_resolve_all :
    (name : String) (catalog : Catalog) (custom : Option CnpgCustomSpec) (major : String)
    (images : ExtensionImages)
    → resolve_all name catalog major (atoi major).0 (wanted_extensions custom) [] ≡ ok images
    → IsComplete custom catalog major images
unfolding lookup
IsComplete-of_resolve_all name catalog custom major images e = record {
  mounted = λ x m named.
      All-In _ (wanted_extensions custom)
        (set_of_resolved name catalog major (wanted_extensions custom) [] images e) x
        ((In-filter _ (enabled_extensions custom) x).1 (m, ground arith));
  resolved =
      resolve_all-HoldsAll name catalog major (wanted_extensions custom) [] images (λ k v h. cc) e;
  only = λ entry h.
      wanted entry
        (resolve_all-only name catalog major (wanted_extensions custom) [] images entry e h);
}
  where
    wanted :
        (entry : String)
        → (is_some {A = ExtensionImage} (lookup entry []) ≡ true)
          ⊎ ((ext : Extension) × In ext (wanted_extensions custom) × (ext.catalog_entry ≡ entry))
        → (x : Extension) × In x (enabled_extensions custom)
          × ((x.catalog_entry == "") ≡ false)
          × (x.catalog_entry ≡ entry)
    wanted entry (inl h) = cc
    wanted entry (inr (x, m, named)) =
        let (there, test) = (In-filter _ (enabled_extensions custom) x).0 m in
        (x, there, ground arith, named)

resolve_all_of_wanted :
    (get_catalog : String → Got Catalog) (name major : String) (wanted : List Extension)
    (catalog : Catalog) (images : ExtensionImages)
    → get_catalog name ≡ found catalog
    → resolve_wanted get_catalog name major wanted ≡ ok images
    → resolve_all name catalog major (atoi major).0 wanted [] ≡ ok images
unfolding resolve_wanted
resolve_all_of_wanted get_catalog name major [] catalog images got e = e
resolve_all_of_wanted get_catalog name major (ext ∷ wanted) catalog images got e =
    elim (Bool-cases (atoi major).1) [
      | inl parsed ↦ rw (parsed, got, resolve_wanted) at e
      | inr bad ↦ cc (rw (bad, resolve_wanted) at e)
    ]

-- A successful lookup gives every enabled extension with an image the catalog's image of that name,
-- with the SQL version of its annotation, and holds an image only under the name of such an extension.
pub resolve_extension_images-IsComplete :
    (get_catalog : String → Got Catalog) (name : String) (custom : Option CnpgCustomSpec)
    (engine_version instance_version : String) (catalog : Catalog) (images : ExtensionImages)
    → get_catalog name ≡ found catalog
    → resolve_extension_images get_catalog name custom engine_version instance_version ≡ ok images
    → IsComplete custom catalog (postgres_major engine_version instance_version) images
unfolding resolve_extension_images
resolve_extension_images-IsComplete get_catalog name custom engine_version instance_version catalog
      images got e =
    IsComplete-of_resolve_all name catalog custom _ images
      (resolve_all_of_wanted get_catalog name _ (wanted_extensions custom) catalog images got e)
