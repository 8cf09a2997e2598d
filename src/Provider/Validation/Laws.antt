-- ===== src/Provider/Validation/Laws.antt =====
-- `Validate` of internal/provider/provider.go: an Instance is accepted exactly when every check passes.
use provider_cloudnative_pg.Common.{
  some, ◌≡◌, refl, ◌↔◌, inl, inr, Option-cases, ok, wrap, ok-of-bind, wrap-ok,
}
use provider_cloudnative_pg.Common.Dict.{lookup}
use provider_cloudnative_pg.Cnpg.Components.{CnpgCustomSpec, component_engine}
use provider_cloudnative_pg.Cnpg.Quantities.{ComponentSpec, NameChecks, Quantities}
use provider_cloudnative_pg.Cnpg.Validate.{
  validate_engine, validate_custom_spec, validate_synchronous, validate_scheduling,
}
use provider_cloudnative_pg.Cnpg.Extensions.Rules.{
  validate_extensions, validate_extensions_at_creation, validate_extensions_not_disabled,
}
use provider_cloudnative_pg.Cnpg.Extensions.Images.{ExtensionImages, resolve_extension_images}
use provider_cloudnative_pg.Barman.Schedule.{validate_schedules}
use provider_cloudnative_pg.Barman.Restore.{validate_data_source}
use provider_cloudnative_pg.Provider.Pooler.{validate_proxy}
use provider_cloudnative_pg.Provider.Validation.{
  Input, of_validate, of_schedules, of_extensions, of_images, of_proxy, of_data_source, custom_of,
  validate_prometheus, validate_custom, validate_with, validate,
}

module _ (q : Quantities) (names : NameChecks) (i : Input q.Quantity) where
  -- Every check passes for the engine and its custom specification, and the images are resolved.
  pub data Accepted : Type 0 where
    accepted :
        (engine : ComponentSpec q.Quantity) (custom : CnpgCustomSpec) (images : ExtensionImages)
        → lookup component_engine i.components ≡ some engine
        → validate_engine q names engine ≡ ok tt
        → validate_schedules i.unmarshal_backup names i.backup ≡ ok tt
        → custom_of i engine ≡ ok custom
        → validate_custom_spec q names custom ≡ ok tt
        → validate_synchronous q names engine custom ≡ ok tt
        → validate_scheduling engine.scheduling_policy custom ≡ ok tt
        → validate_extensions (some custom) engine.version i.version ≡ ok tt
        → resolve_extension_images i.get_catalog i.extension_catalog
            (some custom)
            engine.version
            i.version
          ≡ ok images
        → validate_extensions_not_disabled i.get_database i.instance (some custom) ≡ ok tt
        → validate_extensions_at_creation i.get_cluster i.instance (some custom) ≡ ok tt
        → validate_prometheus i custom ≡ ok tt
        → validate_proxy q i.decode_proxy names i.instance i.components ≡ ok tt
        → validate_data_source i.data_source ≡ ok tt
        → Accepted

  custom-Accepted :
      (engine : ComponentSpec q.Quantity) (custom : CnpgCustomSpec)
      → lookup component_engine i.components ≡ some engine
      → validate_engine q names engine ≡ ok tt
      → validate_schedules i.unmarshal_backup names i.backup ≡ ok tt
      → custom_of i engine ≡ ok custom
      → validate_custom q names i engine custom ≡ ok tt
      → Accepted
  unfolding validate_custom
  custom-Accepted engine custom there a b c h =
      let m1 = wrap of_validate (validate_custom_spec q names custom) in
      let r1 = ok-of-bind m1 _ tt h in
      let m2 = wrap of_validate (validate_synchronous q names engine custom) in
      let r2 = ok-of-bind m2 _ tt r1.2 in
      let m3 = wrap of_validate (validate_scheduling engine.scheduling_policy custom) in
      let r3 = ok-of-bind m3 _ tt r2.2 in
      let m4 = wrap of_extensions (validate_extensions (some custom) engine.version i.version) in
      let r4 = ok-of-bind m4 _ tt r3.2 in
      let m5 = wrap of_images (
        resolve_extension_images i.get_catalog i.extension_catalog (some custom) engine.version
          i.version) in
      let r5 = ok-of-bind m5 _ tt r4.2 in
      let m6 =
        wrap of_extensions
          (validate_extensions_not_disabled i.get_database i.instance (some custom)) in
      let r6 = ok-of-bind m6 _ tt r5.2 in
      let m7 =
        wrap of_extensions
          (validate_extensions_at_creation i.get_cluster i.instance (some custom)) in
      let r7 = ok-of-bind m7 _ tt r6.2 in
      let r8 = ok-of-bind (validate_prometheus i custom) _ tt r7.2 in
      let m9 = wrap of_proxy (validate_proxy q i.decode_proxy names i.instance i.components) in
      let r9 = ok-of-bind m9 _ tt r8.2 in
      accepted engine custom r5.0 there a b c (wrap-ok of_validate _ tt r1.1)
        (wrap-ok of_validate _ tt r2.1) (wrap-ok of_validate _ tt r3.1)
        (wrap-ok of_extensions _ tt r4.1) (wrap-ok of_images _ r5.0 r5.1)
        (wrap-ok of_extensions _ tt r6.1) (wrap-ok of_extensions _ tt r7.1) r8.1
        (wrap-ok of_proxy _ tt r9.1) (wrap-ok of_data_source _ tt r9.2)

  with-Accepted :
      (engine : ComponentSpec q.Quantity)
      → lookup component_engine i.components ≡ some engine
      → validate_with q names i engine ≡ ok tt
      → Accepted
  unfolding validate_with
  with-Accepted engine there h =
      let m1 = wrap of_validate (validate_engine q names engine) in
      let r1 = ok-of-bind m1 _ tt h in
      let m2 = wrap of_schedules (validate_schedules i.unmarshal_backup names i.backup) in
      let r2 = ok-of-bind m2 _ tt r1.2 in
      let r3 = ok-of-bind (custom_of i engine) _ tt r2.2 in
      custom-Accepted engine r3.0 there (wrap-ok of_validate _ tt r1.1)
        (wrap-ok of_schedules _ tt r2.1) r3.1 r3.2

  -- An Instance is accepted exactly when it has an engine component, the engine's parameters decode, and
  -- every one of the checks passes on what they decode to.
  pub validate_iff : (validate q names i ≡ ok tt) ↔ Accepted
  unfolding validate validate_with validate_custom
  validate_iff = (forth, back)
    where
      forth : validate q names i ≡ ok tt → Accepted
      forth h = elim (Option-cases (lookup component_engine i.components)) [
        | inl missing ↦ cc (rw (missing, validate) at h)
        | inr (engine, there) ↦ with-Accepted engine there (rw (there, validate) at h)
      ]

      back : Accepted → validate q names i ≡ ok tt
      back (accepted engine custom images there h1 h2 h3 h4 h5 h6 h7 h8 h9 h10 h11 h12 h13) =
          rw (there, validate)
            (rw (h1, h2, h3, validate_with)
              (rw (h4, h5, h6, h7, h8, h9, h10, h11, h12, h13, validate_custom) refl))
