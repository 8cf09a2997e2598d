-- ===== src/Provider/Sync/Kept.antt =====
-- `Sync` of internal/provider/provider.go: what its steps after the PodMonitor keep, as far as their writes
-- keep it.
use provider_cloudnative_pg.Barman.Schedule.Kept.{sync_scheduled_backups-keeps}
use provider_cloudnative_pg.Barman.Types.{ScheduledBackup}
use provider_cloudnative_pg.Cnpg.Components.{CnpgCustomSpec, PgBouncerParameters, component_proxy}
use provider_cloudnative_pg.Cnpg.Extensions.Database.{
  build_extensions_database, sync_extensions_database,
}
use provider_cloudnative_pg.Cnpg.Extensions.Images.{ExtensionImages}
use provider_cloudnative_pg.Cnpg.Quantities.{ComponentSpec, Quantities}
use provider_cloudnative_pg.Cnpg.Types.{DatabaseSpec}
use provider_cloudnative_pg.Common.{
  Bool, Option-cases, Result, String, err, false, inl, inr, ok, refl, some, true, ◌≡◌,
}
use provider_cloudnative_pg.Common.Dict.{lookup}
use provider_cloudnative_pg.Provider.Pooler
use provider_cloudnative_pg.Provider.Pooler.{
  build_pooler, delete_pooler, pooler_name, proxy_parameters, sync_pooler,
}
use provider_cloudnative_pg.Provider.Sync.{
  Client, Input, schedule_client, sync_database, sync_restored,
}
use provider_cloudnative_pg.Provider.Sync.Chains.{chain-keeps}
use provider_cloudnative_pg.Provider.Types.{Pooler}

module _ (c : Client) (K : c.stores.State → Type 0) (q : Quantities) (i : Input q.Quantity)
    (keep : (p : Pooler) (s : c.stores.State) → K s → K (c.apply_pooler p s).1)
    (drop : (n : String) (s : c.stores.State) → K s → K (c.delete_pooler n s).1) where
  no_pooler-keeps :
      (s : c.stores.State)
      → K s
      → K
          (delete_pooler q i.decode_proxy c.apply_pooler c.has_pooler c.delete_pooler i.self.name
            s).1
  unfolding delete_pooler
  no_pooler-keeps s here = go (c.has_pooler s (pooler_name i.self.name)) refl
    where
      gone : K (c.delete_pooler (pooler_name i.self.name) s).1
      gone = drop _ s here

      go :
          (r : Result String Bool)
          → c.has_pooler s (pooler_name i.self.name) ≡ r
          → K
              (delete_pooler q i.decode_proxy c.apply_pooler c.has_pooler c.delete_pooler
                i.self.name s).1
      go (err e) got = rw (got, delete_pooler) here
      go (ok false) got = rw (got, delete_pooler) here
      go (ok true) got = elim (Option-cases (c.delete_pooler (pooler_name i.self.name) s).0) [
        | inl fine ↦ rw (got, fine, delete_pooler) gone
        | inr (e, bad) ↦ rw (got, bad, delete_pooler) gone
      ]

  pub pooler-keeps :
      (on : Bool) (s : c.stores.State)
      → K s
      → K
          (sync_pooler q i.decode_proxy c.apply_pooler c.has_pooler c.delete_pooler i.resources_text
            i.self.name i.proxy_labels i.components on s).1
  unfolding sync_pooler
  pooler-keeps on s here = elim (Option-cases (lookup component_proxy i.components)) [
    | inl e ↦ rw (e, sync_pooler) (no_pooler-keeps s here)
    | inr (proxy, e) ↦ go proxy e (proxy_parameters q i.decode_proxy proxy) refl
  ]
    where
      go :
          (proxy : ComponentSpec q.Quantity)
          → lookup component_proxy i.components ≡ some proxy
          → (r : Result Pooler.Error PgBouncerParameters)
          → proxy_parameters q i.decode_proxy proxy ≡ r
          → K
              (sync_pooler q i.decode_proxy c.apply_pooler c.has_pooler c.delete_pooler
                i.resources_text i.self.name i.proxy_labels i.components on s).1
      go proxy e (err x) got = rw (e, got, sync_pooler) here
      go proxy e (ok params) got =
          let pooler =
            build_pooler q i.decode_proxy i.resources_text i.self.name i.proxy_labels proxy params
              on in
          let there = keep pooler s here in
          elim (Option-cases (c.apply_pooler pooler s).0) [
            | inl fine ↦ rw (e, got, fine, sync_pooler) there
            | inr (x, bad) ↦ rw (e, got, bad, sync_pooler) there
          ]

module _ (c : Client) (K : c.stores.State → Type 0) (q : Quantities) (i : Input q.Quantity)
    (keep : (n : String) (d : DatabaseSpec) (s : c.stores.State)
      → K s
      → K (c.apply_database n d s).1)
    (keep_scheduled : (sb : ScheduledBackup) (s : c.stores.State)
      → K s
      → K (c.apply_scheduled sb s).1)
    (drop_scheduled : (n : String) (s : c.stores.State) → K s → K (c.delete_scheduled n s).1) where
  database-keeps :
      (custom : CnpgCustomSpec) (images : ExtensionImages) (s : c.stores.State)
      → K s
      → K (sync_database q c i custom images s).1
  unfolding sync_extensions_database
  database-keeps custom images s here =
      elim (Option-cases (
        build_extensions_database i.runtime.default_database i.runtime.default_user i.self.name
          (some custom) images)) [
            | inl e ↦ rw (e, sync_extensions_database, sync_database) here
            | inr (d, e) ↦ rw (e, sync_extensions_database, sync_database) (keep _ d s here)
          ]

  pub restored-keeps :
      (custom : CnpgCustomSpec) (images : ExtensionImages) (done : Bool) (s : c.stores.State)
      → K s
      → K (sync_restored q c i custom images done s).1
  unfolding sync_restored
  restored-keeps custom images false s here = here
  restored-keeps custom images true s here =
      chain-keeps K _ _ _ (database-keeps custom images s here) (λ _ s here.
        chain-keeps K _ _ _
          (sync_scheduled_backups-keeps (schedule_client c) K keep_scheduled drop_scheduled
            i.unmarshal_backup i.self.name i.self.backup s here)
          (λ _ s here. here))
