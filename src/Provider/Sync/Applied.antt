-- ===== src/Provider/Sync/Applied.antt =====
-- `Sync` of internal/provider/provider.go: the Cluster that a run without an error has written.
use provider_cloudnative_pg.Common.{
  String, Bool, true, false, Option, none, some, List, ◌≡◌, refl, sym, ◌∙◌, ap, subst, Result, ok,
  if◌then◌else◌,
}
use provider_cloudnative_pg.Cnpg.Types.{
  Cluster, ClusterSpec, BootstrapRecovery, ExternalCluster, PluginConfiguration,
}
use provider_cloudnative_pg.Cnpg.Components.{CnpgCustomSpec}
use provider_cloudnative_pg.Cnpg.Quantities.{Quantities}
use provider_cloudnative_pg.Cnpg.Extensions.Images.{ExtensionImages, resolve_extension_images}
use provider_cloudnative_pg.Barman.ObjectStore.{sync_backup_infrastructure}
use provider_cloudnative_pg.Provider.Desired
use provider_cloudnative_pg.Provider.Desired.{
  build_cluster_spec, complete, desired_spec, map_option, or_keep, empty_postgres,
}
use provider_cloudnative_pg.Provider.Desired.Laws.{desired_spec-access}
use provider_cloudnative_pg.Cnpg.Tls.{access, is_required, reject_non_tls_rule}
use provider_cloudnative_pg.Provider.Sync.Chains.{chain-parts, check-parts}
use provider_cloudnative_pg.Provider.Sync.{
  Client, Input, Error, engine_of, custom_of, runtime_for, recovery_for, sync_resources,
  sync_cluster, sync_spec, sync,
}

module _ (q : Quantities) (c : Client) (i : Input q.Quantity) where
  -- After the checks of what it reads, `Sync` from `buildClusterSpec` on is the backup infrastructure,
  -- the write of the Cluster with the specification that `desired_spec` makes of the images, the
  -- recovery and the plugins, and the rest.
  pub record Writes (custom : CnpgCustomSpec) (done : Bool) (start : c.stores.State)
      (run : Result Error (Unit {0}) × c.stores.State) : Type 0 where
    pub runtime : Desired.Runtime
    pub images : ExtensionImages
    pub recovery : Option (BootstrapRecovery × ExternalCluster)
    pub plugins : List PluginConfiguration
    pub spec : ClusterSpec
    pub synced : c.stores.State
    pub written : Cluster
    pub applied : c.stores.State
    pub run_by : runtime_for q c i (engine_of i.components).image start ≡ ok runtime
    pub resolved :
        resolve_extension_images
          (c.get_catalog start)
          i.extension_catalog
          (some custom)
          (engine_of i.components).version
          i.version
        ≡ ok images
    pub recovered : recovery_for q c i custom i.self.data_source start ≡ ok recovery
    pub archived : sync_backup_infrastructure c.stores i.self start ≡ (ok plugins, synced)
    pub desired :
        desired_spec q runtime (engine_of i.components) custom images recovery plugins ≡ some spec
    pub writes : c.apply_cluster i.self.name spec synced ≡ (ok written, applied)
    pub rest : run ≡ sync_resources q c i custom images done written applied

  spec-Writes :
      (custom : CnpgCustomSpec) (done : Bool) (s : c.stores.State) (start : Option ClusterSpec)
      → build_cluster_spec q (engine_of i.components) custom ≡ start
      → (sync_spec q c i (engine_of i.components) custom done start s).0 ≡ ok tt
      → Writes custom done s (sync_spec q c i (engine_of i.components) custom done start s)
  unfolding sync_spec sync_cluster desired_spec
  spec-Writes custom done s none built h = cc
  spec-Writes custom done s (some start) built h =
      let (r, run_by, e1, h1) = check-parts _ _ s _ tt h in
      let (images, resolved, e2, h2) = check-parts _ _ s _ tt h1 in
      let (recovery, recovered, e3, h3) = check-parts _ _ s _ tt h2 in
      let (plugins, synced, archived, e4, h4) = chain-parts _ _ _ tt h3 in
      let (pg, after, applied, e5, h5) = chain-parts _ _ _ tt h4 in
      record {
        runtime = r;
        images = images;
        recovery = recovery;
        plugins = plugins;
        spec = complete r (engine_of i.components) custom images recovery plugins start;
        synced = synced;
        written = pg;
        applied = after;
        run_by = run_by;
        resolved = resolved;
        recovered = recovered;
        archived = archived;
        desired =
            ap (map_option (complete r (engine_of i.components) custom images recovery plugins))
              built;
        writes = applied;
        rest = e1 ∙ e2 ∙ e3 ∙ e4 ∙ e5;
      }

  -- A run of `Sync` without an error reconciles the data source, decodes the parameters, brings the
  -- backup infrastructure up to date, writes the Cluster with the desired specification, and goes on
  -- with the other resources.
  pub sync-Writes :
      (s : c.stores.State)
      → (sync q c i s).0 ≡ ok tt
      → (done : Bool) × (reconciled : c.stores.State) × (custom : CnpgCustomSpec)
        × (c.reconcile_data_source s ≡ (ok done, reconciled))
        × (custom_of q c i (engine_of i.components) ≡ ok custom)
        × Writes custom done reconciled (sync q c i s)
  unfolding sync
  sync-Writes s h =
      let (done, reconciled, there, e1, h1) = chain-parts _ (c.reconcile_data_source s) _ tt h in
      let (custom, decoded, e2, h2) = check-parts _ _ reconciled _ tt h1 in
      (
        done,
        reconciled,
        custom,
        there,
        decoded,
        subst (Writes custom done reconciled) (sym (e1 ∙ e2))
            (spec-Writes custom done reconciled _ refl h2),
      )

  -- With TLS required, the Cluster that a run of `Sync` without an error writes rejects every
  -- connection over TCP/IP without TLS and leaves all others to the rules of the user, where `decide`
  -- reads the rule `hostnossl all all all reject` as the documentation of PostgreSQL does.
  pub sync-access :
      {Connection : Type 0} (is_tls : Connection → Bool)
      (decide : String → Connection → Option Bool) (conn : Connection) (custom : CnpgCustomSpec)
      (s : c.stores.State)
      → decide reject_non_tls_rule conn ≡ (if is_tls conn then none else some false)
      → custom_of q c i (engine_of i.components) ≡ ok custom
      → is_required custom.require_tls ≡ true
      → (sync q c i s).0 ≡ ok tt
      → (done : Bool) × (reconciled : c.stores.State) × (w : Writes custom done reconciled
          (sync q c i s))
        × (access is_tls decide w.spec.postgresql.pg_hba conn ≡ (
            if is_tls conn
            then access is_tls decide (or_keep custom.postgresql empty_postgres).pg_hba conn
            else some false))
  sync-access is_tls decide conn custom s rule decoded on h =
      let (done, reconciled, custom', there, decoded', w) = sync-Writes s h in
      let same : custom' ≡ custom = ok-injective (sym decoded' ∙ decoded) in
      let w' = subst (λ x. Writes x done reconciled (sync q c i s)) same w in
      (
        done,
        reconciled,
        w',
        desired_spec-access q w'.runtime (engine_of i.components) custom w'.images w'.recovery
            w'.plugins w'.spec is_tls decide conn rule on w'.desired,
      )
    where
      ok-injective :
          {a b : CnpgCustomSpec} → Path (Result String CnpgCustomSpec) (ok a) (ok b) → a ≡ b
      ok-injective e = cc
