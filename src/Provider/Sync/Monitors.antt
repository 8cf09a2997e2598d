-- ===== src/Provider/Sync/Monitors.antt =====
-- `Sync` of internal/provider/provider.go with `syncPodMonitor` of podmonitor.go: the PodMonitor that a run
-- without an error leaves.
use provider_cloudnative_pg.Common.{
  String, Bool, true, false, Option, none, some, Bool-cases, ◌≡◌, refl, sym, ap, subst, ◌∙◌, inl,
  inr, Result, ok, err,
}
use provider_cloudnative_pg.Cnpg.Types.{Cluster, ClusterSpec, DatabaseSpec}
use provider_cloudnative_pg.Cnpg.Components.{CnpgCustomSpec}
use provider_cloudnative_pg.Cnpg.Quantities.{Quantities}
use provider_cloudnative_pg.Cnpg.Extensions.Images.{ExtensionImages}
use provider_cloudnative_pg.Barman.Types.{ScheduledBackup}
use provider_cloudnative_pg.Provider.Types.{Pooler}
use provider_cloudnative_pg.Provider.Validation
use provider_cloudnative_pg.Provider.Validation.{PrometheusParameters, prometheus_parameters}
use provider_cloudnative_pg.Provider.PodMonitor.{
  PodMonitor, Reply, written, no_match, refused, pod_monitor_name, build_pod_monitor,
  sync_pod_monitor,
}
use provider_cloudnative_pg.Provider.Sync.Applied.{sync-Writes}
use provider_cloudnative_pg.Provider.Sync.Chains.{chain-parts}
use provider_cloudnative_pg.Provider.Sync.Kept.{pooler-keeps, restored-keeps}
use provider_cloudnative_pg.Provider.Sync.{Client, Input, requires_tls, sync_resources, sync}

-- The PodMonitor of the Instance, as the documentation of the API has it: a write that succeeds sets or
-- removes it, an API that has no such kind holds none, and the writes of other resources leave it alone.
pub record HoldsMonitor (c : Client) (instance : String) : Type 0 where
  pub monitor : c.stores.State → Option PodMonitor
  pub monitor-apply :
      (m : PodMonitor) (s : c.stores.State)
      → m.name ≡ pod_monitor_name instance
      → (c.apply_pod_monitor m s).0 ≡ written
      → monitor (c.apply_pod_monitor m s).1 ≡ some m
  pub monitor-no_match :
      (m : PodMonitor) (s : c.stores.State)
      → (c.apply_pod_monitor m s).0 ≡ no_match
      → monitor (c.apply_pod_monitor m s).1 ≡ none
  pub no_monitor-written :
      (s : c.stores.State)
      → (c.delete_pod_monitor (pod_monitor_name instance) s).0 ≡ written
      → monitor (c.delete_pod_monitor (pod_monitor_name instance) s).1 ≡ none
  pub no_monitor-no_match :
      (s : c.stores.State)
      → (c.delete_pod_monitor (pod_monitor_name instance) s).0 ≡ no_match
      → monitor (c.delete_pod_monitor (pod_monitor_name instance) s).1 ≡ none
  pub monitor-pooler :
      (p : Pooler) (s : c.stores.State) → monitor (c.apply_pooler p s).1 ≡ monitor s
  pub monitor-no_pooler :
      (n : String) (s : c.stores.State) → monitor (c.delete_pooler n s).1 ≡ monitor s
  pub monitor-database :
      (n : String) (d : DatabaseSpec) (s : c.stores.State)
      → monitor (c.apply_database n d s).1 ≡ monitor s
  pub monitor-scheduled :
      (sb : ScheduledBackup) (s : c.stores.State) → monitor (c.apply_scheduled sb s).1 ≡ monitor s
  pub monitor-unscheduled :
      (n : String) (s : c.stores.State) → monitor (c.delete_scheduled n s).1 ≡ monitor s

module _ (q : Quantities) (c : Client) (i : Input q.Quantity) where
  -- The PodMonitor of the topology: none without Prometheus, and otherwise the one built from the Cluster
  -- that a write returned, or none where the API has no such kind.
  pub data IsMonitored (stored : Option PodMonitor) : Type 0 where
    off :
        (p : PrometheusParameters)
        → prometheus_parameters i.decode_topology i.topology ≡ ok p
        → p.enabled ≡ false
        → stored ≡ none
        → IsMonitored stored
    on :
        (p : PrometheusParameters) (spec : ClusterSpec) (s : c.stores.State) (pg : Cluster)
        → prometheus_parameters i.decode_topology i.topology ≡ ok p
        → p.enabled ≡ true
        → (c.apply_cluster i.self.name spec s).0 ≡ ok pg
        → stored ≡ some (build_pod_monitor i.monitoring i.self.name pg p.pod_monitor_labels)
        → IsMonitored stored
    skipped :
        (p : PrometheusParameters) (m : PodMonitor) (s : c.stores.State)
        → prometheus_parameters i.decode_topology i.topology ≡ ok p
        → p.enabled ≡ true
        → (c.apply_pod_monitor m s).0 ≡ no_match
        → stored ≡ none
        → IsMonitored stored

  module _ (h : HoldsMonitor c i.self.name) where
    open h use {monitor}

    monitor-IsMonitored :
        (spec : ClusterSpec) (before : c.stores.State) (pg : Cluster) (s : c.stores.State)
        → (c.apply_cluster i.self.name spec before).0 ≡ ok pg
        → (sync_pod_monitor c.apply_pod_monitor c.delete_pod_monitor i.decode_topology i.topology
            i.monitoring i.self.name pg s).0
          ≡ ok tt
        → IsMonitored (
            monitor
              (sync_pod_monitor c.apply_pod_monitor c.delete_pod_monitor i.decode_topology
                i.topology i.monitoring i.self.name pg s).1)
    unfolding sync_pod_monitor build_pod_monitor
    monitor-IsMonitored spec before pg s answer fine =
        go (prometheus_parameters i.decode_topology i.topology) refl
      where
        go :
            (r : Result Validation.Error PrometheusParameters)
            → prometheus_parameters i.decode_topology i.topology ≡ r
            → IsMonitored (
                monitor
                  (sync_pod_monitor c.apply_pod_monitor c.delete_pod_monitor i.decode_topology
                    i.topology i.monitoring i.self.name pg s).1)
        go (err e) got = cc (rw (got, sync_pod_monitor) at fine)
        go (ok p) got = elim (Bool-cases p.enabled) [
          | inl enabled ↦ applied enabled (c.apply_pod_monitor (wanted p) s).0 refl
          | inr disabled ↦
              deleted disabled (c.delete_pod_monitor (pod_monitor_name i.self.name) s).0 refl
        ]
          where
            wanted : PrometheusParameters → PodMonitor
            wanted p = build_pod_monitor i.monitoring i.self.name pg p.pod_monitor_labels

            applied :
                p.enabled ≡ true
                → (r : Reply) → (c.apply_pod_monitor (wanted p) s).0 ≡ r
                → IsMonitored (
                    monitor
                      (sync_pod_monitor c.apply_pod_monitor c.delete_pod_monitor i.decode_topology
                        i.topology i.monitoring i.self.name pg s).1)
            applied enabled written e =
                rw (got, enabled, sync_pod_monitor)
                  (on p spec before pg got enabled answer (h.monitor-apply (wanted p) s refl e))
            applied enabled no_match e =
                rw (got, enabled, sync_pod_monitor)
                  (skipped p (wanted p) s got enabled e (h.monitor-no_match (wanted p) s e))
            applied enabled (refused x) e = cc (rw (got, enabled, e, sync_pod_monitor) at fine)

            deleted :
                p.enabled ≡ false
                → (r : Reply) → (c.delete_pod_monitor (pod_monitor_name i.self.name) s).0 ≡ r
                → IsMonitored (
                    monitor
                      (sync_pod_monitor c.apply_pod_monitor c.delete_pod_monitor i.decode_topology
                        i.topology i.monitoring i.self.name pg s).1)
            deleted disabled written e =
                rw (got, disabled, sync_pod_monitor) (off p got disabled (h.no_monitor-written s e))
            deleted disabled no_match e =
                rw (got, disabled, sync_pod_monitor)
                  (off p got disabled (h.no_monitor-no_match s e))
            deleted disabled (refused x) e = cc (rw (got, disabled, e, sync_pod_monitor) at fine)

    resources-keep :
        (custom : CnpgCustomSpec) (images : ExtensionImages) (done : Bool) (pg : Cluster)
        (s : c.stores.State)
        → (sync_resources q c i custom images done pg s).0 ≡ ok tt
        → ((sync_pod_monitor c.apply_pod_monitor c.delete_pod_monitor i.decode_topology i.topology
              i.monitoring i.self.name pg s).0
            ≡ ok tt)
          × (monitor (sync_resources q c i custom images done pg s).1
              ≡ monitor
                  (sync_pod_monitor c.apply_pod_monitor c.delete_pod_monitor i.decode_topology
                    i.topology i.monitoring i.self.name pg s).1)
    unfolding sync_resources
    resources-keep custom images done pg s fine =
        let (_, monitored, got, e, h1) = chain-parts _ _ _ tt fine in
        let (_, pooled, got', e', h2) = chain-parts _ _ _ tt h1 in
        (
          ap (λ r. r.0) got,
          ap (λ r. monitor r.1) (e ∙ e')
              ∙ restored-keeps c (λ s'. monitor s' ≡ monitor pooled) q i
                  (λ n d s' here. h.monitor-database n d s' ∙ here)
                  (λ sb s' here. h.monitor-scheduled sb s' ∙ here)
                  (λ n s' here. h.monitor-unscheduled n s' ∙ here) custom images done pooled refl
              ∙ ap (λ r. monitor r.1) (sym got')
              ∙ pooler-keeps c (λ s'. monitor s' ≡ monitor monitored) q i
                  (λ p s' here. h.monitor-pooler p s' ∙ here)
                  (λ n s' here. h.monitor-no_pooler n s' ∙ here) (requires_tls custom) monitored
                  refl
              ∙ ap (λ r. monitor r.1) (sym got),
        )

    -- A run of `Sync` without an error, at whatever state of a restore, leaves the Instance with the
    -- PodMonitor of its topology: none without Prometheus, and otherwise the one built, with the labels of
    -- the topology, from the Cluster that a write returned, or none where the API has no such kind.
    pub sync-IsMonitored :
        (s : c.stores.State) → (sync q c i s).0 ≡ ok tt → IsMonitored (monitor (sync q c i s).1)
    sync-IsMonitored s fine =
        let (done, reconciled, custom, there, decoded, w) = sync-Writes q c i s fine in
        let (fine', kept) =
          resources-keep custom w.images done w.written w.applied
            (ap (λ r. r.0) (sym w.rest) ∙ fine) in
        subst IsMonitored (sym (ap (λ r. monitor r.1) w.rest ∙ kept))
          (monitor-IsMonitored w.spec w.synced w.written w.applied (ap (λ r. r.0) w.writes) fine')
