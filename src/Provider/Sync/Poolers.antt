-- ===== src/Provider/Sync/Poolers.antt =====
-- `Sync` of internal/provider/provider.go with `syncPooler` of pooler.go: the Pooler that a run without an
-- error leaves.
use provider_cloudnative_pg.Common.{
  String, Bool, true, false, Option, none, some, Option-cases, is_some, ◌≡◌, refl, sym, ap, subst,
  ◌∙◌, inl, inr, Result, ok, err,
}
use provider_cloudnative_pg.Common.Dict.{lookup}
use provider_cloudnative_pg.Cnpg.Types.{Cluster, DatabaseSpec}
use provider_cloudnative_pg.Cnpg.Components.{CnpgCustomSpec, PgBouncerParameters, component_proxy}
use provider_cloudnative_pg.Cnpg.Quantities.{ComponentSpec, Quantities}
use provider_cloudnative_pg.Cnpg.Extensions.Images.{ExtensionImages}
use provider_cloudnative_pg.Barman.Types.{ScheduledBackup}
use provider_cloudnative_pg.Provider.Types.{Pooler}
use provider_cloudnative_pg.Provider.Pooler
use provider_cloudnative_pg.Provider.Pooler.{
  pooler_name, proxy_parameters, build_pooler, delete_pooler, sync_pooler,
}
use provider_cloudnative_pg.Provider.Sync.Applied.{sync-Writes}
use provider_cloudnative_pg.Provider.Sync.Chains.{chain-parts}
use provider_cloudnative_pg.Provider.Sync.Kept.{restored-keeps}
use provider_cloudnative_pg.Provider.Sync.{
  Client, Input, engine_of, custom_of, requires_tls, sync_resources, sync,
}

-- The Pooler of the Instance, as the documentation of the API has it: a write that succeeds sets or
-- removes it, a read shows whether it is there, and the writes of other resources leave it alone.
pub record HoldsPooler (c : Client) (instance : String) : Type 0 where
  pub pooler : c.stores.State → Option Pooler
  pub pooler-apply :
      (p : Pooler) (s : c.stores.State)
      → p.name ≡ pooler_name instance
      → (c.apply_pooler p s).0 ≡ none
      → pooler (c.apply_pooler p s).1 ≡ some p
  pub pooler-has :
      (s : c.stores.State) (there : Bool)
      → c.has_pooler s (pooler_name instance) ≡ ok there
      → is_some (pooler s) ≡ there
  pub pooler-delete :
      (s : c.stores.State)
      → (c.delete_pooler (pooler_name instance) s).0 ≡ none
      → pooler (c.delete_pooler (pooler_name instance) s).1 ≡ none
  pub pooler-database :
      (n : String) (d : DatabaseSpec) (s : c.stores.State)
      → pooler (c.apply_database n d s).1 ≡ pooler s
  pub pooler-scheduled :
      (sb : ScheduledBackup) (s : c.stores.State) → pooler (c.apply_scheduled sb s).1 ≡ pooler s
  pub pooler-unscheduled :
      (n : String) (s : c.stores.State) → pooler (c.delete_scheduled n s).1 ≡ pooler s

module _ (q : Quantities) (c : Client) (i : Input q.Quantity) where
  -- The Pooler of the spec: none without a proxy, and otherwise the one built from the proxy.
  pub data IsWanted (require_tls : Bool) (stored : Option Pooler) : Type 0 where
    absent :
        lookup component_proxy i.components ≡ none → stored ≡ none → IsWanted require_tls stored
    present :
        (proxy : ComponentSpec q.Quantity) (params : PgBouncerParameters)
        → lookup component_proxy i.components ≡ some proxy
        → proxy_parameters q i.decode_proxy proxy ≡ ok params
        → stored
          ≡ some (
              build_pooler q i.decode_proxy i.resources_text i.self.name i.proxy_labels proxy params
                require_tls)
        → IsWanted require_tls stored

  module _ (h : HoldsPooler c i.self.name) where
    open h use {pooler}

    none-of-is_some : (o : Option Pooler) → is_some o ≡ false → o ≡ none
    none-of-is_some none e = refl
    none-of-is_some (some p) e = cc

    deleted :
        (s : c.stores.State)
        → (delete_pooler q i.decode_proxy c.apply_pooler c.has_pooler c.delete_pooler i.self.name
            s).0
          ≡ ok tt
        → pooler
            (delete_pooler q i.decode_proxy c.apply_pooler c.has_pooler c.delete_pooler i.self.name
              s).1
          ≡ none
    unfolding delete_pooler
    deleted s fine = go (c.has_pooler s (pooler_name i.self.name)) refl
      where
        go :
            (r : Result String Bool)
            → c.has_pooler s (pooler_name i.self.name) ≡ r
            → pooler
                (delete_pooler q i.decode_proxy c.apply_pooler c.has_pooler c.delete_pooler
                  i.self.name s).1
              ≡ none
        go (err e) got = cc (rw (got, delete_pooler) at fine)
        go (ok false) got =
            rw (got, delete_pooler) (none-of-is_some (pooler s) (h.pooler-has s false got))
        go (ok true) got = elim (Option-cases (c.delete_pooler (pooler_name i.self.name) s).0) [
          | inl done ↦ rw (got, done, delete_pooler) (h.pooler-delete s done)
          | inr (e, bad) ↦ cc (rw (got, bad, delete_pooler) at fine)
        ]

    pooler-IsWanted :
        (on : Bool) (s : c.stores.State)
        → (sync_pooler q i.decode_proxy c.apply_pooler c.has_pooler c.delete_pooler i.resources_text
            i.self.name i.proxy_labels i.components on s).0
          ≡ ok tt
        → IsWanted on (
            pooler
              (sync_pooler q i.decode_proxy c.apply_pooler c.has_pooler c.delete_pooler
                i.resources_text i.self.name i.proxy_labels i.components on s).1)
    unfolding sync_pooler
    pooler-IsWanted on s fine = elim (Option-cases (lookup component_proxy i.components)) [
      | inl e ↦ rw (e, sync_pooler) (absent e (deleted s (rw (e, sync_pooler) at fine)))
      | inr (proxy, e) ↦ go proxy e (proxy_parameters q i.decode_proxy proxy) refl
    ]
      where
        go :
            (proxy : ComponentSpec q.Quantity)
            → lookup component_proxy i.components ≡ some proxy
            → (r : Result Pooler.Error PgBouncerParameters)
            → proxy_parameters q i.decode_proxy proxy ≡ r
            → IsWanted on (
                pooler
                  (sync_pooler q i.decode_proxy c.apply_pooler c.has_pooler c.delete_pooler
                    i.resources_text i.self.name i.proxy_labels i.components on s).1)
        go proxy e (err x) got = cc (rw (e, got, sync_pooler) at fine)
        go proxy e (ok params) got =
            let p =
              build_pooler q i.decode_proxy i.resources_text i.self.name i.proxy_labels proxy params
                on in
            elim (Option-cases (c.apply_pooler p s).0) [
              | inl done ↦
                  rw (e, got, done, sync_pooler)
                    (present proxy params e got (h.pooler-apply p s refl done))
              | inr (x, bad) ↦ cc (rw (e, got, bad, sync_pooler) at fine)
            ]

    resources-IsWanted :
        (custom : CnpgCustomSpec) (images : ExtensionImages) (done : Bool) (pg : Cluster)
        (s : c.stores.State)
        → (sync_resources q c i custom images done pg s).0 ≡ ok tt
        → IsWanted (requires_tls custom) (pooler (sync_resources q c i custom images done pg s).1)
    unfolding sync_resources
    resources-IsWanted custom images done pg s fine =
        let (_, monitored, got, e, h1) = chain-parts _ _ _ tt fine in
        let (_, pooled, got', e', h2) = chain-parts _ _ _ tt h1 in
        subst (IsWanted (requires_tls custom))
          (ap pooler (ap (λ r. r.1) got')
            ∙ sym (
                restored-keeps c (λ s'. pooler s' ≡ pooler pooled) q i
                  (λ n d s' here. h.pooler-database n d s' ∙ here)
                  (λ sb s' here. h.pooler-scheduled sb s' ∙ here)
                  (λ n s' here. h.pooler-unscheduled n s' ∙ here) custom images done pooled refl)
            ∙ ap (λ r. pooler r.1) (sym (e ∙ e')))
          (pooler-IsWanted (requires_tls custom) monitored (ap (λ r. r.0) got'))

    -- A run of `Sync` without an error, at whatever state of a restore, leaves the Instance with the Pooler
    -- of its spec: none without a proxy component, and otherwise the one that the proxy, its parameters
    -- and the requirement of TLS give.
    pub sync-IsWanted :
        (custom : CnpgCustomSpec) (s : c.stores.State)
        → custom_of q c i (engine_of i.components) ≡ ok custom
        → (sync q c i s).0 ≡ ok tt
        → IsWanted (requires_tls custom) (pooler (sync q c i s).1)
    sync-IsWanted custom s decoded fine =
        let (done, reconciled, custom', there, decoded', w) = sync-Writes q c i s fine in
        let same : custom' ≡ custom = custom-injective (sym decoded' ∙ decoded) in
        subst (λ r. IsWanted (requires_tls custom) (pooler r.1))
          (sym (w.rest ∙ ap (λ x. sync_resources q c i x w.images done w.written w.applied) same))
          (resources-IsWanted custom w.images done w.written w.applied (
            ap (λ r. r.0)
              (sym
                (w.rest ∙ ap (λ x. sync_resources q c i x w.images done w.written w.applied) same))
            ∙ fine))
      where
        custom-injective :
            {a b : CnpgCustomSpec} → Path (Result String CnpgCustomSpec) (ok a) (ok b) → a ≡ b
        custom-injective e = cc
