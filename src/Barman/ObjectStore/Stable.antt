-- ===== src/Barman/ObjectStore/Stable.antt =====
-- `SyncBackupInfrastructure` of internal/cnpg/barman/backup.go, run for the Instances of a namespace in any
-- order: the retention policy of an ObjectStore that they share.
use provider_cloudnative_pg.Common.{
  String, true, Option-cases, List, [], ◌∷◌, All, In, All-In, ◌≡◌, refl, sym, ap, subst, ◌∙◌, ◌⊎◌,
  inl, inr, Result, ok, err, wrap, wrap-ok, ok-of-bind, found,
}
use provider_cloudnative_pg.Barman.Types.{Instance, InstanceBackupStorage, ObjectStore}
use provider_cloudnative_pg.Barman.Schedule.{storage_retention_policy}
use provider_cloudnative_pg.Barman.ObjectStore.{
  Client, Error, is_peer, backup_storages, build_object_store, check_shared_retention,
  resolve_storage, check_credentials, endpoint_ca_ref, prepare, invalid_backup_retention,
  sync_storages, sync_enabled, sync_backup_infrastructure, with_plugins,
}
use provider_cloudnative_pg.Barman.ObjectStore.Shared.{
  PeerAgrees, PeerAgrees-In, Keeps, Keeps-store, check_shared_retention_iff,
}

-- What one round of the loop has checked of the ObjectStore that it writes.
prepare-parts :
    (c : Client) (s : c.State) (self : Instance) (strg : InstanceBackupStorage)
    (store : ObjectStore)
    → prepare c s self strg ≡ ok store
    → (retention : String) × (storage_retention_policy strg ≡ ok retention)
      × (check_shared_retention c s self strg.storage_ref retention ≡ ok tt)
      × (store.name ≡ strg.storage_ref)
      × (store.retention_policy ≡ retention)
unfolding prepare build_object_store
prepare-parts c s self strg store h =
    let (resolved, _, h1) = ok-of-bind (resolve_storage c s strg.storage_ref) _ store h in
    let (_, _, h2) = ok-of-bind (check_credentials c s resolved.0 resolved.1) _ store h1 in
    let (ca, _, h3) =
      ok-of-bind (endpoint_ca_ref c s strg.storage_ref resolved.1.endpoint_url) _ store h2 in
    let (retention, valid, h4) =
      ok-of-bind (wrap invalid_backup_retention (storage_retention_policy strg)) _ store h3 in
    let (_, checked, h5) =
      ok-of-bind (check_shared_retention c s self strg.storage_ref retention) _ store h4 in
    let made = ok-injective h5 in
    (
      retention,
      wrap-ok invalid_backup_retention (storage_retention_policy strg) retention valid,
      checked,
      ap (λ o. o.name) (sym made),
      ap (λ o. o.retention_policy) (sym made),
    )
  where
    ok-injective : {a b : ObjectStore} → Path (Result Error ObjectStore) (ok a) (ok b) → a ≡ b
    ok-injective e = cc

-- An Instance lives on and its backup names a storage with one policy; of the API, as its documentation has
-- it: a list of the Instances shows that one, and a write of an ObjectStore changes no other.
pub record IsShared (c : Client) (owner : Instance) (storage policy : String) : Type 0 where
  pub listed :
      (s : c.State) (instances : List Instance)
      → c.list_instances s owner.namespace ≡ ok instances
      → In owner instances
  pub read_back :
      (o store : ObjectStore) (s : c.State)
      → c.get_object_store (c.apply_object_store o s).1 storage ≡ found store
      → (c.get_object_store s storage ≡ found store) ⊎ ((o.name ≡ storage) × (store ≡ o))
  pub claim : InstanceBackupStorage
  pub claimed : In claim (backup_storages owner.backup)
  pub claim_names : claim.storage_ref ≡ storage
  pub claim_policy : storage_retention_policy claim ≡ ok policy
  pub only :
      (strg : InstanceBackupStorage) (retention : String)
      → In strg (backup_storages owner.backup)
      → strg.storage_ref ≡ storage
      → storage_retention_policy strg ≡ ok retention
      → retention ≡ policy

module _ (c : Client) (owner : Instance) (storage policy : String) where
  -- The ObjectStore, where it exists, has the policy.
  abbrev pub HasPolicy : c.State → Type 0
  HasPolicy s =
      (store : ObjectStore)
      → c.get_object_store s storage ≡ found store
      → store.retention_policy ≡ policy

  -- A run for the Instance itself or for one that shares storages with it.
  pub data Run : c.State → c.State → Type 0 where
    by_owner : (s : c.State) → Run s (sync_backup_infrastructure c owner s).1
    by_peer :
        (self : Instance) (s : c.State)
        → is_peer self owner ≡ true
        → self.namespace ≡ owner.namespace
        → Run s (sync_backup_infrastructure c self s).1

  pub data Runs : c.State → c.State → Type 0 where
    no_run : {s : c.State} → Runs s s
    then_run : {s t u : c.State} → Runs s t → Run t u → Runs s u

  module _ (h : IsShared c owner storage policy) where
    -- What an Instance writes into the store keeps the policy.
    Writes : Instance → InstanceBackupStorage → Type 0
    Writes self strg =
        (s : c.State) (store : ObjectStore)
        → HasPolicy s
        → prepare c s self strg ≡ ok store
        → store.name ≡ storage
        → store.retention_policy ≡ policy

    owner-Writes :
        (strg : InstanceBackupStorage) → In strg (backup_storages owner.backup) → Writes owner strg
    unfolding Writes
    owner-Writes strg there s store holds made named =
        let (retention, valid, _, name, same) = prepare-parts c s owner strg store made in
        same ∙ h.only strg retention there (sym name ∙ named) valid

    peer-Writes :
        (self : Instance) (strg : InstanceBackupStorage)
        → is_peer self owner ≡ true
        → self.namespace ≡ owner.namespace
        → Writes self strg
    unfolding Writes check_shared_retention
    peer-Writes self strg peer near s store holds made named =
        let (retention, valid, checked, name, same) = prepare-parts c s self strg store made in
        same
        ∙ go retention
            (subst (λ n. check_shared_retention c s self n retention ≡ ok tt) (sym name ∙ named)
              checked)
            (c.list_instances s self.namespace) refl
      where
        agreed :
            (retention : String) (instances : List Instance)
            → In owner instances
            → (All (PeerAgrees self storage retention) instances
                ⊎ Keeps (c.get_object_store s storage) retention)
            → retention ≡ policy
        agreed retention instances there (inl all) = sym (
            PeerAgrees-In self owner storage retention policy h.claim
              (All-In (PeerAgrees self storage retention) instances all owner there) peer h.claimed
              h.claim_names h.claim_policy)
        agreed retention instances there (inr kept) =
            let (o, e, k) = Keeps-store (c.get_object_store s storage) retention kept in
            sym k ∙ holds o e

        go :
            (retention : String)
            → check_shared_retention c s self storage retention ≡ ok tt
            → (r : Result String (List Instance)) → c.list_instances s self.namespace ≡ r
            → retention ≡ policy
        go retention checked (err e) got = cc (rw (got, check_shared_retention) at checked)
        go retention checked (ok instances) got =
            agreed retention instances
              (h.listed s instances (subst (λ n. c.list_instances s n ≡ ok instances) near got))
              ((check_shared_retention_iff c s self storage retention instances got).0 checked)

    -- A write of an ObjectStore with the policy, or of another one, keeps the policy.
    apply-HasPolicy :
        (o : ObjectStore) (s : c.State)
        → (o.name ≡ storage → o.retention_policy ≡ policy)
        → HasPolicy s
        → HasPolicy (c.apply_object_store o s).1
    apply-HasPolicy o s right holds store there = elim (h.read_back o store s there) [
      | inl before ↦ holds store before
      | inr (named, same) ↦ ap (λ o. o.retention_policy) same ∙ right named
    ]

    storages-HasPolicy :
        (self : Instance) (storages : List InstanceBackupStorage) (s : c.State)
        → ((strg : InstanceBackupStorage) → In strg storages → Writes self strg)
        → HasPolicy s
        → HasPolicy (sync_storages c self storages s).1
    unfolding sync_storages Writes
    storages-HasPolicy self [] s writes holds = holds
    storages-HasPolicy self (strg ∷ storages) s writes holds =
        go (λ s. storages-HasPolicy self storages s (λ x m. writes x (inr m)))
          (prepare c s self strg) refl
      where
        go :
            ((s : c.State) → HasPolicy s → HasPolicy (sync_storages c self storages s).1)
            → (r : Result Error ObjectStore) → prepare c s self strg ≡ r
            → HasPolicy (sync_storages c self (strg ∷ storages) s).1
        go rest (err e) got = rw (got, sync_storages) holds
        go rest (ok store) got =
            let written =
              apply-HasPolicy store s (λ named. writes strg (inl refl) s store holds got named)
                holds in
            let later = rest (c.apply_object_store store s).1 written in
            elim (Option-cases (c.apply_object_store store s).0) [
              | inl fine ↦ rw (got, fine, sync_storages) later
              | inr (e, bad) ↦ rw (got, bad, sync_storages) written
            ]

    enabled-HasPolicy :
        (self : Instance) (storages : List InstanceBackupStorage) (s : c.State)
        → ((strg : InstanceBackupStorage) → In strg storages → Writes self strg)
        → HasPolicy s
        → HasPolicy (sync_enabled c self storages s).1
    unfolding sync_enabled
    enabled-HasPolicy self [] s writes holds = holds
    enabled-HasPolicy self (strg ∷ storages) s writes holds =
        plugged strg.storage_ref (sync_storages c self (strg ∷ storages) s)
          (storages-HasPolicy self (strg ∷ storages) s writes holds)
      where
        plugged :
            (main : String) (r : Result Error (Unit {0}) × c.State)
            → HasPolicy r.1
            → HasPolicy (with_plugins main r).1
        plugged main (err e, s) k = k
        plugged main (ok _, s) k = k

    Run-HasPolicy : {s t : c.State} → Run s t → HasPolicy s → HasPolicy t
    unfolding sync_backup_infrastructure
    Run-HasPolicy (by_owner s) holds =
        enabled-HasPolicy owner (backup_storages owner.backup) s owner-Writes holds
    Run-HasPolicy (by_peer self s peer near) holds =
        enabled-HasPolicy self (backup_storages self.backup) s
          (λ strg _. peer-Writes self strg peer near) holds

    Runs-HasPolicy : {s t : c.State} → Runs s t → HasPolicy s → HasPolicy t
    Runs-HasPolicy no_run holds = holds
    Runs-HasPolicy (then_run before r) holds = Run-HasPolicy r (Runs-HasPolicy before holds)

    -- Over any sequence of runs for the Instances that share storages, whether they end with an error or
    -- not, a shared ObjectStore keeps the retention policy of an Instance that lives on and whose backup
    -- names it with that policy: no other Instance ever writes its own in its place.
    pub sync_backup_infrastructure-keeps_policy :
        {s t : c.State} (store : ObjectStore)
        → Runs s t
        → HasPolicy s
        → c.get_object_store t storage ≡ found store
        → store.retention_policy ≡ policy
    sync_backup_infrastructure-keeps_policy store runs holds = Runs-HasPolicy runs holds store
