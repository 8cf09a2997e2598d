-- ===== src/Barman/ObjectStore/Shared.antt =====
-- `checkSharedRetention` of internal/cnpg/barman/backup.go: when the Instances that share an
-- ObjectStore let one of them write its retention policy.
use provider_cloudnative_pg.Common.{
  String, true, List, [], ◌∷◌, ◌++◌, ◌≡◌, refl, ap, ◌∙◌, ◌↔◌, ◌⊎◌, inl, inr, Bool-cases, eq_iff,
  ne_of_test, text_cases, Result, ok, err, Got, found, not_found, failed, All, In, All-In,
}
use provider_cloudnative_pg.Barman.Types.{Instance, InstanceBackupStorage, ObjectStore}
use provider_cloudnative_pg.Barman.Schedule
use provider_cloudnative_pg.Barman.Schedule.{storage_retention_policy}
use provider_cloudnative_pg.Barman.ObjectStore.{
  Client, is_peer, backup_storages, conflicts_of_storages, conflicts_of, add_conflict, settle,
  check_shared_retention,
}

-- A storage of a peer has, where it names the store and its policy is valid, this policy.
Agrees : String → String → InstanceBackupStorage → Type 0
Agrees storage retention strg =
    strg.storage_ref ≡ storage
    → (policy : String) → storage_retention_policy strg ≡ ok policy
    → policy ≡ retention

add_conflict-nil :
    (peer retention : String) (r : Result Schedule.Error String) (rest : List (String × String))
    → (add_conflict peer retention r rest ≡ [])
      ↔ (((policy : String) → r ≡ ok policy → policy ≡ retention) × (rest ≡ []))
unfolding add_conflict
add_conflict-nil peer retention (err e) rest = (λ h. (λ policy e'. cc, h), λ h. h.1)
add_conflict-nil peer retention (ok policy) rest = elim (text_cases policy retention) [
  | inl same ↦
      rw ((eq_iff policy retention).1 same, add_conflict) (λ h. (λ p e. cc (same, e), h), λ h. h.1)
  | inr other ↦
      rw (other, add_conflict)
        (λ h. cc, λ h. absurd (ne_of_test policy retention other (h.0 policy refl)))
]

conflicts_of_storages-nil :
    (storage retention peer : String) (strgs : List InstanceBackupStorage)
    → (conflicts_of_storages storage retention peer strgs ≡ [])
      ↔ All (Agrees storage retention) strgs
unfolding conflicts_of_storages Agrees
conflicts_of_storages-nil storage retention peer [] = (λ _. tt, λ _. refl)
conflicts_of_storages-nil storage retention peer (strg ∷ strgs) =
    let rest = conflicts_of_storages-nil storage retention peer strgs in
    let here =
      add_conflict-nil peer retention (storage_retention_policy strg)
        (conflicts_of_storages storage retention peer strgs) in
    elim (text_cases strg.storage_ref storage) [
      | inr other ↦
          rw (other, conflicts_of_storages)
            (
              λ h. (λ e. absurd (ne_of_test strg.storage_ref storage other e), rest.0 h),
              λ h. rest.1 h.1,
            )
      | inl same ↦
          rw ((eq_iff strg.storage_ref storage).1 same, conflicts_of_storages)
            (λ h. (λ _. (here.0 h).0, rest.0 (here.0 h).1), λ h. here.1 (h.0 same, rest.1 h.1))
    ]

append-nil : {A : Type 0} (xs ys : List A) → ((xs ++ ys) ≡ []) ↔ ((xs ≡ []) × (ys ≡ []))
append-nil [] ys = (λ h. (refl, h), λ h. h.1)
append-nil (x ∷ xs) ys = (λ h. cc, λ h. cc (h.0))

-- A peer of `self` agrees with all its backup storages.
pub PeerAgrees : Instance → String → String → Instance → Type 0
PeerAgrees self storage retention peer =
    is_peer self peer ≡ true → All (Agrees storage retention) (backup_storages peer.backup)

conflicts_of-nil :
    (self : Instance) (storage retention : String) (peers : List Instance)
    → (conflicts_of self storage retention peers ≡ [])
      ↔ All (PeerAgrees self storage retention) peers
unfolding conflicts_of PeerAgrees
conflicts_of-nil self storage retention [] = (λ _. tt, λ _. refl)
conflicts_of-nil self storage retention (peer ∷ peers) =
    let rest = conflicts_of-nil self storage retention peers in
    let here =
      conflicts_of_storages-nil storage retention peer.name (backup_storages peer.backup) in
    let split =
      append-nil (conflicts_of_storages storage retention peer.name (backup_storages peer.backup))
        (conflicts_of self storage retention peers) in
    elim (Bool-cases (is_peer self peer)) [
      | inr other ↦ rw (other, conflicts_of) (λ h. (λ e. cc, rest.0 h), λ h. rest.1 h.1)
      | inl same ↦
          rw (same, conflicts_of)
            (
              λ h. (λ _. here.0 (split.0 h).0, rest.0 (split.0 h).1),
              λ h. split.1 (here.1 (h.0 refl), rest.1 h.1),
            )
    ]

-- The policy of the ObjectStore, if there is one.
abbrev policy_in : Got ObjectStore → String
policy_in (found store) = store.retention_policy
policy_in _ = ""

-- The ObjectStore exists and has the policy already.
pub Keeps : Got ObjectStore → String → Type 0
Keeps current retention =
    (store : ObjectStore) × (current ≡ found store) × (store.retention_policy ≡ retention)

settle-eq-ok :
    (self : Instance) (storage retention : String) (current : Got ObjectStore)
    (conflicts : List (String × String))
    → (settle self storage retention current conflicts ≡ ok tt)
      ↔ ((conflicts ≡ []) ⊎ Keeps current retention)
unfolding settle Keeps
settle-eq-ok self storage retention current [] = (λ _. inl refl, λ _. refl)
settle-eq-ok self storage retention not_found (c ∷ cs) =
    (λ h. cc, elim [ inl e ↦ cc | inr k ↦ cc (k.1) ])
settle-eq-ok self storage retention (failed e') (c ∷ cs) =
    (λ h. cc, elim [ inl e ↦ cc | inr k ↦ cc (k.1) ])
settle-eq-ok self storage retention (found store) (c ∷ cs) =
    elim (text_cases store.retention_policy retention) [
      | inl same ↦
          rw ((eq_iff store.retention_policy retention).1 same, settle)
            (λ _. inr (store, refl, same), λ _. refl)
      | inr other ↦
          rw (other, settle)
            (
              λ h. cc,
              elim [
                | inl e ↦ cc
                | inr k ↦ absurd (
                    ne_of_test store.retention_policy retention other
                      (ap (λ g. policy_in g) k.1 ∙ k.2))
              ],
            )
    ]

module _ (c : Client) (s : c.State) where
  -- When the list of the Instances can be read, an Instance may write a retention policy into a shared
  -- ObjectStore exactly when every live Instance of the provider agrees wherever its enabled backup
  -- names that store with a valid policy, or when the store has that policy already.
  pub check_shared_retention_iff :
      (self : Instance) (storage retention : String) (instances : List Instance)
      → c.list_instances s self.namespace ≡ ok instances
      → (check_shared_retention c s self storage retention ≡ ok tt) ↔ (
          All (PeerAgrees self storage retention) instances
          ⊎ Keeps (c.get_object_store s storage) retention)
  unfolding check_shared_retention
  check_shared_retention_iff self storage retention instances listed =
      let settled =
        settle-eq-ok self storage retention (c.get_object_store s storage)
          (conflicts_of self storage retention instances) in
      let agreed = conflicts_of-nil self storage retention instances in
      rw (listed, check_shared_retention)
        (
          λ h. elim (settled.0 h) [ inl e ↦ inl (agreed.0 e) | inr k ↦ inr k ],
          λ h. settled.1 (elim h [ inl a ↦ inl (agreed.1 a) | inr k ↦ inr k ]),
        )

-- What the agreement of a peer says of one of its storages.
pub PeerAgrees-In :
    (self peer : Instance) (storage retention policy : String) (strg : InstanceBackupStorage)
    → PeerAgrees self storage retention peer
    → is_peer self peer ≡ true
    → In strg (backup_storages peer.backup)
    → strg.storage_ref ≡ storage
    → storage_retention_policy strg ≡ ok policy
    → policy ≡ retention
unfolding PeerAgrees Agrees
PeerAgrees-In self peer storage retention policy strg agrees live there named =
    All-In (Agrees storage retention) (backup_storages peer.backup) (agrees live) strg there named
      policy

pub Keeps-store :
    (current : Got ObjectStore) (retention : String)
    → Keeps current retention
    → (store : ObjectStore) × (current ≡ found store) × (store.retention_policy ≡ retention)
unfolding Keeps
Keeps-store current retention kept = kept
