-- ===== src/Provider/Pooler/Laws.antt =====
-- internal/provider/pooler.go: the Pooler's part in readiness, and the Pooler of a checked proxy.
use provider_cloudnative_pg.Common.{
  String, Bool, true, false, ◌≡◌, ◌≢◌, refl, sym, inl, inr, Bool-cases, Result, ok, Got, found,
  not_found, failed,
}
use provider_cloudnative_pg.Common.Int.{ltb_ℤ}
use provider_cloudnative_pg.Cnpg.Status.{ConnectionDetails, ready}
use provider_cloudnative_pg.Provider.Types.{Pooler, PoolerPhase, Deployment}
use provider_cloudnative_pg.Provider.Pooler.{
  Error, Readiness, blocks, serves, pooler_blocks_ready, pooler_readiness, phase_readiness,
  deployment_readiness, want_of, pooler_details, pooler_name,
}

-- What lets the Instance be ready with `details'`: an active Pooler whose Deployment has the wanted pods.
pub data Serves (get_pooler : String → Got Pooler) (get_deployment : String → Got Deployment)
    (instance namespace : String) (details details' : ConnectionDetails) : Type 0 where
  served :
      (pooler : Pooler) (d : Deployment)
      → get_pooler (pooler_name instance) ≡ found pooler
      → pooler.phase ≡ PoolerPhase.active
      → get_deployment pooler.name ≡ found d
      → ltb_ℤ d.ready_replicas (want_of pooler.instances) ≡ false
      → details' ≡ pooler_details pooler.name namespace details
      → Serves get_pooler get_deployment instance namespace details details'

pub serves-injective :
    (a b : ConnectionDetails)
    → Path (Result Error Readiness) (ok (serves a)) (ok (serves b))
    → a ≡ b
serves-injective a b h = cc

module _ (get_pooler : String → Got Pooler) (get_deployment : String → Got Deployment)
    (instance namespace : String) (details : ConnectionDetails) where
  deployment-Serves :
      (got : Got Deployment) (pooler : Pooler) (details' : ConnectionDetails)
      → get_pooler (pooler_name instance) ≡ found pooler
      → pooler.phase ≡ PoolerPhase.active
      → get_deployment pooler.name ≡ got
      → deployment_readiness got pooler namespace details ≡ ok (serves details')
      → Serves get_pooler get_deployment instance namespace details details'
  unfolding deployment_readiness
  deployment-Serves not_found pooler details' p a g h = cc
  deployment-Serves (failed e) pooler details' p a g h = cc
  deployment-Serves (found d) pooler details' p a g h =
      elim (Bool-cases (ltb_ℤ d.ready_replicas (want_of pooler.instances))) [
        | inl few ↦ cc (rw (few, deployment_readiness) at h)
        | inr enough ↦
            served pooler d p a g enough
              (sym (serves-injective _ details' (rw (enough, deployment_readiness) at h)))
      ]

  phase-Serves :
      (phase : PoolerPhase) (pooler : Pooler) (details' : ConnectionDetails)
      → get_pooler (pooler_name instance) ≡ found pooler
      → pooler.phase ≡ phase
      → phase_readiness get_deployment phase pooler namespace details ≡ ok (serves details')
      → Serves get_pooler get_deployment instance namespace details details'
  unfolding phase_readiness
  phase-Serves (PoolerPhase.failed t) pooler details' p a h = cc
  phase-Serves (PoolerPhase.other_phase t) pooler details' p a h = cc
  phase-Serves PoolerPhase.active pooler details' p a h =
      deployment-Serves (get_deployment pooler.name) pooler details' p a refl h

  pooler-Serves :
      (got : Got Pooler) (details' : ConnectionDetails)
      → get_pooler (pooler_name instance) ≡ got
      → pooler_readiness get_deployment got namespace details ≡ ok (serves details')
      → Serves get_pooler get_deployment instance namespace details details'
  unfolding pooler_readiness
  pooler-Serves not_found details' e h = cc
  pooler-Serves (failed e') details' e h = cc
  pooler-Serves (found pooler) details' e h = phase-Serves pooler.phase pooler details' e refl h

  -- With a proxy component, the Pooler lets the Instance become ready only if it is active and its
  -- Deployment has all the pods that it wants; the details then lead to the Pooler's Service.
  pub pooler_blocks_ready-Serves :
      (details' : ConnectionDetails)
      → pooler_blocks_ready get_pooler get_deployment true instance namespace details
        ≡ ok (serves details')
      → Serves get_pooler get_deployment instance namespace details details'
  unfolding pooler_blocks_ready
  pooler_blocks_ready-Serves details' h =
      pooler-Serves (get_pooler (pooler_name instance)) details' refl h

  deployment-unready :
      (got : Got Deployment) (pooler : Pooler) (d' : ConnectionDetails)
      → deployment_readiness got pooler namespace details ≢ ok (blocks (ready d'))
  unfolding deployment_readiness
  deployment-unready not_found pooler d' h = cc
  deployment-unready (failed e) pooler d' h = cc
  deployment-unready (found d) pooler d' h =
      elim (Bool-cases (ltb_ℤ d.ready_replicas (want_of pooler.instances))) [
        | inl few ↦ cc (rw (few, deployment_readiness) at h)
        | inr enough ↦ cc (rw (enough, deployment_readiness) at h)
      ]

  phase-unready :
      (phase : PoolerPhase) (pooler : Pooler) (d' : ConnectionDetails)
      → phase_readiness get_deployment phase pooler namespace details ≢ ok (blocks (ready d'))
  unfolding phase_readiness
  phase-unready (PoolerPhase.failed t) pooler d' h = cc
  phase-unready (PoolerPhase.other_phase t) pooler d' h = cc
  phase-unready PoolerPhase.active pooler d' h =
      deployment-unready (get_deployment pooler.name) pooler d' h

  got-unready :
      (got : Got Pooler) (d' : ConnectionDetails)
      → pooler_readiness get_deployment got namespace details ≢ ok (blocks (ready d'))
  unfolding pooler_readiness
  got-unready not_found d' h = cc
  got-unready (failed e') d' h = cc
  got-unready (found pooler) d' h = phase-unready pooler.phase pooler d' h

  -- A status that the Pooler blocks with is not readiness.
  pub pooler_blocks_ready-unready :
      (has_proxy : Bool) (d' : ConnectionDetails)
      → pooler_blocks_ready get_pooler get_deployment has_proxy instance namespace details
        ≢ ok (blocks (ready d'))
  unfolding pooler_blocks_ready
  pooler_blocks_ready-unready false d' h = cc
  pooler_blocks_ready-unready true d' h = got-unready (get_pooler (pooler_name instance)) d' h
