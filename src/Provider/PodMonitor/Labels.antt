-- ===== src/Provider/PodMonitor/Labels.antt =====
-- `buildPodMonitor` of internal/provider/podmonitor.go: the labels of the user and the managed ones.
use provider_cloudnative_pg.Common.{
  prefer, String, Option, none, some, [], ◌∷◌, ◌≡◌, refl, ◌==◌, arith, ◌∙◌, if◌then◌else◌,
}
use provider_cloudnative_pg.Common.Dict.{Dict, lookup, insert, lookup-insert}
use provider_cloudnative_pg.Cnpg.Types.{Cluster}
use provider_cloudnative_pg.Provider.PodMonitor.{Runtime, copy, build_pod_monitor}

-- The value under a key of a map that is written entry by entry.
abbrev pub written_value : String → Dict String → Option String
written_value key [] = none
written_value key ((k, v) ∷ entries) =
    prefer (written_value key entries) (if k == key then some v else none)

lookup-copy :
    (key : String) (target source : Dict String)
    → lookup key (copy target source) ≡ prefer (written_value key source) (lookup key target)
unfolding copy
lookup-copy key target [] = refl
lookup-copy key target ((k, v) ∷ source) =
    lookup-copy key (insert k v target) source ∙ ground (arith, lookup-insert k key v target)

-- The labels of the user never override the managed ones: under every key the PodMonitor has the managed
-- label, and the label of the user where there is no managed one.
pub build_pod_monitor-labels :
    (r : Runtime) (instance : String) (pg : Cluster) (extra : Dict String) (key : String)
    → lookup key (build_pod_monitor r instance pg extra).labels
      ≡ prefer (written_value key r.managed_labels) (lookup key extra)
unfolding build_pod_monitor
build_pod_monitor-labels r instance pg extra key = lookup-copy key extra r.managed_labels
