-- ===== src/Cluster/Deleting.antt =====
-- `Sync` of pkg/gitops/gitops_sync.go with the export of pkg/kubernetes/kubernetes.go: what may be deleted.
use choerodon_cluster_agent.Base.{◌≡◌, false, ◌==◌, nat_eq, list_eq, Option}
use choerodon_cluster_agent.Base.Text.{Text}
use choerodon_cluster_agent.Manifest.{BaseObject, Decoded, object}
use choerodon_cluster_agent.Cluster.{Settings, K8sObject, K8sResource, Query, Listed}
use choerodon_cluster_agent.Cluster.Selection.{IsSelected}
use choerodon_cluster_agent.Cluster.Scanned.{IsDocumentOf}

-- The decoder leaves the bytes of the object that it fills in.
abbrev pub KeepsBytes : (Text → BaseObject → Decoded) → Type 0
KeepsBytes decode = (d : Text) (b o : BaseObject) → decode d b ≡ object o → o.bytes ≡ b.bytes

module _ {B : Type 0} (marshal : K8sObject B → Option Text) where
  module _ (lists : Query → Listed (K8sObject B)) (s : Settings) (namespace : Text) where
    -- These bytes are a document of a resource that the filters select.
    abbrev pub IsOfSelected : Text → Type 0
    IsOfSelected bytes =
        (r : K8sResource B) × (IsSelected lists s namespace r
          × ((r.object.name == namespace) ≡ false))
        × IsDocumentOf marshal r bytes
