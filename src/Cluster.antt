-- ===== src/Cluster.antt =====
-- pkg/kubernetes: the export of an environment. resourcekinds.go has the kinds of resources with their
-- filters by labels, and kubernetes.go `Export` and `appendYAML`. The lists of the API server and the YAML
-- encoder are parameters, and so is the order in which Go visits the map of the kinds.
pub mod Exporting
pub mod Selection
pub mod Scanned
pub mod Documents
pub mod Deleting
mod Tests
use choerodon_cluster_agent.Base.{
  Bool, true, false, not, ◌&&◌, Option, none, some, List, [], ◌∷◌, ◌++◌, ◌==◌, nat_eq, list_eq,
  if◌then◌else◌,
}
use choerodon_cluster_agent.Base.Dict.{Dict, lookup}
use choerodon_cluster_agent.Base.Text.{Text, codes}

-- The labels of pkg/agent/model/label.go that the filters read.
abbrev pub network_label : Text
network_label = codes "choerodon.io/network"

abbrev pub network_no_del_label : Text
network_no_del_label = codes "choerodon.io/no_delete"

abbrev pub release_label : Text
release_label = codes "choerodon.io/release"

abbrev pub agent_version_label : Text
agent_version_label = codes "choerodon.io"

abbrev pub tls_secret_label : Text
tls_secret_label = codes "choerodon.io/tls-secret"

abbrev pub workload_label : Text
workload_label = codes "choerodon.io/workload"

abbrev pub release_cluster_label : Text
release_cluster_label = codes "choerodon.io/C7NHelmRelease-cluster"

abbrev pub pvc_label : Text
pvc_label = codes "choerodon.io/pvc"

abbrev pub pv_label : Text
pv_label = codes "choerodon.io/pv"

abbrev pub env_label : Text
env_label = codes "choerodon.io/env"

-- The variables of package model that the filters read.
pub record Settings : Type 0 where
  pub cert_manager_version : Text
  pub agent_namespace : Text
  pub cluster_id : Text
  pub restricted_model : Bool

-- The implementations of `ResourceKind`.
pub data Kind : Type 0 where
  service ingress c7n_helm_release config_map secret persistent_volume_claim : Kind
  persistent_volume certificate deployment daemon_set job cron_job stateful_set : Kind

-- `K8sObject`: the name, the labels and what else there is for the encoder.
pub record K8sObject (B : Type 0) : Type 0 where
  pub name : Text
  pub labels : Dict Text Text
  pub body : B

-- `K8sResource`
pub record K8sResource (B : Type 0) : Type 0 where
  pub object : K8sObject B
  pub api_version : Text
  pub kind : Text
  pub name : Text

-- The lists that the API server is asked for.
pub data Query : Type 0 where
  v1alpha1_certificates v1_certificates : Text → Query
  list_of : Kind → Text → Query
  volumes : Query

-- What a list call returns; `not_found` is the error for a kind that the server does not know.
pub data Listed (A : Type 0) : Type 0 where
  listed : List A → Listed A
  not_found failed : Listed A

-- `labels[key]`, which is empty where the key is missing, and the test whether the key is there.
unfoldable pub label : Text → Dict Text Text → Text
label key labels = elim (lookup key labels) [ none ↦ [] | some v ↦ v ]

unfoldable pub has_label : Text → Dict Text Text → Bool
has_label key labels = elim (lookup key labels) [ none ↦ false | some _ ↦ true ]

-- `ResourceKinds`, in some order: no entry has the persistent volumes.
abbrev pub resource_kinds : List Kind
resource_kinds =
    service ∷ ingress ∷ c7n_helm_release ∷ config_map ∷ secret ∷ persistent_volume_claim
    ∷ certificate ∷ deployment ∷ daemon_set ∷ job ∷ cron_job ∷ stateful_set ∷ []

-- The resources that were not installed by Helm and that the agent has labelled.
abbrev is_own : Dict Text Text → Bool
is_own labels = label release_label labels == [] && not (label agent_version_label labels == [])

abbrev is_network : Dict Text Text → Bool
is_network labels = has_label network_label labels && not (has_label network_no_del_label labels)

-- The conditions of the loops of `GetResources`.
unfoldable pub selects : Settings → Text → Kind → Dict Text Text → Bool
unfolding label has_label
selects s namespace service labels = is_network labels
selects s namespace ingress labels = is_network labels
selects s namespace c7n_helm_release labels =
    if namespace == s.agent_namespace
    then label release_cluster_label labels == s.cluster_id
    else true
selects s namespace config_map labels = is_own labels
selects s namespace secret labels = label tls_secret_label labels == [] && is_own labels
selects s namespace persistent_volume_claim labels =
    is_own labels && label pvc_label labels == codes "pvc-cluster-" ++ s.cluster_id
selects s namespace persistent_volume labels =
    is_own labels
    && label pv_label labels == codes "pv-cluster-" ++ s.cluster_id
    && label env_label labels == namespace
selects s namespace certificate labels = true
selects s namespace deployment labels = label workload_label labels == codes "Deployment"
selects s namespace daemon_set labels = label workload_label labels == codes "DaemonSet"
selects s namespace job labels = label workload_label labels == codes "Job"
selects s namespace cron_job labels = label workload_label labels == codes "CronJob"
selects s namespace stateful_set labels = label workload_label labels == codes "StatefulSet"

-- The API version and the kind that the functions `make…K8sResource` set.
unfoldable pub type_of : Kind → Text × Text
type_of service = (codes "v1", codes "Service")
type_of ingress = (codes "extensions/v1beta1", codes "Ingress")
type_of c7n_helm_release = (codes "choerodon.io/v1alpha1", codes "C7NHelmRelease")
type_of config_map = (codes "v1", codes "ConfigMap")
type_of secret = (codes "v1", codes "Secret")
type_of persistent_volume_claim = (codes "v1", codes "PersistentVolumeClaim")
type_of persistent_volume = (codes "v1", codes "PersistentVolume")
type_of certificate = (codes "v1", codes "Certificate")
type_of deployment = (codes "apps/v1", codes "Deployment")
type_of daemon_set = (codes "apps/v1", codes "DaemonSet")
type_of job = (codes "batch/v1", codes "Job")
type_of cron_job = (codes "batch/v1beta1", codes "CronJob")
type_of stateful_set = (codes "apps/v1", codes "StatefulSet")

module _ {B : Type 0} where
  unfoldable pub make_resource : Text × Text → K8sObject B → K8sResource B
  make_resource type o = record { object = o; api_version = type.0; kind = type.1; name = o.name }

  -- The loop of `GetResources` over the items of a list.
  unfoldable pub choose :
      (Dict Text Text → Bool) → Text × Text → List (K8sObject B) → List (K8sResource B)
  choose test type [] = []
  choose test type (o ∷ items) =
      let rest = choose test type items in
      if test o.labels then make_resource type o ∷ rest else rest

  unfoldable pub choose_listed :
      (Dict Text Text → Bool) → Text × Text → Listed (K8sObject B) → Listed (K8sResource B)
  choose_listed test type (listed items) = listed (choose test type items)
  choose_listed test type not_found = not_found
  choose_listed test type failed = failed

  -- Two lists, one after the other: an error of either is the result.
  unfoldable pub join_listed :
      Listed (K8sResource B) → Listed (K8sResource B) → Listed (K8sResource B)
  join_listed (listed xs) (listed ys) = listed (xs ++ ys)
  join_listed (listed xs) not_found = not_found
  join_listed (listed xs) failed = failed
  join_listed not_found ys = not_found
  join_listed failed ys = failed

  -- The lines that `appendYAML` writes for a resource, from the API version on.
  abbrev pub typed : K8sResource B → Text → Text
  typed r yaml =
      codes "apiVersion: " ++ (r.api_version ++ (codes "\nkind: " ++ (r.kind ++ 10 ∷ yaml)))

  module _ (marshal : K8sObject B → Option Text) where
    -- `appendYAML`; `none` is the error of the encoder.
    unfoldable pub append_yaml : Text → K8sResource B → Option Text
    append_yaml buffer r = elim (marshal r.object) [
      | none ↦ none
      | some yaml ↦ some (buffer ++ (codes "---\n" ++ typed r yaml))
    ]

    -- The loop of `Export` over the resources of a kind; `isAgent` compares the name.
    unfoldable pub append_all : Text → Text → List (K8sResource B) → Option Text
    append_all namespace buffer [] = some buffer
    append_all namespace buffer (r ∷ rs) =
        if r.object.name == namespace
        then append_all namespace buffer rs
        else elim (append_yaml buffer r) [
          | none ↦ none
          | some buffer' ↦ append_all namespace buffer' rs
        ]

  module _ (lists : Query → Listed (K8sObject B)) where
    -- `certificateKind.GetResources`: the certificates of the installed version of the manager.
    unfoldable pub get_certificates : Settings → Text → Listed (K8sResource B)
    get_certificates s namespace =
        join_listed
          (if s.cert_manager_version == codes "0.1.0"
            then choose_listed (λ _. true) (codes "v1alpha1", codes "Certificate")
                (lists (v1alpha1_certificates namespace))
            else listed [])
          (if s.cert_manager_version == codes "1.1.1"
            then choose_listed (λ _. true) (type_of certificate) (lists (v1_certificates namespace))
            else listed [])

    -- `GetResources` of the other kinds.
    abbrev get_selected : Settings → Text → Kind → Listed (K8sResource B)
    get_selected s namespace kind =
        choose_listed (selects s namespace kind) (type_of kind) (lists (list_of kind namespace))

    -- `ResourceKind.GetResources`. The restricted model does not list persistent volumes.
    unfoldable pub get_resources : Settings → Text → Kind → Listed (K8sResource B)
    get_resources s namespace certificate = get_certificates s namespace
    get_resources s namespace persistent_volume =
        if s.restricted_model
        then listed []
        else choose_listed (selects s namespace persistent_volume) (type_of persistent_volume)
            (lists volumes)
    get_resources s namespace kind = get_selected s namespace kind

    module _ (marshal : K8sObject B → Option Text) where
      -- The loop of `Export` over the kinds.
      unfoldable pub export_kinds : Settings → Text → List Kind → Text → Option Text
      export_kinds s namespace [] buffer = some buffer
      export_kinds s namespace (kind ∷ kinds) buffer = elim (get_resources s namespace kind) [
        | failed ↦ none
        | not_found ↦ export_kinds s namespace kinds buffer
        | listed rs ↦ elim (append_all marshal namespace buffer rs) [
          | none ↦ none
          | some buffer' ↦ export_kinds s namespace kinds buffer'
        ]
      ]

      -- `Export`, for the order of the kinds in one run.
      unfoldable pub export : Settings → List Kind → Text → Option Text
      export s kinds namespace = export_kinds s namespace kinds []
