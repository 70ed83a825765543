-- ===== src/Status.antt =====
-- pkg/command/helm/helm_helper.go, `SyncStatus`, with the look-ups of pkg/kube/client.go that it uses: which
-- commit the agent reports of the resources that it is asked about. What the API server and Helm answer is
-- a record.
pub mod Honest
mod Tests
use choerodon_cluster_agent.Base.{
  ℕ, Bool, true, false, not, ◌&&◌, ◌||◌, Option, none, some, List, [], ◌∷◌, ◌++◌, ◌==◌, nat_eq,
  list_eq, if◌then◌else◌,
}
use choerodon_cluster_agent.Base.Dict.{Dict, lookup}
use choerodon_cluster_agent.Base.Text.{Text, codes}
use choerodon_cluster_agent.Cluster.{label}
use choerodon_cluster_agent.Labels.{commit_label}

-- The types of resources that the `switch` knows.
pub data ResourceType : Type 0 where
  ingress service certificate instance_type config_map secret : ResourceType
  persistent_volume persistent_volume_claim : ResourceType
  deployment stateful_set job cron_job daemon_set : ResourceType

-- What is read of a resource; the chart's version and the values are those of a C7NHelmRelease.
pub record Found : Type 0 where
  pub annotations : Dict Text Text
  pub phase : Text
  pub secret_type : Text
  pub chart_version : Text
  pub values : Text

-- What a `Get` answers: the resource is not found, there is another error, or it is found.
pub data Got : Type 0 where
  missing broken : Got
  found : Found → Got

-- `GetService`, `GetIngress` and `GetSecret`, and the same for config maps and workloads: `none` is an error.
unfoldable pub get_commit : Got → Option Text
unfolding label
get_commit missing = none
get_commit broken = some []
get_commit (found f) = some (label commit_label f.annotations)

-- `GetPersistentVolumeClaim` and `GetPersistentVolume`: the commit and the phase.
unfoldable pub get_commit_and_phase : Got → Option (Text × Text)
unfolding label
get_commit_and_phase missing = none
get_commit_and_phase broken = some ([], [])
get_commit_and_phase (found f) =
    if label commit_label f.annotations == []
    then some ([], [])
    else some (label commit_label f.annotations, f.phase)

-- `IsSecretExist`
unfoldable pub is_secret_exist : Got → Option Bool
is_secret_exist missing = none
is_secret_exist broken = some false
is_secret_exist (found f) = some (f.secret_type == codes "kubernetes.io/tls")

-- `GetC7nHelmRelease`: an error, or the release unless there is no manager, another error, or no commit.
unfoldable pub get_c7n_helm_release : Bool → Got → Option (Option Found)
unfolding label
get_c7n_helm_release false got = some none
get_c7n_helm_release true missing = none
get_c7n_helm_release true broken = some none
get_c7n_helm_release true (found f) =
    if label commit_label f.annotations == [] then some none else some (some f)

-- A release of Helm.
pub record Release : Type 0 where
  pub status : Text
  pub chart_version : Text
  pub config : Text

-- The resources in the namespace of the command, whether the namespace has a manager, and what
-- `GetRelease` returns, `none` for an error.
pub record Cluster : Type 0 where
  pub get : ResourceType → Text → Got
  pub has_manager : Bool
  pub release : Text → Option Release

-- `SyncRequest`, without its namespace.
pub record SyncRequest : Type 0 where
  pub id : ℕ
  pub resource_name : Text
  pub resource_type : Text
  pub commit : Text
  pub resource_status : Text

-- `newSyncResponse`
unfoldable pub new_sync_response : Text → Text → Text → Text → ℕ → SyncRequest
new_sync_response name re_type commit status id = record {
  id = id;
  resource_name = name;
  resource_type = re_type;
  commit = commit;
  resource_status = status;
}

-- The response to a request with a commit and a status.
unfoldable pub answer : SyncRequest → Text → Text → SyncRequest
unfolding new_sync_response
answer r commit status = new_sync_response r.resource_name r.resource_type commit status r.id

-- The case of a resource with a commit; no response without one.
unfoldable pub report_commit : SyncRequest → Option Text → Option SyncRequest
unfolding answer
report_commit r none = some (answer r [] [])
report_commit r (some commit) = if commit == [] then none else some (answer r commit [])

-- The case of a volume or a claim.
unfoldable pub report_phase : SyncRequest → Option (Text × Text) → Option SyncRequest
unfolding answer
report_phase r none = some (answer r [] [])
report_phase r (some (commit, phase)) = if commit == [] then none else some (answer r commit phase)

-- The case of a certificate.
unfoldable pub report_secret : SyncRequest → Option Bool → Option SyncRequest
unfolding answer
report_secret r none = some (answer r [] [])
report_secret r (some exist) = if exist then some (answer r r.commit []) else none

-- The case of an instance whose commit is the one that is asked for.
unfoldable pub report_release : SyncRequest → Found → Option Release → Option SyncRequest
unfolding answer
report_release r f none = some (answer r [] [])
report_release r f (some release) =
    if release.status == codes "deployed"
    then (if not (release.chart_version == f.chart_version) || not (release.config == f.values)
        then some (answer r [] [])
        else some (answer r r.commit []))
    else none

-- The case of an instance.
unfoldable pub report_instance : Cluster → SyncRequest → Option (Option Found) → Option SyncRequest
unfolding answer label report_release
report_instance c r none = some (answer r [] [])
report_instance c r (some none) = none
report_instance c r (some (some f)) =
    let checked = report_release r f (c.release r.resource_name) in
    if label commit_label f.annotations == r.commit then checked else some (answer r r.commit [])

unfoldable pub sync_type : Cluster → SyncRequest → ResourceType → Option SyncRequest
unfolding get_commit get_commit_and_phase is_secret_exist get_c7n_helm_release report_commit
    report_phase report_secret report_instance
sync_type c r certificate = report_secret r (is_secret_exist (c.get certificate r.resource_name))
sync_type c r instance_type =
    report_instance c r (get_c7n_helm_release c.has_manager (c.get instance_type r.resource_name))
sync_type c r persistent_volume =
    report_phase r (get_commit_and_phase (c.get persistent_volume r.resource_name))
sync_type c r persistent_volume_claim =
    report_phase r (get_commit_and_phase (c.get persistent_volume_claim r.resource_name))
sync_type c r type = report_commit r (get_commit (c.get type r.resource_name))

-- The `switch`; a type that it does not know has no response.
unfoldable pub resource_type_of : Text → Option ResourceType
resource_type_of t =
    if t == codes "ingress"
    then some ingress
    else if t == codes "service"
    then some service
    else if t == codes "certificate"
    then some certificate
    else if t == codes "instance"
    then some instance_type
    else if t == codes "configmap"
    then some config_map
    else if t == codes "secret"
    then some secret
    else if t == codes "persistentvolume"
    then some persistent_volume
    else if t == codes "persistentvolumeclaim"
    then some persistent_volume_claim
    else if t == codes "deployment"
    then some deployment
    else if t == codes "statefulset"
    then some stateful_set
    else if t == codes "job"
    then some job
    else if t == codes "cronjob"
    then some cron_job
    else if t == codes "daemonset"
    then some daemon_set
    else none

unfoldable pub sync_one : Cluster → SyncRequest → Option SyncRequest
unfolding sync_type resource_type_of
sync_one c r = elim (resource_type_of r.resource_type) [
  | none ↦ none
  | some type ↦ sync_type c r type
]

-- The loop of `SyncStatus`.
unfoldable pub sync_each : Cluster → List SyncRequest → List SyncRequest
unfolding sync_one
sync_each c [] = []
sync_each c (r ∷ reqs) =
    let rest = sync_each c reqs in elim (sync_one c r) [ none ↦ rest | some reply ↦ reply ∷ rest ]

-- `SyncStatus`, with the payload as it is decoded: the responses of the packet, if there is one.
unfoldable pub sync_status : Cluster → Option (List SyncRequest) → Option (List SyncRequest)
unfolding sync_each
sync_status c none = none
sync_status c (some reqs) = elim (sync_each c reqs) [
  | [] ↦ none
  | reply ∷ replies ↦ some (reply ∷ replies)
]
