-- ===== src/Labels.antt =====
-- pkg/kube/client.go, `LabelRepoObj`: the labels and the annotations that a resource of the repository gets
-- before it is applied. The decoding of manifests and the release in the cluster are parameters.
pub mod Selected
pub mod Converting
mod Tests
use choerodon_cluster_agent.Base.{
  Bool, true, false, ◌&&◌, ◌||◌, not, Option, none, some, List, [], ◌∷◌, ◌++◌, ◌==◌, nat_eq,
  list_eq, if◌then◌else◌,
}
use choerodon_cluster_agent.Base.Dict.{Dict, insert}
use choerodon_cluster_agent.Base.Text.{Text, codes}
use choerodon_cluster_agent.Cluster.{
  Settings, network_label, agent_version_label, workload_label, release_cluster_label, pvc_label,
  pv_label, env_label,
}

-- The other labels and annotations of pkg/agent/model/label.go.
abbrev pub commit_label : Text
commit_label = codes "choerodon.io/commit"

abbrev pub name_label : Text
name_label = codes "choerodon.io/name"

abbrev pub parent_workload_label : Text
parent_workload_label = codes "choerodon.io/parent-workload"

abbrev pub parent_workload_name_label : Text
parent_workload_name_label = codes "choerodon.io/parent-workload-name"

abbrev pub operate_annotation : Text
operate_annotation = codes "choerodon.io/C7NHelmRelease-operate"

-- `C7NHelmReleaseSpec`: the name of the chart, and the rest.
pub record Spec : Type 0 where
  pub chart_name : Text
  pub rest : Text

-- The parts of an unstructured object that are read or set. The labels of a template are missing where
-- its path does not lead through maps.
pub record Object : Type 0 where
  pub kind : Text
  pub name : Text
  pub labels : Dict Text Text
  pub annotations : Dict Text Text
  pub template_labels : Option (Dict Text Text)
  pub job_template_labels : Option (Dict Text Text)
  pub spec : Text

-- The kinds of workloads with a template in their specification.
abbrev is_workload : Text → Bool
is_workload kind =
    kind == codes "Deployment"
    || kind == codes "StatefulSet"
    || kind == codes "DaemonSet"
    || kind == codes "Job"

-- The labels that the `switch` on the kind sets; none for a kind that it does not support.
unfoldable pub kind_labels :
    Settings → Text → Text → Text → Dict Text Text → Option (Dict Text Text)
kind_labels s namespace kind name l =
    if kind == codes "Service"
    then some (insert network_label (codes "service") l)
    else if kind == codes "Ingress"
    then some (insert network_label (codes "ingress") l)
    else if kind == codes "ConfigMap" || kind == codes "Secret" || kind == codes "Certificate"
    then some l
    else if kind == codes "C7NHelmRelease"
    then some
        (if namespace == s.agent_namespace then insert release_cluster_label s.cluster_id l else l)
    else if kind == codes "PersistentVolumeClaim"
    then some (insert name_label name (insert pvc_label (codes "pvc-cluster-" ++ s.cluster_id) l))
    else if kind == codes "PersistentVolume"
    then some (
        insert name_label name
          (insert pv_label (codes "pv-cluster-" ++ s.cluster_id) (insert env_label namespace l)))
    else if is_workload kind || kind == codes "CronJob"
    then some (insert workload_label kind l)
    else none

-- The labels of the object at the end: a supported kind has the version of the agent too.
unfoldable pub labels_of : Settings → Text → Text → Text → Text → Dict Text Text → Dict Text Text
labels_of s version namespace kind name l = elim (kind_labels s namespace kind name l) [
  | none ↦ l
  | some m ↦ insert agent_version_label version m
]

-- `addTemplateAppLabels` and `addCronJobTemplateAppLabels`
unfoldable pub add_template_labels :
    Text → Text → Text → Option (Dict Text Text) → Option (Dict Text Text)
add_template_labels kind name commit none = none
add_template_labels kind name commit (some l) = some (
    insert commit_label commit
      (insert parent_workload_name_label name (insert parent_workload_label kind l)))

-- What is to be done with a release: to install it, to upgrade it, to change its chart, or nothing.
unfoldable pub release_operation : Option Spec → Spec → Option Text
release_operation none new = some (codes "INSTALL")
release_operation (some old) new =
    if old.chart_name == new.chart_name
    then (if new.rest == old.rest then none else some (codes "UPGRADE"))
    else some (codes "CROSS-UPGRADE")

-- The object with all that is set on it.
abbrev pub labelled : Settings → Text → Text → Text → Object → Dict Text Text → Object
labelled s version namespace commit o a = record o {
  labels = labels_of s version namespace o.kind o.name o.labels;
  annotations = a;
  template_labels =
      if is_workload o.kind
      then add_template_labels o.kind o.name commit o.template_labels
      else o.template_labels;
  job_template_labels =
      if o.kind == codes "CronJob"
      then add_template_labels o.kind o.name commit o.job_template_labels
      else o.job_template_labels;
}

module _ (find_release : Text → Text → Option Spec) (decode_spec : Text → Option Spec) where
  -- The annotations for a release; `none` is the error of the decoder. It runs only where the cluster has
  -- the release.
  unfoldable pub release_annotations : Text → Object → Dict Text Text → Option (Dict Text Text)
  release_annotations namespace o a = elim (find_release o.name namespace) [
    | none ↦ some (insert operate_annotation (codes "INSTALL") a)
    | some old ↦ elim (decode_spec o.spec) [
      | none ↦ none
      | some new ↦ elim (release_operation (some old) new) [
        | none ↦ some a
        | some op ↦ some (insert operate_annotation op a)
      ]
    ]
  ]

  unfoldable pub annotations_of : Text → Text → Object → Option (Dict Text Text)
  annotations_of namespace commit o =
      let a = insert commit_label commit o.annotations in
      if o.kind == codes "C7NHelmRelease" then release_annotations namespace o a else some a

  -- `labelAndAnnotationsRepoObj`; `none` is the error of the decoder.
  unfoldable pub label_object : Settings → Text → Text → Text → Object → Option Object
  label_object s version namespace commit o = elim (annotations_of namespace commit o) [
    | none ↦ none
    | some a ↦ some (labelled s version namespace commit o a)
  ]

  module _ (marshal : Object → Option Text) where
    -- The loop of `LabelRepoObj`; `none` is an error.
    unfoldable pub label_objects : Settings → Text → Text → Text → List Object → Option Text
    label_objects s version namespace commit [] = some []
    label_objects s version namespace commit (o ∷ os) =
        let rest = label_objects s version namespace commit os in
        elim (label_object s version namespace commit o) [
          | none ↦ none
          | some p ↦ elim (marshal p) [
            | none ↦ none
            | some yaml ↦ elim rest [
              | none ↦ none
              | some more ↦ some (codes "\n---\n" ++ (yaml ++ more))
            ]
          ]
        ]

    -- `LabelRepoObj`, for what `BuildUnstructured` makes of a manifest.
    unfoldable pub label_repo_obj :
        (Text → Option (List Object)) → Settings → Text → Text → Text → Text → Option Text
    label_repo_obj build s version namespace commit manifest = elim (build manifest) [
      | none ↦ none
      | some os ↦ label_objects s version namespace commit os
    ]
