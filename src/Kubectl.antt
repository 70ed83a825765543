-- ===== src/Kubectl.antt =====
-- pkg/kubectl/kubectl.go: change sets are applied by runs of the kubectl program, in the order of the
-- dependencies between the kinds of resources. The program is a parameter: it takes arguments and its
-- standard input to an error or none, and changes the world. So is `sort.Sort`.
pub mod Order
pub mod Failures
mod Tests
use choerodon_cluster_agent.Base.{
  ℕ, Bool, true, false, ◌&&◌, Option, none, some, List, [], ◌∷◌, ◌++◌, ltb, ◌==◌, nat_eq, list_eq,
  if◌then◌else◌,
}
use choerodon_cluster_agent.Base.Text.{Text, codes}
use choerodon_cluster_agent.Manifest.{BaseObject}
use choerodon_cluster_agent.Sync.{ApiObject, ChangeSet, ResourceError, SyncError}

-- The fields of `rest.Config` that `connectArgs` reads.
pub record RestConfig : Type 0 where
  pub host : Text
  pub username : Text
  pub password : Text
  pub cert_file : Text
  pub ca_file : Text
  pub key_file : Text
  pub bearer_token : Text

abbrev flag : Text → Text → List Text → List Text
flag name [] args = args
flag name (c ∷ value) args = args ++ (name ++ c ∷ value) ∷ []

-- `connectArgs`
unfoldable pub connect_args : RestConfig → List Text
connect_args c = flag (codes "--token=") c.bearer_token (
    flag (codes "--client-key=") c.key_file (
      flag (codes "--certificate-authority=") c.ca_file (
        flag (codes "--client-certificate=") c.cert_file (
          flag (codes "--password=") c.password
            (flag (codes "--username=") c.username (flag (codes "--server=") c.host []))))))

abbrev listed : Text → List Text → Bool
listed kind [] = false
listed kind (k ∷ kinds) = if kind == k then true else listed kind kinds

-- The cases of `rankOfKind`.
abbrev first_kinds : List Text
first_kinds =
    codes "ServiceAccount"
    ∷ codes "ClusterRole"
    ∷ codes "Role"
    ∷ codes "PersistentVolume"
    ∷ codes "Service"
    ∷ []

abbrev second_kinds : List Text
second_kinds =
    codes "ResourceQuota"
    ∷ codes "LimitRange"
    ∷ codes "Secret"
    ∷ codes "ConfigMap"
    ∷ codes "RoleBinding"
    ∷ codes "ClusterRoleBinding"
    ∷ codes "PersistentVolumeClaim"
    ∷ codes "Ingress"
    ∷ []

abbrev third_kinds : List Text
third_kinds =
    codes "DaemonSet"
    ∷ codes "Deployment"
    ∷ codes "ReplicationController"
    ∷ codes "ReplicaSet"
    ∷ codes "Job"
    ∷ codes "CronJob"
    ∷ codes "StatefulSet"
    ∷ []

-- `rankOfKind`
unfoldable pub rank_of_kind : Text → ℕ
rank_of_kind kind =
    if kind == codes "Namespace"
    then 0
    else if listed kind first_kinds
    then 1
    else if listed kind second_kinds
    then 2
    else if listed kind third_kinds
    then 3
    else 4

-- The order of strings, by their bytes.
unfoldable pub text_less : Text → Text → Bool
text_less s [] = false
text_less [] (c ∷ t) = true
text_less (b ∷ s) (c ∷ t) = if b == c then text_less s t else ltb b c

-- `applyOrder.Less`
unfoldable pub apply_less : ApiObject → ApiObject → Bool
apply_less i j =
    if rank_of_kind i.kind == rank_of_kind j.kind
    then text_less i.name j.name
    else ltb (rank_of_kind i.kind) (rank_of_kind j.kind)

-- `sort.Reverse`
abbrev pub reverse_less : (ApiObject → ApiObject → Bool) → ApiObject → ApiObject → Bool
reverse_less less i j = less j i

-- `makeMultidoc`
unfoldable pub make_multidoc : List ApiObject → Text
make_multidoc [] = []
make_multidoc (o ∷ objs) = codes "\n---\n" ++ o.resource.bytes ++ make_multidoc objs

-- The objects of a change set in the order in which `apply` takes them.
unfoldable pub in_order :
    ((ApiObject → ApiObject → Bool) → List ApiObject → List ApiObject) → ChangeSet → ChangeSet
in_order sort cs = record {
  delete_obj = sort (reverse_less apply_less) cs.delete_obj;
  apply_obj = sort apply_less cs.apply_obj;
}

-- The arguments of a run for a command.
unfoldable pub command_args : RestConfig → Text → Text → List Text
command_args config namespace cmd =
    connect_args config
    ++ cmd ∷ codes "-n" ∷ namespace ∷ codes "--wait=false" ∷ codes "-f" ∷ codes "-" ∷ []

module _ {W : Type 0} (kubectl : List Text → Text → W → W × Option Text) where
  -- The loop over the objects of a run that failed.
  unfoldable pub apply_singly : List Text → List ApiObject → W → W × SyncError
  apply_singly args [] w = (w, [])
  apply_singly args (o ∷ objs) w =
      let r = kubectl args o.resource.bytes w in
      let rest = apply_singly args objs r.0 in
      (
        rest.0,
        elim r.1 [ none ↦ rest.1 | some e ↦ record { resource = o.resource; error = e } ∷ rest.1 ],
      )

  -- The function `f` of `apply`: all objects in one run, and each on its own if that run fails.
  unfoldable pub apply_batch : List Text → List ApiObject → W → W × SyncError
  apply_batch args [] w = (w, [])
  apply_batch args (o ∷ objs) w =
      let r = kubectl args (make_multidoc (o ∷ objs)) w in
      elim r.1 [ none ↦ (r.0, []) | some e ↦ apply_singly args (o ∷ objs) r.0 ]

  module _ (sort : (ApiObject → ApiObject → Bool) → List ApiObject → List ApiObject) where
    -- `Kubectl.Apply`
    unfoldable pub apply : RestConfig → Text → ChangeSet → W → W × SyncError
    apply config namespace cs w =
        let ordered = in_order sort cs in
        let d = apply_batch (command_args config namespace (codes "delete")) ordered.delete_obj w in
        let a = apply_batch (command_args config namespace (codes "apply")) ordered.apply_obj d.0 in
        (a.0, d.1 ++ a.1)
