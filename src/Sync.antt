-- ===== src/Sync.antt =====
-- pkg/gitops/gitops_sync.go, `Sync`, and pkg/kubernetes: the difference between the repository and the
-- cluster, staged as one change set. The YAML decoder, the cluster's export and the applier are
-- parameters.
pub mod Actions
pub mod Sparing
pub mod Certificates
pub mod Round
pub mod Schedule
mod Tests
use choerodon_cluster_agent.Base.{
  ℕ, Bool, true, false, Option, none, some, List, [], ◌∷◌, ◌++◌, nat_eq, list_eq,
}
use choerodon_cluster_agent.Base.Dict.{Dict, lookup}
use choerodon_cluster_agent.Base.Text.{Text, codes}
use choerodon_cluster_agent.Manifest.{BaseObject, Decoded, Result, ok, err, parse_multidoc}

-- `kubernetes.SyncAction`: one of the two is set.
pub record SyncAction : Type 0 where
  pub delete : Option BaseObject
  pub apply : Option BaseObject

-- `ApiObject`
pub record ApiObject : Type 0 where
  pub resource : BaseObject
  pub kind : Text
  pub name : Text
  pub namespace : Text

-- `ChangeSet`: the objects staged under the two commands.
pub record ChangeSet : Type 0 where
  pub delete_obj : List ApiObject
  pub apply_obj : List ApiObject

-- `kubernetes.ResourceError` and `SyncError`
pub record ResourceError : Type 0 where
  pub resource : BaseObject
  pub error : Text

abbrev pub SyncError : Type 0
SyncError = List ResourceError

abbrev pub Objects : Type 0
Objects = Dict Text BaseObject

-- `prepareSyncDelete`
unfoldable pub prepare_sync_delete : Objects → Text → BaseObject → List SyncAction → List SyncAction
prepare_sync_delete repo id r actions = elim (lookup id repo) [
  | none ↦ actions ++ record { delete = some r; apply = none } ∷ []
  | some _ ↦ actions
]

-- The loop over the resources of the cluster.
unfoldable pub prepare_deletes : Objects → Objects → List SyncAction → List SyncAction
prepare_deletes repo [] actions = actions
prepare_deletes repo ((id, r) ∷ cluster) actions =
    prepare_deletes repo cluster (prepare_sync_delete repo id r actions)

-- `prepareSyncApply`
unfoldable pub prepare_sync_apply : BaseObject → List SyncAction → List SyncAction
prepare_sync_apply r actions = actions ++ record { delete = none; apply = some r } ∷ []

-- The loop over the changed resources.
unfoldable pub prepare_applies : Objects → List SyncAction → List SyncAction
prepare_applies [] actions = actions
prepare_applies ((id, r) ∷ changed) actions = prepare_applies changed (prepare_sync_apply r actions)

-- `stage`
pub data Command : Type 0 where
  delete apply : Command

unfoldable pub stage : Command → ApiObject → ChangeSet → ChangeSet
stage delete o cs = record cs { delete_obj = cs.delete_obj ++ o ∷ [] }
stage apply o cs = record cs { apply_obj = cs.apply_obj ++ o ∷ [] }

-- What `parseObj` makes of the bytes of a resource: an object or an error.
pub data ParsedObj : Type 0 where
  parsed : Text → Text → Text → ParsedObj
  unparsed : Text → ParsedObj

-- How `Cluster.Sync` and `Sync` end.
pub data Outcome : Type 0 where
  synced : Outcome
  sync_errors : SyncError → Outcome
  export_failed parse_failed : Outcome

-- `makeChangeSet`
abbrev pub empty_change_set : ChangeSet
empty_change_set = record { delete_obj = []; apply_obj = [] }

module _ (parse_obj : Text → ParsedObj) where
  -- One of the two stages of an action; the flag says whether the loop goes on to the next stage.
  unfoldable pub stage_one :
      Command → Option BaseObject → ChangeSet × SyncError → ChangeSet × SyncError × Bool
  stage_one cmd none (cs, errs) = (cs, errs, true)
  stage_one cmd (some r) (cs, errs) = elim (parse_obj r.bytes) [
    | parsed kind name namespace ↦ (
      stage cmd (record { resource = r; kind = kind; name = name; namespace = namespace }) cs,
      errs,
      true,
    )
    | unparsed e ↦ (cs, errs ++ record { resource = r; error = e } ∷ [], false)
  ]

  -- The stages of one action: first the deletion, then the application.
  unfoldable pub stage_action : SyncAction → ChangeSet × SyncError → ChangeSet × SyncError
  stage_action a (cs, errs) =
      let d = stage_one delete a.delete (cs, errs) in
      elim d.2 [
        | false ↦ (d.0, d.1)
        | true ↦ let p = stage_one apply a.apply (d.0, d.1) in (p.0, p.1)
      ]

  unfoldable pub stage_actions : List SyncAction → ChangeSet × SyncError → ChangeSet × SyncError
  stage_actions [] s = s
  stage_actions (a ∷ actions) s = stage_actions actions (stage_action a s)

  module _ (applier : Text → ChangeSet → SyncError) where
    -- `Cluster.Sync`, with the change set that it hands to the applier.
    unfoldable pub cluster_sync : Text → List SyncAction → ChangeSet × Outcome
    cluster_sync namespace actions =
        let s = stage_actions actions (empty_change_set, []) in
        (
          s.0,
          elim (s.1 ++ applier namespace s.0) [ [] ↦ synced | e ∷ errs ↦ sync_errors (e ∷ errs) ],
        )

    module _ (decode : Text → BaseObject → Decoded) (export : Text → Option Text) where
      -- `Sync`, with the change set that was applied, if it came to that.
      unfoldable pub sync : Text → Objects → Objects → Option ChangeSet × Outcome
      sync namespace repo changed = elim (export namespace) [
        | none ↦ (none, export_failed)
        | some cluster_bytes ↦
            elim (parse_multidoc decode namespace cluster_bytes (codes "exported")) [
              | err e ↦ (none, parse_failed)
              | ok cluster ↦
                  let r =
                    cluster_sync namespace
                      (prepare_applies changed (prepare_deletes repo cluster [])) in
                  (some r.0, r.1)
            ]
      ]
