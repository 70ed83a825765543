-- ===== src/Sync/Actions.antt =====
-- What `Sync` deletes and applies.
use mathlib.Core.List.{append_assoc, append-nil}
use choerodon_cluster_agent.Base.{
  ◌≡◌, refl, sym, ap, ◌∙◌, Option, none, some, List, [], ◌∷◌, ◌++◌, map, arith, nat_eq, list_eq,
  ◌⊎◌, Option-cases, inl, inr,
}
use choerodon_cluster_agent.Base.Dict.{lookup, values}
use choerodon_cluster_agent.Base.Text.{Text, codes}
use choerodon_cluster_agent.Manifest.{BaseObject, Decoded, ok, parse_multidoc}
use choerodon_cluster_agent.Manifest.Filing.{Result-cases}
use choerodon_cluster_agent.Sync.{
  SyncAction, ApiObject, ChangeSet, SyncError, Objects, prepare_sync_delete, prepare_deletes,
  prepare_sync_apply, prepare_applies, ParsedObj, parsed, unparsed, Outcome, synced, sync_errors,
  export_failed, parse_failed, stage, stage_one, stage_action, stage_actions, empty_change_set,
  cluster_sync, sync,
}

-- The resources of the cluster whose key the repository does not have.
abbrev pub absent : Objects → Objects → List BaseObject
absent repo [] = []
absent repo ((id, r) ∷ cluster) = elim (lookup id repo) [
  | none ↦ r ∷ absent repo cluster
  | some _ ↦ absent repo cluster
]

abbrev deletion : BaseObject → SyncAction
deletion r = record { delete = some r; apply = none }

abbrev application : BaseObject → SyncAction
application r = record { delete = none; apply = some r }

prepare_deletes-eq :
    (repo cluster : Objects) (actions : List SyncAction)
    → prepare_deletes repo cluster actions ≡ actions ++ map deletion (absent repo cluster)
unfolding prepare_deletes prepare_sync_delete
prepare_deletes-eq repo [] actions = sym (append-nil actions)
prepare_deletes-eq repo ((id, r) ∷ cluster) actions = elim (Option-cases (lookup id repo)) [
  | inl gone ↦ ground (
    arith,
    gone,
    prepare_deletes-eq repo cluster (actions ++ deletion r ∷ []),
    append_assoc actions (deletion r ∷ []) (map deletion (absent repo cluster)),
  )
  | inr (o, there) ↦ ground (arith, there, prepare_deletes-eq repo cluster actions)
]

prepare_applies-eq :
    (changed : Objects) (actions : List SyncAction)
    → prepare_applies changed actions ≡ actions ++ map application (values changed)
unfolding prepare_applies prepare_sync_apply
prepare_applies-eq [] actions = sym (append-nil actions)
prepare_applies-eq ((id, r) ∷ changed) actions =
    prepare_applies-eq changed (actions ++ application r ∷ [])
    ∙ append_assoc actions (application r ∷ []) (map application (values changed))

-- The four ways in which `Sync` ends.
pub data Ending : Option ChangeSet × Outcome → Type 0 where
  not_exported : Ending (none, export_failed)
  not_parsed : Ending (none, parse_failed)
  all_synced : (cs : ChangeSet) → Ending (some cs, synced)
  some_failed : (cs : ChangeSet) (errs : SyncError) → Ending (some cs, sync_errors errs)

-- How `Sync` ends with these errors.
unfoldable pub outcome_of : SyncError → Outcome
outcome_of [] = synced
outcome_of (e ∷ errs) = sync_errors (e ∷ errs)

outcome_cases :
    (cs : ChangeSet) (errs : SyncError)
    → ◌≡◌ {A = ChangeSet × Outcome}
        (cs, elim errs [ [] ↦ synced | e ∷ es ↦ sync_errors (e ∷ es) ])
        (cs, outcome_of errs)
unfolding outcome_of
outcome_cases cs [] = refl
outcome_cases cs (e ∷ errs) = refl

module _ (parse_obj : Text → ParsedObj) where
  unfoldable pub object_of : BaseObject → ParsedObj → List ApiObject
  object_of r (parsed kind name namespace) =
      record { resource = r; kind = kind; name = name; namespace = namespace } ∷ []
  object_of r (unparsed e) = []

  error_of : BaseObject → ParsedObj → SyncError
  error_of r (parsed kind name namespace) = []
  error_of r (unparsed e) = record { resource = r; error = e } ∷ []

  -- The objects of the resources that parse, and the errors of those that do not.
  unfoldable pub parsed_objs : List BaseObject → List ApiObject
  parsed_objs [] = []
  parsed_objs (r ∷ rs) = object_of r (parse_obj r.bytes) ++ parsed_objs rs

  pub parse_errors : List BaseObject → SyncError
  parse_errors [] = []
  parse_errors (r ∷ rs) = error_of r (parse_obj r.bytes) ++ parse_errors rs

  ParsedObj-cases :
      (p : ParsedObj)
      → ((kind : Text) × (name : Text) × (namespace : Text) × (p ≡ parsed kind name namespace))
        ⊎ ((e : Text) × (p ≡ unparsed e))
  ParsedObj-cases (parsed kind name namespace) = inl (kind, name, namespace, refl)
  ParsedObj-cases (unparsed e) = inr (e, refl)

  stage_action-deletion :
      (r : BaseObject) (cs : ChangeSet) (errs : SyncError)
      → stage_action parse_obj (deletion r) (cs, errs) ≡ (
        record cs { delete_obj = cs.delete_obj ++ object_of r (parse_obj r.bytes) },
        errs ++ error_of r (parse_obj r.bytes),
      )
  unfolding stage_action stage_one stage object_of error_of
  stage_action-deletion r cs errs = elim (ParsedObj-cases (parse_obj r.bytes)) [
    | inl (kind, name, namespace, e) ↦ ground (arith, e, append-nil errs)
    | inr (x, e) ↦ ground (arith, e, append-nil cs.delete_obj)
  ]

  stage_action-application :
      (r : BaseObject) (cs : ChangeSet) (errs : SyncError)
      → stage_action parse_obj (application r) (cs, errs) ≡ (
        record cs { apply_obj = cs.apply_obj ++ object_of r (parse_obj r.bytes) },
        errs ++ error_of r (parse_obj r.bytes),
      )
  unfolding stage_action stage_one stage object_of error_of
  stage_action-application r cs errs = elim (ParsedObj-cases (parse_obj r.bytes)) [
    | inl (kind, name, namespace, e) ↦ ground (arith, e, append-nil errs)
    | inr (x, e) ↦ ground (arith, e, append-nil cs.apply_obj)
  ]

  stage_deletions :
      (rs : List BaseObject) (rest : List SyncAction) (cs : ChangeSet) (errs : SyncError)
      → stage_actions parse_obj (map deletion rs ++ rest) (cs, errs)
        ≡ stage_actions parse_obj rest
            (record cs { delete_obj = cs.delete_obj ++ parsed_objs rs }, errs ++ parse_errors rs)
  unfolding stage_actions parsed_objs parse_errors
  stage_deletions [] rest cs errs = simp append-nil
  stage_deletions (r ∷ rs) rest cs errs =
      ap (λ s. stage_actions parse_obj (map deletion rs ++ rest) s)
        (stage_action-deletion r cs errs)
      ∙ stage_deletions rs rest
          (record cs { delete_obj = cs.delete_obj ++ object_of r (parse_obj r.bytes) })
          (errs ++ error_of r (parse_obj r.bytes))
      ∙ simp append_assoc

  stage_applications :
      (rs : List BaseObject) (cs : ChangeSet) (errs : SyncError)
      → stage_actions parse_obj (map application rs) (cs, errs)
        ≡ (record cs { apply_obj = cs.apply_obj ++ parsed_objs rs }, errs ++ parse_errors rs)
  unfolding stage_actions parsed_objs parse_errors
  stage_applications [] cs errs = simp append-nil
  stage_applications (r ∷ rs) cs errs =
      ap (λ s. stage_actions parse_obj (map application rs) s) (stage_action-application r cs errs)
      ∙ stage_applications rs
          (record cs { apply_obj = cs.apply_obj ++ object_of r (parse_obj r.bytes) })
          (errs ++ error_of r (parse_obj r.bytes))
      ∙ simp append_assoc

  -- What `Sync` hands to the applier.
  unfoldable pub change_set_of : Objects → Objects → Objects → ChangeSet
  change_set_of repo changed cluster = record {
    delete_obj = parsed_objs (absent repo cluster);
    apply_obj = parsed_objs (values changed);
  }

  staged :
      (repo changed cluster : Objects)
      → stage_actions parse_obj
          (prepare_applies changed (prepare_deletes repo cluster []))
          (empty_change_set, [])
        ≡ (
          change_set_of repo changed cluster,
          parse_errors (absent repo cluster) ++ parse_errors (values changed),
        )
  unfolding change_set_of
  staged repo changed cluster =
      ap (λ l. stage_actions parse_obj l (empty_change_set, []))
        (prepare_applies-eq changed (prepare_deletes repo cluster [])
          ∙ ap (λ l. l ++ map application (values changed)) (prepare_deletes-eq repo cluster []))
      ∙ stage_deletions (absent repo cluster) (map application (values changed)) empty_change_set []
      ∙ stage_applications (values changed)
          (record { delete_obj = parsed_objs (absent repo cluster); apply_obj = [] })
          (parse_errors (absent repo cluster))

  module _ (applier : Text → ChangeSet → SyncError) (decode : Text → BaseObject → Decoded)
      (export : Text → Option Text) where
    cluster_sync-eq :
        (namespace : Text) (actions : List SyncAction) (cs : ChangeSet) (errs : SyncError)
        → stage_actions parse_obj actions (empty_change_set, []) ≡ (cs, errs)
        → cluster_sync parse_obj applier namespace actions
          ≡ (cs, outcome_of (errs ++ applier namespace cs))
    unfolding cluster_sync outcome_of
    cluster_sync-eq namespace actions cs errs e =
        rw (e, cluster_sync) (outcome_cases cs (errs ++ applier namespace cs))

    -- When the cluster can be exported and read, the change set deletes every resource of the cluster
    -- whose key the repository lacks and applies every changed resource, those left out whose bytes do
    -- not parse; the errors are those of the resources left out and then the applier's, and `Sync`
    -- succeeds exactly if there is none.
    pub sync-exact :
        (namespace bytes : Text) (repo changed cluster : Objects)
        → export namespace ≡ some bytes
        → parse_multidoc decode namespace bytes (codes "exported") ≡ ok cluster
        → sync parse_obj applier decode export namespace repo changed ≡ (
          some (change_set_of repo changed cluster),
          outcome_of (
              parse_errors (absent repo cluster)
              ++ parse_errors (values changed)
              ++ applier namespace (change_set_of repo changed cluster)),
        )
    unfolding sync
    sync-exact namespace bytes repo changed cluster exported readable =
        let staged_all =
          cluster_sync-eq namespace (prepare_applies changed (prepare_deletes repo cluster []))
            (change_set_of repo changed cluster)
            (parse_errors (absent repo cluster) ++ parse_errors (values changed))
            (staged repo changed cluster) in
        ground (arith, exported, readable, staged_all)

    cluster_sync-Ending :
        (namespace : Text) (actions : List SyncAction)
        → Ending (
          some (cluster_sync parse_obj applier namespace actions).0,
          (cluster_sync parse_obj applier namespace actions).1,
        )
    unfolding cluster_sync
    cluster_sync-Ending namespace actions =
        by_errors (stage_actions parse_obj actions (empty_change_set, [])).0 (
          (stage_actions parse_obj actions (empty_change_set, [])).1
          ++ applier namespace (stage_actions parse_obj actions (empty_change_set, [])).0)
      where
        by_errors :
            (cs : ChangeSet) (errs : SyncError)
            → Ending (some cs, elim errs [ [] ↦ synced | e ∷ es ↦ sync_errors (e ∷ es) ])
        by_errors cs [] = all_synced cs
        by_errors cs (e ∷ errs) = some_failed cs (e ∷ errs)

    pub sync-Ending :
        (namespace : Text) (repo changed : Objects)
        → Ending (sync parse_obj applier decode export namespace repo changed)
    unfolding sync
    sync-Ending namespace repo changed = elim (Option-cases (export namespace)) [
      | inl e ↦ rw (e, sync) not_exported
      | inr (bytes, e) ↦
          elim (Result-cases (parse_multidoc decode namespace bytes (codes "exported"))) [
            | inr (f, p) ↦ rw (e, sync) (rw p not_parsed)
            | inl (cluster, p) ↦
                rw (e, sync)
                  (rw p (
                    cluster_sync-Ending namespace
                      (prepare_applies changed (prepare_deletes repo cluster []))))
          ]
    ]
