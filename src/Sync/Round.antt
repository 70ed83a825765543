-- ===== src/Sync/Round.antt =====
-- pkg/gitops/gitops_sync.go, `doSync`: one round of synchronisation of an environment. The git working
-- copy and the cluster are parameters; what the round does to the outside is its list of effects.
pub mod Tagging
use choerodon_cluster_agent.Base.{
  ℕ, Bool, true, false, not, ◌&&◌, Option, none, some, List, [], ◌∷◌, ◌++◌, ◌==◌, nat_eq, list_eq,
  if◌then◌else◌,
}
use choerodon_cluster_agent.Base.Dict.{Dict, lookup, insert, values}
use choerodon_cluster_agent.Base.Text.{Text, codes}
use choerodon_cluster_agent.Resource.{ResourceId, string, resource_id_eq}
use choerodon_cluster_agent.Resource.Sets.{add}
use choerodon_cluster_agent.Manifest.{
  BaseObject, resource_id, Entry, Decoded, Result, ok, err, load,
}
use choerodon_cluster_agent.Sync.{
  ChangeSet, ResourceError, SyncError, Objects, ParsedObj, Outcome, synced, sync_errors, sync,
}
use choerodon_cluster_agent.Sync.Certificates.{
  Converted, convert_certificate_to_secret, convert_secret_to_certificate, restore_kind,
}

-- What `SyncRevision` answers.
pub data Revision : Type 0 where
  unknown_revision revision_error : Revision
  found : Text → Revision

-- The working copy, as the round uses it.
pub record Repo : Type 0 where
  pub clone : Bool
  pub sync_revision : Revision
  pub devops_sync_revision : Option Text
  pub all_entries : List Entry
  pub changed_files : Text → Option (List Text × List Text)
  pub entries_of : List Text → List Entry
  pub file_last_commit : Text → Option Text
  pub move_sync_tag_and_push : Text → Bool
  pub refresh : Bool

-- What `LabelRepoObj` answers: an error, nothing, or the labelled manifest.
pub data Labelled : Type 0 where
  label_error unlabelled : Labelled
  labelled : Text → Labelled

-- The cluster and the libraries, as the round uses them.
pub record Cluster : Type 0 where
  pub decode : Text → BaseObject → Decoded
  pub label : Text → Text → Text → Text → Labelled
  pub convert : Text → Text → Text → Converted
  pub parse_obj : Text → ParsedObj
  pub applier : Text → ChangeSet → SyncError
  pub export : Text → Option Text
  pub cert_manager_version : Text
  pub agent_version : Text

-- `gitops.ResourceError`, `FileCommit` and `ResourceCommit`, the metadata of the event.
pub record EventError : Type 0 where
  pub id : ResourceId
  pub path : Text
  pub error : Text
  pub commit : Text

pub record ResourceCommit : Type 0 where
  pub resource_id : Text
  pub file : Text
  pub commit : Text

pub record SyncEvent : Type 0 where
  pub resource_ids : List ResourceId
  pub commit : Text
  pub errors : List EventError
  pub file_commits : List (Text × Text)
  pub resource_commits : List ResourceCommit

pub data Effect : Type 0 where
  applied : ChangeSet → Effect
  event_logged : SyncEvent → Effect
  tag_moved : Text → Effect
  refreshed : Effect

-- Why a round ends early; `fault` is a panic.
pub data Failure : Type 0 where
  clone_failed revision_failed devops_revision_failed loading_failed sync_failed fault : Failure
  tag_failed refresh_failed : Failure

-- The commits of the files, those that cannot be had left out: `filesCommits` and `fileCommitMap`.
unfoldable pub commits_of :
    (Text → Option Text)
    → List Text
    → List (Text × Text) × Dict Text Text
    → List (Text × Text) × Dict Text Text
commits_of last [] (list, map) = (list, map)
commits_of last (file ∷ files) (list, map) = commits_of last files (elim (last file) [
  | none ↦ (list, map)
  | some commit ↦ (list ++ (file, commit) ∷ [], insert file commit map)
])

abbrev pub commit_of : Dict Text Text → Text → Text
commit_of commits file = elim (lookup file commits) [ some c ↦ c | none ↦ [] ]

-- The changed resources with the commits of the files that changed.
pub record Changes : Type 0 where
  pub resources : Objects
  pub file_commits : List (Text × Text)
  pub commits : Dict Text Text

-- `oldTagRev`: an unknown revision leaves it empty.
unfoldable pub old_revision : Revision → Option Text
old_revision unknown_revision = some []
old_revision revision_error = none
old_revision (found rev) = some rev

-- `resourceIDs`, from the changed resources.
unfoldable pub ids_of : List BaseObject → List ResourceId
ids_of [] = []
ids_of (o ∷ os) = resource_id o ∷ ids_of os

unfoldable pub changed_ids : Objects → List ResourceId
changed_ids objs = add [] (ids_of (values objs))

-- `resourceCommits`; a printed identifier that is not a key is a nil object.
unfoldable pub resource_commits :
    Dict Text Text → Objects → List ResourceId → Option (List ResourceCommit)
resource_commits commits objs [] = some []
resource_commits commits objs (id ∷ ids) = elim (string id) [
  | none ↦ none
  | some key ↦ elim (lookup key objs) [
    | none ↦ none
    | some o ↦ elim (resource_commits commits objs ids) [
      | none ↦ none
      | some rest ↦ some (
          record {
            resource_id = key;
            file = o.source_name;
            commit = commit_of commits o.source_name;
          }
          ∷ rest)
    ]
  ]
]

module _ (r : Repo) (c : Cluster) (namespace : Text) where
  -- The branch that finds the changed resources; `none` where loading fails.
  unfoldable pub find_changes : Text → Objects → List Text → Option Changes
  find_changes [] all files =
      let f = commits_of r.file_last_commit files ([], []) in
      some (record { resources = all; file_commits = f.0; commits = f.1 })
  find_changes (b ∷ rev) all files = elim (r.changed_files (b ∷ rev)) [
    | none ↦ none
    | some (changed, list) ↦ elim changed [
      | [] ↦ some (record { resources = []; file_commits = []; commits = [] })
      | p ∷ paths ↦ elim (load c.decode namespace (r.entries_of (p ∷ paths))) [
        | err e ↦ none
        | ok (objs, seen) ↦
            let f = commits_of r.file_last_commit list ([], []) in
            some (record { resources = objs; file_commits = f.0; commits = f.1 })
      ]
    ]
  ]

  -- The loop that labels the changed resources.
  unfoldable pub label_one : Dict Text Text → BaseObject → BaseObject
  label_one commits o =
      elim (c.label namespace o.bytes c.agent_version (commit_of commits o.source_name)) [
        | label_error ↦ o
        | unlabelled ↦ o
        | labelled bytes ↦ record o { bytes = bytes; original_key = [] }
      ]

  unfoldable pub label_all : Dict Text Text → Objects → Objects
  label_all commits [] = []
  label_all commits ((key, o) ∷ objs) = (key, label_one commits o) ∷ label_all commits objs

  -- The errors of the event, with the commit of each path.
  unfoldable pub event_errors : Dict Text Text → SyncError → List EventError
  event_errors commits [] = []
  event_errors commits (e ∷ errs) =
      let o = restore_kind c.cert_manager_version e.resource in
      record {
        id = resource_id o;
        path = o.source_name;
        error = e.error;
        commit = elim (commit_of commits o.source_name) [
          | [] ↦ elim (r.file_last_commit o.source_name) [ some commit ↦ commit | none ↦ [] ]
          | b ∷ commit ↦ b ∷ commit
        ];
      }
      ∷ event_errors commits errs

  -- The tag is moved and the local repository refreshed, unless the revision is the old one.
  unfoldable pub move_tag : Text → Text → List Effect → List Effect × Option Failure
  move_tag old new logged =
      if old == new
      then (logged, none)
      else if r.move_sync_tag_and_push new
      then (
        logged ++ tag_moved new ∷ refreshed ∷ [],
        if r.refresh then none else some refresh_failed,
      )
      else (logged, some tag_failed)

  -- The end of the round: the event, then the tag.
  unfoldable pub finish :
      Text → Text → Changes → Objects → SyncError → List Effect → List Effect × Option Failure
  finish old new ch changed errs done =
      let ids = changed_ids changed in
      elim (resource_commits ch.commits changed ids) [
        | none ↦ (done, some fault)
        | some commits ↦ move_tag old new (
            done
            ++ event_logged (record {
              resource_ids = ids;
              commit = new;
              errors = event_errors ch.commits errs;
              file_commits = ch.file_commits;
              resource_commits = commits;
            })
              ∷ [])
      ]

  -- What follows the call of `Sync`.
  unfoldable pub after_sync :
      Text → Text → Changes → Objects → Option ChangeSet × Outcome → List Effect × Option Failure
  after_sync old new ch restored (cs, outcome) =
      let done : List Effect = elim cs [ none ↦ [] | some set ↦ applied set ∷ [] ] in
      elim outcome [
        | synced ↦ finish old new ch restored [] done
        | sync_errors errs ↦ finish old new ch restored errs done
        | _ ↦ (done, some sync_failed)
      ]

  -- The middle of the round: labels, conversions and the synchronisation itself.
  unfoldable pub apply_changes : Text → Text → Objects → Changes → List Effect × Option Failure
  apply_changes old new all ch =
      elim (convert_certificate_to_secret c.convert c.cert_manager_version namespace ch.commits all
        (label_all ch.commits ch.resources)) [
          | none ↦ ([], some fault)
          | some (repo, changed) ↦
              after_sync old new ch (convert_secret_to_certificate c.cert_manager_version changed)
                (sync c.parse_obj c.applier c.decode c.export namespace repo changed)
        ]

  -- `doSync`
  unfoldable pub do_sync : List Effect × Option Failure
  do_sync = if not r.clone then ([], some clone_failed) else elim (old_revision r.sync_revision) [
    | none ↦ ([], some revision_failed)
    | some old ↦ elim r.devops_sync_revision [
      | none ↦ ([], some devops_revision_failed)
      | some new ↦ elim (load c.decode namespace r.all_entries) [
        | err e ↦ ([], some loading_failed)
        | ok (all, files) ↦ elim (find_changes old all files) [
          | none ↦ ([], some loading_failed)
          | some ch ↦ apply_changes old new all ch
        ]
      ]
    ]
  ]
