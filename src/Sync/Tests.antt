-- ===== src/Sync/Tests.antt =====
-- A round of synchronisation at concrete inputs.
use choerodon_cluster_agent.Base.{
  not, ◌&&◌, false, ◌≡◌, refl, true, Option, some, List, [], ◌∷◌, ◌++◌, All, nat_eq, list_eq,
}
use choerodon_cluster_agent.Base.Dict.{lookup, insert, values}
use choerodon_cluster_agent.Base.Text.{Text, codes, has_prefix, index_of, index_byte, is_blank}
use choerodon_cluster_agent.Manifest.{
  BaseObject, Decoded, object, null, ok, resource_key, split_yaml_document, unmarshal_object,
  parse_chunks, parse_multidoc, scan_all,
}
use choerodon_cluster_agent.Sync.{
  ApiObject, ChangeSet, SyncError, Objects, ParsedObj, parsed, unparsed, synced, sync_errors,
  prepare_sync_delete, prepare_deletes, prepare_sync_apply, prepare_applies, stage, stage_one,
  stage_action, stage_actions, cluster_sync, sync,
}
use choerodon_cluster_agent.Sync.Actions.{
  absent, change_set_of, outcome_of, parse_errors, sync-exact,
}
use choerodon_cluster_agent.Sync.Schedule.{
  Timer, Schedule, Step, expires, takes_tick, refreshes, takes_notice, synchronises, start, next,
  ask_for_sync, on_notified, run_steps, is_alive, run_steps-alive, run_steps-asked, all_harmless,
}
use choerodon_cluster_agent.Sync.Sparing.{IsAbsent, sync-spares_repo}
use choerodon_cluster_agent.Sync.Certificates.{Converted}
use choerodon_cluster_agent.Sync.Round.{
  Repo, Cluster, Changes, found, unlabelled, old_revision, after_sync, do_sync,
}
use choerodon_cluster_agent.Sync.Round.Tagging.{Trace, do_sync-Trace, tags, after_sync-errors}

-- A document is the name of a config map.
abbrev read_name : Text → BaseObject → Decoded
read_name [] o = null
read_name (c ∷ s) o = object (record o {
  kind = codes "ConfigMap";
  meta = record { namespace = codes "prod"; name = c ∷ s; annotations = [] };
})

abbrev read_kind : Text → ParsedObj
read_kind [] = unparsed (codes "empty")
read_kind (c ∷ s) = parsed (codes "ConfigMap") (c ∷ s) (codes "prod")

abbrev named : Text → Text → BaseObject
named source name = record {
  source_name = source;
  bytes = name;
  kind = codes "ConfigMap";
  meta = record { namespace = codes "prod"; name = name; annotations = [] };
  original_key = [];
}

abbrev export_two : Text → Option Text
export_two namespace = some (codes "a\n---\nb")

-- An applier that reports every deletion as an error.
abbrev no_deletions : Text → ChangeSet → SyncError
no_deletions namespace cs = errors cs.delete_obj
  where
    errors : List ApiObject → SyncError
    errors [] = []
    errors (o ∷ os) = record { resource = o.resource; error = codes "no" } ∷ errors os

abbrev cluster_objects : Objects
cluster_objects =
    (codes "configmap/a", named (codes "exported") (codes "a"))
    ∷ (codes "configmap/b", named (codes "exported") (codes "b"))
    ∷ []

abbrev repo_objects : Objects
repo_objects = (codes "configmap/b", named (codes "f.yaml") (codes "b")) ∷ []

abbrev staged : ChangeSet
staged = record {
  delete_obj =
      record {
        resource = named (codes "exported") (codes "a");
        kind = codes "ConfigMap";
        name = codes "a";
        namespace = codes "prod";
      }
      ∷ [];
  apply_obj =
      record {
        resource = named (codes "f.yaml") (codes "b");
        kind = codes "ConfigMap";
        name = codes "b";
        namespace = codes "prod";
      }
      ∷ [];
}

abbrev refused : SyncError
refused = record { resource = named (codes "exported") (codes "a"); error = codes "no" } ∷ []

export_parses :
    parse_multidoc read_name (codes "prod") (codes "a\n---\nb") (codes "exported")
    ≡ ok cluster_objects
unfolding parse_multidoc scan_all split_yaml_document index_of index_byte has_prefix is_blank
    parse_chunks unmarshal_object insert resource_key nat_eq list_eq
export_parses = refl

sync_runs :
    sync read_kind no_deletions read_name export_two (codes "prod") repo_objects repo_objects
    ≡ (some staged, sync_errors refused)
unfolding sync cluster_sync stage_actions stage_action stage_one stage prepare_deletes
    prepare_applies prepare_sync_delete prepare_sync_apply lookup parse_multidoc scan_all
    split_yaml_document index_of index_byte has_prefix is_blank parse_chunks unmarshal_object insert
    resource_key nat_eq list_eq
sync_runs = refl

sync-exact_example :
    sync read_kind no_deletions read_name export_two (codes "prod") repo_objects repo_objects ≡ (
      some (change_set_of read_kind repo_objects repo_objects cluster_objects),
      outcome_of (
          parse_errors read_kind (absent repo_objects cluster_objects)
          ++ parse_errors read_kind (values repo_objects)
          ++ no_deletions
              (codes "prod")
              (change_set_of read_kind repo_objects repo_objects cluster_objects)),
    )
sync-exact_example =
    sync-exact read_kind no_deletions read_name export_two (codes "prod") (codes "a\n---\nb")
      repo_objects repo_objects cluster_objects refl export_parses

sync-spares_repo_example : All (IsAbsent repo_objects) staged.delete_obj
sync-spares_repo_example =
    sync-spares_repo read_kind no_deletions read_name export_two (codes "prod") repo_objects
      repo_objects staged (sync_errors refused) sync_runs

abbrev working_copy : Repo
working_copy = record {
  clone = true;
  sync_revision = found (codes "old");
  devops_sync_revision = some (codes "new");
  all_entries = [];
  changed_files = λ rev. some ([], []);
  entries_of = λ paths. [];
  file_last_commit = λ file. some (codes "new");
  move_sync_tag_and_push = λ rev. true;
  refresh = true;
}

abbrev cluster : Cluster
cluster = record {
  decode = read_name;
  label = λ namespace bytes version commit. unlabelled;
  convert = λ namespace bytes version. Converted.kept;
  parse_obj = read_kind;
  applier = no_deletions;
  export = export_two;
  cert_manager_version = codes "0.1";
  agent_version = codes "1.0";
}

known : old_revision (found (codes "old")) ≡ some (codes "old")
unfolding old_revision
known = refl

do_sync-Trace_example :
    Trace (codes "old") (codes "new") (do_sync working_copy cluster (codes "prod"))
do_sync-Trace_example =
    do_sync-Trace working_copy cluster (codes "prod") (codes "old") (codes "new") known refl

abbrev changes : Changes
changes = record {
  resources = repo_objects;
  file_commits = (codes "f.yaml", codes "new") ∷ [];
  commits = (codes "f.yaml", codes "new") ∷ [];
}

after_sync-errors_example :
    let failing =
      after_sync working_copy cluster
        (codes "prod")
        (codes "old")
        (codes "new")
        changes
        repo_objects
        (some staged, sync_errors refused) in
    let clean =
      after_sync working_copy cluster
        (codes "prod")
        (codes "old")
        (codes "new")
        changes
        repo_objects
        (some staged, synced) in
    (failing.1 ≡ clean.1) × (tags failing.0 ≡ tags clean.0)
after_sync-errors_example =
    after_sync-errors working_copy cluster (codes "prod") (codes "old") (codes "new") changes
      repo_objects staged refused

abbrev polling : List Step
polling = synchronises ∷ expires ∷ takes_tick ∷ refreshes ∷ takes_notice (some (codes "new")) ∷ []

abbrev polled : Schedule
polled = record {
  timer = Timer.idle;
  sync_head = codes "new";
  sync_soon = true;
  requests = 0;
  notified = false;
  rounds = 1;
  behind = true;
}

polling_runs : run_steps start polling ≡ some polled
unfolding run_steps next start on_notified ask_for_sync nat_eq list_eq
polling_runs = refl

polling_harmless : all_harmless start polling ≡ true
unfolding next start on_notified ask_for_sync nat_eq list_eq
polling_harmless = refl

run_steps-alive_example : is_alive polled ≡ true
run_steps-alive_example = run_steps-alive polled polling polling_harmless polling_runs

run_steps-asked_example : polled.behind && not polled.sync_soon ≡ false
run_steps-asked_example = run_steps-asked polled polling polling_runs
