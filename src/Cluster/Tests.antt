-- ===== src/Cluster/Tests.antt =====
-- An environment with one service and one config map, exported and synchronised.
use choerodon_cluster_agent.Base.{
  ◌≡◌, refl, sym, suc, false, Option, some, [], ◌∷◌, nat_eq, list_eq, length, subst,
}
use choerodon_cluster_agent.Base.Dict.{lookup}
use choerodon_cluster_agent.Base.Text.{Text, codes, has_prefix, index_of, index_byte}
use choerodon_cluster_agent.Manifest.{
  BaseObject, Decoded, object, split_yaml_document, scan_all, max_buffer,
}
use choerodon_cluster_agent.Manifest.Scanning.{HasNoSeparator}
use choerodon_cluster_agent.Sync.{ApiObject, ChangeSet, ParsedObj, parsed}
use choerodon_cluster_agent.Cluster.{
  Settings, K8sObject, Query, Listed, listed, not_found, service, config_map, list_of,
  network_label, agent_version_label, release_label, label, has_label, selects, type_of,
  make_resource, choose, choose_listed, resource_kinds, get_certificates, join_listed,
  get_resources, append_yaml, append_all, export_kinds, export,
}
use choerodon_cluster_agent.Cluster.Exporting.{exported}
use choerodon_cluster_agent.Cluster.Scanned.{WritesLines, DocumentsOf}
use choerodon_cluster_agent.Cluster.Documents.{export-scanned}

abbrev settings : Settings
settings = record {
  cert_manager_version = codes "1.1.1";
  agent_namespace = codes "agent";
  cluster_id = codes "7";
  restricted_model = false;
}

-- Three objects that only differ in the name and the labels; the body is a line without its end.
abbrev web : K8sObject Text
web = record { name = codes "web"; labels = (network_label, codes "service") ∷ []; body = [] }

abbrev foreign : K8sObject Text
foreign = record { name = codes "other"; labels = []; body = [] }

abbrev conf : K8sObject Text
conf = record { name = codes "conf"; labels = (agent_version_label, codes "2") ∷ []; body = [] }

abbrev installed : K8sObject Text
installed = record {
  name = codes "helm";
  labels = (agent_version_label, codes "2") ∷ (release_label, codes "r") ∷ [];
  body = [];
}

abbrev lists : Query → Listed (K8sObject Text)
lists (list_of service namespace) = listed (web ∷ foreign ∷ [])
lists (list_of config_map namespace) = listed (conf ∷ installed ∷ [])
lists _ = not_found

abbrev marshal : K8sObject Text → Option Text
marshal o = some (codes "spec: {}\n")

abbrev yaml : Text
yaml =
    codes
      "---\napiVersion: v1\nkind: Service\nspec: {}\n---\napiVersion: v1\nkind: ConfigMap\nspec: {}\n"

export_runs : export lists marshal settings resource_kinds (codes "prod") ≡ some yaml
unfolding export export_kinds append_all append_yaml get_resources get_certificates join_listed
    choose_listed choose make_resource type_of selects label has_label lookup nat_eq list_eq
export_runs = refl

marshal-WritesLines : WritesLines marshal
unfolding index_of has_prefix nat_eq
marshal-WritesLines o y h =
    let same : codes "spec: {}\n" ≡ y = cc in
    (codes "spec: {}", sym same, subst (λ t. HasNoSeparator (10 ∷ t)) same refl)

scan_runs : (scan_all (suc (length yaml)) max_buffer yaml).1 ≡ false
unfolding scan_all split_yaml_document index_of index_byte has_prefix nat_eq
scan_runs = refl

export-scanned_example :
    DocumentsOf marshal
      (exported lists settings (codes "prod") resource_kinds)
      (scan_all (suc (length yaml)) max_buffer yaml).0
export-scanned_example =
    export-scanned lists settings (codes "prod") marshal resource_kinds yaml marshal-WritesLines
      export_runs scan_runs

-- A decoder that gives each document the kind that it states and one name.
abbrev decode : Text → BaseObject → Decoded
decode d o = object (record o { kind = d })

abbrev read_obj : Text → ParsedObj
read_obj d = parsed d [] []

abbrev read_as : Text → ApiObject
read_as d = record {
  resource = record {
    source_name = codes "exported";
    bytes = d;
    kind = d;
    meta = record { namespace = codes "prod"; name = []; annotations = [] };
    original_key = [];
  };
  kind = d;
  name = [];
  namespace = [];
}

abbrev deleted : ChangeSet
deleted = record {
  delete_obj =
      read_as (codes "---\napiVersion: v1\nkind: Service\nspec: {}")
      ∷ read_as (codes "apiVersion: v1\nkind: ConfigMap\nspec: {}\n")
      ∷ [];
  apply_obj = [];
}
