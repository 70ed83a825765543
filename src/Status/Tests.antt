-- ===== src/Status/Tests.antt =====
-- Requests for the status at concrete inputs.
use choerodon_cluster_agent.Base.{
  ◌≡◌, refl, true, none, [], ◌∷◌, nat_eq, list_eq, ◌==◌, if◌then◌else◌,
}
use choerodon_cluster_agent.Base.Dict.{lookup}
use choerodon_cluster_agent.Base.Text.{Text, codes}
use choerodon_cluster_agent.Labels.{commit_label}
use choerodon_cluster_agent.Status.{Cluster, Found, missing, found, SyncRequest, sync_each}
use choerodon_cluster_agent.Status.Honest.{Replies, sync_each-Replies}

abbrev web : Found
web = record {
  annotations = (commit_label, codes "abc") ∷ [];
  phase = [];
  secret_type = [];
  chart_version = [];
  values = [];
}

-- Every resource named "web" is there, at the commit "abc".
abbrev cluster : Cluster
unfolding list_eq
cluster = record {
  get = λ type name. if name == codes "web" then found web else missing;
  has_manager = true;
  release = λ name. none;
}

abbrev request : Text → Text → Text → SyncRequest
request name type commit = record {
  id = 1;
  resource_name = name;
  resource_type = type;
  commit = commit;
  resource_status = [];
}

-- An instance at another commit than the one that is asked for is answered with the latter.
other_commit :
    sync_each cluster (request (codes "web") (codes "instance") (codes "def") ∷ [])
    ≡ request (codes "web") (codes "instance") (codes "def") ∷ []
unfolding sync_each cluster nat_eq lookup
other_commit = refl

sync_each-Replies_example :
    Replies cluster
      (request (codes "web") (codes "service") (codes "def")
        ∷ request (codes "db") (codes "job") []
        ∷ [])
      (sync_each cluster (
        request (codes "web") (codes "service") (codes "def")
        ∷ request (codes "db") (codes "job") []
        ∷ []))
sync_each-Replies_example = sync_each-Replies cluster (
    request (codes "web") (codes "service") (codes "def")
    ∷ request (codes "db") (codes "job") []
    ∷ [])
