-- ===== src/Labels/Tests.antt =====
-- Manifests labelled at concrete inputs.
use choerodon_cluster_agent.Labels.Converting.{documents}
use choerodon_cluster_agent.Labels.Converting.{convert_object}
use choerodon_cluster_agent.Labels.Converting.{convert_each}
use choerodon_cluster_agent.Base.{
  ◌≡◌, ◌≢◌, refl, true, false, Option, none, some, [], ◌∷◌, nat_eq, list_eq, arith, All,
}
use choerodon_cluster_agent.Base.Dict.{lookup, insert}
use choerodon_cluster_agent.Base.Text.{Text, codes}
use choerodon_cluster_agent.Cluster.{
  Settings, persistent_volume_claim, agent_version_label, pvc_label, tls_secret_label, label,
  has_label, selects, type_of,
}
use choerodon_cluster_agent.Labels.{
  Spec, Object, commit_label, name_label, operate_annotation, kind_labels, labels_of,
  release_operation, release_annotations, annotations_of, label_object, label_objects,
  label_repo_obj,
}
use choerodon_cluster_agent.Labels.Selected.{label_object-selects}
use choerodon_cluster_agent.Labels.Converting.{
  CertObject, TlsSecret, Converted, kept, replaced, returns, panics, convert_certificate,
  any_replaced,
}
use choerodon_cluster_agent.Labels.Converting.Hiding.{IsHidden, convert_certificate-hides}

abbrev settings : Settings
settings = record {
  cert_manager_version = codes "1.1.1";
  agent_namespace = codes "agent";
  cluster_id = codes "7";
  restricted_model = false;
}

abbrev plain : Text → Text → Object
plain kind name = record {
  kind = kind;
  name = name;
  labels = [];
  annotations = [];
  template_labels = none;
  job_template_labels = none;
  spec = codes "chart";
}

-- The cluster has one release, of another chart.
abbrev find_release : Text → Text → Option Spec
find_release name namespace = some (record { chart_name = codes "old"; rest = [] })

abbrev decode_spec : Text → Option Spec
decode_spec t = some (record { chart_name = t; rest = [] })

abbrev claim : Object
claim = record (plain (codes "PersistentVolumeClaim") (codes "data")) {
  labels =
      (pvc_label, codes "pvc-cluster-7")
      ∷ (name_label, codes "data")
      ∷ (agent_version_label, codes "2")
      ∷ [];
  annotations = (commit_label, codes "c1") ∷ [];
}

claim_labelled :
    label_object find_release decode_spec settings
      (codes "2")
      (codes "prod")
      (codes "c1")
      (plain (codes "PersistentVolumeClaim") (codes "data"))
    ≡ some claim
unfolding label_object annotations_of labels_of kind_labels insert nat_eq list_eq
claim_labelled = refl

release_changed :
    annotations_of find_release decode_spec
      (codes "prod")
      (codes "c1")
      (plain (codes "C7NHelmRelease") (codes "web"))
    ≡ some ((commit_label, codes "c1") ∷ (operate_annotation, codes "CROSS-UPGRADE") ∷ [])
unfolding annotations_of release_annotations release_operation insert nat_eq list_eq
release_changed = refl

unknown_kind :
    label_repo_obj find_release decode_spec
      (λ o. some (codes "x"))
      (λ m. some (plain m [] ∷ []))
      settings
      (codes "2")
      (codes "prod")
      (codes "c1")
      (codes "Role")
    ≡ some (codes "\n---\nx")
unfolding label_repo_obj label_objects label_object annotations_of nat_eq list_eq
unknown_kind = refl

version_given : codes "2" ≢ []
version_given h = absurd (ground arith)

label_object-selects_example :
    (selects settings (codes "prod") persistent_volume_claim claim.labels ≡ true)
    × (claim.kind ≡ codes "PersistentVolumeClaim")
    × (claim.name ≡ codes "data")
label_object-selects_example =
    label_object-selects find_release decode_spec settings (codes "2") (codes "prod") (codes "c1")
      persistent_volume_claim (plain (codes "PersistentVolumeClaim") (codes "data")) claim
      version_given (unfold label lookup in refl) (unfold has_label lookup in refl)
      (unfold label lookup in refl) (unfold type_of in refl) claim_labelled

abbrev certificate : CertObject
certificate = record {
  name = codes "web";
  labels = [];
  annotations = [];
  exist_cert = some ((codes "key", some (codes "k")) ∷ (codes "cert", some (codes "c")) ∷ []);
  rest = [];
}

abbrev converted_certificate : TlsSecret
converted_certificate = record {
  name = codes "web";
  namespace = codes "dev";
  labels = (tls_secret_label, codes "0.9") ∷ [];
  annotations = [];
  tls_key = codes "k";
  tls_crt = codes "c";
}

-- An encoder that writes the name only.
abbrev encode_name : Converted → Option Text
encode_name (kept o) = some o.name
encode_name (replaced s) = some s.name

nine_given : codes "0.9" ≢ []
nine_given p = absurd cc

convert_certificate-hides_example :
    (convert_certificate encode_name (codes "0.9") (codes "dev") (some (certificate ∷ []))
      ≡ returns (codes "\n---\nweb") (any_replaced (replaced converted_certificate ∷ [])))
    × All (IsHidden settings (codes "dev")) (replaced converted_certificate ∷ [])
unfolding convert_each convert_object lookup list_eq nat_eq insert documents
convert_certificate-hides_example =
    convert_certificate-hides encode_name settings (codes "0.9") (codes "dev") (certificate ∷ [])
      (replaced converted_certificate ∷ []) (codes "\n---\nweb") nine_given refl refl

-- A certificate that brings no key panics.
convert_panics :
    convert_certificate encode_name
      (codes "0.9")
      (codes "dev")
      (some (record certificate { exist_cert = some [] } ∷ []))
    ≡ panics
unfolding convert_certificate lookup
convert_panics = refl
