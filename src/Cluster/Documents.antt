-- ===== src/Cluster/Documents.antt =====
-- The API versions and kinds of an export, and the documents that are read from it.
use choerodon_cluster_agent.Base.{
  ◌≡◌, refl, suc, Bool, false, Option, some, List, [], ◌∷◌, ◌==◌, nat_eq, list_eq, length, All,
  Bool-cases, inl, inr,
}
use choerodon_cluster_agent.Base.Dict.{Dict}
use choerodon_cluster_agent.Base.Text.{Text, index_byte}
use choerodon_cluster_agent.Manifest.{scan_all, max_buffer}
use choerodon_cluster_agent.Cluster.{
  Settings, Kind, K8sObject, K8sResource, Query, Listed, service, ingress, c7n_helm_release,
  config_map, secret, persistent_volume_claim, persistent_volume, certificate, deployment,
  daemon_set, job, cron_job, stateful_set, type_of, make_resource, choose, export,
}
use choerodon_cluster_agent.Cluster.Exporting.{exported, export-Rendered}
use choerodon_cluster_agent.Cluster.Selection.{
  Source, of_kind, of_volumes, of_new_certificates, of_old_certificates, exported-All,
}
use choerodon_cluster_agent.Cluster.Scanned.{
  IsPlain, HasPlainType, WritesLines, DocumentsOf, scanned,
}

module _ {B : Type 0} (lists : Query → Listed (K8sObject B)) (s : Settings) (namespace : Text) where
  abbrev IsPlainType : Text × Text → Type 0
  IsPlainType type = IsPlain type.0 × IsPlain type.1

  type_of-plain : (kind : Kind) → IsPlainType (type_of kind)
  unfolding type_of index_byte nat_eq
  type_of-plain service = (refl, refl)
  type_of-plain ingress = (refl, refl)
  type_of-plain c7n_helm_release = (refl, refl)
  type_of-plain config_map = (refl, refl)
  type_of-plain secret = (refl, refl)
  type_of-plain persistent_volume_claim = (refl, refl)
  type_of-plain persistent_volume = (refl, refl)
  type_of-plain certificate = (refl, refl)
  type_of-plain deployment = (refl, refl)
  type_of-plain daemon_set = (refl, refl)
  type_of-plain job = (refl, refl)
  type_of-plain cron_job = (refl, refl)
  type_of-plain stateful_set = (refl, refl)

  choose-plain :
      (test : Dict Text Text → Bool) (type : Text × Text) (items : List (K8sObject B))
      → IsPlainType type
      → All HasPlainType (choose test type items)
  unfolding choose make_resource
  choose-plain test type [] h = tt
  choose-plain test type (o ∷ items) h = elim (Bool-cases (test o.labels)) [
    | inl taken ↦ rw taken (h, choose-plain test type items h)
    | inr left ↦ rw left (choose-plain test type items h)
  ]

  Source-plain :
      (test : Dict Text Text → Bool) (type : Text × Text) (query : Query)
      → Source s namespace test type query
      → IsPlainType type
  Source-plain test type query (of_kind kind) = type_of-plain kind
  Source-plain test type query of_volumes = type_of-plain persistent_volume
  Source-plain test type query of_new_certificates = type_of-plain certificate
  Source-plain test type query of_old_certificates = unfold index_byte nat_eq in (refl, refl)

  plain-of :
      (rs : List (K8sResource B))
      → All (λ r. HasPlainType r × ((r.object.name == namespace) ≡ false)) rs
      → All HasPlainType rs
  plain-of [] h = tt
  plain-of (r ∷ rs) h = (h.0.0, plain-of rs h.1)

  exported-plain : (kinds : List Kind) → All HasPlainType (exported lists s namespace kinds)
  exported-plain kinds = plain-of (exported lists s namespace kinds) (
      exported-All lists s namespace HasPlainType
        (λ test type query items source e.
          choose-plain test type items (Source-plain test type query source))
        kinds)

  -- An export that succeeds, scanned as `ParseMultidoc` does, comes apart into one document for each
  -- resource that the kinds' filters select and that is not named as the environment is, in their
  -- order, unless the scanner overflows; the encoder is to write lines none of which opens a document.
  pub export-scanned :
      (marshal : K8sObject B → Option Text) (kinds : List Kind) (bytes : Text)
      → WritesLines marshal
      → export lists marshal s kinds namespace ≡ some bytes
      → (scan_all (suc (length bytes)) max_buffer bytes).1 ≡ false
      → DocumentsOf marshal
          (exported lists s namespace kinds)
          (scan_all (suc (length bytes)) max_buffer bytes).0
  export-scanned marshal kinds bytes lines h whole =
      scanned marshal lines (exported lists s namespace kinds) bytes (exported-plain kinds)
        (export-Rendered marshal lists s namespace kinds bytes h) whole
