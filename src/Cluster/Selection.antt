-- ===== src/Cluster/Selection.antt =====
-- Where the resources of an export come from.
use mathlib.Core.List.{Memᴰ}
use mathlib.Core.List.Memᴰ.{head, tail}
use choerodon_cluster_agent.Base.{
  ◌≡◌, refl, Bool, true, false, List, [], ◌∷◌, ◌==◌, nat_eq, list_eq, if◌then◌else◌, All,
  All-append, Bool-cases, inl, inr,
}
use choerodon_cluster_agent.Base.Dict.{Dict}
use choerodon_cluster_agent.Base.Text.{Text, codes}
use choerodon_cluster_agent.Cluster.{
  Settings, Kind, K8sObject, K8sResource, Query, Listed, listed, not_found, failed, service,
  ingress, c7n_helm_release, config_map, secret, persistent_volume_claim, persistent_volume,
  certificate, deployment, daemon_set, job, cron_job, stateful_set, selects, v1_certificates,
  v1alpha1_certificates, list_of, volumes, type_of, make_resource, choose, choose_listed,
  join_listed, get_certificates, get_resources,
}
use choerodon_cluster_agent.Cluster.Exporting.{others, found, exported}

-- The filters, with the type that the resources get and the list that they are chosen from.
pub data Source (s : Settings) (namespace : Text)
    : (Dict Text Text → Bool) → Text × Text → Query → Type 0 where
  of_kind :
      (kind : Kind)
      → Source s namespace (selects s namespace kind) (type_of kind) (list_of kind namespace)
  of_volumes :
      Source s namespace (selects s namespace persistent_volume) (type_of persistent_volume) volumes
  of_new_certificates :
      Source s namespace (λ _. true) (type_of certificate) (v1_certificates namespace)
  of_old_certificates :
      Source s namespace
        (λ _. true)
        (codes "v1alpha1", codes "Certificate")
        (v1alpha1_certificates namespace)

module _ {B : Type 0} (lists : Query → Listed (K8sObject B)) (s : Settings) (namespace : Text) where
  -- A resource that one of the filters lets through, of an object that the API server lists, and whose
  -- name is not that of the environment.
  pub record IsSelected (r : K8sResource B) : Type 0 where
    pub test : Dict Text Text → Bool
    pub type : Text × Text
    pub query : Query
    pub items : List (K8sObject B)
    pub source : Source s namespace test type query
    pub answer : lists query ≡ listed items
    pub there : Memᴰ r.object items
    pub passes : test r.object.labels ≡ true
    pub made : make_resource type r.object ≡ r

  -- What holds of all that is chosen from the lists holds of the resources of an export.
  module _ (P : K8sResource B → Type 0)
      (chosen : (test : Dict Text Text → Bool) (type : Text × Text) (query : Query)
          (items : List (K8sObject B))
        → Source s namespace test type query
        → lists query ≡ listed items
        → All P (choose test type items)) where
    choose_listed-All :
        (test : Dict Text Text → Bool) (type : Text × Text) (query : Query)
        → Source s namespace test type query
        → (l : Listed (K8sObject B)) → lists query ≡ l
        → All P (found (choose_listed test type l))
    unfolding choose_listed
    choose_listed-All test type query source (listed items) e =
        chosen test type query items source e
    choose_listed-All test type query source not_found e = tt
    choose_listed-All test type query source failed e = tt

    join_listed-All :
        (l k : Listed (K8sResource B))
        → All P (found l)
        → All P (found k)
        → All P (found (join_listed l k))
    unfolding join_listed
    join_listed-All (listed xs) (listed ys) h g = All-append P xs ys h g
    join_listed-All (listed xs) not_found h g = tt
    join_listed-All (listed xs) failed h g = tt
    join_listed-All not_found k h g = tt
    join_listed-All failed k h g = tt

    if-All :
        (test : Bool) (l k : Listed (K8sResource B))
        → All P (found l)
        → All P (found k)
        → All P (found (if test then l else k))
    if-All true l k h g = h
    if-All false l k h g = g

    Source-All :
        (test : Dict Text Text → Bool) (type : Text × Text) (query : Query)
        → Source s namespace test type query
        → All P (found (choose_listed test type (lists query)))
    Source-All test type query source = choose_listed-All test type query source (lists query) refl

    kind-All :
        (kind : Kind)
        → All P (
            found (
              choose_listed
                (selects s namespace kind)
                (type_of kind)
                (lists (list_of kind namespace))))
    kind-All kind =
        Source-All (selects s namespace kind) (type_of kind) (list_of kind namespace) (of_kind kind)

    get_resources-All : (kind : Kind) → All P (found (get_resources lists s namespace kind))
    unfolding get_resources get_certificates
    get_resources-All certificate =
        let old =
          choose_listed (λ _. true) (codes "v1alpha1", codes "Certificate")
            (lists (v1alpha1_certificates namespace)) in
        let new =
          choose_listed (λ _. true) (type_of certificate) (lists (v1_certificates namespace)) in
        join_listed-All (if s.cert_manager_version == codes "0.1.0" then old else listed [])
          (if s.cert_manager_version == codes "1.1.1" then new else listed [])
          (if-All (s.cert_manager_version == codes "0.1.0") old (listed [])
            (Source-All (λ _. true) (codes "v1alpha1", codes "Certificate")
              (v1alpha1_certificates namespace) of_old_certificates)
            tt)
          (if-All (s.cert_manager_version == codes "1.1.1") new (listed [])
            (Source-All (λ _. true) (type_of certificate) (v1_certificates namespace)
              of_new_certificates)
            tt)
    get_resources-All persistent_volume =
        if-All s.restricted_model (listed [])
          (choose_listed (selects s namespace persistent_volume) (type_of persistent_volume)
            (lists volumes))
          tt
          (Source-All (selects s namespace persistent_volume) (type_of persistent_volume) volumes
            of_volumes)
    get_resources-All service = kind-All service
    get_resources-All ingress = kind-All ingress
    get_resources-All c7n_helm_release = kind-All c7n_helm_release
    get_resources-All config_map = kind-All config_map
    get_resources-All secret = kind-All secret
    get_resources-All persistent_volume_claim = kind-All persistent_volume_claim
    get_resources-All deployment = kind-All deployment
    get_resources-All daemon_set = kind-All daemon_set
    get_resources-All job = kind-All job
    get_resources-All cron_job = kind-All cron_job
    get_resources-All stateful_set = kind-All stateful_set

    abbrev pub AndNotAgent : K8sResource B → Type 0
    AndNotAgent r = P r × ((r.object.name == namespace) ≡ false)

    others-All : (rs : List (K8sResource B)) → All P rs → All AndNotAgent (others namespace rs)
    others-All [] h = tt
    others-All (r ∷ rs) h = elim (Bool-cases (r.object.name == namespace)) [
      | inl same ↦ rw same (others-All rs h.1)
      | inr other ↦ rw other ((h.0, other), others-All rs h.1)
    ]

    pub exported-All : (kinds : List Kind) → All AndNotAgent (exported lists s namespace kinds)
    exported-All [] = tt
    exported-All (kind ∷ kinds) =
        All-append AndNotAgent (others namespace (found (get_resources lists s namespace kind)))
          (exported lists s namespace kinds)
          (others-All (found (get_resources lists s namespace kind)) (get_resources-All kind))
          (exported-All kinds)

  -- From the whole list to a part: the objects behind those that were chosen.
  choose-IsSelected :
      (test : Dict Text Text → Bool) (type : Text × Text) (query : Query)
      (all items : List (K8sObject B))
      → Source s namespace test type query
      → lists query ≡ listed all
      → ((o : K8sObject B) → Memᴰ o items → Memᴰ o all)
      → All IsSelected (choose test type items)
  unfolding choose
  choose-IsSelected test type query all [] source e part = tt
  choose-IsSelected test type query all (o ∷ items) source e part =
      let rest = choose-IsSelected test type query all items source e (λ p m. part p (tail m)) in
      elim (Bool-cases (test o.labels)) [
        | inl taken ↦ rw taken (
          record {
            test = test;
            type = type;
            query = query;
            items = all;
            source = source;
            answer = e;
            there = unfold make_resource in part o (head refl);
            passes = unfold make_resource in taken;
            made = unfold make_resource in refl;
          },
          rest,
        )
        | inr left ↦ rw left rest
      ]

  pub exported-IsSelected :
      (kinds : List Kind)
      → All
          (λ r. IsSelected r × ((r.object.name == namespace) ≡ false))
          (exported lists s namespace kinds)
  exported-IsSelected kinds =
      exported-All IsSelected
        (λ test type query items source e.
          choose-IsSelected test type query items items source e (λ o m. m))
        kinds
