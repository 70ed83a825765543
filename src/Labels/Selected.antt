-- ===== src/Labels/Selected.antt =====
-- The resources that `LabelRepoObj` has labelled, and the filters of the export.
use choerodon_cluster_agent.Base.{
  ◌≡◌, ◌≢◌, refl, ap, ◌∙◌, true, false, not, ◌&&◌, Option, some, [], ◌∷◌, ◌++◌, ◌==◌, nat_eq,
  list_eq, arith, Bool-cases, Option-cases, inl, inr, subst, sym,
}
use choerodon_cluster_agent.Base.Dict.{Dict, insert, lookup-insert}
use choerodon_cluster_agent.Base.Text.{Text, codes}
use choerodon_cluster_agent.Cluster.{
  Settings, Kind, service, ingress, c7n_helm_release, config_map, secret, persistent_volume_claim,
  persistent_volume, certificate, deployment, daemon_set, job, cron_job, stateful_set,
  network_label, network_no_del_label, release_label, agent_version_label, tls_secret_label,
  workload_label, release_cluster_label, pvc_label, pv_label, env_label, label, has_label, selects,
  type_of,
}
use choerodon_cluster_agent.Labels.{
  kind_labels, labels_of, name_label, Object, Spec, annotations_of, labelled, label_object,
}

label-here : (k v : Text) (l : Dict Text Text) → label k (insert k v l) ≡ v
unfolding label
label-here k v l = ground (arith, lookup-insert k k v l)

label-behind :
    (j k v : Text) (l : Dict Text Text) → (j == k) ≡ false → label j (insert k v l) ≡ label j l
unfolding label
label-behind j k v l h = ground (arith, lookup-insert j k v l)

has_label-here : (k v : Text) (l : Dict Text Text) → has_label k (insert k v l) ≡ true
unfolding has_label
has_label-here k v l = ground (arith, lookup-insert k k v l)

has_label-behind :
    (j k v : Text) (l : Dict Text Text)
    → (j == k) ≡ false
    → has_label j (insert k v l) ≡ has_label j l
unfolding has_label
has_label-behind j k v l h = ground (arith, lookup-insert j k v l)

same : (t : Text) → (t == t) ≡ true
same t = ground arith

module _ (s : Settings) (version namespace name : Text) (l : Dict Text Text) where
  -- The labels that are set last.
  abbrev versioned : Dict Text Text → Dict Text Text
  versioned m = insert agent_version_label version m

  module _ (given : version ≢ []) (no_release : label release_label l ≡ []) where
    own-versioned :
        (m : Dict Text Text)
        → label release_label m ≡ []
        → ((label release_label (versioned m) == [])
            && not (label agent_version_label (versioned m) == []))
          ≡ true
    unfolding nat_eq list_eq
    own-versioned m h =
        rw (label-behind release_label agent_version_label version m refl)
          (rw (label-here agent_version_label version m) (rw h (is_given version given)))
      where
        is_given : (v : Text) → v ≢ [] → not (v == []) ≡ true
        is_given [] n = absurd (n refl)
        is_given (c ∷ v) n = refl

    module _ (may_delete : has_label network_no_del_label l ≡ false) where
      network-versioned :
          (v : Text)
          → (has_label network_label (versioned (insert network_label v l))
              && not (has_label network_no_del_label (versioned (insert network_label v l))))
            ≡ true
      unfolding nat_eq list_eq
      network-versioned v =
          let m = insert network_label v l in
          rw (has_label-behind network_label agent_version_label version m refl) (
            rw (has_label-here network_label v l) (
              rw (has_label-behind network_no_del_label agent_version_label version m refl) (
                rw (has_label-behind network_no_del_label network_label v l refl)
                  (rw may_delete refl))))

    workload-versioned :
        (kind : Text) → label workload_label (versioned (insert workload_label kind l)) ≡ kind
    unfolding nat_eq list_eq
    workload-versioned kind =
        label-behind workload_label agent_version_label version (insert workload_label kind l) refl
        ∙ label-here workload_label kind l

    module _ (may_delete : has_label network_no_del_label l ≡ false)
        (no_tls : label tls_secret_label l ≡ []) where
      labels_of-selects :
          (kind : Kind)
          → selects s namespace kind (labels_of s version namespace (type_of kind).1 name l) ≡ true
      unfolding selects labels_of kind_labels type_of nat_eq list_eq
      labels_of-selects service = network-versioned may_delete (codes "service")
      labels_of-selects ingress = network-versioned may_delete (codes "ingress")
      labels_of-selects c7n_helm_release = elim (Bool-cases (namespace == s.agent_namespace)) [
        | inr other ↦ rw other refl
        | inl own ↦ rw own (
            rw
              (label-behind release_cluster_label agent_version_label version
                (insert release_cluster_label s.cluster_id l) refl)
              (rw (label-here release_cluster_label s.cluster_id l) (same s.cluster_id)))
      ]
      labels_of-selects config_map = own-versioned l no_release
      labels_of-selects secret =
          rw (label-behind tls_secret_label agent_version_label version l refl)
            (rw no_tls (own-versioned l no_release))
      labels_of-selects persistent_volume_claim =
          let v = codes "pvc-cluster-" ++ s.cluster_id in
          let m = insert name_label name (insert pvc_label v l) in
          let own = own-versioned m (
            label-behind release_label name_label name (insert pvc_label v l) refl
            ∙ label-behind release_label pvc_label v l refl
            ∙ no_release) in
          let claim : label pvc_label (versioned m) ≡ v =
            label-behind pvc_label agent_version_label version m refl
            ∙ label-behind pvc_label name_label name (insert pvc_label v l) refl
            ∙ label-here pvc_label v l in
          rw own (rw claim (same v))
      labels_of-selects persistent_volume =
          let v = codes "pv-cluster-" ++ s.cluster_id in
          let e = insert env_label namespace l in
          let m = insert name_label name (insert pv_label v e) in
          let own = own-versioned m (
            label-behind release_label name_label name (insert pv_label v e) refl
            ∙ label-behind release_label pv_label v e refl
            ∙ label-behind release_label env_label namespace l refl
            ∙ no_release) in
          let volume : label pv_label (versioned m) ≡ v =
            label-behind pv_label agent_version_label version m refl
            ∙ label-behind pv_label name_label name (insert pv_label v e) refl
            ∙ label-here pv_label v e in
          let env : label env_label (versioned m) ≡ namespace =
            label-behind env_label agent_version_label version m refl
            ∙ label-behind env_label name_label name (insert pv_label v e) refl
            ∙ label-behind env_label pv_label v e refl
            ∙ label-here env_label namespace l in
          rw own (rw volume (rw (same v) (rw env (same namespace))))
      labels_of-selects certificate = refl
      labels_of-selects deployment = rw (workload-versioned (codes "Deployment")) refl
      labels_of-selects daemon_set = rw (workload-versioned (codes "DaemonSet")) refl
      labels_of-selects job = rw (workload-versioned (codes "Job")) refl
      labels_of-selects cron_job = rw (workload-versioned (codes "CronJob")) refl
      labels_of-selects stateful_set = rw (workload-versioned (codes "StatefulSet")) refl

module _ (find_release : Text → Text → Option Spec) (decode_spec : Text → Option Spec) where
  -- A resource of any kind that has a filter in the export passes that filter once `LabelRepoObj` has
  -- labelled it, in the environment that it is labelled for, and keeps its kind and name, if the version
  -- of the agent is known and the repository does not give it the labels of a release, of a TLS secret or
  -- of a network that is not to be deleted.
  pub label_object-selects :
      (s : Settings) (version namespace commit : Text) (kind : Kind) (o p : Object)
      → version ≢ []
      → label release_label o.labels ≡ []
      → has_label network_no_del_label o.labels ≡ false
      → label tls_secret_label o.labels ≡ []
      → o.kind ≡ (type_of kind).1
      → label_object find_release decode_spec s version namespace commit o ≡ some p
      → (selects s namespace kind p.labels ≡ true) × (p.kind ≡ o.kind) × (p.name ≡ o.name)
  unfolding label_object
  label_object-selects s version namespace commit kind o p given no_release may_delete no_tls k h =
      elim (Option-cases (annotations_of find_release decode_spec namespace commit o)) [
        | inl bad ↦ absurd (ground arith)
        | inr (a, good) ↦
            let answer : label_object find_release decode_spec s version namespace commit o
                ≡ some (labelled s version namespace commit o a) =
              rw (good, label_object) refl in
            let whole : labelled s version namespace commit o a ≡ p = cc in
            let labels : labels_of s version namespace o.kind o.name o.labels ≡ p.labels =
              ap (λ (q : Object). q.labels) whole in
            let chosen =
              labels_of-selects s version namespace o.name o.labels given no_release may_delete
                no_tls kind in
            (
              subst (λ l. selects s namespace kind l ≡ true) labels
                  (subst
                    (λ t.
                      selects s namespace kind (labels_of s version namespace t o.name o.labels)
                      ≡ true)
                    (sym k) chosen),
              sym (ap (λ (q : Object). q.kind) whole),
              sym (ap (λ (q : Object). q.name) whole),
            )
      ]
