-- ===== src/Status/Honest.antt =====
-- pkg/command/helm/helm_helper.go, `SyncStatus`: what the reported commits say of the cluster.
use choerodon_cluster_agent.Base.{
  ◌≡◌, ◌∙◌, refl, sym, ap, Bool, true, false, none, some, List, [], ◌∷◌, arith, Option, ◌==◌,
  nat_eq, list_eq, Option-cases, Bool-cases, inl, inr, ◌⊎◌,
}
use choerodon_cluster_agent.Base.Text.{Text, codes}
use choerodon_cluster_agent.Cluster.{label}
use choerodon_cluster_agent.Labels.{commit_label}
use choerodon_cluster_agent.Status.{
  ResourceType, certificate, instance_type, persistent_volume, persistent_volume_claim, ingress,
  service, config_map, secret, deployment, stateful_set, job, cron_job, daemon_set, Got, missing,
  broken, found, Found, Cluster, Release, SyncRequest, answer, new_sync_response, get_commit,
  get_commit_and_phase, is_secret_exist, get_c7n_helm_release, report_commit, report_phase,
  report_secret, report_instance, report_release, sync_type, sync_one, sync_each, resource_type_of,
}

-- Helm has the release deployed, with the chart and the values of the instance.
abbrev pub AgreesWith : Found → Option Release → Type 0
AgreesWith f none = ⊥
AgreesWith f (some release) =
    (release.status ≡ codes "deployed")
    × (release.chart_version ≡ f.chart_version)
    × (release.config ≡ f.values)

-- Helm has an error, or has the release deployed with another chart or other values.
abbrev pub DiffersFrom : Found → Option Release → Type 0
DiffersFrom f none = Unit
DiffersFrom f (some release) =
    (release.status ≡ codes "deployed")
    × (((release.chart_version == f.chart_version) ≡ false)
        ⊎ ((release.config == f.values) ≡ false))

-- The commit that is reported of an instance which is found, for the commit that was asked for: the
-- latter if the instance is at another one, or if it is at that one and Helm agrees; none if Helm
-- does not.
abbrev pub SaysInstance : Text → Text → Found → Option Release → Type 0
SaysInstance asked commit f release =
    ((label commit_label f.annotations == []) ≡ false)
    × ((((label commit_label f.annotations == asked) ≡ false) × (commit ≡ asked))
        ⊎ ((label commit_label f.annotations ≡ asked)
            × (((commit ≡ asked) × AgreesWith f release)
                ⊎ ((commit ≡ []) × DiffersFrom f release))))

abbrev pub SaysPlain : Text → Found → Type 0
SaysPlain commit f = (label commit_label f.annotations ≡ commit) × ((commit == []) ≡ false)

-- The commit that is reported of a resource which is found: of a certificate the one that was asked for, if
-- its secret is of the type for TLS; of an instance see above; of any other type that of its annotations,
-- which is not empty.
abbrev pub Says : ResourceType → Text → Text → Found → Option Release → Type 0
Says certificate asked commit f release =
    (f.secret_type ≡ codes "kubernetes.io/tls") × (commit ≡ asked)
Says instance_type asked commit f release = SaysInstance asked commit f release
Says type asked commit f release = SaysPlain commit f

-- The response has the name and the number of the request, and either the resource is not found and no
-- commit is reported, or it is found and the commit is the one above.
abbrev pub Answers : ResourceType → Got → Option Release → SyncRequest → SyncRequest → Type 0
Answers type got release r reply =
    (reply.resource_name ≡ r.resource_name)
    × (reply.id ≡ r.id)
    × (((reply.commit ≡ []) × (got ≡ missing))
        ⊎ ((f : Found) × (got ≡ found f) × Says type r.commit reply.commit f release))

-- The response answers for the resource of the type that the request names.
abbrev pub IsHonest : Cluster → SyncRequest → SyncRequest → Type 0
IsHonest c r reply =
    (type : ResourceType) × (resource_type_of r.resource_type ≡ some type)
    × Answers type (c.get type r.resource_name) (c.release r.resource_name) r reply

module _ (r reply : SyncRequest) where
  -- Of a resource with a commit.
  abbrev IsExact : Got → Type 0
  IsExact got =
      (reply.resource_name ≡ r.resource_name)
      × (reply.id ≡ r.id)
      × (((reply.commit ≡ []) × (got ≡ missing))
          ⊎ ((f : Found) × (got ≡ found f) × SaysPlain reply.commit f))

  commit-IsExact : (got : Got) → report_commit r (get_commit got) ≡ some reply → IsExact got
  unfolding report_commit get_commit answer new_sync_response
  commit-IsExact missing e = (ground arith, ground arith, inl (ground arith, refl))
  commit-IsExact broken e = absurd (ground arith)
  commit-IsExact (found f) e =
      (ground arith, ground arith, inr (f, refl, (ground arith, ground arith)))

  phase-empty :
      (f : Found)
      → (label commit_label f.annotations == []) ≡ true
      → report_phase r (get_commit_and_phase (found f)) ≡ none
  unfolding report_phase get_commit_and_phase list_eq
  phase-empty f t = rw (get_commit_and_phase, t)

  phase-full :
      (f : Found)
      → (label commit_label f.annotations == []) ≡ false
      → report_phase r (get_commit_and_phase (found f))
        ≡ some (answer r (label commit_label f.annotations) f.phase)
  unfolding report_phase get_commit_and_phase
  phase-full f t =
      let commit = label commit_label f.annotations in
      let got : get_commit_and_phase (found f) ≡ some (commit, f.phase) =
        rw (get_commit_and_phase, t) in
      let full : report_phase r (some (commit, f.phase)) ≡ some (answer r commit f.phase) =
        rw (report_phase, t) in
      ap (report_phase r) got ∙ full

  phase-IsExact : (got : Got) → report_phase r (get_commit_and_phase got) ≡ some reply → IsExact got
  unfolding report_phase get_commit_and_phase answer new_sync_response
  phase-IsExact missing e = (ground arith, ground arith, inl (ground arith, refl))
  phase-IsExact broken e = absurd (ground arith)
  phase-IsExact (found f) e = elim (Bool-cases (label commit_label f.annotations == [])) [
    | inl t ↦ let off : none ≡ some reply = sym (phase-empty f t) ∙ e in absurd cc
    | inr t ↦
        let same : some (answer r (label commit_label f.annotations) f.phase) ≡ some reply =
          sym (phase-full f t) ∙ e in
        (ground arith, ground arith, inr (f, refl, (ground arith, ground arith)))
  ]

  secret-Answers :
      (got : Got) (release : Option Release)
      → report_secret r (is_secret_exist got) ≡ some reply
      → Answers certificate got release r reply
  unfolding report_secret is_secret_exist answer new_sync_response
  secret-Answers missing release e = (ground arith, ground arith, inl (ground arith, refl))
  secret-Answers broken release e = absurd (ground arith)
  secret-Answers (found f) release e =
      elim (Bool-cases (f.secret_type == codes "kubernetes.io/tls")) [
        | inl t ↦ (ground arith, ground arith, inr (f, refl, (ground arith, ground arith)))
        | inr t ↦ absurd (ground arith)
      ]

  -- The response to a release of an instance at the commit that is asked for.
  release-Says :
      (f : Found) (release : Option Release)
      → report_release r f release ≡ some reply
      → (reply.resource_name ≡ r.resource_name)
        × (reply.id ≡ r.id)
        × (((reply.commit ≡ r.commit) × AgreesWith f release)
            ⊎ ((reply.commit ≡ []) × DiffersFrom f release))
  unfolding report_release answer new_sync_response
  release-Says f none e = (ground arith, ground arith, inr (ground arith, tt))
  release-Says f (some release) e = elim (Bool-cases (release.status == codes "deployed")) [
    | inr other ↦ absurd (ground arith)
    | inl on ↦ elim (Bool-cases (release.chart_version == f.chart_version)) [
      | inr chart ↦ (ground arith, ground arith, inr (ground arith, (ground arith, inl chart)))
      | inl chart ↦ elim (Bool-cases (release.config == f.values)) [
        | inr values ↦ (ground arith, ground arith, inr (ground arith, (ground arith, inr values)))
        | inl values ↦ (
          ground arith,
          ground arith,
          inl (ground arith, (ground arith, ground arith, ground arith)),
        )
      ]
    ]
  ]

  instance-Answers :
      (c : Cluster) (managed : Bool) (got : Got)
      → report_instance c r (get_c7n_helm_release managed got) ≡ some reply
      → Answers instance_type got (c.release r.resource_name) r reply
  unfolding report_instance get_c7n_helm_release answer new_sync_response
  instance-Answers c false got e = absurd (ground arith)
  instance-Answers c true missing e = (ground arith, ground arith, inl (ground arith, refl))
  instance-Answers c true broken e = absurd (ground arith)
  instance-Answers c true (found f) e = elim (Bool-cases (label commit_label f.annotations == [])) [
    | inl bare ↦ absurd (ground arith)
    | inr full ↦ elim (Bool-cases (label commit_label f.annotations == r.commit)) [
      | inr other ↦ (ground arith, ground arith, inr (f, refl, (full, inl (other, ground arith))))
      | inl same ↦
          let (name, id, says) = release-Says f (c.release r.resource_name) (ground arith) in
          (name, id, inr (f, refl, (full, inr (ground arith, says))))
    ]
  ]

  sync_type-Answers :
      (c : Cluster) (type : ResourceType)
      → sync_type c r type ≡ some reply
      → Answers type (c.get type r.resource_name) (c.release r.resource_name) r reply
  unfolding sync_type
  sync_type-Answers c certificate e =
      secret-Answers (c.get certificate r.resource_name) (c.release r.resource_name) e
  sync_type-Answers c instance_type e =
      instance-Answers c c.has_manager (c.get instance_type r.resource_name) e
  sync_type-Answers c persistent_volume e =
      phase-IsExact (c.get persistent_volume r.resource_name) e
  sync_type-Answers c persistent_volume_claim e =
      phase-IsExact (c.get persistent_volume_claim r.resource_name) e
  sync_type-Answers c ingress e = commit-IsExact (c.get ingress r.resource_name) e
  sync_type-Answers c service e = commit-IsExact (c.get service r.resource_name) e
  sync_type-Answers c config_map e = commit-IsExact (c.get config_map r.resource_name) e
  sync_type-Answers c secret e = commit-IsExact (c.get secret r.resource_name) e
  sync_type-Answers c deployment e = commit-IsExact (c.get deployment r.resource_name) e
  sync_type-Answers c stateful_set e = commit-IsExact (c.get stateful_set r.resource_name) e
  sync_type-Answers c job e = commit-IsExact (c.get job r.resource_name) e
  sync_type-Answers c cron_job e = commit-IsExact (c.get cron_job r.resource_name) e
  sync_type-Answers c daemon_set e = commit-IsExact (c.get daemon_set r.resource_name) e

  sync_one-IsHonest : (c : Cluster) → sync_one c r ≡ some reply → IsHonest c r reply
  unfolding sync_one
  sync_one-IsHonest c e = elim (Option-cases (resource_type_of r.resource_type)) [
    | inl n ↦ absurd (ground arith)
    | inr (type, t) ↦ (type, t, sync_type-Answers c type (ground arith))
  ]

-- The replies to some of the requests, in their order, each honest.
pub data Replies (c : Cluster) : List SyncRequest → List SyncRequest → Type 0 where
  none_left : Replies c [] []
  silent :
      (r : SyncRequest) {reqs out : List SyncRequest}
      → Replies c reqs out
      → Replies c (r ∷ reqs) out
  replies :
      {r reply : SyncRequest} {reqs out : List SyncRequest}
      → IsHonest c r reply
      → Replies c reqs out
      → Replies c (r ∷ reqs) (reply ∷ out)

-- `SyncStatus` answers some of the requests, in their order, each for its own resource, of a type that it
-- knows. A resource that is not found is reported without a commit. A certificate that is found is reported
-- at the commit that was asked for, and its secret is of the type for TLS. An instance that is found, with
-- a commit, is reported at the commit that was asked for if it is at another one, or if it is at that one
-- and Helm has the release deployed with its chart and values; without a commit if it is at that one and
-- Helm has an error or the release deployed with another chart or other values. Any other resource that is
-- found is reported at the commit of its annotations, which is not empty.
pub sync_each-Replies : (c : Cluster) (reqs : List SyncRequest) → Replies c reqs (sync_each c reqs)
unfolding sync_each
sync_each-Replies c [] = none_left
sync_each-Replies c (r ∷ reqs) = elim (Option-cases (sync_one c r)) [
  | inl n ↦ rw (n, sync_each) (silent r (sync_each-Replies c reqs))
  | inr (reply, e) ↦
      rw (e, sync_each) (replies (sync_one-IsHonest r reply c e) (sync_each-Replies c reqs))
]
