-- ===== src/Agent/Resync/Reporting.antt =====
-- pkg/agent/sync/sync_resource.go: which packets the agent sends for the namespaces.
use choerodon_cluster_agent.Base.{
  ◌≡◌, ◌∙◌, ap, refl, Bool, true, false, not, ◌&&◌, Option, none, some, List, [], ◌∷◌, arith,
  if◌then◌else◌, All, list_eq, nat_eq, Option-cases, Bool-cases, inl, inr,
}
use choerodon_cluster_agent.Base.Text.{Text}
use choerodon_cluster_agent.Agent.Resync.{Kind, Item, Report, tolerates, sync_kind, released_names}

-- The report of a namespace that the API server lists.
abbrev pub IsReport : (Kind → Text → Option (List Item)) → Kind → Report → Type 0
IsReport list kind r =
    (items : List Item) × (list kind r.namespace ≡ some items)
    × (r.resources ≡ released_names items)
    × (r.resource_type ≡ kind)

-- The namespaces that are reported: those that can be listed, up to the first that cannot be listed
-- unless the kind tolerates it.
unfoldable pub reported : (Text → Option (List Item)) → Bool → List Text → List Text
reported list tolerant [] = []
reported list tolerant (ns ∷ namespaces) =
    let rest = reported list tolerant namespaces in
    elim (list ns) [ none ↦ if tolerant then rest else [] | some _ ↦ ns ∷ rest ]

unfoldable pub any_unlisted : (Text → Option (List Item)) → List Text → Bool
any_unlisted list [] = false
any_unlisted list (ns ∷ namespaces) = elim (list ns) [
  | none ↦ true
  | some _ ↦ any_unlisted list namespaces
]

abbrev pub report_namespaces : List Report → List Text
report_namespaces [] = []
report_namespaces (r ∷ reports) = r.namespace ∷ report_namespaces reports

-- The packets of a kind go to the namespaces that can be listed, in their order, each with the names of
-- the objects that have a release label. If a namespace cannot be listed, it is passed over for
-- stateful sets, and ends the process for the other kinds.
sync_kind-exact :
    (list : Kind → Text → Option (List Item)) (kind : Kind) (namespaces : List Text)
    → All (IsReport list kind) (sync_kind list kind namespaces).0
      × (report_namespaces (sync_kind list kind namespaces).0
          ≡ reported (list kind) (tolerates kind) namespaces)
      × ((sync_kind list kind namespaces).1
          ≡ (not (tolerates kind) && any_unlisted (list kind) namespaces))
unfolding sync_kind reported any_unlisted
sync_kind-exact list kind [] = (tt, refl, ground arith)
sync_kind-exact list kind (ns ∷ namespaces) =
    let (reports, names, ended) = sync_kind-exact list kind namespaces in
    elim (Option-cases (list kind ns)) [
      | inr (items, e) ↦
          rw (e, sync_kind, reported, any_unlisted)
            (((items, e, refl, refl), reports), rw names, ended)
      | inl n ↦ elim (Bool-cases (tolerates kind)) [
        | inl t ↦
            rw (n, sync_kind, reported, any_unlisted, t)
              (reports, names, ended ∙ ap (λ b. not b && any_unlisted (list kind) namespaces) t)
        | inr f ↦ rw (n, sync_kind, reported, any_unlisted, f) (tt, refl, refl)
      ]
    ]
