-- ===== src/Sync/Sparing.antt =====
-- What `Sync` may delete, by the keys of the repository.
use choerodon_cluster_agent.Base.{
  ◌≡◌, refl, sym, ap, subst, Option, none, some, List, [], ◌∷◌, ◌++◌, arith, nat_eq, list_eq, All,
  Option-cases, inl, inr,
}
use choerodon_cluster_agent.Base.Dict.{lookup}
use choerodon_cluster_agent.Base.Text.{Text, codes}
use choerodon_cluster_agent.Manifest.{BaseObject, resource_key, Decoded, ok, parse_multidoc}
use choerodon_cluster_agent.Manifest.Filing.{IsFiled, Result-cases, parse_multidoc-IsFiled}
use choerodon_cluster_agent.Sync.{
  ApiObject, ChangeSet, SyncError, Objects, ParsedObj, parsed, unparsed, Outcome, sync,
}
use choerodon_cluster_agent.Sync.Actions.{absent, object_of, parsed_objs, change_set_of, sync-exact}

-- The repository has no resource under the key of this object.
abbrev pub IsAbsent : Objects → ApiObject → Type 0
IsAbsent repo o = lookup (resource_key o.resource) repo ≡ none

absent-gone :
    (repo cluster : Objects) (id : Text) (o : BaseObject)
    → lookup id repo ≡ none
    → absent repo ((id, o) ∷ cluster) ≡ o ∷ absent repo cluster
absent-gone repo cluster id o e = rw (e, absent) refl

absent-there :
    (repo cluster : Objects) (id : Text) (o : BaseObject) {p : BaseObject}
    → lookup id repo ≡ some p
    → absent repo ((id, o) ∷ cluster) ≡ absent repo cluster
absent-there repo cluster id o e = rw (e, absent) refl

absent-keys :
    (namespace : Text) (repo cluster : Objects)
    → IsFiled namespace cluster
    → All (λ o. lookup (resource_key o) repo ≡ none) (absent repo cluster)
absent-keys namespace repo [] filed = tt
absent-keys namespace repo ((id, o) ∷ cluster) ((key, _), filed) =
    elim (Option-cases (lookup id repo)) [
      | inl gone ↦
          subst (λ os. All (λ o. lookup (resource_key o) repo ≡ none) os)
            (sym (absent-gone repo cluster id o gone))
            (rw key gone, absent-keys namespace repo cluster filed)
      | inr (p, there) ↦
          subst (λ os. All (λ o. lookup (resource_key o) repo ≡ none) os)
            (sym (absent-there repo cluster id o there)) (absent-keys namespace repo cluster filed)
    ]

pub absent-All :
    (P : BaseObject → Type 0) (repo cluster : Objects)
    → All (λ (e : Text × BaseObject). P e.1) cluster
    → All P (absent repo cluster)
absent-All P repo [] h = tt
absent-All P repo ((id, o) ∷ cluster) h =
    let rest = absent-All P repo cluster h.1 in
    elim (Option-cases (lookup id repo)) [
      | inl gone ↦ rw (absent-gone repo cluster id o gone) (h.0, rest)
      | inr (p, there) ↦ rw (absent-there repo cluster id o there) rest
    ]

module _ (parse_obj : Text → ParsedObj) where
  parsed_objs-All :
      (P : BaseObject → Type 0) (os : List BaseObject)
      → All P os
      → All (λ (o : ApiObject). P o.resource) (parsed_objs parse_obj os)
  unfolding parsed_objs object_of
  parsed_objs-All P [] h = tt
  parsed_objs-All P (o ∷ os) h = of_parsed (parse_obj o.bytes) (parsed_objs-All P os h.1)
    where
      of_parsed :
          (p : ParsedObj)
          → All (λ (o : ApiObject). P o.resource) (parsed_objs parse_obj os)
          → All
              (λ (o : ApiObject). P o.resource)
              (object_of parse_obj o p ++ parsed_objs parse_obj os)
      of_parsed (parsed kind name namespace) rest = (h.0, rest)
      of_parsed (unparsed e) rest = rest

  module _ (applier : Text → ChangeSet → SyncError) (decode : Text → BaseObject → Decoded)
      (export : Text → Option Text) where
    -- What holds of all objects of an export that the repository does not have holds of those that
    -- `Sync` deletes.
    pub sync-deletes :
        (P : BaseObject → Type 0) (namespace : Text) (repo changed : Objects) (cs : ChangeSet)
        (outcome : Outcome)
        → ((bytes : Text) (cluster : Objects)
            → export namespace ≡ some bytes
            → parse_multidoc decode namespace bytes (codes "exported") ≡ ok cluster
            → All P (absent repo cluster))
        → sync parse_obj applier decode export namespace repo changed ≡ (some cs, outcome)
        → All (λ (o : ApiObject). P o.resource) cs.delete_obj
    sync-deletes P namespace repo changed cs outcome holds h =
        elim (Option-cases (export namespace)) [
          | inl e ↦ absurd (unfold sync in ground arith)
          | inr (bytes, e) ↦
              elim (Result-cases (parse_multidoc decode namespace bytes (codes "exported"))) [
                | inr (f, p) ↦ absurd (unfold sync in ground arith)
                | inl (cluster, p) ↦
                    let exact =
                      sync-exact parse_obj applier decode export namespace bytes repo changed
                        cluster e p in
                    let same : change_set_of parse_obj repo changed cluster ≡ cs = cc in
                    let deleted : parsed_objs parse_obj (absent repo cluster) ≡ cs.delete_obj =
                      unfold change_set_of in ap (λ (s : ChangeSet). s.delete_obj) same in
                    subst (λ os. All (λ (o : ApiObject). P o.resource) os) deleted
                      (parsed_objs-All P (absent repo cluster) (holds bytes cluster e p))
              ]
        ]

    -- Whatever change set `Sync` hands to the applier, it deletes no object whose key the repository
    -- has.
    pub sync-spares_repo :
        (namespace : Text) (repo changed : Objects) (cs : ChangeSet) (outcome : Outcome)
        → sync parse_obj applier decode export namespace repo changed ≡ (some cs, outcome)
        → All (IsAbsent repo) cs.delete_obj
    sync-spares_repo namespace repo changed cs outcome h =
        sync-deletes (λ o. lookup (resource_key o) repo ≡ none) namespace repo changed cs outcome
          (λ bytes cluster e p.
            absent-keys namespace repo cluster
              (parse_multidoc-IsFiled decode namespace bytes (codes "exported") cluster p))
          h
