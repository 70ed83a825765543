-- ===== src/Polaris/Checks/Complete.antt =====
-- The checks that have a result in an audit.
use choerodon_cluster_agent.Base.{
  ◌≡◌, subst, Bool, true, false, Option, some, List, [], ◌∷◌, arith, ◌==◌, nat_eq, list_eq,
  Bool-cases, Option-cases, inl, inr, contains, ◌||◌,
}
use choerodon_cluster_agent.Base.Dict.{Dict, insert, keys, contains-keys, lookup-insert}
use choerodon_cluster_agent.Base.Text.{Text}
use choerodon_cluster_agent.Polaris.Config.{SchemaCheck, Configuration}
use choerodon_cluster_agent.Polaris.Audit.{
  Controller, ResultMessage, ResultSet, annotated, exempt_key, resolved, make_result, resolve_check,
  apply_checks,
}
use choerodon_cluster_agent.Polaris.Checks.{Resolved-cases, some-injective}

module _ (built_in : Dict Text SchemaCheck) (conf : Configuration) (controller : Controller)
    (target : Text) (is_init : Bool) (passes : SchemaCheck → Option Bool) where
  contains-insert :
      (k j : Text) (m : ResultMessage) (results : ResultSet)
      → contains (keys (insert k m results)) j ≡ j == k || contains (keys results) j
  contains-insert k j m results = ground (
    arith,
    contains-keys j (insert k m results),
    lookup-insert j k m results,
    contains-keys j results,
  )

  apply_checks-keeps :
      (ids : List Text) (results out : ResultSet) (k : Text)
      → apply_checks built_in conf controller target is_init passes ids results ≡ some out
      → contains (keys results) k ≡ true
      → contains (keys out) k ≡ true
  unfolding apply_checks
  apply_checks-keeps [] results out k e h =
      subst (λ r. contains (keys r) k ≡ true) (some-injective e) h
  apply_checks-keeps (id ∷ ids) results out k e h =
      elim (Bool-cases (annotated controller.annotations (exempt_key id))) [
        | inl exempt ↦ apply_checks-keeps ids results out k (rw (exempt, apply_checks) at e) h
        | inr not_exempt ↦
            let e1 = rw (not_exempt, apply_checks) at e in
            elim (Resolved-cases (resolve_check built_in conf id controller target is_init)) [
              | inl r ↦ absurd (ground arith)
              | inr (inl r) ↦ apply_checks-keeps ids results out k (rw r at e1) h
              | inr (inr (check, r)) ↦ elim (Option-cases (passes check)) [
                | inl p ↦ absurd (ground arith)
                | inr (success, p) ↦
                    apply_checks-keeps ids
                      (insert check.id (make_result conf check success) results) out k
                      (rw p at (rw r at e1))
                      (ground (
                        arith,
                        contains-insert check.id k (make_result conf check success) results,
                      ))
              ]
            ]
      ]

  -- A check that is listed, found and not exempted has a result.
  apply_checks_complete :
      (ids : List Text) (results out : ResultSet) (key : Text) (check : SchemaCheck)
      → apply_checks built_in conf controller target is_init passes ids results ≡ some out
      → contains ids key ≡ true
      → annotated controller.annotations (exempt_key key) ≡ false
      → resolve_check built_in conf key controller target is_init ≡ resolved check
      → contains (keys out) check.id ≡ true
  unfolding apply_checks
  apply_checks_complete [] results out key check e listed free found = absurd (ground arith)
  apply_checks_complete (id ∷ ids) results out key check e listed free found =
      elim (Bool-cases (annotated controller.annotations (exempt_key id))) [
        | inl exempt ↦
            apply_checks_complete ids results out key check (rw (exempt, apply_checks) at e)
              (other id ids key exempt free listed) free found
        | inr not_exempt ↦
            let e1 = rw (not_exempt, apply_checks) at e in
            elim (Resolved-cases (resolve_check built_in conf id controller target is_init)) [
              | inl r ↦ absurd (ground arith)
              | inr (inl r) ↦ elim (Bool-cases (key == id)) [
                | inl same ↦ absurd (ground arith)
                | inr differs ↦
                    apply_checks_complete ids results out key check (rw r at e1) (ground arith) free
                      found
              ]
              | inr (inr (c, r)) ↦ elim (Option-cases (passes c)) [
                | inl p ↦ absurd (ground arith)
                | inr (success, p) ↦
                    let e2 = rw p at (rw r at e1) in
                    elim (Bool-cases (key == id)) [
                      | inl same ↦
                          apply_checks-keeps ids (insert c.id (make_result conf c success) results)
                            out check.id e2
                            (ground (
                              arith,
                              contains-insert c.id check.id (make_result conf c success) results,
                            ))
                      | inr differs ↦
                          apply_checks_complete ids
                            (insert c.id (make_result conf c success) results) out key check e2
                            (ground arith) free found
                    ]
              ]
            ]
      ]
    where
      other :
          (id : Text) (ids : List Text) (key : Text)
          → annotated controller.annotations (exempt_key id) ≡ true
          → annotated controller.annotations (exempt_key key) ≡ false
          → contains (id ∷ ids) key ≡ true
          → contains ids key ≡ true
      other id ids key exempt free listed = elim (Bool-cases (key == id)) [
        | inl same ↦ absurd (ground arith)
        | inr differs ↦ ground arith
      ]
