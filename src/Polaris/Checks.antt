-- ===== src/Polaris/Checks.antt =====
-- Where the results of an audit come from.
pub mod Complete
use choerodon_cluster_agent.Base.{
  ◌≡◌, refl, sym, subst, Bool, true, false, not, ◌&&◌, Option, some, List, [], ◌∷◌, arith, ◌==◌,
  nat_eq, list_eq, if◌then◌else◌, All, Bool-cases, Option-cases, inl, inr, ◌⊎◌, ap, contains, ◌||◌,
}
use choerodon_cluster_agent.Base.Dict.{
  Dict, lookup, insert, insert-All, keys, contains-keys, lookup-insert,
}
use choerodon_cluster_agent.Base.Text.{Text, codes}
use choerodon_cluster_agent.Polaris.Config.{
  SchemaCheck, Configuration, conf_is_actionable, check_is_actionable,
}
use choerodon_cluster_agent.Polaris.Audit.{
  Container, PodSpec, Controller, ResultMessage, ResultSet, ControllerResult, annotated, exempt_key,
  exemption_annotation_key, Resolved, not_known, not_actionable, resolved, if_actionable,
  make_result, resolve_check, apply_checks, apply_container_schema_checks, validate_controller,
  validate_controllers,
}

-- What stands behind an entry of a result set: a check that is found under a name from which the
-- controller is not exempted, that the configuration and the check itself make actionable, and whose
-- schema gave this result.
pub record Justified (built_in : Dict Text SchemaCheck) (conf : Configuration)
    (controller : Controller) (target : Text) (is_init : Bool) (passes : SchemaCheck → Option Bool)
    (entry : Text × ResultMessage) : Type 0 where
  pub key : Text
  pub check : SchemaCheck
  pub success : Bool
  pub not_exempt : annotated controller.annotations (exempt_key key) ≡ false
  pub found : resolve_check built_in conf key controller target is_init ≡ resolved check
  pub allowed : conf_is_actionable conf check.id controller.name ≡ true
  pub applies : check_is_actionable check target controller.kind is_init ≡ true
  pub checked : passes check ≡ some success
  pub filed : entry ≡ (check.id, make_result conf check success)

pub Resolved-cases :
    (r : Resolved)
    → (r ≡ not_known) ⊎ ((r ≡ not_actionable) ⊎ ((check : SchemaCheck) × (r ≡ resolved check)))
Resolved-cases not_known = inl refl
Resolved-cases not_actionable = inr (inl refl)
Resolved-cases (resolved check) = inr (inr (check, refl))

pub some-injective : {A : Type 0} {a b : A} → some a ≡ some b → a ≡ b
some-injective h = cc

if_actionable-resolved :
    (conf : Configuration) (controller : Controller) (target : Text) (is_init : Bool)
    (check c : SchemaCheck)
    → if_actionable conf controller target is_init check ≡ resolved c
    → (conf_is_actionable conf c.id controller.name ≡ true)
      × (check_is_actionable c target controller.kind is_init ≡ true)
if_actionable-resolved conf controller target is_init check c h = ground arith

module _ (built_in : Dict Text SchemaCheck) (conf : Configuration) (controller : Controller)
    (target : Text) (is_init : Bool) (passes : SchemaCheck → Option Bool) where
  resolve_check-resolved :
      (key : Text) (c : SchemaCheck)
      → resolve_check built_in conf key controller target is_init ≡ resolved c
      → (conf_is_actionable conf c.id controller.name ≡ true)
        × (check_is_actionable c target controller.kind is_init ≡ true)
  unfolding resolve_check
  resolve_check-resolved key c h = elim (Option-cases (lookup key conf.custom_checks)) [
    | inr (check, e) ↦
        if_actionable-resolved conf controller target is_init check c (rw (e, resolve_check) at h)
    | inl e ↦ elim (Option-cases (lookup key built_in)) [
      | inr (check, b) ↦
          if_actionable-resolved conf controller target is_init check c
            (rw b at (rw (e, resolve_check) at h))
      | inl b ↦ absurd (ground arith)
    ]
  ]

  pub apply_checks-Justified :
      (ids : List Text) (results out : ResultSet)
      → All (Justified built_in conf controller target is_init passes) results
      → apply_checks built_in conf controller target is_init passes ids results ≡ some out
      → All (Justified built_in conf controller target is_init passes) out
  unfolding apply_checks
  apply_checks-Justified [] results out h e =
      subst (λ r. All (Justified built_in conf controller target is_init passes) r)
        (some-injective e) h
  apply_checks-Justified (id ∷ ids) results out h e =
      elim (Bool-cases (annotated controller.annotations (exempt_key id))) [
        | inl exempt ↦ apply_checks-Justified ids results out h (rw (exempt, apply_checks) at e)
        | inr not_exempt ↦
            let e1 = rw (not_exempt, apply_checks) at e in
            elim (Resolved-cases (resolve_check built_in conf id controller target is_init)) [
              | inl r ↦ absurd (ground arith)
              | inr (inl r) ↦ apply_checks-Justified ids results out h (rw r at e1)
              | inr (inr (check, r)) ↦ elim (Option-cases (passes check)) [
                | inl p ↦ absurd (ground arith)
                | inr (success, p) ↦
                    let actionable = resolve_check-resolved id check r in
                    apply_checks-Justified ids
                      (insert check.id (make_result conf check success) results) out
                      (insert-All (Justified built_in conf controller target is_init passes)
                        check.id (make_result conf check success) results
                        (record {
                          key = id;
                          check = check;
                          success = success;
                          not_exempt = not_exempt;
                          found = r;
                          allowed = actionable.0;
                          applies = actionable.1;
                          checked = p;
                          filed = refl;
                        })
                        h)
                      (rw p at (rw r at e1))
              ]
            ]
      ]

-- The schema that a check applies to a container.
abbrev pub container_schema :
    (SchemaCheck → PodSpec → Option Bool)
    → (SchemaCheck → Container → Option Bool)
    → Controller
    → Container
    → SchemaCheck
    → Option Bool
container_schema check_pod check_container controller container check =
    if check.schema_target == codes "Pod"
    then check_pod check
        (record (controller.pod_spec) { init_containers = []; containers = container ∷ [] })
    else check_container check container

-- The controllers that carry no exemption, or all if exemptions are disallowed.
abbrev pub audited : Configuration → List Controller → List Text
audited conf [] = []
audited conf (controller ∷ controllers) =
    let rest = audited conf controllers in
    if not conf.disallow_exemptions && annotated controller.annotations exemption_annotation_key
    then rest
    else controller.name ∷ rest

abbrev pub result_names : List ControllerResult → List Text
result_names [] = []
result_names (r ∷ results) = r.name ∷ result_names results

module _ (built_in : Dict Text SchemaCheck) (sort : List Text → List Text)
    (check_pod : SchemaCheck → PodSpec → Option Bool)
    (check_container : SchemaCheck → Container → Option Bool) where
  -- Every result of a container comes from a check whose name the controller is not exempted from, that
  -- is found, and that the configuration and its own lists make actionable for the controller and the
  -- sort of container; it is filed under the name of the check and says what the schema answered.
  pub apply_container_schema_checks-Justified :
      (conf : Configuration) (controller : Controller) (container : Container) (is_init : Bool)
      (out : ResultSet)
      → apply_container_schema_checks built_in sort check_pod check_container conf controller
          container is_init
        ≡ some out
      → All
          (Justified built_in conf controller
            (codes "Container")
            is_init
            (container_schema check_pod check_container controller container))
          out
  unfolding apply_container_schema_checks
  apply_container_schema_checks-Justified conf controller container is_init out e =
      apply_checks-Justified built_in conf controller (codes "Container") is_init
        (container_schema check_pod check_container controller container) (sort (keys conf.checks))
        [] out tt e

  validate_controller-name :
      (conf : Configuration) (controller : Controller) (r : ControllerResult)
      → validate_controller built_in sort check_pod check_container conf controller ≡ some r
      → r.name ≡ controller.name
  unfolding validate_controller
  validate_controller-name conf controller r e = ground arith

  -- An audit that ends without an error has one result for each controller that is not exempted by its
  -- annotation, in their order, and none for the others; where exemptions are disallowed all have one.
  validate_controllers-names :
      (conf : Configuration) (controllers : List Controller) (out : List ControllerResult)
      → validate_controllers built_in sort check_pod check_container conf controllers ≡ some out
      → result_names out ≡ audited conf controllers
  unfolding validate_controllers
  validate_controllers-names conf [] out e = ap result_names (sym (some-injective e))
  validate_controllers-names conf (controller ∷ controllers) out e =
      let rest = validate_controllers built_in sort check_pod check_container conf controllers in
      elim (Bool-cases (
        not conf.disallow_exemptions
        && annotated controller.annotations exemption_annotation_key)) [
          | inl exempt ↦ rw exempt (
              validate_controllers-names conf controllers out
                (rw (exempt, validate_controllers) at e))
          | inr kept ↦
              let e1 = rw (kept, validate_controllers) at e in
              elim (Option-cases
                (validate_controller built_in sort check_pod check_container conf controller)) [
                  | inl failed ↦ absurd (ground arith)
                  | inr (r, valid) ↦ elim (Option-cases rest) [
                    | inl failed ↦ absurd (ground arith)
                    | inr (others, ok) ↦
                        let name = validate_controller-name conf controller r valid in
                        let ih = validate_controllers-names conf controllers others ok in
                        ground (arith, name, ih)
                  ]
                ]
        ]
