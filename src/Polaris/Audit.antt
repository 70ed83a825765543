-- ===== src/Polaris/Audit.antt =====
-- pkg/polaris/validator: the results of an audit. The JSON schema of a check and the sort of the keys are
-- parameters.
use choerodon_cluster_agent.Base.{
  Bool, true, false, not, ◌&&◌, Option, none, some, List, [], ◌∷◌, ◌++◌, ◌==◌, nat_eq, list_eq,
  if◌then◌else◌,
}
use choerodon_cluster_agent.Base.Dict.{Dict, lookup, insert, keys}
use choerodon_cluster_agent.Base.Text.{Text, codes, to_lower}
use choerodon_cluster_agent.Polaris.Config.{
  Severity, SupportedController, controller_string, SchemaCheck, Configuration, conf_is_actionable,
  check_is_actionable,
}

pub record Container : Type 0 where
  pub name : Text
  pub body : Text

-- The pod spec, with its other fields as one text.
pub record PodSpec : Type 0 where
  pub init_containers : List Container
  pub containers : List Container
  pub body : Text

-- `controllers.Interface`, by what its methods answer.
pub record Controller : Type 0 where
  pub name : Text
  pub namespace : Text
  pub kind : SupportedController
  pub annotations : Dict Text Text
  pub pod_spec : PodSpec

pub record ResultMessage : Type 0 where
  pub id : Text
  pub message : Text
  pub success : Bool
  pub severity : Severity
  pub category : Text

abbrev pub ResultSet : Type 0
ResultSet = Dict Text ResultMessage

pub record ContainerResult : Type 0 where
  pub name : Text
  pub results : ResultSet

pub record PodResult : Type 0 where
  pub results : ResultSet
  pub container_results : List ContainerResult

pub record ControllerResult : Type 0 where
  pub name : Text
  pub namespace : Text
  pub kind : Text
  pub results : ResultSet
  pub pod_result : PodResult

-- `objectAnnotations[...]` with the test for "true".
unfoldable pub annotated : Dict Text Text → Text → Bool
annotated annotations key = elim (lookup key annotations) [
  | some value ↦ to_lower value == codes "true"
  | none ↦ false
]

-- `getExemptKey`
abbrev pub exempt_key : Text → Text
exempt_key id = codes "polaris.fairwinds.com/" ++ id ++ codes "-exempt"

abbrev pub exemption_annotation_key : Text
exemption_annotation_key = codes "polaris.fairwinds.com/exempt"

-- What `resolveCheck` answers: an error, nil or the check.
pub data Resolved : Type 0 where
  not_known not_actionable : Resolved
  resolved : SchemaCheck → Resolved

abbrev pub if_actionable : Configuration → Controller → Text → Bool → SchemaCheck → Resolved
if_actionable conf controller target is_init check =
    if conf_is_actionable conf check.id controller.name
    then (if check_is_actionable check target controller.kind is_init
        then resolved check
        else not_actionable)
    else not_actionable

-- `makeResult`
unfoldable pub make_result : Configuration → SchemaCheck → Bool → ResultMessage
make_result conf check passes = record {
  id = check.id;
  message = if passes then check.success_message else check.failure_message;
  success = passes;
  severity = elim (lookup check.id conf.checks) [ some severity ↦ severity | none ↦ [] ];
  category = check.category;
}

-- `built_in` is the map `builtInChecks`.
module _ (built_in : Dict Text SchemaCheck) where
  -- `resolveCheck`
  unfoldable pub resolve_check : Configuration → Text → Controller → Text → Bool → Resolved
  resolve_check conf id controller target is_init = elim (lookup id conf.custom_checks) [
    | some check ↦ if_actionable conf controller target is_init check
    | none ↦ elim (lookup id built_in) [
      | some check ↦ if_actionable conf controller target is_init check
      | none ↦ not_known
    ]
  ]

  -- The loop that `applyPodSchemaChecks` and `applyContainerSchemaChecks` share, with the call of the
  -- schema; `none` is an error.
  unfoldable pub apply_checks :
      Configuration
      → Controller
      → Text
      → Bool
      → (SchemaCheck → Option Bool)
      → List Text
      → ResultSet
      → Option ResultSet
  apply_checks conf controller target is_init passes [] results = some results
  apply_checks conf controller target is_init passes (id ∷ ids) results =
      elim (annotated controller.annotations (exempt_key id)) [
        | true ↦ apply_checks conf controller target is_init passes ids results
        | false ↦ elim (resolve_check conf id controller target is_init) [
          | not_known ↦ none
          | not_actionable ↦ apply_checks conf controller target is_init passes ids results
          | resolved check ↦ elim (passes check) [
            | none ↦ none
            | some p ↦
                apply_checks conf controller target is_init passes ids
                  (insert check.id (make_result conf check p) results)
          ]
        ]
      ]

  module _ (sort : List Text → List Text) (check_pod : SchemaCheck → PodSpec → Option Bool)
      (check_container : SchemaCheck → Container → Option Bool) where
    -- `applyPodSchemaChecks`
    unfoldable pub apply_pod_schema_checks : Configuration → Controller → Option ResultSet
    apply_pod_schema_checks conf controller =
        apply_checks conf controller (codes "Pod") false
          (λ check. check_pod check controller.pod_spec) (sort (keys conf.checks)) []

    -- `applyContainerSchemaChecks`: a check whose schema is for pods sees a pod with this container
    -- only.
    unfoldable pub apply_container_schema_checks :
        Configuration → Controller → Container → Bool → Option ResultSet
    apply_container_schema_checks conf controller container is_init =
        apply_checks conf controller (codes "Container") is_init
          (λ check.
            if check.schema_target == codes "Pod"
            then check_pod check
                (record (controller.pod_spec) { init_containers = []; containers = container ∷ [] })
            else check_container check container)
          (sort (keys conf.checks)) []

    -- `ValidateContainer`, in the loops of `ValidateAllContainers`.
    unfoldable pub validate_containers :
        Configuration → Controller → Bool → List Container → Option (List ContainerResult)
    validate_containers conf controller is_init [] = some []
    validate_containers conf controller is_init (container ∷ containers) =
        let rest = validate_containers conf controller is_init containers in
        elim (apply_container_schema_checks conf controller container is_init) [
          | none ↦ none
          | some results ↦ elim rest [
            | none ↦ none
            | some others ↦ some (record { name = container.name; results = results } ∷ others)
          ]
        ]

    -- `ValidateAllContainers`
    unfoldable pub validate_all_containers :
        Configuration → Controller → Option (List ContainerResult)
    validate_all_containers conf controller =
        elim (validate_containers conf controller true controller.pod_spec.init_containers) [
          | none ↦ none
          | some inits ↦
              elim (validate_containers conf controller false controller.pod_spec.containers) [
                | none ↦ none
                | some others ↦ some (inits ++ others)
              ]
        ]

    -- `ValidatePod` and `ValidateController`
    unfoldable pub validate_controller : Configuration → Controller → Option ControllerResult
    validate_controller conf controller = elim (apply_pod_schema_checks conf controller) [
      | none ↦ none
      | some results ↦ elim (validate_all_containers conf controller) [
        | none ↦ none
        | some containers ↦ some (record {
          name = controller.name;
          namespace = controller.namespace;
          kind = controller_string controller.kind;
          results = [];
          pod_result = record { results = results; container_results = containers };
        })
      ]
    ]

    -- The loop of `ValidateControllers`, over the controllers that were loaded.
    unfoldable pub validate_controllers :
        Configuration → List Controller → Option (List ControllerResult)
    validate_controllers conf [] = some []
    validate_controllers conf (controller ∷ controllers) =
        let rest = validate_controllers conf controllers in
        if not conf.disallow_exemptions && annotated controller.annotations exemption_annotation_key
        then rest
        else elim (validate_controller conf controller) [
          | none ↦ none
          | some result ↦ elim rest [ none ↦ none | some others ↦ some (result ∷ others) ]
        ]
