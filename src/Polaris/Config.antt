-- ===== src/Polaris/Config.antt =====
-- pkg/polaris/config: the configuration of an audit, and which checks it makes actionable.
use choerodon_cluster_agent.Base.{
  ℕ, Bool, true, false, not, ◌&&◌, ◌||◌, none, some, List, [], ◌∷◌, ◌==◌, nat_eq, list_eq,
}
use choerodon_cluster_agent.Base.Dict.{Dict, lookup}
use choerodon_cluster_agent.Base.Text.{Text, codes, has_prefix, to_lower}

-- `Severity`: a string, of which three values have a meaning.
abbrev pub Severity : Type 0
Severity = Text

abbrev pub severity_warning : Severity
severity_warning = codes "warning"

abbrev pub severity_error : Severity
severity_error = codes "error"

-- `Severity.IsActionable`
abbrev pub severity_is_actionable : Severity → Bool
severity_is_actionable s = s == severity_warning || s == severity_error

-- `SupportedController`, an integer, by its constants.
pub data SupportedController : Type 0 where
  unsupported deployments stateful_sets daemon_sets jobs cron_jobs : SupportedController
  replication_controllers naked_pods : SupportedController

abbrev pub controller_number : SupportedController → ℕ
controller_number unsupported = 0
controller_number deployments = 1
controller_number stateful_sets = 2
controller_number daemon_sets = 3
controller_number jobs = 4
controller_number cron_jobs = 5
controller_number replication_controllers = 6
controller_number naked_pods = 7

-- `ControllerStrings`, by `String`.
abbrev pub controller_string : SupportedController → Text
controller_string unsupported = codes "Unsupported"
controller_string deployments = codes "Deployment"
controller_string stateful_sets = codes "StatefulSet"
controller_string daemon_sets = codes "DaemonSet"
controller_string jobs = codes "Job"
controller_string cron_jobs = codes "CronJob"
controller_string replication_controllers = codes "ReplicationController"
controller_string naked_pods = codes "NakedPod"

-- `stringLookupForSupportedControllers`
abbrev pub controller_names : Dict Text SupportedController
controller_names =
    (codes "deployment", deployments)
    ∷ (codes "deployments", deployments)
    ∷ (codes "statefulset", stateful_sets)
    ∷ (codes "statefulsets", stateful_sets)
    ∷ (codes "daemonset", daemon_sets)
    ∷ (codes "daemonsets", daemon_sets)
    ∷ (codes "job", jobs)
    ∷ (codes "jobs", jobs)
    ∷ (codes "cronjob", cron_jobs)
    ∷ (codes "cronjobs", cron_jobs)
    ∷ (codes "replicationcontroller", replication_controllers)
    ∷ (codes "replicationcontrollers", replication_controllers)
    ∷ (codes "nakedpod", naked_pods)
    ∷ (codes "nakedpods", naked_pods)
    ∷ []

-- `GetSupportedControllerFromString`
unfoldable pub controller_from_string : Text → SupportedController
controller_from_string s = elim (lookup (to_lower s) controller_names) [
  | some c ↦ c
  | none ↦ unsupported
]

pub record IncludeExcludeList : Type 0 where
  pub include : List Text
  pub exclude : List Text

-- `SchemaCheck`, but for its schema.
pub record SchemaCheck : Type 0 where
  pub id : Text
  pub category : Text
  pub success_message : Text
  pub failure_message : Text
  pub controllers : IncludeExcludeList
  pub containers : IncludeExcludeList
  pub target : Text
  pub schema_target : Text

pub record Exemption : Type 0 where
  pub rules : List Text
  pub controller_names : List Text

pub record Configuration : Type 0 where
  pub checks : Dict Text Severity
  pub custom_checks : Dict Text SchemaCheck
  pub exemptions : List Exemption
  pub disallow_exemptions : Bool

-- The innermost loop of `Configuration.IsActionable`.
abbrev pub names_controller : Text → List Text → Bool
names_controller name [] = false
names_controller name (controller ∷ names) =
    has_prefix name controller || names_controller name names

abbrev pub names_rule : Text → Text → List Text → List Text → Bool
names_rule rule name [] names = false
names_rule rule name (r ∷ rules) names =
    r == rule && names_controller name names || names_rule rule name rules names

-- The loop over the exemptions.
unfoldable pub is_exempt : Text → Text → List Exemption → Bool
is_exempt rule name [] = false
is_exempt rule name (e ∷ exemptions) =
    names_rule rule name e.rules e.controller_names || is_exempt rule name exemptions

-- `Configuration.IsActionable`
unfoldable pub conf_is_actionable : Configuration → Text → Text → Bool
conf_is_actionable conf rule name = elim (lookup rule conf.checks) [
  | none ↦ false
  | some severity ↦
      severity_is_actionable severity
      && (conf.disallow_exemptions || not (is_exempt rule name conf.exemptions))
]

abbrev pub lists_controller : SupportedController → List Text → Bool
lists_controller kind [] = false
lists_controller kind (s ∷ list) =
    controller_number (controller_from_string s) == controller_number kind
    || lists_controller kind list

abbrev pub lists_container : Bool → List Text → Bool
lists_container is_init [] = false
lists_container is_init (s ∷ list) =
    s == codes "initContainer" && is_init
    || s == codes "container" && not is_init
    || lists_container is_init list

abbrev is_empty : List Text → Bool
is_empty [] = true
is_empty (s ∷ list) = false

-- `SchemaCheck.IsActionable`
unfoldable pub check_is_actionable : SchemaCheck → Text → SupportedController → Bool → Bool
check_is_actionable check target kind is_init =
    check.target == target
    && (is_empty check.controllers.include || lists_controller kind check.controllers.include)
    && not (lists_controller kind check.controllers.exclude)
    && (not (check.target == codes "Container")
        || (is_empty check.containers.include || lists_container is_init check.containers.include)
          && not (lists_container is_init check.containers.exclude))
