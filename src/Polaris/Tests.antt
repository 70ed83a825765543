-- ===== src/Polaris/Tests.antt =====
-- An audit at concrete inputs.
use choerodon_cluster_agent.Base.{
  ◌+◌, ◌≡◌, refl, Bool, true, false, Option, none, some, List, [], ◌∷◌, arith, All, length, nat_eq,
  list_eq, contains,
}
use choerodon_cluster_agent.Base.Dict.{Dict, lookup, insert, values}
use choerodon_cluster_agent.Base.Text.{Text, codes}
use choerodon_cluster_agent.Polaris.Config.{
  SchemaCheck, IncludeExcludeList, Configuration, deployments, is_exempt, conf_is_actionable,
  check_is_actionable,
}
use choerodon_cluster_agent.Polaris.Audit.{
  Container, PodSpec, Controller, ResultMessage, ResultSet, ControllerResult, annotated, exempt_key,
  resolved, resolve_check, make_result, apply_checks, apply_pod_schema_checks,
  apply_container_schema_checks, validate_containers, validate_all_containers, validate_controller,
  validate_controllers,
}
use choerodon_cluster_agent.Polaris.Checks.{
  Justified, container_schema, apply_container_schema_checks-Justified,
}
use choerodon_cluster_agent.Polaris.Summary.{
  CountSummary, ByCategory, get_summary, counts_of, add_by_category, add_categories, add_summary,
  get_successes, get_warnings,
}
use choerodon_cluster_agent.Polaris.Summary.Counting.{get_summary-counts}

abbrev everything : IncludeExcludeList
everything = record { include = []; exclude = [] }

abbrev tag_check : SchemaCheck
tag_check = record {
  id = codes "tag";
  category = codes "Images";
  success_message = codes "tagged";
  failure_message = codes "untagged";
  controllers = everything;
  containers = everything;
  target = codes "Container";
  schema_target = codes "Container";
}

abbrev conf : Configuration
conf = record {
  checks = (codes "tag", codes "warning") ∷ [];
  custom_checks = [];
  exemptions = [];
  disallow_exemptions = false;
}

abbrev built_in : Dict Text SchemaCheck
built_in = (codes "tag", tag_check) ∷ []

abbrev nginx : Container
nginx = record { name = codes "nginx"; body = codes "latest" }

abbrev web : Controller
web = record {
  name = codes "web";
  namespace = codes "prod";
  kind = deployments;
  annotations = [];
  pod_spec = record { init_containers = []; containers = nginx ∷ []; body = [] };
}

abbrev exempted : Controller
exempted = record web {
  name = codes "dns";
  annotations = (codes "polaris.fairwinds.com/exempt", codes "True") ∷ [];
}

abbrev as_given : List Text → List Text
as_given ids = ids

abbrev no_pods : SchemaCheck → PodSpec → Option Bool
no_pods check pod = none

abbrev untagged : SchemaCheck → Container → Option Bool
untagged check container = some false

abbrev warned : ResultMessage
warned = record {
  id = codes "tag";
  message = codes "untagged";
  success = false;
  severity = codes "warning";
  category = codes "Images";
}

nginx_results :
    apply_container_schema_checks built_in as_given no_pods untagged conf web nginx false
    ≡ some ((codes "tag", warned) ∷ [])
unfolding apply_container_schema_checks apply_checks annotated resolve_check conf_is_actionable
    is_exempt check_is_actionable make_result lookup insert nat_eq list_eq
nginx_results = refl

apply_container_schema_checks-Justified_example :
    All
      (Justified built_in conf web
        (codes "Container")
        false
        (container_schema no_pods untagged web nginx))
      ((codes "tag", warned) ∷ [])
apply_container_schema_checks-Justified_example =
    apply_container_schema_checks-Justified built_in as_given no_pods untagged conf web nginx false
      ((codes "tag", warned) ∷ []) nginx_results

tag_applies :
    apply_checks built_in conf web
      (codes "Container")
      false
      (container_schema no_pods untagged web nginx)
      (codes "tag" ∷ [])
      []
    ≡ some ((codes "tag", warned) ∷ [])
unfolding apply_checks annotated resolve_check conf_is_actionable is_exempt check_is_actionable
    make_result lookup insert nat_eq list_eq
tag_applies = refl

tag_listed : contains (codes "tag" ∷ []) (codes "tag") ≡ true
unfolding nat_eq list_eq
tag_listed = refl

tag_not_exempt : annotated web.annotations (exempt_key (codes "tag")) ≡ false
unfolding annotated lookup
tag_not_exempt = refl

tag_found :
    resolve_check built_in conf (codes "tag") web (codes "Container") false ≡ resolved tag_check
unfolding resolve_check conf_is_actionable is_exempt check_is_actionable lookup nat_eq list_eq
tag_found = refl

abbrev web_result : ControllerResult
web_result = record {
  name = codes "web";
  namespace = codes "prod";
  kind = codes "Deployment";
  results = [];
  pod_result = record {
    results = [];
    container_results = record { name = codes "nginx"; results = (codes "tag", warned) ∷ [] } ∷ [];
  };
}

audit_runs :
    validate_controllers built_in as_given no_pods untagged conf (exempted ∷ web ∷ [])
    ≡ some (web_result ∷ [])
unfolding validate_controllers validate_controller validate_all_containers validate_containers
    apply_pod_schema_checks apply_container_schema_checks apply_checks annotated resolve_check
    conf_is_actionable is_exempt check_is_actionable make_result lookup insert nat_eq list_eq
audit_runs = refl

abbrev results : ResultSet
results = (codes "tag", warned) ∷ (codes "root", record warned { success = true }) ∷ []

get_summary-counts_example :
    ((get_summary results).successes ≡ length (get_successes (values results)))
    × ((get_summary results).warnings ≡ length (get_warnings (values results)))
    × ((get_summary results).successes
          + (get_summary results).warnings
          + (get_summary results).errors
        ≡ length (values results))
get_summary-counts_example = get_summary-counts results (omega arith)

abbrev one_error : ByCategory
one_error = (codes "Images", record { successes = 0; warnings = 0; errors = 1 }) ∷ []

no_more : lookup {V = CountSummary} (codes "Images") [] ≡ none
unfolding lookup
no_more = refl

-- One error added to one error is counted as three.
three_errors :
    counts_of (codes "Images") (add_by_category one_error one_error)
    ≡ record { successes = 0; warnings = 0; errors = 3 }
unfolding counts_of add_by_category add_categories add_summary lookup insert nat_eq list_eq
three_errors = refl
