-- ===== src/Polaris/Summary.antt =====
-- pkg/polaris/validator/summary.go: the counts of an audit, over all and by category.
pub mod Counting
use choerodon_cluster_agent.Base.{
  ℕ, zero, suc, ◌+◌, ◌%◌, ◌≤◌, ◌<◌, ◌≡◌, refl, sym, ap, ◌∙◌, Bool, true, false, not, ◌&&◌, ◌||◌,
  Option, none, some, List, [], ◌∷◌, ◌++◌, arith, ◌==◌, nat_eq, list_eq, if◌then◌else◌, length,
  contains, Bool-cases, Option-cases, inl, inr, length-append,
}
use choerodon_cluster_agent.Base.Dict.{
  Dict, lookup, insert, keys, values, NodupKeys, lookup-insert, contains-keys,
}
use choerodon_cluster_agent.Base.Text.{Text, codes}
use choerodon_cluster_agent.Polaris.Config.{severity_warning, severity_error}
use choerodon_cluster_agent.Polaris.Audit.{
  ResultMessage, ResultSet, ContainerResult, PodResult, ControllerResult,
}

-- The values of `uint`, which has 64 bits.
abbrev pub uint_size : ℕ
uint_size = 18446744073709551616

-- `CountSummary`
pub record CountSummary : Type 0 where
  pub successes : ℕ
  pub warnings : ℕ
  pub errors : ℕ

abbrev pub zero_counts : CountSummary
zero_counts = record { successes = 0; warnings = 0; errors = 0 }

-- `CountSummary.AddSummary`
unfoldable pub add_summary : CountSummary → CountSummary → CountSummary
add_summary cs other = record {
  successes = (cs.successes + other.successes) % uint_size;
  warnings = (cs.warnings + other.warnings) % uint_size;
  errors = (cs.errors + other.errors) % uint_size;
}

-- `CountSummary.AddResult`
unfoldable pub add_result : CountSummary → ResultMessage → CountSummary
add_result cs r =
    if r.success
    then record cs { successes = (cs.successes + 1) % uint_size }
    else if r.severity == severity_warning
    then record cs { warnings = (cs.warnings + 1) % uint_size }
    else record cs { errors = (cs.errors + 1) % uint_size }

-- The loop of `ResultSet.GetSummary`.
unfoldable pub add_results : CountSummary → List ResultMessage → CountSummary
add_results cs [] = cs
add_results cs (r ∷ rs) = add_results (add_result cs r) rs

-- `ResultSet.GetSummary`
unfoldable pub get_summary : ResultSet → CountSummary
get_summary rs = add_results zero_counts (values rs)

abbrev pub ByCategory : Type 0
ByCategory = Dict Text CountSummary

-- `csc[cat]`, which is zero for a missing key.
unfoldable pub counts_of : Text → ByCategory → CountSummary
counts_of cat csc = elim (lookup cat csc) [ some cs ↦ cs | none ↦ zero_counts ]

-- The loop over `categories`.
unfoldable pub add_categories : List Text → ByCategory → ByCategory → ByCategory
add_categories [] other csc = csc
add_categories (cat ∷ cats) other csc =
    add_categories cats other
      (insert cat (add_summary (counts_of cat csc) (counts_of cat other)) csc)

-- `CountSummaryByCategory.AddSummary`
unfoldable pub add_by_category : ByCategory → ByCategory → ByCategory
add_by_category csc other = add_categories (keys csc ++ keys other) other csc

-- The loop of `ResultSet.GetSummaryByCategory`.
unfoldable pub count_categories : ByCategory → List ResultMessage → ByCategory
count_categories csc [] = csc
count_categories csc (r ∷ rs) =
    count_categories (insert r.category (add_result (counts_of r.category csc) r) csc) rs

unfoldable pub get_summary_by_category : ResultSet → ByCategory
get_summary_by_category rs = count_categories [] (values rs)

-- `PodResult.GetSummary` and `ControllerResult.GetSummary`
unfoldable pub add_containers : CountSummary → List ContainerResult → CountSummary
add_containers cs [] = cs
add_containers cs (c ∷ cts) = add_containers (add_summary cs (get_summary c.results)) cts

unfoldable pub pod_summary : PodResult → CountSummary
pod_summary p = add_containers (get_summary p.results) p.container_results

unfoldable pub controller_summary : ControllerResult → CountSummary
controller_summary c = add_summary (get_summary c.results) (pod_summary c.pod_result)

-- The same by category.
unfoldable pub add_containers_by_category : ByCategory → List ContainerResult → ByCategory
add_containers_by_category csc [] = csc
add_containers_by_category csc (c ∷ cts) =
    add_containers_by_category (add_by_category csc (get_summary_by_category c.results)) cts

unfoldable pub pod_summary_by_category : PodResult → ByCategory
pod_summary_by_category p =
    add_containers_by_category (get_summary_by_category p.results) p.container_results

-- `GetSuccesses`, `GetWarnings` and `GetErrors`
unfoldable pub get_successes : List ResultMessage → List ResultMessage
get_successes [] = []
get_successes (r ∷ rs) = let rest = get_successes rs in if r.success then r ∷ rest else rest

unfoldable pub get_warnings : List ResultMessage → List ResultMessage
get_warnings [] = []
get_warnings (r ∷ rs) =
    let rest = get_warnings rs in
    if not r.success && r.severity == severity_warning then r ∷ rest else rest

unfoldable pub get_errors : List ResultMessage → List ResultMessage
get_errors [] = []
get_errors (r ∷ rs) =
    let rest = get_errors rs in
    if not r.success && r.severity == severity_error then r ∷ rest else rest

-- `GetSortedResults`
unfoldable pub get_sorted_results : List ResultMessage → List ResultMessage
get_sorted_results rs = get_errors rs ++ get_warnings rs ++ get_successes rs
