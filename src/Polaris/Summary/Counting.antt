-- ===== src/Polaris/Summary/Counting.antt =====
-- What the summaries of an audit count.
use choerodon_cluster_agent.Base.{
  ℕ, zero, suc, ◌+◌, ◌%◌, ◌<◌, ◌≡◌, refl, ◌∙◌, not, ◌&&◌, List, [], ◌∷◌, ◌++◌, arith, ◌==◌, nat_eq,
  list_eq, if◌then◌else◌, length, contains, Bool-cases, inl, inr,
}
use choerodon_cluster_agent.Base.Dict.{
  lookup, insert, keys, values, NodupKeys, lookup-insert, contains-keys,
}
use choerodon_cluster_agent.Base.Text.{Text}
use choerodon_cluster_agent.Polaris.Config.{severity_warning}
use choerodon_cluster_agent.Polaris.Audit.{ResultMessage, ResultSet}
use choerodon_cluster_agent.Polaris.Summary.{
  uint_size, CountSummary, zero_counts, add_summary, add_result, add_results, get_summary,
  ByCategory, counts_of, add_categories, add_by_category, count_categories, get_summary_by_category,
  get_successes, get_warnings,
}

-- The failures that are no warnings.
abbrev pub other_failures : List ResultMessage → ℕ
other_failures [] = 0
other_failures (r ∷ rs) =
    let rest = other_failures rs in
    if not r.success && not (r.severity == severity_warning) then suc rest else rest

small-mod : (n : ℕ) → n < uint_size → n % uint_size ≡ n
small-mod n h = omega arith

add_results-counts :
    (cs : CountSummary) (rs : List ResultMessage)
    → cs.successes + cs.warnings + cs.errors + length rs < uint_size
    → add_results cs rs ≡ record {
      successes = cs.successes + length (get_successes rs);
      warnings = cs.warnings + length (get_warnings rs);
      errors = cs.errors + other_failures rs;
    }
unfolding add_results add_result get_successes get_warnings
add_results-counts cs [] h = ground arith
add_results-counts cs (r ∷ rs) h = elim (Bool-cases r.success) [
  | inl good ↦
      let e = small-mod (cs.successes + 1) (omega arith) in
      ground
        (arith, e, add_results-counts (record cs { successes = cs.successes + 1 }) rs (omega arith))
  | inr bad ↦ elim (Bool-cases (r.severity == severity_warning)) [
    | inl warns ↦
        let e = small-mod (cs.warnings + 1) (omega arith) in
        ground
          (arith, e, add_results-counts (record cs { warnings = cs.warnings + 1 }) rs (omega arith))
    | inr fails ↦
        let e = small-mod (cs.errors + 1) (omega arith) in
        ground
          (arith, e, add_results-counts (record cs { errors = cs.errors + 1 }) rs (omega arith))
  ]
]

counted :
    (rs : List ResultMessage)
    → length (get_successes rs) + length (get_warnings rs) + other_failures rs ≡ length rs
unfolding get_successes get_warnings
counted [] = omega arith
counted (r ∷ rs) = ground (arith, counted rs)

-- The summary of a result set that fits into the counters counts its successes, its warnings and its
-- other failures, and each result once.
pub get_summary-counts :
    (rs : ResultSet)
    → length (values rs) < uint_size
    → ((get_summary rs).successes ≡ length (get_successes (values rs)))
      × ((get_summary rs).warnings ≡ length (get_warnings (values rs)))
      × ((get_summary rs).successes + (get_summary rs).warnings + (get_summary rs).errors
          ≡ length (values rs))
unfolding get_summary
get_summary-counts rs h =
    let e = add_results-counts zero_counts (values rs) (omega arith) in
    let c = counted (values rs) in rw e (omega arith, omega arith, omega (arith, c))

counts_of-insert :
    (cat k : Text) (cs : CountSummary) (csc : ByCategory)
    → counts_of cat (insert k cs csc) ≡ (if cat == k then cs else counts_of cat csc)
unfolding counts_of
counts_of-insert cat k cs csc = ground (arith, lookup-insert cat k cs csc)

-- The results of a category.
abbrev pub in_category : Text → List ResultMessage → List ResultMessage
in_category cat [] = []
in_category cat (r ∷ rs) =
    let rest = in_category cat rs in if cat == r.category then r ∷ rest else rest

count_categories-counts :
    (cat : Text) (csc : ByCategory) (rs : List ResultMessage)
    → counts_of cat (count_categories csc rs) ≡ add_results (counts_of cat csc) (in_category cat rs)
unfolding count_categories add_results
count_categories-counts cat csc [] = refl
count_categories-counts cat csc (r ∷ rs) =
    let step = insert r.category (add_result (counts_of r.category csc) r) csc in
    let ih = count_categories-counts cat step rs in
    let here = counts_of-insert cat r.category (add_result (counts_of r.category csc) r) csc in
    elim (Bool-cases (cat == r.category)) [
      | inl same ↦ let e : cat ≡ r.category = ground arith in ground (arith, ih, here, e)
      | inr other ↦ ih ∙ rw (here, other) refl
    ]

-- The summary by category has for each category the summary of the results of that category, and
-- nothing for a category without results.
get_summary_by_category-counts :
    (cat : Text) (rs : ResultSet)
    → counts_of cat (get_summary_by_category rs)
      ≡ add_results zero_counts (in_category cat (values rs))
unfolding get_summary_by_category counts_of lookup
get_summary_by_category-counts cat rs = count_categories-counts cat [] (values rs)

-- Counts added a number of times.
abbrev pub add_times : ℕ → CountSummary → CountSummary → CountSummary
add_times zero cs other = cs
add_times (suc n) cs other = add_times n (add_summary cs other) other

count : Text → List Text → ℕ
count cat [] = 0
count cat (c ∷ cats) = let rest = count cat cats in if cat == c then suc rest else rest

add_categories-counts :
    (cat : Text) (cats : List Text) (other csc : ByCategory)
    → counts_of cat (add_categories cats other csc)
      ≡ add_times (count cat cats) (counts_of cat csc) (counts_of cat other)
unfolding add_categories count
add_categories-counts cat [] other csc = refl
add_categories-counts cat (c ∷ cats) other csc =
    let more = add_summary (counts_of c csc) (counts_of c other) in
    let ih = add_categories-counts cat cats other (insert c more csc) in
    let here = counts_of-insert cat c more csc in
    elim (Bool-cases (cat == c)) [
      | inl same ↦ let e : cat ≡ c = ground arith in ground (arith, ih, here, e)
      | inr differs ↦ ih ∙ rw (here, differs) refl
    ]

count-append : (cat : Text) (a b : List Text) → count cat (a ++ b) ≡ count cat a + count cat b
unfolding count
count-append cat [] b = omega arith
count-append cat (c ∷ a) b = ground (arith, count-append cat a b)

count-keys :
    (cat : Text) (d : ByCategory)
    → NodupKeys d
    → count cat (keys d) ≡ (if contains (keys d) cat then 1 else 0)
unfolding count
count-keys cat [] u = refl
count-keys cat ((k, cs) ∷ d) (fresh, u) = ground (arith, count-keys cat d u, contains-keys cat d)

-- Adding the summaries of one map to another adds the counts of a category once if one of the maps has
-- the category, and twice if both have it.
add_by_category-counts :
    (cat : Text) (csc other : ByCategory)
    → NodupKeys csc
    → NodupKeys other
    → counts_of cat (add_by_category csc other)
      ≡ add_times
          ((if contains (keys csc) cat then 1 else 0)
            + (if contains (keys other) cat then 1 else 0))
          (counts_of cat csc)
          (counts_of cat other)
unfolding add_by_category
add_by_category-counts cat csc other u v =
    add_categories-counts cat (keys csc ++ keys other) other csc
    ∙ rw (count-append cat (keys csc) (keys other), count-keys cat csc u, count-keys cat other v)
        refl
