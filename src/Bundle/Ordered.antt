-- ===== src/Bundle/Ordered.antt =====
-- The order in which `translateScenarioTests` of scenario-translator.ts runs a scenario that
-- `validateBundleScenario` of workflow-bundle.ts lets through.
use tokyo_tester.Base.{
  ℕ, ◌≤◌, ◌≡◌, refl, ap, ◌∙◌, true, not, none, List, [], ◌∷◌, length, filter, arith, append-nil,
}
use tokyo_tester.Names.{Text}
use tokyo_tester.Graph.Texts.{text_eq_iff, has}
use tokyo_tester.Graph.Sets.{distinct, all_in, has-of_length}
use tokyo_tester.Scenario.{
  ScenarioTestDefinition, Scenario, ids, ordered_ids, find_test, keep_found, found_tests,
  ordered_tests,
}
use tokyo_tester.Bundle.{validate_bundle_scenario}
use tokyo_tester.Bundle.Accepted.{validate_bundle_scenario-is_bundled}

pub filter_all : (known is : List Text) → all_in known is ≡ true → filter (λ i. has i known) is ≡ is
filter_all known [] h = refl
filter_all known (i ∷ is) h = ground (arith, filter_all known is)

ids-keep_found :
    (i : Text) (ts rest : List ScenarioTestDefinition)
    → has i (ids ts) ≡ true
    → ids (keep_found (find_test i ts) rest) ≡ i ∷ ids rest
unfolding find_test has
ids-keep_found i [] rest h = cc
ids-keep_found i (t ∷ ts) rest h = ground (arith, text_eq_iff t.id i, ids-keep_found i ts rest)

ids-found_tests :
    (is : List Text) (ts : List ScenarioTestDefinition)
    → all_in (ids ts) is ≡ true
    → ids (found_tests is ts) ≡ is
unfolding found_tests
ids-found_tests [] ts h = refl
ids-found_tests (i ∷ is) ts h =
    let here : has i (ids ts) ≡ true = ground arith in
    let later : all_in (ids ts) is ≡ true = ground arith in
    ids-keep_found i ts (found_tests is ts) here ∙ ap (λ l. i ∷ l) (ids-found_tests is ts later)

-- Where every test stands in the order, none is left for the end.
filter_none :
    (order : List Text) (ts us : List ScenarioTestDefinition)
    → ((i : Text) → has i (ids ts) ≡ true → has i order ≡ true)
    → ((i : Text) → has i (ids us) ≡ true → has i (ids ts) ≡ true)
    → filter (λ t. not (has t.id order)) us ≡ []
unfolding has
filter_none order ts [] f g = refl
filter_none order ts (u ∷ us) f g = ground (
  arith,
  filter_none order ts us f (λ i h. g i (ground arith)),
  f u.id,
  g u.id,
  text_eq_iff u.id u.id,
)

-- The tests of a scenario that is let through are run in the order that it gives, each once.
pub ids-ordered_tests :
    (scenario : Scenario) (index : ℕ)
    → validate_bundle_scenario scenario index ≡ none
    → ids (ordered_tests scenario) ≡ scenario.test_order
unfolding ordered_tests ordered_ids
ids-ordered_tests scenario index e =
    let known = ids scenario.tests in
    let order = scenario.test_order in
    let ok = (validate_bundle_scenario-is_bundled scenario index).0 e in
    let d : distinct order ≡ true = ground arith in
    let inside : all_in known order ≡ true = ground arith in
    let long : length known ≤ length order = ground arith in
    let kept = filter_all known order inside in
    let late =
      filter_none order scenario.tests scenario.tests
        (λ i h. has-of_length order known i d inside long h) (λ i h. h) in
    rw (kept, late, append-nil (found_tests order scenario.tests))
      (ids-found_tests order scenario.tests inside)
