-- ===== src/Scenario/Validation.antt =====
-- `validateScenario` of scenario-translator.ts against a description of the scenarios that are valid.
use tokyo_tester.Base.{
  ◌≡◌, refl, Bool, true, not, ◌&&◌, List, [], ◌∷◌, ◌++◌, all, arith, length, ◌==◌,
}
use tokyo_tester.Names.{Text}
use tokyo_tester.Graph.Texts.{text_eq_iff, has}
use tokyo_tester.Graph.Sets.{distinct, all_in}
use tokyo_tester.Scenario.{
  ScenarioTestDefinition, Scenario, TranslationError, is_blank, ids, duplicates, unknown_services,
  missing_tests, test_errors, all_test_errors, general_errors, is_nil, validate_scenario,
}

-- A test has a name and a target, all its targets are services, and all tests that it names exist.
abbrev pub is_sound_test : List Text → List Text → ScenarioTestDefinition → Bool
is_sound_test names known t =
    not (is_blank t.name)
    && (not (length t.target_services == 0)
        && (all_in names t.target_services && all_in known t.depends_on_test_ids))

abbrev pub is_sound : List Text → Scenario → Bool
is_sound names scenario =
    not (is_blank scenario.name)
    && (not (length scenario.tests == 0)
        && (distinct (ids scenario.tests)
            && all (λ t. is_sound_test names (ids scenario.tests) t) scenario.tests))

is_nil-append : (xs ys : List TranslationError) → is_nil (xs ++ ys) ≡ (is_nil xs && is_nil ys)
is_nil-append [] ys = refl
is_nil-append (x ∷ xs) ys = refl

all-has_cons :
    (t : Text) (seen is : List Text)
    → all (λ i. not (has i (t ∷ seen))) is ≡ (not (has t is) && all (λ i. not (has i seen)) is)
unfolding has
all-has_cons t seen [] = refl
all-has_cons t seen (i ∷ is) =
    ground (arith, text_eq_iff t i, text_eq_iff i t, all-has_cons t seen is)

is_nil-duplicates :
    (seen : List Text) (ts : List ScenarioTestDefinition)
    → is_nil (duplicates seen ts) ≡ (all (λ i. not (has i seen)) (ids ts) && distinct (ids ts))
unfolding duplicates
is_nil-duplicates seen [] = refl
is_nil-duplicates seen (t ∷ ts) =
    ground (arith, is_nil-duplicates (t.id ∷ seen) ts, all-has_cons t.id seen (ids ts))

all-unseen : (is : List Text) → all (λ i. not (has i [])) is ≡ true
unfolding has
all-unseen [] = refl
all-unseen (i ∷ is) = all-unseen is

is_nil-unknown_services :
    (names : List Text) (x : Text) (ss : List Text)
    → is_nil (unknown_services names x ss) ≡ all_in names ss
unfolding unknown_services
is_nil-unknown_services names x [] = refl
is_nil-unknown_services names x (s ∷ ss) = ground (arith, is_nil-unknown_services names x ss)

is_nil-missing_tests :
    (known : List Text) (x : Text) (ds : List Text)
    → is_nil (missing_tests known x ds) ≡ all_in known ds
unfolding missing_tests
is_nil-missing_tests known x [] = refl
is_nil-missing_tests known x (d ∷ ds) = ground (arith, is_nil-missing_tests known x ds)

is_nil-test_errors :
    (names known : List Text) (t : ScenarioTestDefinition)
    → is_nil (test_errors names known t) ≡ is_sound_test names known t
unfolding test_errors
is_nil-test_errors names known t =
    let services = is_nil-unknown_services names t.name t.target_services in
    let tests = is_nil-missing_tests known t.name t.depends_on_test_ids in
    let both =
      is_nil-append (unknown_services names t.name t.target_services)
        (missing_tests known t.name t.depends_on_test_ids) in
    ground (arith, services, tests, both)

is_nil-all_test_errors :
    (names known : List Text) (ts : List ScenarioTestDefinition)
    → is_nil (all_test_errors names known ts) ≡ all (λ t. is_sound_test names known t) ts
unfolding all_test_errors
is_nil-all_test_errors names known [] = refl
is_nil-all_test_errors names known (t ∷ ts) = ground (
  arith,
  is_nil-append (test_errors names known t) (all_test_errors names known ts),
  is_nil-test_errors names known t,
  is_nil-all_test_errors names known ts,
)

is_nil-general_errors :
    (scenario : Scenario)
    → is_nil (general_errors scenario)
      ≡ (not (is_blank scenario.name) && not (length scenario.tests == 0))
unfolding general_errors
is_nil-general_errors scenario = ground arith

-- A scenario is valid exactly where it has a name and a test, no two tests have one id, and each test
-- has a name and a target, targets only services of the graph and depends only on tests of the
-- scenario.
pub validate_scenario-is_sound :
    (names : List Text) (scenario : Scenario)
    → (validate_scenario names scenario).valid ≡ is_sound names scenario
unfolding validate_scenario
validate_scenario-is_sound names scenario =
    let known = ids scenario.tests in
    let general = is_nil-general_errors scenario in
    let doubled = is_nil-duplicates [] scenario.tests in
    let unseen = all-unseen known in
    let each = is_nil-all_test_errors names known scenario.tests in
    let outer =
      is_nil-append (general_errors scenario)
        (duplicates [] scenario.tests ++ all_test_errors names known scenario.tests) in
    let inner =
      is_nil-append (duplicates [] scenario.tests) (all_test_errors names known scenario.tests) in
    ground (arith, general, doubled, unseen, each, outer, inner)
