-- ===== src/Scenario/Order.antt =====
-- `translateScenarioTests` of scenario-translator.ts: which tests are run, one after the other.
use tokyo_tester.Base.{
  ◌≡◌, refl, ap, ◌∙◌, Bool, false, not, ◌&&◌, ◌||◌, Option, none, some, List, [], ◌∷◌, ◌++◌, filter,
  arith,
}
use tokyo_tester.Names.{Text}
use tokyo_tester.Graph.Texts.{text_eq, text_eq_iff, has}
use tokyo_tester.Scenario.{
  ScenarioTestDefinition, Scenario, TestConfig, ids, ordered_ids, find_test, keep_found,
  found_tests, ordered_tests, add_to, set_of, depends_on, configs, translate_scenario_tests,
}

pub has-append : (b : Text) (us vs : List Text) → has b (us ++ vs) ≡ (has b us || has b vs)
unfolding has
has-append b [] vs = refl
has-append b (u ∷ us) vs = ground (arith, has-append b us vs)

pub ids-append : (ts us : List ScenarioTestDefinition) → ids (ts ++ us) ≡ ids ts ++ ids us
ids-append [] us = refl
ids-append (t ∷ ts) us = ap (λ l. t.id ∷ l) (ids-append ts us)

-- A test that is found has the id that was looked for.
has-keep_found :
    (i j : Text) (rest ts : List ScenarioTestDefinition)
    → has j (ids (keep_found (find_test i ts) rest))
      ≡ ((text_eq i j && has i (ids ts)) || has j (ids rest))
unfolding find_test has
has-keep_found i j rest [] = ground arith
has-keep_found i j rest (t ∷ ts) =
    ground
      (arith, text_eq_iff t.id i, text_eq_iff t.id j, text_eq_iff i j, has-keep_found i j rest ts)

has-found_tests :
    (j : Text) (is : List Text) (ts : List ScenarioTestDefinition)
    → has j (ids (found_tests (filter (λ i. has i (ids ts)) is) ts)) ≡ (has j is && has j (ids ts))
unfolding found_tests has
has-found_tests j [] ts = refl
has-found_tests j (i ∷ is) ts =
    let rest = found_tests (filter (λ k. has k (ids ts)) is) ts in
    ground (arith, has-found_tests j is ts, has-keep_found i j rest ts, text_eq_iff i j)

has-filter :
    (j : Text) (order : List Text) (ts : List ScenarioTestDefinition)
    → has j (ids (filter (λ t. not (has t.id order)) ts)) ≡ (has j (ids ts) && not (has j order))
unfolding has
has-filter j order [] = refl
has-filter j order (t ∷ ts) = ground (arith, has-filter j order ts, text_eq_iff t.id j)

has-ordered_ids :
    (j : Text) (ts : List ScenarioTestDefinition) (order : List Text)
    → has j (ordered_ids ts order) ≡ (has j order && has j (ids ts))
unfolding ordered_ids has
has-ordered_ids j ts [] = refl
has-ordered_ids j ts (i ∷ is) = ground (arith, has-ordered_ids j ts is, text_eq_iff i j)

has-found_tests_ordered :
    (j : Text) (ts : List ScenarioTestDefinition) (order : List Text)
    → has j (ids (found_tests (ordered_ids ts order) ts)) ≡ (has j order && has j (ids ts))
unfolding ordered_ids
has-found_tests_ordered j ts order = has-found_tests j order ts

-- The tests that are run have the ids of the scenario's tests, whatever its test order names or
-- leaves out: no test is forgotten and none is made up.
pub has-ordered_tests :
    (scenario : Scenario) (i : Text)
    → has i (ids (ordered_tests scenario)) ≡ has i (ids scenario.tests)
unfolding ordered_tests
has-ordered_tests scenario i =
    let ts = scenario.tests in
    let order = ordered_ids ts scenario.test_order in
    let late = filter (λ t. not (has t.id order)) ts in
    let joined =
      ap (has i) (ids-append (found_tests order ts) late)
      ∙ has-append i (ids (found_tests order ts)) (ids late) in
    let first = has-found_tests_ordered i ts scenario.test_order in
    ground (arith, joined, first, has-filter i order ts, has-ordered_ids i ts scenario.test_order)

has-add_to : (j x : Text) (s : List Text) → has j (add_to s x) ≡ (text_eq x j || has j s)
unfolding add_to has
has-add_to j x s = ground (arith, has-append j s (x ∷ []), text_eq_iff x j)

has-set_of : (j : Text) (s xs : List Text) → has j (set_of s xs) ≡ (has j xs || has j s)
unfolding set_of has
has-set_of j s [] = refl
has-set_of j s (x ∷ xs) = ground (arith, has-set_of j (add_to s x) xs, has-add_to j x s)

-- The test before, if there is one, is among these.
abbrev pub is_before : Option Text → Text → Bool
is_before none j = false
is_before (some before) j = text_eq before j

has-depends_on :
    (o : Option Text) (t : ScenarioTestDefinition) (j : Text)
    → has j (depends_on o t) ≡ (is_before o j || has j t.depends_on_test_ids)
unfolding depends_on has
has-depends_on none t j = ground (arith, has-set_of j [] t.depends_on_test_ids)
has-depends_on (some before) t j = ground (
  arith,
  has-set_of j [] t.depends_on_test_ids,
  has-add_to j before (set_of [] t.depends_on_test_ids),
)

-- The configurations of these tests, each with what its test names and the test before it.
abbrev pub AreChained : Option Text → List ScenarioTestDefinition → List TestConfig → Type 0
AreChained o [] [] = Unit
AreChained o [] (c ∷ cs) = ⊥
AreChained o (t ∷ ts) [] = ⊥
AreChained o (t ∷ ts) (c ∷ cs) =
    (c.name ≡ t.name)
    × (c.test_type ≡ t.test_type)
    × (c.retry_policy ≡ t.retry_policy)
    × ((j : Text) → has j c.depends_on ≡ (is_before o j || has j t.depends_on_test_ids))
    × AreChained (some t.name) ts cs

AreChained-configs :
    (o : Option Text) (ts : List ScenarioTestDefinition) → AreChained o ts (configs o ts)
unfolding configs
AreChained-configs o [] = tt
AreChained-configs o (t ∷ ts) =
    (refl, refl, refl, λ j. has-depends_on o t j, AreChained-configs (some t.name) ts)

-- Each place of the run has one configuration, in the order of the run, with the name, the type and the
-- retry policy of the test there. It depends on what the test names, on the test right before it, and on
-- nothing else.
pub translate_scenario_tests-AreChained :
    (scenario : Scenario)
    → AreChained none (ordered_tests scenario) (translate_scenario_tests scenario)
unfolding translate_scenario_tests
translate_scenario_tests-AreChained scenario = AreChained-configs none (ordered_tests scenario)
