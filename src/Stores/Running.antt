-- ===== src/Stores/Running.antt =====
-- The order in which translateScenarioTests of ui-v2/src/modules/utils/scenario-translator.ts runs the
-- tests of a scenario, and the order that deriveOrder of
-- ui-v2/src/modules/workflow/stores/scenario.store.sync.ts gives them.
use mathlib.Core.Path.{subst}
use tokyo_tester.Base.{
  ◌≡◌, refl, sym, ap, ◌∙◌, Bool, Bool-cases, inl, inr, true, false, not, none, List, [], ◌∷◌, ◌++◌,
  filter, all, All, All-append, ◌⊎◌, arith,
}
use tokyo_tester.Names.{Text}
use tokyo_tester.Graph.Texts.{text_eq, text_eq_iff, has}
use tokyo_tester.Scenario.{
  ScenarioTestDefinition, Scenario, ids, ordered_ids, find_test, keep_found, found_tests,
  ordered_tests, translate_scenario_tests,
}
use tokyo_tester.Scenario.Order.{ids-append, AreChained, translate_scenario_tests-AreChained}
use tokyo_tester.Stores.Scenarios.{derive_order}

-- The test that is found has the id that was looked for.
ids-keep_found :
    (i : Text) (ts rest : List ScenarioTestDefinition)
    → has i (ids ts) ≡ true
    → ids (keep_found (find_test i ts) rest) ≡ i ∷ ids rest
unfolding has find_test
ids-keep_found i [] rest h = cc
ids-keep_found i (t ∷ ts) rest h = elim (Bool-cases (text_eq t.id i)) [
  | inl same ↦ rw same (ap (λ j. j ∷ ids rest) ((text_eq_iff t.id i).0 same))
  | inr other ↦ rw other (ids-keep_found i ts rest (ground arith))
]

all-filter : (p : Text → Bool) (is : List Text) → all p (filter p is) ≡ true
all-filter p [] = refl
all-filter p (i ∷ is) = ground (arith, all-filter p is)

ids-found_tests :
    (ts : List ScenarioTestDefinition) (is : List Text)
    → all (λ i. has i (ids ts)) is ≡ true
    → ids (found_tests is ts) ≡ is
unfolding found_tests
ids-found_tests ts [] h = refl
ids-found_tests ts (i ∷ is) h =
    ids-keep_found i ts (found_tests is ts) (ground arith)
    ∙ ap (λ l. i ∷ l) (ids-found_tests ts is (ground arith))

ids-filter :
    (p : Text → Bool) (ts : List ScenarioTestDefinition)
    → ids (filter (λ t. p t.id) ts) ≡ filter p (ids ts)
ids-filter p [] = refl
ids-filter p (t ∷ ts) = elim (Bool-cases (p t.id)) [
  | inl yes_p ↦ rw yes_p (ap (λ l. t.id ∷ l) (ids-filter p ts))
  | inr no_p ↦ rw no_p (ids-filter p ts)
]

ids-ordered_tests :
    (scenario : Scenario)
    → ids (ordered_tests scenario) ≡ derive_order scenario.tests scenario.test_order
unfolding ordered_tests ordered_ids derive_order
ids-ordered_tests scenario =
    let ts = scenario.tests in
    let order = filter (λ i. has i (ids ts)) scenario.test_order in
    ids-append (found_tests order ts) (filter (λ t. not (has t.id order)) ts)
    ∙ ap (λ l. l ++ ids (filter (λ t. not (has t.id order)) ts))
        (ids-found_tests ts order (all-filter (λ i. has i (ids ts)) scenario.test_order))
    ∙ ap (λ l. order ++ l) (ids-filter (λ i. not (has i order)) ts)

-- The test is one of these.
abbrev pub IsTestOf : List ScenarioTestDefinition → ScenarioTestDefinition → Type 0
IsTestOf [] t = ⊥
IsTestOf (u ∷ us) t = (u ≡ t) ⊎ IsTestOf us t

IsTestOf-keep_found :
    (us : List ScenarioTestDefinition) (i : Text) (ts rest : List ScenarioTestDefinition)
    → ((t : ScenarioTestDefinition) → IsTestOf ts t → IsTestOf us t)
    → All (IsTestOf us) rest
    → All (IsTestOf us) (keep_found (find_test i ts) rest)
unfolding find_test
IsTestOf-keep_found us i [] rest f h = h
IsTestOf-keep_found us i (t ∷ ts) rest f h = elim (Bool-cases (text_eq t.id i)) [
  | inl same ↦ rw same (f t (inl refl), h)
  | inr other ↦ rw other (IsTestOf-keep_found us i ts rest (λ u m. f u (inr m)) h)
]

IsTestOf-found_tests :
    (ts : List ScenarioTestDefinition) (is : List Text) → All (IsTestOf ts) (found_tests is ts)
unfolding found_tests
IsTestOf-found_tests ts [] = tt
IsTestOf-found_tests ts (i ∷ is) =
    IsTestOf-keep_found ts i ts (found_tests is ts) (λ t m. m) (IsTestOf-found_tests ts is)

IsTestOf-filter :
    (us : List ScenarioTestDefinition) (p : ScenarioTestDefinition → Bool)
    (ts : List ScenarioTestDefinition)
    → ((t : ScenarioTestDefinition) → IsTestOf ts t → IsTestOf us t)
    → All (IsTestOf us) (filter p ts)
IsTestOf-filter us p [] f = tt
IsTestOf-filter us p (t ∷ ts) f = elim (Bool-cases (p t)) [
  | inl kept ↦
      subst (All (IsTestOf us)) (sym (kept_head kept))
        (f t (inl refl), IsTestOf-filter us p ts (λ u m. f u (inr m)))
  | inr dropped ↦
      subst (All (IsTestOf us)) (sym (dropped_head dropped))
        (IsTestOf-filter us p ts (λ u m. f u (inr m)))
]
  where
    kept_head : p t ≡ true → filter p (t ∷ ts) ≡ t ∷ filter p ts
    kept_head e = ground arith

    dropped_head : p t ≡ false → filter p (t ∷ ts) ≡ filter p ts
    dropped_head e = ground arith

IsTestOf-ordered_tests :
    (scenario : Scenario) → All (IsTestOf scenario.tests) (ordered_tests scenario)
unfolding ordered_tests ordered_ids
IsTestOf-ordered_tests scenario =
    let ts = scenario.tests in
    let order = filter (λ i. has i (ids ts)) scenario.test_order in
    All-append (IsTestOf ts) (found_tests order ts) (filter (λ t. not (has t.id order)) ts)
      (IsTestOf-found_tests ts order) (IsTestOf-filter ts (λ t. not (has t.id order)) ts (λ t m. m))

-- The tests are run in the order that the editor derives: first the ids of the test order that are tests
-- of the scenario, each as often as it stands there, then the tests that it leaves out. For each place of
-- this run there is one configuration, with the name, the type and the retry policy of the test there, which is a test of the
-- scenario with this id;
-- it depends on what the test names, on the test right before it, and on nothing else.
pub translate_scenario_tests-derive_order :
    (scenario : Scenario)
    → (ts : List ScenarioTestDefinition) × ((ids ts
          ≡ derive_order scenario.tests scenario.test_order)
        × (All (IsTestOf scenario.tests) ts
            × AreChained none ts (translate_scenario_tests scenario)))
translate_scenario_tests-derive_order scenario = (
  ordered_tests scenario,
  (
    ids-ordered_tests scenario,
    (IsTestOf-ordered_tests scenario, translate_scenario_tests-AreChained scenario),
  ),
)
