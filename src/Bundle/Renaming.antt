-- ===== src/Bundle/Renaming.antt =====
-- Scenarios whose tests have new ids, as `cloneScenarioForImport` of workflow-bundle.ts makes them.
use tokyo_tester.Base.{
  ◌≡◌, refl, ap, ◌∙◌, true, ◌&&◌, Option, none, some, List, [], ◌∷◌, length, map, all, filter,
  arith,
}
use tokyo_tester.Names.{Text}
use tokyo_tester.Graph.Texts.{has}
use tokyo_tester.Graph.Sets.{all_in, all_in-of, all_in-map, length-map, distinct-map, IsOneToOne}
use tokyo_tester.Scenario.{ScenarioTestDefinition, Scenario, TestRetryPolicy, ids}
use tokyo_tester.Scenario.Validation.{is_sound, is_sound_test}
use tokyo_tester.Bundle.Accepted.{is_bundled, is_plain_policy}

-- A test with its new id, and with the new ids of those tests that it names and that exist.
abbrev pub rename_test : (Text → Text) → List Text → ScenarioTestDefinition → ScenarioTestDefinition
rename_test f known t = record t {
  id = f t.id;
  depends_on_test_ids = map f (filter (λ d. has d known) t.depends_on_test_ids);
}

abbrev pub rename_scenario : (Text → Text) → Scenario → Scenario
rename_scenario f s = record {
  name = s.name;
  tests = map (rename_test f (ids s.tests)) s.tests;
  test_order = map f s.test_order;
}

-- The ids of a scenario with new ones.
ids-rename :
    (f : Text → Text) (known : List Text) (ts : List ScenarioTestDefinition)
    → ids (map (rename_test f known) ts) ≡ map f (ids ts)
ids-rename f known [] = refl
ids-rename f known (t ∷ ts) = ap (λ l. f t.id ∷ l) (ids-rename f known ts)

length-rename :
    (f : Text → Text) (known : List Text) (ts : List ScenarioTestDefinition)
    → length (map (rename_test f known) ts) ≡ length ts
length-rename f known [] = refl
length-rename f known (t ∷ ts) = omega (arith, length-rename f known ts)

policies-rename :
    (f : Text → Text) (known : List Text) (ts : List ScenarioTestDefinition)
    → all (λ t. is_plain_policy t t.retry_policy) (map (rename_test f known) ts)
      ≡ all (λ t. is_plain_policy t t.retry_policy) ts
policies-rename f known [] = refl
policies-rename f known (t ∷ ts) =
    ap (λ b. is_plain_policy (rename_test f known t) t.retry_policy && b)
      (policies-rename f known ts)
    ∙ ap (λ b. b && all (λ u. is_plain_policy u u.retry_policy) ts) (same_policy t.retry_policy)
  where
    same_policy :
        (p : Option TestRetryPolicy)
        → is_plain_policy (rename_test f known t) p ≡ is_plain_policy t p
    same_policy none = refl
    same_policy (some p) = refl

pub is_bundled-rename :
    (f : Text → Text) (s : Scenario)
    → IsOneToOne f (ids s.tests)
    → is_bundled s ≡ true
    → is_bundled (rename_scenario f s) ≡ true
is_bundled-rename f s one h =
    let known = ids s.tests in
    let inside : all_in known s.test_order ≡ true = ground arith in
    ground (
      arith,
      ids-rename f known s.tests,
      length-rename f known s.tests,
      policies-rename f known s.tests,
      distinct-map f known known one (all_in-of known known (λ i k. k)),
      distinct-map f known s.test_order one inside,
      all_in-map f known s.test_order,
      length-map f known,
      length-map f s.test_order,
    )

-- A dependency that is left names a test.
all_in-filter : (known is : List Text) → all_in known (filter (λ d. has d known) is) ≡ true
all_in-filter known [] = refl
all_in-filter known (i ∷ is) = ground (arith, all_in-filter known is)

sound-rename :
    (f : Text → Text) (names known : List Text) (ts : List ScenarioTestDefinition)
    → all (λ t. is_sound_test names known t) ts ≡ true
    → all (λ t. is_sound_test names (map f known) t) (map (rename_test f known) ts) ≡ true
sound-rename f names known [] h = refl
sound-rename f names known (t ∷ ts) h =
    let deps = filter (λ d. has d known) t.depends_on_test_ids in
    ground (
      arith,
      sound-rename f names known ts,
      all_in-map f known deps,
      all_in-filter known t.depends_on_test_ids,
    )

pub is_sound-rename :
    (f : Text → Text) (names : List Text) (s : Scenario)
    → IsOneToOne f (ids s.tests)
    → is_sound names s ≡ true
    → is_sound names (rename_scenario f s) ≡ true
is_sound-rename f names s one h =
    let known = ids s.tests in
    let sound : all (λ t. is_sound_test names known t) s.tests ≡ true = ground arith in
    let renamed_sound = sound-rename f names known s.tests sound in
    let renamed_ids : all (λ t. is_sound_test names (ids (map (rename_test f known) s.tests)) t)
          (map (rename_test f known) s.tests)
        ≡ true =
      rw (ids-rename f known s.tests) renamed_sound in
    ground (
      arith,
      renamed_ids,
      ids-rename f known s.tests,
      length-rename f known s.tests,
      distinct-map f known known one (all_in-of known known (λ i k. k)),
    )
