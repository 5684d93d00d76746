-- ===== src/Scenario.antt =====
-- The scenarios of ui-v2/src/modules/workflow/types/react-flow-cots.ts, and of
-- ui-v2/src/modules/utils/scenario-translator.ts `validateScenario` and the order and the dependencies
-- that `translateScenarioTests` gives the tests. Ids and names are lists of UTF-16 code units. An
-- error is what its message tells.
pub mod Validation
pub mod Order
pub mod Retry
pub mod Tests
use tokyo_tester.Base.{
  ℕ, String, Bool, true, false, not, ◌&&◌, ◌||◌, Option, none, some, List, [], ◌∷◌, ◌++◌, map, any,
  all, filter, leb, length, ◌==◌, if◌then◌else◌,
}
use tokyo_tester.Names.{Text}
use tokyo_tester.Graph.Texts.{text_eq, has}

pub data TestType : Type 0 where
  database document http shell cache queue delay : TestType

pub data RetryMode : Type 0 where
  transient never : RetryMode

-- `idempotencyConfirmed` is true or absent.
pub record TestRetryPolicy : Type 0 where
  pub mode : RetryMode
  pub idempotency_confirmed : Bool

-- What a test's configurations say of its operation, each where it is there.
pub record Operations : Type 0 where
  pub http_method : Option String
  pub document_operation : Option String
  pub cache_operation : Option String
  pub queue_operation : Option String
  pub database_query : Option String
  pub shell_command : Option String
  pub delay_duration_ms : Option ℕ

-- What the code here reads of a test. A list that may be absent is empty where it is.
pub record ScenarioTestDefinition : Type 0 where
  pub id : Text
  pub name : Text
  pub test_type : TestType
  pub target_services : List Text
  pub depends_on_test_ids : List Text
  pub retry_policy : Option TestRetryPolicy
  pub operations : Operations

pub record Scenario : Type 0 where
  pub name : Text
  pub tests : List ScenarioTestDefinition
  pub test_order : List Text

pub data TranslationError : Type 0 where
  no_scenario_name no_tests : TranslationError
  duplicate_id nameless_test no_targets : Text → TranslationError
  unknown_service missing_test : Text → Text → TranslationError

pub record ValidationResult : Type 0 where
  pub valid : Bool
  pub errors : List TranslationError
  pub warned : Bool

-- What `trim` removes: white space and the ends of lines.
unfoldable pub is_space : ℕ → Bool
is_space c =
    (leb 9 c && leb c 13)
    || (c == 32
        || (c == 160
            || (c == 5760
                || ((leb 8192 c && leb c 8202)
                    || (c == 8232
                        || (c == 8233
                            || (c == 8239 || (c == 8287 || (c == 12288 || c == 65279)))))))))

-- `!text.trim()`
abbrev pub is_blank : Text → Bool
is_blank t = all is_space t

abbrev pub ids : List ScenarioTestDefinition → List Text
ids ts = map (λ t. t.id) ts

-- The first loop: the ids seen so far are its set.
pub duplicates : List Text → List ScenarioTestDefinition → List TranslationError
duplicates seen [] = []
duplicates seen (t ∷ ts) =
    let rest = duplicates (t.id ∷ seen) ts in
    if has t.id seen then duplicate_id t.id ∷ rest else rest

pub unknown_services : List Text → Text → List Text → List TranslationError
unknown_services names test [] = []
unknown_services names test (s ∷ ss) =
    let rest = unknown_services names test ss in
    if has s names then rest else unknown_service test s ∷ rest

pub missing_tests : List Text → Text → List Text → List TranslationError
missing_tests known test [] = []
missing_tests known test (d ∷ ds) =
    let rest = missing_tests known test ds in
    if has d known then rest else missing_test test d ∷ rest

-- One round of the second loop. A test without targets is not looked at further.
pub test_errors : List Text → List Text → ScenarioTestDefinition → List TranslationError
unfolding unknown_services missing_tests
test_errors names known t =
    let nameless = if is_blank t.name then nameless_test t.id ∷ [] else [] in
    let rest : List TranslationError = elim t.target_services [
      | [] ↦ no_targets t.name ∷ []
      | s ∷ ss ↦
          unknown_services names t.name (s ∷ ss) ++ missing_tests known t.name t.depends_on_test_ids
    ] in
    nameless ++ rest

pub all_test_errors : List Text → List Text → List ScenarioTestDefinition → List TranslationError
unfolding test_errors
all_test_errors names known [] = []
all_test_errors names known (t ∷ ts) = test_errors names known t ++ all_test_errors names known ts

pub general_errors : Scenario → List TranslationError
general_errors scenario =
    let nameless = if is_blank scenario.name then no_scenario_name ∷ [] else [] in
    let empty : List TranslationError = elim scenario.tests [ [] ↦ no_tests ∷ [] | _ ∷ _ ↦ [] ] in
    nameless ++ empty

-- `orderedIds`
unfoldable pub ordered_ids : List ScenarioTestDefinition → List Text → List Text
ordered_ids ts order = filter (λ i. has i (ids ts)) order

abbrev pub is_nil : List TranslationError → Bool
is_nil [] = true
is_nil (_ ∷ _) = false

-- `names` are the names of the services of the graph.
unfoldable pub validate_scenario : List Text → Scenario → ValidationResult
unfolding general_errors duplicates all_test_errors ordered_ids
validate_scenario names scenario =
    let errors =
      general_errors scenario
      ++ (duplicates [] scenario.tests
          ++ all_test_errors names (ids scenario.tests) scenario.tests) in
    record {
      valid = is_nil errors;
      errors = errors;
      warned =
          not (length (ordered_ids scenario.tests scenario.test_order) == length scenario.tests);
    }

-- `scenario.tests.find((test) => test.id === id)`
unfoldable pub find_test : Text → List ScenarioTestDefinition → Option ScenarioTestDefinition
find_test i [] = none
find_test i (t ∷ ts) = if text_eq t.id i then some t else find_test i ts

abbrev pub keep_found :
    Option ScenarioTestDefinition → List ScenarioTestDefinition → List ScenarioTestDefinition
keep_found none rest = rest
keep_found (some t) rest = t ∷ rest

-- `.map(find).filter(Boolean)`
unfoldable pub found_tests : List Text → List ScenarioTestDefinition → List ScenarioTestDefinition
unfolding find_test
found_tests [] ts = []
found_tests (i ∷ is) ts = keep_found (find_test i ts) (found_tests is ts)

unfoldable pub ordered_tests : Scenario → List ScenarioTestDefinition
unfolding found_tests ordered_ids
ordered_tests scenario =
    let order = ordered_ids scenario.tests scenario.test_order in
    found_tests order scenario.tests ++ filter (λ t. not (has t.id order)) scenario.tests

-- `TestConfig` without its `config`.
pub record TestConfig : Type 0 where
  pub name : Text
  pub test_type : TestType
  pub depends_on : List Text
  pub retry_policy : Option TestRetryPolicy

-- A `Set` in the order of insertion.
unfoldable pub add_to : List Text → Text → List Text
add_to s x = if has x s then s else s ++ x ∷ []

unfoldable pub set_of : List Text → List Text → List Text
unfolding add_to
set_of s [] = s
set_of s (x ∷ xs) = set_of (add_to s x) xs

-- The name of the test before, where there is one.
unfoldable pub depends_on : Option Text → ScenarioTestDefinition → List Text
unfolding set_of
depends_on none t = set_of [] t.depends_on_test_ids
depends_on (some before) t = add_to (set_of [] t.depends_on_test_ids) before

unfoldable pub configs : Option Text → List ScenarioTestDefinition → List TestConfig
unfolding depends_on
configs before [] = []
configs before (t ∷ ts) =
    record {
      name = t.name;
      test_type = t.test_type;
      depends_on = depends_on before t;
      retry_policy = t.retry_policy;
    }
    ∷ configs (some t.name) ts

unfoldable pub translate_scenario_tests : Scenario → List TestConfig
unfolding ordered_tests configs
translate_scenario_tests scenario = configs none (ordered_tests scenario)
