-- ===== src/Stores/Scenarios.antt =====
-- ui-v2/src/modules/workflow/stores/scenario.store.sync.ts: the scenarios of the browser. The metadata
-- are one field of a scenario. The user, the client and the time of a call are its `Call`; how tests and
-- orders are written as JSON is an argument.
use tokyo_tester.Base.{
  ◌+◌, String, Bool, false, not, Option, none, some, List, [], ◌++◌, filter, ◌===◌, if◌then◌else◌,
}
use tokyo_tester.Json.{JsonValue, num, str, bool, obj, field, end}
use tokyo_tester.Names.{Text}
use tokyo_tester.Graph.Texts.{has}
use tokyo_tester.Scenario.{ScenarioTestDefinition, ids}
use tokyo_tester.Sync.{scenario}
use tokyo_tester.Sync.Metadata.{SyncMetadataShape, add_sync_metadata, mark_as_deleted}
use tokyo_tester.Stores.{lookup, put, Options, or_blank, is_newer, Call, or_other, no_metadata}

pub record StoredScenario : Type 0 where
  pub id : String
  pub project_id : String
  pub workflow_id : String
  pub name : String
  pub description : String
  pub tests : List ScenarioTestDefinition
  pub test_order : List Text
  pub meta : SyncMetadataShape

pub record ScenarioStore : Type 0 where
  pub scenarios : List (String × StoredScenario)
  pub active_scenario_id_by_workflow : List (String × Option String)
  pub current_entity_id : Option String

-- `Partial<Pick<Scenario, …>>`
pub record Updates : Type 0 where
  pub name : Option String
  pub description : Option String
  pub tests : Option (List ScenarioTestDefinition)
  pub test_order : Option (List Text)

unfoldable pub derive_order : List ScenarioTestDefinition → List Text → List Text
derive_order tests order =
    let existing = filter (λ i. has i (ids tests)) order in
    existing ++ filter (λ i. not (has i existing)) (ids tests)

abbrev pub with_meta : StoredScenario → Option SyncMetadataShape → Option StoredScenario
with_meta s none = none
with_meta s (some m) = some (record s { meta = m })

-- `none` where it throws.
abbrev pub with_metadata : Call → StoredScenario → Option StoredScenario
with_metadata c s = with_meta s (add_sync_metadata c.user c.client c.now s.meta)

-- How the parts of a scenario that are no texts are written.
pub record Writer : Type 0 where
  pub tests_config : List ScenarioTestDefinition → JsonValue
  pub test_order : List Text → JsonValue

unfoldable pub serialized : Writer → StoredScenario → JsonValue
serialized w s = obj (
    field "id" (str s.id) (
      field "project_id" (str s.project_id) (
        field "workflow_id" (str s.workflow_id) (
          field "name" (str s.name) (
            field "description" (str s.description) (
              field "tests_config" (w.tests_config s.tests) (
                field "test_order" (w.test_order s.test_order) (
                  field "metadata" (obj end) (
                    field "version" (num s.meta.version) (
                      field "created_at" (str (or_blank s.meta.created_at)) (
                        field "updated_at" (str (or_blank s.meta.updated_at)) (
                          field "user_id" (str (or_blank s.meta.user_id)) (
                            field "client_id" (str (or_blank s.meta.client_id))
                              (field "is_deleted" (bool s.meta.is_deleted) end))))))))))))))

abbrev pub serialize_found : Writer → Option StoredScenario → Option JsonValue
serialize_found w none = none
serialize_found w (some s) = some (serialized w s)

abbrev pub options : Writer → Options ScenarioStore
options w = record {
  entity_type = scenario;
  get_entity_id = λ st. st.current_entity_id;
  serialize_entity = λ st i. serialize_found w (lookup i st.scenarios);
}

-- The scenario that `createScenario` makes, if it does not throw; the project is that of the workflow,
-- or empty.
unfoldable pub new_scenario : Call → String → String → String → String → Option StoredScenario
new_scenario c i project workflow name = with_metadata c (record {
  id = i;
  project_id = project;
  workflow_id = workflow;
  name = name;
  description = "";
  tests = [];
  test_order = [];
  meta = no_metadata;
})

-- `{ ...current, ...updates, … }` with the metadata.
unfoldable pub edited : Call → Updates → StoredScenario → Option StoredScenario
edited c u s =
    let next_tests = or_other u.tests s.tests in
    with_metadata c (record s {
      name = or_other u.name s.name;
      description = or_other u.description s.description;
      tests = next_tests;
      test_order = derive_order next_tests (or_other u.test_order s.test_order);
      meta = record s.meta { version = s.meta.version + 1 };
    })

abbrev pub removed : Call → StoredScenario → StoredScenario
removed c s = record s { meta = mark_as_deleted c.now s.meta }

abbrev pub is_active : String → Option (Option String) → Bool
is_active i none = false
is_active i (some none) = false
is_active i (some (some j)) = j === i

abbrev pub joined_active : Option (Option String) → Option String
joined_active none = none
joined_active (some a) = a

-- `active[workflow] ?? id`
abbrev pub or_this : Option String → String → Option String
or_this none i = some i
or_this (some j) i = some j

unfoldable pub add_scenario : StoredScenario → ScenarioStore → ScenarioStore
add_scenario s st = record {
  scenarios = put s.id s st.scenarios;
  active_scenario_id_by_workflow = put s.workflow_id (some s.id) st.active_scenario_id_by_workflow;
  current_entity_id = some s.id;
}

abbrev pub put_edited : String → Option StoredScenario → ScenarioStore → Option ScenarioStore
put_edited i none st = none
put_edited i (some s) st =
    some (record st { scenarios = put i s st.scenarios; current_entity_id = some i })

-- What the update in the `set` of `updateScenario` answers, `none` where it throws.
unfoldable pub set_updated :
    Call → String → Updates → Option StoredScenario → ScenarioStore → Option ScenarioStore
set_updated c i u none st = some st
set_updated c i u (some s) st = put_edited i (edited c u s) st

unfoldable pub set_deleted : Call → String → StoredScenario → ScenarioStore → ScenarioStore
set_deleted c i s st = record {
  scenarios = put i (removed c s) st.scenarios;
  active_scenario_id_by_workflow =
      put s.workflow_id
        (if is_active i (lookup s.workflow_id st.active_scenario_id_by_workflow)
          then none
          else joined_active (lookup s.workflow_id st.active_scenario_id_by_workflow))
        st.active_scenario_id_by_workflow;
  current_entity_id = some i;
}

unfoldable pub set_active : String → Option String → ScenarioStore → ScenarioStore
set_active workflow i st = record st {
  active_scenario_id_by_workflow = put workflow i st.active_scenario_id_by_workflow;
}

unfoldable pub set_replaced : StoredScenario → ScenarioStore → ScenarioStore
set_replaced s st = record st {
  scenarios = put s.id s st.scenarios;
  active_scenario_id_by_workflow =
      put s.workflow_id
        (or_this (joined_active (lookup s.workflow_id st.active_scenario_id_by_workflow)) s.id)
        st.active_scenario_id_by_workflow;
}

abbrev pub outdates : Option StoredScenario → StoredScenario → Bool
outdates none s = false
outdates (some existing) s = is_newer existing.meta s.meta

unfoldable pub set_upserted : StoredScenario → ScenarioStore → ScenarioStore
set_upserted s st = if outdates (lookup s.id st.scenarios) s then st else set_replaced s st
