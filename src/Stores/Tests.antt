-- ===== src/Stores/Tests.antt =====
-- Runs of the stores at concrete inputs.
use tokyo_tester.Base.{
  ℕ, ◌≡◌, refl, String, true, false, not, ◌||◌, none, some, List, [], ◌∷◌, map, all, All, ◌===◌,
}
use tokyo_tester.Json.{null}
use tokyo_tester.Sync.{delete}
use tokyo_tester.Sync.Metadata.{add_sync_metadata}
use tokyo_tester.Sync.Middleware.{get}
use tokyo_tester.Sync.Service.{SyncService, items, new_service}
use tokyo_tester.Sync.Tests.{online}
use tokyo_tester.Graph.Texts.{has, text_eq}
use tokyo_tester.Scenario.Tests.{ping, pause, checkout}
use tokyo_tester.Scenario.{ScenarioTestDefinition, ids, translate_scenario_tests}
use tokyo_tester.Scenario.Order.{AreChained}
use tokyo_tester.Stores.Running.{IsTestOf, translate_scenario_tests-derive_order}
use tokyo_tester.Stores.{lookup, Wrapped, drain, Call, no_metadata}
use tokyo_tester.Stores.Workflows.{
  StoredWorkflow, WorkflowStore, workflow_options, new_workflow, serialized_workflow, with_name,
}
use tokyo_tester.Stores.Scenarios.{
  StoredScenario, ScenarioStore, Updates, Writer, options, derive_order,
}
use tokyo_tester.Stores.Edits.{
  Action, create, edit, remove, upsert, perform_all, IsSaved, drained, queued, perform_all-IsSaved,
}
use tokyo_tester.Stores.Draining.{change_of, changes_of, queue_all, once}
use tokyo_tester.Stores.Ordering.{are_ordered, perform_all-are_ordered}
use tokyo_tester.Stores.Newest.{IsReceived, is_behind, upsert_all-IsNewest}
use tokyo_tester.Stores.Lingering.{deleted_early, deleted_early-queues_delete}

abbrev ann : Call
ann = record { user = some "ann"; client = "c1"; now = "2026-01-02" }

abbrev writer : Writer
writer = record { tests_config = λ ts. null; test_order = λ order. null }

abbrev empty_workflows : WorkflowStore
empty_workflows = record {
  workflows = [];
  active_workflow_id = none;
  current_entity_id = none;
  hydrated = true;
}

abbrev empty_scenarios : Wrapped ScenarioStore
empty_scenarios = record {
  state = record { scenarios = []; active_scenario_id_by_workflow = []; current_entity_id = none };
  tracker = [];
  scheduled = [];
}

abbrev both_tests : Updates
both_tests = record {
  name = some "checkout";
  description = none;
  tests = some (ping ∷ pause ∷ []);
  test_order = some (pause.id ∷ []);
}

-- A scenario is made and edited, and another one is made and deleted.
abbrev session : List Action
session =
    create ann "s1" empty_workflows "w1" "New Scenario"
    ∷ edit ann "s1" both_tests
    ∷ create ann "s2" empty_workflows "w1" "draft"
    ∷ remove ann "s2"
    ∷ edit ann "s9" both_tests
    ∷ []

-- The test that the order does not name comes behind the others.
completed : derive_order (ping ∷ pause ∷ []) (pause.id ∷ []) ≡ pause.id ∷ ping.id ∷ []
unfolding derive_order has text_eq
completed = refl

abbrev started : SyncService
started = new_service online (items [])

perform_all-IsSaved_example :
    IsSaved online writer "12:00" "s1" none (perform_all writer session empty_scenarios)
    × (get "s1"
          (drained online writer "12:00" (perform_all writer session empty_scenarios) started).0
        ≡ none)
    × ((drained online writer "12:00" (perform_all writer session empty_scenarios) started).1
        ≡ queue_all online
            (options writer)
            "12:00"
            (perform_all writer session empty_scenarios).state
            (queued online writer "12:00" (perform_all writer session empty_scenarios))
            started)
unfolding get lookup
perform_all-IsSaved_example =
    perform_all-IsSaved online writer "12:00" "s1" session empty_scenarios started refl refl refl
      refl

perform_all-are_ordered_example :
    are_ordered (perform_all writer session empty_scenarios).state.scenarios ≡ true
unfolding has text_eq
perform_all-are_ordered_example = perform_all-are_ordered writer session empty_scenarios refl refl

abbrev copy_at : ℕ → String → StoredScenario
copy_at version time = record {
  id = "s1";
  project_id = "p";
  workflow_id = "w1";
  name = "n";
  description = "";
  tests = [];
  test_order = [];
  meta = record no_metadata { version = version; updated_at = some time };
}

abbrev copies : List StoredScenario
copies = copy_at 4 "2026-01-04" ∷ copy_at 3 "2026-01-05" ∷ copy_at 4 "2026-01-03" ∷ []

abbrev with_copy : Wrapped ScenarioStore
with_copy = record {
  state = record {
    scenarios = ("s1", copy_at 2 "2026-01-01") ∷ [];
    active_scenario_id_by_workflow = [];
    current_entity_id = none;
  };
  tracker = [];
  scheduled = [];
}

upsert_all-IsNewest_example :
    IsReceived
      (some (copy_at 2 "2026-01-01"))
      copies
      (lookup "s1" (perform_all writer (map upsert copies) with_copy).state.scenarios)
    × (is_behind
          (copy_at 2 "2026-01-01").meta
          (lookup "s1" (perform_all writer (map upsert copies) with_copy).state.scenarios)
        ≡ true)
    × (all
          (λ s.
            not (s.id === "s1")
            || is_behind s.meta
                (lookup "s1" (perform_all writer (map upsert copies) with_copy).state.scenarios))
          copies
        ≡ true)
unfolding lookup
upsert_all-IsNewest_example =
    upsert_all-IsNewest writer "s1" copies with_copy (copy_at 2 "2026-01-01") refl

abbrev arriving : StoredWorkflow
arriving = record {
  id = "w1";
  project_id = "p";
  name = "orders";
  description = "";
  nodes = null;
  edges = null;
  custom_test_order = null;
  provenance = "manual";
  meta = record no_metadata { version = 1 };
}

abbrev opened : Wrapped WorkflowStore
opened = record { state = empty_workflows; tracker = []; scheduled = [] }

abbrev renamed_early : Wrapped WorkflowStore
renamed_early = deleted_early online ann started started arriving "shop" opened

deleted_early-queues_delete_example :
    (g : StoredWorkflow) × (with_name ann "shop" arriving ≡ some g)
    × (change_of "w1" (
          changes_of online workflow_options ann.now renamed_early.state renamed_early.tracker
            (once renamed_early.scheduled))
        ≡ some (delete, serialized_workflow g))
    × (g.meta.is_deleted ≡ false)
    × ((drain online workflow_options ann.now renamed_early.state renamed_early.scheduled
          (renamed_early.tracker, started)).1
        ≡ queue_all online workflow_options ann.now renamed_early.state
            (changes_of online workflow_options ann.now renamed_early.state renamed_early.tracker
              (once renamed_early.scheduled))
            started)
unfolding new_workflow add_sync_metadata lookup get
deleted_early-queues_delete_example =
    deleted_early-queues_delete online ann arriving started started started "ann" "shop" opened refl
      refl refl refl refl refl

translate_scenario_tests-derive_order_example :
    (ts : List ScenarioTestDefinition) × ((ids ts ≡ derive_order checkout.tests checkout.test_order)
      × (All (IsTestOf checkout.tests) ts × AreChained none ts (translate_scenario_tests checkout)))
translate_scenario_tests-derive_order_example = translate_scenario_tests-derive_order checkout
