-- ===== src/Stores/Actions.antt =====
-- The actions and queries of ui-v2/src/modules/workflow/stores/scenario.store.sync.ts, behind the
-- middleware. The workflows are those of the workflow store; the id of a new scenario is an argument, as
-- `generateId` takes it from the browser's random numbers.
use tokyo_tester.Base.{
  String, Bool, not, ◌&&◌, Option, none, some, List, [], ◌∷◌, ◌===◌, if◌then◌else◌,
}
use tokyo_tester.Bundle.{codes}
use tokyo_tester.Sync.{insert, update, delete}
use tokyo_tester.Stores.{lookup, Wrapped, sync_set, try_set, track_sync, or_blank, text_gt, Call}
use tokyo_tester.Stores.Workflows.{WorkflowStore, project_of}
use tokyo_tester.Stores.Scenarios.{
  StoredScenario, ScenarioStore, Updates, Writer, options, new_scenario, add_scenario, set_updated,
  set_deleted, set_active, set_replaced, set_upserted,
}

module _ (wr : Writer) where
  -- Where the scenario is not made, `createScenario` throws before its call of `trackSync`.
  abbrev pub create_with :
      Option StoredScenario → String → Wrapped ScenarioStore → Wrapped ScenarioStore
  create_with none i w = w
  create_with (some s) i w = sync_set (options wr) (add_scenario s) (track_sync i insert w)

  unfoldable pub create_scenario :
      Call
      → String
      → WorkflowStore
      → String
      → String
      → Wrapped ScenarioStore
      → Wrapped ScenarioStore
  create_scenario c i ws workflow name w =
      create_with (new_scenario c i (project_of (lookup workflow ws.workflows)) workflow name) i w

  -- The scenario is looked up before the call of `trackSync`, and again in `set`. Where the update
  -- throws, for want of a user, the operation is tracked already.
  abbrev pub update_found :
      Call
      → String
      → Updates
      → Option StoredScenario
      → Wrapped ScenarioStore
      → Wrapped ScenarioStore
  update_found c i u none w = w
  update_found c i u (some s) w =
      try_set (options wr) (set_updated c i u (lookup i w.state.scenarios) w.state)
        (track_sync i update w)

  unfoldable pub update_scenario :
      Call → String → Updates → Wrapped ScenarioStore → Wrapped ScenarioStore
  update_scenario c i u w = update_found c i u (lookup i w.state.scenarios) w

  abbrev pub delete_found :
      Call → String → Option StoredScenario → Wrapped ScenarioStore → Wrapped ScenarioStore
  delete_found c i none w = w
  delete_found c i (some s) w = sync_set (options wr) (set_deleted c i s) (track_sync i delete w)

  unfoldable pub delete_scenario : Call → String → Wrapped ScenarioStore → Wrapped ScenarioStore
  delete_scenario c i w = delete_found c i (lookup i w.state.scenarios) w

  unfoldable pub set_active_scenario :
      String → Option String → Wrapped ScenarioStore → Wrapped ScenarioStore
  set_active_scenario workflow i w = sync_set (options wr) (set_active workflow i) w

  unfoldable pub upsert_scenario_from_sync :
      StoredScenario → Wrapped ScenarioStore → Wrapped ScenarioStore
  upsert_scenario_from_sync s w = sync_set (options wr) (set_upserted s) w

  unfoldable pub replace_scenario_from_sync :
      StoredScenario → Wrapped ScenarioStore → Wrapped ScenarioStore
  replace_scenario_from_sync s w = sync_set (options wr) (set_replaced s) w

-- The scenarios of a workflow that are not deleted, the one that was changed last first. Times are
-- texts in one format, which `localeCompare` and `>` order alike.
abbrev pub visible : String → StoredScenario → Bool
visible workflow s = s.workflow_id === workflow && not s.meta.is_deleted

abbrev pub updated_after : StoredScenario → StoredScenario → Bool
updated_after s r =
    text_gt (codes (or_blank s.meta.updated_at)) (codes (or_blank r.meta.updated_at))

-- Behind those that are not older, as `sort` is stable.
unfoldable pub insert_by_time : StoredScenario → List StoredScenario → List StoredScenario
insert_by_time s [] = s ∷ []
insert_by_time s (r ∷ rs) =
    let rest = insert_by_time s rs in if updated_after r s then r ∷ rest else s ∷ r ∷ rs

unfoldable pub get_scenarios_by_workflow :
    String → List (String × StoredScenario) → List StoredScenario
get_scenarios_by_workflow workflow [] = []
get_scenarios_by_workflow workflow ((i, s) ∷ m) =
    let rest = get_scenarios_by_workflow workflow m in
    if visible workflow s then insert_by_time s rest else rest

abbrev pub first : List StoredScenario → Option StoredScenario
first [] = none
first (s ∷ ss) = some s

-- `if (activeId)`: an empty id is as none.
abbrev pub active_or_first : Option (Option String) → String → ScenarioStore → Option StoredScenario
active_or_first (some (some i)) workflow st =
    if i === ""
    then first (get_scenarios_by_workflow workflow st.scenarios)
    else lookup i st.scenarios
active_or_first _ workflow st = first (get_scenarios_by_workflow workflow st.scenarios)

unfoldable pub get_active_scenario_for_workflow : String → ScenarioStore → Option StoredScenario
get_active_scenario_for_workflow workflow st =
    active_or_first (lookup workflow st.active_scenario_id_by_workflow) workflow st
