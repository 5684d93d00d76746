-- ===== src/Status/Laws.antt =====
-- What a page shows of a run, by the functions of workflow-run-events.ts and realtime-events.ts: a run
-- that has ended is never shown as still going on, and no verdict is made up or dropped.
use tokyo_tester.Base.{
  ℕ, ◌-◌, ◌≤◌, ◌<◌, ◌≡◌, refl, String, Bool, true, false, ◌||◌, Option, some, List, ◌++◌, arith,
  length, take, length-drop, take-append-drop, ◌==◌,
}
use tokyo_tester.Status.{
  WorkflowRunStatus, ScenarioRunStatus, ServiceExecutionState, TestExecutionDisplayStatus, is_text,
  is_terminal_workflow_status, is_terminal_scenario_status, or_pending,
  resolve_scenario_presentation_status, reconcile_service_execution_state,
  reconcile_test_execution_status, operational_workflow_run_events, is_failed_state,
  normalize_active_test_status,
}

-- The status of a scenario that has ended is shown as it is, and in a run that has ended every
-- scenario is shown with a status that ends it.
pub resolve_scenario_presentation_status-settles :
    (s : Option ScenarioRunStatus) (w : Option WorkflowRunStatus)
    → (is_terminal_scenario_status s ≡ true
        → resolve_scenario_presentation_status s w ≡ or_pending s)
      × (is_terminal_workflow_status w ≡ true
          → is_terminal_scenario_status (some (resolve_scenario_presentation_status s w)) ≡ true)
unfolding resolve_scenario_presentation_status is_terminal_workflow_status
    is_terminal_scenario_status
resolve_scenario_presentation_status-settles s w = (ground arith, ground arith)

-- A failed service is always shown as failed. Any other is shown as complete where its run or its
-- scenario has ended.
pub reconcile_service_execution_state-settles :
    (c : ServiceExecutionState) (s : Option ScenarioRunStatus) (w : Option WorkflowRunStatus)
    → (is_failed_state c ≡ true → reconcile_service_execution_state c s w ≡ c)
      × (is_failed_state c ≡ false
          → (is_terminal_workflow_status w || is_terminal_scenario_status s) ≡ true
          → reconcile_service_execution_state c s w ≡ ServiceExecutionState.complete)
unfolding reconcile_service_execution_state resolve_scenario_presentation_status
    is_terminal_workflow_status is_terminal_scenario_status
reconcile_service_execution_state-settles c s w = (ground arith, ground arith)

-- A status that a test may have after its run.
abbrev pub is_final : TestExecutionDisplayStatus → Bool
is_final TestExecutionDisplayStatus.pending = false
is_final TestExecutionDisplayStatus.running = false
is_final _ = true

-- A test of a run or scenario that has ended is never shown as pending or running, whatever events
-- came or failed to come.
pub reconcile_test_execution_status-is_final :
    (e t : Option String) (s : Option ScenarioRunStatus) (w : Option WorkflowRunStatus)
    → (is_terminal_workflow_status w || is_terminal_scenario_status s) ≡ true
    → is_final (reconcile_test_execution_status e t s w) ≡ true
unfolding reconcile_test_execution_status resolve_scenario_presentation_status
    is_terminal_workflow_status is_terminal_scenario_status
reconcile_test_execution_status-is_final e t s w h = ground arith

-- A verdict that a test is shown with was stored or came with an event.
pub reconcile_test_execution_status-verdict :
    (e t : Option String) (s : Option ScenarioRunStatus) (w : Option WorkflowRunStatus)
    → (reconcile_test_execution_status e t s w ≡ TestExecutionDisplayStatus.passed
        → (is_text t "passed" || is_text e "passed") ≡ true)
      × (reconcile_test_execution_status e t s w ≡ TestExecutionDisplayStatus.failed
          → (is_text t "failed" || is_text e "failed") ≡ true)
unfolding reconcile_test_execution_status normalize_active_test_status
reconcile_test_execution_status-verdict e t s w = (ground arith, ground arith)

-- With a limit that is not 0, the events that are kept are the last ones, all of them or as many as
-- the limit.
pub operational_workflow_run_events-suffix {ℓ} :
    {A : Type ℓ} (events : List A) (limit : ℕ)
    → 0 < limit
    → ((n : ℕ) × (take n events ++ operational_workflow_run_events events limit ≡ events))
      × (length (operational_workflow_run_events events limit) ≤ limit)
      × (length events ≤ limit → operational_workflow_run_events events limit ≡ events)
unfolding operational_workflow_run_events
operational_workflow_run_events-suffix events limit h =
    let on : (limit == 0) ≡ false = ground arith in
    let none_cut : length events ≤ limit → length events - limit ≡ 0 = λ k. omega arith in
    rw on (
      (length events - limit, take-append-drop (length events - limit) events),
      omega (arith, length-drop (length events - limit) events),
      λ k. rw (none_cut k) refl,
    )
