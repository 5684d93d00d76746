-- ===== src/Status/Tests.antt =====
-- The statuses of realtime-events.ts and workflow-run-events.ts on concrete runs.
use tokyo_tester.Names.{Text}
use tokyo_tester.Graph.Texts.{text_eq}
use tokyo_tester.Bundle.{codes, decimal, digits}
use tokyo_tester.Status.Merging.{
  WorkflowLogEvent, event_key, set_event, set_events, insert_event, sort_events, flat,
  merge_workflow_run_events,
}
use tokyo_tester.Status.Merged.{
  has_key, find_event, last_event, AreOrdered, merge_workflow_run_events-AreOrdered,
}
use tokyo_tester.Base.{ℕ, ◌≡◌, ◌≤◌, tally, refl, true, Option, none, some, List, [], ◌∷◌}
use tokyo_tester.Status.{
  WorkflowRunStatus, ScenarioRunStatus, ScenarioTestResultStatus, ServiceExecutionState,
  TestExecutionDisplayStatus, is_text, is_settled, is_failed_state, is_terminal_workflow_status,
  is_terminal_scenario_status, or_pending, resolve_scenario_presentation_status,
  reconcile_service_execution_state, reconcile_test_execution_status,
  operational_workflow_run_events,
}
use tokyo_tester.Status.Folds.{
  Event, log, results, observe_all, observe_all-settled, logged, last_verdict, or_status,
  without_verdict, logged-last_verdict,
}

abbrev going : Option ScenarioRunStatus
going = some ScenarioRunStatus.running

abbrev stopped : Option WorkflowRunStatus
stopped = some WorkflowRunStatus.cancelled

abbrev numbers : List ℕ
numbers = 7 ∷ 8 ∷ 9 ∷ []

abbrev late : List Event
late = log (some "running") ∷ results (ScenarioTestResultStatus.pending ∷ []) ∷ log none ∷ []

observe_all-settled_example : is_settled (observe_all ScenarioRunStatus.completed late) ≡ true
observe_all-settled_example = observe_all-settled ScenarioRunStatus.completed late refl

logged-last_verdict_example :
    logged ScenarioRunStatus.pending (some "running" ∷ some "failed" ∷ none ∷ [])
    ≡ or_status
        (last_verdict (some "running" ∷ some "failed" ∷ none ∷ []))
        (without_verdict ScenarioRunStatus.pending)
logged-last_verdict_example =
    logged-last_verdict ScenarioRunStatus.pending (some "running") (some "failed" ∷ none ∷ [])

-- A scenario that was cancelled is running again after a log event without a verdict.
cancelled_runs : logged ScenarioRunStatus.cancelled (none ∷ []) ≡ ScenarioRunStatus.running
unfolding tokyo_tester.Status.resolve_scenario_log_status
cancelled_runs = refl

abbrev line : ℕ → ℕ → Text → WorkflowLogEvent
line timestamp sequence message = record {
  workflow_run_id = codes "r1";
  scenario_id = none;
  timestamp = timestamp;
  sequence = sequence;
  kind = none;
  message = message;
}

-- What was stored, and what came later, one event of it again.
abbrev sources : List (List WorkflowLogEvent)
sources =
    (line 10 1 (codes "start") ∷ line 12 3 (codes "end") ∷ [])
    ∷ (line 12 2 (codes "test") ∷ line 10 1 (codes "begin") ∷ [])
    ∷ []

merge_workflow_run_events-AreOrdered_example :
    AreOrdered (merge_workflow_run_events sources)
    × ((k : Text)
        → (tally (has_key k) (merge_workflow_run_events sources) ≤ 1)
          × (find_event k (merge_workflow_run_events sources) ≡ last_event k none (flat sources)))
merge_workflow_run_events-AreOrdered_example = merge_workflow_run_events-AreOrdered sources

merged :
    merge_workflow_run_events sources
    ≡ line 10 1 (codes "begin") ∷ line 12 2 (codes "test") ∷ line 12 3 (codes "end") ∷ []
unfolding merge_workflow_run_events sort_events insert_event set_events set_event event_key decimal
    digits text_eq
merged = refl
