-- ===== src/Status.antt =====
-- The statuses of runs that a page shows: ui-v2/src/modules/workflow/lib/realtime-events.ts, which
-- folds the events of a run into a status, and workflow-run-events.ts beside it, which settles what
-- the page shows when the events are incomplete. The statuses that a server sends as texts are texts.
pub mod Laws
pub mod Folds
pub mod Merging
pub mod Merged
mod Tests
use tokyo_tester.Base.{
  ℕ, ◌-◌, String, Bool, true, false, not, ◌&&◌, ◌||◌, Option, none, some, List, [], ◌∷◌, length,
  drop, any, all, ◌==◌, ◌===◌, if◌then◌else◌,
}

pub data WorkflowRunStatus : Type 0 where
  pending running cancelling cancelled completed failed partial_failed cleanup_failed :
      WorkflowRunStatus

pub data ScenarioRunStatus : Type 0 where
  pending running cancelling cancelled completed failed cleanup_failed : ScenarioRunStatus

pub data ScenarioTestResultStatus : Type 0 where
  pending running passed failed : ScenarioTestResultStatus

pub data ServiceExecutionState : Type 0 where
  queued provisioning ready testing cleaning complete failed : ServiceExecutionState

pub data TestExecutionDisplayStatus : Type 0 where
  pending running passed failed not_run not_recorded interrupted : TestExecutionDisplayStatus

-- `value === text` where the value may be absent.
abbrev pub is_text : Option String → String → Bool
is_text none t = false
is_text (some s) t = s === t

-- `isWorkflowRunStatus`, with the status that the text names.
unfoldable pub workflow_run_status : String → Option WorkflowRunStatus
workflow_run_status s =
    if s === "pending"
    then some WorkflowRunStatus.pending
    else if s === "running"
    then some WorkflowRunStatus.running
    else if s === "cancelling"
    then some WorkflowRunStatus.cancelling
    else if s === "cancelled"
    then some WorkflowRunStatus.cancelled
    else if s === "completed"
    then some WorkflowRunStatus.completed
    else if s === "failed"
    then some WorkflowRunStatus.failed
    else if s === "partial_failed"
    then some WorkflowRunStatus.partial_failed
    else if s === "cleanup_failed"
    then some WorkflowRunStatus.cleanup_failed
    else none

unfoldable pub is_workflow_run_active : Option WorkflowRunStatus → Bool
is_workflow_run_active (some pending) = true
is_workflow_run_active (some running) = true
is_workflow_run_active (some cancelling) = true
is_workflow_run_active _ = false

-- The truth of a text that may be absent: an empty one is false.
abbrev pub given : Option String → Bool
given none = false
given (some s) = not (s === "")

unfoldable pub should_poll_execution_fallback :
    Option String → Option String → Option WorkflowRunStatus → Bool → Bool
unfolding is_workflow_run_active
should_poll_execution_fallback run project status connected =
    given run && (given project && (is_workflow_run_active status && not connected))

unfoldable pub workflow_status_from_log_event :
    Option String → Option String → Option WorkflowRunStatus
unfolding workflow_run_status
workflow_status_from_log_event scenario status =
    if given scenario then none else elim status [ none ↦ none | some s ↦ workflow_run_status s ]

-- The three statuses that both folds keep.
abbrev pub is_settled : ScenarioRunStatus → Bool
is_settled completed = true
is_settled failed = true
is_settled cleanup_failed = true
is_settled _ = false

unfoldable pub resolve_scenario_log_status : ScenarioRunStatus → Option String → ScenarioRunStatus
resolve_scenario_log_status current event =
    if is_text event "cleanup_failed"
    then ScenarioRunStatus.cleanup_failed
    else if is_text event "failed"
    then ScenarioRunStatus.failed
    else if is_text event "completed"
    then ScenarioRunStatus.completed
    else if is_settled current
    then current
    else ScenarioRunStatus.running

abbrev pub has_failed : ScenarioTestResultStatus → Bool
has_failed failed = true
has_failed _ = false

abbrev pub has_passed : ScenarioTestResultStatus → Bool
has_passed passed = true
has_passed _ = false

abbrev pub is_open : ScenarioTestResultStatus → Bool
is_open running = true
is_open pending = true
is_open _ = false

unfoldable pub resolve_scenario_test_status :
    ScenarioRunStatus → List ScenarioTestResultStatus → ScenarioRunStatus
resolve_scenario_test_status current results =
    if any has_failed results
    then ScenarioRunStatus.failed
    else if not (length results == 0) && all has_passed results
    then ScenarioRunStatus.completed
    else if any is_open results && not (is_settled current)
    then ScenarioRunStatus.running
    else current

unfoldable pub is_terminal_workflow_status : Option WorkflowRunStatus → Bool
is_terminal_workflow_status none = false
is_terminal_workflow_status (some pending) = false
is_terminal_workflow_status (some running) = false
is_terminal_workflow_status (some cancelling) = false
is_terminal_workflow_status (some _) = true

unfoldable pub is_terminal_scenario_status : Option ScenarioRunStatus → Bool
is_terminal_scenario_status none = false
is_terminal_scenario_status (some pending) = false
is_terminal_scenario_status (some running) = false
is_terminal_scenario_status (some cancelling) = false
is_terminal_scenario_status (some _) = true

-- `scenarioStatus || "pending"`
abbrev pub or_pending : Option ScenarioRunStatus → ScenarioRunStatus
or_pending none = ScenarioRunStatus.pending
or_pending (some s) = s

-- The part of `resolveScenarioPresentationStatus` for a scenario that has not ended.
abbrev pub from_workflow : Option WorkflowRunStatus → ScenarioRunStatus → ScenarioRunStatus
from_workflow (some completed) s = ScenarioRunStatus.completed
from_workflow (some cancelled) s = ScenarioRunStatus.cancelled
from_workflow (some cleanup_failed) s = ScenarioRunStatus.cleanup_failed
from_workflow (some failed) s = ScenarioRunStatus.failed
from_workflow (some partial_failed) s = ScenarioRunStatus.failed
from_workflow _ s = s

unfoldable pub resolve_scenario_presentation_status :
    Option ScenarioRunStatus → Option WorkflowRunStatus → ScenarioRunStatus
unfolding is_terminal_scenario_status
resolve_scenario_presentation_status scenario workflow =
    if is_terminal_scenario_status scenario
    then or_pending scenario
    else from_workflow workflow (or_pending scenario)

abbrev pub is_failed_state : ServiceExecutionState → Bool
is_failed_state failed = true
is_failed_state _ = false

unfoldable pub reconcile_service_execution_state :
    ServiceExecutionState
    → Option ScenarioRunStatus
    → Option WorkflowRunStatus
    → ServiceExecutionState
unfolding resolve_scenario_presentation_status is_terminal_workflow_status
reconcile_service_execution_state current scenario workflow =
    if is_failed_state current
    then current
    else if is_terminal_scenario_status
          (some (resolve_scenario_presentation_status scenario workflow))
        || is_terminal_workflow_status workflow
    then ServiceExecutionState.complete
    else current

unfoldable pub normalize_active_test_status : Option String → TestExecutionDisplayStatus
normalize_active_test_status status =
    if is_text status "started" || (is_text status "running" || is_text status "retrying")
    then TestExecutionDisplayStatus.running
    else if is_text status "passed"
    then TestExecutionDisplayStatus.passed
    else if is_text status "failed"
    then TestExecutionDisplayStatus.failed
    else TestExecutionDisplayStatus.pending

-- `eventStatus || storedStatus`
abbrev pub or_else : Option String → Option String → Option String
or_else a b = if given a then a else b

abbrev pub is_completed : ScenarioRunStatus → Bool
is_completed completed = true
is_completed _ = false

unfoldable pub reconcile_test_execution_status :
    Option String
    → Option String
    → Option ScenarioRunStatus
    → Option WorkflowRunStatus
    → TestExecutionDisplayStatus
unfolding normalize_active_test_status resolve_scenario_presentation_status
    is_terminal_workflow_status
reconcile_test_execution_status event stored scenario workflow =
    let resolved = resolve_scenario_presentation_status scenario workflow in
    if is_text stored "passed"
    then TestExecutionDisplayStatus.passed
    else if is_text stored "failed"
    then TestExecutionDisplayStatus.failed
    else if is_text event "passed"
    then TestExecutionDisplayStatus.passed
    else if is_text event "failed"
    then TestExecutionDisplayStatus.failed
    else if not (is_terminal_scenario_status (some resolved))
        && not (is_terminal_workflow_status workflow)
    then normalize_active_test_status (or_else event stored)
    else if is_completed resolved
    then TestExecutionDisplayStatus.not_recorded
    else if is_text event "started"
        || (is_text event "running" || (is_text event "retrying" || is_text stored "running"))
    then TestExecutionDisplayStatus.interrupted
    else TestExecutionDisplayStatus.not_run

-- `events.slice(-limit)`, which is the whole list where the limit is 0.
unfoldable pub operational_workflow_run_events {ℓ} : {A : Type ℓ} → List A → ℕ → List A
operational_workflow_run_events events limit =
    if limit == 0 then events else drop (length events - limit) events
