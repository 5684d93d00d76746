-- ===== src/Status/Folds.antt =====
-- Sequences of the events that realtime-events.ts folds into the status of a scenario.
use tokyo_tester.Base.{◌≡◌, String, true, Option, none, some, List, [], ◌∷◌, arith, if◌then◌else◌}
use tokyo_tester.Status.{
  ScenarioRunStatus, ScenarioTestResultStatus, is_text, is_settled, resolve_scenario_log_status,
  resolve_scenario_test_status,
}

-- What a page hears of a scenario: the status of a log event, or those of its test results.
pub data Event : Type 0 where
  log : Option String → Event
  results : List ScenarioTestResultStatus → Event

pub observe : ScenarioRunStatus → Event → ScenarioRunStatus
unfolding resolve_scenario_log_status resolve_scenario_test_status
observe s (log status) = resolve_scenario_log_status s status
observe s (results rs) = resolve_scenario_test_status s rs

pub observe_all : ScenarioRunStatus → List Event → ScenarioRunStatus
unfolding observe
observe_all s [] = s
observe_all s (e ∷ es) = observe_all (observe s e) es

observe-settled :
    (s : ScenarioRunStatus) (e : Event) → is_settled s ≡ true → is_settled (observe s e) ≡ true
unfolding observe
observe-settled s (log status) h = ground arith
observe-settled s (results rs) h = ground arith

-- Once a scenario is shown as completed, failed or with a failed clean-up, it is one of these after
-- every later sequence of log events and test results: it never goes back to running.
pub observe_all-settled :
    (s : ScenarioRunStatus) (es : List Event)
    → is_settled s ≡ true
    → is_settled (observe_all s es) ≡ true
unfolding observe_all
observe_all-settled s [] h = h
observe_all-settled s (e ∷ es) h = observe_all-settled (observe s e) es (observe-settled s e h)

-- The verdict that one log event carries, if any.
abbrev pub verdict : Option String → Option ScenarioRunStatus
verdict e =
    if is_text e "cleanup_failed"
    then some ScenarioRunStatus.cleanup_failed
    else if is_text e "failed"
    then some ScenarioRunStatus.failed
    else if is_text e "completed"
    then some ScenarioRunStatus.completed
    else none

-- The last verdict of a sequence of log events.
abbrev pub last_verdict : List (Option String) → Option ScenarioRunStatus
last_verdict [] = none
last_verdict (e ∷ es) = elim (last_verdict es) [ some v ↦ some v | none ↦ verdict e ]

abbrev pub logged : ScenarioRunStatus → List (Option String) → ScenarioRunStatus
logged s [] = s
logged s (e ∷ es) = logged (resolve_scenario_log_status s e) es

-- What a scenario without a verdict is shown as after at least one log event.
abbrev pub without_verdict : ScenarioRunStatus → ScenarioRunStatus
without_verdict s = if is_settled s then s else ScenarioRunStatus.running

abbrev pub or_status : Option ScenarioRunStatus → ScenarioRunStatus → ScenarioRunStatus
or_status none s = s
or_status (some v) s = v

log-verdict :
    (s : ScenarioRunStatus) (e : Option String)
    → resolve_scenario_log_status s e ≡ or_status (verdict e) (without_verdict s)
unfolding resolve_scenario_log_status
log-verdict s e = ground arith

without_verdict_idem :
    (s : ScenarioRunStatus) (e : Option String)
    → without_verdict (resolve_scenario_log_status s e) ≡ resolve_scenario_log_status s e
unfolding resolve_scenario_log_status
without_verdict_idem s e = ground arith

-- After at least one log event the status is the last verdict among them, and where there is none
-- it is running unless it was settled before.
pub logged-last_verdict :
    (s : ScenarioRunStatus) (e : Option String) (es : List (Option String))
    → logged s (e ∷ es) ≡ or_status (last_verdict (e ∷ es)) (without_verdict s)
logged-last_verdict s e [] = log-verdict s e
logged-last_verdict s e (f ∷ es) =
    let later = logged-last_verdict (resolve_scenario_log_status s e) f es in
    ground (arith, later, log-verdict s e, without_verdict_idem s e)
