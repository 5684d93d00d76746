-- ===== src/Status/Merging.antt =====
-- `mergeWorkflowRunEvents` of ui-v2/src/modules/workflow/lib/workflow-run-events.ts: the events of a run
-- from several sources, each once and in their order.
use tokyo_tester.Base.{
  ℕ, Bool, ◌&&◌, ◌||◌, Option, none, some, List, [], ◌∷◌, ◌++◌, ltb, ◌==◌, if◌then◌else◌,
}
use tokyo_tester.Names.{Text}
use tokyo_tester.Graph.Texts.{text_eq}
use tokyo_tester.Bundle.{codes, decimal}

-- What the code here reads of an event, and its message.
pub record WorkflowLogEvent : Type 0 where
  pub workflow_run_id : Text
  pub scenario_id : Option Text
  pub timestamp : ℕ
  pub sequence : ℕ
  pub kind : Option Text
  pub message : Text

abbrev pub or_text : Text → Text → Text
or_text [] other = other
or_text (c ∷ t) other = c ∷ t

-- `value || other`, where the value may be absent.
abbrev pub or_this : Option Text → Text → Text
or_this none other = other
or_this (some t) other = or_text t other

unfoldable pub event_key : WorkflowLogEvent → Text
event_key e =
    e.workflow_run_id
    ++ b':' ∷ or_this e.scenario_id (codes "workflow")
    ++ b':' ∷ decimal e.timestamp
    ++ b':' ∷ decimal e.sequence
    ++ b':' ∷ or_this e.kind (codes "log")

-- The map from keys to events, as the list of its values: a key that is there keeps its place.
unfoldable pub set_event : WorkflowLogEvent → List WorkflowLogEvent → List WorkflowLogEvent
set_event e [] = e ∷ []
set_event e (f ∷ fs) =
    let rest = set_event e fs in if text_eq (event_key f) (event_key e) then e ∷ fs else f ∷ rest

unfoldable pub set_events : List WorkflowLogEvent → List WorkflowLogEvent → List WorkflowLogEvent
set_events m [] = m
set_events m (e ∷ es) = set_events (set_event e m) es

abbrev pub is_after : WorkflowLogEvent → WorkflowLogEvent → Bool
is_after e f =
    ltb f.timestamp e.timestamp || (f.timestamp == e.timestamp && ltb f.sequence e.sequence)

-- A sort that leaves equal ones in their order.
unfoldable pub insert_event : WorkflowLogEvent → List WorkflowLogEvent → List WorkflowLogEvent
insert_event e [] = e ∷ []
insert_event e (f ∷ fs) =
    let rest = insert_event e fs in if is_after e f then f ∷ rest else e ∷ f ∷ fs

unfoldable pub sort_events : List WorkflowLogEvent → List WorkflowLogEvent
sort_events [] = []
sort_events (e ∷ es) = insert_event e (sort_events es)

abbrev pub flat : List (List WorkflowLogEvent) → List WorkflowLogEvent
flat [] = []
flat (es ∷ ess) = es ++ flat ess

unfoldable pub merge_workflow_run_events : List (List WorkflowLogEvent) → List WorkflowLogEvent
merge_workflow_run_events sources = sort_events (set_events [] (flat sources))
