-- ===== src/Stores/Workflows.antt =====
-- ui-v2/src/modules/workflow/stores/workflow.store.sync.ts: the workflows of the browser. Nodes, edges
-- and orders of tests are JSON, as the store only carries them.
use tokyo_tester.Base.{◌+◌, String, Bool, false, Option, none, some, List, ◌===◌, if◌then◌else◌}
use tokyo_tester.Json.{JsonValue, num, str, bool, arr, nil, obj, field, end}
use tokyo_tester.Sync.{workflow, insert, update, delete}
use tokyo_tester.Sync.Metadata.{SyncMetadataShape, add_sync_metadata, mark_as_deleted}
use tokyo_tester.Stores.{
  lookup, put, Options, Wrapped, sync_set, try_set, track_sync, or_blank, is_newer, Call, or_other,
  no_metadata,
}

pub record StoredWorkflow : Type 0 where
  pub id : String
  pub project_id : String
  pub name : String
  pub description : String
  pub nodes : JsonValue
  pub edges : JsonValue
  pub custom_test_order : JsonValue
  pub provenance : String
  pub meta : SyncMetadataShape

pub record WorkflowStore : Type 0 where
  pub workflows : List (String × StoredWorkflow)
  pub active_workflow_id : Option String
  pub current_entity_id : Option String
  pub hydrated : Bool

abbrev pub with_workflow_meta : StoredWorkflow → Option SyncMetadataShape → Option StoredWorkflow
with_workflow_meta f none = none
with_workflow_meta f (some m) = some (record f { meta = m })

-- `addSyncMetadata` of a workflow, `none` where it throws.
abbrev pub stamped_workflow : Call → StoredWorkflow → Option StoredWorkflow
stamped_workflow c f = with_workflow_meta f (add_sync_metadata c.user c.client c.now f.meta)

-- The description is or is not given; the empty one is the same as none.
unfoldable pub new_workflow :
    Call → String → String → String → Option String → Option StoredWorkflow
new_workflow c i project name description = stamped_workflow c (record {
  id = i;
  project_id = project;
  name = name;
  description = or_blank description;
  nodes = arr nil;
  edges = arr nil;
  custom_test_order = obj end;
  provenance = "manual";
  meta = no_metadata;
})

unfoldable pub serialized_workflow : StoredWorkflow → JsonValue
serialized_workflow f = obj (
    field "id" (str f.id) (
      field "project_id" (str f.project_id) (
        field "name" (str f.name) (
          field "description" (str f.description) (
            field "nodes_config" f.nodes (
              field "edges_config" f.edges (
                field "metadata"
                  (obj (
                    field "customTestOrder" f.custom_test_order
                      (field "provenance" (str f.provenance) end)))
                  (field "version" (num f.meta.version) (
                    field "created_at" (str (or_blank f.meta.created_at)) (
                      field "updated_at" (str (or_blank f.meta.updated_at)) (
                        field "user_id" (str (or_blank f.meta.user_id)) (
                          field "client_id" (str (or_blank f.meta.client_id))
                            (field "is_deleted" (bool f.meta.is_deleted) end)))))))))))))

abbrev pub serialize_workflow : Option StoredWorkflow → Option JsonValue
serialize_workflow none = none
serialize_workflow (some f) = some (serialized_workflow f)

abbrev pub workflow_options : Options WorkflowStore
workflow_options = record {
  entity_type = workflow;
  get_entity_id = λ st. st.current_entity_id;
  serialize_entity = λ st i. serialize_workflow (lookup i st.workflows);
}

-- An edit of a workflow counts its version up.
abbrev pub counted : Call → StoredWorkflow → Option StoredWorkflow
counted c f =
    stamped_workflow c (record f { meta = record f.meta { version = f.meta.version + 1 } })

abbrev pub with_name : Call → String → StoredWorkflow → Option StoredWorkflow
with_name c name f = counted c (record f { name = name })

abbrev pub redrawn :
    Call → JsonValue → JsonValue → Option JsonValue → StoredWorkflow → Option StoredWorkflow
redrawn c nodes edges order f = counted c (record f {
  nodes = nodes;
  edges = edges;
  custom_test_order = or_other order f.custom_test_order;
})

abbrev pub put_workflow : String → Option StoredWorkflow → WorkflowStore → Option WorkflowStore
put_workflow i none st = none
put_workflow i (some e) st =
    some (record st { workflows = put i e st.workflows; current_entity_id = some i })

-- What the update in the `set` of an edit answers, `none` where it throws: without the workflow it
-- leaves the state as it is.
unfoldable pub set_workflow :
    String
    → (StoredWorkflow → Option StoredWorkflow)
    → Option StoredWorkflow
    → WorkflowStore
    → Option WorkflowStore
set_workflow i f none st = some st
set_workflow i f (some e) st = put_workflow i (f e) st

abbrev pub unless_this : String → Option String → Option String
unless_this i none = none
unless_this i (some j) = if j === i then none else some j

unfoldable pub set_workflow_deleted :
    Call → String → Option StoredWorkflow → WorkflowStore → WorkflowStore
set_workflow_deleted c i none st = st
set_workflow_deleted c i (some e) st = record st {
  workflows = put i (record e { meta = mark_as_deleted c.now e.meta }) st.workflows;
  active_workflow_id = unless_this i st.active_workflow_id;
  current_entity_id = some i;
}

abbrev pub outdates_workflow : Option StoredWorkflow → StoredWorkflow → Bool
outdates_workflow none f = false
outdates_workflow (some e) f = is_newer e.meta f.meta

-- Where the workflow is not made, `createWorkflow` throws before its call of `trackSync`.
abbrev pub create_workflow_with :
    Option StoredWorkflow → String → Wrapped WorkflowStore → Wrapped WorkflowStore
create_workflow_with none i w = w
create_workflow_with (some f) i w =
    sync_set workflow_options
      (λ st. record st {
        workflows = put i f st.workflows;
        active_workflow_id = some i;
        current_entity_id = some i;
      })
      (track_sync i insert w)

unfoldable pub create_workflow :
    Call → String → String → String → Option String → Wrapped WorkflowStore → Wrapped WorkflowStore
create_workflow c i project name description w =
    create_workflow_with (new_workflow c i project name description) i w

unfoldable pub update_workflow_name :
    Call → String → String → Wrapped WorkflowStore → Wrapped WorkflowStore
update_workflow_name c i name w =
    try_set workflow_options
      (set_workflow i (with_name c name) (lookup i w.state.workflows) w.state)
      (track_sync i update w)

unfoldable pub update_workflow_graph :
    Call
    → String
    → JsonValue
    → JsonValue
    → Option JsonValue
    → Wrapped WorkflowStore
    → Wrapped WorkflowStore
update_workflow_graph c i nodes edges order w =
    try_set workflow_options
      (set_workflow i (redrawn c nodes edges order) (lookup i w.state.workflows) w.state)
      (track_sync i update w)

unfoldable pub delete_workflow : Call → String → Wrapped WorkflowStore → Wrapped WorkflowStore
delete_workflow c i w =
    sync_set workflow_options (λ st. set_workflow_deleted c i (lookup i st.workflows) st)
      (track_sync i delete w)

unfoldable pub set_active_workflow : Option String → Wrapped WorkflowStore → Wrapped WorkflowStore
set_active_workflow i w = sync_set workflow_options (λ st. record st { active_workflow_id = i }) w

unfoldable pub set_hydrated : Bool → Wrapped WorkflowStore → Wrapped WorkflowStore
set_hydrated v w = sync_set workflow_options (λ st. record st { hydrated = v }) w

unfoldable pub replace_workflow_from_sync :
    StoredWorkflow → Wrapped WorkflowStore → Wrapped WorkflowStore
replace_workflow_from_sync f w =
    sync_set workflow_options (λ st. record st { workflows = put f.id f st.workflows }) w

unfoldable pub upsert_workflow_from_sync :
    StoredWorkflow → Wrapped WorkflowStore → Wrapped WorkflowStore
upsert_workflow_from_sync f w =
    sync_set workflow_options
      (λ st.
        if outdates_workflow (lookup f.id st.workflows) f
        then st
        else record st { workflows = put f.id f st.workflows })
      w

abbrev pub project_of : Option StoredWorkflow → String
project_of none = ""
project_of (some f) = f.project_id
