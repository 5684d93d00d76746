-- ===== src/Stores/Lingering.antt =====
-- Operations of the workflow store that stay tracked, and the scenario that is shown:
-- ui-v2/src/modules/workflow/stores/workflow.store.sync.ts and scenario.store.sync.ts.
use mathlib.Core.Path.{subst}
use tokyo_tester.Base.{
  ◌+◌, ◌≡◌, refl, sym, ap, ◌∙◌, String, false, Option, none, some, List, [], ◌∷◌, ◌===◌, eq_refl,
  arith,
}
use tokyo_tester.Sync.{ChangeType, delete, update}
use tokyo_tester.Sync.Middleware.{Tracker, get, get-put, track, coalesce_change_type}
use tokyo_tester.Sync.Metadata.{add_sync_metadata}
use tokyo_tester.Sync.Service.{SyncService, Env}
use tokyo_tester.Stores.{
  lookup, put, lookup-put, Wrapped, sync_set, try_set, track_sync, drain, Call, schedule,
}
use tokyo_tester.Stores.Workflows.{
  StoredWorkflow, WorkflowStore, workflow_options, delete_workflow, set_workflow_deleted,
  upsert_workflow_from_sync, update_workflow_name, with_name, with_workflow_meta, put_workflow,
  set_workflow, serialized_workflow, serialize_workflow, outdates_workflow,
}
use tokyo_tester.Stores.Draining.{
  waits, waits-append, waits-schedule_self, get-drain, queue_all, drain-queue_all, change_of,
  changes_of, once, change_of-once,
}

-- The store after the microtasks that wait have run.
abbrev pub settled_store :
    Env → String → SyncService → Wrapped WorkflowStore → Wrapped WorkflowStore
settled_store env now s w = record {
  state = w.state;
  tracker = (drain env workflow_options now w.state w.scheduled (w.tracker, s)).0;
  scheduled = [];
}

-- A delete of a workflow that the store does not have, then the workflow arrives from the server, then
-- the user renames it: each in a task of its own.
abbrev pub deleted_early :
    Env
    → Call
    → SyncService
    → SyncService
    → StoredWorkflow
    → String
    → Wrapped WorkflowStore
    → Wrapped WorkflowStore
deleted_early env c s1 s2 f name w = update_workflow_name c f.id name (
    settled_store env c.now s2
      (upsert_workflow_from_sync f (settled_store env c.now s1 (delete_workflow c f.id w))))

waits-schedule :
    (j : String) (o : Option String) (is : List String)
    → waits j is ≡ false
    → waits j (schedule o []) ≡ false
    → waits j (schedule o is) ≡ false
waits-schedule j none is h k = h
waits-schedule j (some i) is h k = ground (arith, waits-append j is (i ∷ []))

get-track_delete :
    (j : String) (k : ChangeType) (ops : Tracker)
    → get j ops ≡ some delete
    → get j (track j k ops) ≡ some delete
unfolding track coalesce_change_type
get-track_delete j k ops e = rw e (get-put j j delete ops ∙ ground (arith, eq_refl j))

get-track_first :
    (j : String) (k : ChangeType) (ops : Tracker)
    → get j ops ≡ none
    → get j (track j k ops) ≡ some k
unfolding track coalesce_change_type
get-track_first j k ops e = rw e (get-put j j k ops ∙ ground (arith, eq_refl j))

-- A delete of a workflow is tracked that no microtask takes.
module _ (env : Env) (c : Call) (f : StoredWorkflow) where
  abbrev Lingers : Wrapped WorkflowStore → Type 0
  Lingers w =
      (get f.id w.tracker ≡ some delete)
      × ((waits f.id w.scheduled ≡ false)
          × (waits f.id (schedule w.state.current_entity_id []) ≡ false))

  settled-Lingers :
      (s : SyncService) (w : Wrapped WorkflowStore)
      → Lingers w
      → Lingers (settled_store env c.now s w)
  settled-Lingers s w (t, (q, n)) = (
    get-drain env workflow_options c.now w.state f.id w.scheduled w.tracker s ∙ rw q t,
    (refl, n),
  )

  delete-Lingers :
      (w : Wrapped WorkflowStore)
      → lookup f.id w.state.workflows ≡ none
      → get f.id w.tracker ≡ none
      → waits f.id w.scheduled ≡ false
      → waits f.id (schedule w.state.current_entity_id []) ≡ false
      → Lingers (delete_workflow c f.id w)
  unfolding delete_workflow set_workflow_deleted sync_set track_sync
  delete-Lingers w e t q n = rw e (
    get-track_first f.id delete w.tracker t,
    (waits-schedule f.id w.state.current_entity_id w.scheduled q n, n),
  )

  lookup-delete :
      (w : Wrapped WorkflowStore)
      → lookup f.id w.state.workflows ≡ none
      → lookup f.id (delete_workflow c f.id w).state.workflows ≡ none
  unfolding delete_workflow set_workflow_deleted sync_set track_sync
  lookup-delete w e = rw e e

  upsert-Lingers :
      (w : Wrapped WorkflowStore)
      → lookup f.id w.state.workflows ≡ none
      → Lingers w
      → Lingers (upsert_workflow_from_sync f w)
        × (lookup f.id (upsert_workflow_from_sync f w).state.workflows ≡ some f)
  unfolding upsert_workflow_from_sync sync_set
  upsert-Lingers w e (t, (q, n)) =
      rw (e, outdates_workflow)
        (
          (t, (waits-schedule f.id w.state.current_entity_id w.scheduled q n, n)),
          lookup-put f.id f.id f w.state.workflows ∙ ground (arith, eq_refl f.id),
        )

  queued-update :
      (name now : String) (g : StoredWorkflow) (w : Wrapped WorkflowStore)
      → with_name c name f ≡ some g
      → f.id === "" ≡ false
      → get f.id w.tracker ≡ some delete
      → lookup f.id w.state.workflows ≡ some f
      → change_of f.id (
          changes_of env workflow_options now
            (update_workflow_name c f.id name w).state
            (update_workflow_name c f.id name w).tracker
            (once (update_workflow_name c f.id name w).scheduled))
        ≡ some (delete, serialized_workflow g)
  unfolding update_workflow_name sync_set track_sync set_workflow
  queued-update name now g w made named t e =
      let st = record w.state {
        workflows = put f.id g w.state.workflows;
        current_entity_id = some f.id;
      } in
      let found : lookup f.id (put f.id g w.state.workflows) ≡ some g =
        lookup-put f.id f.id g w.state.workflows ∙ ground (arith, eq_refl f.id) in
      let v = sync_set workflow_options (λ _. st) (track_sync f.id update w) in
      subst
        (λ o.
          change_of f.id (
            changes_of env workflow_options now
              (try_set workflow_options o (track_sync f.id update w)).state
              (try_set workflow_options o (track_sync f.id update w)).tracker
              (once (try_set workflow_options o (track_sync f.id update w)).scheduled))
          ≡ some (delete, serialized_workflow g))
        (sym (
          ap (λ o. set_workflow f.id (with_name c name) o w.state) e
          ∙ ap (λ o. put_workflow f.id o w.state) made))
        (change_of-once env workflow_options now v.state f.id delete (serialized_workflow g)
          v.tracker v.scheduled (get-track_delete f.id update w.tracker t)
          (ap serialize_workflow found)
          (waits-schedule_self f.id f.id w.scheduled named (eq_refl f.id)))

  with_name-some :
      (name : String)
      → (user : String) → c.user ≡ some user
      → (g : StoredWorkflow) × (with_name c name f ≡ some g)
        × (g.meta.is_deleted ≡ f.meta.is_deleted)
  unfolding add_sync_metadata
  with_name-some name user k = (
    _,
    ap
        (λ o.
          with_workflow_meta
            (record f { name = name; meta = record f.meta { version = f.meta.version + 1 } })
            (add_sync_metadata o c.client c.now (record f.meta { version = f.meta.version + 1 })))
        k,
    refl,
  )

  -- A delete of a workflow that the store does not have stays tracked: when the workflow has then
  -- arrived from the server and the user, who is signed in, renames it, what the microtasks queue is a delete of it, though
  -- its content is the renamed workflow, which is as deleted as the one that arrived.
  pub deleted_early-queues_delete :
      (s1 s2 s3 : SyncService) (user name : String) (w : Wrapped WorkflowStore)
      → c.user ≡ some user
      → f.id === "" ≡ false
      → lookup f.id w.state.workflows ≡ none
      → get f.id w.tracker ≡ none
      → waits f.id w.scheduled ≡ false
      → waits f.id (schedule w.state.current_entity_id []) ≡ false
      → (g : StoredWorkflow) × (with_name c name f ≡ some g)
        × (change_of f.id (
              changes_of env workflow_options c.now
                (deleted_early env c s1 s2 f name w).state
                (deleted_early env c s1 s2 f name w).tracker
                (once (deleted_early env c s1 s2 f name w).scheduled))
            ≡ some (delete, serialized_workflow g))
        × (g.meta.is_deleted ≡ f.meta.is_deleted)
        × ((drain env workflow_options c.now
              (deleted_early env c s1 s2 f name w).state
              (deleted_early env c s1 s2 f name w).scheduled
              ((deleted_early env c s1 s2 f name w).tracker, s3)).1
            ≡ queue_all env workflow_options c.now
                (deleted_early env c s1 s2 f name w).state
                (changes_of env workflow_options c.now
                  (deleted_early env c s1 s2 f name w).state
                  (deleted_early env c s1 s2 f name w).tracker
                  (once (deleted_early env c s1 s2 f name w).scheduled))
                s3)
  deleted_early-queues_delete s1 s2 s3 user name w signed named e t q n =
      let w1 = settled_store env c.now s1 (delete_workflow c f.id w) in
      let l1 = settled-Lingers s1 (delete_workflow c f.id w) (delete-Lingers w e t q n) in
      let (l2, found) = upsert-Lingers w1 (lookup-delete w e) l1 in
      let w2 = settled_store env c.now s2 (upsert_workflow_from_sync f w1) in
      let (g, made, kept) = with_name-some name user signed in
      (
        g,
        made,
        queued-update name c.now g w2 made named
            (settled-Lingers s2 (upsert_workflow_from_sync f w1) l2).0 found,
        kept,
        drain-queue_all env workflow_options c.now (deleted_early env c s1 s2 f name w).state
            (deleted_early env c s1 s2 f name w).scheduled
            (deleted_early env c s1 s2 f name w).tracker s3,
      )
