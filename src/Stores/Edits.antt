-- ===== src/Stores/Edits.antt =====
-- The edits that the browser makes of the scenarios, from one task to the microtasks behind it:
-- ui-v2/src/modules/workflow/stores/scenario.store.sync.ts with the middleware of
-- ui-v2/src/modules/sync/sync-middleware.ts.
use mathlib.Core.Path.{subst}
use tokyo_tester.Base.{
  ◌≡◌, refl, sym, ap, ◌∙◌, ◌⊎◌, inl, inr, String, Bool, Bool-cases, true, false, not, ◌||◌, Option,
  none, some, List, [], ◌∷◌, all, ◌===◌, arith, if◌then◌else◌,
}
use tokyo_tester.Json.{JsonValue}
use tokyo_tester.Sync.{ChangeType, insert, update, delete}
use tokyo_tester.Sync.Middleware.{Tracker, get, get-put, track, coalesce_change_type}
use tokyo_tester.Sync.Service.{SyncService, Env}
use tokyo_tester.Sync.Metadata.{add_sync_metadata}
use tokyo_tester.Stores.{
  lookup, put, lookup-put, Wrapped, schedule, sync_set, try_set, track_sync, drain, Call,
}
use tokyo_tester.Stores.Workflows.{WorkflowStore}
use tokyo_tester.Stores.Scenarios.{
  StoredScenario, ScenarioStore, Updates, Writer, serialized, options, new_scenario, edited,
  with_meta, with_metadata, put_edited, removed, add_scenario, set_updated, set_deleted, set_active,
  set_replaced, set_upserted, outdates,
}
use tokyo_tester.Stores.Actions.{
  create_scenario, create_with, update_scenario, update_found, delete_scenario, delete_found,
  set_active_scenario, upsert_scenario_from_sync, replace_scenario_from_sync,
}
use tokyo_tester.Stores.Draining.{
  waits, waits-append, waits-schedule_self, change_of, changes_of, change_of-once, once, get-drain,
  queue_all, drain-queue_all,
}

-- A call of the store, with what it takes from the other store.
pub data Action : Type 0 where
  create : Call → String → WorkflowStore → String → String → Action
  edit : Call → String → Updates → Action
  remove : Call → String → Action
  activate : String → Option String → Action
  upsert : StoredScenario → Action
  replace : StoredScenario → Action

abbrev pub perform : Writer → Action → Wrapped ScenarioStore → Wrapped ScenarioStore
perform wr (create c i ws workflow name) w = create_scenario wr c i ws workflow name w
perform wr (edit c i u) w = update_scenario wr c i u w
perform wr (remove c i) w = delete_scenario wr c i w
perform wr (activate workflow i) w = set_active_scenario wr workflow i w
perform wr (upsert s) w = upsert_scenario_from_sync wr s w
perform wr (replace s) w = replace_scenario_from_sync wr s w

abbrev pub perform_all : Writer → List Action → Wrapped ScenarioStore → Wrapped ScenarioStore
perform_all wr [] w = w
perform_all wr (a ∷ actions) w = perform_all wr actions (perform wr a w)

-- Whether an action is no copy of this scenario from the server.
abbrev pub spares : String → Action → Bool
spares j (upsert s) = not (s.id === j)
spares j (replace s) = not (s.id === j)
spares j _ = true

abbrev pub is_some : {A : Type 0} → Option A → Bool
is_some none = false
is_some (some a) = true

-- Whether there is a user where the action asks for one.
abbrev pub is_signed : Action → Bool
is_signed (create c i ws workflow name) = is_some c.user
is_signed (edit c i u) = is_some c.user
is_signed _ = true

with_user :
    (user : Option String) (client now : String) (s : StoredScenario)
    → is_some user ≡ true
    → (e : StoredScenario) × (with_meta s (add_sync_metadata user client now s.meta) ≡ some e)
      × (e.id ≡ s.id)
unfolding add_sync_metadata
with_user none client now s h = cc
with_user (some user) client now s h = (_, refl, refl)

with_metadata-some :
    (c : Call) (s : StoredScenario)
    → is_some c.user ≡ true
    → (e : StoredScenario) × (with_metadata c s ≡ some e) × (e.id ≡ s.id)
with_metadata-some c s h = with_user c.user c.client c.now s h

abbrev pending : String → Tracker → Bool
pending j ops = is_some (get j ops)

abbrev present : String → List (String × StoredScenario) → Bool
present j m = is_some (lookup j m)

pending-track :
    (i j : String) (k : ChangeType) (ops : Tracker)
    → pending j (track i k ops) ≡ (i === j || pending j ops)
unfolding track
pending-track i j k ops =
    rw (get-put i j (coalesce_change_type (get i ops) k) ops, pending) ground arith

-- What holds of a scenario through a task: a tracked one waits and is there, and one that is not
-- tracked is as it was.
record IsFollowed (j : String) (before : Option StoredScenario) (w : Wrapped ScenarioStore)
    : Type 0 where
  waiting : pending j w.tracker ≡ true → waits j w.scheduled ≡ true
  there : pending j w.tracker ≡ true → present j w.state.scenarios ≡ true
  kept : pending j w.tracker ≡ false → lookup j w.state.scenarios ≡ before

waits-schedule :
    (j : String) (o : Option String) (is : List String)
    → waits j is ≡ true
    → waits j (schedule o is) ≡ true
waits-schedule j none is h = h
waits-schedule j (some i) is h = ground (arith, waits-append j is (i ∷ []))

module _ (wr : Writer) (j : String) (named : j === "" ≡ false)
    (before : Option StoredScenario) where
  IsFollowed-edit :
      (i : String) (k : ChangeType) (f : ScenarioStore → ScenarioStore) (s : StoredScenario)
      (w : Wrapped ScenarioStore)
      → (f w.state).current_entity_id ≡ some i
      → lookup j (f w.state).scenarios ≡ (if i === j then some s else lookup j w.state.scenarios)
      → IsFollowed j before w
      → IsFollowed j before (sync_set (options wr) f (track_sync i k w))
  unfolding sync_set track_sync
  IsFollowed-edit i k f s w current found h = record {
    waiting = λ p. elim (Bool-cases (i === j)) [
      | inl same ↦ rw current (waits-schedule_self i j w.scheduled named same)
      | inr other ↦
          waits-schedule j (f w.state).current_entity_id w.scheduled
            (h.waiting (ground (arith, pending-track i j k w.tracker)))
    ];
    there = λ p. rw (found, present) (ground (arith, pending-track i j k w.tracker, h.there));
    kept = λ p. rw found (ground (arith, pending-track i j k w.tracker, h.kept));
  }

  IsFollowed-merge :
      (f : ScenarioStore → ScenarioStore) (w : Wrapped ScenarioStore)
      → lookup j (f w.state).scenarios ≡ lookup j w.state.scenarios
      → IsFollowed j before w
      → IsFollowed j before (sync_set (options wr) f w)
  unfolding sync_set
  IsFollowed-merge f w found h = record {
    waiting = λ p. waits-schedule j (f w.state).current_entity_id w.scheduled (h.waiting p);
    there = λ p. rw (found, present) (h.there p);
    kept = λ p. found ∙ h.kept p;
  }

  IsFollowed-update :
      (c : Call) (i : String) (u : Updates) (o : Option StoredScenario) (w : Wrapped ScenarioStore)
      → is_some c.user ≡ true
      → lookup i w.state.scenarios ≡ o
      → IsFollowed j before w
      → IsFollowed j before (update_found wr c i u o w)
  unfolding set_updated edited
  IsFollowed-update c i u none w k e h = h
  IsFollowed-update c i u (some s) w k e h =
      let (r, made, _) = with_metadata-some c _ k in
      subst (λ o. IsFollowed j before (try_set (options wr) o (track_sync i update w)))
        (sym (ap (λ o. set_updated c i u o w.state) e ∙ ap (λ o. put_edited i o w.state) made))
        (IsFollowed-edit i update
          (λ st. record w.state {
            scenarios = put i r w.state.scenarios;
            current_entity_id = some i;
          })
          r w refl (lookup-put i j r w.state.scenarios) h)

  IsFollowed-create :
      (i : String) (o : Option StoredScenario) (s : StoredScenario) (w : Wrapped ScenarioStore)
      → o ≡ some s
      → s.id ≡ i
      → IsFollowed j before w
      → IsFollowed j before (create_with wr o i w)
  unfolding add_scenario
  IsFollowed-create i o s w e same h =
      subst (λ r. IsFollowed j before (create_with wr r i w)) (sym e)
        (IsFollowed-edit i insert (add_scenario s) s w (ap some same)
          (lookup-put s.id j s w.state.scenarios
            ∙ ap (λ k. if k === j then some s else lookup j w.state.scenarios) same)
          h)

  IsFollowed-delete :
      (c : Call) (i : String) (o : Option StoredScenario) (w : Wrapped ScenarioStore)
      → IsFollowed j before w
      → IsFollowed j before (delete_found wr c i o w)
  unfolding set_deleted
  IsFollowed-delete c i none w h = h
  IsFollowed-delete c i (some s) w h =
      IsFollowed-edit i delete (set_deleted c i s) (removed c s) w refl
        (lookup-put i j (removed c s) w.state.scenarios) h

  lookup-set_replaced :
      (s : StoredScenario) (st : ScenarioStore)
      → s.id === j ≡ false
      → lookup j (set_replaced s st).scenarios ≡ lookup j st.scenarios
  unfolding set_replaced
  lookup-set_replaced s st n = lookup-put s.id j s st.scenarios ∙ rw n refl

  lookup-set_upserted :
      (s : StoredScenario) (st : ScenarioStore)
      → s.id === j ≡ false
      → lookup j (set_upserted s st).scenarios ≡ lookup j st.scenarios
  unfolding set_upserted
  lookup-set_upserted s st n = elim (Bool-cases (outdates (lookup s.id st.scenarios) s)) [
    | inl older ↦ rw older refl
    | inr newer ↦ rw newer (lookup-set_replaced s st n)
  ]

  IsFollowed-perform :
      (a : Action) (w : Wrapped ScenarioStore)
      → is_signed a ≡ true
      → spares j a ≡ true
      → IsFollowed j before w
      → IsFollowed j before (perform wr a w)
  unfolding create_scenario add_scenario new_scenario update_scenario delete_scenario
      set_active_scenario set_active upsert_scenario_from_sync replace_scenario_from_sync
  IsFollowed-perform (create c i ws workflow name) w k a h =
      let (s, made, same) = with_metadata-some c _ k in IsFollowed-create i _ s w made same h
  IsFollowed-perform (edit c i u) w k a h =
      IsFollowed-update c i u (lookup i w.state.scenarios) w k refl h
  IsFollowed-perform (remove c i) w k a h = IsFollowed-delete c i (lookup i w.state.scenarios) w h
  IsFollowed-perform (activate workflow i) w k a h =
      IsFollowed-merge (set_active workflow i) w refl h
  IsFollowed-perform (upsert s) w k a h =
      IsFollowed-merge (set_upserted s) w (lookup-set_upserted s w.state (ground arith)) h
  IsFollowed-perform (replace s) w k a h =
      IsFollowed-merge (set_replaced s) w (lookup-set_replaced s w.state (ground arith)) h

  IsFollowed-perform_all :
      (actions : List Action) (w : Wrapped ScenarioStore)
      → all is_signed actions ≡ true
      → all (spares j) actions ≡ true
      → IsFollowed j before w
      → IsFollowed j before (perform_all wr actions w)
  IsFollowed-perform_all [] w k a h = h
  IsFollowed-perform_all (x ∷ actions) w k a h =
      IsFollowed-perform_all actions (perform wr x w) (ground arith) (ground arith)
        (IsFollowed-perform x w (ground arith) (ground arith) h)

-- The changes that the microtasks queue, in their order.
abbrev pub queued :
    Env → Writer → String → Wrapped ScenarioStore → List (String × (ChangeType × JsonValue))
queued env wr now w = changes_of env (options wr) now w.state w.tracker (once w.scheduled)

-- A scenario is as it was, or one change of it is queued, with what it is now.
abbrev pub IsSaved :
    Env → Writer → String → String → Option StoredScenario → Wrapped ScenarioStore → Type 0
IsSaved env wr now j before w =
    (lookup j w.state.scenarios ≡ before)
    ⊎ ((e : StoredScenario) × ((k : ChangeType) × ((lookup j w.state.scenarios ≡ some e)
            × (change_of j (queued env wr now w) ≡ some (k, serialized wr e)))))

-- The microtasks behind the task.
abbrev pub drained :
    Env → Writer → String → Wrapped ScenarioStore → SyncService → Tracker × SyncService
drained env wr now w s = drain env (options wr) now w.state w.scheduled (w.tracker, s)

module _ (env : Env) (wr : Writer) (now : String) (j : String) where
  saved :
      (before : Option StoredScenario) (w : Wrapped ScenarioStore) (k : Option ChangeType)
      (e : Option StoredScenario)
      → get j w.tracker ≡ k
      → lookup j w.state.scenarios ≡ e
      → IsFollowed j before w
      → IsSaved env wr now j before w
  saved before w none e t f h = inl (h.kept (rw (t, pending) refl))
  saved before w (some k) none t f h =
      let gone : present j w.state.scenarios ≡ false = rw (f, present) refl in
      let here = h.there (rw (t, pending) refl) in cc
  saved before w (some k) (some e) t f h = inr (
    e,
    (
      k,
      (
        f,
        change_of-once env (options wr) now w.state j k (serialized wr e) w.tracker w.scheduled t
            (rw f refl) (h.waiting (rw (t, pending) refl)),
      ),
    ),
  )

  settled :
      (ops : Tracker) (is : List String)
      → (pending j ops ≡ true → waits j is ≡ true)
      → (if waits j is then none else get j ops) ≡ none
  settled ops is f = ground (arith, f)

  -- The store is called any number of times in one task, in which a user is signed in whenever a
  -- scenario is made or edited. A scenario with no tracked operation before, of
  -- which no copy from the server arrives in that task, is afterwards as it was, or the changes
  -- that the microtasks behind the task queue, in their order, have one of it with what it is then; and
  -- no operation on it stays tracked.
  pub perform_all-IsSaved :
      (actions : List Action) (w : Wrapped ScenarioStore) (s : SyncService)
      → j === "" ≡ false
      → get j w.tracker ≡ none
      → all is_signed actions ≡ true
      → all (spares j) actions ≡ true
      → IsSaved env wr now j (lookup j w.state.scenarios) (perform_all wr actions w)
        × (get j (drained env wr now (perform_all wr actions w) s).0 ≡ none)
        × ((drained env wr now (perform_all wr actions w) s).1
            ≡ queue_all env
                (options wr)
                now
                (perform_all wr actions w).state
                (queued env wr now (perform_all wr actions w))
                s)
  perform_all-IsSaved actions w s named clean signed local =
      let start : IsFollowed j (lookup j w.state.scenarios) w = record {
        waiting = λ p. let q : pending j w.tracker ≡ false = rw (clean, pending) refl in cc;
        there = λ p. let q : pending j w.tracker ≡ false = rw (clean, pending) refl in cc;
        kept = λ p. refl;
      } in
      let v = perform_all wr actions w in
      let h =
        IsFollowed-perform_all wr j named (lookup j w.state.scenarios) actions w signed local
          start in
      (
        saved (lookup j w.state.scenarios) v (get j v.tracker) (lookup j v.state.scenarios) refl
            refl h,
        get-drain env (options wr) now v.state j v.scheduled v.tracker s
            ∙ settled v.tracker v.scheduled h.waiting,
        drain-queue_all env (options wr) now v.state v.scheduled v.tracker s,
      )
