-- ===== src/Stores/Ordering.antt =====
-- The order of the tests of a scenario, deriveOrder of
-- ui-v2/src/modules/workflow/stores/scenario.store.sync.ts.
use tokyo_tester.Base.{
  ◌+◌, ◌≡◌, refl, sym, ap, ◌∙◌, Bool, Bool-cases, inl, inr, true, false, not, ◌&&◌, Option, none,
  some, List, [], ◌∷◌, ◌++◌, all, filter, arith, String,
}
use tokyo_tester.Names.{Text}
use tokyo_tester.Graph.Texts.{text_eq, text_eq_iff, text_eq_refl, has, has-cons}
use tokyo_tester.Graph.Sets.{distinct, all_in, all_in-of}
use tokyo_tester.Scenario.{ScenarioTestDefinition, ids}
use tokyo_tester.Scenario.Order.{has-append}
use tokyo_tester.Stores.{
  lookup, lookup-all, all-put, Wrapped, sync_set, try_set, track_sync, Call, or_other, no_metadata,
}
use tokyo_tester.Sync.Metadata.{SyncMetadataShape, add_sync_metadata}
use tokyo_tester.Sync.{update}
use tokyo_tester.Stores.Scenarios.{
  StoredScenario, ScenarioStore, Updates, Writer, options, derive_order, edited, with_meta,
  put_edited, removed, new_scenario, add_scenario, set_updated, set_deleted, set_active,
  set_replaced, set_upserted, outdates,
}
use tokyo_tester.Stores.Workflows.{project_of}
use tokyo_tester.Stores.Actions.{
  create_scenario, create_with, update_scenario, update_found, delete_scenario, delete_found,
  set_active_scenario, upsert_scenario_from_sync, replace_scenario_from_sync,
}
use tokyo_tester.Stores.Edits.{
  Action, create, edit, remove, activate, upsert, replace, perform, perform_all,
}

has-filter : (p : Text → Bool) (i : Text) (is : List Text) → has i (filter p is) ≡ (has i is && p i)
unfolding has
has-filter p i [] = refl
has-filter p i (j ∷ is) = elim (Bool-cases (text_eq j i)) [
  | inl same ↦
      let e : p j ≡ p i = ap p ((text_eq_iff j i).0 same) in ground (arith, has-filter p i is)
  | inr other ↦ ground (arith, has-filter p i is)
]

distinct-filter :
    (p : Text → Bool) (is : List Text) → distinct is ≡ true → distinct (filter p is) ≡ true
distinct-filter p [] d = refl
distinct-filter p (j ∷ is) d = ground (arith, has-filter p j is, distinct-filter p is)

-- Two lists without repetitions and without a common text.
distinct-append :
    (is js : List Text)
    → distinct is ≡ true
    → distinct js ≡ true
    → ((i : Text) → has i is ≡ true → has i js ≡ false)
    → distinct (is ++ js) ≡ true
unfolding has
distinct-append [] js d e f = e
distinct-append (i ∷ is) js d e f = ground (
  arith,
  has-append i is js,
  text_eq_refl i,
  f i,
  distinct-append is js (ground arith) e (λ k h. f k (has-cons k i is h)),
)

filter_all :
    (p : Text → Bool) (is : List Text)
    → ((i : Text) → has i is ≡ true → p i ≡ true)
    → filter p is ≡ is
unfolding has
filter_all p [] f = refl
filter_all p (i ∷ is) f =
    ground (arith, text_eq_refl i, f i, filter_all p is (λ k h. f k (has-cons k i is h)))

filter_none :
    (p : Text → Bool) (is : List Text)
    → ((i : Text) → has i is ≡ true → p i ≡ false)
    → filter p is ≡ []
unfolding has
filter_none p [] f = refl
filter_none p (i ∷ is) f =
    ground (arith, text_eq_refl i, f i, filter_none p is (λ k h. f k (has-cons k i is h)))

has-derive_order :
    (ts : List ScenarioTestDefinition) (order : List Text) (i : Text)
    → has i (derive_order ts order) ≡ has i (ids ts)
unfolding derive_order
has-derive_order ts order i =
    let existing = filter (λ k. has k (ids ts)) order in
    ground (
      arith,
      has-append i existing (filter (λ k. not (has k existing)) (ids ts)),
      has-filter (λ k. has k (ids ts)) i order,
      has-filter (λ k. not (has k existing)) i (ids ts),
    )

distinct-derive_order :
    (ts : List ScenarioTestDefinition) (order : List Text)
    → distinct (ids ts) ≡ true
    → distinct order ≡ true
    → distinct (derive_order ts order) ≡ true
unfolding derive_order
distinct-derive_order ts order d e =
    let existing = filter (λ k. has k (ids ts)) order in
    distinct-append existing (filter (λ k. not (has k existing)) (ids ts))
      (distinct-filter (λ k. has k (ids ts)) order e)
      (distinct-filter (λ k. not (has k existing)) (ids ts) d)
      (λ i h. ground (arith, has-filter (λ k. not (has k existing)) i (ids ts)))

append-nil : (is : List Text) → is ++ [] ≡ is
append-nil [] = refl
append-nil (i ∷ is) = ap (λ l. i ∷ l) (append-nil is)

-- An order that has the ids of the tests is kept.
derive_order-kept :
    (ts : List ScenarioTestDefinition) (order : List Text)
    → ((i : Text) → has i order ≡ has i (ids ts))
    → derive_order ts order ≡ order
unfolding derive_order
derive_order-kept ts order f =
    let existing = filter (λ k. has k (ids ts)) order in
    let e : existing ≡ order = filter_all (λ k. has k (ids ts)) order (λ i h. sym (f i) ∙ h) in
    ap (λ l. l ++ filter (λ k. not (has k l)) (ids ts)) e
    ∙ ap (λ l. order ++ l) (filter_none (λ k. not (has k order)) (ids ts) (λ i h. ap not (f i ∙ h)))
    ∙ append-nil order

-- Neither the tests nor the order repeat an id, and they have the same ids.
abbrev pub is_ordered_by : List ScenarioTestDefinition → List Text → Bool
is_ordered_by ts order =
    (distinct (ids ts) && distinct order) && (all_in (ids ts) order && all_in order (ids ts))

abbrev pub is_ordered : StoredScenario → Bool
is_ordered s = is_ordered_by s.tests s.test_order

is_ordered_by-derive_order :
    (ts : List ScenarioTestDefinition) (order : List Text)
    → distinct (ids ts) ≡ true
    → distinct order ≡ true
    → is_ordered_by ts (derive_order ts order) ≡ true
is_ordered_by-derive_order ts order d e =
    let covers = has-derive_order ts order in
    ground (
      arith,
      distinct-derive_order ts order d e,
      all_in-of (ids ts) (derive_order ts order) (λ i h. sym (covers i) ∙ h),
      all_in-of (derive_order ts order) (ids ts) (λ i h. covers i ∙ h),
    )

abbrev no_repeated_id : Option (List ScenarioTestDefinition) → Bool
no_repeated_id none = true
no_repeated_id (some ts) = distinct (ids ts)

abbrev no_repeated_text : Option (List Text) → Bool
no_repeated_text none = true
no_repeated_text (some order) = distinct order

-- The tests and the order of an edit repeat no id, where they are given, and what comes from the server
-- is ordered.
abbrev pub is_proper : Action → Bool
is_proper (edit c i u) = no_repeated_id u.tests && no_repeated_text u.test_order
is_proper (upsert s) = is_ordered s
is_proper (replace s) = is_ordered s
is_proper _ = true

distinct-tests_of :
    (o : Option (List ScenarioTestDefinition)) (ts : List ScenarioTestDefinition)
    → no_repeated_id o ≡ true
    → distinct (ids ts) ≡ true
    → distinct (ids (or_other o ts)) ≡ true
distinct-tests_of none ts h d = d
distinct-tests_of (some us) ts h d = h

distinct-order_of :
    (o : Option (List Text)) (order : List Text)
    → no_repeated_text o ≡ true
    → distinct order ≡ true
    → distinct (or_other o order) ≡ true
distinct-order_of none order h d = d
distinct-order_of (some is) order h d = h

-- A scenario that is made, if it is, is ordered.
abbrev is_ordered_if : Option StoredScenario → Bool
is_ordered_if none = true
is_ordered_if (some s) = is_ordered s

is_ordered-with_meta :
    (s : StoredScenario) (m : Option SyncMetadataShape)
    → is_ordered s ≡ true
    → is_ordered_if (with_meta s m) ≡ true
is_ordered-with_meta s none h = refl
is_ordered-with_meta s (some m) h = h

is_ordered-edited :
    (c : Call) (u : Updates) (s : StoredScenario)
    → (no_repeated_id u.tests && no_repeated_text u.test_order) ≡ true
    → is_ordered s ≡ true
    → is_ordered_if (edited c u s) ≡ true
unfolding edited
is_ordered-edited c u s p h =
    let tests = or_other u.tests s.tests in
    let version = s.meta.version + 1 in
    let changed : StoredScenario = record s {
      name = or_other u.name s.name;
      description = or_other u.description s.description;
      tests = tests;
      test_order = derive_order tests (or_other u.test_order s.test_order);
      meta = record s.meta { version = version };
    } in
    is_ordered-with_meta changed (add_sync_metadata c.user c.client c.now changed.meta) (
      is_ordered_by-derive_order (or_other u.tests s.tests) (or_other u.test_order s.test_order)
        (distinct-tests_of u.tests s.tests (ground arith) (ground arith))
        (distinct-order_of u.test_order s.test_order (ground arith) (ground arith)))

is_ordered-new_scenario :
    (c : Call) (i project workflow name : String)
    → is_ordered_if (new_scenario c i project workflow name) ≡ true
unfolding new_scenario
is_ordered-new_scenario c i project workflow name =
    let made : StoredScenario = record {
      id = i;
      project_id = project;
      workflow_id = workflow;
      name = name;
      description = "";
      tests = [];
      test_order = [];
      meta = no_metadata;
    } in
    is_ordered-with_meta made (add_sync_metadata c.user c.client c.now no_metadata) refl

abbrev pub are_ordered : List (String × StoredScenario) → Bool
are_ordered m = all (λ p. is_ordered p.1) m

module _ (wr : Writer) where
  are_ordered-put_edited :
      (i : String) (o : Option StoredScenario) (w : Wrapped ScenarioStore)
      → is_ordered_if o ≡ true
      → are_ordered w.state.scenarios ≡ true
      → are_ordered (try_set (options wr) (put_edited i o w.state) w).state.scenarios ≡ true
  unfolding sync_set
  are_ordered-put_edited i none w p h = h
  are_ordered-put_edited i (some s) w p h = all-put is_ordered i s w.state.scenarios p h

  are_ordered-set_updated :
      (c : Call) (i : String) (u : Updates) (o : Option StoredScenario) (w : Wrapped ScenarioStore)
      → lookup i w.state.scenarios ≡ o
      → (no_repeated_id u.tests && no_repeated_text u.test_order) ≡ true
      → are_ordered w.state.scenarios ≡ true
      → are_ordered (try_set (options wr) (set_updated c i u o w.state) w).state.scenarios ≡ true
  unfolding set_updated sync_set
  are_ordered-set_updated c i u none w e p h = h
  are_ordered-set_updated c i u (some s) w e p h =
      are_ordered-put_edited i (edited c u s) w
        (is_ordered-edited c u s p (lookup-all is_ordered i w.state.scenarios s e h)) h

  are_ordered-create :
      (i : String) (o : Option StoredScenario) (w : Wrapped ScenarioStore)
      → is_ordered_if o ≡ true
      → are_ordered w.state.scenarios ≡ true
      → are_ordered (create_with wr o i w).state.scenarios ≡ true
  unfolding sync_set track_sync add_scenario
  are_ordered-create i none w p h = h
  are_ordered-create i (some s) w p h = all-put is_ordered s.id s w.state.scenarios p h

  are_ordered-update :
      (c : Call) (i : String) (u : Updates) (o : Option StoredScenario) (w : Wrapped ScenarioStore)
      → (no_repeated_id u.tests && no_repeated_text u.test_order) ≡ true
      → are_ordered w.state.scenarios ≡ true
      → are_ordered (update_found wr c i u o w).state.scenarios ≡ true
  unfolding sync_set track_sync
  are_ordered-update c i u none w p h = h
  are_ordered-update c i u (some s) w p h =
      are_ordered-set_updated c i u (lookup i w.state.scenarios) (track_sync i update w) refl p h

  are_ordered-delete :
      (c : Call) (i : String) (o : Option StoredScenario) (w : Wrapped ScenarioStore)
      → lookup i w.state.scenarios ≡ o
      → are_ordered w.state.scenarios ≡ true
      → are_ordered (delete_found wr c i o w).state.scenarios ≡ true
  unfolding sync_set track_sync set_deleted
  are_ordered-delete c i none w e h = h
  are_ordered-delete c i (some s) w e h =
      all-put is_ordered i (removed c s) w.state.scenarios
        (lookup-all is_ordered i w.state.scenarios s e h) h

  are_ordered-set_upserted :
      (s : StoredScenario) (st : ScenarioStore)
      → is_ordered s ≡ true
      → are_ordered st.scenarios ≡ true
      → are_ordered (set_upserted s st).scenarios ≡ true
  unfolding set_upserted set_replaced
  are_ordered-set_upserted s st p h = elim (Bool-cases (outdates (lookup s.id st.scenarios) s)) [
    | inl older ↦ rw older h
    | inr newer ↦ rw newer (all-put is_ordered s.id s st.scenarios p h)
  ]

  are_ordered-perform :
      (a : Action) (w : Wrapped ScenarioStore)
      → is_proper a ≡ true
      → are_ordered w.state.scenarios ≡ true
      → are_ordered (perform wr a w).state.scenarios ≡ true
  unfolding sync_set track_sync create_scenario add_scenario new_scenario update_scenario
      delete_scenario set_active_scenario set_active upsert_scenario_from_sync
      replace_scenario_from_sync set_replaced
  are_ordered-perform (create c i ws workflow name) w p h =
      let project = project_of (lookup workflow ws.workflows) in
      are_ordered-create i (new_scenario c i project workflow name) w
        (is_ordered-new_scenario c i project workflow name) h
  are_ordered-perform (edit c i u) w p h =
      are_ordered-update c i u (lookup i w.state.scenarios) w p h
  are_ordered-perform (remove c i) w p h =
      are_ordered-delete c i (lookup i w.state.scenarios) w refl h
  are_ordered-perform (activate workflow i) w p h = h
  are_ordered-perform (upsert s) w p h = are_ordered-set_upserted s w.state p h
  are_ordered-perform (replace s) w p h = all-put is_ordered s.id s w.state.scenarios p h

  -- Through any calls of the scenario store, every scenario keeps an order that names exactly its tests,
  -- each once, provided that the edits repeat no id in the tests or the order that they give, and that
  -- the copies that come from the server are ordered in this sense.
  pub perform_all-are_ordered :
      (actions : List Action) (w : Wrapped ScenarioStore)
      → all is_proper actions ≡ true
      → are_ordered w.state.scenarios ≡ true
      → are_ordered (perform_all wr actions w).state.scenarios ≡ true
  perform_all-are_ordered [] w p h = h
  perform_all-are_ordered (a ∷ actions) w p h =
      perform_all-are_ordered actions (perform wr a w) (ground arith)
        (are_ordered-perform a w (ground arith) h)
