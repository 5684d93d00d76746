-- ===== src/Status/Merged.antt =====
-- The order and the choice of the events that `mergeWorkflowRunEvents` of
-- ui-v2/src/modules/workflow/lib/workflow-run-events.ts gives.
use tokyo_tester.Base.{
  ◌≤◌, ◌≡◌, refl, ap, ◌∙◌, Bool-cases, inl, inr, Bool, false, Option, none, some, List, [], ◌∷◌,
  tally, All, arith, if◌then◌else◌,
}
use tokyo_tester.Names.{Text}
use tokyo_tester.Graph.Texts.{text_eq, text_eq_iff}
use tokyo_tester.Status.Merging.{
  WorkflowLogEvent, event_key, set_event, set_events, is_after, insert_event, sort_events, flat,
  merge_workflow_run_events,
}

module _ (k : Text) where
  abbrev pub has_key : WorkflowLogEvent → Bool
  has_key e = text_eq (event_key e) k

  abbrev pub find_event : List WorkflowLogEvent → Option WorkflowLogEvent
  find_event [] = none
  find_event (e ∷ es) = if has_key e then some e else find_event es

  -- The last event with the key, or else this one.
  abbrev pub last_event : Option WorkflowLogEvent → List WorkflowLogEvent → Option WorkflowLogEvent
  last_event o [] = o
  last_event o (e ∷ es) = last_event (if has_key e then some e else o) es

  tally-set_other :
      (e : WorkflowLogEvent) (m : List WorkflowLogEvent)
      → has_key e ≡ false
      → tally has_key (set_event e m) ≡ tally has_key m
  unfolding set_event
  tally-set_other e [] n = ground arith
  tally-set_other e (f ∷ fs) n = ground (
    arith,
    tally-set_other e fs,
    text_eq_iff (event_key f) (event_key e),
    text_eq_iff (event_key f) k,
    text_eq_iff (event_key e) k,
  )

  tally-set_event :
      (e : WorkflowLogEvent) (m : List WorkflowLogEvent)
      → tally has_key m ≤ 1
      → tally has_key (set_event e m) ≤ 1
  unfolding set_event
  tally-set_event e [] h = ground arith
  tally-set_event e (f ∷ fs) h = ground (
    arith,
    tally-set_event e fs,
    tally-set_other e fs,
    text_eq_iff (event_key f) (event_key e),
    text_eq_iff (event_key f) k,
    text_eq_iff (event_key e) k,
  )

  find-set_event :
      (e : WorkflowLogEvent) (m : List WorkflowLogEvent)
      → find_event (set_event e m) ≡ (if has_key e then some e else find_event m)
  unfolding set_event
  find-set_event e [] = refl
  find-set_event e (f ∷ fs) = ground (
    arith,
    find-set_event e fs,
    text_eq_iff (event_key f) (event_key e),
    text_eq_iff (event_key f) k,
    text_eq_iff (event_key e) k,
  )

  find-set_events :
      (es m : List WorkflowLogEvent) → find_event (set_events m es) ≡ last_event (find_event m) es
  unfolding set_events
  find-set_events [] m = refl
  find-set_events (e ∷ es) m =
      find-set_events es (set_event e m) ∙ ap (λ o. last_event o es) (find-set_event e m)

  tally-insert_event :
      (e : WorkflowLogEvent) (es : List WorkflowLogEvent)
      → tally has_key (insert_event e es) ≡ tally has_key (e ∷ es)
  unfolding insert_event
  tally-insert_event e [] = refl
  tally-insert_event e (f ∷ fs) = ground (arith, tally-insert_event e fs)

  tally-sort_events :
      (es : List WorkflowLogEvent) → tally has_key (sort_events es) ≡ tally has_key es
  unfolding sort_events
  tally-sort_events [] = refl
  tally-sort_events (e ∷ es) =
      ground (arith, tally-insert_event e (sort_events es), tally-sort_events es)

  find-none : (es : List WorkflowLogEvent) → tally has_key es ≡ 0 → find_event es ≡ none
  find-none [] h = refl
  find-none (e ∷ es) h = ground (arith, find-none es)

  find-insert_event :
      (e : WorkflowLogEvent) (es : List WorkflowLogEvent)
      → tally has_key (e ∷ es) ≤ 1
      → find_event (insert_event e es) ≡ find_event (e ∷ es)
  unfolding insert_event
  find-insert_event e [] h = refl
  find-insert_event e (f ∷ fs) h = ground (arith, find-insert_event e fs)

  find-sort_events :
      (es : List WorkflowLogEvent)
      → tally has_key es ≤ 1
      → find_event (sort_events es) ≡ find_event es
  unfolding sort_events
  find-sort_events [] h = refl
  find-sort_events (e ∷ es) h =
      let same = tally-sort_events es in
      let fewer : tally has_key es ≤ 1 = ground arith in
      find-insert_event e (sort_events es) (ground (arith, same))
      ∙ ap (λ o. if has_key e then some e else o) (find-sort_events es fewer)

  tally-set_events :
      (es m : List WorkflowLogEvent) → tally has_key m ≤ 1 → tally has_key (set_events m es) ≤ 1
  unfolding set_events
  tally-set_events [] m h = h
  tally-set_events (e ∷ es) m h = tally-set_events es (set_event e m) (tally-set_event e m h)

-- Each event comes before those with a later time, and of the same time with a higher number.
abbrev pub AreOrdered : List WorkflowLogEvent → Type 0
AreOrdered [] = Unit
AreOrdered (e ∷ es) = All (λ f. is_after e f ≡ false) es × AreOrdered es

not_after_trans :
    (e f g : WorkflowLogEvent) → is_after e f ≡ false → is_after f g ≡ false → is_after e g ≡ false
not_after_trans e f g h k = ground arith

All-after :
    (e f : WorkflowLogEvent) (gs : List WorkflowLogEvent)
    → is_after e f ≡ false
    → All (λ g. is_after f g ≡ false) gs
    → All (λ g. is_after e g ≡ false) gs
All-after e f [] h k = tt
All-after e f (g ∷ gs) h (k, ks) = (not_after_trans e f g h k, All-after e f gs h ks)

All-insert_event :
    (f e : WorkflowLogEvent) (es : List WorkflowLogEvent)
    → is_after f e ≡ false
    → All (λ g. is_after f g ≡ false) es
    → All (λ g. is_after f g ≡ false) (insert_event e es)
unfolding insert_event
All-insert_event f e [] h k = (h, tt)
All-insert_event f e (g ∷ gs) h (k, ks) = elim (Bool-cases (is_after e g)) [
  | inl later ↦ rw later (k, All-insert_event f e gs h ks)
  | inr before ↦ rw before (h, (k, ks))
]

insert_event-AreOrdered :
    (e : WorkflowLogEvent) (es : List WorkflowLogEvent)
    → AreOrdered es
    → AreOrdered (insert_event e es)
unfolding insert_event
insert_event-AreOrdered e [] o = (tt, tt)
insert_event-AreOrdered e (f ∷ fs) (k, o) = elim (Bool-cases (is_after e f)) [
  | inl later ↦
      let turned : is_after f e ≡ false = ground arith in
      rw later (All-insert_event f e fs turned k, insert_event-AreOrdered e fs o)
  | inr before ↦ rw before ((before, All-after e f fs before k), (k, o))
]

sort_events-AreOrdered : (es : List WorkflowLogEvent) → AreOrdered (sort_events es)
unfolding sort_events
sort_events-AreOrdered [] = tt
sort_events-AreOrdered (e ∷ es) =
    insert_event-AreOrdered e (sort_events es) (sort_events-AreOrdered es)

-- The events of several sources, merged, are in the order of their times and numbers, and for every
-- key there is at most one event: the last one that a source gives with the key, if one does.
pub merge_workflow_run_events-AreOrdered :
    (sources : List (List WorkflowLogEvent))
    → AreOrdered (merge_workflow_run_events sources)
      × ((k : Text)
          → (tally (has_key k) (merge_workflow_run_events sources) ≤ 1)
            × (find_event k (merge_workflow_run_events sources) ≡ last_event k none (flat sources)))
unfolding merge_workflow_run_events
merge_workflow_run_events-AreOrdered sources =
    let es = set_events [] (flat sources) in
    (
      sort_events-AreOrdered es,
      λ k.
          let once : tally (has_key k) es ≤ 1 =
            tally-set_events k (flat sources) [] (omega arith) in
          (
            omega (arith, tally-sort_events k es, once),
            find-sort_events k es once ∙ find-set_events k (flat sources) [],
          ),
    )
