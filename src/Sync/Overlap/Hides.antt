-- ===== src/Sync/Overlap/Hides.antt =====
-- `flushOnPageHide` of sync-service.ts among the calls that overlap.
use mathlib.Core.Path.{subst}
use tokyo_tester.Base.{
  ℕ, ◌+◌, ◌≡◌, refl, sym, ap, ◌∙◌, inl, inr, String, Bool, true, false, not, ◌||◌, Option, none,
  some, List, [], ◌∷◌, ◌++◌, drop, get_elem?, tally-append, All, arith, Bool-cases, Option-cases,
}
use tokyo_tester.Queue.{dequeue_many, is_empty}
use tokyo_tester.Sync.{EntityType, SyncChange, SyncBatchResponse}
use tokyo_tester.Sync.Service.{
  SyncService, Env, Outcome, returned, threw, set_queue, is_nil, persist_queue, requeue,
  flush_on_page_hide,
}
use tokyo_tester.Sync.Service.View.{Holds, requeue-Holds}
use tokyo_tester.Sync.Service.Flushing.{taken}
use tokyo_tester.Sync.Overlap.{
  Waiting, System, Event, queue_event, flush_event, pre_run_event, page_hide_event, answer_event,
  begin_flush, begin_pre_run, begin_commit, answer, answer_at, hide_with, hide, step, run_events,
}
use tokyo_tester.Sync.Overlap.Counts.{of_entity, many}
use tokyo_tester.Sync.Overlap.Kept.{IsSound, Kept}
use tokyo_tester.Sync.Overlap.Sends.{same-Kept, emptied-Kept, many-take-drop}

module _ (env : Env) (s : SyncService) where
  abbrev batch_of_page : List SyncChange
  batch_of_page = (dequeue_many s.max_batch_size s.sync_queue).0

  -- The service without the batch.
  abbrev rest_of : SyncService
  rest_of = persist_queue env (set_queue (dequeue_many s.max_batch_size s.sync_queue).1 s)

  abbrev sent_of : SyncService
  sent_of = record rest_of { sent = batch_of_page ∷ rest_of.sent }

  -- The ways in which `flushOnPageHide` ends.
  data HideCases (o : Outcome) : Type 0 where
    idle : o ≡ returned false s → HideCases o
    empty : is_nil batch_of_page ≡ true → o ≡ returned false rest_of → HideCases o
    nobody : env.identity ≡ false → o ≡ threw rest_of → HideCases o
    took : o ≡ returned true sent_of → HideCases o
    not_took : o ≡ returned false (requeue env batch_of_page rest_of) → HideCases o

  flush_on_page_hide-cases : HideCases (flush_on_page_hide env s)
  unfolding flush_on_page_hide
  flush_on_page_hide-cases = elim (Option-cases env.beacon) [
    | inl absent ↦ idle (rw absent refl)
    | inr (send, has) ↦
        elim (Bool-cases (not s.enabled || (is_empty s.sync_queue || not env.window))) [
          | inl stays ↦ idle (rw (has, stays) refl)
          | inr going ↦ elim (Bool-cases (is_nil batch_of_page)) [
            | inl none_left ↦ empty none_left (rw (has, going, none_left) refl)
            | inr full ↦ elim (Bool-cases env.identity) [
              | inl known ↦ elim (Bool-cases (send batch_of_page)) [
                | inl yes_sent ↦ took (rw (has, going, full, known, yes_sent) refl)
                | inr not_sent ↦ not_took (rw (has, going, full, known, not_sent) refl)
              ]
              | inr unknown ↦ nobody unknown (rw (has, going, full, unknown) refl)
            ]
          ]
        ]
  ]

module _ (env : Env) (t : EntityType) (i : String) where
  delivered-Kept :
      (batch left xs : List SyncChange) (s : SyncService) (sys : System)
      → All IsSound sys.waiting
      → Holds s left
      → many t i xs ≡ many t i batch + many t i left
      → Kept env t i xs sys (hide_with env batch (returned true s) sys) 0
  unfolding hide_with
  delivered-Kept batch left xs s sys k h e =
      let more = tally-append (of_entity t i) sys.delivered batch in
      record {
        rest = left;
        holds = h;
        sound = k;
        none_lost = omega (arith, more, e);
        none_doubled = omega (arith, more, e);
      }

  abandoned-Kept :
      (batch left xs : List SyncChange) (s : SyncService) (sys : System)
      → All IsSound sys.waiting
      → Holds s left
      → many t i xs ≡ many t i batch + many t i left
      → Kept env t i xs sys (hide_with env batch (threw s) sys) 0
  unfolding hide_with
  abandoned-Kept batch left xs s sys k h e =
      let more = tally-append (of_entity t i) sys.abandoned batch in
      record {
        rest = left;
        holds = h;
        sound = k;
        none_lost = omega (arith, more, e);
        none_doubled = omega (arith, more, e);
      }

  refused-Kept :
      (batch left xs : List SyncChange) (s : SyncService) (sys : System)
      → All IsSound sys.waiting
      → Holds s left
      → many t i xs ≡ many t i batch + many t i left
      → Kept env t i xs sys (hide_with env batch (returned false (requeue env batch s)) sys) 0
  unfolding hide_with
  refused-Kept batch left xs s sys k h e =
      let more = tally-append (of_entity t i) batch left in
      record {
        rest = batch ++ left;
        holds = requeue-Holds env batch s left h;
        sound = k;
        none_lost = omega (arith, more, e);
        none_doubled = omega (arith, more, e);
      }

  idle-Kept :
      (batch xs : List SyncChange) (s : SyncService) (sys : System)
      → All IsSound sys.waiting
      → Holds s xs
      → Kept env t i xs sys (hide_with env batch (returned false s) sys) 0
  unfolding hide_with
  idle-Kept batch xs s sys k h = same-Kept env t i xs sys s k h

  empty-Kept :
      (batch left xs : List SyncChange) (s : SyncService) (sys : System)
      → All IsSound sys.waiting
      → Holds s left
      → is_nil batch ≡ true
      → many t i xs ≡ many t i batch + many t i left
      → Kept env t i xs sys (hide_with env batch (returned false s) sys) 0
  unfolding hide_with
  empty-Kept batch left xs s sys k h e m = emptied-Kept env t i batch left xs sys s k h e m

  pub hide-Kept :
      (xs : List SyncChange) (sys : System)
      → All IsSound sys.waiting
      → Holds sys.service xs
      → Kept env t i xs sys (hide env sys) 0
  unfolding hide
  hide-Kept xs sys k h =
      let s = sys.service in
      let (batch, left) = taken env s xs h in
      let rest = drop s.max_batch_size xs in
      let b = (dequeue_many s.max_batch_size s.sync_queue).0 in
      let counted : many t i xs ≡ many t i b + many t i rest =
        many-take-drop env t i s.max_batch_size xs
        ∙ ap (λ l. many t i l + many t i rest) (sym batch) in
      elim (flush_on_page_hide-cases env s) [
        | idle e ↦ subst (Left xs sys b) (sym e) (idle-Kept b xs s sys k h)
        | empty n e ↦
            subst (Left xs sys b) (sym e)
              (empty-Kept b rest xs (rest_of env s) sys k left n counted)
        | nobody n e ↦
            subst (Left xs sys b) (sym e)
              (abandoned-Kept b rest xs (rest_of env s) sys k left counted)
        | took e ↦
            subst (Left xs sys b) (sym e)
              (delivered-Kept b rest xs (sent_of env s) sys k left counted)
        | not_took e ↦
            subst (Left xs sys b) (sym e)
              (refused-Kept b rest xs (rest_of env s) sys k left counted)
      ]
    where
      Left : List SyncChange → System → List SyncChange → Outcome → Type 0
      Left xs sys b o = Kept env t i xs sys (hide_with env b o sys) 0

module _ (env : Env) (known : env.identity ≡ true) where
  abandoned-begin_flush : (sys : System) → (begin_flush env sys).abandoned ≡ sys.abandoned
  unfolding begin_flush begin_commit
  abandoned-begin_flush sys = ground arith

  abandoned-begin_pre_run : (sys : System) → (begin_pre_run env sys).abandoned ≡ sys.abandoned
  unfolding begin_pre_run begin_commit
  abandoned-begin_pre_run sys = ground arith

  abandoned-hide_with :
      (batch : List SyncChange) (sys : System) (b : Bool) (s : SyncService)
      → (hide_with env batch (returned b s) sys).abandoned ≡ sys.abandoned
  unfolding hide_with
  abandoned-hide_with batch sys true s = refl
  abandoned-hide_with batch sys false s = refl

  -- With a user and a project it does not throw.
  returned-flush_on_page_hide :
      (s : SyncService) → (b : Bool) × (u : SyncService) × (flush_on_page_hide env s ≡ returned b u)
  returned-flush_on_page_hide s = elim (flush_on_page_hide-cases env s) [
    | idle e ↦ (_, _, e)
    | empty n e ↦ (_, _, e)
    | nobody n e ↦ cc
    | took e ↦ (_, _, e)
    | not_took e ↦ (_, _, e)
  ]

  abandoned-hide : (sys : System) → (hide env sys).abandoned ≡ sys.abandoned
  unfolding hide
  abandoned-hide sys =
      let (b, u, e) = returned-flush_on_page_hide sys.service in
      rw e (abandoned-hide_with _ sys b u)

  abandoned-answer_at :
      (n : ℕ) (o : Option Waiting) (a : Option SyncBatchResponse) (sys : System)
      → (answer_at env n o a sys).abandoned ≡ sys.abandoned
  unfolding answer_at
  abandoned-answer_at n none a sys = refl
  abandoned-answer_at n (some w) a sys = refl

  abandoned-step : (e : Event) (sys : System) → (step env e sys).abandoned ≡ sys.abandoned
  unfolding step answer
  abandoned-step (queue_event u j k content now) sys = refl
  abandoned-step flush_event sys = abandoned-begin_flush sys
  abandoned-step pre_run_event sys = abandoned-begin_pre_run sys
  abandoned-step page_hide_event sys = abandoned-hide sys
  abandoned-step (answer_event n a) sys = abandoned-answer_at n (get_elem? sys.waiting n) a sys

  pub abandoned-run_events :
      (es : List Event) (sys : System) → (run_events env es sys).abandoned ≡ sys.abandoned
  unfolding run_events
  abandoned-run_events [] sys = refl
  abandoned-run_events (e ∷ es) sys =
      abandoned-run_events es (step env e sys) ∙ abandoned-step e sys
