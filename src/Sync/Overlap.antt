-- ===== src/Sync/Overlap.antt =====
-- ui-v2/src/modules/sync/sync-service.ts with calls that overlap: `flush` and `flushPendingBeforeRun`
-- give way at each `await` of the server's answer, and other calls run before it comes. A run is a list
-- of events; `commitBatch` stands between two of them as a `Waiting`.
pub mod Sequence
pub mod Counts
pub mod Kept
mod Sends
mod Hides
pub mod Steps
use tokyo_tester.Base.{
  ℕ, String, Bool, true, false, not, ◌||◌, Option, none, some, List, [], ◌∷◌, ◌++◌, get_elem?, take,
  drop, suc, if◌then◌else◌,
}
use tokyo_tester.Json.{JsonValue}
use tokyo_tester.Queue.{dequeue_many, is_empty}
use tokyo_tester.Sync.{EntityType, ChangeType, SyncChange, SyncBatchResponse}
use tokyo_tester.Sync.Order.{order_sync_changes}
use tokyo_tester.Sync.Service.{
  SyncService, Env, set_queue, is_nil, persist_queue, requeue, repair_missing_entity_updates,
  Outcome, returned, threw, flush_on_page_hide, rejected, is_pre_run, dispatch_conflicts,
  queue_change, dequeue_matching,
}

-- A `commitBatch` at its first `await`, or at its second with the repaired batch.
pub data Waiting : Type 0 where
  first : List SyncChange → Waiting
  second : List SyncChange → List SyncChange → Waiting

-- `delivered` are the changes that answers without errors have ended, or that `sendBeacon` took, the
-- first ones first. `abandoned` are those that `flushOnPageHide` had taken out of the queue when it threw.
pub record System : Type 0 where
  pub service : SyncService
  pub waiting : List Waiting
  pub delivered : List SyncChange
  pub abandoned : List SyncChange

pub data Event : Type 0 where
  queue_event : EntityType → String → ChangeType → JsonValue → String → Event
  flush_event pre_run_event page_hide_event : Event
  answer_event : ℕ → Option SyncBatchResponse → Event

-- What the continuation of a `commitBatch` leaves.
pub record Finish : Type 0 where
  pub service : SyncService
  pub more : List Waiting
  pub done : List SyncChange

module _ (env : Env) where
  -- `sendBatch` up to its `await`: without a user or a project nothing is sent, and the answer is that
  -- it throws.
  unfoldable pub begin_send : List SyncChange → SyncService → SyncService
  begin_send changes s =
      if env.identity then record s { sent = order_sync_changes changes ∷ s.sent } else s

  -- The end of `commitBatch` for a batch with this answer.
  unfoldable pub conclude_with : List SyncChange → SyncBatchResponse → SyncService → Finish
  conclude_with batch r s =
      if rejected r
      then record { service = requeue env batch s; more = []; done = [] }
      else record { service = dispatch_conflicts env r batch s; more = []; done = batch }

  -- What follows the repair, if one is made: the repaired batch is sent and waited for.
  unfoldable pub mend :
      List SyncChange → SyncBatchResponse → Option (List SyncChange) → SyncService → Finish
  mend batch r none s = conclude_with batch r s
  mend batch r (some repaired) s = record {
    service = begin_send repaired s;
    more = second batch repaired ∷ [];
    done = [];
  }

  -- `commitBatch` from the `await` on.
  unfoldable pub resume : Waiting → Option SyncBatchResponse → SyncService → Finish
  resume (first batch) none s = record { service = requeue env batch s; more = []; done = [] }
  resume (first batch) (some r) s = mend batch r (repair_missing_entity_updates batch r.errors) s
  resume (second batch repaired) none s = record {
    service = requeue env batch s;
    more = [];
    done = [];
  }
  resume (second batch repaired) (some r) s = conclude_with repaired r s

  -- `commitBatch` up to its first `await`.
  unfoldable pub begin_commit : List SyncChange → SyncService → System → System
  begin_commit batch s sys = record sys {
    service = begin_send batch s;
    waiting = sys.waiting ++ first batch ∷ [];
  }

  unfoldable pub begin_flush : System → System
  begin_flush sys =
      let s = sys.service in
      if not s.enabled || is_empty s.sync_queue
      then sys
      else let (batch, q) = dequeue_many s.max_batch_size s.sync_queue in
        let s' = persist_queue env (set_queue q s) in
        if is_nil batch then record sys { service = s' } else begin_commit batch s' sys

  -- One round of `flushPendingBeforeRun`.
  unfoldable pub begin_pre_run : System → System
  begin_pre_run sys =
      let (batch, s') = dequeue_matching env is_pre_run sys.service in
      if is_nil batch then record sys { service = s' } else begin_commit batch s' sys

  -- The call that waits at place `n`, if there is one, goes on.
  unfoldable pub answer_at : ℕ → Option Waiting → Option SyncBatchResponse → System → System
  answer_at n none a sys = sys
  answer_at n (some w) a sys =
      let f = resume w a sys.service in
      record {
        service = f.service;
        waiting = take n sys.waiting ++ (f.more ++ drop (suc n) sys.waiting);
        delivered = sys.delivered ++ f.done;
        abandoned = sys.abandoned;
      }

  unfoldable pub answer : ℕ → Option SyncBatchResponse → System → System
  answer n a sys = answer_at n (get_elem? sys.waiting n) a sys

  -- `flushOnPageHide` has no `await`. The batch is what it takes out of the queue.
  unfoldable pub hide_with : List SyncChange → Outcome → System → System
  hide_with batch (returned true s) sys = record sys {
    service = s;
    delivered = sys.delivered ++ batch;
  }
  hide_with batch (returned false s) sys = record sys { service = s }
  hide_with batch (threw s) sys = record sys { service = s; abandoned = sys.abandoned ++ batch }

  unfoldable pub hide : System → System
  hide sys =
      let s = sys.service in
      hide_with (dequeue_many s.max_batch_size s.sync_queue).0 (flush_on_page_hide env s) sys

  unfoldable pub step : Event → System → System
  step (queue_event t i k content now) sys = record sys {
    service = queue_change env t i k content now sys.service;
  }
  step flush_event sys = begin_flush sys
  step pre_run_event sys = begin_pre_run sys
  step page_hide_event sys = hide sys
  step (answer_event n a) sys = answer n a sys

  unfoldable pub run_events : List Event → System → System
  run_events [] sys = sys
  run_events (e ∷ es) sys = run_events es (step e sys)
